-- ===== src/Trajectory/Matchers/Presence/Scan.antt =====
-- The presence rules against a scan of all events.
use proofstep.Prelude.{
  ℕ, ◌≤◌, String, ◌≡◌, refl, ◌↔◌, Bool, false, ◌&&◌, List, [], ◌∷◌, ◌++◌, arith, length, any,
  filter,
}
use proofstep.Prelude.{any-or, any-false, filter-filter, filter-eq-nil, filter-ne-nil}
use proofstep.Trajectory.Events.{TrajectoryEvent, PolicyFailure}
use proofstep.Trajectory.Schema.{Rule}
use proofstep.Trajectory.Normalized.{Normalized, of}
use proofstep.Trajectory.Normalized.Lookup.{is_action, of-eq-filter}
use proofstep.Trajectory.Matchers.Failure.{visible, is_visible}
use proofstep.Trajectory.Matchers.Presence.{required_action, forbidden_action, forbidden_failures}

-- A visible event of the action.
abbrev pub is_occurrence : Rule → String → TrajectoryEvent → Bool
is_occurrence rule action e = is_action action e && is_visible rule e

pub visible-of :
    (rule : Rule) (action : String) (norm : Normalized)
    → visible rule (of norm action) ≡ filter (is_occurrence rule action) norm.events
unfolding visible
visible-of rule action norm =
    rw (of-eq-filter norm action) (filter-filter (is_visible rule) (is_action action) norm.events)

-- A `required_action` rule reports no failure exactly when a scan of all events counts at least
-- `min_count` visible ones of the action.
pub required_action_iff :
    (rule : Rule) (action : String) (min_count : ℕ) (norm : Normalized)
    → (required_action rule action min_count norm ≡ [])
      ↔ (min_count ≤ length (filter (is_occurrence rule action) norm.events))
unfolding required_action
required_action_iff rule action min_count norm =
    rw (visible-of rule action norm) (λ h. ground arith, λ h. ground arith)

-- A visible event of one of the actions.
abbrev pub is_forbidden : Rule → List String → TrajectoryEvent → Bool
is_forbidden rule actions e = any (λ a. is_occurrence rule a e) actions

forbidden-append :
    (rule : Rule) (action : String) (es : List TrajectoryEvent) (rest : List PolicyFailure)
    → (forbidden_failures rule action es ++ rest ≡ []) ↔ ((es ≡ []) × (rest ≡ []))
forbidden-append rule action [] rest = (λ h. (refl, h), λ h. h.1)
forbidden-append rule action (e ∷ es) rest = (λ h. cc, λ h. let h' = h.0 in cc)

-- A `forbidden_action` rule reports no failure exactly when no visible event of the trajectory has
-- one of its actions.
pub forbidden_action_iff :
    (rule : Rule) (actions : List String) (norm : Normalized)
    → (forbidden_action rule actions norm ≡ [])
      ↔ (any (is_forbidden rule actions) norm.events ≡ false)
unfolding forbidden_action
forbidden_action_iff rule [] norm = (λ h. any-false norm.events, λ h. refl)
forbidden_action_iff rule (action ∷ actions) norm =
    let occurs = is_occurrence rule action in
    let here =
      forbidden-append rule action (visible rule (of norm action))
        (forbidden_action rule actions norm) in
    let there = forbidden_action_iff rule actions norm in
    let split = any-or occurs (is_forbidden rule actions) norm.events in
    (
      λ h.
          let none_here = filter-ne-nil occurs norm.events (rw visible-of at (here.0 h).0) in
          let none_there = there.0 (here.0 h).1 in rw (split, none_here) none_there,
      λ h.
          let neither = rw split at h in
          here.1 (
            rw visible-of (filter-eq-nil occurs norm.events (ground arith)),
            there.1 (ground arith),
          ),
    )
