-- ===== src/Trajectory/Matchers/Precedence/Evidence.antt =====
-- What `forbidden_before` and `forbidden_after` say of the events.
use proofstep.Prelude.{
  ◌<◌, String, ◌≡◌, refl, ◌↔◌, Bool, true, false, ◌&&◌, Option, none, some, List, [], ◌∷◌, arith,
  any, filter, find?,
}
use proofstep.Prelude.{any-filter, any-false, filter-eq-nil, filter-ne-nil}
use proofstep.Trajectory.Events.{TrajectoryEvent}
use proofstep.Trajectory.Schema.{Rule}
use proofstep.Trajectory.Normalized.{Normalized}
use proofstep.Trajectory.Normalized.Lookup.{is_action, first-eq-find?}
use proofstep.Trajectory.Matchers.Presence.Scan.{is_occurrence, visible-of}
use proofstep.Trajectory.Matchers.Precedence.{
  early_failures, late_failures, same_group, strictly_before, forbidden_before, before_failures,
  forbidden_after, after_failures,
}

-- An event comes too early for a gate: there is none, or the event is strictly before it.
abbrev pub is_early : Option TrajectoryEvent → TrajectoryEvent → Bool
is_early none e = true
is_early (some gate) e = strictly_before e gate

abbrev pub is_late : Option TrajectoryEvent → TrajectoryEvent → Bool
is_late none e = false
is_late (some gate) e = strictly_before gate e

before-nil :
    (rule : Rule) (action before : String) (gate : Option TrajectoryEvent)
    (es : List TrajectoryEvent)
    → (before_failures rule action before gate es ≡ []) ↔ (any (is_early gate) es ≡ false)
unfolding before_failures
before-nil rule action before none [] = (λ h. refl, λ h. refl)
before-nil rule action before none (e ∷ es) = (λ h. cc, λ h. cc)
before-nil rule action before (some gate) es =
    (λ h. filter-ne-nil p es (early (filter p es) h), λ h. rw (filter-eq-nil p es h))
  where
    p : TrajectoryEvent → Bool
    p e = strictly_before e gate

    early : (xs : List TrajectoryEvent) → early_failures rule action before gate xs ≡ [] → xs ≡ []
    early [] h = refl
    early (x ∷ xs) h = cc

-- A `forbidden_before` rule reports no failure exactly when no visible event of `action` is too
-- early for the first event of `before` in the trajectory.
pub forbidden_before_iff :
    (rule : Rule) (action before : String) (norm : Normalized)
    → (forbidden_before rule action before norm ≡ []) ↔ (
        any
          (λ e. is_occurrence rule action e && is_early (find? (is_action before) norm.events) e)
          norm.events
        ≡ false)
unfolding forbidden_before
forbidden_before_iff rule action before norm =
    let gate = find? (is_action before) norm.events in
    rw
      (
        visible-of rule action norm,
        first-eq-find? norm before,
        ← any-filter (is_early gate) (is_occurrence rule action) norm.events,
      )
      (before-nil rule action before gate (filter (is_occurrence rule action) norm.events))

after-nil :
    (rule : Rule) (action after : String) (gate : Option TrajectoryEvent)
    (es : List TrajectoryEvent)
    → (after_failures rule action after gate es ≡ []) ↔ (any (is_late gate) es ≡ false)
unfolding after_failures
after-nil rule action after none es = (λ h. any-false es, λ h. refl)
after-nil rule action after (some gate) es =
    (λ h. filter-ne-nil p es (late (filter p es) h), λ h. rw (filter-eq-nil p es h))
  where
    p : TrajectoryEvent → Bool
    p e = strictly_before gate e

    late : (xs : List TrajectoryEvent) → late_failures rule action after gate xs ≡ [] → xs ≡ []
    late [] h = refl
    late (x ∷ xs) h = cc

-- A `forbidden_after` rule reports no failure exactly when no visible event of `action` has the
-- first event of `after` strictly before it.
pub forbidden_after_iff :
    (rule : Rule) (action after : String) (norm : Normalized)
    → (forbidden_after rule action after norm ≡ []) ↔ (
        any
          (λ e. is_occurrence rule action e && is_late (find? (is_action after) norm.events) e)
          norm.events
        ≡ false)
unfolding forbidden_after
forbidden_after_iff rule action after norm =
    let gate = find? (is_action after) norm.events in
    rw
      (
        visible-of rule action norm,
        first-eq-find? norm after,
        ← any-filter (is_late gate) (is_occurrence rule action) norm.events,
      )
      (after-nil rule action after gate (filter (is_occurrence rule action) norm.events))

-- A race is no violation: two events of one parallel group are not strictly ordered, whatever their
-- start times, and of two others the one that starts first is strictly before the other.
pub strictly_before_iff :
    (a b : TrajectoryEvent)
    → (strictly_before a b ≡ true)
      ↔ ((same_group a.parallel_group b.parallel_group ≡ false) × (a.started_at < b.started_at))
unfolding strictly_before
strictly_before_iff a b = (λ h. ground arith, λ h. ground arith)
