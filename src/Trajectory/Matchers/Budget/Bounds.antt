-- ===== src/Trajectory/Matchers/Budget/Bounds.antt =====
-- What `limit` and `max_retries` bound.
use proofstep.Prelude.{
  ℕ, ◌≤◌, String, ◌≡◌, refl, sym, ◌∙◌, ◌↔◌, Bool, not, ◌&&◌, Option, none, some, [], arith, length,
  filter,
}
use proofstep.Prelude.{filter-filter, filter_congr}
use proofstep.Trajectory.Events.{TrajectoryEvent}
use proofstep.Trajectory.Schema.{Rule}
use proofstep.Trajectory.Normalized.{Normalized}
use proofstep.Trajectory.Matchers.Presence.Scan.{is_occurrence, visible-of}
use proofstep.Trajectory.Matchers.Budget.{budgeted, limit}

-- A visible event of the action that is no retry.
abbrev pub is_call : Rule → String → TrajectoryEvent → Bool
is_call rule action e = is_occurrence rule action e && not e.is_retry

budgeted-eq-filter :
    (rule : Rule) (action : String) (norm : Normalized)
    → budgeted rule action norm ≡ filter (is_call rule action) norm.events
unfolding budgeted
budgeted-eq-filter rule action norm =
    rw (visible-of rule action norm) (filter-filter _ (is_occurrence rule action) norm.events)

-- The number is within the bounds that are set.
abbrev pub IsWithin : Option ℕ → Option ℕ → ℕ → Type 0
IsWithin none none n = Unit
IsWithin none (some least) n = least ≤ n
IsWithin (some most) none n = n ≤ most
IsWithin (some most) (some least) n = (n ≤ most) × (least ≤ n)

-- A `limit` rule reports no failure exactly when the number of visible events of the action that
-- are no retries lies within the bounds that the rule sets.
pub limit_iff :
    (rule : Rule) (action : String) (most least : Option ℕ) (norm : Normalized)
    → (limit rule action most least norm ≡ [])
      ↔ IsWithin most least (length (filter (is_call rule action) norm.events))
unfolding limit
limit_iff rule action none none norm = (λ h. tt, λ h. refl)
limit_iff rule action none (some least) norm =
    rw (budgeted-eq-filter rule action norm) (λ h. ground arith, λ h. ground arith)
limit_iff rule action (some most) none norm =
    rw (budgeted-eq-filter rule action norm) (λ h. ground arith, λ h. ground arith)
limit_iff rule action (some most) (some least) norm =
    rw (budgeted-eq-filter rule action norm) (λ h. ground arith, λ h. ground arith)

-- Retries use up no budget: a `limit` rule reports the same failures when the events that are
-- retries are taken out of the trajectory.
pub limit-without_retries :
    (rule : Rule) (action : String) (most least : Option ℕ) (norm : Normalized)
    → limit rule action most least
        (record norm { events = filter (λ e. not e.is_retry) norm.events })
      ≡ limit rule action most least norm
unfolding limit
limit-without_retries rule action most least norm =
    let others = record norm { events = filter (λ e. not e.is_retry) norm.events } in
    let same : budgeted rule action others ≡ budgeted rule action norm =
      budgeted-eq-filter rule action others
      ∙ filter-filter (is_call rule action) (λ e. not e.is_retry) norm.events
      ∙ filter_congr _ _ (λ e. ground arith) norm.events
      ∙ sym (budgeted-eq-filter rule action norm) in
    rw same
