-- ===== src/Trajectory/Matchers/Attribution/Sequences.antt =====
-- Failures of the rules on order and presence.
use proofstep.Prelude.{
  ℕ, String, inl, inr, Option, none, some, List, [], ◌∷◌, Option-cases, drop, filter, find?,
}
use proofstep.Trajectory.Events.{TrajectoryEvent}
use proofstep.Trajectory.Schema.{Rule, OrderMode}
use proofstep.Trajectory.Normalized.{Normalized, of}
use proofstep.Trajectory.Normalized.Lookup.{is_action}
use proofstep.Trajectory.Matchers.Failure.{visible}
use proofstep.Trajectory.Matchers.Ordering.{
  match_steps, order_failure, has_window, contiguous_order, required_order,
}
use proofstep.Trajectory.Matchers.Presence.{forbidden_action, forbidden_failures}
use proofstep.Trajectory.Matchers.Precedence.{
  before_failures, early_failures, after_failures, late_failures, strictly_before,
}
use proofstep.Trajectory.Matchers.Attribution.Base.{AllOf, AllOf-append, AllOf-if, fail-AllOf}

module _ (rule : Rule) where
  pub match_steps-AllOf :
      (steps rest : List String) (es matched : List TrajectoryEvent) (p : ℕ)
      → AllOf rule (match_steps rule steps es rest p matched)
  unfolding match_steps
  match_steps-AllOf steps [] es matched p = tt
  match_steps-AllOf steps (step ∷ rest) es matched p =
      elim (Option-cases (find? (is_action step) (drop p es))) [
        | inl f ↦ rw (f, match_steps) (unfold order_failure in fail-AllOf rule _ _ _ _ _)
        | inr (found, f) ↦ rw (f, match_steps) (match_steps-AllOf steps rest es _ _)
      ]

  pub required_order-AllOf :
      (steps : List String) (mode : OrderMode) (norm : Normalized)
      → AllOf rule (required_order rule steps mode norm)
  unfolding required_order contiguous_order
  required_order-AllOf steps OrderMode.subsequence norm = match_steps-AllOf steps steps _ [] 0
  required_order-AllOf steps OrderMode.contiguous norm =
      AllOf-if rule (has_window steps _ 0 _) _ _ tt (fail-AllOf rule _ _ _ _ _)

  pub forbidden_failures-AllOf :
      (action : String) (es : List TrajectoryEvent) → AllOf rule (forbidden_failures rule action es)
  forbidden_failures-AllOf action [] = tt
  forbidden_failures-AllOf action (e ∷ es) = fail-AllOf rule _ _ _ _ _

  pub forbidden_action-AllOf :
      (actions : List String) (norm : Normalized) → AllOf rule (forbidden_action rule actions norm)
  unfolding forbidden_action
  forbidden_action-AllOf [] norm = tt
  forbidden_action-AllOf (a ∷ actions) norm =
      AllOf-append rule _ _ (forbidden_failures-AllOf a (visible rule (of norm a)))
        (forbidden_action-AllOf actions norm)

  pub before_failures-AllOf :
      (action before : String) (gate : Option TrajectoryEvent) (es : List TrajectoryEvent)
      → AllOf rule (before_failures rule action before gate es)
  unfolding before_failures
  before_failures-AllOf action before none [] = tt
  before_failures-AllOf action before none (e ∷ es) = fail-AllOf rule _ _ _ _ _
  before_failures-AllOf action before (some gate) es =
      early (filter (λ e. strictly_before e gate) es)
    where
      early : (xs : List TrajectoryEvent) → AllOf rule (early_failures rule action before gate xs)
      early [] = tt
      early (x ∷ xs) = fail-AllOf rule _ _ _ _ _

  pub after_failures-AllOf :
      (action after : String) (gate : Option TrajectoryEvent) (es : List TrajectoryEvent)
      → AllOf rule (after_failures rule action after gate es)
  unfolding after_failures
  after_failures-AllOf action after none es = tt
  after_failures-AllOf action after (some gate) es = late (filter (λ e. strictly_before gate e) es)
    where
      late : (xs : List TrajectoryEvent) → AllOf rule (late_failures rule action after gate xs)
      late [] = tt
      late (x ∷ xs) = fail-AllOf rule _ _ _ _ _
