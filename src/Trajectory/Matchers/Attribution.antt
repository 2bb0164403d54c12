-- ===== src/Trajectory/Matchers/Attribution.antt =====
-- Every failure that a matcher reports carries its rule's id, kind and severity.
pub mod Base
mod Sequences
mod Counts
mod Conditions
use proofstep.Prelude.{◌-◌, String, ◌≡◌, List, [], leb, if◌then◌else◌}
use proofstep.Types.Value.{Fields}
use proofstep.Prelude.Result.{ok}
use proofstep.Trajectory.Predicates.{Evaluated}
use proofstep.Trajectory.Events.{PolicyFailure}
use proofstep.Trajectory.Schema.{Rule, RuleKind}
use proofstep.Trajectory.Normalized.{Normalized}
use proofstep.Trajectory.Matchers.{match_kind}
use proofstep.Trajectory.Matchers.Ordering.{required_order}
use proofstep.Trajectory.Matchers.Presence.{required_action, forbidden_action}
use proofstep.Trajectory.Matchers.Precedence.{forbidden_before, forbidden_after}
use proofstep.Trajectory.Matchers.Budget.{limit, budgeted, max_retries}
use proofstep.Trajectory.Matchers.Repeats.{unique_action, no_loop}
use proofstep.Trajectory.Matchers.Conditions.{argument_condition, final_state, conditional}
use proofstep.Trajectory.Matchers.Attribution.Base.{
  AllOf, AllOf-append, AllOf-if, fail-AllOf, ok-AllOf,
}
use proofstep.Trajectory.Matchers.Attribution.Sequences.{
  after_failures-AllOf, before_failures-AllOf, forbidden_action-AllOf, required_order-AllOf,
}
use proofstep.Trajectory.Matchers.Attribution.Counts.{
  over_limit-AllOf, repeats-AllOf, retry_failures-AllOf, scan_windows-AllOf, under_limit-AllOf,
}
use proofstep.Trajectory.Matchers.Attribution.Conditions.{
  check_events-AllOf, forbid_actions-AllOf, require_actions-AllOf, state_failures-AllOf,
}

module _ (rule : Rule) where
  pub match_kind-AllOf :
      (evaluate : String → Fields → Evaluated) (kind : RuleKind) (norm : Normalized)
      (fs : List PolicyFailure)
      → match_kind evaluate rule kind norm ≡ ok fs
      → AllOf rule fs
  unfolding match_kind required_action forbidden_before forbidden_after limit unique_action no_loop
      argument_condition conditional final_state max_retries
  match_kind-AllOf evaluate (RuleKind.required_order steps mode) norm fs h =
      ok-AllOf rule _ fs h (required_order-AllOf rule steps mode norm)
  match_kind-AllOf evaluate (RuleKind.required_action action least) norm fs h =
      ok-AllOf rule _ fs h (AllOf-if rule (leb least _) _ _ tt (fail-AllOf rule _ _ _ _ _))
  match_kind-AllOf evaluate (RuleKind.forbidden_action actions) norm fs h =
      ok-AllOf rule _ fs h (forbidden_action-AllOf rule actions norm)
  match_kind-AllOf evaluate (RuleKind.forbidden_before action before) norm fs h =
      ok-AllOf rule _ fs h (before_failures-AllOf rule action before _ _)
  match_kind-AllOf evaluate (RuleKind.forbidden_after action after) norm fs h =
      ok-AllOf rule _ fs h (after_failures-AllOf rule action after _ _)
  match_kind-AllOf evaluate (RuleKind.limit action most least) norm fs h = ok-AllOf rule _ fs h (
      AllOf-append rule _ _ (over_limit-AllOf rule action most (budgeted rule action norm))
        (under_limit-AllOf rule action least (budgeted rule action norm)))
  match_kind-AllOf evaluate (RuleKind.unique_action action parts) norm fs h =
      repeats-AllOf rule action parts [] _ fs h
  match_kind-AllOf evaluate (RuleKind.no_loop window least parts) norm fs h =
      scan_windows-AllOf rule window least parts _ fs h
  match_kind-AllOf evaluate (RuleKind.argument_condition action require) norm fs h =
      ok-AllOf rule _ fs h (check_events-AllOf rule evaluate action require norm.state _)
  match_kind-AllOf evaluate (RuleKind.conditional required forbidden) norm fs h =
      ok-AllOf rule _ fs h (
        AllOf-append rule _ _ (require_actions-AllOf rule required norm)
          (forbid_actions-AllOf rule forbidden norm))
  match_kind-AllOf evaluate (RuleKind.final_state require) norm fs h =
      ok-AllOf rule _ fs h (state_failures-AllOf rule require norm.state _)
  match_kind-AllOf evaluate (RuleKind.max_retries action most) norm fs h =
      ok-AllOf rule _ fs h (retry_failures-AllOf rule most _)
