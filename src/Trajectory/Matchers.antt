-- ===== src/Trajectory/Matchers.antt =====
-- The twelve rule matchers: packages/trajectory-engine/src/proofstep_trajectory/matchers.py.
pub mod Failure
pub mod Ordering
pub mod Presence
pub mod Precedence
pub mod Budget
pub mod Repeats
pub mod Conditions
pub mod Attribution
use proofstep.Prelude.{String, Bool, true, false, List}
use proofstep.Types.Value.{Fields}
use proofstep.Prelude.Result.{Result, ok}
use proofstep.Trajectory.Predicates.{Evaluated}
use proofstep.Trajectory.Events.{PolicyFailure}
use proofstep.Trajectory.Schema.{Rule, RuleKind}
use proofstep.Trajectory.Normalized.{Normalized}
use Ordering.{required_order}
use Presence.{required_action, forbidden_action}
use Precedence.{forbidden_before, forbidden_after}
use Budget.{limit, max_retries}
use Repeats.{unique_action, no_loop}
use Conditions.{argument_condition, conditional, final_state}

-- `REQUIRES_COMPLETE`
abbrev pub requires_complete : RuleKind → Bool
requires_complete (RuleKind.required_order _ _) = true
requires_complete (RuleKind.required_action _ _) = true
requires_complete (RuleKind.limit _ _ _) = true
requires_complete (RuleKind.conditional _ _) = true
requires_complete _ = false

-- `MATCHERS[rule.kind](rule, norm)`
unfoldable pub match_kind :
    (String → Fields → Evaluated) → Rule → RuleKind → Normalized → Result (List PolicyFailure)
match_kind evaluate rule (RuleKind.required_order steps mode) norm =
    ok (required_order rule steps mode norm)
match_kind evaluate rule (RuleKind.required_action action min_count) norm =
    ok (required_action rule action min_count norm)
match_kind evaluate rule (RuleKind.forbidden_action actions) norm =
    ok (forbidden_action rule actions norm)
match_kind evaluate rule (RuleKind.forbidden_before action before) norm =
    ok (forbidden_before rule action before norm)
match_kind evaluate rule (RuleKind.forbidden_after action after) norm =
    ok (forbidden_after rule action after norm)
match_kind evaluate rule (RuleKind.limit action max_calls min_calls) norm =
    ok (limit rule action max_calls min_calls norm)
match_kind evaluate rule (RuleKind.unique_action action key) norm =
    unique_action rule action key norm
match_kind evaluate rule (RuleKind.no_loop window min_repeats key) norm =
    no_loop rule window min_repeats key norm
match_kind evaluate rule (RuleKind.argument_condition action require) norm =
    ok (argument_condition evaluate rule action require norm)
match_kind evaluate rule (RuleKind.conditional required forbidden) norm =
    ok (conditional rule required forbidden norm)
match_kind evaluate rule (RuleKind.final_state require) norm =
    ok (final_state evaluate rule require norm)
match_kind evaluate rule (RuleKind.max_retries action most) norm =
    ok (max_retries rule action most norm)
