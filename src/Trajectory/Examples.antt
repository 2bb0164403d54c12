-- ===== src/Trajectory/Examples.antt =====
-- Runs of the engine's definitions on small trajectories, and the theorems at them.
mod Traces
mod Verdicts
mod Predicates
mod Scores
use proofstep.Prelude.{
  ℕ, ◌+◌, ◌-◌, ◌*◌, String, ◌≡◌, refl, ◌≢◌, ◌↔◌, Bool, true, false, ◌&&◌, none, some, List, [], ◌∷◌,
  Sublistᴰ, arith, any, find?,
}
use proofstep.Types.{Status, Severity}
use proofstep.Types.Value.{Value, Items, Fields}
use proofstep.Prelude.Result.{ok}
use proofstep.Trajectory.Events.{TrajectoryEvent}
use proofstep.Trajectory.Schema.{Rule, RuleKind, OrderMode}
use proofstep.Trajectory.Normalized.{Normalized}
use proofstep.Trajectory.Normalized.Lookup.{is_action}
use proofstep.Trajectory.Matchers.Failure.{visible}
use proofstep.Trajectory.Matchers.Ordering.{required_order, action_names}
use proofstep.Trajectory.Matchers.Ordering.Subsequence.{required_order_iff}
use proofstep.Trajectory.Matchers.Presence.{forbidden_action}
use proofstep.Trajectory.Matchers.Presence.Scan.{is_occurrence, forbidden_action_iff}
use proofstep.Trajectory.Matchers.Precedence.{forbidden_before}
use proofstep.Trajectory.Matchers.Precedence.Evidence.{is_early, forbidden_before_iff}
use proofstep.Prelude.{◌||◌, str_eq}
use proofstep.Trajectory.Matchers.Budget.{max_retries}
use proofstep.Trajectory.Matchers.Budget.Retries.{is_over, max_retries_iff}

abbrev pub call : ℕ → String → Status → Fields → TrajectoryEvent
call n action status args = record {
  index = n;
  action = action;
  span_id = action;
  parent_span_id = none;
  depth = 0;
  started_at = 10 * n;
  ended_at = some (10 * n + 5);
  status = status;
  args = args;
  args_hash = "ab12";
  attempt = 1;
  is_retry = false;
  parallel_group = none;
  result_summary = Value.null;
}

abbrev pub search : TrajectoryEvent
search = call 0 "search" Status.ok Fields.done

abbrev pub confirm : TrajectoryEvent
confirm = call 1 "confirm" Status.ok Fields.done

abbrev pub pay : TrajectoryEvent
pay = call 2 "pay" Status.ok (Fields.field "card" (Value.arr Items.nil) Fields.done)

abbrev pub run_of : List TrajectoryEvent → Bool → Normalized
run_of es incomplete = record {
  events = es;
  state = Fields.done;
  incomplete = incomplete;
  warnings = [];
}

abbrev pub shop : Normalized
shop = run_of (search ∷ confirm ∷ pay ∷ []) false

abbrev pub rule_of : String → RuleKind → Rule
rule_of id kind = record {
  id = id;
  severity = Severity.block;
  message = none;
  when = none;
  ignore_failed = true;
  kind = kind;
}

abbrev pub order_rule : Rule
order_rule =
    rule_of "confirm_first" (RuleKind.required_order ("search" ∷ "pay" ∷ []) OrderMode.subsequence)

abbrev pub no_delete : Rule
no_delete = rule_of "no_pay" (RuleKind.forbidden_action ("pay" ∷ []))

required_order_iff_example :
    (required_order order_rule ("search" ∷ "pay" ∷ []) OrderMode.subsequence shop ≡ [])
    ↔ Sublistᴰ ("search" ∷ "pay" ∷ []) (action_names (visible order_rule shop.events))
required_order_iff_example =
    required_order_iff order_rule ("search" ∷ "pay" ∷ []) shop 0 (ground arith)

forbidden_before_iff_example : (forbidden_before no_delete "pay" "confirm" shop ≡ []) ↔ (
    any
      (λ e. is_occurrence no_delete "pay" e && is_early (find? (is_action "confirm") shop.events) e)
      shop.events
    ≡ false)
forbidden_before_iff_example = forbidden_before_iff no_delete "pay" "confirm" shop

part_fails : forbidden_action no_delete ("pay" ∷ []) (run_of (pay ∷ []) true) ≢ []
part_fails h =
    let unseen = (forbidden_action_iff no_delete ("pay" ∷ []) (run_of (pay ∷ []) true)).0 h in
    ground arith

kept : Sublistᴰ (pay ∷ []) shop.events
kept = Sublistᴰ.cons (Sublistᴰ.cons (Sublistᴰ.cons-cons refl Sublistᴰ.slnil))

max_retries_iff_example :
    (max_retries order_rule "*" 2 shop ≡ [])
    ↔ (any (λ e. (str_eq "*" "*" || is_action "*" e) && is_over 2 e) shop.events ≡ false)
max_retries_iff_example = max_retries_iff order_rule "*" 2 shop
