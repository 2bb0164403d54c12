-- ===== src/Trajectory/Examples/Verdicts.antt =====
-- The engine on a small trajectory: engine.py.
use proofstep.Prelude.{String, ◌≡◌, refl, true, not, ◌&&◌, some, [], ◌∷◌, if◌then◌else◌, any}
use proofstep.Prelude.Sort.{sort_by}
use proofstep.Prelude.Dict.{get, put}
use proofstep.Types.{SpanType}
use proofstep.Types.Value.{Fields}
use proofstep.Prelude.Result.{ok}
use proofstep.Trajectory.Predicates.{Evaluated, PredicateError}
use proofstep.Trajectory.Events.{PolicyResult, Message, Detail, passed}
use proofstep.Trajectory.Normalized.{Normalized, by_action, of, actions}
use proofstep.Trajectory.Matchers.{match_kind}
use proofstep.Trajectory.Matchers.Failure.{visible, fail}
use proofstep.Trajectory.Matchers.Presence.{forbidden_action}
use proofstep.Trajectory.Engine.{
  LoadedPolicy, guard, with_line, run_matcher, apply_rule, apply_rules, check_actions,
  referenced_actions, judge,
}
use proofstep.Trajectory.Engine.Verdict.{
  asserts_presence, unjudged, blocks, passed-judge, inconclusive-judge,
}
use proofstep.Trajectory.Engine.Attribution.{AllFrom, judge-AllFrom}
use proofstep.Trajectory.Examples.{pay, order_rule, no_delete, run_of, search, confirm}

-- No predicate is evaluated here.
abbrev no_predicates : String → Fields → Evaluated
no_predicates source names = Evaluated.broken (PredicateError.failed source)

abbrev pub shop_policy : LoadedPolicy
shop_policy = record {
  policy = record {
    name = "shop";
    aliases = [];
    include = record { span_types = SpanType.tool ∷ []; exclude_names = [] };
    rules = order_rule ∷ no_delete ∷ [];
  };
  line_of_rule = ("no_pay", 7) ∷ [];
}

abbrev cut_short : Normalized
cut_short = run_of (search ∷ confirm ∷ pay ∷ []) true

abbrev pub the_result : PolicyResult
the_result = record {
  policy_name = "shop";
  failures =
      with_line (some 7) (
        fail no_delete (Message.forbidden_invoked "pay" 1) (some pay)
          (Detail.must_never_occur "pay") (Detail.occurrences 1) (pay ∷ []))
      ∷ [];
  events = cut_short.events;
  incomplete = true;
  inconclusive_rules = "confirm_first" ∷ [];
  warnings = [];
}

returned : judge no_predicates shop_policy cut_short ≡ ok the_result
unfolding judge apply_rules apply_rule guard run_matcher match_kind forbidden_action visible of
    by_action actions check_actions referenced_actions get put sort_by
returned = refl

passed-judge_example : passed the_result ≡ (
    not (
      any
        (λ rule.
          blocks no_predicates shop_policy cut_short
            (apply_rule no_predicates shop_policy cut_short rule))
        shop_policy.policy.rules)
    && not (cut_short.incomplete && any asserts_presence shop_policy.policy.rules))
passed-judge_example = passed-judge no_predicates shop_policy cut_short the_result returned

inconclusive-judge_example :
    the_result.inconclusive_rules
    ≡ (if cut_short.incomplete then unjudged shop_policy.policy.rules else [])
inconclusive-judge_example =
    inconclusive-judge no_predicates shop_policy cut_short the_result returned

judge-AllFrom_example : AllFrom shop_policy cut_short shop_policy.policy.rules the_result.failures
judge-AllFrom_example = judge-AllFrom shop_policy cut_short no_predicates the_result returned
