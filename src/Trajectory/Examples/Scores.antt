-- ===== src/Trajectory/Examples/Scores.antt =====
-- Scores of a complete and of an incomplete trajectory.
use proofstep.Prelude.{◌≡◌, refl, ◌↔◌, true, false, ◌&&◌, none, some, [], ◌∷◌, any}
use proofstep.Prelude.Result.{ok}
use proofstep.Types.Trace.{Trace, is_complete}
use proofstep.Types.Value.{Fields}
use proofstep.Trajectory.Events.{passed}
use proofstep.Trajectory.Schema.{RuleKind}
use proofstep.Trajectory.Engine.{judge, evaluate_policy}
use proofstep.Trajectory.Evaluator.{
  TrajectoryEvaluator, Score, ScoreError, errored, score_of, evaluate_context,
}
use proofstep.Trajectory.Engine.Verdict.{unjudged}
use proofstep.Trajectory.Evaluator.Scores.{is_warned, passed-score_of, incomplete-evaluate_context}
use proofstep.Trajectory.Examples.{rule_of}
use proofstep.Trajectory.Examples.Verdicts.{the_result, shop_policy}
use proofstep.Trajectory.Examples.Predicates.{small_python}
use proofstep.Trajectory.Examples.Traces.{plain}
use proofstep.Trajectory.Normalize.{normalize}
use proofstep.Trajectory.Engine.{apply_rule, apply_rules}

abbrev strict : TrajectoryEvaluator
strict = record { loaded = shop_policy; name = "shop"; fail_on_warnings = true }

passed-score_of_example : ((score_of strict the_result).passed ≡ some true) ↔ (
    (passed the_result ≡ true)
    × ((strict.fail_on_warnings && any is_warned the_result.failures) ≡ false))
passed-score_of_example = passed-score_of strict the_result

-- The exporter dropped all spans.
abbrev lost : Trace
lost = record { spans = []; metadata = Fields.done; state = Fields.done; dropped_span_count = 4 }

abbrev must_pay : TrajectoryEvaluator
must_pay = record {
  loaded = record {
    policy = record shop_policy.policy {
      rules = rule_of "pay" (RuleKind.required_action "pay" 1) ∷ [];
    };
    line_of_rule = [];
  };
  name = "shop";
  fail_on_warnings = false;
}

abbrev not_judged : Score
not_judged = errored "shop" (ScoreError.not_judged ("pay" ∷ []))

scored : evaluate_context small_python plain must_pay (some lost) ≡ ok not_judged
unfolding evaluate_context evaluate_policy judge apply_rules apply_rule normalize score_of
scored = refl

incomplete : is_complete lost ≡ false
unfolding is_complete
incomplete = refl

incomplete-evaluate_context_example :
    (not_judged.value ≡ none)
    × (not_judged.passed ≡ none)
    × (not_judged.error ≡ some (ScoreError.not_judged (unjudged must_pay.loaded.policy.rules)))
incomplete-evaluate_context_example =
    incomplete-evaluate_context small_python plain must_pay lost not_judged scored incomplete refl
