-- ===== src/Trajectory/Evaluator/Scores.antt =====
-- A score against the result of its policy, and against its trace.
use proofstep.Prelude.{
  ◌≡◌, ◌↔◌, Bool, true, false, not, ◌&&◌, none, some, List, [], ◌∷◌, arith, any, filter,
}
use proofstep.Prelude.{is_empty}
use proofstep.Prelude.Result.{ok, >>=-eq-ok}
use proofstep.Types.Trace.{Trace, is_complete}
use proofstep.Trajectory.Predicates.{Python, evaluate}
use proofstep.Trajectory.Events.{PolicyFailure, PolicyResult, passed, blocking}
use proofstep.Trajectory.Normalize.{normalize}
use proofstep.Trajectory.Normalize.Select.{Host}
use proofstep.Trajectory.Normalize.Chronology.{incomplete-normalize}
use proofstep.Trajectory.Engine.{judge, evaluate_policy}
use proofstep.Trajectory.Engine.Verdict.{
  asserts_presence, unjudged, is_empty-unjudged, inconclusive-judge,
}
use proofstep.Trajectory.Evaluator.{
  Score, ScoreError, TrajectoryEvaluator, fails, score_of, evaluate_context,
}

-- A warning that is no block.
abbrev pub is_warned : PolicyFailure → Bool
is_warned f = not (blocking f)

fails-split :
    (strict : Bool) (fs : List PolicyFailure)
    → is_empty (filter (fails strict) fs)
      ≡ (not (any blocking fs) && not (strict && any is_warned fs))
fails-split strict [] = ground arith
fails-split strict (f ∷ fs) = ground (arith, fails-split strict fs)

-- A score passes exactly when its policy result does, and no rule of lesser severity failed where
-- warnings count.
pub passed-score_of :
    (ev : TrajectoryEvaluator) (r : PolicyResult)
    → ((score_of ev r).passed ≡ some true)
      ↔ ((passed r ≡ true) × ((ev.fail_on_warnings && any is_warned r.failures) ≡ false))
unfolding score_of passed
passed-score_of ev r = ground (arith, fails-split ev.fail_on_warnings r.failures)

-- When a trace is not complete and the policy asserts that something happened, an evaluation that
-- returns gives an errored score: with no value and no verdict, and with the error that names the
-- rules that could not be judged, which are those that assert presence, in their order.
pub incomplete-evaluate_context :
    (py : Python) (host : Host) (ev : TrajectoryEvaluator) (trace : Trace) (score : Score)
    → evaluate_context py host ev (some trace) ≡ ok score
    → is_complete trace ≡ false
    → any asserts_presence ev.loaded.policy.rules ≡ true
    → (score.value ≡ none)
      × (score.passed ≡ none)
      × (score.error ≡ some (ScoreError.not_judged (unjudged ev.loaded.policy.rules)))
unfolding evaluate_context evaluate_policy score_of
incomplete-evaluate_context py host ev trace score h cut asserts =
    let norm = normalize host trace ev.loaded.policy in
    let (r, judged, k) =
      >>=-eq-ok (judge (evaluate py) ev.loaded norm) (λ result. ok (score_of ev result)) h in
    let left_out = inconclusive-judge (evaluate py) ev.loaded norm r judged in
    let cut_short = incomplete-normalize host trace ev.loaded.policy in
    let named : r.inconclusive_rules ≡ unjudged ev.loaded.policy.rules =
      ground (arith, left_out, cut_short) in
    let some_rule = is_empty-unjudged ev.loaded.policy.rules in
    (
      ground (arith, k, named, some_rule),
      ground (arith, k, named, some_rule),
      ground (arith, k, named, some_rule),
    )
