-- ===== src/Trajectory/Evaluator.antt =====
-- The policy as an evaluator of examples:
-- packages/trajectory-engine/src/proofstep_trajectory/evaluator.py.
use proofstep.Prelude.{
  ℕ, String, Bool, false, not, ◌&&◌, ◌||◌, Option, none, some, List, [], if◌then◌else◌, length,
  filter,
}
use proofstep.Prelude.{is_empty}
use proofstep.Prelude.Result.{Result, ok, ◌>>=◌}
use proofstep.Types.{is_block}
use proofstep.Types.Trace.{Trace}
use proofstep.Trajectory.Predicates.{Python}
use proofstep.Trajectory.Events.{PolicyFailure, PolicyResult, Warning, blocking}
use proofstep.Trajectory.Normalize.Select.{Host}
use proofstep.Trajectory.Engine.{LoadedPolicy, evaluate_policy}
pub mod Scores

-- Why a score is errored: no trace, or rules that could not be judged.
pub data ScoreError : Type 0 where
  no_trace : String → ScoreError
  not_judged : List String → ScoreError

-- The value is 1 or 0. Of `raw`, the hash of the policy is left out.
pub record Score : Type 0 where
  pub metric : String
  pub value : Option ℕ
  pub passed : Option Bool
  pub error : Option ScoreError
  pub explained : Bool
  pub event_count : ℕ
  pub failures : List PolicyFailure
  pub warnings : List Warning

pub record TrajectoryEvaluator : Type 0 where
  pub loaded : LoadedPolicy
  pub name : String
  pub fail_on_warnings : Bool

-- `Score.failure`
abbrev pub errored : String → ScoreError → Score
errored metric error = record {
  metric = metric;
  value = none;
  passed = none;
  error = some error;
  explained = false;
  event_count = 0;
  failures = [];
  warnings = [];
}

abbrev pub fails : Bool → PolicyFailure → Bool
fails fail_on_warnings f = is_block f.severity || (fail_on_warnings && not (blocking f))

abbrev pub one_if : Bool → ℕ
one_if b = if b then 1 else 0

unfoldable pub score_of : TrajectoryEvaluator → PolicyResult → Score
score_of ev result =
    if not (is_empty result.inconclusive_rules)
    then errored ev.name (ScoreError.not_judged result.inconclusive_rules)
    else (let failing = filter (fails ev.fail_on_warnings) result.failures in
        record {
          metric = ev.name;
          value = some (one_if (is_empty failing));
          passed = some (is_empty failing);
          error = none;
          explained = not (is_empty failing);
          event_count = length result.events;
          failures = result.failures;
          warnings = result.warnings;
        })

-- `evaluate`: the trace of the context, if there is one.
unfoldable pub evaluate_context : Python → Host → TrajectoryEvaluator → Option Trace → Result Score
evaluate_context py host ev none = ok (errored ev.name (ScoreError.no_trace ev.loaded.policy.name))
evaluate_context py host ev (some trace) = do
  result ← evaluate_policy py host ev.loaded trace
  ok (score_of ev result)
