-- ===== src/Online/Judging.antt =====
-- `_evaluate` of online_eval.py: what a rule says of a trace.
use proofstep.Prelude.{is_empty, ℕ, String, not, Option, none, some, if◌then◌else◌, find?, str_eq}
use proofstep.Prelude.Result.{Result}
use proofstep.Trajectory.Events.{PolicyResult, blocking_failures}
use proofstep.Types.Trace.{Trace}
use proofstep.Trajectory.Predicates.{Python}
use proofstep.Trajectory.Normalize.Select.{Host}
use proofstep.Trajectory.Engine.{LoadedPolicy, evaluate_policy}
use proofstep.Online.Rows.{
  RuleKind, OnlineEvalRule, TraceRow, PolicyVersion, Verdict, Broken, Detail, Store,
}
use proofstep.Online.Loading.{load_trace}

pub data Judgement : Type 0 where
  returned : Verdict → Detail → Option ℕ → ℕ → Judgement
  raised : Broken → Judgement

-- The verdict of a result, and its score.
unfoldable pub verdict_of : PolicyResult → Verdict
verdict_of result =
    if not (is_empty (blocking_failures result))
    then Verdict.fail
    else if not (is_empty result.inconclusive_rules)
    then Verdict.inconclusive
    else Verdict.pass

abbrev pub score_of : Verdict → Option ℕ
score_of Verdict.pass = some 1
score_of Verdict.fail = some 0
score_of _ = none

-- What the code takes from elsewhere: the digest of sampling, the parser of policies (`none` is a
-- PolicyError), the predicates and the host of the engine, and the calendar.
pub record World : Type 0 where
  pub project_id : String
  pub four_bytes : String → String → ℕ
  pub load_policy : String → Option LoadedPolicy
  pub python : Python
  pub host : Host
  pub month_start : ℕ → ℕ

module _ (world : World) where
  abbrev pub of_result : ℕ → Result PolicyResult → Judgement
  of_result version Result.type_error = Judgement.raised Broken.type_error
  of_result version (Result.ok result) =
      Judgement.returned (verdict_of result) (Detail.judged version result)
        (score_of (verdict_of result)) 0

  abbrev pub on_trace : ℕ → LoadedPolicy → Option Trace → Judgement
  on_trace version policy none = Judgement.raised Broken.value_error
  on_trace version policy (some trace) =
      of_result version (evaluate_policy world.python world.host policy trace)

  abbrev pub with_policy : Store → TraceRow → ℕ → Option LoadedPolicy → Judgement
  with_policy store trace version none = Judgement.raised Broken.policy_error
  with_policy store trace version (some policy) = on_trace version policy (load_trace store trace)

  -- `session.get(TrajectoryPolicyVersion, id)`
  abbrev pub find_version : Store → Option String → Option PolicyVersion
  find_version store none = none
  find_version store (some id) = find? (λ v. str_eq v.id id) store.policy_versions

  abbrev pub on_version : Store → TraceRow → Option PolicyVersion → Judgement
  on_version store trace none = Judgement.raised Broken.policy_error
  on_version store trace (some v) =
      if str_eq v.project_id world.project_id
      then with_policy store trace v.version (world.load_policy v.source_yaml)
      else Judgement.raised Broken.policy_error

  unfoldable pub evaluate_trajectory : Store → OnlineEvalRule → TraceRow → Judgement
  evaluate_trajectory store rule trace =
      on_version store trace (find_version store rule.policy_version_id)

  -- `_evaluate`
  unfoldable pub evaluate : Store → OnlineEvalRule → TraceRow → Judgement
  evaluate store rule trace = elim rule.kind [
    | RuleKind.trajectory ↦ evaluate_trajectory store rule trace
    | RuleKind.llm_judge ↦ Judgement.raised Broken.not_implemented
    | RuleKind.deterministic ↦ Judgement.raised Broken.not_implemented
  ]
