-- ===== src/Gates/Report.antt =====
-- `evaluate_gates`, `_combine` and `GateReport` of gates.py.
use proofstep.Prelude.{
  ℕ, ◌+◌, String, Bool, not, ◌&&◌, none, List, [], ◌∷◌, ◌++◌, ltb, if◌then◌else◌,
}
use proofstep.Prelude.Dict.{Dict}
use proofstep.Prelude.Result.{Result, ok, ◌>>=◌}
use proofstep.Types.{Severity, Verdict, is_blocking}
use proofstep.Gates.Number.{Number}
use proofstep.Gates.Rules.{GateRule, Metric, SignificanceResult, GateResult, Message, blocking}
use proofstep.Gates.Calibration.{GateSet, CalibrationStatus, calibration_results}
use proofstep.Gates.Apply.{apply}
pub mod Verdicts
pub mod Decision

-- `_RANK`
abbrev pub rank : Verdict → ℕ
rank Verdict.pass = 0
rank Verdict.warn = 1
rank Verdict.fail = 2
rank Verdict.error = 3

-- `max(v, w, key=_rank)`
abbrev pub worse : Verdict → Verdict → Verdict
worse v w = if ltb (rank v) (rank w) then w else v

abbrev pub as_blocking : Verdict → Verdict
as_blocking Verdict.error = Verdict.error
as_blocking _ = Verdict.fail

abbrev pub exit_code_of : Verdict → ℕ
exit_code_of Verdict.error = 2
exit_code_of Verdict.fail = 1
exit_code_of _ = 0

module _ {F : Type 0} where
  -- The body of the loop of `_combine`.
  unfoldable pub weigh : Verdict → GateResult F → Verdict
  weigh verdict r =
      if not (is_blocking r.verdict)
      then verdict
      else if not (blocking r)
      then worse verdict Verdict.warn
      else worse verdict (as_blocking r.verdict)

  unfoldable pub combine_from : Verdict → List (GateResult F) → Verdict
  combine_from verdict [] = verdict
  combine_from verdict (r ∷ results) = combine_from (weigh verdict r) results

  unfoldable pub combine : List (GateResult F) → Verdict
  combine results = combine_from Verdict.pass results

  abbrev pub dataset_mismatch : GateResult F
  dataset_mismatch = record {
    metric_key = "__dataset_match__";
    slice = none;
    verdict = Verdict.error;
    severity = Severity.block;
    rule = "require_dataset_match";
    threshold = none;
    actual = none;
    baseline = none;
    message = Message.dataset_mismatch;
  }

pub record GateReport (F : Type 0) : Type 0 where
  pub results : List (GateResult F)
  pub verdict : Verdict

abbrev pub exit_code : {F : Type 0} → GateReport F → ℕ
exit_code report = exit_code_of report.verdict

abbrev pub passed : {F : Type 0} → GateReport F → Bool
passed report = not (is_blocking report.verdict)

-- The arguments of `evaluate_gates`.
pub record Inputs (F : Type 0) : Type 0 where
  pub candidate : List (Metric F)
  pub baseline : List (Metric F)
  pub dataset_match : Bool
  pub judge_metrics : List String
  pub calibrations : Dict (CalibrationStatus F)
  pub significance : Dict (SignificanceResult F)

module _ {F : Type 0} where
  abbrev pub mismatches : GateSet F → Inputs F → List (GateResult F)
  mismatches gate_set inputs =
      if gate_set.require_dataset_match && not inputs.dataset_match
      then dataset_mismatch ∷ []
      else []

  abbrev pub with_calibration : GateSet F → Inputs F → List (GateResult F) → List (GateResult F)
  with_calibration gate_set inputs applied =
      applied
      ++ calibration_results gate_set inputs.judge_metrics inputs.calibrations
      ++ mismatches gate_set inputs

module _ {F : Type 0} (num : Number F) where
  unfoldable pub apply_all : List (GateRule F) → Inputs F → Result (List (GateResult F))
  apply_all [] inputs = ok []
  apply_all (rule ∷ rules) inputs = do
    this ← apply num rule inputs.candidate inputs.baseline inputs.significance
    rest ← apply_all rules inputs
    ok (this ∷ rest)

  unfoldable pub evaluate_gates : GateSet F → Inputs F → Result (GateReport F)
  evaluate_gates gate_set inputs = do
    applied ← apply_all gate_set.rules inputs
    ok (record {
      results = with_calibration gate_set inputs applied;
      verdict = combine (with_calibration gate_set inputs applied);
    })
