-- ===== src/Gates/Examples/Reports.antt =====
-- Reports of gates on small sets of metrics, and the theorems at them.
use proofstep.Prelude.{
  ℕ, String, ◌≡◌, refl, Bool, true, false, none, some, List, [], ◌∷◌, if◌then◌else◌, any,
}
use proofstep.Prelude.Dict.{get}
use proofstep.Prelude.Sort.{sort_by}
use proofstep.Prelude.Result.{ok}
use proofstep.Types.{Verdict}
use proofstep.Gates.Rules.{Metric, GateResult, Message, full_key, result_of}
use proofstep.Gates.Apply.{
  slice_key, same_items, find_metric, available, distinct_keys, apply_metric, apply,
}
use proofstep.Gates.Calibration.{
  GateSet, RequireCalibration, gated_keys, judge_result, calibration_results,
}
use proofstep.Gates.Calibration.Enforced.{untrusted_gate}
use proofstep.Gates.Report.{
  GateReport, Inputs, exit_code, weigh, combine_from, combine, apply_all, evaluate_gates,
  dataset_mismatch,
}
use proofstep.Gates.Report.Verdicts.{blocking_error, blocking_failure}
use proofstep.Gates.Report.Decision.{
  exit_code-evaluate_gates, is_unmet, green-evaluate_gates, is_missing, missing-exit_code,
}
use proofstep.Gates.Examples.{mills, metric_of, floor}

abbrev floor_passed : GateResult ℕ
floor_passed =
    result_of mills floor Verdict.pass "threshold" (some 950) none none
      (Message.within_threshold (full_key floor) 950)

abbrev recalls : List (Metric ℕ)
recalls = metric_of "recall" 950 ∷ []

abbrev gates_of : RequireCalibration → GateSet ℕ
gates_of required = record {
  rules = floor ∷ [];
  require_dataset_match = true;
  require_calibration = required;
}

abbrev inputs_of : List (Metric ℕ) → Bool → List String → Inputs ℕ
inputs_of metrics same judges = record {
  candidate = metrics;
  baseline = [];
  dataset_match = same;
  judge_metrics = judges;
  calibrations = [];
  significance = [];
}

abbrev green : GateReport ℕ
green = record { results = floor_passed ∷ []; verdict = Verdict.pass }

is_green :
    evaluate_gates mills (gates_of (RequireCalibration.plain false)) (inputs_of recalls true [])
    ≡ ok green
unfolding evaluate_gates apply_all apply apply_metric find_metric slice_key same_items available
    combine combine_from weigh calibration_results gated_keys sort_by result_of
is_green = refl

exit_code-evaluate_gates_example : exit_code green ≡ (
    if any blocking_error green.results
    then 2
    else if any blocking_failure green.results
    then 1
    else 0)
exit_code-evaluate_gates_example =
    exit_code-evaluate_gates mills (gates_of (RequireCalibration.plain false))
      (inputs_of recalls true []) green is_green

green-evaluate_gates_example :
    any
      (is_unmet mills (gates_of (RequireCalibration.plain false)) (inputs_of recalls true []))
      (gates_of (RequireCalibration.plain false)).rules
    ≡ false
green-evaluate_gates_example =
    green-evaluate_gates mills (gates_of (RequireCalibration.plain false))
      (inputs_of recalls true []) green is_green refl

abbrev mismatched : GateReport ℕ
mismatched = record { results = floor_passed ∷ dataset_mismatch ∷ []; verdict = Verdict.error }

abbrev missing_report : GateReport ℕ
missing_report = record {
  results =
      result_of mills floor Verdict.error "metric_missing" none none none
        (Message.metric_missing (full_key floor) [])
      ∷ [];
  verdict = Verdict.error;
}

is_reported :
    evaluate_gates mills (gates_of (RequireCalibration.plain false)) (inputs_of [] true [])
    ≡ ok missing_report
unfolding evaluate_gates apply_all apply find_metric available distinct_keys combine combine_from
    weigh calibration_results gated_keys sort_by result_of
is_reported = refl

nothing_found :
    any
      (is_missing mills (gates_of (RequireCalibration.plain false)) (inputs_of [] true []))
      (floor ∷ [])
    ≡ true
unfolding find_metric
nothing_found = refl

missing-exit_code_example : exit_code missing_report ≡ 2
missing-exit_code_example =
    missing-exit_code mills (gates_of (RequireCalibration.plain false)) (inputs_of [] true [])
      missing_report is_reported nothing_found

abbrev uncalibrated : GateReport ℕ
uncalibrated = record {
  results = floor_passed ∷ judge_result true "recall" none ∷ [];
  verdict = Verdict.error;
}

is_uncalibrated :
    evaluate_gates mills
      (gates_of (RequireCalibration.plain true))
      (inputs_of recalls true ("recall" ∷ []))
    ≡ ok uncalibrated
unfolding evaluate_gates apply_all apply apply_metric find_metric slice_key same_items available
    combine combine_from weigh calibration_results gated_keys sort_by result_of judge_result get
is_uncalibrated = refl

is_suspect : any (untrusted_gate ("recall" ∷ []) []) (floor ∷ []) ≡ true
unfolding get
is_suspect = refl
