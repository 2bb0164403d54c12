-- ===== src/Gates/Calibration.antt =====
-- `_calibration_results` of gates.py, with `GateSet` and `CalibrationStatus` of
-- packages/shared-types/src/proofstep_types/gates.py.
use proofstep.Prelude.{
  ℕ, String, Bool, true, false, not, ◌&&◌, Option, none, some, List, [], ◌∷◌, map, if◌then◌else◌,
  is_some, mem_text,
}
use proofstep.Prelude.{str_leb}
use proofstep.Prelude.Sort.{sort_by}
use proofstep.Prelude.Dict.{Dict, get}
use proofstep.Types.{Severity, Verdict}
use proofstep.Gates.Rules.{GateRule, GateResult, Message}
pub mod Enforced

-- Of the thresholds of a requirement, calibration.py reads all and gates.py only `required`.
pub record CalibrationRequirementSpec : Type 0 where
  pub required : Bool

-- `bool | CalibrationRequirementSpec`
pub data RequireCalibration : Type 0 where
  plain : Bool → RequireCalibration
  spec : CalibrationRequirementSpec → RequireCalibration

pub record GateSet (F : Type 0) : Type 0 where
  pub rules : List (GateRule F)
  pub require_dataset_match : Bool
  pub require_calibration : RequireCalibration

pub record CalibrationStatus (F : Type 0) : Type 0 where
  pub metric_key : String
  pub evaluator_version_hash : Option String
  pub calibrated : Bool
  pub satisfied : Option Bool
  pub failures : List String
  pub warnings : List String
  pub n_examples : ℕ
  pub agreement : Option F
  pub kappa : Option F
  pub at_human_ceiling : Bool
  pub stale_for_version : Option String

abbrev pub requirement_of : RequireCalibration → Option CalibrationRequirementSpec
requirement_of (RequireCalibration.plain false) = none
requirement_of (RequireCalibration.plain true) = some (record { required = true })
requirement_of (RequireCalibration.spec s) = some s

-- `requirement is not None and requirement.required`
abbrev pub is_required : Option CalibrationRequirementSpec → Bool
is_required none = false
is_required (some s) = s.required

abbrev pub is_false : Option Bool → Bool
is_false (some false) = true
is_false _ = false

abbrev pub severity_of : Bool → Severity
severity_of required = if required then Severity.block else Severity.warn

abbrev pub problem_of : Bool → Verdict
problem_of required = if required then Verdict.error else Verdict.fail

module _ {F : Type 0} where
  abbrev pub is_stale : CalibrationStatus F → Bool
  is_stale status = is_some status.stale_for_version

  unfoldable pub gated_keys : List (GateRule F) → List String → List String
  gated_keys [] judges = []
  gated_keys (rule ∷ rules) judges =
      let rest = gated_keys rules judges in
      if mem_text rule.metric_key judges && not (mem_text rule.metric_key rest)
      then rule.metric_key ∷ rest
      else rest

  -- A result of a judge that is not to be trusted.
  abbrev pub problem : Bool → String → String → Option F → Message F → GateResult F
  problem required metric_key clause actual message = record {
    metric_key = metric_key;
    slice = none;
    verdict = problem_of required;
    severity = severity_of required;
    rule = clause;
    threshold = none;
    actual = actual;
    baseline = none;
    message = message;
  }

  abbrev pub trusted : String → CalibrationStatus F → GateResult F
  trusted metric_key status = record {
    metric_key = metric_key;
    slice = none;
    verdict = Verdict.pass;
    severity = Severity.warn;
    rule = "calibrated";
    threshold = none;
    actual = status.kappa;
    baseline = none;
    message =
        Message.calibrated status.metric_key status.n_examples status.agreement status.kappa
          status.at_human_ceiling status.warnings;
  }

  unfoldable pub judge_result : Bool → String → Option (CalibrationStatus F) → GateResult F
  judge_result required metric_key none =
      problem required metric_key "uncalibrated_judge" none (Message.uncalibrated metric_key)
  judge_result required metric_key (some status) =
      if not status.calibrated
      then problem required metric_key "uncalibrated_judge" none (Message.uncalibrated metric_key)
      else if is_stale status
      then problem required metric_key "stale_calibration" none
          (Message.stale metric_key status.evaluator_version_hash status.stale_for_version)
      else if is_false status.satisfied
      then problem required metric_key "calibration_requirement" status.kappa
          (Message.requirement_unmet metric_key status.failures)
      else trusted metric_key status

  unfoldable pub calibration_results :
      GateSet F → List String → Dict (CalibrationStatus F) → List (GateResult F)
  calibration_results gate_set judges calibrations =
      map
        (λ metric_key.
          judge_result (is_required (requirement_of gate_set.require_calibration)) metric_key
            (get metric_key calibrations))
        (sort_by str_leb (gated_keys gate_set.rules judges))
