-- ===== src/Gates/Rules.antt =====
-- Gate rules, metrics, paired tests and gate results: packages/shared-types/src/proofstep_types
-- (gates.py, score.py) and `SignificanceResult` of significance.py.
use proofstep.Prelude.{
  ℕ, ◌+◌, String, Bool, false, ◌||◌, Option, none, some, List, ◌==◌, if◌then◌else◌, is_some,
}
use proofstep.Prelude.Dict.{Dict}
use proofstep.Types.{Severity, is_block, Verdict}
use proofstep.Types.Value.{or_else}
use proofstep.Gates.Number.{Number}

-- `dict[str, str] | None`
abbrev pub Slice : Type 0
Slice = Option (Dict String)

pub record GateRule (F : Type 0) : Type 0 where
  pub metric_key : String
  pub minimum : Option F
  pub maximum : Option F
  pub max_absolute_regression : Option F
  pub max_relative_regression : Option F
  pub severity : Severity
  pub slice : Slice
  pub require_baseline : Bool
  pub max_error_rate : F
  pub significance : Option F
  pub require_power : Bool

pub record Metric (F : Type 0) : Type 0 where
  pub key : String
  pub value : F
  pub count : ℕ
  pub error_count : ℕ
  pub slice : Slice

pub record SignificanceResult (F : Type 0) : Type 0 where
  pub n_pairs : ℕ
  pub p_value : Option F
  pub adjusted_p_value : Option F
  pub minimum_detectable_effect : Option F

-- What `full_key` prints: the metric with its slice.
pub record FullKey : Type 0 where
  pub metric : String
  pub slice : Slice

pub data Message (F : Type 0) : Type 0 where
  metric_missing : FullKey → List String → Message F
  no_data : FullKey → ℕ → Message F
  error_rate : FullKey → ℕ → ℕ → F → F → Message F
  too_low : FullKey → F → F → Message F
  too_high : FullKey → F → F → Message F
  baseline_required : FullKey → Message F
  no_baseline : FullKey → F → Message F
  within_regression : FullKey → F → F → F → Message F
  within_threshold : FullKey → F → Message F
  regressed : FullKey → F → F → F → Message F
  regressed_relatively : FullKey → F → F → F → Message F
  power_unknown : FullKey → Message F
  underpowered : FullKey → F → ℕ → F → Message F
  significance_unavailable : FullKey → Message F
  not_significant : FullKey → F → ℕ → F → F → Message F
  dataset_mismatch : Message F
  uncalibrated : String → Message F
  stale : String → Option String → Option String → Message F
  requirement_unmet : String → List String → Message F
  calibrated : String → ℕ → Option F → Option F → Bool → List String → Message F

-- The field `verdict` holds the text of a verdict.
pub record GateResult (F : Type 0) : Type 0 where
  pub metric_key : String
  pub slice : Slice
  pub verdict : Verdict
  pub severity : Severity
  pub rule : String
  pub threshold : Option F
  pub actual : Option F
  pub baseline : Option F
  pub message : Message F

abbrev pub blocking : {F : Type 0} → GateResult F → Bool
blocking r = is_block r.severity

abbrev pub needs_baseline : {F : Type 0} → GateRule F → Bool
needs_baseline rule = is_some rule.max_absolute_regression || is_some rule.max_relative_regression

abbrev pub full_key : {F : Type 0} → GateRule F → FullKey
full_key rule = record { metric = rule.metric_key; slice = rule.slice }

pub data RuleError : Type 0 where
  no_condition bounds_crossed : RuleError

module _ {F : Type 0} (num : Number F) where
  -- `self.error_count / total if total else 0.0`
  abbrev pub error_rate_of : Metric F → F
  error_rate_of m =
      let total = m.count + m.error_count in
      if total == 0 then num.zero else num.ratio m.error_count total

  abbrev bounds_error : Option F → Option F → Option RuleError
  bounds_error (some low) (some high) =
      if num.lt high low then some RuleError.bounds_crossed else none
  bounds_error _ _ = none

  -- The two validators of a rule, in their order.
  unfoldable pub rule_error : GateRule F → Option RuleError
  rule_error rule =
      if is_some rule.minimum || is_some rule.maximum || needs_baseline rule
      then bounds_error rule.minimum rule.maximum
      else some RuleError.no_condition

  -- The corrected p-value when one exists.
  abbrev pub p_value_of : SignificanceResult F → Option F
  p_value_of test = or_else test.adjusted_p_value test.p_value

  abbrev at_most : Option F → F → Bool
  at_most none alpha = false
  at_most (some p) alpha = num.le p alpha

  unfoldable pub is_significant : SignificanceResult F → F → Bool
  is_significant test alpha = at_most (p_value_of test) alpha

  -- `_result`
  unfoldable pub result_of :
      GateRule F → Verdict → String → Option F → Option F → Option F → Message F → GateResult F
  result_of rule verdict clause actual baseline threshold message = record {
    metric_key = rule.metric_key;
    slice = rule.slice;
    verdict = verdict;
    severity = rule.severity;
    rule = clause;
    threshold = threshold;
    actual = actual;
    baseline = baseline;
    message = message;
  }

  abbrev above_bound : Option F → F → Bool
  above_bound none bound = false
  above_bound (some v) bound = num.lt bound v

  -- `mde is not None and mde > abs(effect)`
  unfoldable pub underpowered_for : SignificanceResult F → F → Bool
  underpowered_for test effect = above_bound test.minimum_detectable_effect (num.abs effect)
