-- ===== src/Gates/Regression.antt =====
-- `_check_regression`, `_check_power` and `_explained_by_noise` of gates.py.
use proofstep.Prelude.{ℕ, String, not, ◌&&◌, Option, none, some, if◌then◌else◌, drop}
use proofstep.Prelude.Result.{Result, ok, type_error, ◌>>=◌}
use proofstep.Types.{Verdict}
use proofstep.Types.Value.{or_else}
use proofstep.Gates.Number.{Number}
use proofstep.Gates.Rules.{
  GateRule, Metric, SignificanceResult, GateResult, Message, full_key, result_of, is_significant,
  underpowered_for, p_value_of,
}
pub mod Noise

module _ {F : Type 0} (num : Number F) where
  -- `_result` with the metric's and the baseline's value.
  abbrev pub compared :
      GateRule F → Metric F → Metric F → Verdict → String → Option F → Message F → GateResult F
  compared rule metric base verdict clause threshold message =
      result_of num rule verdict clause (some metric.value) (some base.value) threshold message

  abbrev pub power_of :
      GateRule F → Metric F → Metric F → F → SignificanceResult F → Option F → Option (GateResult F)
  power_of rule metric base threshold test none = some (
      compared rule metric base Verdict.error "power_unknown" (some threshold)
        (Message.power_unknown (full_key rule)))
  power_of rule metric base threshold test (some effect) =
      if underpowered_for num test threshold
      then some (
          compared rule metric base Verdict.error "underpowered" (some threshold)
            (Message.underpowered (full_key rule) threshold test.n_pairs effect))
      else none

  abbrev pub power_under :
      GateRule F
      → Metric F
      → Metric F
      → Option F
      → Option (SignificanceResult F)
      → Option (GateResult F)
  power_under rule metric base none test = none
  power_under rule metric base (some threshold) none = some (
      compared rule metric base Verdict.error "power_unknown" (some threshold)
        (Message.power_unknown (full_key rule)))
  power_under rule metric base (some threshold) (some test) =
      power_of rule metric base threshold test test.minimum_detectable_effect

  unfoldable pub check_power :
      GateRule F → Metric F → Metric F → Option (SignificanceResult F) → Option (GateResult F)
  check_power rule metric base test =
      if rule.require_power
      then power_under rule metric base rule.max_absolute_regression test
      else none

  -- The p-value is printed, so there must be one.
  abbrev pub unsettled :
      GateRule F → Metric F → Metric F → F → F → ℕ → Option F → F → Result (Option (GateResult F))
  unsettled rule metric base alpha threshold n_pairs none drop = type_error
  unsettled rule metric base alpha threshold n_pairs (some p) drop = ok (
      some (
        compared rule metric base Verdict.pass "not_significant" (some threshold)
          (Message.not_significant (full_key rule) drop n_pairs p alpha)))

  -- What a test says of a drop that is over the limit.
  abbrev pub noise_by :
      GateRule F
      → Metric F
      → Metric F
      → F
      → F
      → Option (SignificanceResult F)
      → F
      → Result (Option (GateResult F))
  noise_by rule metric base alpha threshold none drop = ok (
      some (
        compared rule metric base Verdict.error "significance_unavailable" none
          (Message.significance_unavailable (full_key rule))))
  noise_by rule metric base alpha threshold (some test) drop =
      if is_significant num test alpha
      then ok none
      else unsettled rule metric base alpha threshold test.n_pairs (p_value_of num test) drop

  abbrev pub noise_under :
      GateRule F
      → Metric F
      → Metric F
      → Option F
      → Option F
      → Option (SignificanceResult F)
      → F
      → Result (Option (GateResult F))
  noise_under rule metric base none limit test drop = ok none
  noise_under rule metric base (some alpha) none test drop = ok none
  noise_under rule metric base (some alpha) (some threshold) test drop =
      if num.le drop threshold then ok none else noise_by rule metric base alpha threshold test drop

  unfoldable pub explained_by_noise :
      GateRule F
      → Metric F
      → Metric F
      → Option (SignificanceResult F)
      → F
      → Result (Option (GateResult F))
  explained_by_noise rule metric base test drop =
      noise_under rule metric base rule.significance rule.max_absolute_regression test drop

  abbrev pub absolute_check :
      GateRule F → Metric F → Metric F → Option F → F → Option (GateResult F)
  absolute_check rule metric base none drop = none
  absolute_check rule metric base (some limit) drop =
      if num.lt limit drop
      then some (
          compared rule metric base Verdict.fail "max_absolute_regression" (some limit)
            (Message.regressed (full_key rule) drop base.value limit))
      else none

  abbrev pub relative_check :
      GateRule F → Metric F → Metric F → Option F → F → Option (GateResult F)
  relative_check rule metric base none drop = none
  relative_check rule metric base (some limit) drop =
      let relative = num.div drop (num.abs base.value) in
      if not (num.is_zero base.value) && num.lt limit relative
      then some (
          compared rule metric base Verdict.fail "max_relative_regression" (some limit)
            (Message.regressed_relatively (full_key rule) relative base.value limit))
      else none

  abbrev pub drop_of : Metric F → Metric F → F
  drop_of metric base = num.sub base.value metric.value

  -- The two limits, checked when noise explains nothing.
  unfoldable pub limits :
      GateRule F → Metric F → Metric F → Option (GateResult F) → Option (GateResult F)
  limits rule metric base noise = or_else noise (
      or_else (absolute_check rule metric base rule.max_absolute_regression (drop_of metric base))
        (relative_check rule metric base rule.max_relative_regression (drop_of metric base)))

  abbrev pub unless_powerless :
      GateRule F
      → Metric F
      → Metric F
      → Option (SignificanceResult F)
      → Option (GateResult F)
      → Result (Option (GateResult F))
  unless_powerless rule metric base test (some power) = ok (some power)
  unless_powerless rule metric base test none = do
    noise ← explained_by_noise rule metric base test (drop_of metric base)
    ok (limits rule metric base noise)

  unfoldable pub check_regression :
      GateRule F
      → Metric F
      → Metric F
      → Option (SignificanceResult F)
      → Result (Option (GateResult F))
  check_regression rule metric base test =
      unless_powerless rule metric base test (check_power rule metric base test)
