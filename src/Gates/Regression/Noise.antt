-- ===== src/Gates/Regression/Noise.antt =====
-- When a regression over the limit is let pass.
use proofstep.Prelude.{
  ◌≡◌, ◌↔◌, Bool, true, false, not, ◌&&◌, ◌||◌, Option, none, some, arith, is_some,
}
use proofstep.Prelude.Result.{ok, type_error}
use proofstep.Types.{is_blocking}
use proofstep.Gates.Number.{Number, above}
use proofstep.Gates.Rules.{
  GateRule, Metric, SignificanceResult, GateResult, result_of, is_significant, p_value_of,
}
use proofstep.Gates.Regression.{check_power, explained_by_noise, limits, drop_of, check_regression}

module _ {F : Type 0} (num : Number F) where
  -- Whether the rule opted in, and its test has a p-value and finds no significant drop.
  abbrev pub excused : GateRule F → Option (SignificanceResult F) → Bool
  excused rule none = false
  excused rule (some test) = elim rule.significance [
    | none ↦ false
    | some alpha ↦ is_some (p_value_of num test) && not (is_significant num test alpha)
  ]

  -- A regression check reports a PASS only when the rule opted in with `significance`, and its test
  -- has a p-value and does not find the drop significant.
  pub check_regression-pass :
      (rule : GateRule F) (m base : Metric F) (test : Option (SignificanceResult F))
      (r : GateResult F)
      → check_regression num rule m base test ≡ ok (some r)
      → is_blocking r.verdict ≡ false
      → excused rule test ≡ true
  unfolding check_regression check_power explained_by_noise limits result_of
  check_regression-pass rule m base test r h passes = ground arith

  -- Whether the drop is over one of the limits of the rule.
  abbrev pub is_regressed : GateRule F → Metric F → Metric F → Bool
  is_regressed rule m base =
      above num rule.max_absolute_regression (drop_of num m base)
      || (not (num.is_zero base.value)
          && above num rule.max_relative_regression
              (num.div (drop_of num m base) (num.abs base.value)))

  -- Without `significance` and `require_power`, a regression check reports nothing exactly when the
  -- drop is over neither limit.
  pub check_regression_iff :
      (rule : GateRule F) (m base : Metric F) (test : Option (SignificanceResult F))
      → rule.significance ≡ none
      → rule.require_power ≡ false
      → (check_regression num rule m base test ≡ ok none) ↔ (is_regressed rule m base ≡ false)
  unfolding check_regression check_power explained_by_noise limits
  check_regression_iff rule m base test plain small = ground arith

  -- A drop over the absolute limit whose paired test has no p-value, as for too few pairs, raises a
  -- `TypeError` when the rule asks for a test and not for power.
  pub check_regression_raises :
      (rule : GateRule F) (m base : Metric F) (test : SignificanceResult F) (alpha limit : F)
      → rule.significance ≡ some alpha
      → rule.max_absolute_regression ≡ some limit
      → rule.require_power ≡ false
      → num.le (drop_of num m base) limit ≡ false
      → p_value_of num test ≡ none
      → check_regression num rule m base (some test) ≡ type_error
  unfolding check_regression check_power explained_by_noise is_significant
  check_regression_raises rule m base test alpha limit asked limited small over empty = ground arith

  -- Of a rule that limits no absolute regression no paired test is read, also where the rule asks
  -- for one with `significance` or `require_power`.
  pub check_regression-untested :
      (rule : GateRule F) (m base : Metric F) (one other : Option (SignificanceResult F))
      → rule.max_absolute_regression ≡ none
      → check_regression num rule m base one ≡ check_regression num rule m base other
  unfolding check_regression check_power explained_by_noise limits
  check_regression-untested rule m base one other unlimited = ground arith
