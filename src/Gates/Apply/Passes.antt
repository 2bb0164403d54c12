-- ===== src/Gates/Apply/Passes.antt =====
-- What a passing result of `_apply` says of its metric.
use proofstep.Prelude.{
  String, ◌≡◌, Bool, true, false, not, ◌&&◌, ◌||◌, Option, none, some, List, arith, ◌==◌, is_some,
}
use proofstep.Prelude.Dict.{Dict, get}
use proofstep.Prelude.Result.{ok, >>=-eq-ok}
use proofstep.Types.{Verdict, is_blocking}
use proofstep.Gates.Number.{Number, above, below}
use proofstep.Gates.Rules.{
  GateRule, Metric, SignificanceResult, GateResult, error_rate_of, result_of,
}
use proofstep.Gates.Apply.{
  available, find_metric, or_unregressed, against, apply_metric, apply_found, apply,
}
use proofstep.Gates.Regression.{check_power, explained_by_noise, limits, check_regression}

module _ {F : Type 0} (num : Number F) where
  -- The metric was measured, its scores can be trusted, it lies within its absolute bounds, and a
  -- baseline that is required is there.
  abbrev pub is_measured : GateRule F → Metric F → Bool → Bool
  is_measured rule m has_baseline =
      not (m.count == 0)
      && not (num.lt rule.max_error_rate (error_rate_of num m))
      && not (below num rule.minimum m.value)
      && not (above num rule.maximum m.value)
      && (not rule.require_baseline || has_baseline)

  abbrev pub is_acceptable : GateRule F → Option (Metric F) → Option (Metric F) → Bool
  is_acceptable rule none base = false
  is_acceptable rule (some m) base = is_measured rule m (is_some base)

  against-pass :
      (rule : GateRule F) (m : Metric F) (base : Option (Metric F))
      (test : Option (SignificanceResult F)) (r : GateResult F)
      → against num rule m base test ≡ ok r
      → is_blocking r.verdict ≡ false
      → (not rule.require_baseline || is_some base) ≡ true
  unfolding against result_of
  against-pass rule m none test r h passes = ground arith
  against-pass rule m (some base) test r h passes = ground arith

  metric-pass :
      (rule : GateRule F) (m : Metric F) (base : Option (Metric F))
      (test : Option (SignificanceResult F)) (r : GateResult F)
      → apply_metric num rule m base test ≡ ok r
      → is_blocking r.verdict ≡ false
      → is_measured rule m (is_some base) ≡ true
  unfolding apply_metric result_of
  metric-pass rule m base test r h passes = ground (arith, against-pass rule m base test r)

  found-pass :
      (rule : GateRule F) (names : List String) (m base : Option (Metric F))
      (test : Option (SignificanceResult F)) (r : GateResult F)
      → apply_found num rule names m base test ≡ ok r
      → is_blocking r.verdict ≡ false
      → is_acceptable rule m base ≡ true
  unfolding result_of
  found-pass rule names none base test r h passes = ground arith
  found-pass rule names (some m) base test r h passes = metric-pass rule m base test r h passes

  -- When a rule is not failed, its metric was produced and measured, the share of its errors and its
  -- value lie within the rule's limits, and a baseline that the rule requires was found.
  pub apply-pass :
      (rule : GateRule F) (candidate baseline : List (Metric F))
      (significance : Dict (SignificanceResult F)) (r : GateResult F)
      → apply num rule candidate baseline significance ≡ ok r
      → is_blocking r.verdict ≡ false
      → is_acceptable rule (find_metric rule candidate) (find_metric rule baseline) ≡ true
  unfolding apply
  apply-pass rule candidate baseline significance r h passes =
      found-pass rule (available candidate) (find_metric rule candidate) (find_metric rule baseline)
        (get rule.metric_key significance) r h passes

  check_regression-severity :
      (rule : GateRule F) (m base : Metric F) (test : Option (SignificanceResult F))
      (r : GateResult F)
      → check_regression num rule m base test ≡ ok (some r)
      → r.severity ≡ rule.severity
  unfolding check_regression check_power explained_by_noise limits result_of
  check_regression-severity rule m base test r h = ground arith

  against-severity :
      (rule : GateRule F) (m : Metric F) (base : Option (Metric F))
      (test : Option (SignificanceResult F)) (r : GateResult F)
      → against num rule m base test ≡ ok r
      → r.severity ≡ rule.severity
  unfolding against result_of
  against-severity rule m none test r h = ground arith
  against-severity rule m (some base) test r h =
      let (found, p, q) =
        >>=-eq-ok (check_regression num rule m base test)
          (λ found. ok (or_unregressed num rule m base found)) h in
      cases found p q
    where
      cases :
          (found : Option (GateResult F))
          → check_regression num rule m base test ≡ ok found
          → ok (or_unregressed num rule m base found) ≡ ok r
          → r.severity ≡ rule.severity
      cases none p q = ground arith
      cases (some x) p q = ground (arith, check_regression-severity rule m base test x p)

  -- A result has the severity of its rule.
  pub apply-severity :
      (rule : GateRule F) (candidate baseline : List (Metric F))
      (significance : Dict (SignificanceResult F)) (r : GateResult F)
      → apply num rule candidate baseline significance ≡ ok r
      → r.severity ≡ rule.severity
  unfolding apply apply_metric result_of
  apply-severity rule candidate baseline significance r h = cases (find_metric rule candidate) h
    where
      cases :
          (m : Option (Metric F))
          → apply_found num rule
              (available candidate)
              m
              (find_metric rule baseline)
              (get rule.metric_key significance)
            ≡ ok r
          → r.severity ≡ rule.severity
      cases none h = ground arith
      cases (some m) h = ground (
        arith,
        against-severity rule m (find_metric rule baseline) (get rule.metric_key significance) r,
      )

  -- A rule whose metric was not produced is an error.
  pub apply-missing :
      (rule : GateRule F) (candidate baseline : List (Metric F))
      (significance : Dict (SignificanceResult F)) (r : GateResult F)
      → apply num rule candidate baseline significance ≡ ok r
      → is_some (find_metric rule candidate) ≡ false
      → r.verdict ≡ Verdict.error
  unfolding apply result_of
  apply-missing rule candidate baseline significance r h missing =
      cases (find_metric rule candidate) h missing
    where
      cases :
          (m : Option (Metric F))
          → apply_found num rule
              (available candidate)
              m
              (find_metric rule baseline)
              (get rule.metric_key significance)
            ≡ ok r
          → is_some m ≡ false
          → r.verdict ≡ Verdict.error
      cases none h missing = ground arith
      cases (some m) h missing = ground arith
