-- ===== src/Gates/Apply.antt =====
-- `_apply` and `_key` of gates.py: one rule against the metrics.
use proofstep.Prelude.{
  zero, ◌+◌, String, Bool, true, false, ◌&&◌, ◌||◌, Option, none, some, List, [], ◌∷◌, ◌==◌,
  if◌then◌else◌, take, str_eq, mem_text,
}
use proofstep.Prelude.{str_leb}
use proofstep.Prelude.Sort.{sort_by}
use proofstep.Prelude.Dict.{Dict, get}
use proofstep.Prelude.Result.{Result, ok, ◌>>=◌}
use proofstep.Types.{Verdict}
use proofstep.Gates.Number.{Number, above, below}
use proofstep.Gates.Rules.{
  Slice, GateRule, Metric, SignificanceResult, GateResult, Message, full_key, needs_baseline,
  error_rate_of, result_of,
}
use proofstep.Gates.Regression.{check_regression}
pub mod Passes
pub mod Floors

abbrev pub item_le : String × String → String × String → Bool
item_le a b = if str_eq a.0 b.0 then str_leb a.1 b.1 else str_leb a.0 b.0

-- `_key`
unfoldable pub slice_key : Slice → Dict String
slice_key none = []
slice_key (some items) = sort_by item_le items

unfoldable pub same_items : Dict String → Dict String → Bool
same_items [] [] = true
same_items [] (b ∷ others) = false
same_items (a ∷ rest) [] = false
same_items (a ∷ rest) (b ∷ others) = str_eq a.0 b.0 && str_eq a.1 b.1 && same_items rest others

module _ {F : Type 0} where
  abbrev pub has_key : GateRule F → Metric F → Bool
  has_key rule m =
      str_eq m.key rule.metric_key && same_items (slice_key m.slice) (slice_key rule.slice)

  -- `{(m.key, _key(m.slice)): m for m in metrics}.get(lookup)`: the last metric of that key.
  unfoldable pub find_metric : GateRule F → List (Metric F) → Option (Metric F)
  find_metric rule [] = none
  find_metric rule (m ∷ metrics) = elim (find_metric rule metrics) [
    | some found ↦ some found
    | none ↦ if has_key rule m then some m else none
  ]

  unfoldable pub distinct_keys : List (Metric F) → List String
  distinct_keys [] = []
  distinct_keys (m ∷ metrics) =
      let rest = distinct_keys metrics in if mem_text m.key rest then rest else m.key ∷ rest

  unfoldable pub available : List (Metric F) → List String
  available metrics = take 10 (sort_by str_leb (distinct_keys metrics))

module _ {F : Type 0} (num : Number F) where
  abbrev pub or_unregressed :
      GateRule F → Metric F → Metric F → Option (GateResult F) → GateResult F
  or_unregressed rule metric base (some found) = found
  or_unregressed rule metric base none =
      result_of num rule Verdict.pass "regression" (some metric.value) (some base.value) none (
        Message.within_regression (full_key rule) metric.value base.value
          (num.sub metric.value base.value))

  unfoldable pub against :
      GateRule F
      → Metric F
      → Option (Metric F)
      → Option (SignificanceResult F)
      → Result (GateResult F)
  against rule metric none test =
      if rule.require_baseline
      then ok (
          result_of num rule Verdict.error "baseline_missing" (some metric.value) none none
            (Message.baseline_required (full_key rule)))
      else ok (
          result_of num rule Verdict.pass "no_baseline" (some metric.value) none none
            (Message.no_baseline (full_key rule) metric.value))
  against rule metric (some base) test = do
    found ← check_regression num rule metric base test
    ok (or_unregressed rule metric base found)

  abbrev pub value_or_zero : Option F → F
  value_or_zero none = num.zero
  value_or_zero (some x) = x

  -- The checks of a metric that was found.
  unfoldable pub apply_metric :
      GateRule F
      → Metric F
      → Option (Metric F)
      → Option (SignificanceResult F)
      → Result (GateResult F)
  apply_metric rule metric base test =
      if metric.count == 0
      then ok (
          result_of num rule Verdict.error "no_data" none none none
            (Message.no_data (full_key rule) metric.error_count))
      else if num.lt rule.max_error_rate (error_rate_of num metric)
      then ok (
          result_of num rule Verdict.error "error_rate" (some metric.value) none
            (some rule.max_error_rate)
            (Message.error_rate (full_key rule) metric.error_count
              (metric.count + metric.error_count) (error_rate_of num metric) rule.max_error_rate))
      else if below num rule.minimum metric.value
      then ok (
          result_of num rule Verdict.fail "minimum" (some metric.value) none rule.minimum
            (Message.too_low (full_key rule) metric.value (value_or_zero rule.minimum)))
      else if above num rule.maximum metric.value
      then ok (
          result_of num rule Verdict.fail "maximum" (some metric.value) none rule.maximum
            (Message.too_high (full_key rule) metric.value (value_or_zero rule.maximum)))
      else if needs_baseline rule || rule.require_baseline
      then against rule metric base test
      else ok (
          result_of num rule Verdict.pass "threshold" (some metric.value) none none
            (Message.within_threshold (full_key rule) metric.value))

  abbrev pub apply_found :
      GateRule F
      → List String
      → Option (Metric F)
      → Option (Metric F)
      → Option (SignificanceResult F)
      → Result (GateResult F)
  apply_found rule names none base test = ok (
      result_of num rule Verdict.error "metric_missing" none none none
        (Message.metric_missing (full_key rule) names))
  apply_found rule names (some metric) base test = apply_metric rule metric base test

  unfoldable pub apply :
      GateRule F
      → List (Metric F)
      → List (Metric F)
      → Dict (SignificanceResult F)
      → Result (GateResult F)
  apply rule candidate baseline significance =
      apply_found rule (available candidate) (find_metric rule candidate)
        (find_metric rule baseline) (get rule.metric_key significance)
