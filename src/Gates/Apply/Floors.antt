-- ===== src/Gates/Apply/Floors.antt =====
-- Absolute bounds do not depend on the baseline.
use proofstep.Prelude.{◌<◌, ◌≡◌, true, false, none, some, List, arith}
use proofstep.Prelude.Dict.{Dict}
use proofstep.Prelude.Result.{ok}
use proofstep.Types.{Verdict}
use proofstep.Gates.Number.{Number, below}
use proofstep.Gates.Rules.{
  GateRule, Metric, SignificanceResult, Message, error_rate_of, result_of, full_key,
}
use proofstep.Gates.Apply.{find_metric, apply_metric, apply, value_or_zero}

module _ {F : Type 0} (num : Number F) where
  -- A measured metric below the rule's minimum fails, with one and the same result whatever the
  -- baseline and the paired tests are.
  pub apply-floor :
      (rule : GateRule F) (candidate baseline : List (Metric F))
      (significance : Dict (SignificanceResult F)) (m : Metric F)
      → find_metric rule candidate ≡ some m
      → 0 < m.count
      → num.lt rule.max_error_rate (error_rate_of num m) ≡ false
      → below num rule.minimum m.value ≡ true
      → apply num rule candidate baseline significance
        ≡ ok (
            result_of num rule Verdict.fail "minimum"
              (some m.value)
              none
              rule.minimum
              (Message.too_low (full_key rule) m.value (value_or_zero num rule.minimum)))
  unfolding apply apply_metric
  apply-floor rule candidate baseline significance m found counted trusted low =
      rw found (ground arith)
