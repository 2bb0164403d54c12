-- ===== src/Gates/Examples.antt =====
-- Gates on small sets of metrics, in thousandths, and the theorems at them.
mod Reports
use proofstep.Prelude.{
  ℕ, ◌-◌, ◌*◌, String, ◌≡◌, refl, true, false, Option, none, some, [], ◌∷◌, ltb, leb, ◌==◌,
}
use proofstep.Prelude.{◌/◌}
use proofstep.Prelude.Result.{ok, type_error}
use proofstep.Types.{Severity, Verdict, is_blocking}
use proofstep.Gates.Number.{Number}
use proofstep.Gates.Rules.{
  GateRule, Metric, SignificanceResult, Message, full_key, result_of, is_significant,
}
use proofstep.Gates.Regression.{check_regression, check_power, explained_by_noise, limits}
use proofstep.Gates.Regression.Noise.{excused, check_regression-pass, check_regression_raises}
use proofstep.Gates.Apply.{slice_key, same_items, find_metric}

abbrev pub mills : Number ℕ
mills = record {
  lt = ltb;
  le = leb;
  sub = λ a b. a - b;
  div = λ a b. (1000 * a) / b;
  abs = λ a. a;
  zero = 0;
  is_zero = λ a. a == 0;
  ratio = λ a b. (1000 * a) / b;
}

abbrev gate_on : String → Option ℕ → Option ℕ → Option ℕ → GateRule ℕ
gate_on key minimum regression alpha = record {
  metric_key = key;
  minimum = minimum;
  maximum = none;
  max_absolute_regression = regression;
  max_relative_regression = none;
  severity = Severity.block;
  slice = none;
  require_baseline = false;
  max_error_rate = 50;
  significance = alpha;
  require_power = false;
}

abbrev pub metric_of : String → ℕ → Metric ℕ
metric_of key value = record { key = key; value = value; count = 40; error_count = 0; slice = none }

abbrev pub floor : GateRule ℕ
floor = gate_on "recall" (some 900) none none

abbrev tested : GateRule ℕ
tested = gate_on "accuracy" none (some 20) (some 50)

abbrev untested : GateRule ℕ
untested = gate_on "accuracy" none (some 20) none

abbrev unsure : SignificanceResult ℕ
unsure = record {
  n_pairs = 40;
  p_value = some 300;
  adjusted_p_value = none;
  minimum_detectable_effect = none;
}

abbrev too_few : SignificanceResult ℕ
too_few = record {
  n_pairs = 3;
  p_value = none;
  adjusted_p_value = none;
  minimum_detectable_effect = none;
}

abbrev lower : Metric ℕ
lower = metric_of "accuracy" 900

abbrev higher : Metric ℕ
higher = metric_of "accuracy" 950

noise_result :
    check_regression mills tested lower higher (some unsure)
    ≡ ok (
        some (
          result_of mills tested Verdict.pass "not_significant"
            (some 900)
            (some 950)
            (some 20)
            (Message.not_significant (full_key tested) 50 40 300 50)))
unfolding check_regression check_power explained_by_noise limits is_significant
noise_result = refl

passing :
    is_blocking
      (result_of mills tested Verdict.pass "not_significant"
        (some 900)
        (some 950)
        (some 20)
        (Message.not_significant (full_key tested) 50 40 300 50)).verdict
    ≡ false
unfolding result_of
passing = refl

check_regression-pass_example : excused mills tested (some unsure) ≡ true
check_regression-pass_example =
    check_regression-pass mills tested lower higher (some unsure)
      (result_of mills tested Verdict.pass "not_significant" (some 900) (some 950) (some 20)
        (Message.not_significant (full_key tested) 50 40 300 50))
      noise_result passing

check_regression_raises_example :
    check_regression mills tested lower higher (some too_few) ≡ type_error
check_regression_raises_example =
    check_regression_raises mills tested lower higher too_few 50 20 refl refl refl refl refl

found_recall : find_metric floor (metric_of "recall" 200 ∷ []) ≡ some (metric_of "recall" 200)
unfolding find_metric slice_key same_items
found_recall = refl
