-- ===== src/Gates/Calibration/Enforced.antt =====
-- What calibration adds to a report.
use proofstep.Prelude.{
  String, ◌≡◌, refl, ap, ◌∙◌, inl, inr, Bool, true, false, not, ◌&&◌, Option, none, some, List, [],
  ◌∷◌, map, arith, Bool-cases, any, str_eq, str_eq_iff, mem_text,
}
use proofstep.Prelude.Dict.{Dict, get}
use proofstep.Prelude.Sort.{sort_by, any-sort_by}
use proofstep.Prelude.{any_congr, str_leb}
use proofstep.Gates.Report.Verdicts.{blocking_error}
use proofstep.Types.{is_blocking}
use proofstep.Gates.Rules.{GateRule, blocking}
use proofstep.Gates.Calibration.{
  GateSet, CalibrationStatus, requirement_of, is_required, is_stale, is_false, gated_keys,
  judge_result, calibration_results,
}

module _ {F : Type 0} where
  -- A judge that a required calibration vouches for.
  abbrev pub is_trusted : Option (CalibrationStatus F) → Bool
  is_trusted none = false
  is_trusted (some status) =
      status.calibrated && not (is_stale status) && not (is_false status.satisfied)

  -- The result for a judge blocks exactly when a calibration is required, and the judge has none, a
  -- stale one, or one that does not meet the requirement.
  pub judge_result-blocking :
      (required : Bool) (key : String) (status : Option (CalibrationStatus F))
      → (blocking (judge_result required key status)
          && is_blocking (judge_result required key status).verdict)
        ≡ (required && not (is_trusted status))
  unfolding judge_result
  judge_result-blocking required key none = ground arith
  judge_result-blocking required key (some status) = ground arith

  -- It is never silent: a judge that is not to be trusted has a failing result, required or not.
  pub judge_result-problem :
      (required : Bool) (key : String) (status : Option (CalibrationStatus F))
      → is_blocking (judge_result required key status).verdict ≡ not (is_trusted status)
  unfolding judge_result
  judge_result-problem required key none = ground arith
  judge_result-problem required key (some status) = ground arith

any-map :
    {A B : Type 0} (p : B → Bool) (f : A → B) (xs : List A)
    → any p (map f xs) ≡ any (λ x. p (f x)) xs
any-map p f [] = refl
any-map p f (x ∷ xs) = ground (arith, any-map p f xs)

any-mem_text :
    (p : String → Bool) (k : String) (xs : List String)
    → mem_text k xs ≡ true
    → p k ≡ true
    → any p xs ≡ true
any-mem_text p k [] h found = ground arith
any-mem_text p k (x ∷ xs) h found = elim (Bool-cases (str_eq x k)) [
  | inl same ↦ ground (arith, ap p ((str_eq_iff x k).0 same))
  | inr differs ↦ ground (arith, any-mem_text p k xs)
]

module _ {F : Type 0} where
  any-gated_keys :
      (p : String → Bool) (rules : List (GateRule F)) (judges : List String)
      → any p (gated_keys rules judges)
        ≡ any (λ rule. mem_text rule.metric_key judges && p rule.metric_key) rules
  unfolding gated_keys
  any-gated_keys p [] judges = refl
  any-gated_keys p (rule ∷ rules) judges = ground (
    arith,
    any-gated_keys p rules judges,
    any-mem_text p rule.metric_key (gated_keys rules judges),
  )

  abbrev pub untrusted_gate : List String → Dict (CalibrationStatus F) → GateRule F → Bool
  untrusted_gate judges calibrations rule =
      mem_text rule.metric_key judges && not (is_trusted (get rule.metric_key calibrations))

  judge_result-error :
      (required : Bool) (key : String) (status : Option (CalibrationStatus F))
      → blocking_error (judge_result required key status) ≡ (required && not (is_trusted status))
  unfolding judge_result
  judge_result-error required key none = ground arith
  judge_result-error required key (some status) = ground arith

  abbrev suspect : Bool → Dict (CalibrationStatus F) → String → Bool
  suspect required calibrations k = required && not (is_trusted (get k calibrations))

  any-suspect :
      (required : Bool) (calibrations : Dict (CalibrationStatus F)) (judges : List String)
      (rules : List (GateRule F))
      → any
          (λ rule. mem_text rule.metric_key judges && suspect required calibrations rule.metric_key)
          rules
        ≡ (required && any (untrusted_gate judges calibrations) rules)
  any-suspect required calibrations judges [] = ground arith
  any-suspect required calibrations judges (rule ∷ rules) =
      ground (arith, any-suspect required calibrations judges rules)

  -- Calibration adds a blocking error exactly when a calibration is required, and some rule gates on
  -- a judge that has none, a stale one, or one that does not meet the requirement.
  pub calibration_results-error :
      (gate_set : GateSet F) (judges : List String) (calibrations : Dict (CalibrationStatus F))
      → any blocking_error (calibration_results gate_set judges calibrations) ≡ (
          is_required (requirement_of gate_set.require_calibration)
          && any (untrusted_gate judges calibrations) gate_set.rules)
  unfolding calibration_results
  calibration_results-error gate_set judges calibrations =
      let required = is_required (requirement_of gate_set.require_calibration) in
      let ordered = sort_by str_leb (gated_keys gate_set.rules judges) in
      any-map blocking_error (λ (k : String). judge_result required k (get k calibrations)) ordered
      ∙ any_congr (λ k. blocking_error (judge_result required k (get k calibrations)))
          (suspect required calibrations) (λ k. judge_result-error required k (get k calibrations))
          ordered
      ∙ any-sort_by str_leb (suspect required calibrations) (gated_keys gate_set.rules judges)
      ∙ any-gated_keys (suspect required calibrations) gate_set.rules judges
      ∙ any-suspect required calibrations judges gate_set.rules
