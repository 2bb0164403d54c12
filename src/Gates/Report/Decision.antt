-- ===== src/Gates/Report/Decision.antt =====
-- What the exit code of a gate report promises.
use proofstep.Prelude.{
  ◌≡◌, ap, ◌∙◌, Bool, true, false, not, ◌&&◌, ◌||◌, List, [], ◌∷◌, ◌++◌, arith, if◌then◌else◌,
  is_some, any,
}
use proofstep.Prelude.{any-append}
use proofstep.Prelude.Result.{ok, ◌>>=◌, >>=-eq-ok}
use proofstep.Types.{is_block}
use proofstep.Gates.Number.{Number}
use proofstep.Gates.Rules.{GateRule, GateResult}
use proofstep.Gates.Calibration.{GateSet, requirement_of, is_required, calibration_results}
use proofstep.Gates.Calibration.Enforced.{untrusted_gate, calibration_results-error}
use proofstep.Gates.Apply.{find_metric, apply}
use proofstep.Gates.Apply.Passes.{is_acceptable, apply-pass, apply-missing, apply-severity}
use proofstep.Gates.Report.{
  GateReport, Inputs, exit_code, combine, apply_all, with_calibration, evaluate_gates, mismatches,
}
use proofstep.Gates.Report.Verdicts.{blocking_error, blocking_failure, combine_lem}

module _ {F : Type 0} (num : Number F) (gate_set : GateSet F) (inputs : Inputs F) where
  report_lem :
      (report : GateReport F)
      → evaluate_gates num gate_set inputs ≡ ok report
      → (applied : List (GateResult F)) × (apply_all num gate_set.rules inputs ≡ ok applied)
        × (report.results ≡ with_calibration gate_set inputs applied)
        × (report.verdict ≡ combine report.results)
  unfolding evaluate_gates
  report_lem report h =
      let (applied, p, q) =
        >>=-eq-ok (apply_all num gate_set.rules inputs)
          (λ applied. ok (record {
            results = with_calibration gate_set inputs applied;
            verdict = combine (with_calibration gate_set inputs applied);
          }))
          h in
      (applied, p, ground arith, ground arith)

  -- When a report is returned, its exit code is 2 if a blocking result is an error, else 1 if a
  -- blocking result fails, and else 0: no result that does not block counts.
  pub exit_code-evaluate_gates :
      (report : GateReport F)
      → evaluate_gates num gate_set inputs ≡ ok report
      → exit_code report ≡ (
          if any blocking_error report.results
          then 2
          else if any blocking_failure report.results
          then 1
          else 0)
  exit_code-evaluate_gates report h =
      let (applied, p, q, v) = report_lem report h in ground (arith, v, combine_lem report.results)

  any-with_calibration :
      (p : GateResult F → Bool) (applied : List (GateResult F))
      → any p (with_calibration gate_set inputs applied) ≡ (
          any p applied
          || (any p (calibration_results gate_set inputs.judge_metrics inputs.calibrations)
              || any p (mismatches gate_set inputs)))
  any-with_calibration p applied =
      let judged = calibration_results gate_set inputs.judge_metrics inputs.calibrations in
      ground (
        arith,
        any-append p (applied ++ judged) (mismatches gate_set inputs),
        any-append p applied judged,
      )

  -- The blocking errors and failures of a report, by where they come from.
  any-results :
      (p : GateResult F → Bool) (report : GateReport F)
      → evaluate_gates num gate_set inputs ≡ ok report
      → (applied : List (GateResult F)) × (apply_all num gate_set.rules inputs ≡ ok applied)
        × (any p report.results ≡ (
            any p applied
            || (any p (calibration_results gate_set inputs.judge_metrics inputs.calibrations)
                || any p (mismatches gate_set inputs))))
  any-results p report h =
      let (applied, r, q, v) = report_lem report h in
      (applied, r, ap (any p) q ∙ any-with_calibration p applied)

  -- When two data sets differ and the set of gates requires one, the exit code of the report is 2.
  pub mismatch-exit_code :
      (report : GateReport F)
      → evaluate_gates num gate_set inputs ≡ ok report
      → gate_set.require_dataset_match ≡ true
      → inputs.dataset_match ≡ false
      → exit_code report ≡ 2
  mismatch-exit_code report h required differs =
      let code = exit_code-evaluate_gates report h in
      let (applied, r, found) = any-results blocking_error report h in ground (arith, code, found)

  -- What a rule must find for its gate not to fail.
  abbrev pub is_satisfied : GateRule F → Bool
  is_satisfied rule =
      is_acceptable num rule (find_metric rule inputs.candidate) (find_metric rule inputs.baseline)

  abbrev pub is_unmet : GateRule F → Bool
  is_unmet rule = is_block rule.severity && not (is_satisfied rule)

  unmet_blocks :
      (rule : GateRule F) (r : GateResult F)
      → apply num rule inputs.candidate inputs.baseline inputs.significance ≡ ok r
      → is_unmet rule ≡ true
      → blocking_failure r ≡ true
  unmet_blocks rule r h unmet =
      let severity =
        apply-severity num rule inputs.candidate inputs.baseline inputs.significance r h in
      ground (
        arith,
        ap is_block severity,
        apply-pass num rule inputs.candidate inputs.baseline inputs.significance r h,
      )

  -- What holds of the result of each rule that has a property holds of some result.
  any-apply_all :
      (p : GateRule F → Bool) (q : GateResult F → Bool)
      → ((rule : GateRule F) (r : GateResult F)
          → apply num rule inputs.candidate inputs.baseline inputs.significance ≡ ok r
          → p rule ≡ true
          → q r ≡ true)
      → (rules : List (GateRule F)) (applied : List (GateResult F))
      → apply_all num rules inputs ≡ ok applied
      → any p rules ≡ true
      → any q applied ≡ true
  unfolding apply_all
  any-apply_all p q each [] applied h found = ground arith
  any-apply_all p q each (rule ∷ rules) applied h found =
      let (this, h', k) =
        >>=-eq-ok (apply num rule inputs.candidate inputs.baseline inputs.significance)
          (λ this. (do rest ← apply_all num rules inputs; ok (this ∷ rest))) h in
      let (rest, h2, k2) = >>=-eq-ok (apply_all num rules inputs) (λ rest. ok (this ∷ rest)) k in
      ground (arith, k2, each rule this h', any-apply_all p q each rules rest h2)

  -- A green build is earned: when the exit code is 0, the metric of every blocking rule was produced
  -- and measured, with its value and the share of its errors within the rule's limits and the
  -- baseline that the rule requires.
  pub green-evaluate_gates :
      (report : GateReport F)
      → evaluate_gates num gate_set inputs ≡ ok report
      → exit_code report ≡ 0
      → any is_unmet gate_set.rules ≡ false
  green-evaluate_gates report h green =
      let code = exit_code-evaluate_gates report h in
      let (applied, r, found) = any-results blocking_failure report h in
      ground (
        arith,
        code,
        found,
        any-apply_all is_unmet blocking_failure unmet_blocks gate_set.rules applied r,
      )

  -- A blocking rule that names a metric which was not produced.
  abbrev pub is_missing : GateRule F → Bool
  is_missing rule = is_block rule.severity && not (is_some (find_metric rule inputs.candidate))

  missing_blocks :
      (rule : GateRule F) (r : GateResult F)
      → apply num rule inputs.candidate inputs.baseline inputs.significance ≡ ok r
      → is_missing rule ≡ true
      → blocking_error r ≡ true
  missing_blocks rule r h missing =
      let severity =
        apply-severity num rule inputs.candidate inputs.baseline inputs.significance r h in
      ground (
        arith,
        ap is_block severity,
        apply-missing num rule inputs.candidate inputs.baseline inputs.significance r h,
      )

  -- A gate on a metric that was not produced is an error: when a blocking rule names one, the exit
  -- code of the report is 2.
  pub missing-exit_code :
      (report : GateReport F)
      → evaluate_gates num gate_set inputs ≡ ok report
      → any is_missing gate_set.rules ≡ true
      → exit_code report ≡ 2
  missing-exit_code report h missing =
      let code = exit_code-evaluate_gates report h in
      let (applied, r, found) = any-results blocking_error report h in
      ground (
        arith,
        code,
        found,
        any-apply_all is_missing blocking_error missing_blocks gate_set.rules applied r,
      )

  -- When a calibration is required, and a rule gates on a judge that has none, a stale one, or one
  -- that does not meet the requirement, the exit code of the report is 2.
  pub untrusted-exit_code :
      (report : GateReport F)
      → evaluate_gates num gate_set inputs ≡ ok report
      → is_required (requirement_of gate_set.require_calibration) ≡ true
      → any (untrusted_gate inputs.judge_metrics inputs.calibrations) gate_set.rules ≡ true
      → exit_code report ≡ 2
  untrusted-exit_code report h required untrusted =
      let code = exit_code-evaluate_gates report h in
      let (applied, r, found) = any-results blocking_error report h in
      ground (
        arith,
        code,
        found,
        calibration_results-error gate_set inputs.judge_metrics inputs.calibrations,
      )
