-- ===== src/Gates/Report/Verdicts.antt =====
-- `_combine`: the verdict as a function of which results there are, in any order.
use proofstep.Prelude.{◌≡◌, ◌∙◌, Bool, true, false, ◌&&◌, List, [], ◌∷◌, arith, if◌then◌else◌, any}
use proofstep.Types.{Verdict, is_blocking}
use proofstep.Gates.Rules.{GateResult, blocking}
use proofstep.Gates.Report.{worse, weigh, combine_from, combine}

abbrev pub is_error : Verdict → Bool
is_error Verdict.error = true
is_error _ = false

module _ {F : Type 0} where
  abbrev pub blocking_error : GateResult F → Bool
  blocking_error r = is_error r.verdict && blocking r

  abbrev pub blocking_failure : GateResult F → Bool
  blocking_failure r = is_blocking r.verdict && blocking r

  abbrev pub problem_found : GateResult F → Bool
  problem_found r = is_blocking r.verdict

  -- The worst of what the results say.
  abbrev pub worst_of : List (GateResult F) → Verdict
  worst_of results =
      if any blocking_error results
      then Verdict.error
      else if any blocking_failure results
      then Verdict.fail
      else if any problem_found results
      then Verdict.warn
      else Verdict.pass

  worse_step :
      (v : Verdict) (r : GateResult F) (results : List (GateResult F))
      → worse (weigh v r) (worst_of results) ≡ worse v (worst_of (r ∷ results))
  unfolding weigh
  worse_step v r results = ground arith

  combine_from_lem :
      (v : Verdict) (results : List (GateResult F))
      → combine_from v results ≡ worse v (worst_of results)
  unfolding combine_from
  combine_from_lem v [] = ground arith
  combine_from_lem v (r ∷ results) = combine_from_lem (weigh v r) results ∙ worse_step v r results

  -- The combined verdict is ERROR when a blocking result is an error, else FAIL when a blocking
  -- result fails, else WARN when any result fails or is an error, and PASS when none does.
  pub combine_lem : (results : List (GateResult F)) → combine results ≡ worst_of results
  unfolding combine
  combine_lem results = combine_from_lem Verdict.pass results ∙ (ground arith)
