-- ===== src/Sampling/Examples.antt =====
-- Sampling with a digest that is the same for all traces.
use proofstep.Prelude.{
  ℕ, ◌+◌, ◌≤◌, ◌<◌, String, ◌≡◌, refl, ◌≢◌, ◌⊎◌, true, false, none, some, List, [], ◌∷◌, arith,
  length, filter,
}
use proofstep.Sampling.{Rate, is_below, SamplingRule, Reason, EscalationBudget, is_sampled, decide}
use proofstep.Sampling.Decisions.{budget-decide}
use proofstep.Sampling.Batches.{Candidate, is_escalated, decide_all, escalations-decide_all}

abbrev same_bytes : String → String → ℕ
same_bytes salted trace_id = 1000000000

abbrev percent : ℕ → Rate
percent n = record { negative = false; numerator = n; less_one = 99 }

abbrev judge : SamplingRule
judge = record {
  rule_id = "judge";
  sample_rate = percent 1;
  enabled = true;
  deterministic = false;
  escalate_on_failure = true;
  sample_group = none;
}

abbrev last_one : EscalationBudget
last_one = record { limit = 3; spent = 2 }

quarter : is_sampled same_bytes "t1" (percent 25) "judge" ≡ true
unfolding is_sampled is_below
quarter = refl

budget-decide_example :
    let (decision, left) = decide same_bytes "t1" judge true false (some last_one) in
    ((decision.reason ≢ Reason.escalated) × (left ≡ some last_one))
    ⊎ ((decision.reason ≡ Reason.escalated)
        × (left ≡ some (record last_one { spent = last_one.spent + 1 }))
        × (last_one.spent < last_one.limit))
budget-decide_example = budget-decide same_bytes "t1" judge true false last_one

abbrev broken : String → Candidate
broken id = record { trace_id = id; trace_failed = true; is_forced = false }

abbrev incident : List Candidate
incident = broken "t1" ∷ broken "t2" ∷ broken "t3" ∷ []

escalations-decide_all_example :
    (decide_all same_bytes judge incident (some last_one)).1
      ≡ some (record last_one {
        spent =
            last_one.spent
            + length (filter is_escalated (decide_all same_bytes judge incident (some last_one)).0);
      })
    × (last_one.spent
          + length (filter is_escalated (decide_all same_bytes judge incident (some last_one)).0)
        ≤ last_one.limit)
escalations-decide_all_example =
    escalations-decide_all same_bytes judge incident last_one (omega arith)
