-- ===== src/Sampling/Batches.antt =====
-- A batch of traces under one escalation budget.
use proofstep.Prelude.{
  ℕ, ◌+◌, ◌≤◌, String, ◌≡◌, ◌↔◌, inl, inr, Bool, true, false, Option, some, List, [], ◌∷◌, arith,
  length, filter,
}
use proofstep.Sampling.{SamplingRule, Reason, SamplingDecision, EscalationBudget, decide}
use proofstep.Sampling.Decisions.{budget-decide}

-- A trace: its id, whether it failed, and whether it was asked for.
pub record Candidate : Type 0 where
  pub trace_id : String
  pub trace_failed : Bool
  pub is_forced : Bool

abbrev pub escalates : Reason → Bool
escalates Reason.escalated = true
escalates _ = false

abbrev pub is_escalated : SamplingDecision → Bool
is_escalated d = escalates d.reason

escalates_iff : (reason : Reason) → (reason ≡ Reason.escalated) ↔ (escalates reason ≡ true)
escalates_iff reason = ground arith

module _ (four_bytes : String → String → ℕ) (rule : SamplingRule) where
  -- The decisions of a batch, in order, and the budget that is left.
  unfoldable pub decide_all :
      List Candidate → Option EscalationBudget → List SamplingDecision × Option EscalationBudget
  decide_all [] budget = ([], budget)
  decide_all (c ∷ cs) budget =
      let (decision, left) = decide four_bytes c.trace_id rule c.trace_failed c.is_forced budget in
      let (decisions, rest) = decide_all cs left in (decision ∷ decisions, rest)

  -- An error spike cannot exceed the cap: over a batch of traces, the escalations and what was spent
  -- before add up to what is spent after, and that is within the limit when it was so before.
  pub escalations-decide_all :
      (cs : List Candidate) (budget : EscalationBudget)
      → budget.spent ≤ budget.limit
      → (decide_all cs (some budget)).1
          ≡ some (record budget {
            spent = budget.spent + length (filter is_escalated (decide_all cs (some budget)).0);
          })
        × (budget.spent + length (filter is_escalated (decide_all cs (some budget)).0)
            ≤ budget.limit)
  unfolding decide_all
  escalations-decide_all [] budget within = (ground arith, ground arith)
  escalations-decide_all (c ∷ cs) budget within =
      let this = decide four_bytes c.trace_id rule c.trace_failed c.is_forced (some budget) in
      elim (budget-decide four_bytes c.trace_id rule c.trace_failed c.is_forced budget) [
        | inl (calm, same) ↦
            let quiet : is_escalated this.0 ≡ false =
              ground (arith, escalates_iff this.0.reason, calm) in
            rw (same, quiet) (escalations-decide_all cs budget within)
        | inr (spike, less, room) ↦
            let loud : is_escalated this.0 ≡ true = (escalates_iff this.0.reason).0 spike in
            rw (less, loud)
              (let next =
                  escalations-decide_all cs (record budget { spent = budget.spent + 1 })
                    (omega arith) in
                (ground (arith, next.0), ground (arith, next.1)))
      ]
