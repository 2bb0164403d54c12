-- ===== src/Sampling/Decisions.antt =====
-- What one sampling decision says.
use proofstep.Prelude.{
  ℕ, ◌+◌, ◌<◌, String, ◌≡◌, ◌≢◌, ◌↔◌, ◌⊎◌, Bool, true, false, not, ◌&&◌, ◌||◌, Option, none, some,
  arith,
}
use proofstep.Sampling.Rates.{is_sampled-eq-is_below}
use proofstep.Sampling.{
  buckets, is_below, SamplingRule, salt, Reason, EscalationBudget, exhausted, spend, is_sampled,
  decide,
}

abbrev pub has_room : Option EscalationBudget → Bool
has_room none = true
has_room (some budget) = not (exhausted budget)

module _ (four_bytes : String → String → ℕ) where
  -- A trace is evaluated exactly when the rule is enabled and the trace is asked for, the rule is
  -- free, the trace is in the sample, or it failed and the escalation budget has room.
  pub evaluate-decide :
      (trace_id : String) (rule : SamplingRule) (trace_failed is_forced : Bool)
      (budget : Option EscalationBudget)
      → (decide four_bytes trace_id rule trace_failed is_forced budget).0.evaluate ≡ (
          rule.enabled
          && (is_forced
              || rule.deterministic
              || is_below (four_bytes (salt rule) trace_id) rule.sample_rate
              || (trace_failed && rule.escalate_on_failure && has_room budget)))
  unfolding decide spend
  evaluate-decide trace_id rule trace_failed is_forced none = ground arith
  evaluate-decide trace_id rule trace_failed is_forced (some budget) = ground arith

  -- Membership in the sample is a property of the trace: for a rule that samples, and a digest
  -- within its four bytes, a decision has the reason `sampled` exactly when `is_sampled` holds,
  -- whatever failed and whatever was spent.
  pub sampled-decide :
      (trace_id : String) (rule : SamplingRule) (trace_failed : Bool)
      (budget : Option EscalationBudget)
      → four_bytes (salt rule) trace_id < buckets
      → rule.enabled ≡ true
      → rule.deterministic ≡ false
      → ((decide four_bytes trace_id rule trace_failed false budget).0.reason ≡ Reason.sampled)
        ↔ (is_sampled four_bytes trace_id rule.sample_rate (salt rule) ≡ true)
  unfolding decide
  sampled-decide trace_id rule trace_failed budget within on sampling =
      ground (arith, is_sampled-eq-is_below four_bytes trace_id rule.sample_rate (salt rule) within)

  -- Only an escalation spends: every other decision leaves the budget as it was, and an escalation
  -- under a budget takes one of what is left.
  pub budget-decide :
      (trace_id : String) (rule : SamplingRule) (trace_failed is_forced : Bool)
      (budget : EscalationBudget)
      → let (decision, left) =
          decide four_bytes trace_id rule trace_failed is_forced (some budget) in
        ((decision.reason ≢ Reason.escalated) × (left ≡ some budget))
        ⊎ ((decision.reason ≡ Reason.escalated)
            × (left ≡ some (record budget { spent = budget.spent + 1 }))
            × (budget.spent < budget.limit))
  unfolding decide spend
  budget-decide trace_id rule trace_failed is_forced budget = ground arith
