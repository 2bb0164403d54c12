-- ===== src/Sampling.antt =====
-- Which production traces are evaluated: packages/evaluation-core/src/proofstep_core/sampling.py.
use proofstep.Prelude.{
  ℕ, ◌+◌, ◌*◌, String, Bool, true, false, not, ◌&&◌, ◌||◌, Option, none, some, ltb, leb, ◌==◌,
  if◌then◌else◌, str_eq,
}
use proofstep.Prelude.{◌^◌}
pub mod Rates
pub mod Decisions
pub mod Batches
pub mod Examples

-- A finite rate, exactly: the numerator over `suc less_one`, below zero when `negative`.
pub record Rate : Type 0 where
  pub negative : Bool
  pub numerator : ℕ
  pub less_one : ℕ

abbrev pub denominator : Rate → ℕ
denominator r = r.less_one + 1

-- `_BUCKETS`
abbrev pub buckets : ℕ
buckets = 2 ^ 32

-- `n / _BUCKETS < rate`
unfoldable pub is_below : ℕ → Rate → Bool
is_below n rate = not rate.negative && ltb (n * denominator rate) (rate.numerator * buckets)

-- `rate <= 0` and `rate >= 1`
abbrev pub is_nothing : Rate → Bool
is_nothing rate = rate.negative || rate.numerator == 0

abbrev pub is_everything : Rate → Bool
is_everything rate = not rate.negative && leb (denominator rate) rate.numerator

pub record SamplingRule : Type 0 where
  pub rule_id : String
  pub sample_rate : Rate
  pub enabled : Bool
  pub deterministic : Bool
  pub escalate_on_failure : Bool
  pub sample_group : Option String

-- `sample_group or rule_id`
abbrev or_text : Option String → String → String
or_text none other = other
or_text (some s) other = if str_eq s "" then other else s

abbrev pub salt : SamplingRule → String
salt rule = or_text rule.sample_group rule.rule_id

pub data Reason : Type 0 where
  deterministic sampled escalated forced not_sampled capped over_budget : Reason

-- The bucket is the numerator over `buckets`.
pub record SamplingDecision : Type 0 where
  pub evaluate : Bool
  pub reason : Reason
  pub bucket : Option ℕ

abbrev pub is_free : Reason → Bool
is_free Reason.deterministic = true
is_free _ = false

abbrev pub costs_money : SamplingDecision → Bool
costs_money d = d.evaluate && not (is_free d.reason)

-- A limit below zero acts as 0 does.
pub record EscalationBudget : Type 0 where
  pub limit : ℕ
  pub spent : ℕ

abbrev pub exhausted : EscalationBudget → Bool
exhausted budget = leb budget.limit budget.spent

-- `take`, with the budget that it leaves.
unfoldable pub spend : EscalationBudget → Bool × EscalationBudget
spend budget =
    if exhausted budget then (false, budget) else (true, record budget { spent = budget.spent + 1 })

-- `budget is None or budget.take()`
abbrev pub may_escalate : Option EscalationBudget → Bool × Option EscalationBudget
may_escalate none = (true, none)
may_escalate (some budget) = ((spend budget).0, some (spend budget).1)

abbrev pub decided : Bool → Reason → Option ℕ → SamplingDecision
decided evaluate reason bucket = record { evaluate = evaluate; reason = reason; bucket = bucket }

-- `four_bytes salt trace_id` is the number that the first four bytes of the digest make.
module _ (four_bytes : String → String → ℕ) where
  unfoldable pub is_sampled : String → Rate → String → Bool
  is_sampled trace_id rate salted =
      if is_nothing rate
      then false
      else if is_everything rate
      then true
      else is_below (four_bytes salted trace_id) rate

  -- A decision, and the budget after it.
  unfoldable pub decide :
      String
      → SamplingRule
      → Bool
      → Bool
      → Option EscalationBudget
      → SamplingDecision × Option EscalationBudget
  decide trace_id rule trace_failed is_forced budget =
      let bucket = four_bytes (salt rule) trace_id in
      if not rule.enabled
      then (decided false Reason.not_sampled none, budget)
      else if is_forced
      then (decided true Reason.forced none, budget)
      else if rule.deterministic
      then (decided true Reason.deterministic none, budget)
      else if is_below bucket rule.sample_rate
      then (decided true Reason.sampled (some bucket), budget)
      else if trace_failed && rule.escalate_on_failure
      then (
        if (may_escalate budget).0
            then decided true Reason.escalated (some bucket)
            else decided false Reason.capped (some bucket),
        (may_escalate budget).1,
      )
      else (decided false Reason.not_sampled (some bucket), budget)
