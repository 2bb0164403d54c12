-- ===== src/Online.antt =====
-- Online evaluation: apps/api/src/proofstep_api/services/online_eval.py, on the rows of one project.
-- A statement that is refused by a unique constraint changes nothing.
use proofstep.Prelude.{
  ℕ, ◌+◌, Bool, true, false, not, ◌&&◌, ◌||◌, Option, none, some, List, [], ◌∷◌, ltb, if◌then◌else◌,
  length, str_eq,
}
use proofstep.Sampling.{SamplingRule, SamplingDecision, Reason, EscalationBudget, decide}
pub mod Rows
pub mod Loading
pub mod Budget
pub mod Recorded
pub mod Drained
pub mod Counted
pub mod Totals
pub mod Ceiling
pub mod Tables
pub mod Judging
pub mod Examples
use Rows.*
use Budget.{is_exhausted, status}
use Tables.{active_rules, enqueue, pending, write}
use Judging.{Judgement, World, evaluate}

pub record BatchOutcome : Type 0 where
  pub traces_considered : ℕ
  pub evaluations_written : ℕ
  pub skipped : ℕ
  pub failures : ℕ
  pub errors : ℕ
  pub queued_for_review : ℕ
  pub cost : ℕ
  pub reasons : Reason → ℕ
  pub budget_exhausted : Bool

abbrev pub same_reason : Reason → Reason → Bool
same_reason Reason.deterministic Reason.deterministic = true
same_reason Reason.sampled Reason.sampled = true
same_reason Reason.escalated Reason.escalated = true
same_reason Reason.forced Reason.forced = true
same_reason Reason.not_sampled Reason.not_sampled = true
same_reason Reason.capped Reason.capped = true
same_reason Reason.over_budget Reason.over_budget = true
same_reason _ _ = false

-- `record`, where a missing reason counts 0.
abbrev pub noted : Reason → BatchOutcome → BatchOutcome
noted reason o = record o {
  reasons = λ r. if same_reason r reason then o.reasons r + 1 else o.reasons r;
}

abbrev pub one_skipped : BatchOutcome → BatchOutcome
one_skipped o = record o { skipped = o.skipped + 1 }

-- `_costs_money`
abbrev pub is_paid : RuleKind → Bool
is_paid RuleKind.llm_judge = true
is_paid _ = false

abbrev is_judge : RuleKind → Bool
is_judge RuleKind.llm_judge = true
is_judge _ = false

unfoldable pub sampling_rule : OnlineEvalRule → SamplingRule
sampling_rule rule = record {
  rule_id = rule.id;
  sample_rate = rule.sample_rate;
  enabled = rule.enabled;
  deterministic = not (is_judge rule.kind);
  escalate_on_failure = rule.escalate_on_failure;
  sample_group = rule.sample_group;
}

abbrev pub trace_failed : TraceRow → Bool
trace_failed t = not (str_eq t.status "ok") || ltb 0 t.error_count

pub record State : Type 0 where
  pub store : Store
  pub budget : Option EscalationBudget
  pub outcome : BatchOutcome

abbrev row_of :
    OnlineEvalRule
    → TraceRow
    → ℕ
    → Reason
    → Verdict
    → Detail
    → Option ℕ
    → ℕ
    → Option Broken
    → OnlineEvaluation
row_of rule trace now reason verdict detail score cost broken = record {
  trace_id = trace.trace_id;
  rule_id = rule.id;
  verdict = verdict;
  decision_reason = reason;
  score = score;
  detail = detail;
  error = broken;
  cost = cost;
  trace_started_at = trace.started_at;
  created_at = now;
}

abbrev pub skipped_row : OnlineEvalRule → TraceRow → ℕ → Reason → Detail → OnlineEvaluation
skipped_row rule trace now reason detail =
    row_of rule trace now reason Verdict.skipped detail none 0 none

-- The row of an evaluation; one that raised is an error, with no cost.
abbrev pub judged_row : OnlineEvalRule → TraceRow → ℕ → Reason → Judgement → OnlineEvaluation
judged_row rule trace now reason (Judgement.returned verdict detail score cost) =
    row_of rule trace now reason verdict detail score cost none
judged_row rule trace now reason (Judgement.raised broken) =
    row_of rule trace now reason Verdict.error Detail.empty none 0 (some broken)

abbrev pub counted : Verdict → ℕ → Bool → BatchOutcome → BatchOutcome
counted verdict cost queued o =
    let paid = record o { evaluations_written = o.evaluations_written + 1; cost = o.cost + cost } in
    elim verdict [
      | error ↦ record paid { errors = o.errors + 1 }
      | fail ↦ record paid {
        failures = o.failures + 1;
        queued_for_review = if queued then o.queued_for_review + 1 else o.queued_for_review;
      }
      | pass ↦ paid
      | inconclusive ↦ paid
      | skipped ↦ paid
    ]

abbrev pub is_fail : Verdict → Bool
is_fail Verdict.fail = true
is_fail _ = false

-- What follows `_write` of an evaluation.
abbrev pub after_write :
    OnlineEvalRule
    → TraceRow
    → OnlineEvaluation
    → Bool × Store
    → BatchOutcome
    → Store × BatchOutcome
after_write rule trace e (false, store) outcome = (store, outcome)
after_write rule trace e (true, store) outcome =
    if is_fail e.verdict
    then (
      (enqueue rule trace e.detail store).1,
      counted e.verdict e.cost (enqueue rule trace e.detail store).0 outcome,
    )
    else (store, counted e.verdict e.cost false outcome)

module _ (world : World) where
  module _ (rule : OnlineEvalRule) (now : ℕ) where
    -- The store and the outcome after a decision.
    unfoldable pub after_decision :
        TraceRow → SamplingDecision → Store → BatchOutcome → Store × BatchOutcome
    after_decision trace decision store outcome =
        let e = judged_row rule trace now decision.reason (evaluate world store rule trace) in
        if decision.evaluate
        then after_write rule trace e (write e store) (noted decision.reason outcome)
        else (
          (write (skipped_row rule trace now decision.reason Detail.empty) store).1,
          one_skipped (noted decision.reason outcome),
        )

    abbrev pub decision_for :
        Bool → TraceRow → Option EscalationBudget → SamplingDecision × Option EscalationBudget
    decision_for forced trace budget =
        decide world.four_bytes trace.trace_id (sampling_rule rule) (trace_failed trace) forced
          budget

    -- `_apply`
    unfoldable pub apply : Bool → Bool → TraceRow → State → State
    apply forced over_budget trace s =
        let (decision, left) = decision_for forced trace s.budget in
        let (store, outcome) = after_decision trace decision s.store s.outcome in
        let refused : State = record {
          store =
              (write (skipped_row rule trace now Reason.over_budget Detail.spend_limit) s.store).1;
          budget = s.budget;
          outcome = one_skipped (noted Reason.over_budget s.outcome);
        } in
        let done : State = record { store = store; budget = left; outcome = outcome } in
        if over_budget then refused else done

    unfoldable pub apply_all : Bool → List TraceRow → State → State
    apply_all over_budget [] s = s
    apply_all over_budget (trace ∷ traces) s =
        apply_all over_budget traces (apply false over_budget trace s)

  -- One round of the loop over the rules.
  unfoldable pub run_rule :
      ℕ → ℕ → ℕ → Bool → OnlineEvalRule → Store × BatchOutcome → Store × BatchOutcome
  run_rule now since limit broke rule (store, outcome) =
      let traces = pending rule since limit store in
      let start : State = record {
        store = store;
        budget = some (record { limit = rule.max_escalations_per_batch; spent = 0 });
        outcome = record outcome { traces_considered = outcome.traces_considered + length traces };
      } in
      let end = apply_all rule now (broke && is_paid rule.kind) traces start in
      (end.store, end.outcome)

  unfoldable pub run_rules :
      ℕ → ℕ → ℕ → Bool → List OnlineEvalRule → Store × BatchOutcome → Store × BatchOutcome
  run_rules now since limit broke [] s = s
  run_rules now since limit broke (rule ∷ rules) s =
      run_rules now since limit broke rules (run_rule now since limit broke rule s)

  abbrev pub no_outcome : Bool → BatchOutcome
  no_outcome exhausted = record {
    traces_considered = 0;
    evaluations_written = 0;
    skipped = 0;
    failures = 0;
    errors = 0;
    queued_for_review = 0;
    cost = 0;
    reasons = λ reason. 0;
    budget_exhausted = exhausted;
  }

  -- The spend limit is reached at the start of a batch.
  abbrev pub is_broke : ℕ → Store → Bool
  is_broke now store = is_exhausted (status world.month_start now store)

  abbrev or_active : Option (List OnlineEvalRule) → Store → List OnlineEvalRule
  or_active none store = active_rules store
  or_active (some rules) store = rules

  -- `run_batch`, with the start of the window.
  unfoldable pub run_batch : ℕ → ℕ → ℕ → Option (List OnlineEvalRule) → Store → Store × BatchOutcome
  run_batch now since limit rules store =
      run_rules now since limit (is_broke now store) (or_active rules store)
        (store, no_outcome (is_broke now store))
