-- ===== src/Online/Totals.antt =====
-- The totals of a batch.
use proofstep.Prelude.{
  ℕ, ◌+◌, ◌≡◌, refl, ◌∙◌, inl, inr, Bool, true, false, ◌&&◌, Option, some, List, [], ◌∷◌, arith,
  Bool-cases, length, all,
}
use proofstep.Sampling.{Reason}
use proofstep.Online.Rows.{OnlineEvalRule, TraceRow, OnlineEvaluation, Verdict, Store}
use proofstep.Online.{
  State, BatchOutcome, is_fail, noted, after_write, after_decision, apply, apply_all, run_rule,
  run_rules, run_batch, judged_row, decision_for, counted, is_broke, no_outcome, is_paid, or_active,
}
use proofstep.Online.Judging.{World, evaluate}
use proofstep.Online.Tables.{write, pending}
use proofstep.Online.Counted.{is_judged, is_error, rows, items, total, Balances, apply-Balances}

total-noted : (r : Reason) (o : BatchOutcome) → total (noted r o).reasons ≡ total o.reasons + 1
total-noted Reason.deterministic o = omega arith
total-noted Reason.sampled o = omega arith
total-noted Reason.escalated o = omega arith
total-noted Reason.forced o = omega arith
total-noted Reason.not_sampled o = omega arith
total-noted Reason.capped o = omega arith
total-noted Reason.over_budget o = omega arith

-- The reasons and the traces are counted alike.
abbrev Counts : ℕ → BatchOutcome → BatchOutcome → Type 0
Counts n o p = (total p.reasons ≡ total o.reasons + n) × (p.traces_considered ≡ o.traces_considered)

counted_lem :
    (v : Verdict) (cost : ℕ) (queued : Bool) (o : BatchOutcome)
    → Counts 0 o (counted v cost queued o)
counted_lem Verdict.pass cost queued o = (omega arith, refl)
counted_lem Verdict.fail cost queued o = (omega arith, refl)
counted_lem Verdict.inconclusive cost queued o = (omega arith, refl)
counted_lem Verdict.error cost queued o = (omega arith, refl)
counted_lem Verdict.skipped cost queued o = (omega arith, refl)

after_write_lem :
    (rule : OnlineEvalRule) (t : TraceRow) (e : OnlineEvaluation) (w : Bool × Store)
    (o : BatchOutcome)
    → Counts 0 o (after_write rule t e w o).1
after_write_lem rule t e (false, s) o = (omega arith, refl)
after_write_lem rule t e (true, s) o = elim (Bool-cases (is_fail e.verdict)) [
  | inl h ↦ rw h (counted_lem e.verdict e.cost _ o)
  | inr h ↦ rw h (counted_lem e.verdict e.cost false o)
]

module _ (world : World) where
  module _ (rule : OnlineEvalRule) (now : ℕ) where
    apply_lem :
        (broke : Bool) (t : TraceRow) (s : State)
        → Counts 1 s.outcome (apply world rule now false broke t s).outcome
    unfolding apply after_decision
    apply_lem true t s = (total-noted Reason.over_budget s.outcome, refl)
    apply_lem false t s =
        let d = (decision_for world rule now false t s.budget).0 in
        let e = judged_row rule t now d.reason (evaluate world s.store rule t) in
        let one = noted d.reason s.outcome in
        elim (Bool-cases d.evaluate) [
          | inl h ↦
              let same = after_write_lem rule t e (write e s.store) one in
              rw h (omega (arith, same.0, total-noted d.reason s.outcome), same.1)
          | inr h ↦ rw h (total-noted d.reason s.outcome, refl)
        ]

    apply_all_lem :
        (broke : Bool) (ts : List TraceRow) (s : State)
        → let end = apply_all world rule now broke ts s in
          Counts (length ts) s.outcome end.outcome
          × Balances s.store s.outcome end.store end.outcome
    unfolding apply_all
    apply_all_lem broke [] s = ((omega arith, refl), (refl, refl, refl, refl))
    apply_all_lem broke (t ∷ ts) s =
        let one = apply world rule now false broke t s in
        let ((all, same), (a, b, c, d)) = apply_all_lem broke ts one in
        let (first, kept) = apply_lem broke t s in
        let (a', b', c', d') = apply-Balances world rule now broke t s in
        (
          (omega (arith, all, first), same ∙ kept),
          (omega (arith, a, a'), omega (arith, b, b'), omega (arith, c, c'), omega (arith, d, d')),
        )

  module _ (now since limit : ℕ) (broke : Bool) where
    -- The reasons of a batch add up to the traces that were considered.
    abbrev AddUp : BatchOutcome → Type 0
    AddUp o = total o.reasons ≡ o.traces_considered

    run_rules_lem :
        (rules : List OnlineEvalRule) (s : Store) (o : BatchOutcome)
        → AddUp o
        → let end = run_rules world now since limit broke rules (s, o) in
          AddUp end.1 × Balances s o end.0 end.1
    unfolding run_rules run_rule
    run_rules_lem [] s o h = (h, (refl, refl, refl, refl))
    run_rules_lem (rule ∷ rules) s o h =
        let traces = pending rule since limit s in
        let start = record o { traces_considered = o.traces_considered + length traces } in
        let end = run_rule world now since limit broke rule (s, o) in
        let ((all, same), (a, b, c, d)) =
          apply_all_lem rule now (broke && is_paid rule.kind) traces (record {
            store = s;
            budget = some (record { limit = rule.max_escalations_per_batch; spent = 0 });
            outcome = start;
          }) in
        let (rest, (a', b', c', d')) =
          run_rules_lem rules end.0 end.1 (omega (arith, h, all, same)) in
        (
          rest,
          (omega (arith, a, a'), omega (arith, b, b'), omega (arith, c, c'), omega (arith, d, d')),
        )

  -- The outcome of a batch is what it did: every trace that was considered has one reason, and the
  -- numbers of evaluations, failures, errors and queued items are those of the rows that the batch
  -- added to the tables, where a skipped trace is no evaluation.
  pub run_batch-rows :
      (now since limit : ℕ) (rules : Option (List OnlineEvalRule)) (s : Store)
      → let (t, o) = run_batch world now since limit rules s in
        (total o.reasons ≡ o.traces_considered)
        × (rows is_judged t ≡ rows is_judged s + o.evaluations_written)
        × (rows is_fail t ≡ rows is_fail s + o.failures)
        × (rows is_error t ≡ rows is_error s + o.errors)
        × (items t ≡ items s + o.queued_for_review)
  unfolding run_batch
  run_batch-rows now since limit rules s =
      let broke = is_broke world now s in
      let (all, (a, b, c, d)) =
        run_rules_lem now since limit broke (or_active world rules s) s (no_outcome world broke)
          refl in
      (all, omega (arith, a), omega (arith, b), omega (arith, c), omega (arith, d))
