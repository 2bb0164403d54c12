-- ===== src/Online/Ceiling.antt =====
-- What a batch does when the money of the month is spent.
use proofstep.Prelude.{
  ℕ, ◌+◌, ◌≤◌, ◌≡◌, refl, sym, ap, ◌∙◌, ◌⊎◌, inl, inr, Bool, true, false, not, ◌&&◌, some, List, [],
  ◌∷◌, ◌++◌, arith, Bool-cases, length, all,
}
use proofstep.Sampling.{Reason}
use proofstep.Online.Rows.{OnlineEvalRule, TraceRow, OnlineEvaluation, Store, Detail}
use proofstep.Online.Budget.{spent_since, status}
use proofstep.Online.{
  State, BatchOutcome, same_reason, apply, apply_all, run_rule, run_rules, run_batch, is_paid,
  is_broke, no_outcome, skipped_row,
}
use proofstep.Online.Judging.{World}
use proofstep.Online.Tables.{write, pending, has_decision}
use proofstep.Online.Counted.{is_judged}

-- A decision not to evaluate for want of money.
abbrev pub is_unpaid : OnlineEvaluation → Bool
is_unpaid e = not (is_judged e.verdict) && same_reason e.decision_reason Reason.over_budget

-- Only such decisions were added, and nothing was evaluated, paid or queued.
abbrev pub IsIdle : Store → BatchOutcome → Store → BatchOutcome → Type 0
IsIdle s o t p =
    ((new : List OnlineEvaluation) × (t.evaluations ≡ new ++ s.evaluations)
      × (all is_unpaid new ≡ true))
    × (t.assignments ≡ s.assignments)
    × (p.evaluations_written ≡ o.evaluations_written)
    × (p.cost ≡ o.cost)

append_assoc : {A : Type 0} (xs ys zs : List A) → (xs ++ ys) ++ zs ≡ xs ++ (ys ++ zs)
append_assoc [] ys zs = refl
append_assoc (x ∷ xs) ys zs = rw (append_assoc xs ys zs)

all-append :
    {A : Type 0} (p : A → Bool) (xs ys : List A) → all p (xs ++ ys) ≡ (all p xs && all p ys)
all-append p [] ys = refl
all-append p (x ∷ xs) ys = ground (arith, all-append p xs ys)

module _ (world : World) (now : ℕ) where
  apply-IsIdle :
      (rule : OnlineEvalRule) (t : TraceRow) (s : State)
      → let end = apply world rule now false true t s in
        IsIdle s.store s.outcome end.store end.outcome
  unfolding apply write
  apply-IsIdle rule t s = elim (Bool-cases (has_decision rule.id t.trace_id s.store.evaluations)) [
    | inl h ↦ rw h (([], refl, refl), refl, refl, refl)
    | inr h ↦ rw h (
      (skipped_row rule t now Reason.over_budget Detail.spend_limit ∷ [], refl, refl),
      refl,
      refl,
      refl,
    )
  ]

  apply_all-IsIdle :
      (rule : OnlineEvalRule) (ts : List TraceRow) (s : State)
      → let end = apply_all world rule now true ts s in
        IsIdle s.store s.outcome end.store end.outcome
  unfolding apply_all
  apply_all-IsIdle rule [] s = (([], refl, refl), refl, refl, refl)
  apply_all-IsIdle rule (t ∷ ts) s =
      let one = apply world rule now false true t s in
      let ((first, at_first, idle), same, written, cost) = apply-IsIdle rule t s in
      let ((rest, at_rest, idle'), same', written', cost') = apply_all-IsIdle rule ts one in
      (
        (
          rest ++ first,
          at_rest
              ∙ ap (λ es. rest ++ es) at_first
              ∙ sym (append_assoc rest first s.store.evaluations),
          ground (arith, all-append is_unpaid rest first, idle, idle'),
        ),
        same' ∙ same,
        written' ∙ written,
        cost' ∙ cost,
      )

  -- The ceiling stops what costs money and nothing else: when the spending of the month has reached
  -- the limit, a batch of a paid rule only adds decisions that skip a trace for the budget, and
  -- evaluates, pays and queues nothing; a batch of a free rule leaves the rows that a round without
  -- a limit leaves.
  pub run_batch-IsIdle :
      (since size limit : ℕ) (rule : OnlineEvalRule) (s : Store)
      → s.monthly_cost_limit ≡ some limit
      → limit ≤ spent_since (world.month_start now) s.evaluations
      → let (t, o) = run_batch world now since size (some (rule ∷ [])) s in
        ((is_paid rule.kind ≡ true) × IsIdle s (no_outcome world true) t o)
        ⊎ ((is_paid rule.kind ≡ false)
            × (t ≡ (run_rule world now since size false rule (s, no_outcome world true)).0))
  unfolding run_batch run_rules run_rule status
  run_batch-IsIdle since size limit rule s capped reached =
      let broke : is_broke world now s ≡ true = ground (arith, capped, reached) in
      elim (Bool-cases (is_paid rule.kind)) [
        | inl h ↦ inl (
          h,
          rw (broke, h)
              (apply_all-IsIdle rule (pending rule since size s) (record {
                store = s;
                budget = some (record { limit = rule.max_escalations_per_batch; spent = 0 });
                outcome = record (no_outcome world true) {
                  traces_considered = 0 + length (pending rule since size s);
                };
              })),
        )
        | inr h ↦ inr (h, rw (broke, h) refl)
      ]
