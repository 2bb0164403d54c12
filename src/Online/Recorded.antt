-- ===== src/Online/Recorded.antt =====
-- What is recorded stays recorded, and each trace of a round is.
use proofstep.Prelude.{
  ℕ, String, ◌≡◌, refl, ap, ◌∙◌, inl, inr, Bool, true, false, ◌&&◌, List, [], ◌∷◌, arith,
  Bool-cases, Option-cases, any, all, str_eq_refl,
}
use proofstep.Sampling.{SamplingDecision, Reason}
use proofstep.Online.Rows.{OnlineEvalRule, TraceRow, OnlineEvaluation, Store, Detail}
use proofstep.Online.{
  State, BatchOutcome, is_fail, after_write, after_decision, apply, apply_all, run_rule, run_rules,
  noted, skipped_row, judged_row, decision_for, is_paid,
}
use proofstep.Online.Judging.{World, Judgement, evaluate}
use proofstep.Online.Tables.{has_decision, write, enqueue, pending, assigns}

-- The traces are the same, and no decision is lost.
abbrev pub Extends : Store → Store → Type 0
Extends s t =
    (t.traces ≡ s.traces)
    × ((rule id : String)
        → has_decision rule id s.evaluations ≡ true
        → has_decision rule id t.evaluations ≡ true)

pub Extends-refl : (s : Store) → Extends s s
Extends-refl s = (refl, λ rule id h. h)

pub Extends-trans : (s t u : Store) → Extends s t → Extends t u → Extends s u
Extends-trans s t u (same, more) (same', more') =
    (same' ∙ same, λ rule id h. more' rule id (more rule id h))

has_decision-cons :
    (e : OnlineEvaluation) (es : List OnlineEvaluation)
    → has_decision e.rule_id e.trace_id (e ∷ es) ≡ true
unfolding has_decision
has_decision-cons e es = ground (arith, str_eq_refl e.rule_id, str_eq_refl e.trace_id)

pub write-Extends : (e : OnlineEvaluation) (s : Store) → Extends s (write e s).1
unfolding write has_decision
write-Extends e s = elim (Bool-cases (has_decision e.rule_id e.trace_id s.evaluations)) [
  | inl h ↦ rw h (Extends-refl s)
  | inr h ↦ rw h (refl, λ rule id k. ground arith)
]

write_lem :
    (e : OnlineEvaluation) (s : Store)
    → has_decision e.rule_id e.trace_id ((write e s).1).evaluations ≡ true
unfolding write
write_lem e s = elim (Bool-cases (has_decision e.rule_id e.trace_id s.evaluations)) [
  | inl h ↦ ground (arith, h)
  | inr h ↦ rw h (has_decision-cons e s.evaluations)
]

pub evaluations-enqueue :
    (rule : OnlineEvalRule) (t : TraceRow) (e : OnlineEvaluation) (s : Store)
    → (((enqueue rule t e.detail s).1).traces ≡ s.traces)
      × (((enqueue rule t e.detail s).1).evaluations ≡ s.evaluations)
unfolding enqueue
evaluations-enqueue rule t e s = elim (Option-cases rule.review_queue_id) [
  | inl h ↦ rw h (refl, refl)
  | inr (queue, h) ↦ elim (Bool-cases (any (assigns queue t.trace_id) s.assignments)) [
    | inl k ↦ rw (h, k) (refl, refl)
    | inr k ↦ rw (h, k) (refl, refl)
  ]
]

pub after_write_lem :
    (rule : OnlineEvalRule) (t : TraceRow) (e : OnlineEvaluation) (w : Bool × Store)
    (o : BatchOutcome)
    → (((after_write rule t e w o).0).traces ≡ (w.1).traces)
      × (((after_write rule t e w o).0).evaluations ≡ (w.1).evaluations)
after_write_lem rule t e (false, s) o = (refl, refl)
after_write_lem rule t e (true, s) o = elim (Bool-cases (is_fail e.verdict)) [
  | inl h ↦ rw h (evaluations-enqueue rule t e s)
  | inr h ↦ rw h (refl, refl)
]

same-Extends :
    (s t u : Store)
    → (u.traces ≡ t.traces) × (u.evaluations ≡ t.evaluations)
    → Extends s t
    → Extends s u
same-Extends s t u (traces, evaluations) (same, more) =
    (traces ∙ same, λ rule id h. rw evaluations (more rule id h))

module _ (world : World) (rule : OnlineEvalRule) (now : ℕ) where
  judged_row_lem :
      (t : TraceRow) (r : Reason) (j : Judgement) (s : Store)
      → has_decision rule.id t.trace_id ((write (judged_row rule t now r j) s).1).evaluations ≡ true
  judged_row_lem t r (Judgement.returned verdict detail score cost) s =
      write_lem (judged_row rule t now r (Judgement.returned verdict detail score cost)) s
  judged_row_lem t r (Judgement.raised broken) s =
      write_lem (judged_row rule t now r (Judgement.raised broken)) s

  -- One decision: the store extends, and has a decision of the rule on the trace.
  after_decision_lem :
      (t : TraceRow) (d : SamplingDecision) (s : Store) (o : BatchOutcome)
      → Extends s (after_decision world rule now t d s o).0
        × (has_decision rule.id t.trace_id ((after_decision world rule now t d s o).0).evaluations
            ≡ true)
  unfolding after_decision
  after_decision_lem t d s o =
      let e = judged_row rule t now d.reason (evaluate world s rule t) in
      let k = skipped_row rule t now d.reason Detail.empty in
      let same = after_write_lem rule t e (write e s) (noted d.reason o) in
      elim (Bool-cases d.evaluate) [
        | inl h ↦ rw h (
          same-Extends s (write e s).1 (after_write rule t e (write e s) (noted d.reason o)).0 same
              (write-Extends e s),
          ap (has_decision rule.id t.trace_id) same.1
              ∙ judged_row_lem t d.reason (evaluate world s rule t) s,
        )
        | inr h ↦ rw h (write-Extends k s, write_lem k s)
      ]

  apply_lem :
      (forced broke : Bool) (t : TraceRow) (s : State)
      → Extends s.store (apply world rule now forced broke t s).store
        × (has_decision rule.id t.trace_id
              ((apply world rule now forced broke t s).store).evaluations
            ≡ true)
  unfolding apply
  apply_lem forced true t s =
      let k = skipped_row rule t now Reason.over_budget Detail.spend_limit in
      (write-Extends k s.store, write_lem k s.store)
  apply_lem forced false t s =
      after_decision_lem t (decision_for world rule now forced t s.budget).0 s.store s.outcome

  pub apply_all-Extends :
      (broke : Bool) (ts : List TraceRow) (s : State)
      → Extends s.store (apply_all world rule now broke ts s).store
  unfolding apply_all
  apply_all-Extends broke [] s = Extends-refl s.store
  apply_all-Extends broke (t ∷ ts) s =
      let one = apply world rule now false broke t s in
      Extends-trans s.store one.store (apply_all world rule now broke ts one).store
        (apply_lem false broke t s).0 (apply_all-Extends broke ts one)

  -- The rule has a decision on each trace of the round.
  pub all-apply_all :
      (broke : Bool) (ts : List TraceRow) (s : State)
      → all
          (λ t.
            has_decision rule.id t.trace_id
              ((apply_all world rule now broke ts s).store).evaluations)
          ts
        ≡ true
  unfolding apply_all
  all-apply_all broke [] s = refl
  all-apply_all broke (t ∷ ts) s =
      let one = apply world rule now false broke t s in
      let first =
        (apply_all-Extends broke ts one).1 rule.id t.trace_id (apply_lem false broke t s).1 in
      ground (arith, first, all-apply_all broke ts one)

module _ (world : World) (now since limit : ℕ) (broke : Bool) where
  pub run_rule-Extends :
      (rule : OnlineEvalRule) (s : Store) (o : BatchOutcome)
      → Extends s (run_rule world now since limit broke rule (s, o)).0
  unfolding run_rule
  run_rule-Extends rule s o =
      apply_all-Extends world rule now (broke && is_paid rule.kind) (pending rule since limit s) _

  pub run_rules-Extends :
      (rules : List OnlineEvalRule) (s : Store × BatchOutcome)
      → Extends s.0 (run_rules world now since limit broke rules s).0
  unfolding run_rules
  run_rules-Extends [] s = Extends-refl s.0
  run_rules-Extends (rule ∷ rules) (s, o) =
      let next = run_rule world now since limit broke rule (s, o) in
      Extends-trans s next.0 (run_rules world now since limit broke rules next).0
        (run_rule-Extends rule s o) (run_rules-Extends rules next)
