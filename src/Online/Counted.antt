-- ===== src/Online/Counted.antt =====
-- What the counters of a batch say of the rows that it wrote.
use proofstep.Prelude.{
  ℕ, ◌+◌, ◌≡◌, refl, inl, inr, Bool, true, false, Option, none, some, ◌∷◌, arith, if◌then◌else◌,
  Bool-cases, Option-cases, length, any, filter, str_eq,
}
use proofstep.Prelude.{if_both}
use proofstep.Prelude.Result.{Result}
use proofstep.Sampling.{Reason}
use proofstep.Types.Trace.{Trace}
use proofstep.Trajectory.Events.{PolicyResult}
use proofstep.Trajectory.Engine.{LoadedPolicy, evaluate_policy}
use proofstep.Online.Rows.{
  OnlineEvalRule, RuleKind, TraceRow, PolicyVersion, OnlineEvaluation, Verdict, Broken, Detail,
  Store,
}
use proofstep.Online.Loading.{load_trace}
use proofstep.Online.Recorded.{evaluations-enqueue}
use proofstep.Online.{
  State, BatchOutcome, is_fail, noted, one_skipped, after_write, after_decision, apply, skipped_row,
  judged_row, decision_for, counted,
}
use proofstep.Online.Judging.{
  World, Judgement, evaluate, evaluate_trajectory, verdict_of, on_version, with_policy, on_trace,
  of_result, find_version,
}
use proofstep.Online.Tables.{write, enqueue, has_decision, assigns}

abbrev pub is_judged : Verdict → Bool
is_judged Verdict.skipped = false
is_judged _ = true

abbrev pub is_error : Verdict → Bool
is_error Verdict.error = true
is_error _ = false

-- The rows with such a verdict.
abbrev pub rows : (Verdict → Bool) → Store → ℕ
rows p s = length (filter (λ e. p e.verdict) s.evaluations)

abbrev pub items : Store → ℕ
items s = length s.assignments

-- The decisions of all reasons.
abbrev pub total : (Reason → ℕ) → ℕ
total count =
    count Reason.deterministic
    + count Reason.sampled
    + count Reason.escalated
    + count Reason.forced
    + count Reason.not_sampled
    + count Reason.capped
    + count Reason.over_budget

-- The counters differ as the numbers of rows do.
abbrev pub Balances : Store → BatchOutcome → Store → BatchOutcome → Type 0
Balances s o t p =
    (rows is_judged t + o.evaluations_written ≡ rows is_judged s + p.evaluations_written)
    × (rows is_fail t + o.failures ≡ rows is_fail s + p.failures)
    × (rows is_error t + o.errors ≡ rows is_error s + p.errors)
    × (items t + o.queued_for_review ≡ items s + p.queued_for_review)

Judges : Judgement → Type 0
Judges (Judgement.returned verdict detail score cost) = is_judged verdict ≡ true
Judges (Judgement.raised broken) = Unit {0}

verdict_of_lem : (r : PolicyResult) → is_judged (verdict_of r) ≡ true
unfolding verdict_of
verdict_of_lem r = ground arith

module _ (world : World) where
  of_result_lem : (version : ℕ) (r : Result PolicyResult) → Judges (of_result world version r)
  unfolding Judges
  of_result_lem version Result.type_error = tt
  of_result_lem version (Result.ok r) = verdict_of_lem r

  on_trace_lem :
      (version : ℕ) (policy : LoadedPolicy) (t : Option Trace)
      → Judges (on_trace world version policy t)
  unfolding Judges
  on_trace_lem version policy none = tt
  on_trace_lem version policy (some t) =
      of_result_lem version (evaluate_policy world.python world.host policy t)

  with_policy_lem :
      (s : Store) (t : TraceRow) (version : ℕ) (p : Option LoadedPolicy)
      → Judges (with_policy world s t version p)
  unfolding Judges
  with_policy_lem s t version none = tt
  with_policy_lem s t version (some p) = on_trace_lem version p (load_trace s t)

  broken : (b : Broken) → Judges (Judgement.raised b)
  unfolding Judges
  broken b = tt

  on_version_lem :
      (s : Store) (t : TraceRow) (v : Option PolicyVersion) → Judges (on_version world s t v)
  on_version_lem s t none = broken Broken.policy_error
  on_version_lem s t (some v) =
      if_both Judges (str_eq v.project_id world.project_id) _ _
        (with_policy_lem s t v.version (world.load_policy v.source_yaml))
        (broken Broken.policy_error)

  evaluate_lem :
      (s : Store) (rule : OnlineEvalRule) (t : TraceRow) → Judges (evaluate world s rule t)
  unfolding evaluate evaluate_trajectory
  evaluate_lem s rule t =
      elim rule.kind
        as (λ k. Judges (elim k [
          | RuleKind.trajectory ↦ on_version world s t (find_version world s rule.policy_version_id)
          | RuleKind.llm_judge ↦ Judgement.raised Broken.not_implemented
          | RuleKind.deterministic ↦ Judgement.raised Broken.not_implemented
        ])) [
          | RuleKind.trajectory ↦ on_version_lem s t (find_version world s rule.policy_version_id)
          | RuleKind.llm_judge ↦ broken Broken.not_implemented
          | RuleKind.deterministic ↦ broken Broken.not_implemented
        ]

items-enqueue :
    (rule : OnlineEvalRule) (t : TraceRow) (d : Detail) (s : Store)
    → items (enqueue rule t d s).1 ≡ (if (enqueue rule t d s).0 then items s + 1 else items s)
unfolding enqueue
items-enqueue rule t d s = elim (Option-cases rule.review_queue_id) [
  | inl h ↦ rw h refl
  | inr (queue, h) ↦ elim (Bool-cases (any (assigns queue t.trace_id) s.assignments)) [
    | inl k ↦ rw (h, k) refl
    | inr k ↦ rw (h, k) (omega arith)
  ]
]

module _ (rule : OnlineEvalRule) (t : TraceRow) (e : OnlineEvaluation) (o : BatchOutcome) where
  -- A row that is no failure was inserted.
  plain :
      (v : Verdict) (s : Store)
      → e.verdict ≡ v
      → is_fail v ≡ false
      → is_judged v ≡ true
      → Balances s o (record s { evaluations = e ∷ s.evaluations }) (counted v e.cost false o)
  plain Verdict.pass s h a b = ground (arith, h)
  plain Verdict.inconclusive s h a b = ground (arith, h)
  plain Verdict.error s h a b = ground (arith, h)
  plain Verdict.fail s h a b = absurd (cc)
  plain Verdict.skipped s h a b = absurd (cc)

  failing :
      (v : Verdict) (s s' : Store) (queued : Bool)
      → e.verdict ≡ v
      → is_fail v ≡ true
      → s'.evaluations ≡ e ∷ s.evaluations
      → items s' ≡ (if queued then items s + 1 else items s)
      → Balances s o s' (counted v e.cost queued o)
  failing Verdict.fail s s' queued h a same more = rw same (ground (arith, h, more))
  failing Verdict.pass s s' queued h a same more = absurd (cc)
  failing Verdict.inconclusive s s' queued h a same more = absurd (cc)
  failing Verdict.error s s' queued h a same more = absurd (cc)
  failing Verdict.skipped s s' queued h a same more = absurd (cc)

  after_write-Balances :
      (s : Store)
      → is_judged e.verdict ≡ true
      → Balances s o (after_write rule t e (write e s) o).0 (after_write rule t e (write e s) o).1
  unfolding write
  after_write-Balances s h = elim (Bool-cases (has_decision e.rule_id e.trace_id s.evaluations)) [
    | inl k ↦ rw k (refl, refl, refl, refl)
    | inr k ↦
        let next = record s { evaluations = e ∷ s.evaluations } in
        elim (Bool-cases (is_fail e.verdict)) [
          | inl f ↦
              rw (k, f)
                (failing e.verdict s (enqueue rule t e.detail next).1
                  (enqueue rule t e.detail next).0 refl f (evaluations-enqueue rule t e next).1
                  (items-enqueue rule t e.detail next))
          | inr f ↦ rw (k, f) (plain e.verdict s refl f h)
        ]
  ]

module _ (world : World) (rule : OnlineEvalRule) (now : ℕ) where
  judged :
      (t : TraceRow) (r : Reason) (j : Judgement)
      → Judges j
      → is_judged (judged_row rule t now r j).verdict ≡ true
  unfolding Judges
  judged t r (Judgement.returned verdict detail score cost) h = h
  judged t r (Judgement.raised b) h = refl

  -- A row that was skipped is counted by no counter of rows.
  unjudged :
      (t : TraceRow) (r : Reason) (d : Detail) (s : Store) (o : BatchOutcome)
      → Balances s o (write (skipped_row rule t now r d) s).1 (one_skipped (noted r o))
  unfolding write
  unjudged t r d s o = elim (Bool-cases (has_decision rule.id t.trace_id s.evaluations)) [
    | inl h ↦ rw h (refl, refl, refl, refl)
    | inr h ↦ rw h (refl, refl, refl, refl)
  ]

  pub apply-Balances :
      (broke : Bool) (t : TraceRow) (s : State)
      → Balances s.store s.outcome
          (apply world rule now false broke t s).store
          (apply world rule now false broke t s).outcome
  unfolding apply after_decision
  apply-Balances true t s = unjudged t Reason.over_budget Detail.spend_limit s.store s.outcome
  apply-Balances false t s =
      let d = (decision_for world rule now false t s.budget).0 in
      let j = evaluate world s.store rule t in
      elim (Bool-cases d.evaluate) [
        | inl h ↦ rw h (
            after_write-Balances rule t (judged_row rule t now d.reason j)
              (noted d.reason s.outcome) s.store
              (judged t d.reason j (evaluate_lem world s.store rule t)))
        | inr h ↦ rw h (unjudged t d.reason Detail.empty s.store s.outcome)
      ]
