-- ===== src/Online/Drained.antt =====
-- How a backlog of traces drains, batch by batch.
use proofstep.Prelude.{
  ℕ, zero, suc, ◌-◌, ◌*◌, ◌≤◌, ◌≡◌, refl, ap, ◌∙◌, Bool, true, false, ◌&&◌, some, List, [], ◌∷◌,
  ◌++◌, arith, length, take, drop, all, filter,
}
use proofstep.Prelude.{take-append-drop, filter-append, length-filter-le, length-drop}
use proofstep.Prelude.Sort.{sort_by, length-sort_by, count-sort_by}
use proofstep.Online.Rows.{OnlineEvalRule, TraceRow, Store}
use proofstep.Online.{BatchOutcome, run_rule, run_rules, run_batch, is_broke, no_outcome, is_paid}
use proofstep.Online.Judging.{World}
use proofstep.Online.Tables.{has_decision, is_pending, oldest_first, pending}
use proofstep.Online.Recorded.{Extends, all-apply_all, run_rule-Extends, run_rules-Extends}

module _ {A : Type 0} (p q : A → Bool) (narrower : (x : A) → p x ≡ true → q x ≡ true) where
  count_le : (xs : List A) → length (filter p xs) ≤ length (filter q xs)
  count_le [] = omega arith
  count_le (x ∷ xs) = ground (arith, narrower x, count_le xs)

  count-filter : (xs : List A) → length (filter p (filter q xs)) ≡ length (filter p xs)
  count-filter [] = refl
  count-filter (x ∷ xs) = ground (arith, narrower x, count-filter xs)

filter-none :
    {A : Type 0} (p q : A → Bool)
    → ((x : A) → q x ≡ true → p x ≡ false)
    → (xs : List A) → all q xs ≡ true
    → filter p xs ≡ []
filter-none p q h [] k = refl
filter-none p q h (x ∷ xs) k = ground (arith, h x, filter-none p q h xs)

no_length : {A : Type 0} (xs : List A) → length xs ≤ 0 → xs ≡ []
no_length [] h = refl
no_length (x ∷ xs) h = absurd (omega arith)

take-nil : {A : Type 0} (n : ℕ) → take {A = A} n [] ≡ []
take-nil zero = refl
take-nil (suc n) = refl

-- The traces in the scope of a rule on which it has no decision.
abbrev pub backlog : OnlineEvalRule → ℕ → Store → ℕ
backlog rule since store = length (filter (is_pending rule since store) store.traces)

module _ (rule : OnlineEvalRule) (since : ℕ) where
  still :
      (s t : Store) (x : TraceRow)
      → Extends s t
      → is_pending rule since t x ≡ true
      → is_pending rule since s x ≡ true
  still s t x (same, more) h = ground (arith, more rule.id x.trace_id)

  backlog_le : (s t : Store) → Extends s t → backlog rule since t ≤ backlog rule since s
  backlog_le s t (same, more) = rw same (
      count_le (is_pending rule since t) (is_pending rule since s) (λ x. still s t x (same, more))
        s.traces)

  -- A round with a decision on each of the first traces.
  shrinks :
      (limit : ℕ) (s t : Store)
      → Extends s t
      → all (λ x. has_decision rule.id x.trace_id t.evaluations) (pending rule since limit s) ≡ true
      → backlog rule since t ≤ backlog rule since s - limit
  unfolding pending
  shrinks limit s t (same, more) h =
      let p = is_pending rule since t in
      let q = is_pending rule since s in
      let left = filter q s.traces in
      let sorted = sort_by oldest_first left in
      let none_first =
        filter-none p (λ x. has_decision rule.id x.trace_id t.evaluations) (λ x k. ground arith)
          (take limit sorted) h in
      let in_two = ap (λ xs. length (filter p xs)) (take-append-drop limit sorted) in
      let both = filter-append p (take limit sorted) (drop limit sorted) in
      let few = length-filter-le p (drop limit sorted) in
      let rest : length (filter p sorted) ≤ length left - limit = ground (
        arith,
        in_two,
        both,
        none_first,
        few,
        length-drop limit sorted,
        length-sort_by oldest_first left,
      ) in
      ground (
        arith,
        ap (λ ts. length (filter p ts)) same,
        count-filter p q (λ x. still s t x (same, more)) s.traces,
        count-sort_by oldest_first p left,
        rest,
      )

module _ (world : World) (since limit : ℕ) where
  run_rule-backlog :
      (now : ℕ) (broke : Bool) (rule : OnlineEvalRule) (s : Store) (o : BatchOutcome)
      → backlog rule since (run_rule world now since limit broke rule (s, o)).0
        ≤ backlog rule since s - limit
  unfolding run_rule
  run_rule-backlog now broke rule s o =
      shrinks rule since limit s (run_rule world now since limit broke rule (s, o)).0
        (run_rule-Extends world now since limit broke rule s o)
        (all-apply_all world rule now (broke && is_paid rule.kind) (pending rule since limit s) _)

  run_rules-backlog :
      (now : ℕ) (broke : Bool) (earlier later : List OnlineEvalRule) (rule : OnlineEvalRule)
      (s : Store × BatchOutcome)
      → backlog rule since (run_rules world now since limit broke (earlier ++ rule ∷ later) s).0
        ≤ backlog rule since s.0 - limit
  unfolding run_rules
  run_rules-backlog now broke [] later rule (s, o) =
      let next = run_rule world now since limit broke rule (s, o) in
      let last = run_rules world now since limit broke later next in
      let kept =
        backlog_le rule since next.0 last.0
          (run_rules-Extends world now since limit broke later next) in
      omega (arith, kept, run_rule-backlog now broke rule s o)
  run_rules-backlog now broke (other ∷ earlier) later rule (s, o) =
      let next = run_rule world now since limit broke other (s, o) in
      let kept =
        backlog_le rule since s next.0 (run_rule-Extends world now since limit broke other s o) in
      omega (arith, kept, run_rules-backlog now broke earlier later rule next)

  -- The store after a batch at each of the times, one after the other.
  abbrev pub run_batches : List OnlineEvalRule → List ℕ → Store → Store
  run_batches rules [] s = s
  run_batches rules (now ∷ times) s =
      run_batches rules times (run_batch world now since limit (some rules) s).0

  run_batches-backlog :
      (earlier later : List OnlineEvalRule) (rule : OnlineEvalRule) (times : List ℕ) (s : Store)
      → backlog rule since (run_batches (earlier ++ rule ∷ later) times s)
        ≤ backlog rule since s - length times * limit
  unfolding run_batch
  run_batches-backlog earlier later rule [] s = omega arith
  run_batches-backlog earlier later rule (now ∷ times) s =
      let broke = is_broke world now s in
      let next = run_batch world now since limit (some (earlier ++ rule ∷ later)) s in
      let one = run_rules-backlog now broke earlier later rule (s, no_outcome world broke) in
      omega (arith, one, run_batches-backlog earlier later rule times next.0)

  -- A backlog drains: when the batches that follow each other have room for all the traces that a
  -- rule of the batches has no decision on, and no trace arrives meanwhile, none is left for it,
  -- whatever the verdicts, the errors, the sampling, the other rules and the spend limit.
  pub pending-run_batches :
      (earlier later : List OnlineEvalRule) (rule : OnlineEvalRule) (times : List ℕ) (s : Store)
      → backlog rule since s ≤ length times * limit
      → pending rule since limit (run_batches (earlier ++ rule ∷ later) times s) ≡ []
  unfolding pending sort_by
  pending-run_batches earlier later rule times s enough =
      let end = run_batches (earlier ++ rule ∷ later) times s in
      let empty =
        no_length (filter (is_pending rule since end) end.traces)
          (omega (arith, enough, run_batches-backlog earlier later rule times s)) in
      ap (λ xs. take limit (sort_by oldest_first xs)) empty ∙ take-nil limit
