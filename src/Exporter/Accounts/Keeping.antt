-- ===== src/Exporter/Accounts/Keeping.antt =====
-- The invariants of the exporter's state, and the moves of one thread that keep them.
use proofstep.Prelude.{
  ℕ, ◌+◌, ◌-◌, ◌≤◌, ◌≡◌, refl, sym, ap, ◌∙◌, inl, inr, Bool, true, Option, none, some, List, [],
  ◌∷◌, ◌++◌, arith, Bool-cases, length, all,
}
use proofstep.Types.Trace.{Trace}
use proofstep.Exporter.{Stage, Producer, Loop, State}
use proofstep.Exporter.Sending.{Sent, after_batch, deliver}
use proofstep.Exporter.Steps.{at, with_producers, with_workers}
use proofstep.Exporter.Accounts.Threads.{
  sum, sum-append, all-append, holds, owes, reads_within, adds_within, carries, Counted,
  Counted-change,
}

abbrev pub traces : Option Trace → ℕ
traces none = 0
traces (some t) = 1

-- The traces that a state accounts for.
abbrev pub accounted : State → ℕ
accounted s =
    sum holds s.producers
    + sum traces s.queue
    + sum carries s.workers
    + s.sent_traces
    + s.dropped
    + s.in_spool
    + s.lost

pub record Keeps (capacity : ℕ) (s : State) : Type 0 where
  pub bounded : length s.queue ≤ capacity
  pub conserved : s.submitted ≡ accounted s
  pub counted : Counted (s.dropped + s.dropped_wakes) s.stats.dropped_traces s.producers
  pub exported : s.stats.exported_traces ≤ s.sent_traces
  pub adds : all (adds_within s.sent_traces) s.workers ≡ true

module _ {A : Type 0} (before after : List A) (x : A) {xs : List A}
    (e : xs ≡ before ++ x ∷ after) where
  pub sum-change :
      (f : A → ℕ) (ys : List A) → sum f (before ++ (ys ++ after)) + f x ≡ sum f xs + sum f ys
  sum-change f ys = omega (
    arith,
    ap (sum f) e,
    sum-append f before (x ∷ after),
    sum-append f before (ys ++ after),
    sum-append f ys after,
  )

  pub all-change :
      (p : A → Bool) (y : A) → all p xs ≡ true → p y ≡ true → all p (before ++ y ∷ after) ≡ true
  all-change p y h k =
      let parts = ap (all p) (sym e) ∙ h in
      ground (arith, parts, all-append p before (x ∷ after), all-append p before (y ∷ after))

  pub all-at : (p : A → Bool) → all p xs ≡ true → p x ≡ true
  all-at p h =
      let parts = ap (all p) (sym e) ∙ h in ground (arith, parts, all-append p before (x ∷ after))

pub after-adds : (w : Loop) (n : ℕ) → adds_within n (after_batch w) ≡ true
after-adds w n = elim (Bool-cases w.is_past_loop) [
  | inl past ↦ rw past refl
  | inr in_loop ↦ rw in_loop refl
]

module _ {capacity : ℕ} {s : State} (h : Keeps capacity s) where
  pub idle-Keeps : (b : Bool) → Keeps capacity (record s { idle = b })
  idle-Keeps b = record {
    bounded = h.bounded;
    conserved = h.conserved;
    counted = h.counted;
    exported = h.exported;
    adds = h.adds;
  }

  -- A thread of `submit` moves on, and owes as much as before.
  pub advance :
      (before after : List Producer) (t : Trace) (stage next : Stage)
      → s.producers ≡ before ++ at t stage ∷ after
      → holds (at t next) ≡ holds (at t stage)
      → owes (at t next) ≡ owes (at t stage)
      → ((rest : ℕ)
          → s.stats.dropped_traces + (owes (at t next) + rest) ≤ s.dropped + s.dropped_wakes
          → reads_within (s.dropped + s.dropped_wakes - (owes (at t next) + rest)) (at t next)
            ≡ true)
      → Keeps capacity (with_producers (before ++ at t next ∷ after) s)
  advance before after t stage next e held owed own = record {
    bounded = h.bounded;
    conserved =
        omega
          (arith, h.conserved, held, sum-change before after (at t stage) e holds (at t next ∷ []));
    counted =
        Counted-change before after (at t next ∷ []) (at t stage) _ _ _ _ _ e h.counted
          (omega (arith, owed))
          (λ rest a b.
            let paid : s.stats.dropped_traces + (owes (at t next) + rest)
                ≤ s.dropped + s.dropped_wakes =
              omega (arith, owed, a) in
            (omega (arith, paid), ground (arith, own rest paid)));
    exported = h.exported;
    adds = h.adds;
  }

  -- A worker moves on with its batch.
  pub work :
      (before after : List Loop) (w w' : Loop)
      → s.workers ≡ before ++ w ∷ after
      → carries w' ≡ carries w
      → adds_within s.sent_traces w' ≡ true
      → Keeps capacity (with_workers (before ++ w' ∷ after) s)
  work before after w w' e same fine = record {
    bounded = h.bounded;
    conserved = omega (arith, h.conserved, same, sum-change before after w e carries (w' ∷ []));
    counted = h.counted;
    exported = h.exported;
    adds = all-change before after w e (adds_within s.sent_traces) w' h.adds fine;
  }

  -- A batch ends with no trace.
  pub deliver-Keeps :
      (sent : Sent) (before after : List Loop) (w : Loop)
      → s.workers ≡ before ++ w ∷ after
      → Keeps capacity (deliver sent before w after s)
  unfolding deliver
  deliver-Keeps Sent.exported before after w e = work before after w _ e refl refl
  deliver-Keeps Sent.spooled before after w e = record {
    bounded = h.bounded;
    conserved =
        omega (arith, h.conserved, sum-change before after w e carries (after_batch w ∷ []));
    counted = h.counted;
    exported = h.exported;
    adds =
        all-change before after w e (adds_within s.sent_traces) (after_batch w) h.adds
          (after-adds w s.sent_traces);
  }
  deliver-Keeps Sent.discarded before after w e = record {
    bounded = h.bounded;
    conserved =
        omega (arith, h.conserved, sum-change before after w e carries (after_batch w ∷ []));
    counted = h.counted;
    exported = h.exported;
    adds =
        all-change before after w e (adds_within s.sent_traces) (after_batch w) h.adds
          (after-adds w s.sent_traces);
  }

-- A drop is owed to the counter.
pub owing :
    (before after : List Producer) (t : Trace) (stage next : Stage) (drops drops' counter : ℕ)
    {ps : List Producer}
    → ps ≡ before ++ at t stage ∷ after
    → Counted drops counter ps
    → drops' ≡ drops + 1
    → owes (at t stage) ≡ 0
    → owes (at t next) ≡ 1
    → ((n : ℕ) → reads_within n (at t next) ≡ true)
    → Counted drops' counter (before ++ at t next ∷ after)
owing before after t stage next drops drops' counter e h more none_owed one free =
    Counted-change before after (at t next ∷ []) (at t stage) drops drops' counter counter _ e h
      (omega (arith, more, one, none_owed))
      (λ rest a b. (
        omega (arith, more, one, none_owed, a),
        ground (arith, free (drops' - (owes (at t next) + 0 + rest))),
      ))
