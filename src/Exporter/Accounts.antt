-- ===== src/Exporter/Accounts.antt =====
-- No trace is lost from sight: every step keeps the invariants of the exporter's state.
pub mod Threads
pub mod Keeping
use proofstep.Prelude.{
  ℕ, ◌+◌, ◌-◌, ◌≤◌, ◌≡◌, refl, ap, ◌∙◌, inl, inr, true, false, none, some, [], ◌∷◌, ◌++◌, arith,
  leb, length, all,
}
use proofstep.Prelude.{length-append}
use proofstep.Exporter.{Stage, Place, Loop, State}
use proofstep.Exporter.Sending.{send_batch, after_batch}
use proofstep.Exporter.Steps.{at, Step, Reach}
use Threads.{
  sum, sum-append, all_mono, holds, holds_at, owes, owes_at, reads_within, adds_at, adds_within,
  adds_mono, carries, sum-detach, all-detach, Counted-change,
}
use Keeping.{
  traces, accounted, Keeps, sum-change, all-change, all-at, after-adds, idle-Keeps, advance, work,
  deliver-Keeps, owing,
}

Step-Keeps : {capacity : ℕ} {s t : State} → Step capacity s t → Keeps capacity s → Keeps capacity t
Step-Keeps {s} (Step.submit t) h = record {
  bounded = h.bounded;
  conserved = omega (arith, h.conserved);
  counted =
      let (paid, within) = h.counted in
      let same : 0 + sum owes s.producers ≡ sum owes s.producers = omega arith in
      (
        omega (arith, paid),
        ap (λ k. all (reads_within (s.dropped + s.dropped_wakes - k)) s.producers) same ∙ within,
      );
  exported = h.exported;
  adds = h.adds;
}
Step-Keeps {s} (Step.start_worker before after t e a) h =
    let g = advance h before after t Stage.locking Stage.started e refl refl (λ rest paid. refl) in
    record {
      bounded = h.bounded;
      conserved = omega (arith, g.conserved, sum-detach s.workers);
      counted = g.counted;
      exported = h.exported;
      adds = all-detach s.sent_traces s.workers ∙ h.adds;
    }
Step-Keeps (Step.see_worker before after t e a) h =
    advance h before after t Stage.called Stage.seen e refl refl (λ rest paid. refl)
Step-Keeps (Step.see_no_worker before after t e a) h =
    advance h before after t Stage.called Stage.locking e refl refl (λ rest paid. refl)
Step-Keeps (Step.find_worker before after t e a) h =
    advance h before after t Stage.seen Stage.started e refl refl (λ rest paid. refl)
Step-Keeps (Step.find_ended before after t e a b) h =
    advance h before after t Stage.seen Stage.locking e refl refl (λ rest paid. refl)
Step-Keeps (Step.find_none before after t e a) h = record {
  bounded = h.bounded;
  conserved = omega (arith, h.conserved, sum-change before after (at t Stage.seen) e holds []);
  counted =
      Counted-change before after [] (at t Stage.seen) _ _ _ _ _ e h.counted (omega arith)
        (λ rest a b. (omega (arith, a), refl));
  exported = h.exported;
  adds = h.adds;
}
Step-Keeps (Step.find_locked before after t e a) h =
    advance h before after t Stage.locking Stage.started e refl refl (λ rest paid. refl)
Step-Keeps (Step.clear before after t e) h =
    idle-Keeps
      (advance h before after t Stage.started Stage.cleared e refl refl (λ rest paid. refl)) false
Step-Keeps {s} (Step.enqueue before after t stage e tries room) h =
    let held : holds (at t stage) ≡ 1 = elim tries [
      | inl c ↦ ap holds_at c
      | inr c ↦ ap holds_at c
    ] in
    let owed : owes (at t stage) ≡ 0 = elim tries [ inl c ↦ ap owes_at c | inr c ↦ ap owes_at c ] in
    record {
      bounded = omega (arith, room, length-append s.queue (some t ∷ []));
      conserved = omega (
        arith,
        h.conserved,
        held,
        sum-append traces s.queue (some t ∷ []),
        sum-change before after (at t stage) e holds [],
      );
      counted =
          Counted-change before after [] (at t stage) _ _ _ _ _ e h.counted (omega (arith, owed))
            (λ rest a b. (omega (arith, owed, a), refl));
      exported = h.exported;
      adds = h.adds;
    }
Step-Keeps (Step.meet_full before after t e full) h =
    advance h before after t Stage.cleared Stage.found_full e refl refl (λ rest paid. refl)
Step-Keeps {s} (Step.evict before after t none rest e q) h = record {
  bounded = omega (arith, h.bounded, ap length q);
  conserved = omega (
    arith,
    h.conserved,
    ap (sum traces) q,
    sum-change before after (at t Stage.found_full) e holds (at t Stage.taken ∷ []),
  );
  counted =
      owing before after t Stage.found_full Stage.taken _ _ _ e h.counted (omega arith) refl refl
        (λ n. refl);
  exported = h.exported;
  adds = h.adds;
}
Step-Keeps {s} (Step.evict before after t (some old) rest e q) h = record {
  bounded = omega (arith, h.bounded, ap length q);
  conserved = omega (
    arith,
    h.conserved,
    ap (sum traces) q,
    sum-change before after (at t Stage.found_full) e holds (at t Stage.taken ∷ []),
  );
  counted =
      owing before after t Stage.found_full Stage.taken _ _ _ e h.counted (omega arith) refl refl
        (λ n. refl);
  exported = h.exported;
  adds = h.adds;
}
Step-Keeps (Step.read_evicted before after t e) h =
    advance h before after t Stage.taken (Stage.counting _) e refl refl (λ rest paid. ground arith)
Step-Keeps {s} (Step.write_evicted before after t n e) h = record {
  bounded = h.bounded;
  conserved = omega (
    arith,
    h.conserved,
    sum-change before after (at t (Stage.counting n)) e holds (at t Stage.evicted ∷ []),
  );
  counted =
      Counted-change before after (at t Stage.evicted ∷ []) (at t (Stage.counting n)) _ _ _ _ _ e
        h.counted (omega arith) (λ rest a b. (ground (arith, a, b), refl));
  exported = h.exported;
  adds = h.adds;
}
Step-Keeps {s} (Step.give_up_empty before after t e q) h = record {
  bounded = h.bounded;
  conserved = omega (
    arith,
    h.conserved,
    sum-change before after (at t Stage.found_full) e holds (at t Stage.failing ∷ []),
  );
  counted =
      owing before after t Stage.found_full Stage.failing _ _ _ e h.counted (omega arith) refl refl
        (λ n. refl);
  exported = h.exported;
  adds = h.adds;
}
Step-Keeps {s} (Step.give_up_full before after t e q) h = record {
  bounded = h.bounded;
  conserved = omega (
    arith,
    h.conserved,
    sum-change before after (at t Stage.evicted) e holds (at t Stage.failing ∷ []),
  );
  counted =
      owing before after t Stage.evicted Stage.failing _ _ _ e h.counted (omega arith) refl refl
        (λ n. refl);
  exported = h.exported;
  adds = h.adds;
}
Step-Keeps (Step.read_given before after t e) h =
    advance h before after t Stage.failing (Stage.giving _) e refl refl (λ rest paid. ground arith)
Step-Keeps {s} (Step.write_given before after t n e) h = record {
  bounded = h.bounded;
  conserved =
      omega (arith, h.conserved, sum-change before after (at t (Stage.giving n)) e holds []);
  counted =
      Counted-change before after [] (at t (Stage.giving n)) _ _ _ _ _ e h.counted (omega arith)
        (λ rest a b. (ground (arith, a, b), refl));
  exported = h.exported;
  adds = h.adds;
}
Step-Keeps Step.shut_down h = record {
  bounded = h.bounded;
  conserved = h.conserved;
  counted = h.counted;
  exported = h.exported;
  adds = h.adds;
}
Step-Keeps {s} (Step.take_worker before after e a) h = record {
  bounded = h.bounded;
  conserved = omega (arith, h.conserved, sum-detach s.workers);
  counted = h.counted;
  exported = h.exported;
  adds = all-detach s.sent_traces s.workers ∙ h.adds;
}
Step-Keeps (Step.no_worker before after e a) h = record {
  bounded = h.bounded;
  conserved = h.conserved;
  counted = h.counted;
  exported = h.exported;
  adds = h.adds;
}
Step-Keeps {s} (Step.wake before after e room) h = record {
  bounded = omega (arith, room, length-append s.queue (none ∷ []));
  conserved = omega (arith, h.conserved, sum-append traces s.queue (none ∷ []));
  counted = h.counted;
  exported = h.exported;
  adds = h.adds;
}
Step-Keeps (Step.wake_nobody before after e) h = record {
  bounded = h.bounded;
  conserved = h.conserved;
  counted = h.counted;
  exported = h.exported;
  adds = h.adds;
}
Step-Keeps (Step.go_on before after w e at_head on) h = work h before after w _ e refl refl
Step-Keeps (Step.stop before after w e at_head off) h = work h before after w _ e refl refl
Step-Keeps {s} (Step.take_trace before after w t rest e here q) h = record {
  bounded = omega (arith, h.bounded, ap length q);
  conserved = omega (
    arith,
    h.conserved,
    ap (sum traces) q,
    length-append w.batch (t ∷ []),
    sum-change before after w e carries
        (record w { batch = w.batch ++ t ∷ []; place = Place.deciding } ∷ []),
  );
  counted = h.counted;
  exported = h.exported;
  adds = all-change before after w e (adds_within s.sent_traces) _ h.adds refl;
}
Step-Keeps {s} (Step.take_wake before after w rest e here q) h =
    let g =
      work h before after w (record w { place = Place.leaving; is_past_loop = true }) e refl refl in
    record {
      bounded = omega (arith, h.bounded, ap length q);
      conserved = omega (arith, g.conserved, ap (sum traces) q);
      counted = h.counted;
      exported = h.exported;
      adds = g.adds;
    }
Step-Keeps (Step.time_out before after w e here q) h = work h before after w _ e refl refl
Step-Keeps (Step.send before after w run e here b) h =
    deliver-Keeps h (send_batch run).0 before after w e
Step-Keeps {s} (Step.crash before after w e here b) h = record {
  bounded = h.bounded;
  conserved = omega (
    arith,
    h.conserved,
    sum-change before after w e carries (record w { batch = []; place = Place.finished } ∷ []),
  );
  counted = h.counted;
  exported = h.exported;
  adds = all-change before after w e (adds_within s.sent_traces) _ h.adds refl;
}
Step-Keeps (Step.read_exported before after w e here) h =
    work h before after w _ e refl (ground (arith, h.exported))
Step-Keeps {s} (Step.write_exported before after w n e here) h =
    let grown = s.sent_traces + length w.batch in
    let read : leb n s.sent_traces ≡ true = ground (
      arith,
      ap (adds_at s.sent_traces) here,
      all-at before after w e (adds_within s.sent_traces) h.adds,
    ) in
    let rise = λ (v : Loop) (k : adds_within s.sent_traces v ≡ true).
      adds_mono s.sent_traces grown (omega arith) v.place k in
    record {
      bounded = h.bounded;
      conserved =
          omega (arith, h.conserved, sum-change before after w e carries (after_batch w ∷ []));
      counted = h.counted;
      exported = ground (arith, read);
      adds =
          all-change before after w e (adds_within grown) (after_batch w)
            (all_mono (adds_within s.sent_traces) (adds_within grown) rise s.workers h.adds)
            (after-adds w grown);
    }
Step-Keeps (Step.keep before after w e here) h = work h before after w _ e refl refl
Step-Keeps (Step.see_nothing before after w e here b q) h = work h before after w _ e refl refl
Step-Keeps (Step.see_work before after w e here left) h = work h before after w _ e refl refl
Step-Keeps (Step.rest_idle before after w e here) h =
    idle-Keeps (work h before after w _ e refl refl) true
Step-Keeps (Step.leave_empty before after w e here b) h = work h before after w _ e refl refl
Step-Keeps (Step.close before after w e here) h =
    idle-Keeps (work h before after w _ e refl refl) true

pub IsSound : ℕ → State → Type 0
IsSound capacity s =
    (length s.queue ≤ capacity)
    × (s.submitted ≡ accounted s)
    × (s.stats.dropped_traces + sum owes s.producers ≤ s.dropped + s.dropped_wakes)
    × (s.stats.exported_traces ≤ s.sent_traces)

Reach-Keeps : {capacity : ℕ} {s : State} → Reach capacity s → Keeps capacity s
Reach-Keeps Reach.start = record {
  bounded = omega arith;
  conserved = refl;
  counted = (omega arith, refl);
  exported = omega arith;
  adds = refl;
}
Reach-Keeps (Reach.later r step) = Step-Keeps step (Reach-Keeps r)

-- In every state that the steps reach, with any number of threads that submit, shut down and send:
-- the queue is within its length; every trace submitted is with a thread of `submit`, in the queue,
-- in the batch of a worker, taken for sent, dropped, in a spooled batch, or lost, in a batch that was
-- given up or ended its worker, or by a `submit` that raised; the counter of dropped traces, with the drops that threads
-- still have to add to it, is at most the traces dropped and the items `none` taken out like an oldest
-- trace (it can be less, when two `+=` overlap); and the counter of exported traces is at most the
-- traces taken for sent.
pub Reach-IsSound : {capacity : ℕ} {s : State} → Reach capacity s → IsSound capacity s
unfolding IsSound
Reach-IsSound r = let h = Reach-Keeps r in (h.bounded, h.conserved, h.counted.0, h.exported)
