-- ===== src/Exporter/Steps.antt =====
-- The steps of the threads of exporter.py: `submit` with `_ensure_started`, `shutdown` and `_run`, one
-- operation on what they share at a time; `+=` on a counter is a read and a write.
use proofstep.Prelude.{
  ℕ, ◌+◌, ◌≤◌, ◌<◌, ◌≡◌, ◌≢◌, ◌⊎◌, true, false, Option, none, some, List, [], ◌∷◌, ◌++◌, map,
  length, any,
}
use proofstep.Types.Trace.{Trace}
use proofstep.Exporter.{
  Stage, Producer, Closer, Place, Loop, State, untouched, is_alive, detach, fresh, taken_out,
  write_dropped,
}
use proofstep.Exporter.Sending.{Sending, send_batch, after_batch, deliver}

abbrev pub at : Trace → Stage → Producer
at t stage = record { trace = t; stage = stage }

-- A thread of `submit`, a worker.
abbrev pub with_producers : List Producer → State → State
with_producers ps s = record s { producers = ps }

abbrev pub with_workers : List Loop → State → State
with_workers ws s = record s { workers = ws }

abbrev pub moved : Loop → Place → Loop
moved w place = record w { place = place }

-- `capacity` is the length of the queue.
pub data Step (capacity : ℕ) (s : State) : State → Type 0 where
  submit :
      (t : Trace)
      → Step capacity s
          (record s { producers = at t Stage.called ∷ s.producers; submitted = s.submitted + 1 })
  -- `_ensure_started`
  see_worker :
      (before after : List Producer) (t : Trace)
      → s.producers ≡ before ++ at t Stage.called ∷ after
      → any (λ w. w.is_current) s.workers ≡ true
      → Step capacity s (with_producers (before ++ at t Stage.seen ∷ after) s)
  see_no_worker :
      (before after : List Producer) (t : Trace)
      → s.producers ≡ before ++ at t Stage.called ∷ after
      → any (λ w. w.is_current) s.workers ≡ false
      → Step capacity s (with_producers (before ++ at t Stage.locking ∷ after) s)
  find_worker :
      (before after : List Producer) (t : Trace)
      → s.producers ≡ before ++ at t Stage.seen ∷ after
      → any is_alive s.workers ≡ true
      → Step capacity s (with_producers (before ++ at t Stage.started ∷ after) s)
  find_ended :
      (before after : List Producer) (t : Trace)
      → s.producers ≡ before ++ at t Stage.seen ∷ after
      → any (λ w. w.is_current) s.workers ≡ true
      → any is_alive s.workers ≡ false
      → Step capacity s (with_producers (before ++ at t Stage.locking ∷ after) s)
  -- The worker was taken meanwhile: `None.is_alive()` is an AttributeError, which `never_raises` stops.
  find_none :
      (before after : List Producer) (t : Trace)
      → s.producers ≡ before ++ at t Stage.seen ∷ after
      → any (λ w. w.is_current) s.workers ≡ false
      → Step capacity s (record s { lost = s.lost + 1; producers = before ++ after })
  -- Under the lock, no worker is taken between the two tests.
  find_locked :
      (before after : List Producer) (t : Trace)
      → s.producers ≡ before ++ at t Stage.locking ∷ after
      → any is_alive s.workers ≡ true
      → Step capacity s (with_producers (before ++ at t Stage.started ∷ after) s)
  start_worker :
      (before after : List Producer) (t : Trace)
      → s.producers ≡ before ++ at t Stage.locking ∷ after
      → any is_alive s.workers ≡ false
      → Step capacity s (record s {
        stopping = false;
        workers = fresh ∷ map detach s.workers;
        producers = before ++ at t Stage.started ∷ after;
      })
  -- `submit` clears the idle flag.
  clear :
      (before after : List Producer) (t : Trace)
      → s.producers ≡ before ++ at t Stage.started ∷ after
      → Step capacity s
          (record s { idle = false; producers = before ++ at t Stage.cleared ∷ after })
  -- `put_nowait`, where there is room, at the first try or after the oldest item was taken out.
  enqueue :
      (before after : List Producer) (t : Trace) (stage : Stage)
      → s.producers ≡ before ++ at t stage ∷ after
      → (stage ≡ Stage.cleared) ⊎ (stage ≡ Stage.evicted)
      → length s.queue < capacity
      → Step capacity s (record s { queue = s.queue ++ some t ∷ []; producers = before ++ after })
  -- `put_nowait` raises `Full`.
  meet_full :
      (before after : List Producer) (t : Trace)
      → s.producers ≡ before ++ at t Stage.cleared ∷ after
      → capacity ≤ length s.queue
      → Step capacity s (with_producers (before ++ at t Stage.found_full ∷ after) s)
  -- `get_nowait` takes the oldest item out, which is counted as a dropped trace in two steps.
  evict :
      (before after : List Producer) (t : Trace) (oldest : Option Trace)
      (rest : List (Option Trace))
      → s.producers ≡ before ++ at t Stage.found_full ∷ after
      → s.queue ≡ oldest ∷ rest
      → Step capacity s (
          taken_out oldest
            (record s { queue = rest; producers = before ++ at t Stage.taken ∷ after }))
  read_evicted :
      (before after : List Producer) (t : Trace)
      → s.producers ≡ before ++ at t Stage.taken ∷ after
      → Step capacity s
          (with_producers (before ++ at t (Stage.counting s.stats.dropped_traces) ∷ after) s)
  write_evicted :
      (before after : List Producer) (t : Trace) (n : ℕ)
      → s.producers ≡ before ++ at t (Stage.counting n) ∷ after
      → Step capacity s (write_dropped n (with_producers (before ++ at t Stage.evicted ∷ after) s))
  -- `get_nowait` raises `Empty`, or the second `put_nowait` raises `Full`: the new trace is dropped.
  give_up_empty :
      (before after : List Producer) (t : Trace)
      → s.producers ≡ before ++ at t Stage.found_full ∷ after
      → s.queue ≡ []
      → Step capacity s
          (record s { dropped = s.dropped + 1; producers = before ++ at t Stage.failing ∷ after })
  give_up_full :
      (before after : List Producer) (t : Trace)
      → s.producers ≡ before ++ at t Stage.evicted ∷ after
      → capacity ≤ length s.queue
      → Step capacity s
          (record s { dropped = s.dropped + 1; producers = before ++ at t Stage.failing ∷ after })
  read_given :
      (before after : List Producer) (t : Trace)
      → s.producers ≡ before ++ at t Stage.failing ∷ after
      → Step capacity s
          (with_producers (before ++ at t (Stage.giving s.stats.dropped_traces) ∷ after) s)
  write_given :
      (before after : List Producer) (t : Trace) (n : ℕ)
      → s.producers ≡ before ++ at t (Stage.giving n) ∷ after
      → Step capacity s (write_dropped n (with_producers (before ++ after) s))
  -- `shutdown`, past its `flush`.
  shut_down : Step capacity s (record s { stopping = true; closers = Closer.stopped ∷ s.closers })
  take_worker :
      (before after : List Closer)
      → s.closers ≡ before ++ Closer.stopped ∷ after
      → any (λ w. w.is_current) s.workers ≡ true
      → Step capacity s
          (record s { workers = map detach s.workers; closers = before ++ Closer.detached ∷ after })
  no_worker :
      (before after : List Closer)
      → s.closers ≡ before ++ Closer.stopped ∷ after
      → any (λ w. w.is_current) s.workers ≡ false
      → Step capacity s (record s { closers = before ++ after })
  -- `put_nowait(None)`; it raises `Full` without effect, or the worker is found to have ended.
  wake :
      (before after : List Closer)
      → s.closers ≡ before ++ Closer.detached ∷ after
      → length s.queue < capacity
      → Step capacity s (record s { queue = s.queue ++ none ∷ []; closers = before ++ after })
  wake_nobody :
      (before after : List Closer)
      → s.closers ≡ before ++ Closer.detached ∷ after
      → Step capacity s (record s { closers = before ++ after })
  -- The head of the loop of a worker.
  go_on :
      (before after : List Loop) (w : Loop)
      → s.workers ≡ before ++ w ∷ after
      → w.place ≡ Place.heading
      → s.stopping ≡ false
      → Step capacity s (with_workers (before ++ moved w Place.getting ∷ after) s)
  stop :
      (before after : List Loop) (w : Loop)
      → s.workers ≡ before ++ w ∷ after
      → w.place ≡ Place.heading
      → s.stopping ≡ true
      → Step capacity s (
          with_workers
            (before ++ record w { place = Place.leaving; is_past_loop = true } ∷ after)
            s)
  -- The worker takes a trace, is woken, or waits in vain.
  take_trace :
      (before after : List Loop) (w : Loop) (t : Trace) (rest : List (Option Trace))
      → s.workers ≡ before ++ w ∷ after
      → w.place ≡ Place.getting
      → s.queue ≡ some t ∷ rest
      → Step capacity s (record s {
        queue = rest;
        workers = before ++ record w { batch = w.batch ++ t ∷ []; place = Place.deciding } ∷ after;
      })
  take_wake :
      (before after : List Loop) (w : Loop) (rest : List (Option Trace))
      → s.workers ≡ before ++ w ∷ after
      → w.place ≡ Place.getting
      → s.queue ≡ none ∷ rest
      → Step capacity s (record s {
        queue = rest;
        workers = before ++ record w { place = Place.leaving; is_past_loop = true } ∷ after;
      })
  time_out :
      (before after : List Loop) (w : Loop)
      → s.workers ≡ before ++ w ∷ after
      → w.place ≡ Place.getting
      → s.queue ≡ []
      → Step capacity s (with_workers (before ++ moved w Place.deciding ∷ after) s)
  -- A batch that is due, or what is left past the loop, is sent, which takes any number of attempts.
  send :
      (before after : List Loop) (w : Loop) (run : Sending)
      → s.workers ≡ before ++ w ∷ after
      → (w.place ≡ Place.deciding) ⊎ (w.place ≡ Place.leaving)
      → w.batch ≢ []
      → Step capacity s (deliver (send_batch run).0 before w after s)
  -- The batch cannot be dumped: `_encode` raises, and the thread ends without setting the idle flag.
  crash :
      (before after : List Loop) (w : Loop)
      → s.workers ≡ before ++ w ∷ after
      → (w.place ≡ Place.deciding) ⊎ (w.place ≡ Place.leaving)
      → w.batch ≢ []
      → Step capacity s (record s {
        workers = before ++ record w { batch = []; place = Place.finished } ∷ after;
        lost = s.lost + length w.batch;
      })
  read_exported :
      (before after : List Loop) (w : Loop)
      → s.workers ≡ before ++ w ∷ after
      → w.place ≡ Place.sent
      → Step capacity s
          (with_workers (before ++ moved w (Place.adding s.stats.exported_traces) ∷ after) s)
  write_exported :
      (before after : List Loop) (w : Loop) (n : ℕ)
      → s.workers ≡ before ++ w ∷ after
      → w.place ≡ Place.adding n
      → Step capacity s (record s {
        stats = record s.stats { exported_traces = n + length w.batch };
        sent_traces = s.sent_traces + length w.batch;
        workers = before ++ after_batch w ∷ after;
      })
  keep :
      (before after : List Loop) (w : Loop)
      → s.workers ≡ before ++ w ∷ after
      → w.place ≡ Place.deciding
      → Step capacity s (with_workers (before ++ moved w Place.testing ∷ after) s)
  -- `if not batch and self._queue.empty()`, and what follows.
  see_nothing :
      (before after : List Loop) (w : Loop)
      → s.workers ≡ before ++ w ∷ after
      → w.place ≡ Place.testing
      → w.batch ≡ []
      → s.queue ≡ []
      → Step capacity s (with_workers (before ++ moved w Place.setting ∷ after) s)
  see_work :
      (before after : List Loop) (w : Loop)
      → s.workers ≡ before ++ w ∷ after
      → w.place ≡ Place.testing
      → (w.batch ≢ []) ⊎ (s.queue ≢ [])
      → Step capacity s (with_workers (before ++ moved w Place.heading ∷ after) s)
  rest_idle :
      (before after : List Loop) (w : Loop)
      → s.workers ≡ before ++ w ∷ after
      → w.place ≡ Place.setting
      → Step capacity s
          (record s { idle = true; workers = before ++ moved w Place.heading ∷ after })
  -- Past the loop: nothing is left, and the idle flag is set.
  leave_empty :
      (before after : List Loop) (w : Loop)
      → s.workers ≡ before ++ w ∷ after
      → w.place ≡ Place.leaving
      → w.batch ≡ []
      → Step capacity s (with_workers (before ++ moved w Place.closing ∷ after) s)
  close :
      (before after : List Loop) (w : Loop)
      → s.workers ≡ before ++ w ∷ after
      → w.place ≡ Place.closing
      → Step capacity s
          (record s { idle = true; workers = before ++ moved w Place.finished ∷ after })

pub data Reach (capacity : ℕ) : State → Type 0 where
  start : Reach capacity untouched
  later : {s t : State} → Reach capacity s → Step capacity s t → Reach capacity t
