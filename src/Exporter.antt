-- ===== src/Exporter.antt =====
-- The exporter of the SDK, packages/python-sdk/src/proofstep/exporter.py, as the steps of the threads
-- that share its queue: those that submit traces, those that shut it down, and the workers that send.
use proofstep.Prelude.{
  ℕ, ◌+◌, Bool, true, false, not, ◌&&◌, Option, none, some, List, [], ltb, if◌then◌else◌,
}
use proofstep.Prelude.{◌/◌, is_empty}
use proofstep.Types.Trace.{Trace}
pub mod Sending
pub mod Steps
pub mod Accounts
pub mod Flushing
pub mod Examples

-- `_capacity`: the length of the queue in traces.
unfoldable pub capacity_of : ℕ → ℕ
capacity_of max_buffered_spans =
    let spans = max_buffered_spans / 20 in if ltb 16 spans then spans else 16

-- Where a thread stands in `submit`: at the call, after it saw that there is a worker, before it takes
-- the lock to start one, with a worker started, with the idle flag cleared,
-- after the queue was found full, after its oldest item was taken out, after the counter of dropped
-- traces was read for `+= 1`, and after it was written. Then, if the new trace is given up, before the
-- counter is read, and after.
pub data Stage : Type 0 where
  called seen locking started cleared found_full taken : Stage
  counting : ℕ → Stage
  evicted failing : Stage
  giving : ℕ → Stage

pub record Producer : Type 0 where
  pub trace : Trace
  pub stage : Stage

-- Where a thread stands in `shutdown`: the exporter is stopping, and the worker was taken from it.
pub data Closer : Type 0 where
  stopped detached : Closer

-- Where a worker stands in `_run`: before the loop tests whether the exporter is stopping, before it
-- takes from the queue, before it decides to send, before it tests whether all is done, before it sets
-- the idle flag; after a batch was sent, before the counter of exported traces is read for `+=`, and
-- after; and past the loop, before the rest is sent, before the idle flag is set, and at the end.
pub data Place : Type 0 where
  heading getting deciding testing setting sent : Place
  adding : ℕ → Place
  leaving closing finished : Place

-- A worker is current if it is in `_thread`, and keeps whether it is past the loop.
pub record Loop : Type 0 where
  pub place : Place
  pub batch : List Trace
  pub is_current : Bool
  pub is_past_loop : Bool

-- `ExportStats`, with the two counters of traces.
pub record ExportStats : Type 0 where
  pub exported_traces : ℕ
  pub dropped_traces : ℕ

-- An item `none` of the queue wakes a worker. The last six fields are what happened, which the code
-- does not record: the traces submitted, taken for sent, and dropped, the items `none` that were taken out like
-- an oldest trace, the traces in spooled batches, and those lost: in batches neither sent
-- nor spooled, or by a `submit` that raised.
pub record State : Type 0 where
  pub queue : List (Option Trace)
  pub producers : List Producer
  pub closers : List Closer
  pub workers : List Loop
  pub idle : Bool
  pub stopping : Bool
  pub stats : ExportStats
  pub submitted : ℕ
  pub sent_traces : ℕ
  pub dropped : ℕ
  pub dropped_wakes : ℕ
  pub in_spool : ℕ
  pub lost : ℕ

abbrev pub untouched : State
untouched = record {
  queue = [];
  producers = [];
  closers = [];
  workers = [];
  idle = true;
  stopping = false;
  stats = record { exported_traces = 0; dropped_traces = 0 };
  submitted = 0;
  sent_traces = 0;
  dropped = 0;
  dropped_wakes = 0;
  in_spool = 0;
  lost = 0;
}

-- `self._thread is not None and self._thread.is_alive()`
abbrev pub has_ended : Place → Bool
has_ended Place.finished = true
has_ended place = false

abbrev pub is_alive : Loop → Bool
is_alive w = w.is_current && not (has_ended w.place)

abbrev pub detach : Loop → Loop
detach w = record w { is_current = false }

abbrev pub fresh : Loop
fresh = record { place = Place.heading; batch = []; is_current = true; is_past_loop = false }

-- What `flush` tests.
abbrev pub is_flushed : State → Bool
is_flushed s = is_empty s.queue && s.idle

-- The oldest item, taken out for another.
abbrev pub taken_out : Option Trace → State → State
taken_out none s = record s { dropped_wakes = s.dropped_wakes + 1 }
taken_out (some t) s = record s { dropped = s.dropped + 1 }

-- The write of `dropped_traces += 1`, after `n` was read.
abbrev pub write_dropped : ℕ → State → State
write_dropped n s = record s { stats = record s.stats { dropped_traces = n + 1 } }
