-- ===== src/Exporter/Examples.antt =====
-- A short run of the exporter.
use proofstep.Prelude.{◌≡◌, refl, true, [], ◌∷◌, ◌++◌, arith}
use proofstep.Types.Value.{Fields}
use proofstep.Types.Trace.{Trace}
use proofstep.Exporter.{Stage, Place, Loop, State, untouched, fresh, is_flushed}
use proofstep.Exporter.Steps.{at, moved, Step, Reach}
use proofstep.Exporter.Accounts.{IsSound, Reach-IsSound}
use proofstep.Exporter.Flushing.{early-flush}

abbrev a_trace : Trace
a_trace = record { spans = []; metadata = Fields.done; state = Fields.done; dropped_span_count = 0 }

-- The worker of a first trace has waited in vain and is about to test whether all is done.
abbrev resting : State
resting = record untouched {
  producers = at a_trace Stage.started ∷ [];
  workers = moved fresh Place.testing ∷ [];
  submitted = 1;
}

resting_found : Reach 16 resting
resting_found =
    let submitted = Reach.later Reach.start (Step.submit a_trace) in
    let locking = Reach.later submitted (Step.see_no_worker [] [] a_trace refl refl) in
    let started = Reach.later locking (Step.start_worker [] [] a_trace refl refl) in
    let getting = Reach.later started (Step.go_on [] [] fresh refl refl refl) in
    let waited =
      Reach.later getting (Step.time_out [] [] (moved fresh Place.getting) refl refl refl) in
    Reach.later waited (Step.keep [] [] (moved fresh Place.deciding) refl refl)

Reach-IsSound_example : IsSound 16 resting
Reach-IsSound_example = Reach-IsSound resting_found

early-flush_example :
    (u : State) × (w' : Loop) × Reach 16 u
    × (is_flushed u ≡ true)
    × (u.workers ≡ [] ++ w' ∷ [])
    × (w'.batch ≡ a_trace ∷ [])
early-flush_example =
    early-flush 16 resting [] [] (moved fresh Place.testing) a_trace (omega arith) resting_found
      refl refl refl refl refl refl
