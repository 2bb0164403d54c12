-- ===== src/Trajectory/Normalize/Build/Numbering.antt =====
-- `_build` numbers the events from 0 on, one for each span, each at its first attempt.
use proofstep.Prelude.{ℕ, suc, ◌+◌, String, refl, List, [], ◌∷◌, arith}
use native.Mathlib.Numerals.{add-one}
use proofstep.Prelude.Dict.{Dict}
use proofstep.Types.Trace.{Span}
use proofstep.Trajectory.Events.{TrajectoryEvent}
use proofstep.Trajectory.Normalized.Numbered.{IsNumbered}
use proofstep.Trajectory.Normalize.Select.{Host}
use proofstep.Trajectory.Normalize.Retries.Streak.{
  IsFresh, mark_by_streak, retried, mark_retries-eq,
}
use proofstep.Trajectory.Normalize.Retries.{mark_retries}
use proofstep.Trajectory.Normalize.Build.{build, build_from}

module _ (host : Host) (spans : List Span) (aliases groups : Dict String) where
  build_from-IsNumbered :
      (n : ℕ) (rest : List Span) → IsNumbered n (build_from host spans aliases groups n rest)
  unfolding build_from
  build_from-IsNumbered n [] = tt
  build_from-IsNumbered n (s ∷ rest) =
      (omega arith, rw (← add-one n) (build_from-IsNumbered (n + 1) rest))

  pub build_from-IsFresh :
      (n : ℕ) (rest : List Span) → IsFresh (build_from host spans aliases groups n rest)
  unfolding build_from
  build_from-IsFresh n [] = tt
  build_from-IsFresh n (s ∷ rest) = (refl, refl, build_from-IsFresh (n + 1) rest)

mark_by_streak-IsNumbered :
    (n : ℕ) (before es : List TrajectoryEvent)
    → IsNumbered n es
    → IsNumbered n (mark_by_streak before es)
unfolding mark_by_streak retried
mark_by_streak-IsNumbered n before [] h = tt
mark_by_streak-IsNumbered n before (e ∷ es) h =
    (h.0, mark_by_streak-IsNumbered (suc e.index) (e ∷ before) es h.1)

-- The events of a trajectory are numbered in their order, also after retries are marked.
pub marked-IsNumbered :
    (host : Host) (ordered : List Span) (aliases groups : Dict String)
    → IsNumbered 0 (mark_retries (build host ordered aliases groups))
unfolding build
marked-IsNumbered host ordered aliases groups =
    rw (mark_retries-eq _ (build_from-IsFresh host ordered aliases groups 0 ordered)) (
      mark_by_streak-IsNumbered 0 [] _
        (build_from-IsNumbered host ordered aliases groups 0 ordered))
