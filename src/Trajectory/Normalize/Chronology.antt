-- ===== src/Trajectory/Normalize/Chronology.antt =====
-- The events that `normalize` returns, as the matchers rely on them.
use proofstep.Prelude.{ℕ, ◌+◌, String, ◌≡◌, refl, true, false, not, List, [], ◌∷◌, arith, leb, all}
use proofstep.Prelude.{str_leb_total, str_leb_trans}
use proofstep.Prelude.Dict.{Dict}
use proofstep.Prelude.Sort.{IsSortedBy, sort_by-IsSortedBy}
use proofstep.Types.Trace.{Span, Trace, is_complete}
use proofstep.Trajectory.Events.{TrajectoryEvent}
use proofstep.Trajectory.Schema.{Policy}
use proofstep.Trajectory.Normalized.Numbered.{IsNumbered}
use proofstep.Trajectory.Normalize.{normalize}
use proofstep.Trajectory.Normalize.Select.{Host}
use proofstep.Trajectory.Normalize.Order.{span_le}
use proofstep.Trajectory.Normalize.Build.{build, build_from}
use proofstep.Trajectory.Normalize.Build.Numbering.{marked-IsNumbered, build_from-IsFresh}
use proofstep.Trajectory.Normalize.Retries.{mark_retries}
use proofstep.Trajectory.Normalize.Retries.Streak.{mark_by_streak, retried, mark_retries-eq}

span_le_total : (a b : Span) → span_le a b ≡ false → span_le b a ≡ true
unfolding span_le
span_le_total a b h = ground (arith, str_leb_total a.span_id b.span_id)

span_le_trans : (a b c : Span) → span_le a b ≡ true → span_le b c ≡ true → span_le a c ≡ true
unfolding span_le
span_le_trans a b c h k = ground (arith, str_leb_trans a.span_id b.span_id c.span_id)

-- Each event starts no later than all that follow it.
abbrev pub IsAscending : List TrajectoryEvent → Type 0
IsAscending [] = Unit
IsAscending (e ∷ es) = (all (λ f. leb e.started_at f.started_at) es ≡ true) × IsAscending es

module _ (host : Host) (spans : List Span) (aliases groups : Dict String) where
  build_from-later :
      (n : ℕ) (s : Span) (rest : List Span)
      → all (span_le s) rest ≡ true
      → all (λ f. leb s.started_at f.started_at) (build_from host spans aliases groups n rest)
        ≡ true
  unfolding build_from span_le
  build_from-later n s [] h = refl
  build_from-later n s (t ∷ rest) h = ground (arith, build_from-later (n + 1) s rest)

  build_from-IsAscending :
      (n : ℕ) (rest : List Span)
      → IsSortedBy span_le rest
      → IsAscending (build_from host spans aliases groups n rest)
  unfolding build_from
  build_from-IsAscending n [] h = tt
  build_from-IsAscending n (s ∷ rest) h =
      (build_from-later (n + 1) s rest h.0, build_from-IsAscending (n + 1) rest h.1)

streak-later :
    (t : ℕ) (before es : List TrajectoryEvent)
    → all (λ f. leb t f.started_at) (mark_by_streak before es) ≡ all (λ f. leb t f.started_at) es
unfolding mark_by_streak retried
streak-later t before [] = refl
streak-later t before (e ∷ es) = ground (arith, streak-later t (e ∷ before) es)

streak-IsAscending :
    (before es : List TrajectoryEvent) → IsAscending es → IsAscending (mark_by_streak before es)
unfolding mark_by_streak retried
streak-IsAscending before [] h = tt
streak-IsAscending before (e ∷ es) h =
    (rw (streak-later e.started_at (e ∷ before) es) h.0, streak-IsAscending (e ∷ before) es h.1)

marked-IsAscending :
    (host : Host) (ordered : List Span) (aliases groups : Dict String)
    → IsSortedBy span_le ordered
    → IsAscending (mark_retries (build host ordered aliases groups))
unfolding build
marked-IsAscending host ordered aliases groups sorted =
    rw (mark_retries-eq _ (build_from-IsFresh host ordered aliases groups 0 ordered)) (
      streak-IsAscending [] _ (build_from-IsAscending host ordered aliases groups 0 ordered sorted))

-- For every trace and policy, the events of the trajectory are numbered in order, and each starts no
-- later than those after it.
pub normalize-ordered :
    (host : Host) (trace : Trace) (policy : Policy)
    → IsNumbered 0 (normalize host trace policy).events
      × IsAscending (normalize host trace policy).events
unfolding normalize
normalize-ordered host trace policy = (
  marked-IsNumbered host _ _ _,
  marked-IsAscending host _ _ _ (sort_by-IsSortedBy span_le span_le_total span_le_trans _),
)

-- The trajectory is incomplete exactly when the trace is not complete: spans were dropped, or one
-- never ended.
pub incomplete-normalize :
    (host : Host) (trace : Trace) (policy : Policy)
    → (normalize host trace policy).incomplete ≡ not (is_complete trace)
unfolding normalize is_complete
incomplete-normalize host trace policy = ground arith
