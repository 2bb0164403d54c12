-- ===== src/Exporter/Flushing.antt =====
-- What `flush` promises.
use proofstep.Prelude.{ℕ, ◌<◌, ◌≡◌, refl, inl, true, false, List, [], ◌∷◌, ◌++◌, arith, any}
use proofstep.Types.Trace.{Trace}
use proofstep.Exporter.{Stage, Place, Loop, State, is_flushed, is_alive, has_ended}
use proofstep.Exporter.Steps.{moved, Step, Reach}

alive-any :
    (before after : List Loop) (w : Loop)
    → w.is_current ≡ true
    → has_ended w.place ≡ false
    → any is_alive (before ++ w ∷ after) ≡ true
alive-any [] after w c p = ground (arith, c, p)
alive-any (v ∷ before) after w c p = ground (arith, alive-any before after w c p)

current-any :
    (before after : List Loop) (w : Loop)
    → w.is_current ≡ true
    → any (λ v. v.is_current) (before ++ w ∷ after) ≡ true
current-any [] after w c = ground (arith, c)
current-any (v ∷ before) after w c = ground (arith, current-any before after w c)

-- `flush` can report success while a trace is not yet sent. From every reachable state in which the
-- current worker is about to test whether all is done, and it is, and the exporter is not stopping, a
-- trace that is submitted before the worker sets the idle flag, and enqueued after that, ends in the
-- batch of a worker of a reachable state in which the test of `flush` succeeds.
pub early-flush :
    (capacity : ℕ) (s : State) (before after : List Loop) (w : Loop) (t : Trace)
    → 0 < capacity
    → Reach capacity s
    → s.workers ≡ before ++ w ∷ after
    → w.is_current ≡ true
    → w.place ≡ Place.testing
    → w.batch ≡ []
    → s.queue ≡ []
    → s.stopping ≡ false
    → (u : State) × (w' : Loop) × Reach capacity u
      × (is_flushed u ≡ true)
      × (u.workers ≡ before ++ w' ∷ after)
      × (w'.batch ≡ t ∷ [])
early-flush capacity s before after w t room r ws current place b q on =
    let seen = Reach.later r (Step.see_nothing before after w ws place b q) in
    let submitted = Reach.later seen (Step.submit t) in
    let here = current-any before after (moved w Place.setting) current in
    let looked = Reach.later submitted (Step.see_worker [] s.producers t refl here) in
    let alive = alive-any before after (moved w Place.setting) current refl in
    let found = Reach.later looked (Step.find_worker [] s.producers t refl alive) in
    let cleared = Reach.later found (Step.clear [] s.producers t refl) in
    let rested =
      Reach.later cleared (Step.rest_idle before after (moved w Place.setting) refl refl) in
    let queued =
      Reach.later rested
        (Step.enqueue [] s.producers t Stage.cleared refl (inl refl) (rw q room)) in
    let going = Reach.later queued (Step.go_on before after (moved w Place.heading) refl refl on) in
    let taken =
      Reach.later going
        (Step.take_trace before after (moved w Place.getting) t [] refl refl (rw q refl)) in
    (_, _, taken, refl, refl, rw b refl)
