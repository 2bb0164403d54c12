-- ===== src/Trajectory/Normalize/Retries/Streak.antt =====
-- `_mark_retries` against a reference that looks back at the events before each one.
use proofstep.Prelude.{
  ℕ, zero, suc, String, ◌≡◌, refl, inl, inr, Bool, true, false, Option, none, some, List, [], ◌∷◌,
  arith, ltb, if◌then◌else◌, Bool-cases, str_eq_iff,
}
use proofstep.Trajectory.Events.{TrajectoryEvent, failed}
use proofstep.Trajectory.Normalize.Retries.{
  Failures, same_signature, last_attempt, forget, remember, mark, after_event, mark_from,
  mark_retries,
}

abbrev has_signature : String → String → TrajectoryEvent → Bool
has_signature a h e = same_signature e.action e.args_hash a h

-- How many of the latest events of the signature failed in a row; the events before come latest
-- first.
unfoldable pub streak : String → String → List TrajectoryEvent → ℕ
streak a h [] = 0
streak a h (e ∷ before) =
    let rest = streak a h before in
    if has_signature a h e then (if failed e then suc rest else 0) else rest

-- An event is a retry if the latest event of its signature failed, and its attempt counts the
-- failures in a row before it.
unfoldable pub retried : List TrajectoryEvent → TrajectoryEvent → TrajectoryEvent
retried before e = record e {
  attempt = suc (streak e.action e.args_hash before);
  is_retry = ltb 0 (streak e.action e.args_hash before);
}

unfoldable pub mark_by_streak : List TrajectoryEvent → List TrajectoryEvent → List TrajectoryEvent
mark_by_streak before [] = []
mark_by_streak before (e ∷ es) = retried before e ∷ mark_by_streak (e ∷ before) es

-- Events as `_build` makes them.
abbrev pub IsFresh : List TrajectoryEvent → Type 0
IsFresh [] = Unit
IsFresh (e ∷ es) = (e.attempt ≡ 1) × (e.is_retry ≡ false) × IsFresh es

last_attempt-forget :
    (a h b k : String) (fs : Failures)
    → last_attempt a h (forget b k fs)
      ≡ (if same_signature b k a h then none else last_attempt a h fs)
unfolding last_attempt forget
last_attempt-forget a h b k [] = ground arith
last_attempt-forget a h b k (((c, l), n) ∷ fs) = ground (
  arith,
  last_attempt-forget a h b k fs,
  str_eq_iff c b,
  str_eq_iff l k,
  str_eq_iff c a,
  str_eq_iff l h,
  str_eq_iff b a,
  str_eq_iff k h,
)

last_attempt-remember :
    (a h b k : String) (n : ℕ) (fs : Failures)
    → last_attempt a h (remember b k n fs)
      ≡ (if same_signature b k a h then some n else last_attempt a h fs)
unfolding last_attempt remember
last_attempt-remember a h b k n fs = ground (arith, last_attempt-forget a h b k fs)

abbrev attempt_of : ℕ → Option ℕ
attempt_of zero = none
attempt_of (suc n) = some (suc n)

-- The dictionary holds what the look back finds.
abbrev Agrees : Failures → List TrajectoryEvent → Type 0
Agrees fs before = (a h : String) → last_attempt a h fs ≡ attempt_of (streak a h before)

mark-eq-retried :
    (n : ℕ) (e : TrajectoryEvent)
    → e.attempt ≡ 1
    → e.is_retry ≡ false
    → mark e (attempt_of n) ≡ record e { attempt = suc n; is_retry = ltb 0 n }
unfolding mark
mark-eq-retried zero e once fresh = ground arith
mark-eq-retried (suc n) e once fresh = ground arith

streak_congr :
    (a h : String) (e : TrajectoryEvent) (before : List TrajectoryEvent)
    → has_signature a h e ≡ true
    → streak e.action e.args_hash before ≡ streak a h before
streak_congr a h e before same =
    let p : e.action ≡ a = ground (arith, str_eq_iff e.action a) in
    let q : e.args_hash ≡ h = ground (arith, str_eq_iff e.args_hash h) in cc

after_event-Agrees :
    (fs : Failures) (before : List TrajectoryEvent) (e : TrajectoryEvent)
    → Agrees fs before
    → Agrees (after_event (retried before e) fs) (e ∷ before)
unfolding after_event retried streak
after_event-Agrees fs before e agrees a h = elim (Bool-cases (failed e)) [
  | inl bad ↦ ground (
    arith,
    last_attempt-remember a h e.action e.args_hash (suc (streak e.action e.args_hash before)) fs,
    streak_congr a h e before,
    agrees a h,
  )
  | inr good ↦ ground (arith, last_attempt-forget a h e.action e.args_hash fs, agrees a h)
]

mark_from-eq :
    (fs : Failures) (before es : List TrajectoryEvent)
    → Agrees fs before
    → IsFresh es
    → mark_from fs es ≡ mark_by_streak before es
unfolding mark_from mark_by_streak
mark_from-eq fs before [] agrees fresh = refl
mark_from-eq fs before (e ∷ es) agrees fresh =
    let here : mark e (last_attempt e.action e.args_hash fs) ≡ retried before e =
      unfold retried in
      rw (agrees e.action e.args_hash)
        (mark-eq-retried (streak e.action e.args_hash before) e fresh.0 fresh.1) in
    rw (
      here,
      mark_from-eq (after_event (retried before e) fs) (e ∷ before) es
          (after_event-Agrees fs before e agrees) fresh.2,
    )

-- On events as they are built, `_mark_retries` marks exactly the events whose latest predecessor of
-- the same action and arguments failed, and numbers each attempt by the failures in a row before it.
pub mark_retries-eq :
    (es : List TrajectoryEvent) → IsFresh es → mark_retries es ≡ mark_by_streak [] es
unfolding mark_retries
mark_retries-eq es fresh = mark_from-eq [] [] es (λ a h. unfold last_attempt streak in refl) fresh
