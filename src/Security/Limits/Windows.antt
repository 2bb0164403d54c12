-- ===== src/Security/Limits/Windows.antt =====
-- What the limiter counts, beside a plain count of the requests of a window.
use Prim.Native.Nat.{◌/◌}
use native.Mathlib.Nat.{div-add-mod, mod-lt}
use proofstep.Prelude.{
  ℕ, suc, ◌+◌, ◌*◌, ◌≤◌, ◌<◌, String, ◌≡◌, refl, ◌≢◌, inl, inr, Bool, true, false, not, ◌||◌, some,
  List, [], ◌∷◌, arith, ltb, leb, ◌==◌, if◌then◌else◌, Bool-cases, Option-cases, str_eq, str_eq_iff,
}
use proofstep.Security.Limits.{Klass, Counter, RateLimiter, limiter_of, window_key, hit, check}

-- What `INCR` and `EXPIRE` promise. A key that counts nothing may be missing, and is created without
-- a time to live; any other keeps the one that it has. `EXPIRE` replaces it. Nothing fails.
pub record Counts {S : Type 0} (backend : Counter S) : Type 0 where
  pub incr_lem :
      (key : String) (now : ℕ) (s : S)
      → (after : S) × (backend.incr key now s ≡ some (suc (backend.value key now s), after))
  pub value-incr :
      (key j : String) (now later n : ℕ) (s after : S)
      → backend.incr key now s ≡ some (n, after)
      → now ≤ later
      → backend.value j later after ≡ (
          if not (str_eq key j)
          then backend.value j later s
          else if backend.value key now s == 0
          then 1
          else if backend.value key later s == 0
          then 0
          else suc (backend.value key later s))
  pub expire_lem :
      (key : String) (seconds now : ℕ) (s : S)
      → (after : S) × (backend.expire key seconds now s ≡ some after)
  pub value-expire :
      (key j : String) (seconds now later : ℕ) (s after : S)
      → backend.expire key seconds now s ≡ some after
      → now ≤ later
      → backend.value j later after ≡ (
          if not (str_eq key j)
          then backend.value j later s
          else if leb (now + seconds) later
          then 0
          else backend.value key now s)

-- How many of the keys, those of the calls so far, are this one.
unfoldable pub tally : String → List String → ℕ
tally key [] = 0
tally key (j ∷ keys) = (if str_eq j key then 1 else 0) + tally key keys

-- One request, with the limit of its class and its time.
pub record Call : Type 0 where
  pub bucket : String
  pub klass : Klass
  pub limit : ℕ
  pub time : ℕ

-- The times of the calls, from `now` on.
abbrev pub InOrder : ℕ → List Call → Type 0
InOrder now [] = Unit {0}
InOrder now (c ∷ calls) = (now ≤ c.time) × InOrder c.time calls

module _ (str : ℕ → String) (window_s : ℕ) where
  abbrev pub key_of : Call → String
  key_of c = window_key str window_s c.bucket c.klass c.time

  -- The contract: a call is allowed if it has no limit, or if fewer calls of the same bucket and class
  -- were counted in the same window.
  unfoldable pub verdicts : List String → List Call → List Bool
  verdicts seen [] = []
  verdicts seen (c ∷ calls) =
      (c.limit == 0 || ltb (tally (key_of c) seen) c.limit)
      ∷ verdicts (if c.limit == 0 then seen else key_of c ∷ seen) calls

  module _ {S : Type 0} (backend : Counter S) where
    -- The decisions on a sequence of calls.
    unfoldable pub run : RateLimiter S → List Call → List Bool
    run limiter [] = []
    run limiter (c ∷ calls) =
        let (decision, after) =
          check str window_s backend c.bucket c.klass c.limit c.time limiter in
        decision.allowed ∷ run after calls

same_window : (a b w : ℕ) → 0 < w → a / w ≡ b / w → b < a + w * 2
same_window a b w some_w h =
    ground (arith, div-add-mod a w, div-add-mod b w, mod-lt b some_w, mod-lt a some_w)

module _ (str : ℕ → String) (window_s : ℕ) (some_time : 0 < window_s)
    (apart : (c d : Call)
      → key_of str window_s c ≡ key_of str window_s d
      → c.time / window_s ≡ d.time / window_s)
    {S : Type 0} (backend : Counter S) (counts : Counts backend) where
  -- The store counts, at the time of every call that may come, what was seen.
  abbrev Agrees : ℕ → S → List String → Type 0
  Agrees now s seen =
      (d : Call)
      → now ≤ d.time
      → backend.value (key_of str window_s d) d.time s ≡ tally (key_of str window_s d) seen

  -- What a hit leaves agrees, whether or not it was the first of its window.
  module _ (now : ℕ) (s one kept : S) (seen : List String) (c d : Call) (later : now ≤ c.time)
      (after : c.time ≤ d.time) (agrees : Agrees now s seen) (n : ℕ)
      (e : backend.incr (key_of str window_s c) c.time s ≡ some (n, one)) where
    first_hit-Agrees :
        backend.expire (key_of str window_s c) (window_s * 2) c.time one ≡ some kept
        → tally (key_of str window_s c) seen ≡ 0
        → backend.value (key_of str window_s d) d.time kept
          ≡ tally (key_of str window_s d) (key_of str window_s c ∷ seen)
    unfolding tally
    first_hit-Agrees e' fresh = ground (
      arith,
      agrees c later,
      agrees d,
      apart c d,
      same_window c.time d.time window_s some_time,
      str_eq_iff (key_of str window_s c) (key_of str window_s d),
      counts.value-incr (key_of str window_s c) (key_of str window_s d) c.time d.time n s one e
          after,
      counts.value-incr (key_of str window_s c) (key_of str window_s c) c.time c.time n s one e
          (omega arith),
      counts.value-expire (key_of str window_s c) (key_of str window_s d) (window_s * 2) c.time
          d.time one kept e' after,
    )

    next_hit-Agrees :
        tally (key_of str window_s c) seen ≢ 0
        → backend.value (key_of str window_s d) d.time one
          ≡ tally (key_of str window_s d) (key_of str window_s c ∷ seen)
    unfolding tally
    next_hit-Agrees more = ground (
      arith,
      agrees c later,
      agrees d,
      str_eq_iff (key_of str window_s c) (key_of str window_s d),
      counts.value-incr (key_of str window_s c) (key_of str window_s d) c.time d.time n s one e
          after,
    )

  hit-Agrees :
      (now : ℕ) (s : S) (seen : List String) (c : Call)
      → now ≤ c.time
      → Agrees now s seen
      → (after : S) × (hit str window_s backend (key_of str window_s c) c.time s
          ≡ (some (suc (tally (key_of str window_s c) seen)), after))
        × Agrees c.time after (key_of str window_s c ∷ seen)
  hit-Agrees now s seen c later agrees =
      let (one, e) = counts.incr_lem (key_of str window_s c) c.time s in
      let (kept, e') = counts.expire_lem (key_of str window_s c) (window_s * 2) c.time one in
      elim (Bool-cases (tally (key_of str window_s c) seen == 0)) [
        | inl fresh ↦ (
          kept,
          ground (arith, agrees c later, e, e'),
          λ d after.
              first_hit-Agrees now s one kept seen c d later after agrees _ e e' (ground arith),
        )
        | inr more ↦ (
          one,
          ground (arith, agrees c later, e, e'),
          λ d after. next_hit-Agrees now s one kept seen c d later after agrees _ e (ground arith),
        )
      ]

  run-Agrees :
      (now : ℕ) (s : S) (available : Bool) (seen : List String) (calls : List Call)
      → InOrder now calls
      → Agrees now s seen
      → run str window_s backend (record { counter = some s; available = available }) calls
        ≡ verdicts str window_s seen calls
  unfolding run verdicts check
  run-Agrees now s available seen [] order agrees = refl
  run-Agrees now s available seen (c ∷ calls) (later, order) agrees =
      let (after, e, agrees') = hit-Agrees now s seen c later agrees in
      elim (Bool-cases (c.limit == 0)) [
        | inl free ↦
            ground (
              arith,
              run-Agrees c.time s available seen calls order (λ d l. agrees d (omega arith)),
            )
        | inr limited ↦ ground (
          arith,
          e,
          run-Agrees c.time after true (key_of str window_s c ∷ seen) calls order agrees',
        )
      ]

  -- The limiter implements the contract. For calls in the order of their times, over a store of
  -- counters that works and has counted nothing yet, where keys of different windows differ, a call
  -- is allowed exactly when it has no limit or fewer calls than its limit were counted before it with
  -- the same key, which names its window; so the time to live of two windows forgets no call too
  -- early.
  pub run-verdicts :
      (s : S) (calls : List Call)
      → ((key : String) (time : ℕ) → backend.value key time s ≡ 0)
      → InOrder 0 calls
      → run str window_s backend (limiter_of (some s)) calls ≡ verdicts str window_s [] calls
  unfolding tally
  run-verdicts s calls empty order =
      run-Agrees 0 s true [] calls order (λ d l. empty (key_of str window_s d) d.time)

module _ (str : ℕ → String) (window_s : ℕ) {S : Type 0} (backend : Counter S) where
  -- The limiter fails open. A call is refused only if it has a limit, there is a backend, its counter
  -- went above the limit, and no operation failed; the decision and the limiter then say that the
  -- backend is available.
  pub check_refused :
      (bucket : String) (klass : Klass) (limit now : ℕ) (limiter : RateLimiter S)
      → (check str window_s backend bucket klass limit now limiter).0.allowed ≡ false
      → let (decision, left) = check str window_s backend bucket klass limit now limiter in
        (s : S) × (used : ℕ) × (after : S) × (limiter.counter ≡ some s)
        × (backend.incr (window_key str window_s bucket klass now) now s ≡ some (used, after))
        × (0 < limit)
        × (limit < used)
        × (decision.available ≡ true)
        × (left.available ≡ true)
  unfolding check
  check_refused bucket klass limit now limiter h = elim (Option-cases limiter.counter) [
    | inl missing ↦ absurd (ground (arith, missing))
    | inr (s, e) ↦
        elim (Option-cases (backend.incr (window_key str window_s bucket klass now) now s)) [
          | inl failed ↦ absurd (ground (arith, failed))
          | inr ((used, after), f) ↦ (
            s,
            used,
            after,
            e,
            f,
            ground (arith, e, f),
            ground (arith, e, f),
            ground (arith, e, f),
            ground (arith, e, f),
          )
        ]
  ]
