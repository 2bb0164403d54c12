-- ===== src/Security/Limits.antt =====
-- The rate limiter: apps/api/src/proofstep_api/security/ratelimit.py, and its use in
-- api/dependencies.py. A time is the whole seconds of `time.time()`.
use Prim.Native.String.{◌++◌ as append_text}
use Prim.Native.Nat.{◌/◌, ◌%◌}
use proofstep.Prelude.{
  ℕ, ◌-◌, ◌*◌, String, Bool, true, false, ◌||◌, Option, none, some, [], ◌∷◌, leb, ◌==◌,
  if◌then◌else◌, is_some, mem_text,
}
use proofstep.Prelude.{strip_prefix}
pub mod Keys
pub mod Windows

-- INGEST, READ, WRITE and AUTH
pub data Klass : Type 0 where
  ingest read write auth : Klass

abbrev pub klass_name : Klass → String
klass_name Klass.ingest = "ingest"
klass_name Klass.read = "read"
klass_name Klass.write = "write"
klass_name Klass.auth = "auth"

-- What a store of counters offers, at a given time. `none` is an exception. `value` is no operation
-- of the code: it says what a key counts.
pub record Counter (S : Type 0) : Type 0 where
  pub incr : String → ℕ → S → Option (ℕ × S)
  pub expire : String → ℕ → ℕ → S → Option S
  pub value : String → ℕ → S → ℕ

-- A limit below zero acts as 0 does.
pub record Decision : Type 0 where
  pub allowed : Bool
  pub limit : ℕ
  pub remaining : ℕ
  pub reset_in : ℕ
  pub available : Bool

-- The limiter, with the state of its backend: `none` where there is no backend.
pub record RateLimiter (S : Type 0) : Type 0 where
  pub counter : Option S
  pub available : Bool

abbrev pub limiter_of : {S : Type 0} → Option S → RateLimiter S
limiter_of counter = record { counter = counter; available = is_some counter }

-- `str` prints a number. `window_s` is the length of a window.
module _ (str : ℕ → String) (window_s : ℕ) where
  abbrev pub window_key : String → Klass → ℕ → String
  window_key bucket klass now = append_text "proofstep:rl:" (
      append_text (klass_name klass)
        (append_text ":" (append_text bucket (append_text ":" (str (now / window_s))))))

  abbrev pub reset_of : ℕ → ℕ
  reset_of now = window_s - now % window_s

  abbrev pub unlimited : ℕ → ℕ → Bool → Decision
  unlimited limit reset_in available = record {
    allowed = true;
    limit = limit;
    remaining = limit;
    reset_in = reset_in;
    available = available;
  }

  module _ {S : Type 0} (backend : Counter S) where
    -- `incr`, and `expire` on the first hit. An exception of either is that of the whole, and leaves
    -- what was done before it.
    abbrev pub hit : String → ℕ → S → Option ℕ × S
    hit key now s = elim (backend.incr key now s) [
      | none ↦ (none, s)
      | some (used, after) ↦
          if used == 1
          then elim (backend.expire key (window_s * 2) now after) [
            | none ↦ (none, after)
            | some kept ↦ (some used, kept)
          ]
          else (some used, after)
    ]

    abbrev pub counted : ℕ → ℕ → Option ℕ → Decision
    counted limit now none = unlimited limit (reset_of now) false
    counted limit now (some used) = record {
      allowed = leb used limit;
      limit = limit;
      remaining = limit - used;
      reset_in = reset_of now;
      available = true;
    }

    abbrev check_store : String → Klass → ℕ → ℕ → Option S → Bool → Decision × RateLimiter S
    check_store bucket klass limit now none available =
        (unlimited limit (reset_of now) false, record { counter = none; available = available })
    check_store bucket klass limit now (some s) available =
        let (used, after) = hit (window_key bucket klass now) now s in
        (counted limit now used, record { counter = some after; available = is_some used })

    unfoldable pub check : String → Klass → ℕ → ℕ → RateLimiter S → Decision × RateLimiter S
    check bucket klass limit now limiter =
        if limit == 0
        then (unlimited limit 0 true, limiter)
        else check_store bucket klass limit now limiter.counter limiter.available

abbrev pub is_exempt : String → Bool
is_exempt path = mem_text path ("/metrics" ∷ "/healthz" ∷ "/readyz" ∷ [])

abbrev starts_with : String → String → Bool
starts_with path start = is_some (strip_prefix start path)

abbrev pub classify : String → String → Klass
classify method path =
    if starts_with path "/v1/ingest" || starts_with path "/v1/otlp"
    then Klass.ingest
    else if mem_text method ("GET" ∷ "HEAD" ∷ [])
    then Klass.read
    else Klass.write

-- The limits of the settings.
pub record Settings : Type 0 where
  pub rate_limit_ingest_per_min : ℕ
  pub rate_limit_read_per_min : ℕ
  pub rate_limit_write_per_min : ℕ
  pub rate_limit_auth_per_min : ℕ

abbrev pub limit_for : Settings → Klass → ℕ
limit_for settings Klass.ingest = settings.rate_limit_ingest_per_min
limit_for settings Klass.read = settings.rate_limit_read_per_min
limit_for settings Klass.write = settings.rate_limit_write_per_min
limit_for settings Klass.auth = settings.rate_limit_auth_per_min
