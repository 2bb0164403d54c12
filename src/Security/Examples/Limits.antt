-- ===== src/Security/Examples/Limits.antt =====
-- Counters as a function of their keys, with their times to live.
use Prim.Native.Nat.{◌/◌}
use proofstep.Prelude.{
  ℕ, zero, suc, ◌+◌, ◌≤◌, String, ◌≡◌, refl, sym, ap, ◌∙◌, Bool, true, false, not, Option, none,
  some, List, [], ◌∷◌, arith, leb, ◌==◌, if◌then◌else◌, str_eq,
}
use proofstep.Security.Permissions.{Permission, has, permissions_for_role, permissions_for_scopes}
use proofstep.Security.Permissions.Matrix.{
  is_administration, holds_one, has-permissions_for_scopes_iff,
}
use proofstep.Security.Limits.{Klass, Counter, limiter_of, check}
use proofstep.Security.Limits.Keys.{has_colon, window_key_inj}
use proofstep.Security.Limits.Windows.{Counts, Call, key_of, tally, verdicts, run, run-verdicts}

-- Numbers in unary.
unfoldable pub ones : ℕ → String
ones zero = ""
ones (suc n) = String.◌∷◌ "1" (ones n)

pub ones_free : (n : ℕ) → has_colon (ones n) ≡ false
unfolding ones
ones_free zero = refl
ones_free (suc n) = ones_free n

pub ones_inj : (m n : ℕ) → ones m ≡ ones n → m ≡ n
unfolding ones
ones_inj zero zero h = refl
ones_inj zero (suc n) h = cc
ones_inj (suc m) zero h = cc
ones_inj (suc m) (suc n) h = let ih = ones_inj m n in ground arith

-- A count, and when it is forgotten.
pub record Cell : Type 0 where
  pub count : ℕ
  pub until : Option ℕ

abbrev pub Store : Type 0
Store = String → Cell

abbrev over : Option ℕ → ℕ → Bool
over none now = false
over (some at) now = leb at now

abbrev read : Cell → ℕ → ℕ
read cell now = if over cell.until now then 0 else cell.count

abbrev put_cell : String → Cell → Store → Store
put_cell key cell s j = if str_eq key j then cell else s j

abbrev raised : Cell → ℕ → Cell
raised cell now =
    if read cell now == 0
    then record { count = 1; until = none }
    else record cell { count = suc cell.count }

abbrev pub counters : Counter Store
counters = record {
  incr = λ key now s. some (suc (read (s key) now), put_cell key (raised (s key) now) s);
  expire = λ key seconds now s.
      some (put_cell key (record { count = read (s key) now; until = some (now + seconds) }) s);
  value = λ key now s. read (s key) now;
}

abbrev pub empty : Store
empty key = record { count = 0; until = none }

module _ (key j : String) (now later : ℕ) (s : Store) (order : now ≤ later) where
  read-raised : read (put_cell key (raised (s key) now) s j) later ≡ (
      if not (str_eq key j)
      then read (s j) later
      else if read (s key) now == 0
      then 1
      else if read (s key) later == 0
      then 0
      else suc (read (s key) later))
  read-raised = ground (arith)

  read-kept :
      (seconds : ℕ)
      → read
          (put_cell key (record { count = read (s key) now; until = some (now + seconds) }) s j)
          later
        ≡ (if not (str_eq key j)
            then read (s j) later
            else if leb (now + seconds) later
            then 0
            else read (s key) now)
  read-kept seconds = ground (arith)

some_inj {ℓ} : {A : Type ℓ} {x y : A} → some x ≡ some y → x ≡ y
some_inj h = cc

counters-Counts : Counts counters
counters-Counts = record {
  incr_lem = λ key now s. (put_cell key (raised (s key) now) s, refl);
  value-incr = λ key j now later n s after e order.
      ap (λ (r : ℕ × Store). read (r.1 j) later) (sym (some_inj e))
      ∙ read-raised key j now later s order;
  expire_lem = λ key seconds now s.
      (put_cell key (record { count = read (s key) now; until = some (now + seconds) }) s, refl);
  value-expire = λ key j seconds now later s after e order.
      ap (λ (r : Store). read (r j) later) (sym (some_inj e))
      ∙ read-kept key j now later s order seconds;
}

abbrev call : String → ℕ → ℕ → Call
call bucket limit time = record { bucket = bucket; klass = Klass.read; limit = limit; time = time }

-- Two calls of one caller and one of another, in a window, and one call in the next window.
abbrev traffic : List Call
traffic = call "a" 1 10 ∷ call "a" 1 20 ∷ call "b:1" 1 30 ∷ call "a" 1 61 ∷ []

traffic_answers : verdicts ones 60 [] traffic ≡ true ∷ false ∷ true ∷ true ∷ []
unfolding verdicts ones tally
traffic_answers = refl

window_key_inj_example :
    ◌≡◌ {A = String} "a:1" "a:1" × (Klass.auth ≡ Klass.auth) × (70 / 60 ≡ 80 / 60)
unfolding ones
window_key_inj_example =
    window_key_inj ones ones_free ones_inj 60 "a:1" "a:1" Klass.auth Klass.auth 70 80 refl

same_windows : (c d : Call) → key_of ones 60 c ≡ key_of ones 60 d → c.time / 60 ≡ d.time / 60
same_windows c d h =
    (window_key_inj ones ones_free ones_inj 60 c.bucket d.bucket c.klass d.klass c.time d.time h).2

run-verdicts_example :
    run ones 60 counters (limiter_of (some empty)) traffic ≡ verdicts ones 60 [] traffic
run-verdicts_example =
    run-verdicts ones 60 (omega arith) same_windows counters counters-Counts empty traffic
      (λ key time. refl) (omega arith)

-- A counter that has reached seven.
abbrev seven : Store
seven key = record { count = 7; until = none }

refused : (check ones 60 counters "a" Klass.read 5 10 (limiter_of (some seven))).0.allowed ≡ false
unfolding check
refused = refl

abbrev scopes : List String
scopes = "ingest" ∷ "write" ∷ "admin" ∷ []

has-permissions_for_scopes_iff_example :
    (has Permission.project_read (permissions_for_scopes scopes)
      ≡ holds_one ("read" ∷ "write" ∷ "annotate" ∷ []) scopes)
    × (has Permission.annotation_write (permissions_for_scopes scopes)
        ≡ holds_one ("annotate" ∷ []) scopes)
    × (has Permission.trace_ingest (permissions_for_scopes scopes)
        ≡ holds_one ("ingest" ∷ []) scopes)
    × ((p : Permission)
        → has p (permissions_for_scopes scopes) ≡ true
        → (is_administration p ≡ false) × (has p (permissions_for_role "developer") ≡ true))
has-permissions_for_scopes_iff_example = has-permissions_for_scopes_iff scopes
