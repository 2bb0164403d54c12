-- ===== src/Security/Limits/Keys.antt =====
-- The keys of the windows.
use Prim.Native.Char.{Char, code}
use Prim.Native.String.{◌++◌ as append_text}
use Prim.Native.Nat.{◌/◌}
use text.Mathlib.TextLemmas.{append_cancel_left, nil-append, cons-append}
use proofstep.Prelude.{
  ℕ, String, ◌≡◌, refl, ap, ◌∙◌, Bool, true, false, ◌||◌, Option, none, some, arith, ◌==◌,
  if◌then◌else◌, str_eq,
}
use proofstep.Security.Limits.{Klass, klass_name, window_key}

abbrev pub has_colon : String → Bool
has_colon String.[] = false
has_colon (String.◌∷◌ c s) = code c == b':' || has_colon s

abbrev colon : Char
colon = ":"

colon_append : (r : String) → append_text ":" r ≡ String.◌∷◌ colon r
colon_append r = cons-append _ String.[] r ∙ ap (String.◌∷◌ colon) (nil-append r)

colon_seen : (d : Char) (l : String) → d ≡ colon → has_colon (String.◌∷◌ d l) ≡ true
colon_seen d l e = rw e

-- The parts before the first colons are equal, and the parts behind them.
first_colon :
    (k l r s : String)
    → has_colon k ≡ false
    → has_colon l ≡ false
    → append_text k (append_text ":" r) ≡ append_text l (append_text ":" s)
    → (k ≡ l) × (r ≡ s)
first_colon String.[] String.[] r s hk hl h = ground (
  arith,
  nil-append (append_text ":" r),
  nil-append (append_text ":" s),
  colon_append r,
  colon_append s,
)
first_colon String.[] (String.◌∷◌ d l) r s hk hl h = ground (
  arith,
  colon_seen d l,
  nil-append (append_text ":" r),
  cons-append d l (append_text ":" s),
  colon_append r,
)
first_colon (String.◌∷◌ c k) String.[] r s hk hl h = ground (
  arith,
  colon_seen c k,
  nil-append (append_text ":" s),
  cons-append c k (append_text ":" r),
  colon_append s,
)
first_colon (String.◌∷◌ c k) (String.◌∷◌ d l) r s hk hl h = ground (
  arith,
  first_colon k l r s,
  cons-append c k (append_text ":" r),
  cons-append d l (append_text ":" s),
)

has_colon-append : (r s : String) → has_colon (append_text r (append_text ":" s)) ≡ true
has_colon-append String.[] s = ground (arith, nil-append (append_text ":" s), colon_append s)
has_colon-append (String.◌∷◌ c r) s =
    ground (arith, has_colon-append r s, cons-append c r (append_text ":" s))

last_colon :
    (k l r s : String)
    → has_colon r ≡ false
    → has_colon s ≡ false
    → append_text k (append_text ":" r) ≡ append_text l (append_text ":" s)
    → (k ≡ l) × (r ≡ s)
last_colon String.[] String.[] r s hr hs h = ground (
  arith,
  nil-append (append_text ":" r),
  nil-append (append_text ":" s),
  colon_append r,
  colon_append s,
)
last_colon String.[] (String.◌∷◌ d l) r s hr hs h = ground (
  arith,
  has_colon-append l s,
  nil-append (append_text ":" r),
  cons-append d l (append_text ":" s),
  colon_append r,
)
last_colon (String.◌∷◌ c k) String.[] r s hr hs h = ground (
  arith,
  has_colon-append k r,
  nil-append (append_text ":" s),
  cons-append c k (append_text ":" r),
  colon_append s,
)
last_colon (String.◌∷◌ c k) (String.◌∷◌ d l) r s hr hs h = ground (
  arith,
  last_colon k l r s,
  cons-append c k (append_text ":" r),
  cons-append d l (append_text ":" s),
)

name_free : (k : Klass) → has_colon (klass_name k) ≡ false
name_free Klass.ingest = refl
name_free Klass.read = refl
name_free Klass.write = refl
name_free Klass.auth = refl

read_back : String → Option Klass
read_back s =
    if str_eq s "ingest"
    then some Klass.ingest
    else if str_eq s "read"
    then some Klass.read
    else if str_eq s "write"
    then some Klass.write
    else if str_eq s "auth"
    then some Klass.auth
    else none

read_back-klass_name : (k : Klass) → read_back (klass_name k) ≡ some k
unfolding read_back
read_back-klass_name Klass.ingest = refl
read_back-klass_name Klass.read = refl
read_back-klass_name Klass.write = refl
read_back-klass_name Klass.auth = refl

name_inj : (k l : Klass) → klass_name k ≡ klass_name l → k ≡ l
name_inj k l h = ground (arith, read_back-klass_name k, read_back-klass_name l)

module _ (str : ℕ → String) (free : (n : ℕ) → has_colon (str n) ≡ false)
    (str_inj : (m n : ℕ) → str m ≡ str n → m ≡ n) (window_s : ℕ) where
  -- Where numbers are printed apart and without colons, two requests share a counter only if they
  -- have the bucket, the class and the number of the window in common, whatever colons the buckets
  -- hold.
  pub window_key_inj :
      (b c : String) (k l : Klass) (now later : ℕ)
      → window_key str window_s b k now ≡ window_key str window_s c l later
      → (b ≡ c) × (k ≡ l) × (now / window_s ≡ later / window_s)
  window_key_inj b c k l now later h =
      let (names, rest) =
        first_colon (klass_name k) (klass_name l) _ _ (name_free k) (name_free l)
          (append_cancel_left "proofstep:rl:" _ _ h) in
      let (buckets, windows) = last_colon b c _ _ (free _) (free _) rest in
      (buckets, name_inj k l names, str_inj _ _ windows)
