-- ===== src/Security/Tokens/Issued.antt =====
-- The keys that are issued.
use Prim.Native.Char.{Char, code}
use proofstep.Prelude.{
  if_some, ℕ, zero, suc, String, ◌≡◌, refl, inl, inr, Bool, true, false, none, some, arith, ◌==◌,
  Bool-cases, Option-cases, str_eq,
}
use proofstep.Prelude.Split.{take_text, has_char, join_by, split_once-join_by}
use proofstep.Security.Tokens.{
  Environment, underscore, kept_chars, alias_of, or_dev, or_cut, normalize_environment, generate,
  parse_prefix,
}

module _ (c : Char) (p : Char → Bool)
    (apart : (d : Char) → p d ≡ true → (code d == code c) ≡ false) where
  has_char-kept_chars : (s : String) → has_char c (kept_chars p s) ≡ false
  unfolding kept_chars
  has_char-kept_chars String.[] = refl
  has_char-kept_chars (String.◌∷◌ d s) = ground (arith, apart d, has_char-kept_chars s)

has_char-take_text :
    (c : Char) (n : ℕ) (s : String) → has_char c s ≡ false → has_char c (take_text n s) ≡ false
unfolding take_text
has_char-take_text c zero s h = refl
has_char-take_text c (suc n) String.[] h = refl
has_char-take_text c (suc n) (String.◌∷◌ d s) h = ground (arith, has_char-take_text c n s)

-- A part of a token, which is not empty and holds no underscore.
abbrev IsPart : String → Type 0
IsPart s = (has_char underscore s ≡ false) × (str_eq s "" ≡ false)

module _ (P : String → Type 0) where
  or_dev_holds : (s : String) → P "dev" → (str_eq s "" ≡ false → P s) → P (or_dev s)
  or_dev_holds s d h = elim (Bool-cases (str_eq s "")) [ inl e ↦ rw e d | inr e ↦ rw e (h e) ]

is_alias : (name short : String) → alias_of name ≡ some short → IsPart short
unfolding alias_of
is_alias name =
    if_some IsPart _ "prod" _ (λ _. (refl, refl))
      (if_some IsPart _ "stg" _ (λ _. (refl, refl))
        (if_some IsPart _ "dev" _ (λ _. (refl, refl))
          (if_some IsPart _ "test" _ (λ _. (refl, refl))
            (if_some IsPart _ "local" none (λ _. (refl, refl)) (λ t h. absurd (cc))))))

or_dev_part :
    (s : String)
    → has_char underscore s ≡ false
    → (has_char underscore (or_dev s) ≡ false) × (str_eq (or_dev s) "" ≡ false)
or_dev_part s h = or_dev_holds IsPart s (refl, refl) (λ e. (h, e))

module _ (env : Environment)
    (apart : (d : Char) → env.isalnum d ≡ true → (code d == code underscore) ≡ false) where
  one_part :
      (name : String)
      → (has_char underscore (normalize_environment env name) ≡ false)
        × (str_eq (normalize_environment env name) "" ≡ false)
  unfolding normalize_environment
  one_part name =
      let cleaned = kept_chars env.isalnum (env.lower name) in
      let clean = has_char-kept_chars underscore env.isalnum apart (env.lower name) in
      or_dev_part (or_cut (alias_of cleaned) cleaned) (elim (Option-cases (alias_of cleaned)) [
        | inl e ↦ rw e (has_char-take_text underscore 8 cleaned clean)
        | inr (short, e) ↦ rw e ((is_alias cleaned short e).0)
      ])

  -- A key that is issued can be looked up, whatever its environment is called and whatever its secret holds: where no letter or digit is an underscore, and the public part has none, the handle that is parsed from the token is the prefix that is stored.
  pub parse_prefix-generate :
      (name public secret : String)
      → has_char underscore public ≡ false
      → str_eq public "" ≡ false
      → str_eq secret "" ≡ false
      → parse_prefix (generate env name public secret).token
        ≡ some (generate env name public secret).prefix
  unfolding parse_prefix generate
  parse_prefix-generate name public secret free some_public some_secret =
      let (short_free, some_short) = one_part name in
      ground (
        arith,
        split_once-join_by underscore "ps" (
            join_by underscore (normalize_environment env name) (join_by underscore public secret)),
        split_once-join_by underscore (normalize_environment env name)
            (join_by underscore public secret),
        split_once-join_by underscore public secret,
      )
