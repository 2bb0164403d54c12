-- ===== src/Redaction/Masked.antt =====
-- What a redacted value holds under the names of secrets.
pub mod Everywhere
use Prim.Native.String.{◌++◌ as append_text, count, len}
use text.Mathlib.TextLemmas.{nil-append, cons-append}
use proofstep.Prelude.{
  ℕ, ◌+◌, ◌-◌, String, ◌≡◌, refl, ap, ◌∙◌, ◌⊎◌, inl, inr, Bool, true, false, not, ◌||◌, none, some,
  List, [], ◌∷◌, map, arith, ltb, if◌then◌else◌, Bool-cases, Option-cases, length, any, find?,
  str_eq, str_eq_iff,
}
use proofstep.Prelude.{strip_prefix}
use proofstep.Prelude.Split.{has_char, has_char-append}
use proofstep.Types.Value.{Value, Items, Fields, put_field, same_value}
use proofstep.Redaction.{
  Tools, dot, last_part, contains, has_part, secret_key_parts, secret_patterns, looks_like_a_secret,
  join_words, mask_word, secret_keys, secret_values, redact_words, mask, default,
}
use proofstep.Redaction.Walk.{
  Counts, Pipeline, run_redactors, is_masked, preview, sized, leaf, child, element, more_items,
  too_deep,
}

-- The three names that the walk adds to a dictionary.
abbrev pub note_names : List String
note_names = "_truncated" ∷ "_original_bytes" ∷ "_preview" ∷ []

last_part-whole : (s : String) → has_char dot s ≡ false → last_part s ≡ s
unfolding last_part
last_part-whole String.[] h = refl
last_part-whole (String.◌∷◌ c s) h = ground arith

dot_append : (s : String) → append_text "." s ≡ String.◌∷◌ dot s
dot_append s = cons-append _ String.[] s ∙ ap (String.◌∷◌ dot) (nil-append s)

last_part-append :
    (a s : String) → has_char dot s ≡ false → last_part (append_text a (String.◌∷◌ dot s)) ≡ s
unfolding last_part
last_part-append String.[] s h = rw (nil-append (String.◌∷◌ dot s)) (ground arith)
last_part-append (String.◌∷◌ c a) s h =
    rw (cons-append c a (String.◌∷◌ dot s))
      (ground (arith, last_part-append a s h, has_char-append dot a (String.◌∷◌ dot s)))

last_part-child :
    (str : ℕ → String) (path key : String)
    → has_char dot key ≡ false
    → last_part (child str path key) ≡ key
last_part-child str path key h = elim (Bool-cases (str_eq path "")) [
  | inl e ↦ rw e (last_part-whole key h)
  | inr e ↦ rw e (rw (dot_append key) (last_part-append path key h))
]

-- `str.lower` leaves the names alone that the walk adds.
abbrev pub KeepsNotes : Tools → Type 0
KeepsNotes tools =
    (tools.lower "_truncated" ≡ "_truncated")
    × (tools.lower "_original_bytes" ≡ "_original_bytes")
    × (tools.lower "_preview" ≡ "_preview")

module _ (tools : Tools) where
  -- The path ends in a name that holds the name of a secret.
  abbrev pub is_secret : String → Bool
  is_secret path = has_part tools secret_key_parts path

  -- What may stand at such a path: the mask, or the note of something that was cut off.
  abbrev pub IsCover : Value → Type 0
  IsCover v = (v ≡ mask "secret_key") ⊎ (v ≡ too_deep) ⊎ ((n : ℕ) × (v ≡ more_items tools.str n))

  -- Every value at a path with the name of a secret is covered, unless it holds others.
  abbrev mutual
    pub Covered : String → Value → Type 0
    Covered path (Value.obj d) = CoveredFields path d
    Covered path (Value.arr vs) = CoveredItems path 0 vs
    Covered path v = is_secret path ≡ true → IsCover v

    pub CoveredItems : String → ℕ → Items → Type 0
    CoveredItems path i Items.nil = Unit {0}
    CoveredItems path i (Items.cons v vs) =
        Covered (element tools.str path i) v × CoveredItems path (i + 1) vs

    pub CoveredFields : String → Fields → Type 0
    CoveredFields path Fields.done = Unit {0}
    CoveredFields path (Fields.field k v d) =
        Covered (child tools.str path k) v × CoveredFields path d

  note-is_secret :
      (path name : String)
      → has_char dot name ≡ false
      → tools.lower name ≡ name
      → any (λ part. contains part name) secret_key_parts ≡ false
      → is_secret (child tools.str path name) ≡ false
  note-is_secret path name h same free =
      ap (λ s. any (λ part. contains part (tools.lower s)) secret_key_parts)
        (last_part-child tools.str path name h)
      ∙ ap (λ s. any (λ part. contains part s) secret_key_parts) same
      ∙ free

module _ (tools : Tools) (names : KeepsNotes tools) where
  truncated-is_secret :
      (path : String) → is_secret tools (child tools.str path "_truncated") ≡ false
  unfolding contains strip_prefix
  truncated-is_secret path = note-is_secret tools path "_truncated" refl names.0 refl

  bytes-is_secret :
      (path : String) → is_secret tools (child tools.str path "_original_bytes") ≡ false
  unfolding contains strip_prefix
  bytes-is_secret path = note-is_secret tools path "_original_bytes" refl names.1 refl

  preview-is_secret : (path : String) → is_secret tools (child tools.str path "_preview") ≡ false
  unfolding contains strip_prefix
  preview-is_secret path = note-is_secret tools path "_preview" refl names.2 refl

  preview-Covered : (path s : String) → Covered tools path (preview s)
  preview-Covered path s = (
    λ h. absurd (ground (arith, truncated-is_secret path)),
    (
      λ h. absurd (ground (arith, bytes-is_secret path)),
      (λ h. absurd (ground (arith, preview-is_secret path)), tt),
    ),
  )

  put_field-Covered :
      (path k : String) (v : Value) (d : Fields)
      → Covered tools (child tools.str path k) v
      → CoveredFields tools path d
      → CoveredFields tools path (put_field k v d)
  unfolding put_field
  put_field-Covered path k v Fields.done h hs = (h, tt)
  put_field-Covered path k v (Fields.field j w d) h (hw, hs) = elim (Bool-cases (str_eq j k)) [
    | inl e ↦ let same : k ≡ j = ground (arith, e, str_eq_iff j k) in rw e (rw (← same) h, hs)
    | inr e ↦ rw e (hw, put_field-Covered path k v d h hs)
  ]

  too_deep-Covered : (path : String) → Covered tools path too_deep
  too_deep-Covered path = λ h. inr (inl refl)

  -- What the secret redactors make of a value that is no secret by its name.
  sized-Covered :
      (limit : ℕ) (path s : String) (counts : Counts)
      → is_secret tools path ≡ false
      → Covered tools path (sized limit (Value.text s) counts).0
  sized-Covered limit path s counts open_ = elim (Bool-cases (ltb limit (len s))) [
    | inl e ↦ rw e (preview-Covered path s)
    | inr e ↦ rw e (λ h. absurd (ground (arith, h, open_)))
  ]

module _ (tools : Tools) (path : String) where
  secret_keys-mask :
      (v : Value)
      → is_secret tools path ≡ true
      → secret_keys tools path v ≡ some (mask "secret_key")
  unfolding secret_keys
  secret_keys-mask v h = ground arith

  secret_keys-none : (v : Value) → is_secret tools path ≡ false → secret_keys tools path v ≡ none
  unfolding secret_keys
  secret_keys-none v h = ground arith

  run-secret :
      (v : Value) (counts : Counts)
      → is_secret tools path ≡ true
      → ((run_redactors (default tools) path v counts).0 ≡ true)
        × ((run_redactors (default tools) path v counts).1 ≡ mask "secret_key")
  unfolding run_redactors strip_prefix
  run-secret v counts h = ground (arith, secret_keys-mask v h)

  -- What redacts a text returns a text.
  words_text :
      (s : String)
      → (redact_words tools s ≡ none)
        ⊎ ((t : String) × (redact_words tools s ≡ some (Value.text t)))
  unfolding redact_words
  words_text s =
      elim (Bool-cases (
        ltb (count s) 32
        || ltb (length (tools.split s)) 2
        || not (any (looks_like_a_secret tools) (tools.split s)))) [
          | inl e ↦ inl (rw e)
          | inr e ↦ inr (join_words (map (mask_word tools) (tools.split s)), rw e)
        ]

  values_text :
      (s : String)
      → (secret_values tools path (Value.text s) ≡ none)
        ⊎ ((t : String) × (secret_values tools path (Value.text s) ≡ some (Value.text t)))
  unfolding secret_values
  values_text s = elim (Option-cases (find? (λ name. tools.search name s) secret_patterns)) [
    | inr (name, e) ↦ inr (tools.sub name s, ground (arith, e))
    | inl e ↦ elim (Bool-cases (looks_like_a_secret tools s)) [
      | inl f ↦ inr ("[REDACTED:high_entropy]", ground (arith, e, f))
      | inr f ↦ elim (words_text s) [
        | inl g ↦ inl (ground (arith, e, f, g))
        | inr (t, g) ↦ inr (t, ground (arith, e, f, g))
      ]
    ]
  ]

  -- A text at an open path ends as a text, or is tested for its size.
  IsOpen : Pipeline → Value → Type 0
  IsOpen p w =
      ((t : String) × (w ≡ Value.text t))
      ⊎ ((t : String) × (c : Counts) × (w ≡ (sized p.max_field_bytes (Value.text t) c).0))

  leaf-IsOpen :
      (p : Pipeline) (s : String) (counts : Counts)
      → p.redactors ≡ default tools
      → is_secret tools path ≡ false
      → IsOpen p (leaf p path (Value.text s) counts).0
  unfolding IsOpen leaf run_redactors
  leaf-IsOpen p s counts defaults open_ = elim (values_text s) [
    | inl e ↦
        inr (s, counts, rw defaults (ground (arith, secret_keys-none (Value.text s) open_, e)))
    | inr (t, e) ↦ elim (Bool-cases (is_masked (Value.text t))) [
      | inl m ↦ inl (t, rw defaults (ground (arith, secret_keys-none (Value.text s) open_, e, m)))
      | inr m ↦ inr (
        t,
        (if same_value (Value.text t) (Value.text s)
            then counts
            else record counts { redactions = counts.redactions + 1 }),
        rw defaults (ground (arith, secret_keys-none (Value.text s) open_, e, m)),
      )
    ]
  ]
