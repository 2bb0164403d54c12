-- ===== src/Security/Cursors/Signed.antt =====
-- What a cursor carries, and which cursors are accepted.
use Prim.Native.Nat.{◌%◌}
use Prim.Native.String.{◌++◌ as append_text}
use text.Mathlib.TextLemmas.{nil-append, cons-append}
use proofstep.Prelude.{
  ℕ, zero, suc, ◌+◌, ◌<◌, String, ◌≡◌, refl, sym, ap, ◌∙◌, ◌↔◌, inl, inr, false, some, List, arith,
  Bool-cases, Option-cases, length,
}
use proofstep.Prelude.{codes, same_numbers, same_numbers_refl, same_numbers-eq}
use proofstep.Prelude.Split.{has_char, split_once, join_by, split_once-join_by, split_once_inv}
use proofstep.Types.Value.{Value, Fields}
use proofstep.Security.Cursors.{
  Loaded, Library, Decoded, dot, equals, strip_padding, padding, missing, payload_of, b64, unb64,
  encode, parts_of, decode,
}

strip_padding-padding : (n : ℕ) → strip_padding (padding n) ≡ ""
unfolding strip_padding padding
strip_padding-padding zero = refl
strip_padding-padding (suc n) = rw (strip_padding-padding n)

-- Stripping takes the padding off, and nothing else.
strip_padding-append :
    (s : String) (n : ℕ) → has_char equals s ≡ false → strip_padding (append_text s (padding n)) ≡ s
unfolding strip_padding
strip_padding-append String.[] n h = rw nil-append (strip_padding-padding n)
strip_padding-append (String.◌∷◌ c s) n h =
    rw (cons-append c s (padding n)) (ground (arith, strip_padding-append s n))

length-padding : (n : ℕ) → length (codes (padding n)) ≡ n
unfolding padding
length-padding zero = refl
length-padding (suc n) = ground (arith, length-padding n)

length-append_padding :
    (s : String) (n : ℕ) → length (codes (append_text s (padding n))) ≡ length (codes s) + n
unfolding padding
length-append_padding String.[] n = rw (nil-append (padding n)) (omega (arith, length-padding n))
length-append_padding (String.◌∷◌ c s) n =
    rw (cons-append c s (padding n)) (ground (arith, length-append_padding s n))

-- What base64 promises: whole groups of four, whose last may end in one or two signs of padding, with
-- an alphabet that has neither the sign nor the dot. `plain` is a payload as JSON prints it, where
-- a moment is a text.
pub record Conforms (lib : Library) (plain : Fields → Fields) : Type 0 where
  pub b64decode-b64encode : (raw : List ℕ) → lib.b64decode (lib.b64encode raw) ≡ some raw
  pub groups :
      (raw : List ℕ)
      → (s : String) × (n : ℕ) × (lib.b64encode raw ≡ append_text s (padding n))
        × (n < 3)
        × ((length (codes s) + n) % 4 ≡ 0)
        × (has_char equals s ≡ false)
        × (has_char dot s ≡ false)
  pub loads-dumps : (d : Fields) → lib.loads (lib.dumps d) ≡ Loaded.loaded (Value.obj (plain d))

module _ {lib : Library} {plain : Fields → Fields} (conforms : Conforms lib plain) where
  unb64-b64 :
      (raw : List ℕ) → (unb64 lib (b64 lib raw) ≡ some raw) × (has_char dot (b64 lib raw) ≡ false)
  unfolding unb64 b64
  unb64-b64 raw =
      let (s, n, e, few, whole, free, dotless) = conforms.groups raw in
      let stripped : strip_padding (lib.b64encode raw) ≡ s = rw e (strip_padding-append s n free) in
      let again : missing (length (codes s)) ≡ n = omega arith in
      (
        ap (λ t. lib.b64decode (append_text t (padding (missing (length (codes t)))))) stripped
            ∙ ap (λ k. lib.b64decode (append_text s (padding k))) again
            ∙ ap lib.b64decode (sym e)
            ∙ conforms.b64decode-b64encode raw,
        ap (has_char dot) stripped ∙ dotless,
      )

  parts_of-encode :
      (payload : Fields) (secret : String)
      → parts_of lib (encode lib payload secret)
        ≡ some (lib.dumps payload, lib.hmac secret (lib.dumps payload))
  unfolding parts_of encode
  parts_of-encode payload secret =
      let (body, dotless) = unb64-b64 (lib.dumps payload) in
      let (signature, _) = unb64-b64 (lib.hmac secret (lib.dumps payload)) in
      ground (
        arith,
        split_once-join_by dot (b64 lib (lib.dumps payload))
            (b64 lib (lib.hmac secret (lib.dumps payload))) dotless,
        body,
        signature,
      )

  -- A cursor carries its payload: where base64 and JSON keep their promises, decoding what was encoded
  -- with the same secret returns the payload, as JSON prints it.
  pub decode-encode :
      (payload : Fields) (secret : String)
      → decode lib (encode lib payload secret) secret ≡ Decoded.decoded (plain payload)
  unfolding decode
  decode-encode payload secret = ground (
    arith,
    parts_of-encode payload secret,
    same_numbers_refl (lib.hmac secret (lib.dumps payload)),
    conforms.loads-dumps payload,
  )

payload_of_inv :
    (l : Loaded) (d : Fields) → payload_of l ≡ Decoded.decoded d → l ≡ Loaded.loaded (Value.obj d)
payload_of_inv Loaded.not_json d h = cc
payload_of_inv Loaded.not_utf8 d h = cc
payload_of_inv (Loaded.loaded v) d h = ground arith

module _ (lib : Library) where
  accepted :
      (cursor secret : String) (d : Fields)
      → decode lib cursor secret ≡ Decoded.decoded d
      → (raw : List ℕ) × (parts_of lib cursor ≡ some (raw, lib.hmac secret raw))
        × (lib.loads raw ≡ Loaded.loaded (Value.obj d))
  unfolding decode
  accepted cursor secret d h = elim (Option-cases (parts_of lib cursor)) [
    | inl e ↦ absurd (ground (arith, e))
    | inr ((raw, signed), e) ↦ elim (Bool-cases (same_numbers signed (lib.hmac secret raw))) [
      | inl same ↦ (
        raw,
        ground (arith, e, same_numbers-eq signed (lib.hmac secret raw) same),
        payload_of_inv (lib.loads raw) d (ground (arith, e)),
      )
      | inr other ↦ absurd (ground (arith, e))
    ]
  ]

  -- The bytes that one part of a cursor spells, with its padding put back.
  abbrev pub Spells : String → List ℕ → Type 0
  Spells part raw =
      (n : ℕ) × (n < 4)
      × ((length (codes part) + n) % 4 ≡ 0)
      × (lib.b64decode (append_text part (padding n)) ≡ some raw)

  unb64_iff : (part : String) (raw : List ℕ) → (unb64 lib part ≡ some raw) ↔ Spells part raw
  unfolding unb64
  unb64_iff part raw = (
    λ h. (missing (length (codes part)), omega arith, omega arith, h),
    λ (n, few, whole, e).
        let same : missing (length (codes part)) ≡ n = omega arith in
        ap (λ k. lib.b64decode (append_text part (padding k))) same ∙ e,
  )

  -- The two parts of a cursor are what the first dot separates.
  abbrev pub Parts : String → List ℕ → List ℕ → Type 0
  Parts cursor raw signed =
      (body signature : String) × (cursor ≡ join_by dot body signature)
      × (has_char dot body ≡ false)
      × Spells body raw
      × Spells signature signed

  parts_of_inv :
      (cursor : String) (raw signed : List ℕ)
      → parts_of lib cursor ≡ some (raw, signed)
      → Parts cursor raw signed
  unfolding parts_of
  parts_of_inv cursor raw signed h = elim (Option-cases (split_once dot cursor)) [
    | inl e ↦ absurd (ground (arith, e))
    | inr ((body, signature), e) ↦ elim (Option-cases (unb64 lib body)) [
      | inl f ↦ absurd (ground (arith, e, f))
      | inr (r, f) ↦ elim (Option-cases (unb64 lib signature)) [
        | inl g ↦ absurd (ground (arith, e, f, g))
        | inr (t, g) ↦
            let (joined, free) = split_once_inv dot cursor body signature e in
            (
              body,
              signature,
              joined,
              free,
              (unb64_iff body raw).0 (ground (arith, h, e, f, g)),
              (unb64_iff signature signed).0 (ground (arith, h, e, f, g)),
            )
      ]
    ]
  ]

  parts_of_lem :
      (cursor : String) (raw signed : List ℕ)
      → Parts cursor raw signed
      → parts_of lib cursor ≡ some (raw, signed)
  unfolding parts_of
  parts_of_lem cursor raw signed (body, signature, joined, free, spelled, signs) =
      let two : split_once dot cursor ≡ some (body, signature) =
        rw joined (split_once-join_by dot body signature free) in
      ground (arith, two, (unb64_iff body raw).1 spelled, (unb64_iff signature signed).1 signs)

  -- Only a signed cursor is accepted: a text is decoded exactly when it is two parts that its first
  -- dot separates, of which the first, with its padding put back, decodes from base64 to a body, and
  -- the second to the signature of that body under the secret, where the body is a JSON object; and
  -- then that object is returned.
  pub decode_iff :
      (cursor secret : String) (d : Fields)
      → (decode lib cursor secret ≡ Decoded.decoded d) ↔ (
          (raw : List ℕ) × Parts cursor raw (lib.hmac secret raw)
          × (lib.loads raw ≡ Loaded.loaded (Value.obj d)))
  unfolding decode
  decode_iff cursor secret d = (
    λ h.
        let (raw, e, f) = accepted cursor secret d h in
        (raw, parts_of_inv cursor raw (lib.hmac secret raw) e, f),
    λ (raw, parts, f).
        let e = parts_of_lem cursor raw (lib.hmac secret raw) parts in
        ground (arith, e, f, same_numbers_refl (lib.hmac secret raw)),
  )
