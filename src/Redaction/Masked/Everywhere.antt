-- ===== src/Redaction/Masked/Everywhere.antt =====
-- The walk covers what has the name of a secret, at every depth.
use proofstep.Prelude.{
  ℕ, ◌+◌, String, ◌≡◌, refl, ◌≢◌, ◌⊎◌, inl, inr, true, false, Option, none, List, arith, ltb, leb,
  if◌then◌else◌, Bool-cases,
}
use proofstep.Types.Value.{Value, Items, Fields}
use proofstep.Redaction.{Tools, Redactor, max_depth, max_items, secret_values, mask, default}
use proofstep.Redaction.Modes.{CaptureMode, stores_payloads}
use proofstep.Redaction.Walk.{
  Counts, Pipeline, pipeline, redactors_of, run_redactors, sized, leaf, child, element, more_keys,
  more_items, too_deep, walk, walk_items, walk_fields, no_counts, apply,
}
use proofstep.Redaction.Masked.{
  is_secret, Covered, CoveredItems, CoveredFields, KeepsNotes, truncated-is_secret,
  put_field-Covered, too_deep-Covered, sized-Covered, secret_keys-none, run-secret, IsOpen,
  leaf-IsOpen,
}

module _ (tools : Tools) (names : KeepsNotes tools) (p : Pipeline)
    (defaults : p.redactors ≡ default tools) where
  leaf-secret :
      (path : String) (v : Value) (counts : Counts)
      → is_secret tools path ≡ true
      → (leaf p path v counts).0 ≡ mask "secret_key"
  unfolding leaf
  leaf-secret path v counts h = rw defaults (ground (arith, run-secret tools path v counts h))

  -- A text that is not masked by its name.
  text-Covered :
      (path s : String) (counts : Counts) → Covered tools path (leaf p path (Value.text s) counts).0
  unfolding IsOpen
  text-Covered path s counts = elim (Bool-cases (is_secret tools path)) [
    | inl h ↦ rw (leaf-secret path (Value.text s) counts h) (λ _. inl refl)
    | inr h ↦ elim (leaf-IsOpen tools path p s counts defaults h) [
      | inl (t, e) ↦ rw e (λ secret. absurd (ground (arith, h, secret)))
      | inr (t, c, e) ↦ rw e (sized-Covered tools names p.max_field_bytes path t c h)
    ]
  ]

  -- A value that is neither a text nor holds others stays as it is, if its name is open.
  leaf-open :
      (path : String) (v : Value) (counts : Counts)
      → is_secret tools path ≡ false
      → secret_values tools path v ≡ none
      → sized p.max_field_bytes v counts ≡ (v, counts)
      → (leaf p path v counts).0 ≡ v
  unfolding leaf run_redactors
  leaf-open path v counts h free small =
      rw defaults (ground (arith, secret_keys-none tools path v h, free, small))

  scalar-Covered :
      (path : String) (v : Value) (counts : Counts)
      → secret_values tools path v ≡ none
      → sized p.max_field_bytes v counts ≡ (v, counts)
      → Covered tools path (mask "secret_key")
      → (is_secret tools path ≡ false → Covered tools path v)
      → Covered tools path (leaf p path v counts).0
  scalar-Covered path v counts free small masked open_ = elim (Bool-cases (is_secret tools path)) [
    | inl h ↦ rw (leaf-secret path v counts h) masked
    | inr h ↦ rw (leaf-open path v counts h free small) (open_ h)
  ]

  leaf-Covered :
      (path : String) (v : Value) (counts : Counts)
      → ((d : Fields) → v ≢ Value.obj d)
      → ((vs : Items) → v ≢ Value.arr vs)
      → Covered tools path (leaf p path v counts).0
  unfolding secret_values
  leaf-Covered path (Value.obj d) counts h k = absurd (h d refl)
  leaf-Covered path (Value.arr vs) counts h k = absurd (k vs refl)
  leaf-Covered path (Value.text s) counts h k = text-Covered path s counts
  leaf-Covered path Value.null counts h k =
      scalar-Covered path Value.null counts refl refl (λ _. inl refl)
        (λ e secret. absurd (ground (arith, e, secret)))
  leaf-Covered path (Value.flag b) counts h k =
      scalar-Covered path (Value.flag b) counts refl refl (λ _. inl refl)
        (λ e secret. absurd (ground (arith, e, secret)))
  leaf-Covered path (Value.int z) counts h k =
      scalar-Covered path (Value.int z) counts refl refl (λ _. inl refl)
        (λ e secret. absurd (ground (arith, e, secret)))
  leaf-Covered path (Value.moment t) counts h k =
      scalar-Covered path (Value.moment t) counts refl refl (λ _. inl refl)
        (λ e secret. absurd (ground (arith, e, secret)))

  abbrev or_deep : ℕ → Counts → Value × Counts → Value × Counts
  or_deep depth counts result = if ltb max_depth depth then (too_deep, counts) else result

  -- One value of the walk: the rest of it is covered, or it lies too deep.
  deep-Covered :
      (path : String) (depth : ℕ) (counts : Counts) (result : Value × Counts)
      → Covered tools path result.0
      → Covered tools path (or_deep depth counts result).0
  deep-Covered path depth counts result h = elim (Bool-cases (ltb max_depth depth)) [
    | inl e ↦ rw e (too_deep-Covered tools names path)
    | inr e ↦ rw e h
  ]

  more-Covered : (path : String) (n : ℕ) → Covered tools path (more_items tools.str n)
  more-Covered path n = λ h. inr (inr (n, refl))

  keys-Covered :
      (path : String) (n : ℕ)
      → Covered tools (child tools.str path "_truncated") (more_keys tools.str n)
  keys-Covered path n = λ h. absurd (ground (arith, h, truncated-is_secret tools names path))

  mutual
    unfolding walk walk_items walk_fields

    walk-Covered :
        (v : Value) (path : String) (depth : ℕ) (counts : Counts)
        → Covered tools path (walk tools.str p v path depth counts).0
    walk-Covered (Value.obj d) path depth counts =
        deep-Covered path depth counts _ (walk_fields-Covered d path depth 0 Fields.done counts tt)
    walk-Covered (Value.arr vs) path depth counts =
        deep-Covered path depth counts _ (walk_items-Covered vs path depth 0 counts)
    walk-Covered (Value.text s) path depth counts =
        deep-Covered path depth counts _
          (leaf-Covered path (Value.text s) counts (λ d. cc) (λ vs. cc))
    walk-Covered Value.null path depth counts =
        deep-Covered path depth counts _ (leaf-Covered path Value.null counts (λ d. cc) (λ vs. cc))
    walk-Covered (Value.flag b) path depth counts =
        deep-Covered path depth counts _
          (leaf-Covered path (Value.flag b) counts (λ d. cc) (λ vs. cc))
    walk-Covered (Value.int z) path depth counts =
        deep-Covered path depth counts _
          (leaf-Covered path (Value.int z) counts (λ d. cc) (λ vs. cc))
    walk-Covered (Value.moment t) path depth counts =
        deep-Covered path depth counts _
          (leaf-Covered path (Value.moment t) counts (λ d. cc) (λ vs. cc))

    walk_items-Covered :
        (vs : Items) (path : String) (depth i : ℕ) (counts : Counts)
        → CoveredItems tools path i (walk_items tools.str p vs path depth i counts).0
    walk_items-Covered Items.nil path depth i counts = tt
    walk_items-Covered (Items.cons v vs) path depth i counts =
        let first = walk-Covered v (element tools.str path i) (depth + 1) counts in
        let rest =
          walk_items-Covered vs path depth (i + 1)
            (walk tools.str p v (element tools.str path i) (depth + 1) counts).1 in
        elim (Bool-cases (leb max_items i)) [
          | inl e ↦ rw e (more-Covered (element tools.str path i) _, tt)
          | inr e ↦ rw e (first, rest)
        ]

    walk_fields-Covered :
        (d : Fields) (path : String) (depth i : ℕ) (out : Fields) (counts : Counts)
        → CoveredFields tools path out
        → CoveredFields tools path (walk_fields tools.str p d path depth i out counts).0
    walk_fields-Covered Fields.done path depth i out counts h = h
    walk_fields-Covered (Fields.field k v d) path depth i out counts h =
        let first = walk-Covered v (child tools.str path k) (depth + 1) counts in
        let rest =
          walk_fields-Covered d path depth (i + 1) _
            (walk tools.str p v (child tools.str path k) (depth + 1) counts).1
            (put_field-Covered tools names path k _ out first h) in
        elim (Bool-cases (leb max_items i)) [
          | inl e ↦
              rw e (put_field-Covered tools names path "_truncated" _ out (keys-Covered path _) h)
          | inr e ↦ rw e rest
        ]

module _ (tools : Tools) (names : KeepsNotes tools) where
  -- A mode that keeps no payloads stores nothing, however the pipeline is configured. In full, however
  -- it is configured, and in redacted without a configuration, no value at a path whose last name
  -- holds the name of a secret is left, at any depth: there is the mask, or the note of what was cut
  -- off. A value that holds others is not masked by its own name, but walked. A configuration in
  -- redacted replaces the redactors, and secrets under other names are not part of this.
  pub apply-Covered :
      (configured : Option (List Redactor)) (mode : CaptureMode) (limit : ℕ) (v : Value)
      (path : String)
      → (mode ≡ CaptureMode.full) ⊎ (configured ≡ none) ⊎ (stores_payloads mode ≡ false)
      → ((stores_payloads mode ≡ false)
          × (apply tools.str (pipeline tools configured mode limit) v path
              ≡ (Value.null, no_counts)))
        ⊎ ((stores_payloads mode ≡ true)
            × Covered tools path (apply tools.str (pipeline tools configured mode limit) v path).0)
  unfolding apply redactors_of
  apply-Covered configured mode limit v path h = elim (Bool-cases (stores_payloads mode)) [
    | inl e ↦ inr (
      e,
      rw e (
          walk-Covered tools names (pipeline tools configured mode limit)
            (elim h [
              | inl f ↦ rw f refl
              | inr (inl f) ↦ ground (arith, f)
              | inr (inr f) ↦ absurd (ground (arith, e, f))
            ])
            v path 0 no_counts),
    )
    | inr e ↦ inl (e, rw e refl)
  ]
