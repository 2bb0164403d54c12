-- ===== src/Redaction/Walk.antt =====
-- `RedactionPipeline`: the walk over a value.
use Prim.Native.String.{◌++◌ as append_text, len}
use proofstep.Prelude.{
  ℕ, suc, ◌+◌, String, Bool, true, false, Option, none, some, List, [], ◌∷◌, ltb, leb,
  if◌then◌else◌, is_some, str_eq,
}
use proofstep.Prelude.{strip_prefix}
use proofstep.Prelude.Split.{take_text}
use proofstep.Types.Value.{ℤ, Value, Items, Fields, put_field, same_value}
use proofstep.Redaction.{Tools, Redactor, max_depth, max_items, default}
use proofstep.Redaction.Modes.{CaptureMode, stores_payloads}

-- What `apply` counts.
pub record Counts : Type 0 where
  pub redactions : ℕ
  pub truncated : ℕ

-- The pipeline: the configured redactors do not matter in the mode `full`.
pub record Pipeline : Type 0 where
  pub capture_mode : CaptureMode
  pub max_field_bytes : ℕ
  pub redactors : List Redactor

abbrev pub or_default : Tools → Option (List Redactor) → List Redactor
or_default tools none = default tools
or_default tools (some redactors) = redactors

unfoldable pub redactors_of : Tools → CaptureMode → Option (List Redactor) → List Redactor
redactors_of tools CaptureMode.full configured = default tools
redactors_of tools mode configured = or_default tools configured

abbrev pub pipeline : Tools → Option (List Redactor) → CaptureMode → ℕ → Pipeline
pipeline tools configured mode max_field_bytes = record {
  capture_mode = mode;
  max_field_bytes = max_field_bytes;
  redactors = redactors_of tools mode configured;
}

abbrev pub is_masked : Value → Bool
is_masked (Value.text s) = is_some (strip_prefix "[REDACTED:" s)
is_masked value = false

-- A value, and whether it is final: a mask ends the pipeline.
unfoldable pub run_redactors : List Redactor → String → Value → Counts → Bool × Value × Counts
run_redactors [] path value counts = (false, value, counts)
run_redactors (redactor ∷ rest) path value counts = elim (redactor path value) [
  | none ↦ run_redactors rest path value counts
  | some result ↦
      let counted =
        if same_value result value
        then counts
        else record counts { redactions = counts.redactions + 1 } in
      elim (is_masked result) [
        | true ↦ (true, result, counted)
        | false ↦ run_redactors rest path result counted
      ]
]

-- What stands for a text that is too large.
abbrev pub preview : String → Value
preview s = Value.obj (
    Fields.field "_truncated" (Value.flag true) (
      Fields.field "_original_bytes" (Value.int (ℤ.pos (len s)))
        (Fields.field "_preview" (Value.text (take_text 512 s)) Fields.done)))

abbrev pub sized : ℕ → Value → Counts → Value × Counts
sized max_field_bytes (Value.text s) counts =
    if ltb max_field_bytes (len s)
    then (preview s, record counts { truncated = counts.truncated + 1 })
    else (Value.text s, counts)
sized max_field_bytes value counts = (value, counts)

unfoldable pub leaf : Pipeline → String → Value → Counts → Value × Counts
leaf p path value counts =
    let (final, result, counted) = run_redactors p.redactors path value counts in
    if final then (result, counted) else sized p.max_field_bytes result counted

-- The lengths of a list and of a dictionary.
unfoldable pub length_items : Items → ℕ
length_items Items.nil = 0
length_items (Items.cons v vs) = suc (length_items vs)

unfoldable pub length_fields : Fields → ℕ
length_fields Fields.done = 0
length_fields (Fields.field k v d) = suc (length_fields d)

abbrev pub no_counts : Counts
no_counts = record { redactions = 0; truncated = 0 }

module _ (str : ℕ → String) where
  abbrev pub child : String → String → String
  child path key = if str_eq path "" then key else append_text path (append_text "." key)

  abbrev pub element : String → ℕ → String
  element path i = append_text path (append_text "[" (append_text (str i) "]"))

  abbrev pub more_keys : ℕ → Value
  more_keys n = Value.text (append_text (str n) " more keys")

  abbrev pub more_items : ℕ → Value
  more_items n = Value.text (append_text "[TRUNCATED:" (append_text (str n) " more items]"))

abbrev pub too_deep : Value
too_deep = Value.text "[TRUNCATED:depth]"

module _ (str : ℕ → String) (p : Pipeline) where
  -- `depth` is that of the value itself, `i` the number of entries or elements before it. `out` is the
  -- dictionary so far.
  unfoldable mutual
    pub walk : Value → String → ℕ → Counts → Value × Counts
    walk (Value.obj d) path depth counts =
        let (out, counted) = walk_fields d path depth 0 Fields.done counts in
        if ltb max_depth depth then (too_deep, counts) else (Value.obj out, counted)
    walk (Value.arr vs) path depth counts =
        let (out, counted) = walk_items vs path depth 0 counts in
        if ltb max_depth depth then (too_deep, counts) else (Value.arr out, counted)
    walk value path depth counts =
        if ltb max_depth depth then (too_deep, counts) else leaf p path value counts

    pub walk_items : Items → String → ℕ → ℕ → Counts → Items × Counts
    walk_items Items.nil path depth i counts = (Items.nil, counts)
    walk_items (Items.cons v vs) path depth i counts =
        let (first, counted) = walk v (element str path i) (depth + 1) counts in
        let (rest, total) = walk_items vs path depth (i + 1) counted in
        if leb max_items i
        then (Items.cons (more_items str (length_items (Items.cons v vs))) Items.nil, counts)
        else (Items.cons first rest, total)

    pub walk_fields : Fields → String → ℕ → ℕ → Fields → Counts → Fields × Counts
    walk_fields Fields.done path depth i out counts = (out, counts)
    walk_fields (Fields.field k v d) path depth i out counts =
        let (first, counted) = walk v (child str path k) (depth + 1) counts in
        let (rest, total) = walk_fields d path depth (i + 1) (put_field k first out) counted in
        if leb max_items i
        then (
          put_field "_truncated" (more_keys str (length_fields (Fields.field k v d))) out,
          counts,
        )
        else (rest, total)

  unfoldable pub apply : Value → String → Value × Counts
  apply value path =
      if stores_payloads p.capture_mode
      then walk value path 0 no_counts
      else (Value.null, no_counts)
