-- ===== src/Otlp/Kept.antt =====
-- What becomes of each attribute.
use proofstep.Prelude.{
  ℕ, String, ◌≡◌, ap, inl, inr, Bool, ◌&&◌, ◌||◌, Option, none, some, List, [], ◌∷◌, ◌++◌, arith,
  if◌then◌else◌, Option-cases, is_some, any, filter, str_eq, str_eq_iff, mem_text,
}
use proofstep.Prelude.{any-append}
use proofstep.Types.Value.{Fields, get_field}
use proofstep.Otlp.Keys.{cost_keys, input_mime_keys, output_mime_keys}
use proofstep.Otlp.{MappedSpan, used, without, groups, used_all, consumed, numbers, map_span, built}
use proofstep.Otlp.Kinds.{first, is_in, span_type_for}
use proofstep.Otlp.Coercions.{Tools, as_decimal}

get_field-without :
    (k : String) (names : List String) (d : Fields)
    → get_field k (without names d) ≡ (if mem_text k names then none else get_field k d)
unfolding get_field without
get_field-without k names Fields.done = ground arith
get_field-without k names (Fields.field j v d) = ground (
  arith,
  str_eq_iff j k,
  get_field-without k names d,
  λ (e : j ≡ k). ap (λ x. mem_text x names) e,
)

module _ (attributes : Fields) (k : String) where
  mem-filter :
      (keys : List String)
      → mem_text k (filter (is_in attributes) keys) ≡ (is_in attributes k && mem_text k keys)
  mem-filter [] = ground arith
  mem-filter (j ∷ keys) =
      ground (arith, str_eq_iff j k, mem-filter keys, λ (e : j ≡ k). ap (is_in attributes) e)

  -- A group that has a value takes the key.
  abbrev pub takes : List String → Bool
  takes keys = mem_text k keys && is_some (first attributes keys)

  mem-used :
      (keys : List String) → mem_text k (used attributes keys) ≡ (is_in attributes k && takes keys)
  unfolding used
  mem-used keys = ground (arith, mem-filter keys)

  mem-used_all :
      (keys : List (List String))
      → mem_text k (used_all attributes keys) ≡ (is_in attributes k && any takes keys)
  unfolding used_all
  mem-used_all [] = ground arith
  mem-used_all (g ∷ keys) = ground (
    arith,
    any-append (λ x. str_eq x k) (used attributes g) (used_all attributes keys),
    mem-used g,
    mem-used_all keys,
  )

  -- The key is promoted: a group that has a value takes it, or it is a MIME type.
  abbrev pub is_promoted : String → Bool
  is_promoted span_type =
      any takes (groups span_type) || mem_text k (input_mime_keys ++ output_mime_keys)

  mem-consumed :
      (span_type : String)
      → mem_text k (consumed attributes span_type) ≡ (is_in attributes k && is_promoted span_type)
  unfolding consumed
  mem-consumed span_type = ground (
    arith,
    any-append (λ x. str_eq x k) (used_all attributes (groups span_type))
        (filter (is_in attributes) (input_mime_keys ++ output_mime_keys)),
    mem-used_all (groups span_type),
    mem-filter (input_mime_keys ++ output_mime_keys),
  )

  left :
      (names : List String) (promoted : Bool)
      → mem_text k names ≡ (is_in attributes k && promoted)
      → get_field k (without names attributes) ≡ (if promoted then none else get_field k attributes)
  left names promoted same = elim (Option-cases (get_field k attributes)) [
    | inl e ↦ ground (arith, e, get_field-without k names attributes)
    | inr (v, e) ↦ ground (arith, e, get_field-without k names attributes)
  ]

-- What `map_span` returns, if it returns.
pub built_from :
    {D : Type 0} (tools : Tools D) (attributes : Fields) (name : String) (m : MappedSpan D)
    → map_span tools attributes name ≡ some m
    → (n : ℕ × ℕ × ℕ) × (cost : Option D) × (numbers tools attributes ≡ some n)
      × (built tools attributes (span_type_for tools attributes name) n cost ≡ m)
unfolding map_span
built_from tools attributes name m h = elim (Option-cases (numbers tools attributes)) [
  | inl e ↦ absurd (ground (arith, e))
  | inr (n, e) ↦ elim (Option-cases (as_decimal tools (first attributes cost_keys))) [
    | inl f ↦ absurd (ground (arith, e, f))
    | inr (cost, f) ↦ (n, cost, e, ground (arith, e, f))
  ]
]

-- What is no part of a column is kept: each attribute stays as it is, unless it belongs to a group
-- of names of which one has a value, or is a MIME type; the other attributes of such a group are
-- dropped, whatever their values.
pub attributes-map_span :
    {D : Type 0} (tools : Tools D) (attributes : Fields) (name k : String) (m : MappedSpan D)
    → map_span tools attributes name ≡ some m
    → get_field k m.attributes
      ≡ (if is_promoted attributes k m.span_type then none else get_field k attributes)
attributes-map_span tools attributes name k m h =
    let (n, cost, _, e) = built_from tools attributes name m h in
    rw (← e) (
      left attributes k (consumed attributes (span_type_for tools attributes name))
        (is_promoted attributes k (span_type_for tools attributes name))
        (mem-consumed attributes k (span_type_for tools attributes name)))
