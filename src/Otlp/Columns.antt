-- ===== src/Otlp/Columns.antt =====
-- What the columns of a span hold.
use proofstep.Prelude.{
  ℕ, zero, suc, ◌+◌, ◌≤◌, String, ◌≡◌, refl, ◌⊎◌, inl, inr, true, false, Option, none, some, List,
  [], ◌∷◌, arith, leb, Bool-cases, Option-cases, length, str_eq, mem_text,
}
use proofstep.Prelude.{if_both, if_some, codes}
use proofstep.Prelude.Split.{take_text}
use proofstep.Types.Value.{Value, Fields}
use proofstep.Otlp.{MappedSpan, numbers, map_span}
use proofstep.Otlp.Kinds.{
  first, openinference_kind, genai_operation, or_guess, kind_of, guessed, span_type_for,
}
use proofstep.Otlp.Coercions.{Tools, nonempty, text_of, as_str, as_int}
use proofstep.Otlp.Keys.{
  span_kind_keys, prompt_token_keys, completion_token_keys, total_token_keys, model_keys,
  provider_keys, tool_name_keys, session_keys, user_keys,
}
use proofstep.Otlp.Kept.{built_from}

length-take_text : (n : ℕ) (s : String) → length (codes (take_text n s)) ≤ n
unfolding take_text
length-take_text zero s = omega arith
length-take_text (suc n) String.[] = omega arith
length-take_text (suc n) (String.◌∷◌ c s) = ground (arith, length-take_text n s)

-- A text that fits a column, and is not empty.
abbrev pub Fits : ℕ → Option String → Type 0
Fits limit none = Unit {0}
Fits limit (some s) = (length (codes s) ≤ limit) × (str_eq s "" ≡ false)

abbrev pub span_types : List String
span_types =
    "llm" ∷ "workflow" ∷ "tool" ∷ "retriever" ∷ "embedding" ∷ "agent" ∷ "guardrail" ∷ "evaluator"
    ∷ "custom" ∷ []

nonempty-Fits : (limit : ℕ) (s : String) → length (codes s) ≤ limit → Fits limit (nonempty s)
nonempty-Fits limit s h = elim (Bool-cases (str_eq s "")) [ inl e ↦ rw e tt | inr e ↦ rw e (h, e) ]

module _ {D : Type 0} (tools : Tools D) where
  as_str-Fits : (limit : ℕ) (v : Option Value) → Fits limit (as_str tools limit v)
  unfolding as_str
  as_str-Fits limit none = tt
  as_str-Fits limit (some v) =
      nonempty-Fits limit (take_text limit (tools.strip (text_of tools v)))
        (length-take_text limit (tools.strip (text_of tools v)))

IsKnown : String → Type 0
IsKnown kind = mem_text kind span_types ≡ true

knows : (kind : String) → mem_text kind span_types ≡ true → IsKnown kind
unfolding IsKnown
knows kind h = h

own_kind :
    (key : String)
    → mem_text key
        ("llm" ∷ "tool" ∷ "retriever" ∷ "embedding" ∷ "agent" ∷ "guardrail" ∷ "evaluator" ∷ [])
      ≡ true
    → IsKnown key
unfolding IsKnown
own_kind key h = ground arith

openinference_kind-IsKnown : (key kind : String) → openinference_kind key ≡ some kind → IsKnown kind
unfolding openinference_kind
openinference_kind-IsKnown key = if_some IsKnown _ key _ (own_kind key) (
    if_some IsKnown _ "workflow" _ (λ _. knows "workflow" refl)
      (if_some IsKnown _ "retriever" _ (λ _. knows "retriever" refl)
        (if_some IsKnown _ "custom" none (λ _. knows "custom" refl) (λ t h. absurd (cc)))))

genai_operation-IsKnown : (key kind : String) → genai_operation key ≡ some kind → IsKnown kind
unfolding genai_operation
genai_operation-IsKnown key =
    if_some IsKnown _ "llm" _ (λ _. knows "llm" refl)
      (if_some IsKnown _ "embedding" _ (λ _. knows "embedding" refl)
        (if_some IsKnown _ "tool" _ (λ _. knows "tool" refl)
          (if_some IsKnown _ "agent" none (λ _. knows "agent" refl) (λ t h. absurd (cc)))))

or_guess-IsKnown :
    (o : Option String) (guess : String)
    → ((kind : String) → o ≡ some kind → IsKnown kind)
    → IsKnown guess
    → IsKnown (or_guess o guess)
or_guess-IsKnown none guess h k = k
or_guess-IsKnown (some kind) guess h k = h kind refl

module _ {D : Type 0} (tools : Tools D) where
  kind_of-IsKnown :
      (raw : Option Value) (kind : String) → kind_of tools raw ≡ some kind → IsKnown kind
  kind_of-IsKnown (some (Value.text s)) kind h =
      let key = tools.lower (tools.strip s) in
      elim (Option-cases (openinference_kind key)) [
        | inl e ↦ genai_operation-IsKnown key kind (ground (arith, e))
        | inr (own, e) ↦ openinference_kind-IsKnown key kind (ground (arith, e))
      ]
  kind_of-IsKnown none kind h = cc
  kind_of-IsKnown (some v) kind h = ground arith

  guessed-IsKnown : (attributes : Fields) (name : String) → IsKnown (guessed tools attributes name)
  unfolding guessed
  guessed-IsKnown attributes name = if_both IsKnown _ "llm" _ (knows "llm" refl) (
      if_both IsKnown _ "tool" _ (knows "tool" refl) (
        if_both IsKnown _ "embedding" _ (knows "embedding" refl) (
          if_both IsKnown _ "retriever" _ (knows "retriever" refl)
            (if_both IsKnown _ "workflow" "custom" (knows "workflow" refl) (knows "custom" refl)))))

  span_type_for-IsKnown :
      (attributes : Fields) (name : String) → IsKnown (span_type_for tools attributes name)
  unfolding span_type_for
  span_type_for-IsKnown attributes name =
      or_guess-IsKnown (kind_of tools (first attributes span_kind_keys))
        (guessed tools attributes name) (kind_of-IsKnown (first attributes span_kind_keys))
        (guessed-IsKnown attributes name)

  -- The total that a span declares, if it declares one.
  abbrev pub declared : Fields → Option ℕ
  declared attributes = as_int tools (first attributes total_token_keys)

  abbrev IsTotal : Fields → ℕ × ℕ × ℕ → Type 0
  IsTotal attributes (prompt, completion, total) =
      (prompt + completion ≤ total)
      × ((declared attributes ≡ some total) ⊎ (total ≡ prompt + completion))

  numbers-IsTotal :
      (attributes : Fields) (n : ℕ × ℕ × ℕ)
      → numbers tools attributes ≡ some n
      → IsTotal attributes n
  numbers-IsTotal attributes (a, b, c) h =
      elim (Option-cases (as_int tools (first attributes prompt_token_keys))) [
        | inl e ↦ absurd (ground (arith, h, e))
        | inr (prompt, e) ↦
            elim (Option-cases (as_int tools (first attributes completion_token_keys))) [
              | inl f ↦ absurd (ground (arith, h, e, f))
              | inr (completion, f) ↦ elim (Option-cases (declared attributes)) [
                | inl g ↦ absurd (ground (arith, h, e, f, g))
                | inr (total, g) ↦ elim (Bool-cases (leb (prompt + completion) total)) [
                  | inl more ↦ (ground (arith, h, e, f, g), inl (ground (arith, h, e, f, g)))
                  | inr less ↦ (ground (arith, h, e, f, g), inr (ground (arith, h, e, f, g)))
                ]
              ]
            ]
      ]

  -- A span that is mapped fits its columns: its type is one of the nine that the program knows, the
  -- texts are not empty and no longer than their columns, and the total of the tokens is no less than
  -- the prompt and the completion together, and is their sum or the total that the span declares.
  pub map_span-Fits :
      (attributes : Fields) (name : String) (m : MappedSpan D)
      → map_span tools attributes name ≡ some m
      → (mem_text m.span_type span_types ≡ true)
        × Fits 200 m.model
        × Fits 50 m.provider
        × Fits 200 m.tool_name
        × Fits 100 m.session_id
        × Fits 200 m.user_ref
        × (m.prompt_tokens + m.completion_tokens ≤ m.total_tokens)
        × ((declared attributes ≡ some m.total_tokens)
            ⊎ (m.total_tokens ≡ m.prompt_tokens + m.completion_tokens))
  unfolding IsKnown
  map_span-Fits attributes name m h =
      let ((prompt, completion, total), cost, read, e) = built_from tools attributes name m h in
      let (enough, exact) = numbers-IsTotal attributes (prompt, completion, total) read in
      rw (← e) (
        span_type_for-IsKnown attributes name,
        as_str-Fits tools 200 (first attributes model_keys),
        as_str-Fits tools 50 (first attributes provider_keys),
        as_str-Fits tools 200 (first attributes tool_name_keys),
        as_str-Fits tools 100 (first attributes session_keys),
        as_str-Fits tools 200 (first attributes user_keys),
        enough,
        exact,
      )
