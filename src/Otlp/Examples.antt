-- ===== src/Otlp/Examples.antt =====
-- A model call that two instrumentations describe.
use proofstep.Prelude.{ℕ, ◌+◌, ◌≤◌, ◌≡◌, refl, ◌⊎◌, true, none, some, if◌then◌else◌, mem_text}
use proofstep.Types.Value.{ℤ, Value, Fields, get_field}
use proofstep.Otlp.{MappedSpan, map_span}
use proofstep.Otlp.Coercions.{Tools, Parsed, Amount}
use proofstep.Otlp.Kept.{is_promoted, attributes-map_span}
use proofstep.Otlp.Columns.{Fits, span_types, declared, map_span-Fits}

abbrev parsed : Value → Parsed
parsed (Value.int z) = Parsed.number z
parsed v = Parsed.refused

abbrev tools : Tools ℕ
tools = record {
  show = λ v. "";
  strip = λ s. s;
  lower = λ s. s;
  to_int = parsed;
  to_decimal = λ v. Amount.unreadable;
  loads = λ s. none;
}

abbrev call : Fields
call = Fields.field "gen_ai.request.model" (Value.text "small") (
    Fields.field "llm.model_name" (Value.text "large") (
      Fields.field "llm.token_count.prompt" (Value.int (ℤ.pos 3)) (
        Fields.field "llm.token_count.completion" (Value.int (ℤ.pos 4))
          (Fields.field "retry" (Value.int (ℤ.pos 2)) Fields.done))))

abbrev mapped : MappedSpan ℕ
mapped = record {
  span_type = "llm";
  model = some "large";
  provider = none;
  prompt_tokens = 3;
  completion_tokens = 4;
  total_tokens = 7;
  cost = none;
  tool_name = none;
  tool_args = none;
  input = none;
  output = none;
  session_id = none;
  user_ref = none;
  attributes = Fields.field "retry" (Value.int (ℤ.pos 2)) Fields.done;
}

map_span-call : map_span tools call "chat" ≡ some mapped
unfolding map_span proofstep.Otlp.Coercions.as_int proofstep.Otlp.Kinds.first get_field
    proofstep.Otlp.Coercions.as_decimal proofstep.Otlp.Kinds.span_type_for
    proofstep.Otlp.Coercions.as_str proofstep.Otlp.Coercions.as_object
    proofstep.Otlp.Coercions.decode_payload proofstep.Otlp.without proofstep.Otlp.Kinds.guessed
    proofstep.Prelude.Split.take_text proofstep.Otlp.consumed proofstep.Otlp.used_all
    proofstep.Otlp.groups proofstep.Otlp.used
map_span-call = refl

attributes-map_span_example :
    get_field "retry" mapped.attributes
    ≡ (if is_promoted call "retry" mapped.span_type then none else get_field "retry" call)
attributes-map_span_example = attributes-map_span tools call "chat" "retry" mapped map_span-call

map_span-Fits_example :
    (mem_text mapped.span_type span_types ≡ true)
    × Fits 200 mapped.model
    × Fits 50 mapped.provider
    × Fits 200 mapped.tool_name
    × Fits 100 mapped.session_id
    × Fits 200 mapped.user_ref
    × (mapped.prompt_tokens + mapped.completion_tokens ≤ mapped.total_tokens)
    × ((declared tools call ≡ some mapped.total_tokens)
        ⊎ (mapped.total_tokens ≡ mapped.prompt_tokens + mapped.completion_tokens))
map_span-Fits_example = map_span-Fits tools call "chat" mapped map_span-call
