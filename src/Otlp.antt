-- ===== src/Otlp.antt =====
-- OpenTelemetry attributes to the fields of a span: apps/api/src/proofstep_api/otlp/mapping.py.
use Prim.Native.String.{String}
use proofstep.Prelude.{
  ℕ, ◌+◌, String, Option, none, some, List, [], ◌∷◌, ◌++◌, leb, if◌then◌else◌, is_some, filter,
  str_eq, mem_text,
}
use proofstep.Types.Value.{Value, Fields, get_field}
pub mod Keys
pub mod Kept
pub mod Columns
pub mod Coercions
pub mod Kinds
pub mod Examples
use proofstep.Otlp.Keys.{
  model_keys, provider_keys, prompt_token_keys, completion_token_keys, total_token_keys, cost_keys,
  input_keys, output_keys, input_mime_keys, output_mime_keys, tool_name_keys, tool_args_keys,
  own_args_keys, session_keys, user_keys, environment_keys, git_commit_keys,
}
use Coercions.{Tools, as_decimal, as_int, as_object, as_str, decode_payload}
use Kinds.{first, is_in, span_type_for}

pub record MappedSpan (D : Type 0) : Type 0 where
  pub span_type : String
  pub model : Option String
  pub provider : Option String
  pub prompt_tokens : ℕ
  pub completion_tokens : ℕ
  pub total_tokens : ℕ
  pub cost : Option D
  pub tool_name : Option String
  pub tool_args : Option Fields
  pub input : Option Value
  pub output : Option Value
  pub session_id : Option String
  pub user_ref : Option String
  pub attributes : Fields

-- What `take` adds to the consumed keys: all of the group that are there, if one has a value.
unfoldable pub used : Fields → List String → List String
used attributes keys =
    if is_some (first attributes keys) then filter (is_in attributes) keys else []

-- `{k: v for k, v in attributes.items() if k not in consumed}`
unfoldable pub without : List String → Fields → Fields
without consumed Fields.done = Fields.done
without consumed (Fields.field k v d) =
    let rest = without consumed d in if mem_text k consumed then rest else Fields.field k v rest

abbrev pub args_keys : String → List String
args_keys span_type = if str_eq span_type "tool" then tool_args_keys else own_args_keys

-- The groups that `map_span` takes.
unfoldable pub groups : String → List (List String)
groups span_type =
    model_keys
    ∷ provider_keys
    ∷ session_keys
    ∷ user_keys
    ∷ prompt_token_keys
    ∷ completion_token_keys
    ∷ total_token_keys
    ∷ cost_keys
    ∷ tool_name_keys
    ∷ args_keys span_type
    ∷ input_keys
    ∷ output_keys
    ∷ []

unfoldable pub used_all : Fields → List (List String) → List String
used_all attributes [] = []
used_all attributes (keys ∷ rest) = used attributes keys ++ used_all attributes rest

unfoldable pub consumed : Fields → String → List String
consumed attributes span_type =
    used_all attributes (groups span_type)
    ++ filter (is_in attributes) (input_mime_keys ++ output_mime_keys)

module _ {D : Type 0} (tools : Tools D) where
  infixl 5 ◌>>=◌
  abbrev ◌>>=◌ : {A B : Type 0} → Option A → (A → Option B) → Option B
  none >>= f = none
  some a >>= f = f a

  -- The numbers of a span, with the total: the declared one if it is no less than the parts.
  abbrev pub numbers : Fields → Option (ℕ × ℕ × ℕ)
  numbers attributes = as_int tools (first attributes prompt_token_keys) >>= λ prompt.
      as_int tools (first attributes completion_token_keys) >>= λ completion.
      as_int tools (first attributes total_token_keys) >>= λ declared. some (
        prompt,
        completion,
        if leb (prompt + completion) declared then declared else prompt + completion,
      )

  abbrev pub built : Fields → String → ℕ × ℕ × ℕ → Option D → MappedSpan D
  built attributes span_type (prompt, completion, total) cost =
      let mapped : MappedSpan D = record {
        span_type = span_type;
        model = as_str tools 200 (first attributes model_keys);
        provider = as_str tools 50 (first attributes provider_keys);
        prompt_tokens = prompt;
        completion_tokens = completion;
        total_tokens = total;
        cost = cost;
        tool_name = as_str tools 200 (first attributes tool_name_keys);
        tool_args = as_object tools (first attributes (args_keys span_type));
        input =
            decode_payload tools (first attributes input_keys) (first attributes input_mime_keys);
        output =
            decode_payload tools (first attributes output_keys) (first attributes output_mime_keys);
        session_id = as_str tools 100 (first attributes session_keys);
        user_ref = as_str tools 200 (first attributes user_keys);
        attributes = without (consumed attributes span_type) attributes;
      } in
      mapped

  -- `none` is an exception.
  unfoldable pub map_span : Fields → String → Option (MappedSpan D)
  map_span attributes span_name = elim (numbers attributes) [
    | none ↦ none
    | some n ↦ elim (as_decimal tools (first attributes cost_keys)) [
      | none ↦ none
      | some cost ↦ some (built attributes (span_type_for tools attributes span_name) n cost)
    ]
  ]

  -- `trace_fields`: the name of the service, the environment and the commit.
  unfoldable pub trace_fields : Fields → Option String × Option String × Option String
  trace_fields resource = (
    as_str tools 200 (get_field "service.name" resource),
    as_str tools 50 (first resource environment_keys),
    as_str tools 64 (first resource git_commit_keys),
  )
