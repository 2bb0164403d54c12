-- ===== src/Otlp/Kinds.antt =====
-- The type and the status of a span: `first`, `span_type_for` and `status_for` of mapping.py.
use Prim.Native.String.{String}
use proofstep.Prelude.{
  String, Bool, true, false, not, ◌||◌, Option, none, some, List, [], ◌∷◌, ◌++◌, if◌then◌else◌,
  is_some, any, str_eq, mem_text,
}
use proofstep.Types.Value.{Value, Fields, get_field}
use proofstep.Otlp.Keys.{span_kind_keys, prompt_token_keys, completion_token_keys, tool_name_keys}
use proofstep.Otlp.Coercions.{Tools, starts_with}

-- `value is not None and value != ""`
abbrev pub is_present : Option Value → Bool
is_present none = false
is_present (some Value.null) = false
is_present (some (Value.text s)) = not (str_eq s "")
is_present (some v) = true

unfoldable pub first : Fields → List String → Option Value
first attributes [] = none
first attributes (key ∷ keys) =
    if is_present (get_field key attributes)
    then get_field key attributes
    else first attributes keys

abbrev pub is_in : Fields → String → Bool
is_in attributes key = is_some (get_field key attributes)

-- `_OPENINFERENCE_KINDS.get(key)`
unfoldable pub openinference_kind : String → Option String
openinference_kind key =
    if mem_text key
      ("llm" ∷ "tool" ∷ "retriever" ∷ "embedding" ∷ "agent" ∷ "guardrail" ∷ "evaluator" ∷ [])
    then some key
    else if str_eq key "chain"
    then some "workflow"
    else if str_eq key "reranker"
    then some "retriever"
    else if str_eq key "unknown"
    then some "custom"
    else none

-- `_GENAI_OPERATIONS.get(key)`
unfoldable pub genai_operation : String → Option String
genai_operation key =
    if mem_text key ("chat" ∷ "text_completion" ∷ "generate_content" ∷ [])
    then some "llm"
    else if str_eq key "embeddings"
    then some "embedding"
    else if str_eq key "execute_tool"
    then some "tool"
    else if mem_text key ("invoke_agent" ∷ "create_agent" ∷ [])
    then some "agent"
    else none

abbrev pub either : Option String → Option String → Option String
either (some a) b = some a
either none b = b

abbrev pub or_guess : Option String → String → String
or_guess none guess = guess
or_guess (some kind) guess = kind

-- `name.startswith(("langgraph.", "graph.", "chain."))`
abbrev pub is_workflow : String → Bool
is_workflow name =
    starts_with name "langgraph." || starts_with name "graph." || starts_with name "chain."

unfoldable pub status_for : String → Bool → String
status_for code has_exception =
    if str_eq code "STATUS_CODE_ERROR" then "error" else if has_exception then "error" else "ok"

module _ {D : Type 0} (tools : Tools D) where
  abbrev pub kind_of : Option Value → Option String
  kind_of (some (Value.text s)) =
      let key = tools.lower (tools.strip s) in either (openinference_kind key) (genai_operation key)
  kind_of raw = none

  -- The span type of what has no kind of its own.
  unfoldable pub guessed : Fields → String → String
  guessed attributes span_name =
      if any (is_in attributes) (prompt_token_keys ++ completion_token_keys)
      then "llm"
      else if any (is_in attributes) tool_name_keys
      then "tool"
      else if is_in attributes "embedding.embeddings" || is_in attributes "embedding.model_name"
      then "embedding"
      else if is_in attributes "retrieval.documents"
      then "retriever"
      else if is_workflow (tools.lower (tools.strip span_name))
      then "workflow"
      else "custom"

  unfoldable pub span_type_for : Fields → String → String
  span_type_for attributes span_name =
      or_guess (kind_of (first attributes span_kind_keys)) (guessed attributes span_name)
