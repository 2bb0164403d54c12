-- ===== src/Otlp/Keys.antt =====
-- The names of the attributes, in groups: the first that is present wins.
use proofstep.Prelude.{String, List, [], ◌∷◌}

abbrev pub span_kind_keys : List String
span_kind_keys = "openinference.span.kind" ∷ "gen_ai.operation.name" ∷ "traceloop.span.kind" ∷ []

abbrev pub model_keys : List String
model_keys =
    "llm.model_name" ∷ "gen_ai.response.model" ∷ "gen_ai.request.model"
    ∷ "llm.invocation_parameters.model" ∷ "embedding.model_name" ∷ []

abbrev pub provider_keys : List String
provider_keys = "llm.provider" ∷ "gen_ai.system" ∷ "gen_ai.provider.name" ∷ "llm.system" ∷ []

abbrev pub prompt_token_keys : List String
prompt_token_keys =
    "llm.token_count.prompt" ∷ "gen_ai.usage.input_tokens" ∷ "gen_ai.usage.prompt_tokens" ∷ []

abbrev pub completion_token_keys : List String
completion_token_keys =
    "llm.token_count.completion" ∷ "gen_ai.usage.output_tokens" ∷ "gen_ai.usage.completion_tokens"
    ∷ []

abbrev pub total_token_keys : List String
total_token_keys = "llm.token_count.total" ∷ []

abbrev pub cost_keys : List String
cost_keys = "llm.cost.total" ∷ "gen_ai.usage.cost" ∷ "llm.cost" ∷ []

abbrev pub input_keys : List String
input_keys = "input.value" ∷ "gen_ai.prompt" ∷ "llm.input_messages" ∷ "traceloop.entity.input" ∷ []

abbrev pub output_keys : List String
output_keys =
    "output.value" ∷ "gen_ai.completion" ∷ "llm.output_messages" ∷ "traceloop.entity.output" ∷ []

abbrev pub input_mime_keys : List String
input_mime_keys = "input.mime_type" ∷ []

abbrev pub output_mime_keys : List String
output_mime_keys = "output.mime_type" ∷ []

abbrev pub tool_name_keys : List String
tool_name_keys = "tool.name" ∷ "gen_ai.tool.name" ∷ "tool_name" ∷ []

abbrev pub tool_args_keys : List String
tool_args_keys = "tool.parameters" ∷ "gen_ai.tool.arguments" ∷ "input.value" ∷ []

-- `TOOL_ARGS_KEYS[:-1]`
abbrev pub own_args_keys : List String
own_args_keys = "tool.parameters" ∷ "gen_ai.tool.arguments" ∷ []

abbrev pub session_keys : List String
session_keys = "session.id" ∷ "openinference.session.id" ∷ "gen_ai.conversation.id" ∷ []

abbrev pub user_keys : List String
user_keys = "user.id" ∷ "openinference.user.id" ∷ "enduser.id" ∷ []

abbrev pub environment_keys : List String
environment_keys = "deployment.environment.name" ∷ "deployment.environment" ∷ "env" ∷ []

abbrev pub git_commit_keys : List String
git_commit_keys = "vcs.repository.ref.revision" ∷ "git.commit" ∷ "git.sha" ∷ "service.version" ∷ []
