-- ===== src/Http/Responses/Handler.antt =====
-- src/http/openai-responses.ts: the handler of `/v1/responses` up to the run of the provider.
use Prim.Native.String.{String}
use cmm_routers.Prelude.{
  Bool, true, Option, none, some, List, [], ◌∷◌, ◌++◌, string_eq, ◌==◌, if◌then◌else◌,
}
use cmm_routers.Core.Json.{
  Json, null, str, obj, arr, Items, nil, cons, Fields, end, field, prop, as_record, as_number,
  is_bool,
}
use cmm_routers.Core.Errors.{Result, RouterError}
use cmm_routers.Core.Profile.{RouterProfile, ProviderCapability}
use cmm_routers.Core.Model.{
  ProviderId, DiscoveredModel, RouterRequest, RouterMessage, RouterFunctionTool, system,
  ReasoningEffort, NormalizedToolChoice,
}
use cmm_routers.Core.RequestControls.{
  openai_unsupported_semantic_controls, openai_responses_rejected_controls,
  reject_unsupported_controls, unsupported_request_control_error,
}
use cmm_routers.Core.ToolResultBound.{assert_tool_results_within_bound}
use cmm_routers.Core.ToolPolicy.{parse_responses_tool_choice}
use cmm_routers.Core.ToolAccess.Types.{ToolAccessConfig}
use cmm_routers.Http.Reply.{
  http_error, mapped, Step, send, next, ◌>>=◌, ◌>>◌, or_send, or_mapped, unless_error, optional,
  optional_bool, filled_string,
}
use cmm_routers.Http.Admit.{ParsedBody, transport_capability, route, admit}
use cmm_routers.Http.Anthropic.Blocks.{message_with}
use cmm_routers.Http.Chat.Messages.{parse_reasoning_effort}
use cmm_routers.Http.Chat.History.{reject_chat_only_tools}
use cmm_routers.Http.Chat.Handler.{bad_request}
use cmm_routers.Http.Responses.Input.{input_to_messages}
use cmm_routers.Http.Responses.Tools.{
  parse_response_tools, normalize_response_input_additional_tools,
}

-- the error of the Chat-shaped alias, which names the control that is meant
abbrev pub alias_error : Option RouterError → Option RouterError
unfolding unsupported_request_control_error
alias_error none = none
alias_error (some e) = some (
    unsupported_request_control_error "max_tokens" "The Responses surface"
      (some "use 'max_output_tokens'"))

-- `body.instructions`: absent or `null`, or a text
unfoldable pub parse_instructions : Option Json → Step (Option String)
parse_instructions none = next none
parse_instructions (some null) = next none
parse_instructions (some (str s)) = next (some s)
parse_instructions _ = send (bad_request "instructions must be a string or null")

-- `body.reasoning`: absent or `null`, or an object
unfoldable pub parse_reasoning : Option Json → Step (Option Json)
parse_reasoning none = next none
parse_reasoning (some null) = next none
parse_reasoning (some v) = elim (as_record (some v)) [
  | none ↦ send (bad_request "reasoning must be an object")
  | some reasoning ↦ next (prop reasoning "effort")
]

abbrev pub description_field : Option String → Fields → Fields
description_field none rest = rest
description_field (some s) rest = field "description" (str s) rest

abbrev pub function_json : RouterFunctionTool → Json
function_json t = obj (
    field "type" (str "function") (
      field "function"
        (obj (
          field "name" (str t.name)
            (description_field t.description (field "parameters" t.parameters end))))
        end))

abbrev pub function_items : List RouterFunctionTool → Items
function_items [] = nil
function_items (t ∷ ts) = cons (function_json t) (function_items ts)

-- `{...body, [key]: v}`
abbrev pub set_field : Fields → String → Json → Fields
set_field end key v = field key v end
set_field (field k w fs) key v =
    let rest = set_field fs key v in if k == key then field key v fs else field k w rest

-- The body that the guard sees: with every tool declared at its top.
unfoldable pub capability_body : Fields → List RouterFunctionTool → Fields
capability_body body [] = body
capability_body body (t ∷ ts) = set_field body "tools" (arr (function_items (t ∷ ts)))

-- What a body says before its messages are parsed.
pub record Draft : Type 0 where
  pub model_id : String
  pub instructions : Option String
  pub input : Option Json
  pub tools : List RouterFunctionTool
  pub parallel_tool_calls : Option Bool
  pub tool_choice : Option NormalizedToolChoice
  pub reasoning_effort : Option ReasoningEffort

-- the checks of the body alone
unfoldable pub parse_draft : Fields → Step Draft
unfolding alias_error
parse_draft body = do
  unless_error mapped (
      reject_unsupported_controls body openai_unsupported_semantic_controls "The Responses surface")
  unless_error mapped (
      alias_error (
        reject_unsupported_controls body openai_responses_rejected_controls
          "The Responses surface"))
  model_id ←
      or_send (filled_string (prop body "model")) (bad_request "model must be a non-empty string")
  instructions ← parse_instructions (prop body "instructions")
  normalized ← or_mapped mapped (normalize_response_input_additional_tools (prop body "input"))
  tools ← or_mapped mapped (parse_response_tools (prop body "tools"))
  optional_bool (prop body "stream") (bad_request "stream must be a boolean")
  parallel ←
      optional_bool (prop body "parallel_tool_calls")
        (bad_request "parallel_tool_calls must be a boolean")
  choice ← optional mapped (parse_responses_tool_choice (prop body "tool_choice"))
  effort ← parse_reasoning (prop body "reasoning")
  reasoning_effort ← optional mapped (parse_reasoning_effort effort)
  next (record {
    model_id = model_id;
    instructions = instructions;
    input = normalized.0;
    tools = tools ++ normalized.1;
    parallel_tool_calls = parallel;
    tool_choice = choice;
    reasoning_effort = reasoning_effort;
  })

-- the instructions stand before the conversation
abbrev pub with_instructions : Option String → List RouterMessage → List RouterMessage
with_instructions none messages = messages
with_instructions (some s) messages = message_with system (some s) ∷ messages

abbrev pub body_with : Fields → Draft → List RouterMessage → ParsedBody
body_with body d messages = record {
  model_id = d.model_id;
  messages = messages;
  tools = d.tools;
  stream = is_bool (prop body "stream") true;
  max_output_tokens = as_number (prop body "max_output_tokens");
  parallel_tool_calls = d.parallel_tool_calls;
  tool_choice = d.tool_choice;
  reasoning_effort = d.reasoning_effort;
}

-- the messages, after the guard has seen the raw body
unfoldable pub parse_conversation : ProviderCapability → Fields → Draft → Step (List RouterMessage)
parse_conversation capability body d = do
  unless_error mapped (reject_chat_only_tools (some capability) (capability_body body d.tools) [])
  messages ←
      or_send (input_to_messages d.input) (bad_request "input must be a string or message array")
  or_mapped mapped (assert_tool_results_within_bound (with_instructions d.instructions messages))
  next (with_instructions d.instructions messages)

module _ (resolve : String → Result DiscoveredModel) (has_adapter : ProviderId → Bool) where
  -- The request that the provider is run with, or the error that is sent instead.
  unfoldable pub prepare :
      RouterProfile → ToolAccessConfig → (request_id : String) → Option Json → Step RouterRequest
  unfolding parse_draft route parse_conversation admit
  prepare profile config request_id raw = do
    body ← or_send (as_record raw) (bad_request "Body must be an object")
    d ← parse_draft body
    model ←
        route mapped resolve has_adapter (http_error 400 "unknown_provider" "Unknown provider")
          d.model_id
    messages ← parse_conversation (transport_capability profile config model) body d
    admit mapped profile config request_id (capability_body body d.tools)
        (body_with body d messages) model
