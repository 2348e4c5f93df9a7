-- ===== src/Http/Chat/History.antt =====
-- src/http/openai-chat.ts: `rawBodyHasAssistantToolHistory` and `rejectChatOnlyTools`.
use Prim.Native.String.{String}
use cmm_routers.Prelude.{
  Bool, true, false, not, ◌&&◌, ◌||◌, Option, none, some, List, [], ◌∷◌, ◌++◌, string_eq, any,
  contains, is_some, get_or_else, if◌then◌else◌, ◌≡◌, ◌↔◌, arith,
}
use cmm_routers.Core.Json.{Json, obj, Fields, prop, as_string, as_array, is_nullish}
use cmm_routers.Core.Errors.{RouterError, router_error, unsupported_capability}
use cmm_routers.Core.Profile.{ProviderCapability, chat_only, chat_and_tools}
use cmm_routers.Core.ToolAccess.History.{is_nil}
use cmm_routers.Core.Model.{Role, tool, RouterMessage}

abbrev history_types : List String
history_types =
    "function_call" ∷ "function_call_output" ∷ "tool_call" ∷ "tool_result" ∷ "tool_use" ∷ []

-- whether a `type` is one of those of a tool history
unfoldable pub is_history_type : Option Json → Bool
is_history_type type = elim (as_string type) [ none ↦ false | some s ↦ contains history_types s ]

-- an array has none of the properties that are looked at
unfoldable pub is_history_part : Json → Bool
unfolding is_history_type
is_history_part (obj part) = is_history_type (prop part "type")
is_history_part _ = false

-- one round of the loop over the messages or the input
unfoldable pub is_history_entry : Json → Bool
unfolding is_history_type is_history_part
is_history_entry (obj record_) =
    not (is_nil (get_or_else (as_array (prop record_ "tool_calls")) []))
    || not (is_nullish (prop record_ "function_call"))
    || is_history_type (prop record_ "type")
    || any is_history_part (get_or_else (as_array (prop record_ "content")) [])
is_history_entry _ = false

unfoldable pub raw_body_has_assistant_tool_history : Fields → Bool
unfolding is_history_entry
raw_body_has_assistant_tool_history body = any is_history_entry (
    get_or_else (as_array (prop body "messages")) []
    ++ get_or_else (as_array (prop body "input")) [])

abbrev pub is_tool : Role → Bool
is_tool tool = true
is_tool _ = false

abbrev pub is_empty_array : Option Json → Bool
is_empty_array v = elim (as_array v) [ none ↦ false | some xs ↦ is_nil xs ]

-- the checks of a request that can carry no tools
unfoldable pub reject_tools : Fields → List RouterMessage → Option RouterError
unfolding raw_body_has_assistant_tool_history
reject_tools body messages =
    if is_some (prop body "tools") && not (is_empty_array (prop body "tools"))
    then some (
        router_error unsupported_capability
          "Model supports chat only; tools are not supported on this route")
    else if is_some (prop body "tool_choice") || is_some (prop body "parallel_tool_calls")
    then some (
        router_error unsupported_capability
          "Model supports chat only; tool selection is not supported on this route")
    else if any (λ m. is_tool m.role) messages
    then some (
        router_error unsupported_capability
          "Model supports chat only; tool-result continuation is not supported on this route")
    else if raw_body_has_assistant_tool_history body
    then some (
        router_error unsupported_capability
          "Model supports chat only; assistant tool-call history is not supported on this route")
    else none

unfoldable pub reject_chat_only_tools :
    Option ProviderCapability → Fields → List RouterMessage → Option RouterError
unfolding reject_tools
reject_chat_only_tools (some chat_and_tools) body messages = none
reject_chat_only_tools (some chat_only) body messages = reject_tools body messages
reject_chat_only_tools none body messages = reject_tools body messages

-- Without the capability for tools a request passes exactly when it declares no tool, selects none,
-- answers none and has none in its history, and a refusal is `unsupported_capability`; with the
-- capability every request passes.
pub reject_chat_only_tools_iff :
    (body : Fields) (messages : List RouterMessage)
    → ((reject_chat_only_tools (some chat_only) body messages ≡ none) ↔ (
        (is_some (prop body "tools") && not (is_empty_array (prop body "tools")) ≡ false)
        × (prop body "tool_choice" ≡ none)
        × (prop body "parallel_tool_calls" ≡ none)
        × (any (λ m. is_tool m.role) messages ≡ false)
        × (raw_body_has_assistant_tool_history body ≡ false)))
unfolding reject_chat_only_tools
reject_chat_only_tools_iff body messages = ground arith
