-- ===== src/Http/Anthropic/Request.antt =====
-- src/http/anthropic-messages.ts: the rest of `parseAnthropicRequest`.
use Prim.Native.String.{String}
use cmm_routers.Prelude.{
  Bool, true, false, Option, none, some, List, [], ◌∷◌, ◌++◌, string_eq, nat_eq, ◌==◌, contains,
  if◌then◌else◌,
}
use cmm_routers.Core.Json.{
  Json, num, arr, obj, Fields, prop, keys, as_string, as_record, as_array, is_bool, elements,
}
use cmm_routers.Core.Errors.{
  RouterError, Result, ok, err, router_error, unsupported_capability, template, ◌>>=◌, ◌>>◌,
}
use cmm_routers.Core.Model.{
  system, RouterMessage, RouterFunctionTool, NormalizedToolChoice, auto, required, named,
}
use cmm_routers.Core.RequestControls.{anthropic_unsupported_semantic_controls}
use cmm_routers.Core.ToolKind.{
  ToolDeclarationKind, classify_tool_declaration_type, unsupported_tool_kind_error,
  represent_tool_declaration,
}
use cmm_routers.Http.Chat.Tools.{declaration_of, parameters_of, only_function}
use cmm_routers.Http.Anthropic.Blocks.{invalid, text_of, message_with, parse_entries}

abbrev pub accepted_request_keys : List String
accepted_request_keys =
    "model" ∷ "messages" ∷ "system" ∷ "tools" ∷ "tool_choice" ∷ "stream" ∷ "max_tokens" ∷ []

unfoldable pub key_error : String → RouterError
unfolding template
key_error key = router_error unsupported_capability (
    if contains anthropic_unsupported_semantic_controls key
    then template (
        "The Anthropic-compatible surface does not accept '" ∷ key
        ∷ "'; refusing to ignore it silently" ∷ [])
    else template (
        "The Anthropic-compatible surface does not accept the request control '" ∷ key
        ∷ "'; refusing to ignore it silently" ∷ []))

-- the loop over the keys of the body
unfoldable pub check_keys : List String → Result (Unit {0})
unfolding key_error
check_keys [] = ok tt
check_keys (key ∷ rest) =
    let checked = check_keys rest in
    if contains accepted_request_keys key then checked else err (key_error key)

-- absent, or an integer above 0
unfoldable pub check_max_tokens : Option Json → Result (Unit {0})
check_max_tokens none = ok tt
check_max_tokens (some (num n)) =
    if n == 0 then invalid "max_tokens must be a positive integer" else ok tt
check_max_tokens _ = invalid "max_tokens must be a positive integer"

abbrev system_message : Option String → Result (List RouterMessage)
system_message none = invalid "system must be a string or an array of text blocks"
system_message (some content) = ok (message_with system (some content) ∷ [])

unfoldable pub parse_system : Option Json → Result (List RouterMessage)
unfolding text_of
parse_system none = ok []
parse_system (some v) = system_message (text_of v)

-- `explicitType` is absent or of a function
unfoldable pub check_tool_type : Option Json → Result (Unit {0})
unfolding classify_tool_declaration_type
check_tool_type none = ok tt
check_tool_type (some type) = elim (classify_tool_declaration_type (some type)) [
  | ToolDeclarationKind.function ↦ ok tt
  | ToolDeclarationKind.namespace ↦
      err (unsupported_tool_kind_error ToolDeclarationKind.namespace (some type))
  | ToolDeclarationKind.hosted ↦
      err (unsupported_tool_kind_error ToolDeclarationKind.hosted (some type))
  | ToolDeclarationKind.unknown ↦
      err (unsupported_tool_kind_error ToolDeclarationKind.unknown (some type))
]

abbrev tool_with : String → Option String → Option Fields → Option Json → Result RouterFunctionTool
tool_with name description none type = invalid "a tool's input_schema must be an object"
tool_with name description (some schema) type =
    only_function
      (represent_tool_declaration ToolDeclarationKind.function
        (declaration_of name description schema))
      (unsupported_tool_kind_error ToolDeclarationKind.function type)

abbrev named_tool : Option String → Fields → Result RouterFunctionTool
named_tool none record_ = invalid "a tool requires a name"
named_tool (some name) record_ =
    check_tool_type (prop record_ "type")
    >> tool_with name (as_string (prop record_ "description"))
        (parameters_of (prop record_ "input_schema")) (prop record_ "type")

-- one round of the loop over the tools
unfoldable pub parse_tool : Json → Result RouterFunctionTool
unfolding check_tool_type parameters_of represent_tool_declaration
parse_tool (obj record_) = named_tool (as_string (prop record_ "name")) record_
parse_tool _ = invalid "each tool must be an object"

unfoldable pub parse_tool_list : List Json → Result (List RouterFunctionTool)
unfolding parse_tool
parse_tool_list [] = ok []
parse_tool_list (raw ∷ raws) =
    parse_tool raw >>= (λ t. parse_tool_list raws >>= (λ ts. ok (t ∷ ts)))

unfoldable pub parse_tools : Option Json → Result (List RouterFunctionTool)
unfolding parse_tool_list
parse_tools none = ok []
parse_tools (some (arr raws)) = parse_tool_list (elements raws)
parse_tools _ = invalid "tools must be an array"

abbrev named_choice : Option String → Result NormalizedToolChoice
named_choice none = invalid "tool_choice type 'tool' requires a name"
named_choice (some name) =
    if name == "" then invalid "tool_choice type 'tool' requires a name" else ok (named name)

-- the `switch` on the type
abbrev choice_of_type : String → Option String → Result NormalizedToolChoice
choice_of_type type name =
    if type == "auto"
    then ok auto
    else if type == "none"
    then ok NormalizedToolChoice.none
    else if type == "any"
    then ok required
    else if type == "tool"
    then named_choice name
    else err (
        router_error unsupported_capability (
          template (
            "The Anthropic-compatible surface cannot represent tool_choice type '" ∷ type ∷ "'"
            ∷ [])))

abbrev parallel_of : Option Json → Result (Option Bool)
parallel_of raw =
    if is_bool raw true
    then ok (some false)
    else if is_bool raw false
    then ok (some true)
    else elim raw [
      | none ↦ ok none
      | some v ↦ invalid "tool_choice.disable_parallel_tool_use must be a boolean"
    ]

abbrev choice_with : Option String → Fields → Result (Option NormalizedToolChoice × Option Bool)
choice_with none choice =
    invalid "tool_choice must be an object with a type of 'auto', 'any', 'none' or 'tool'"
choice_with (some type) choice = choice_of_type type (as_string (prop choice "name")) >>= (λ kind.
    parallel_of (prop choice "disable_parallel_tool_use")
    >>= (λ parallel. ok (some kind, parallel)))

unfoldable pub parse_tool_choice : Option Json → Result (Option NormalizedToolChoice × Option Bool)
unfolding template
parse_tool_choice none = ok (none, none)
parse_tool_choice (some raw) = elim (as_record (some raw)) [
  | none ↦ invalid "tool_choice must be an object with a type of 'auto', 'any', 'none' or 'tool'"
  | some choice ↦ choice_with (as_string (prop choice "type")) choice
]

pub record ParsedAnthropicRequest : Type 0 where
  pub messages : List RouterMessage
  pub tools : List RouterFunctionTool
  pub tool_choice : Option NormalizedToolChoice
  pub parallel_tool_calls : Option Bool

module _ (json_stringify : Json → String) (to_text : Option Json → String) where
  -- `body.messages` must be an array that is not empty
  unfoldable pub parse_messages : Option Json → Result (List RouterMessage)
  unfolding parse_entries
  parse_messages raw = elim (as_array raw) [
    | none ↦ invalid "messages must be a non-empty array"
    | some [] ↦ invalid "messages must be a non-empty array"
    | some (entry ∷ entries) ↦ parse_entries json_stringify to_text (entry ∷ entries)
  ]

  unfoldable pub parse_anthropic_request : Fields → Result ParsedAnthropicRequest
  unfolding check_keys check_max_tokens parse_system parse_messages parse_tools parse_tool_choice
  parse_anthropic_request body = do
    check_keys (keys body)
    check_max_tokens (prop body "max_tokens")
    first ← parse_system (prop body "system")
    messages ← parse_messages (prop body "messages")
    tools ← parse_tools (prop body "tools")
    choice ← parse_tool_choice (prop body "tool_choice")
    ok (record {
      messages = first ++ messages;
      tools = tools;
      tool_choice = choice.0;
      parallel_tool_calls = choice.1;
    })
