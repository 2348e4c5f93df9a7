-- ===== src/Http/Responses/Tools.antt =====
-- src/http/openai-responses.ts: `parseResponseTools` and `normalizeResponseInputAdditionalTools`.
use Prim.Native.String.{String}
use cmm_routers.Prelude.{
  Bool, true, false, not, Option, none, some, List, [], ◌∷◌, ◌++◌, string_eq, is_some,
  if◌then◌else◌,
}
use cmm_routers.Core.Json.{
  Json, arr, obj, Fields, Items, nil, cons, prop, as_string, as_record, elements, is_str,
}
use cmm_routers.Core.Errors.{Result, ok, err, ◌>>=◌}
use cmm_routers.Core.Model.{RouterFunctionTool}
use cmm_routers.Core.ToolKind.{
  ToolDeclarationKind, classify_tool_declaration_type, unsupported_tool_kind_error,
  represent_tool_declaration,
}
use cmm_routers.Http.Chat.Tools.{declaration_of, parameters_of, only_function}
use cmm_routers.Http.Anthropic.Blocks.{invalid}

abbrev tool_with : String → Option String → Option Fields → Option Json → Result RouterFunctionTool
tool_with name description none type = invalid "a function tool's parameters must be an object"
tool_with name description (some parameters) type =
    only_function
      (represent_tool_declaration ToolDeclarationKind.function
        (declaration_of name description parameters))
      (unsupported_tool_kind_error ToolDeclarationKind.function type)

abbrev tool_in : Option String → Fields → Option Json → Result RouterFunctionTool
tool_in none fn type = invalid "a function tool requires a name"
tool_in (some name) fn type =
    tool_with name (as_string (prop fn "description")) (parameters_of (prop fn "parameters")) type

-- the declaration of a function: flat, if it has a name of its own, else as the Chat surface has it
abbrev function_tool : Option String → Option Fields → Fields → Result RouterFunctionTool
function_tool (some name) fn record_ = tool_in (some name) record_ (prop record_ "type")
function_tool none (some fn) record_ = tool_in (as_string (prop fn "name")) fn (prop record_ "type")
function_tool none none record_ = err (
    unsupported_tool_kind_error (classify_tool_declaration_type (prop record_ "type"))
      (prop record_ "type"))

-- one round of the loop over the declarations
unfoldable pub parse_tool : Json → Result RouterFunctionTool
unfolding parameters_of represent_tool_declaration
parse_tool (obj record_) =
    if is_str (prop record_ "type") "function"
    then function_tool (as_string (prop record_ "name")) (as_record (prop record_ "function"))
        record_
    else err (
        unsupported_tool_kind_error (classify_tool_declaration_type (prop record_ "type"))
          (prop record_ "type"))
parse_tool _ = invalid "each entry in tools must be an object"

unfoldable pub parse_tool_list : List Json → Result (List RouterFunctionTool)
unfolding parse_tool
parse_tool_list [] = ok []
parse_tool_list (entry ∷ entries) =
    parse_tool entry >>= (λ t. parse_tool_list entries >>= (λ ts. ok (t ∷ ts)))

unfoldable pub parse_response_tools : Option Json → Result (List RouterFunctionTool)
unfolding parse_tool_list
parse_response_tools none = ok []
parse_response_tools (some (arr entries)) = parse_tool_list (elements entries)
parse_response_tools _ = invalid "tools must be an array"

-- whether an item is of the type `additional_tools`
abbrev pub is_additional : Json → Bool
is_additional (obj record_) = is_str (prop record_ "type") "additional_tools"
is_additional _ = false

abbrev has_string_id : Option Json → Bool
has_string_id none = true
has_string_id (some v) = is_some (as_string (some v))

abbrev additional : Fields → Result (List RouterFunctionTool)
additional record_ =
    if not (is_str (prop record_ "role") "developer")
    then invalid "additional_tools role must be \"developer\""
    else if not (has_string_id (prop record_ "id"))
    then invalid "additional_tools id must be a string when present"
    else parse_response_tools (prop record_ "tools")

-- the tools of one item of the type `additional_tools`
unfoldable pub additional_tools : Json → Result (List RouterFunctionTool)
unfolding parse_response_tools
additional_tools (obj record_) = additional record_
additional_tools _ = ok []

-- the loop over the items: the items that stay, and the tools of the others
unfoldable pub split_items : List Json → Result (Items × List RouterFunctionTool)
unfolding additional_tools
split_items [] = ok (nil, [])
split_items (item ∷ items) =
    let rest = split_items items in
    if is_additional item
    then additional_tools item >>= (λ ts. rest >>= (λ r. ok (r.0, ts ++ r.1)))
    else (rest >>= (λ r. ok (cons item r.0, r.1)))

unfoldable pub normalize_response_input_additional_tools :
    Option Json → Result (Option Json × List RouterFunctionTool)
unfolding split_items
normalize_response_input_additional_tools (some (arr items)) =
    split_items (elements items) >>= (λ r. ok (some (arr r.0), r.1))
normalize_response_input_additional_tools input = ok (input, [])
