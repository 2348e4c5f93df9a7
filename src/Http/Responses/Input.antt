-- ===== src/Http/Responses/Input.antt =====
-- src/http/openai-responses.ts: `inputToMessages`.
use Prim.Native.String.{String}
use cmm_routers.Prelude.{◌||◌, Option, none, some, List, [], ◌∷◌, string_eq, ◌==◌, if◌then◌else◌}
use cmm_routers.Core.Json.{Json, str, arr, obj, Fields, prop, as_string, elements, is_str}
use cmm_routers.Core.Errors.{template}
use cmm_routers.Core.Model.{Role, user, assistant, tool, RouterToolCall, RouterMessage}
use cmm_routers.Http.Chat.Messages.{parse_role, prepend}
use cmm_routers.Http.Anthropic.Blocks.{message_with}

pub data Part : Type 0 where
  text : String → Part
  image : (url : String) → Part
  call : RouterToolCall → Part

-- what the parts of one item come to
pub record Parts : Type 0 where
  pub texts : List String
  pub image_urls : List String
  pub tool_calls : List RouterToolCall

abbrev text_part : Option String → Option Part
text_part none = none
text_part (some s) = some (text s)

abbrev image_part : Option String → Option Part
image_part none = none
image_part (some url) = some (image url)

-- a call by its id, name and arguments, which must all be strings
abbrev pub call_of : Option String → Option String → Option String → Option RouterToolCall
call_of (some id) (some name) (some arguments) =
    some (record { id = id; name = name; arguments = arguments })
call_of _ _ _ = none

abbrev pub call_in : Fields → Option RouterToolCall
call_in record_ =
    call_of (as_string (prop record_ "call_id")) (as_string (prop record_ "name"))
      (as_string (prop record_ "arguments"))

abbrev call_part : Option RouterToolCall → Option Part
call_part none = none
call_part (some c) = some (call c)

abbrev part_of : Fields → Option Part
part_of part =
    let type = prop part "type" in
    if is_str type "input_text" || is_str type "output_text"
    then text_part (as_string (prop part "text"))
    else if is_str type "input_image"
    then image_part (as_string (prop part "image_url"))
    else if is_str type "function_call"
    then call_part (call_in part)
    else none

-- one round of the loop over the parts
unfoldable pub parse_part : Json → Option Part
parse_part (obj part) = part_of part
parse_part _ = none

abbrev add_part : Option Part → Option Parts → Option Parts
add_part none rest = none
add_part (some part) none = none
add_part (some (text s)) (some p) = some (record p { texts = s ∷ p.texts })
add_part (some (image url)) (some p) = some (record p { image_urls = url ∷ p.image_urls })
add_part (some (call c)) (some p) = some (record p { tool_calls = c ∷ p.tool_calls })

unfoldable pub parse_parts : List Json → Option Parts
unfolding parse_part
parse_parts [] = some (record { texts = []; image_urls = []; tool_calls = [] })
parse_parts (part ∷ parts) = add_part (parse_part part) (parse_parts parts)

-- the content of an item that is no call and no result: a text, or parts
pub data Content : Type 0 where
  plain : String → Content
  parts : Parts → Content

abbrev parts_content : Option Parts → Option Content
parts_content none = none
parts_content (some p) = some (parts p)

unfoldable pub parse_content : Option Json → Option Content
unfolding parse_parts
parse_content (some (str s)) = some (plain s)
parse_content (some (arr xs)) = parts_content (parse_parts (elements xs))
parse_content _ = none

abbrev pub unless_nil {ℓ} : {A : Type ℓ} → List A → Option (List A)
unless_nil [] = none
unless_nil (x ∷ xs) = some (x ∷ xs)

abbrev content_message : Role → Content → Fields → RouterMessage
content_message role (plain s) record_ = record (message_with role (some s)) {
  tool_call_id = as_string (prop record_ "tool_call_id");
  name = as_string (prop record_ "name");
}
content_message role (parts p) record_ = record (message_with role (some (template p.texts))) {
  images = unless_nil p.image_urls;
  tool_call_id = as_string (prop record_ "tool_call_id");
  name = as_string (prop record_ "name");
  tool_calls = unless_nil p.tool_calls;
}

abbrev role_message : Option Role → Option Content → Fields → Option RouterMessage
role_message none content record_ = none
role_message (some role) none record_ = none
role_message (some role) (some content) record_ = some (content_message role content record_)

-- an item of type `function_call`
abbrev pub call_message : Option RouterToolCall → Option RouterMessage
call_message none = none
call_message (some c) = some (record (message_with assistant none) { tool_calls = some (c ∷ []) })

-- an item of type `function_call_output`
abbrev pub output_message : Option String → Option String → Option RouterMessage
output_message (some id) (some output) =
    some (record (message_with tool (some output)) { tool_call_id = some id })
output_message (some id) none = none
output_message none output = none

unfoldable pub item_message : Fields → Option RouterMessage
unfolding parse_content parse_role template
item_message record_ =
    if is_str (prop record_ "type") "function_call"
    then call_message (call_in record_)
    else if is_str (prop record_ "type") "function_call_output"
    then output_message (as_string (prop record_ "call_id")) (as_string (prop record_ "output"))
    else role_message (parse_role (prop record_ "role")) (parse_content (prop record_ "content"))
        record_

-- one round of the loop over the items
unfoldable pub parse_item : Json → Option RouterMessage
unfolding item_message
parse_item (obj record_) = item_message record_
parse_item _ = none

unfoldable pub parse_items : List Json → Option (List RouterMessage)
unfolding parse_item
parse_items [] = some []
parse_items (item ∷ items) = prepend (parse_item item) (parse_items items)

unfoldable pub input_to_messages : Option Json → Option (List RouterMessage)
unfolding parse_items
input_to_messages (some (str s)) = if s == "" then none else some (message_with user (some s) ∷ [])
input_to_messages (some (arr xs)) = elim (elements xs) [
  | [] ↦ none
  | item ∷ items ↦ parse_items (item ∷ items)
]
input_to_messages _ = none
