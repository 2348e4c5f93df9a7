-- ===== src/Http/Chat/Messages.antt =====
-- src/http/openai-chat.ts: `asRecord`, `parseReasoningEffort` and `parseMessages`.
use cmm_routers.Prelude.{String, Option, none, some, List, [], ◌∷◌, string_eq, if◌then◌else◌}
use cmm_routers.Core.Json.{
  Json, null, str, arr, obj, Fields, prop, as_string, as_record, as_array, elements, is_str,
}
use cmm_routers.Core.Errors.{Result, ok, err, router_error, invalid_request, template}
use cmm_routers.Core.Model.{
  ReasoningEffort, low, medium, high, xhigh, max, Role, system, user, assistant, tool,
  RouterToolCall, RouterMessage,
}

abbrev effort_of : Json → Option ReasoningEffort
effort_of value =
    if is_str (some value) "none"
    then some ReasoningEffort.none
    else if is_str (some value) "low"
    then some low
    else if is_str (some value) "medium"
    then some medium
    else if is_str (some value) "high"
    then some high
    else if is_str (some value) "xhigh"
    then some xhigh
    else if is_str (some value) "max"
    then some max
    else none

abbrev effort_or_error : Option ReasoningEffort → Result ReasoningEffort
effort_or_error none = err (
    router_error invalid_request
      "reasoning_effort must be one of: none, low, medium, high, xhigh, max")
effort_or_error (some effort) = ok effort

unfoldable pub parse_reasoning_effort : Option Json → Option (Result ReasoningEffort)
parse_reasoning_effort none = none
parse_reasoning_effort (some null) = none
parse_reasoning_effort (some value) = some (effort_or_error (effort_of value))

unfoldable pub parse_role : Option Json → Option Role
parse_role raw =
    if is_str raw "developer"
    then some system
    else if is_str raw "system"
    then some system
    else if is_str raw "user"
    then some user
    else if is_str raw "assistant"
    then some assistant
    else if is_str raw "tool"
    then some tool
    else none

pub data ContentPart : Type 0 where
  text : String → ContentPart
  image : (url : String) → ContentPart

abbrev text_part : Option String → Option ContentPart
text_part none = none
text_part (some s) = some (text s)

abbrev image_part : Option Fields → Option ContentPart
image_part none = none
image_part (some image_url) = elim (as_string (prop image_url "url")) [
  | none ↦ none
  | some url ↦ some (image url)
]

abbrev part_of : Fields → Option ContentPart
part_of part =
    if is_str (prop part "type") "text"
    then text_part (as_string (prop part "text"))
    else if is_str (prop part "type") "image_url"
    then image_part (as_record (prop part "image_url"))
    else none

-- one round of the loop over the parts
unfoldable pub parse_part : Json → Option ContentPart
parse_part (obj part) = part_of part
parse_part _ = none

-- the texts and the image URLs of the parts
abbrev add_part :
    Option ContentPart → Option (List String × List String) → Option (List String × List String)
add_part none rest = none
add_part (some part) none = none
add_part (some (text s)) (some (texts, urls)) = some (s ∷ texts, urls)
add_part (some (image url)) (some (texts, urls)) = some (texts, url ∷ urls)

unfoldable pub parse_parts : List Json → Option (List String × List String)
unfolding parse_part
parse_parts [] = some ([], [])
parse_parts (part ∷ parts) = add_part (parse_part part) (parse_parts parts)

abbrev parts_content :
    Option (List String × List String) → Option (Option String × Option (List String))
parts_content none = none
parts_content (some (texts, [])) = some (some (template texts), none)
parts_content (some (texts, url ∷ urls)) = some (some (template texts), some (url ∷ urls))

-- the content and the images of a message
unfoldable pub parse_content : Option Json → Option (Option String × Option (List String))
unfolding parse_parts template
parse_content none = some (none, none)
parse_content (some null) = some (none, none)
parse_content (some (str s)) = some (some s, none)
parse_content (some (arr parts)) = parts_content (parse_parts (elements parts))
parse_content _ = none

abbrev call_of : Option String → Option String → Option String → Option RouterToolCall
call_of (some id) (some name) (some arguments) =
    some (record { id = id; name = name; arguments = arguments })
call_of _ _ _ = none

abbrev call_in : Option String → Option Fields → Option RouterToolCall
call_in id none = none
call_in id (some fn) = call_of id (as_string (prop fn "name")) (as_string (prop fn "arguments"))

-- one round of the loop over `tool_calls`; an ill-formed call is passed over
unfoldable pub parse_call : Json → Option RouterToolCall
parse_call (obj call) = call_in (as_string (prop call "id")) (as_record (prop call "function"))
parse_call _ = none

abbrev keep_call : Option RouterToolCall → List RouterToolCall → List RouterToolCall
keep_call none calls = calls
keep_call (some call) calls = call ∷ calls

unfoldable pub parse_calls : List Json → List RouterToolCall
unfolding parse_call
parse_calls [] = []
parse_calls (raw ∷ raws) = keep_call (parse_call raw) (parse_calls raws)

abbrev some_calls : List RouterToolCall → Option (List RouterToolCall)
some_calls [] = none
some_calls (call ∷ calls) = some (call ∷ calls)

unfoldable pub parse_tool_calls : (role calls : Option Json) → Option (List RouterToolCall)
unfolding parse_calls
parse_tool_calls role raw = elim (as_array raw) [
  | none ↦ none
  | some calls ↦ if is_str role "assistant" then some_calls (parse_calls calls) else none
]

unfoldable pub message_of :
    Option Role → Option (Option String × Option (List String)) → Fields → Option RouterMessage
message_of none content record_ = none
message_of (some role) none record_ = none
message_of (some role) (some (content, images)) record_ = some (record {
  role = role;
  content = content;
  images = images;
  tool_call_id = as_string (prop record_ "tool_call_id");
  name = as_string (prop record_ "name");
  tool_result_status = none;
  tool_calls = parse_tool_calls (prop record_ "role") (prop record_ "tool_calls");
})

-- one round of the loop over the messages
unfoldable pub parse_message : Json → Option RouterMessage
unfolding parse_role parse_content message_of
parse_message (obj record_) =
    message_of (parse_role (prop record_ "role")) (parse_content (prop record_ "content")) record_
parse_message _ = none

abbrev pub prepend {ℓ} : {A : Type ℓ} → Option A → Option (List A) → Option (List A)
prepend none rest = none
prepend (some a) none = none
prepend (some a) (some as_) = some (a ∷ as_)

unfoldable pub parse_entries : List Json → Option (List RouterMessage)
unfolding parse_message
parse_entries [] = some []
parse_entries (entry ∷ entries) = prepend (parse_message entry) (parse_entries entries)

unfoldable pub parse_messages : Option Json → Option (List RouterMessage)
unfolding parse_entries
parse_messages input = elim (as_array input) [
  | none ↦ none
  | some [] ↦ none
  | some (entry ∷ entries) ↦ parse_entries (entry ∷ entries)
]
