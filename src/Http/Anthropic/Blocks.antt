-- ===== src/Http/Anthropic/Blocks.antt =====
-- src/http/anthropic-messages.ts: the messages of `parseAnthropicRequest` and their content blocks.
-- `JSON.stringify` and `String` are parameters.
use Prim.Native.String.{String}
use cmm_routers.Prelude.{
  Bool, true, false, Option, none, some, List, [], ◌∷◌, ◌++◌, string_eq, if◌then◌else◌, map,
}
use cmm_routers.Core.Json.{
  Json, null, str, arr, obj, Fields, end, prop, as_string, as_record, as_bool, elements, is_str,
  is_bool,
}
use cmm_routers.Core.Errors.{
  Result, ok, err, router_error, invalid_request, unsupported_capability, template, ◌>>=◌,
}
use cmm_routers.Core.Model.{
  Role, user, assistant, tool, RouterToolCall, RouterMessage, RouterToolResultStatus, success,
  error,
}

abbrev pub invalid {ℓ} : {A : Type ℓ} → String → Result A
invalid message = err (router_error invalid_request message)

abbrev or_invalid {ℓ} : {A : Type ℓ} → Option A → String → Result A
or_invalid none message = invalid message
or_invalid (some a) message = ok a

-- the text of a block that has to be a text block
abbrev text_block : Option Fields → Option String
text_block none = none
text_block (some block) =
    if is_str (prop block "type") "text" then as_string (prop block "text") else none

abbrev pub prepend {ℓ} : {A : Type ℓ} → Option A → Option (List A) → Option (List A)
prepend none rest = none
prepend (some a) none = none
prepend (some a) (some rest) = some (a ∷ rest)

unfoldable pub text_blocks : List Json → Option (List String)
text_blocks [] = some []
text_blocks (block ∷ blocks) = prepend (text_block (as_record (some block))) (text_blocks blocks)

abbrev pub joined : Option (List String) → Option String
joined none = none
joined (some parts) = some (template parts)

unfoldable pub text_of : Json → Option String
unfolding text_blocks template
text_of (str s) = some s
text_of (arr blocks) = joined (text_blocks (elements blocks))
text_of _ = none

unfoldable pub tool_result_text : Option Json → Option String
unfolding text_of
tool_result_text none = some ""
tool_result_text (some null) = some ""
tool_result_text (some v) = text_of v

pub record ToolResult : Type 0 where
  pub id : String
  pub text : String
  pub status : RouterToolResultStatus

pub data Block : Type 0 where
  text : String → Block
  tool_use : RouterToolCall → Block
  tool_result : ToolResult → Block

-- what the blocks of one message come to
pub record Blocks : Type 0 where
  pub texts : List String
  pub tool_calls : List RouterToolCall
  pub tool_results : List ToolResult

-- `block.input === undefined ? {} : block.input`, which must be an object
abbrev input_of : Option Json → Option Fields
input_of none = some end
input_of (some v) = as_record (some v)

abbrev status_of : Option Json → RouterToolResultStatus
status_of is_error = if is_bool is_error true then error else success

-- `block.is_error` is absent or a Boolean
abbrev has_outcome : Option Json → Bool
has_outcome none = true
has_outcome (some v) = elim (as_bool (some v)) [ none ↦ false | some b ↦ true ]

module _ (json_stringify : Json → String) (to_text : Option Json → String) where
  abbrev call_with : String → String → Option Fields → Result Block
  call_with id name none = invalid "a tool_use block requires a structured object input"
  call_with id name (some input) =
      ok (tool_use (record { id = id; name = name; arguments = json_stringify (obj input) }))

  abbrev tool_use_block : Option String → Option String → Option Json → Result Block
  tool_use_block (some id) (some name) input = call_with id name (input_of input)
  tool_use_block none name input = invalid "a tool_use block requires an id and a name"
  tool_use_block (some id) none input = invalid "a tool_use block requires an id and a name"

  abbrev result_with : String → Option Json → Option String → Result Block
  result_with id is_error none =
      invalid "tool_result content must be a string or an array of text blocks"
  result_with id is_error (some content) =
      ok (tool_result (record { id = id; text = content; status = status_of is_error }))

  abbrev tool_result_block : Option String → Option Json → Option String → Result Block
  tool_result_block none is_error content = invalid "a tool_result block requires a tool_use_id"
  tool_result_block (some id) is_error content =
      if has_outcome is_error
      then result_with id is_error content
      else invalid "tool_result.is_error must be a boolean"

  abbrev text_or_invalid : Option String → Result Block
  text_or_invalid none = invalid "a text block requires a string text"
  text_or_invalid (some s) = ok (text s)

  unfoldable pub block_of : Fields → Result Block
  unfolding tool_result_text template
  block_of block =
      let type = prop block "type" in
      if is_str type "text"
      then text_or_invalid (as_string (prop block "text"))
      else if is_str type "tool_use"
      then tool_use_block (as_string (prop block "id")) (as_string (prop block "name"))
          (prop block "input")
      else if is_str type "tool_result"
      then tool_result_block (as_string (prop block "tool_use_id")) (prop block "is_error")
          (tool_result_text (prop block "content"))
      else err (
          router_error unsupported_capability (
            template (
              "The Anthropic-compatible surface cannot faithfully represent a content block of type '"
              ∷ to_text type
              ∷ "'; refusing to drop it silently"
              ∷ [])))

  -- one round of the loop over the blocks
  unfoldable pub parse_block : Json → Result Block
  unfolding block_of
  parse_block (obj block) = block_of block
  parse_block _ = invalid "each content block must be an object"

  abbrev pub add_block : Block → Blocks → Blocks
  add_block (text s) b = record b { texts = s ∷ b.texts }
  add_block (tool_use call) b = record b { tool_calls = call ∷ b.tool_calls }
  add_block (tool_result result) b = record b { tool_results = result ∷ b.tool_results }

  unfoldable pub parse_blocks : List Json → Result Blocks
  unfolding parse_block
  parse_blocks [] = ok (record { texts = []; tool_calls = []; tool_results = [] })
  parse_blocks (raw ∷ raws) =
      parse_block raw >>= (λ block. parse_blocks raws >>= (λ rest. ok (add_block block rest)))

abbrev pub message_with : Role → Option String → RouterMessage
message_with role content = record {
  role = role;
  content = content;
  images = none;
  tool_call_id = none;
  name = none;
  tool_result_status = none;
  tool_calls = none;
}

abbrev pub result_message : ToolResult → RouterMessage
result_message r = record {
  role = tool;
  content = some r.text;
  images = none;
  tool_call_id = some r.id;
  name = none;
  tool_result_status = some r.status;
  tool_calls = none;
}

-- the message of the texts and the calls, unless there are none of either
abbrev pub spoken : Role → List String → List RouterToolCall → List RouterMessage
spoken role [] [] = []
spoken role (s ∷ texts) [] = message_with role (some (template (s ∷ texts))) ∷ []
spoken role [] (call ∷ calls) =
    record (message_with role none) { tool_calls = some (call ∷ calls) } ∷ []
spoken role (s ∷ texts) (call ∷ calls) =
    record (message_with role (some (template (s ∷ texts)))) { tool_calls = some (call ∷ calls) }
    ∷ []

unfoldable pub block_messages : Role → Blocks → List RouterMessage
unfolding template
block_messages role b = spoken role b.texts b.tool_calls ++ map result_message b.tool_results

unfoldable pub parse_role : Option Json → Option Role
parse_role raw =
    if is_str raw "user" then some user else if is_str raw "assistant" then some assistant else none

module _ (json_stringify : Json → String) (to_text : Option Json → String) where
  abbrev pub content_messages : Role → Option Json → Result (List RouterMessage)
  content_messages role (some (str s)) = ok (message_with role (some s) ∷ [])
  content_messages role (some (arr blocks)) =
      parse_blocks json_stringify to_text (elements blocks) >>= (λ b. ok (block_messages role b))
  content_messages role _ = invalid "message content must be a string or a block array"

  abbrev pub role_messages : Option Role → Option Json → Result (List RouterMessage)
  role_messages none content = invalid "message role must be 'user' or 'assistant'"
  role_messages (some role) content = content_messages role content

  -- one round of the loop over the messages
  unfoldable pub parse_message : Json → Result (List RouterMessage)
  unfolding parse_role parse_blocks block_messages
  parse_message (obj record_) =
      role_messages (parse_role (prop record_ "role")) (prop record_ "content")
  parse_message _ = invalid "each message must be an object"

  unfoldable pub parse_entries : List Json → Result (List RouterMessage)
  unfolding parse_message
  parse_entries [] = ok []
  parse_entries (raw ∷ raws) =
      parse_message raw >>= (λ messages. parse_entries raws >>= (λ rest. ok (messages ++ rest)))
