-- ===== src/Http/Chat/RoundTrip.antt =====
-- src/http/openai-chat.ts: `parseMessages` against the shape in which a client writes messages.

use Prim.Native.String.{String}
use text.Mathlib.TextLemmas.{append-nil}
use cmm_routers.Prelude.{
  true, false, Option, none, some, List, [], ◌∷◌, string_eq, ◌==◌, ◌≡◌, refl, All, is_some, sym,
  ◌∙◌, ==_refl,
}
use cmm_routers.Core.Json.{
  Json, null, str, arr, obj, Fields, end, field, Items, nil, cons, prop, as_string, elements,
}
use cmm_routers.Core.Errors.{template}
use cmm_routers.Core.Model.{Role, system, user, assistant, tool, RouterToolCall, RouterMessage}
use cmm_routers.Http.Chat.Messages.{
  parse_role, parse_parts, parse_content, parse_calls, parse_tool_calls, message_of, parse_message,
  parse_entries, parse_messages,
}

abbrev pub role_text : Role → String
role_text system = "system"
role_text user = "user"
role_text assistant = "assistant"
role_text tool = "tool"

abbrev pub write_images : List String → Items
write_images [] = nil
write_images (url ∷ urls) =
    cons
      (obj
        (field "type" (str "image_url") (field "image_url" (obj (field "url" (str url) end)) end)))
      (write_images urls)

-- a text alone is a string; with images it is the first of the parts
abbrev pub write_content : Option String → Option (List String) → Json
write_content none images = null
write_content (some content) none = str content
write_content (some content) (some urls) =
    arr
      (cons (obj (field "type" (str "text") (field "text" (str content) end))) (write_images urls))

abbrev pub write_call : RouterToolCall → Json
write_call call = obj (
    field "id" (str call.id) (
      field "type" (str "function") (
        field "function"
          (obj (field "name" (str call.name) (field "arguments" (str call.arguments) end))) end)))

abbrev pub write_calls : List RouterToolCall → Items
write_calls [] = nil
write_calls (call ∷ calls) = cons (write_call call) (write_calls calls)

abbrev pub optional_text : String → Option String → Fields → Fields
optional_text key none rest = rest
optional_text key (some s) rest = field key (str s) rest

abbrev pub optional_calls : Option (List RouterToolCall) → Fields
optional_calls none = end
optional_calls (some calls) = field "tool_calls" (arr (write_calls calls)) end

-- A message as the Chat Completions API has it.
abbrev pub write_message : RouterMessage → Json
write_message m = obj (
    field "role" (str (role_text m.role)) (
      field "content" (write_content m.content m.images) (
        optional_text "tool_call_id" m.tool_call_id
          (optional_text "name" m.name (optional_calls m.tool_calls)))))

abbrev pub write_messages : List RouterMessage → Items
write_messages [] = nil
write_messages (m ∷ ms) = cons (write_message m) (write_messages ms)

abbrev pub HasImages : Option String → Option (List String) → Type 0
HasImages content none = Unit
HasImages content (some []) = ⊥
HasImages content (some (url ∷ urls)) = is_some content ≡ true

abbrev pub HasCalls : Role → Option (List RouterToolCall) → Type 0
HasCalls role none = Unit
HasCalls role (some []) = ⊥
HasCalls role (some (call ∷ calls)) = role ≡ assistant

-- A message that this wire can carry: it has no result status, images stand beside a text, calls
-- are an assistant's, and neither list is empty.
pub record IsChatMessage (m : RouterMessage) : Type 0 where
  pub no_status : m.tool_result_status ≡ none
  pub with_text : HasImages m.content m.images
  pub of_assistant : HasCalls m.role m.tool_calls

parse_role-role_text : (role : Role) → parse_role (some (str (role_text role))) ≡ some role
unfolding parse_role
parse_role-role_text system = refl
parse_role-role_text user = refl
parse_role-role_text assistant = refl
parse_role-role_text tool = refl

parse_parts-write_images :
    (urls : List String) → parse_parts (elements (write_images urls)) ≡ some ([], urls)
unfolding parse_parts
parse_parts-write_images [] = refl
parse_parts-write_images (url ∷ urls) = rw (parse_parts-write_images urls) refl

template-singleton : (s : String) → template (s ∷ []) ≡ s
unfolding template
template-singleton s = append-nil s

parse_content-write_content :
    (content : Option String) (images : Option (List String))
    → HasImages content images
    → parse_content (some (write_content content images)) ≡ some (content, images)
unfolding parse_content
parse_content-write_content none none h = refl
parse_content-write_content none (some []) h = elim h [ ]
parse_content-write_content none (some (url ∷ urls)) h = cc
parse_content-write_content (some content) none h = refl
parse_content-write_content (some content) (some []) h = elim h [ ]
parse_content-write_content (some content) (some (url ∷ urls)) h =
    rw (parse_parts-write_images urls) (rw (template-singleton content) refl)

parse_calls-write_calls :
    (calls : List RouterToolCall) → parse_calls (elements (write_calls calls)) ≡ calls
unfolding parse_calls
parse_calls-write_calls [] = refl
parse_calls-write_calls (call ∷ calls) = rw (parse_calls-write_calls calls) refl

text_of :
    (key : String) (o : Option String) (rest : Fields)
    → prop rest key ≡ none
    → as_string (prop (optional_text key o rest) key) ≡ o
text_of key none rest h = rw h refl
text_of key (some s) rest h = rw (==_refl key) refl

passed_over :
    (key : String) (o : Option String) (rest : Fields) (j : String)
    → (key == j) ≡ false
    → prop (optional_text key o rest) j ≡ prop rest j
passed_over key none rest j h = refl
passed_over key (some s) rest j h = rw h refl

prop-optional_calls :
    (calls : Option (List RouterToolCall)) (j : String)
    → ("tool_calls" == j) ≡ false
    → prop (optional_calls calls) j ≡ none
prop-optional_calls none j h = refl
prop-optional_calls (some calls) j h = rw h refl

parse_tool_calls-optional_calls :
    (role : Role) (calls : Option (List RouterToolCall))
    → HasCalls role calls
    → parse_tool_calls (some (str (role_text role))) (prop (optional_calls calls) "tool_calls")
      ≡ calls
unfolding parse_tool_calls
parse_tool_calls-optional_calls role none h = refl
parse_tool_calls-optional_calls role (some []) h = elim h [ ]
parse_tool_calls-optional_calls role (some (call ∷ calls)) h =
    rw h (rw (parse_calls-write_calls calls) refl)

parse_message-write_message :
    (m : RouterMessage) → IsChatMessage m → parse_message (write_message m) ≡ some m
unfolding parse_message message_of
parse_message-write_message m h =
    rw
      (
        parse_role-role_text m.role,
        parse_content-write_content m.content m.images h.with_text,
        text_of "tool_call_id" m.tool_call_id after_id (
            passed_over "name" m.name calls "tool_call_id" refl
            ∙ prop-optional_calls m.tool_calls "tool_call_id" refl),
        passed_over "tool_call_id" m.tool_call_id after_id "name" refl,
        text_of "name" m.name calls (prop-optional_calls m.tool_calls "name" refl),
        passed_over "tool_call_id" m.tool_call_id after_id "tool_calls" refl,
        passed_over "name" m.name calls "tool_calls" refl,
        parse_tool_calls-optional_calls m.role m.tool_calls h.of_assistant,
        sym h.no_status,
      )
      refl
  where
    calls : Fields
    calls = optional_calls m.tool_calls

    after_id : Fields
    after_id = optional_text "name" m.name calls

parse_entries-write_messages :
    (ms : List RouterMessage)
    → All IsChatMessage ms
    → parse_entries (elements (write_messages ms)) ≡ some ms
unfolding parse_entries
parse_entries-write_messages [] h = refl
parse_entries-write_messages (m ∷ ms) h =
    rw (parse_message-write_message m h.0, parse_entries-write_messages ms h.1) refl

-- A conversation that is not empty, written as the Chat Completions API has it, is parsed back to
-- itself: roles, contents, images, the ids and names, and the calls of the assistant.
pub parse_messages-write_messages :
    (m : RouterMessage) (ms : List RouterMessage)
    → All IsChatMessage (m ∷ ms)
    → parse_messages (some (arr (write_messages (m ∷ ms)))) ≡ some (m ∷ ms)
unfolding parse_messages
parse_messages-write_messages m ms h = parse_entries-write_messages (m ∷ ms) h
