-- ===== src/Core/ToolPolicy/Surfaces.antt =====
-- What the two OpenAI surfaces accept as a tool choice.
use cmm_routers.Prelude.{◌≡◌, refl, String, true, Option, none, some, arith, inl, inr, ◌⊎◌}
use cmm_routers.Core.Json.{Json, str, obj, end, field}
use cmm_routers.Core.Errors.{RouterError, ok, err, invalid_request}
use cmm_routers.Core.Model.{NormalizedToolChoice, auto, required, named}
use cmm_routers.Core.ToolPolicy.{
  parse_chat_tool_choice, parse_responses_tool_choice, to_chat_wire_tool_choice,
}
use cmm_routers.Core.ToolPolicy.Anthropic.{is_named}

-- Whatever either surface accepts is a normalized choice, with a name that is not empty if it has
-- one.
pub parsed-is_named :
    (raw : Option Json) (c : NormalizedToolChoice)
    → (parse_chat_tool_choice raw ≡ some (ok c)) ⊎ (parse_responses_tool_choice raw ≡ some (ok c))
    → is_named c ≡ true
unfolding parse_chat_tool_choice parse_responses_tool_choice
parsed-is_named none c (inl h) = cc
parsed-is_named none c (inr h) = cc
parsed-is_named (some raw) c (inl h) = ground arith
parsed-is_named (some raw) c (inr h) = ground arith

-- The choice that the Chat wire is given is parsed back to itself on the Chat surface.
pub parse_chat-to_chat_wire :
    (c : NormalizedToolChoice)
    → is_named c ≡ true
    → parse_chat_tool_choice (to_chat_wire_tool_choice (some c)) ≡ some (ok c)
unfolding parse_chat_tool_choice to_chat_wire_tool_choice
parse_chat-to_chat_wire auto h = refl
parse_chat-to_chat_wire NormalizedToolChoice.none h = refl
parse_chat-to_chat_wire required h = refl
parse_chat-to_chat_wire (named name) h = ground arith

-- A named choice as one surface writes it is refused by the other, with `invalid_request`.
pub surfaces_disagree :
    (name : String)
    → ((e : RouterError) × (parse_responses_tool_choice
            (to_chat_wire_tool_choice (some (named name)))
          ≡ some (err e))
        × (e.code ≡ invalid_request))
      × ((e : RouterError) × (parse_chat_tool_choice
              (some (obj (field "type" (str "function") (field "name" (str name) end))))
            ≡ some (err e))
          × (e.code ≡ invalid_request))
unfolding parse_chat_tool_choice parse_responses_tool_choice to_chat_wire_tool_choice
surfaces_disagree name = ((_, refl, refl), (_, refl, refl))
