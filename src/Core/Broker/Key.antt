-- ===== src/Core/Broker/Key.antt =====
-- src/core/deferred-tool-broker.ts: `keyOf` and `splitScope`.
use Prim.Native.Char.{Char, code}
use Prim.Native.String.{String}
use mathlib.Core.Option
use cmm_routers.Prelude.{
  Bool, true, ◌||◌, ◌&&◌, Option, none, some, List, [], ◌∷◌, ◌==◌, string_eq, nat_eq, get_or_else,
  if◌then◌else◌,
}
use cmm_routers.Core.Errors.{
  Result, ok, err, router_error, provider_protocol_error, template, ◌>>=◌,
}
use cmm_routers.Core.Profile.{RouterProfile, chat, agent}
use cmm_routers.Core.Model.{ProviderId, provider_text}

pub record BrokerKey : Type 0 where
  pub profile : Option RouterProfile
  pub provider : ProviderId
  pub session_id : String
  pub turn_id : Option String
  pub tool_call_id : String
  pub public_tool_call_id : Option String

abbrev pub profile_text : RouterProfile → String
profile_text chat = "CHAT"
profile_text agent = "AGENT"

unfoldable pub require_profile : Option RouterProfile → Result RouterProfile
require_profile none =
    err (router_error provider_protocol_error "Broker key requires a Router profile")
require_profile (some profile) = ok profile

-- The text of a key whose profile has been checked.
unfoldable pub key_text : RouterProfile → BrokerKey → String
unfolding template
key_text profile key = template (
    profile_text profile
    ∷ "|"
    ∷ provider_text key.provider
    ∷ "|"
    ∷ key.session_id
    ∷ "|"
    ∷ get_or_else key.turn_id ""
    ∷ "|"
    ∷ key.tool_call_id
    ∷ [])

unfoldable pub key_of : BrokerKey → Result String
unfolding require_profile
key_of key = do
  profile ← require_profile key.profile
  if key.session_id == "" || key.tool_call_id == ""
      then err (router_error provider_protocol_error "Broker key requires sessionId and toolCallId")
      else ok (key_text profile key)

abbrev pub push_char : Char → List String → List String
push_char c [] = String.◌∷◌ c "" ∷ []
push_char c (part ∷ parts) = String.◌∷◌ c part ∷ parts

-- id.split("|")
unfoldable pub split_bar : String → List String
split_bar String.[] = "" ∷ []
split_bar (String.◌∷◌ c s) =
    let rest = split_bar s in if code c == b'|' then "" ∷ rest else push_char c rest

abbrev second_and_third : List String → String × String
second_and_third [] = ("", "")
second_and_third (a ∷ []) = ("", "")
second_and_third (a ∷ b ∷ []) = (b, "")
second_and_third (a ∷ b ∷ c ∷ rest) = (b, c)

-- the provider and the session that an id names
unfoldable pub split_scope : String → String × String
unfolding split_bar
split_scope id = second_and_third (split_bar id)

abbrev pub admits : Option String → String → Bool
admits none s = true
admits (some wanted) s = wanted == s

-- the filter of `cancelScope`, on the text of a key
unfoldable pub in_scope : Option String → Option ProviderId → String → Bool
in_scope session provider id =
    let (scope_provider, scope_session) = split_scope id in
    admits (Option.map provider_text provider) scope_provider && admits session scope_session
