-- ===== src/Core/Model.antt =====
-- src/core/model.ts, with `NormalizedToolChoice` of src/core/tool-policy.ts.
use cmm_routers.Prelude.{
  String, Bool, true, false, Option, some, List, [], ◌∷◌, string_eq, contains,
}
use cmm_routers.Core.Json.{Json, Fields, str}
use cmm_routers.Core.Profile.{RouterProfile, ProviderCapability}

pub data ProviderId : Type 0 where
  chatgpt claude google command_code cavoti : ProviderId

-- The wire text of each id.
abbrev pub provider_text : ProviderId → String
provider_text chatgpt = "chatgpt"
provider_text claude = "claude"
provider_text google = "google"
provider_text command_code = "command-code"
provider_text cavoti = "cavoti"

abbrev pub provider_ids : List String
provider_ids = "chatgpt" ∷ "claude" ∷ "google" ∷ "command-code" ∷ "cavoti" ∷ []

unfoldable pub is_provider_id : Option Json → Bool
is_provider_id (some (str s)) = contains provider_ids s
is_provider_id _ = false

pub record DiscoveredModel : Type 0 where
  pub id : String
  pub provider : ProviderId
  pub upstream_model : String
  pub display_name : String
  pub capability : Option ProviderCapability

pub data ReasoningEffort : Type 0 where
  none low medium high xhigh max : ReasoningEffort

-- The only executable class of declaration.
pub record RouterFunctionTool : Type 0 where
  pub name : String
  pub description : Option String
  pub parameters : Json

-- Every class of declaration; each keeps what a refusal names.
pub data RouterTool : Type 0 where
  function : RouterFunctionTool → RouterTool
  namespace : (name : String) (raw : Fields) → RouterTool
  hosted : (type : String) (raw : Fields) → RouterTool
  unknown : (type : String) (raw : Fields) → RouterTool

unfoldable pub is_function_tool : RouterTool → Bool
is_function_tool (function t) = true
is_function_tool _ = false

pub record RouterToolCall : Type 0 where
  pub id : String
  pub name : String
  pub arguments : String

pub data RouterToolResultStatus : Type 0 where
  success error : RouterToolResultStatus

pub data Role : Type 0 where
  system user assistant tool : Role

pub record RouterMessage : Type 0 where
  pub role : Role
  pub content : Option String
  pub images : Option (List String)
  pub tool_call_id : Option String
  pub name : Option String
  pub tool_result_status : Option RouterToolResultStatus
  pub tool_calls : Option (List RouterToolCall)

pub data NormalizedToolChoice : Type 0 where
  auto none required : NormalizedToolChoice
  named : String → NormalizedToolChoice

-- `max_output_tokens` is the number as the body has it.
pub record RouterRequest : Type 0 where
  pub request_id : String
  pub profile : Option RouterProfile
  pub model : DiscoveredModel
  pub messages : List RouterMessage
  pub tools : List RouterFunctionTool
  pub stream : Bool
  pub max_output_tokens : Option Json
  pub reasoning_effort : Option ReasoningEffort
  pub tool_choice : Option NormalizedToolChoice
  pub parallel_tool_calls : Option Bool
