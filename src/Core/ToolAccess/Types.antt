-- ===== src/Core/ToolAccess/Types.antt =====
-- src/core/tool-access-policy.ts: what a decision is made on, and the decision.
use cmm_routers.Prelude.{String, Bool, Option, List, ◌≡◌, refl, ◌⊎◌, inl, inr}
use cmm_routers.Core.Errors.{RouterError}
use cmm_routers.Core.Profile.{RouterProfile, ProviderCapability}
use cmm_routers.Core.Model.{ProviderId, RouterFunctionTool, RouterMessage, NormalizedToolChoice}
use cmm_routers.Core.ScopedActions.{ScopedActionRegistry}

pub data ToolAccessMode : Type 0 where
  none scoped agent : ToolAccessMode

pub record ToolAccessRequest : Type 0 where
  pub profile : RouterProfile
  pub provider : ProviderId
  pub provider_capability : Option ProviderCapability
  pub tools : List RouterFunctionTool
  pub tool_choice : Option NormalizedToolChoice
  pub parallel_tool_calls : Option Bool
  pub messages : List RouterMessage
  pub scoped_actions : Option ScopedActionRegistry
  pub granted_actions : Option (List String)

-- What the server is configured with; no request adds to it.
pub record ToolAccessConfig : Type 0 where
  pub scoped_actions : Option ScopedActionRegistry
  pub granted_actions : Option (List String)

pub record EffectiveToolAccess : Type 0 where
  pub mode : ToolAccessMode
  pub tools : List RouterFunctionTool
  pub allowed_tool_names : List String
  pub granted_actions : List String

pub data ToolAccessDecision : Type 0 where
  allow : EffectiveToolAccess → ToolAccessDecision
  deny : RouterError → ToolAccessDecision

pub Decision-cases :
    (d : ToolAccessDecision)
    → ((e : RouterError) × (d ≡ deny e)) ⊎ ((a : EffectiveToolAccess) × (d ≡ allow a))
Decision-cases (deny e) = inl (e, refl)
Decision-cases (allow a) = inr (a, refl)
