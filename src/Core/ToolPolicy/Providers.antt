-- ===== src/Core/ToolPolicy/Providers.antt =====
-- What is enforced for each provider, against what is published of it.
use cmm_routers.Prelude.{◌≡◌, ◌↔◌, ◌⊎◌, refl, Bool, Option, none, some, arith}
use cmm_routers.Core.Errors.{RouterError, unsupported_capability}
use cmm_routers.Core.Model.{
  ProviderId, chatgpt, claude, google, command_code, cavoti, NormalizedToolChoice, auto, required,
}
use cmm_routers.Core.ToolPolicy.{
  enforce_provider_tool_policy, provider_tool_policy_support, full, auto_only,
}

-- Support is published as `full` for exactly the providers that refuse no selection and no parallel
-- flag.
pub full_iff :
    (p : ProviderId)
    → ((provider_tool_policy_support p).tool_choice ≡ full) ↔ (
        (policy : Option NormalizedToolChoice) (parallel : Option Bool)
        → enforce_provider_tool_policy p policy parallel ≡ none)
unfolding provider_tool_policy_support enforce_provider_tool_policy
full_iff chatgpt = (λ h. cc, λ h. cc (h (some required) none))
full_iff claude = (λ h. cc, λ h. cc (h (some required) none))
full_iff google = (λ h. cc, λ h. cc (h (some required) none))
full_iff command_code = (λ h p q. refl, λ h. refl)
full_iff cavoti = (λ h p q. refl, λ h. refl)

-- Where it is published as `auto_only`, a selection without a parallel flag passes exactly if it is
-- absent or `auto`.
pub auto_only-passes :
    (p : ProviderId) (policy : Option NormalizedToolChoice)
    → (provider_tool_policy_support p).tool_choice ≡ auto_only
    → (enforce_provider_tool_policy p policy none ≡ none) ↔ ((policy ≡ none) ⊎ (policy ≡ some auto))
unfolding provider_tool_policy_support enforce_provider_tool_policy
auto_only-passes p policy h = ground arith

-- A refusal is always `unsupported_capability`.
pub enforce-code :
    (p : ProviderId) (policy : Option NormalizedToolChoice) (parallel : Option Bool)
    (e : RouterError)
    → enforce_provider_tool_policy p policy parallel ≡ some e
    → e.code ≡ unsupported_capability
unfolding enforce_provider_tool_policy
enforce-code p policy parallel e h = ground arith
