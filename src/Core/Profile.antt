-- ===== src/Core/Profile.antt =====
-- src/core/router-profile.ts
use cmm_routers.Prelude.{◌≡◌, refl, ◌↔◌, Bool, true, false, Option, some, Eq}

pub data RouterProfile : Type 0 where
  chat : RouterProfile
  agent : RouterProfile

-- core/model.ts `ProviderCapability`
pub data ProviderCapability : Type 0 where
  chat_and_tools : ProviderCapability
  chat_only : ProviderCapability

abbrev pub profile_beq : RouterProfile → RouterProfile → Bool
profile_beq chat chat = true
profile_beq agent agent = true
profile_beq _ _ = false

pub profile_beq_iff : (a b : RouterProfile) → (profile_beq a b ≡ true) ↔ (a ≡ b)
profile_beq_iff chat chat = (λ _. refl, λ _. refl)
profile_beq_iff chat agent = (λ h. cc, λ h. cc)
profile_beq_iff agent chat = (λ h. cc, λ h. cc)
profile_beq_iff agent agent = (λ _. refl, λ _. refl)

instance abbrev pub profile_eq : Eq RouterProfile
profile_eq = record { beq = profile_beq; beq_iff = profile_beq_iff }

-- `capability === "CHAT_AND_TOOLS"`; the capability may be absent
abbrev pub carries_tools : Option ProviderCapability → Bool
carries_tools (some chat_and_tools) = true
carries_tools _ = false

-- The legacy capability, with no grant as its input.
unfoldable pub effective_profile_tool_capability :
    RouterProfile → Option ProviderCapability → ProviderCapability
effective_profile_tool_capability chat capability = chat_only
effective_profile_tool_capability agent (some chat_and_tools) = chat_and_tools
effective_profile_tool_capability agent _ = chat_only
