-- ===== src/Core/ToolAccess/Refusals.antt =====
-- What is refused: tools without the capability for them, and CHAT tools without a grant.
use cmm_routers.Prelude.{
  String, ◌≡◌, ◌⊎◌, inl, inr, ap, true, false, none, List, [], ◌∷◌, string_eq, nat_eq, map,
  contains, get_or_else, arith, All,
}
use cmm_routers.Prelude.OrderedMap.{has}
use cmm_routers.Core.Profile.{chat, carries_tools}
use cmm_routers.Core.Model.{RouterFunctionTool}
use cmm_routers.Core.ScopedActions.{ScopedActionRegistry}
use cmm_routers.Core.ToolAccess.Types.{ToolAccessRequest, EffectiveToolAccess, allow}
use cmm_routers.Core.ToolAccess.History.{inspect_tool_history, is_nil}
use cmm_routers.Core.ToolAccess.Decision.{resolve_tool_access}
use cmm_routers.Core.ToolAccess.Grants.{IsPlain, IsScoped, chat_allowed}

-- Without the capability for tools only a request without any tool semantics is allowed, for either
-- profile, whatever it has been granted.
pub incapable_allowed :
    (r : ToolAccessRequest) (a : EffectiveToolAccess)
    → resolve_tool_access r ≡ allow a
    → carries_tools r.provider_capability ≡ false
    → (r.tools ≡ [])
      × (r.tool_choice ≡ none)
      × (r.parallel_tool_calls ≡ none)
      × ((inspect_tool_history r.messages).has_assistant_calls ≡ false)
      × ((inspect_tool_history r.messages).has_tool_results ≡ false)
unfolding resolve_tool_access
incapable_allowed r a h c = ground arith

no_grant :
    (tools : List RouterFunctionTool) (registry : ScopedActionRegistry) (grants : List String)
    → is_nil tools ≡ false
    → grants ≡ []
    → All
        (λ name. (has registry name ≡ true) × (contains grants name ≡ true))
        (map (λ t. t.name) tools)
    → ⊥
no_grant [] registry grants h e all = cc
no_grant (t ∷ ts) registry grants h e all =
    cc (all.0.1, ap (λ (l : List String). contains l t.name) e)

unregistered :
    (r : ToolAccessRequest) (a : EffectiveToolAccess)
    → (get_or_else r.granted_actions [] ≡ []) ⊎ (r.scoped_actions ≡ none)
    → IsScoped r a
    → ⊥
unregistered r a (inl empty) s =
    no_grant r.tools s.registry (get_or_else r.granted_actions []) s.with_tools empty s.granted
unregistered r a (inr absent) s = cc (absent, s.registered)

-- A CHAT request with no grants, or with no registry, is refused as soon as it carries tools, a
-- choice, a parallel flag, or calls and results of tools.
pub chat_without_grants :
    (r : ToolAccessRequest) (a : EffectiveToolAccess)
    → r.profile ≡ chat
    → (get_or_else r.granted_actions [] ≡ []) ⊎ (r.scoped_actions ≡ none)
    → resolve_tool_access r ≡ allow a
    → IsPlain r a
chat_without_grants r a p missing h = elim (chat_allowed r a p h) [
  | inl plain ↦ plain
  | inr scoped ↦ absurd (unregistered r a missing scoped)
]
