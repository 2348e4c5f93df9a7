-- ===== src/Core/ToolAccess/Grants.antt =====
-- What an allowed request may carry, for each profile.
use cmm_routers.Prelude.{
  String, ◌≡◌, ◌⊎◌, inl, inr, refl, sym, ap, subst, true, false, not, ◌&&◌, ◌||◌, Option, none,
  some, List, [], ◌∷◌, string_eq, nat_eq, map, length, contains, get_or_else, arith, All,
  Bool-cases, Option-cases,
}
use cmm_routers.Prelude.OrderedMap.{has}
use cmm_routers.Core.Errors.{ok, Result-cases}
use cmm_routers.Core.Profile.{chat, agent}
use cmm_routers.Core.Model.{RouterFunctionTool, NormalizedToolChoice}
use cmm_routers.Core.ScopedActions.{ScopedActionRegistry, to_router_tool}
use cmm_routers.Core.ToolAccess.Types.{
  ToolAccessMode, ToolAccessRequest, EffectiveToolAccess, allow,
}
use cmm_routers.Core.ToolAccess.NameSet.{to_set, contains-to_set, IsUnique, IsUnique-of_length}
use cmm_routers.Core.ToolAccess.History.{ToolHistory, inspect_tool_history, is_nil}
use cmm_routers.Core.ToolAccess.Decision.{
  names_undeclared, check_names, canonical_tools, check_history_names, scoped_access,
  canonical_access, granted_access, chat_access, agent_access, resolve_tool_access,
}

abbrev pub names_of : ToolAccessRequest → List String
names_of r = map (λ t. t.name) r.tools

-- the action is registered and granted
abbrev pub IsGranted : ToolAccessRequest → ScopedActionRegistry → String → Type 0
IsGranted r registry name =
    (has registry name ≡ true) × (contains (get_or_else r.granted_actions []) name ≡ true)

check_names-All :
    (registry : ScopedActionRegistry) (grants names : List String)
    → check_names registry grants names ≡ none
    → All (λ name. (has registry name ≡ true) × (contains grants name ≡ true)) names
unfolding check_names
check_names-All registry grants [] h = tt
check_names-All registry grants (name ∷ names) h =
    ground (arith, check_names-All registry grants names)

-- the tools are the registry's own definitions of these names, one for each and in their order
abbrev pub IsCanonical : ScopedActionRegistry → List String → List RouterFunctionTool → Type 0
IsCanonical registry [] [] = Unit
IsCanonical registry (name ∷ names) (t ∷ ts) =
    (to_router_tool registry name ≡ some t) × IsCanonical registry names ts
IsCanonical registry _ _ = ⊥

canonical_tools-IsCanonical :
    (registry : ScopedActionRegistry) (names : List String) (tools : List RouterFunctionTool)
    → canonical_tools registry names ≡ ok tools
    → IsCanonical registry names tools
unfolding canonical_tools
canonical_tools-IsCanonical registry [] tools h =
    let e : [] ≡ tools = cc in subst (IsCanonical registry []) e tt
canonical_tools-IsCanonical registry (name ∷ names) tools h =
    elim (Option-cases (to_router_tool registry name)) [
      | inl gone ↦ absurd (ground arith)
      | inr (t, found) ↦ elim (Result-cases (canonical_tools registry names)) [
        | inl (e, bad) ↦ absurd (ground arith)
        | inr (ts, good) ↦
            let e : t ∷ ts ≡ tools = ground arith in
            subst (IsCanonical registry (name ∷ names)) e
              (found, canonical_tools-IsCanonical registry names ts good)
      ]
    ]

scoped_access_allows :
    (r : ToolAccessRequest) (history : ToolHistory) (names grants : List String)
    (tools : List RouterFunctionTool) (a : EffectiveToolAccess)
    → scoped_access r history names grants tools ≡ allow a
    → (a ≡ record {
      mode = ToolAccessMode.scoped;
      tools = tools;
      allowed_tool_names = to_set names;
      granted_actions = grants;
    })
      × (check_history_names (to_set names) history.assistant_call_names ≡ none)
      × (((history.has_tool_results || history.has_assistant_calls) && not history.correlated)
          ≡ false)
      × (names_undeclared r.tool_choice (to_set names) ≡ false)
unfolding scoped_access
scoped_access_allows r history names grants tools a h = ground arith

-- What a CHAT request with tools was allowed for.
pub record IsScoped (r : ToolAccessRequest) (a : EffectiveToolAccess) : Type 0 where
  pub registry : ScopedActionRegistry
  pub registered : r.scoped_actions ≡ some registry
  pub mode : a.mode ≡ ToolAccessMode.scoped
  pub with_tools : is_nil r.tools ≡ false
  pub unique : IsUnique (names_of r)
  pub granted : All (IsGranted r registry) (names_of r)
  pub canonical : IsCanonical registry (names_of r) a.tools
  pub allowed : (name : String) → contains a.allowed_tool_names name ≡ contains (names_of r) name

-- What a CHAT request without tools was allowed for.
pub record IsPlain (r : ToolAccessRequest) (a : EffectiveToolAccess) : Type 0 where
  pub mode : a.mode ≡ ToolAccessMode.none
  pub no_tools : a.tools ≡ []
  pub no_choice : r.tool_choice ≡ none
  pub no_parallel : r.parallel_tool_calls ≡ none
  pub no_calls : (inspect_tool_history r.messages).has_assistant_calls ≡ false
  pub no_results : (inspect_tool_history r.messages).has_tool_results ≡ false

grants_allow :
    (grants granted names : List String) (registry : ScopedActionRegistry)
    → ((x : String) → contains grants x ≡ contains granted x)
    → All (λ name. (has registry name ≡ true) × (contains grants name ≡ true)) names
    → All (λ name. (has registry name ≡ true) × (contains granted name ≡ true)) names
grants_allow grants granted [] registry same h = tt
grants_allow grants granted (name ∷ names) registry same h =
    ((h.0.0, rw (← same name) h.0.1), grants_allow grants granted names registry same h.1)

granted_access_allows :
    (r : ToolAccessRequest) (history : ToolHistory) (names grants : List String)
    (registered : Option ScopedActionRegistry) (a : EffectiveToolAccess)
    → granted_access r history names grants registered ≡ allow a
    → (registry : ScopedActionRegistry) × (tools : List RouterFunctionTool) × (registered
        ≡ some registry)
      × (check_names registry grants names ≡ none)
      × (canonical_tools registry names ≡ ok tools)
      × (scoped_access r history names grants tools ≡ allow a)
unfolding granted_access canonical_access
granted_access_allows r history names grants none a h = cc
granted_access_allows r history names grants (some registry) a h =
    elim (Result-cases (canonical_tools registry names)) [
      | inl (e, bad) ↦ absurd (ground arith)
      | inr (tools, good) ↦ (registry, tools, refl, ground arith, good, ground arith)
    ]

resolve_chat :
    (r : ToolAccessRequest) (a : EffectiveToolAccess)
    → r.profile ≡ chat
    → resolve_tool_access r ≡ allow a
    → chat_access r (inspect_tool_history r.messages) (names_of r) ≡ allow a
unfolding resolve_tool_access
resolve_chat r a p h = ground arith

chat-IsPlain :
    (r : ToolAccessRequest) (a : EffectiveToolAccess)
    → is_nil r.tools ≡ true
    → chat_access r (inspect_tool_history r.messages) (names_of r) ≡ allow a
    → IsPlain r a
unfolding chat_access
chat-IsPlain r a none_ h = ground arith

chat_with_tools :
    (r : ToolAccessRequest) (a : EffectiveToolAccess)
    → is_nil r.tools ≡ false
    → chat_access r (inspect_tool_history r.messages) (names_of r) ≡ allow a
    → (length (to_set (names_of r)) ≡ length (names_of r))
      × (granted_access r
            (inspect_tool_history r.messages)
            (names_of r)
            (to_set (get_or_else r.granted_actions []))
            r.scoped_actions
          ≡ allow a)
unfolding chat_access
chat_with_tools r a some_ h = ground arith

chat-IsScoped :
    (r : ToolAccessRequest) (a : EffectiveToolAccess)
    → is_nil r.tools ≡ false
    → chat_access r (inspect_tool_history r.messages) (names_of r) ≡ allow a
    → IsScoped r a
chat-IsScoped r a some_ h =
    let (unique, granted) = chat_with_tools r a some_ h in
    let (registry, tools, registered, checked, canonical, scoped) =
      granted_access_allows r _ (names_of r) _ r.scoped_actions a granted in
    let shape = (scoped_access_allows r _ (names_of r) _ tools a scoped).0 in
    record {
      registry = registry;
      registered = registered;
      mode = ap (λ (x : EffectiveToolAccess). x.mode) shape;
      with_tools = some_;
      unique = IsUnique-of_length (names_of r) unique;
      granted =
          grants_allow _ _ (names_of r) registry (contains-to_set _)
            (check_names-All registry _ (names_of r) checked);
      canonical =
          subst (λ (x : EffectiveToolAccess). IsCanonical registry (names_of r) x.tools) (sym shape)
            (canonical_tools-IsCanonical registry (names_of r) tools canonical);
      allowed = λ name.
          subst
            (λ (x : EffectiveToolAccess).
              contains x.allowed_tool_names name ≡ contains (names_of r) name)
            (sym shape) (contains-to_set (names_of r) name);
    }

pub chat_allowed :
    (r : ToolAccessRequest) (a : EffectiveToolAccess)
    → r.profile ≡ chat
    → resolve_tool_access r ≡ allow a
    → IsPlain r a ⊎ IsScoped r a
chat_allowed r a p h = elim (Bool-cases (is_nil r.tools)) [
  | inl plain ↦ inl (chat-IsPlain r a plain (resolve_chat r a p h))
  | inr tools ↦ inr (chat-IsScoped r a tools (resolve_chat r a p h))
]

-- A choice of a tool by its name names one of the declared tools.
abbrev pub ChoosesDeclared : Option NormalizedToolChoice → List String → Type 0
ChoosesDeclared (some (NormalizedToolChoice.named name)) names = contains names name ≡ true
ChoosesDeclared _ names = Unit

chooses :
    (choice : Option NormalizedToolChoice) (names : List String)
    → names_undeclared choice (to_set names) ≡ false
    → ChoosesDeclared choice names
chooses (some (NormalizedToolChoice.named name)) names h =
    ground (arith, h, contains-to_set names name)
chooses (some NormalizedToolChoice.auto) names h = tt
chooses (some NormalizedToolChoice.none) names h = tt
chooses (some NormalizedToolChoice.required) names h = tt
chooses none names h = tt

-- An AGENT request that is allowed carries the caller's tools unchanged and no grant of CHAT, and a
-- choice of a tool by its name names one of them.
pub agent_allowed :
    (r : ToolAccessRequest) (a : EffectiveToolAccess)
    → r.profile ≡ agent
    → resolve_tool_access r ≡ allow a
    → (a.mode ≡ ToolAccessMode.agent)
      × (a.tools ≡ r.tools)
      × (a.granted_actions ≡ [])
      × ChoosesDeclared r.tool_choice (names_of r)
unfolding resolve_tool_access agent_access
agent_allowed r a p h = (
  ground arith,
  ground arith,
  ground arith,
  chooses r.tool_choice (names_of r) (ground (arith, h, p)),
)
