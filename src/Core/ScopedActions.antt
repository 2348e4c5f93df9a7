-- ===== src/Core/ScopedActions.antt =====
-- src/core/scoped-actions.ts: the actions that the Router may expose to CHAT.
use Prim.Native.Char.{code}
use Prim.Native.String.{String}
use text.Mathlib.TextEquality.{eq_iff}
use cmm_routers.Prelude.{
  ℕ, ◌≡◌, Bool, true, false, ◌&&◌, ◌||◌, not, Option, none, some, List, [], ◌∷◌, ◌==◌, string_eq,
  nat_eq, leb, ltb, length, arith, if◌then◌else◌, Bool-cases, Option-cases, inl, inr,
}
use cmm_routers.Prelude.OrderedMap.{OrderedMap, get, put, has, get-put}
use cmm_routers.Core.Json.{Json, obj}
use cmm_routers.Core.Errors.{
  Result, ok, err, router_error, router_internal_error, template, Result-cases, >>=-eq-ok, ◌>>=◌,
  ◌>>◌,
}
use cmm_routers.Core.Model.{RouterFunctionTool}

-- `parameters` and `sideEffect` are what the caller passed: their shape is checked when an action
-- is registered.
pub record ScopedActionDefinition : Type 0 where
  pub id : String
  pub display_name : String
  pub description : String
  pub parameters : Json
  pub side_effect : String

abbrev pub codes : String → List ℕ
codes String.[] = []
codes (String.◌∷◌ c s) = code c ∷ codes s

abbrev is_lower : ℕ → Bool
is_lower c = leb b'a' c && leb c b'z'

abbrev is_word : ℕ → Bool
is_word c = is_lower c || (leb b'0' c && leb c b'9')

abbrev is_separator : ℕ → Bool
is_separator c = c == b'.' || c == b'_' || c == b'-'

-- [a-z0-9]*(?:[._-][a-z0-9]+)*$, where a separator that has just been read wants a word
scan_action_id : Bool → List ℕ → Bool
scan_action_id after_separator [] = not after_separator
scan_action_id after_separator (c ∷ s) =
    (is_word c || not after_separator && is_separator c) && scan_action_id (not (is_word c)) s

abbrev starts_action_id : List ℕ → Bool
starts_action_id [] = false
starts_action_id (c ∷ s) = is_lower c && scan_action_id false s

-- ACTION_ID.test(id)
unfoldable pub matches_action_id : String → Bool
unfolding scan_action_id
matches_action_id id = starts_action_id (codes id)

abbrev is_object : Json → Bool
is_object (obj fields) = true
is_object _ = false

abbrev fail : List String → Result (Unit {0})
fail parts = err (router_error router_internal_error (template parts))

-- The message quotes the id by `JSON.stringify`, which leaves a text without quotes, backslashes
-- and control characters as it is.
unfoldable pub assert_definition : ScopedActionDefinition → Result (Unit {0})
unfolding matches_action_id
assert_definition d =
    if not (matches_action_id d.id) || ltb 128 (length (codes d.id))
    then fail ("Invalid scoped action id: \"" ∷ d.id ∷ "\"" ∷ [])
    else if d.display_name == ""
    then fail ("Scoped action " ∷ d.id ∷ " requires a displayName" ∷ [])
    else if not (is_object d.parameters)
    then fail ("Scoped action " ∷ d.id ∷ " parameters must be a JSON object schema" ∷ [])
    else if not (d.side_effect == "none")
        && not (d.side_effect == "read")
        && not (d.side_effect == "write")
    then fail ("Scoped action " ∷ d.id ∷ " has an invalid sideEffect" ∷ [])
    else ok tt

-- Freezing a definition does not change its value.
unfoldable pub define_scoped_action : ScopedActionDefinition → Result ScopedActionDefinition
define_scoped_action d = do assert_definition d; ok d

abbrev pub ScopedActionRegistry : Type 0
ScopedActionRegistry = OrderedMap String ScopedActionDefinition

unfoldable pub register :
    ScopedActionRegistry → ScopedActionDefinition → Result ScopedActionRegistry
register actions d = do
  assert_definition d
  if has actions d.id
      then err
          (router_error router_internal_error (template ("Duplicate scoped action: " ∷ d.id ∷ [])))
      else ok (put actions d.id d)

register_all : ScopedActionRegistry → List ScopedActionDefinition → Result ScopedActionRegistry
register_all actions [] = ok actions
register_all actions (d ∷ definitions) = do next ← register actions d; register_all next definitions

-- new ScopedActionRegistry(definitions)
unfoldable pub new_registry : List ScopedActionDefinition → Result ScopedActionRegistry
unfolding register_all
new_registry definitions = register_all [] definitions

abbrev pub tool_of : ScopedActionDefinition → RouterFunctionTool
tool_of action = record {
  name = action.id;
  description = some action.description;
  parameters = action.parameters;
}

unfoldable pub to_router_tool : ScopedActionRegistry → String → Option RouterFunctionTool
to_router_tool actions id = elim (get actions id) [
  | none ↦ none
  | some action ↦ some (tool_of action)
]

-- Each action stands under its own id and has passed the checks.
pub record IsSound (actions : ScopedActionRegistry) : Type 0 where
  pub keyed : (id : String) (d : ScopedActionDefinition) → get actions id ≡ some d → d.id ≡ id
  pub checked :
      (id : String) (d : ScopedActionDefinition)
      → get actions id ≡ some d
      → assert_definition d ≡ ok tt

register-IsSound :
    (actions next : ScopedActionRegistry) (d : ScopedActionDefinition)
    → IsSound actions
    → register actions d ≡ ok next
    → IsSound next
unfolding register
register-IsSound actions next d h e = elim (Result-cases (assert_definition d)) [
  | inl (bad, no_good) ↦ cc (rw (no_good, register) at e)
  | inr (u, good) ↦ elim (Bool-cases (has actions d.id)) [
    | inl twice ↦ absurd (ground arith)
    | inr fresh ↦
        let same : put actions d.id d ≡ next = ground arith in
        record {
          keyed =
              λ id d' k. ground (arith, get-put actions d.id id d, eq_iff d.id id, h.keyed id d');
          checked =
              λ id d' k. ground (arith, get-put actions d.id id d, eq_iff d.id id, h.checked id d');
        }
  ]
]

empty-IsSound : IsSound []
unfolding get
empty-IsSound = record { keyed = λ id d h. cc; checked = λ id d h. cc }

pub name-to_router_tool :
    (registry : ScopedActionRegistry) (id : String) (t : RouterFunctionTool)
    → IsSound registry
    → to_router_tool registry id ≡ some t
    → t.name ≡ id
unfolding to_router_tool
name-to_router_tool registry id t sound h = elim (Option-cases (get registry id)) [
  | inl absent ↦ absurd (ground arith)
  | inr (d, found) ↦ ground (arith, sound.keyed id d found)
]

register_all-IsSound :
    (actions registry : ScopedActionRegistry) (definitions : List ScopedActionDefinition)
    → IsSound actions
    → register_all actions definitions ≡ ok registry
    → IsSound registry
unfolding register_all
register_all-IsSound actions registry [] h e = ground (arith, e, h)
register_all-IsSound actions registry (d ∷ ds) h e =
    let (next, first, later) = >>=-eq-ok (register actions d) (λ next. register_all next ds) e in
    register_all-IsSound next registry ds (register-IsSound actions next d h first) later

-- In a registry that was built, every action stands under its own id and has passed the checks.
pub new_registry-IsSound :
    (definitions : List ScopedActionDefinition) (registry : ScopedActionRegistry)
    → new_registry definitions ≡ ok registry
    → IsSound registry
unfolding new_registry
new_registry-IsSound definitions registry e =
    register_all-IsSound [] registry definitions empty-IsSound e
