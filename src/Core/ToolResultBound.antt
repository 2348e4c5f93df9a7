-- ===== src/Core/ToolResultBound.antt =====
-- src/core/tool-result-bound.ts and src/core/tool-result-status.ts.
use Prim.Native.String
use Prim.Native.String.{String}
use cmm_routers.Prelude.{
  ℕ, ◌≤◌, Bool, false, Option, none, some, List, [], ◌∷◌, ltb, if◌then◌else◌, ◌≡◌, ◌↔◌, refl, arith,
  All, Bool-cases, inl, inr,
}
use cmm_routers.Core.Errors.{Result, ok, err, router_error, invalid_request}
use cmm_routers.Core.Model.{RouterMessage, RouterToolResultStatus, Role, tool}

abbrev pub max_tool_result_bytes : ℕ
max_tool_result_bytes = 1048576

-- whether a message is a tool message whose content is larger than the bound
abbrev pub is_oversize : Role → Option String → Bool
is_oversize tool (some content) = ltb max_tool_result_bytes (String.len content)
is_oversize _ content = false

unfoldable pub assert_tool_results_within_bound : List RouterMessage → Result (Unit {0})
assert_tool_results_within_bound [] = ok tt
assert_tool_results_within_bound (m ∷ messages) =
    let rest = assert_tool_results_within_bound messages in
    if is_oversize m.role m.content
    then err (router_error invalid_request "Tool result exceeds the 1048576 byte limit")
    else rest

unfoldable pub tool_result_status_suffix : Option RouterToolResultStatus → String
tool_result_status_suffix (some RouterToolResultStatus.error) = " error"
tool_result_status_suffix _ = ""

-- A content that is at most 1 MiB of UTF-8, or is not a tool's.
abbrev pub IsWithinBound : Role → Option String → Type 0
IsWithinBound tool (some content) = String.len content ≤ 1048576
IsWithinBound _ content = Unit

within_iff :
    (role : Role) (content : Option String)
    → (is_oversize role content ≡ false) ↔ IsWithinBound role content
within_iff Role.system content = (λ h. tt, λ h. refl)
within_iff Role.user content = (λ h. tt, λ h. refl)
within_iff Role.assistant content = (λ h. tt, λ h. refl)
within_iff tool none = (λ h. tt, λ h. refl)
within_iff tool (some content) = ground arith

-- A request passes the bound exactly when the content of each of its tool messages is at most one
-- mebibyte of UTF-8.
pub assert_tool_results_within_bound_iff :
    (messages : List RouterMessage)
    → (assert_tool_results_within_bound messages ≡ ok tt)
      ↔ All (λ m. IsWithinBound m.role m.content) messages
unfolding assert_tool_results_within_bound
assert_tool_results_within_bound_iff [] = (λ h. tt, λ h. refl)
assert_tool_results_within_bound_iff (m ∷ messages) =
    let rest = assert_tool_results_within_bound_iff messages in
    elim (Bool-cases (is_oversize m.role m.content)) [
      | inl large ↦ rw large (
        λ h. cc,
        λ h.
            let e : is_oversize m.role m.content ≡ false = (within_iff m.role m.content).1 h.0 in
            cc,
      )
      | inr fits ↦ rw fits (λ h. ((within_iff m.role m.content).0 fits, rest.0 h), λ h. rest.1 h.1)
    ]
