-- ===== src/Core/ToolKind.antt =====
-- src/core/tool-kind.ts: the classes of tool declarations.
use text.Mathlib.TextEquality.{eq_iff}
use cmm_routers.Prelude.{
  ap, Bool-cases, inl, inr, eq_of_==, String, ◌≡◌, ◌≢◌, ◌↔◌, Bool, true, Option, none, some, List,
  [], ◌∷◌, ◌==◌, string_eq, contains, get_or_else, arith, if◌then◌else◌,
}
use cmm_routers.Core.Json.{Json, obj, Fields, end, prop, prop?, as_string, as_object}
use cmm_routers.Core.Errors.{RouterError, router_error, template, unsupported_capability}
use cmm_routers.Core.Model.{RouterTool, RouterFunctionTool, is_function_tool}

pub data ToolDeclarationKind : Type 0 where
  function namespace hosted unknown : ToolDeclarationKind

pub data ToolKindSupport : Type 0 where
  supported explicit_unsupported fail_closed : ToolKindSupport

abbrev pub hosted_tool_types : List String
hosted_tool_types =
    "web_search" ∷ "web_search_preview" ∷ "web_search_preview_2025_03_11" ∷ "file_search"
    ∷ "code_interpreter" ∷ "computer_use_preview" ∷ "image_generation" ∷ "mcp" ∷ "local_shell"
    ∷ "custom" ∷ []

unfoldable pub tool_kind_policy_for : ToolDeclarationKind → ToolKindSupport
tool_kind_policy_for function = supported
tool_kind_policy_for namespace = explicit_unsupported
tool_kind_policy_for hosted = explicit_unsupported
tool_kind_policy_for unknown = fail_closed

abbrev kind_of_string : Option String → ToolDeclarationKind
kind_of_string none = unknown
kind_of_string (some type) =
    if type == "function"
    then function
    else if type == "namespace"
    then namespace
    else if contains hosted_tool_types type
    then hosted
    else unknown

unfoldable pub classify_tool_declaration_type : Option Json → ToolDeclarationKind
classify_tool_declaration_type type = kind_of_string (as_string type)

abbrev kind_text : ToolDeclarationKind → String
kind_text function = "function"
kind_text namespace = "namespace"
kind_text hosted = "hosted"
kind_text unknown = "unknown"

abbrev wire_suffix : Option String → String
wire_suffix none = ""
wire_suffix (some type) = if type == "" then "" else template (" (wire type '" ∷ type ∷ "')" ∷ [])

unfoldable pub unsupported_tool_kind_error : ToolDeclarationKind → Option Json → RouterError
unsupported_tool_kind_error unknown declared = router_error unsupported_capability (
    template (
      "The request declares a tool whose type is not recognized"
      ∷ wire_suffix (as_string declared)
      ∷ "; refusing to guess instead of dropping it silently"
      ∷ []))
unsupported_tool_kind_error kind declared = router_error unsupported_capability (
    template (
      "The Router cannot faithfully represent a tool of class '"
      ∷ kind_text kind
      ∷ "'"
      ∷ wire_suffix (as_string declared)
      ∷ "; refusing to drop it silently"
      ∷ []))

-- the description: the outer one if it is a string, else the inner one
abbrev description_of : Option String → Option String → Option String
description_of (some outer) inner = some outer
description_of none inner = inner

abbrev represent_function : Fields → RouterFunctionTool
represent_function record_ =
    let fn = as_object (prop record_ "function") in
    record {
      name =
          get_or_else (as_string (prop? fn "name"))
            (get_or_else (as_string (prop record_ "name")) "");
      description =
          description_of (as_string (prop record_ "description"))
            (as_string (prop? fn "description"));
      parameters =
          get_or_else (as_object (prop? fn "parameters"))
            (get_or_else (as_object (prop record_ "parameters")) (obj end));
    }

unfoldable pub represent_tool_declaration : ToolDeclarationKind → Fields → RouterTool
represent_tool_declaration function raw = RouterTool.function (represent_function raw)
represent_tool_declaration namespace raw =
    RouterTool.namespace (get_or_else (as_string (prop raw "name")) "") raw
represent_tool_declaration hosted raw =
    RouterTool.hosted (get_or_else (as_string (prop raw "type")) "unknown") raw
represent_tool_declaration unknown raw =
    RouterTool.unknown (get_or_else (as_string (prop raw "type")) "unknown") raw

represented_supported :
    (kind : ToolDeclarationKind) (raw : Fields)
    → (is_function_tool (represent_tool_declaration kind raw) ≡ true)
      ↔ (tool_kind_policy_for kind ≡ supported)
unfolding is_function_tool represent_tool_declaration tool_kind_policy_for
represented_supported function raw = ground arith
represented_supported namespace raw = ground arith
represented_supported hosted raw = ground arith
represented_supported unknown raw = ground arith

not_function : (b c : Bool) → (if b then namespace else if c then hosted else unknown) ≢ function
not_function b c = ground arith

function_iff : (type : Option String) → (kind_of_string type ≡ function) ↔ (type ≡ some "function")
function_iff none = ground arith
function_iff (some type) = elim (Bool-cases (type == "function")) [
  | inl same ↦ (λ _. ap some (eq_of_== type "function" same), λ _. rw same)
  | inr other ↦ (
    λ h.
        absurd
          (not_function (type == "namespace") (contains hosted_tool_types type) (rw other at h)),
    λ h. let same : type ≡ "function" = cc in cc (other, (eq_iff type "function").1 same),
  )
]

pub classify_function_iff :
    (type : Option Json)
    → (classify_tool_declaration_type type ≡ function) ↔ (as_string type ≡ some "function")
unfolding classify_tool_declaration_type
classify_function_iff type = function_iff (as_string type)

policy_function :
    (kind : ToolDeclarationKind) → (tool_kind_policy_for kind ≡ supported) ↔ (kind ≡ function)
unfolding tool_kind_policy_for
policy_function kind = ground arith

-- A declaration is represented as the executable class exactly if the policy supports its class,
-- and that is exactly if its wire type is the text "function".
pub supported_iff :
    (raw : Fields)
    → let kind = classify_tool_declaration_type (prop raw "type") in
      ((is_function_tool (represent_tool_declaration kind raw) ≡ true)
        ↔ (tool_kind_policy_for kind ≡ supported))
      × ((tool_kind_policy_for kind ≡ supported) ↔ (as_string (prop raw "type") ≡ some "function"))
unfolding classify_tool_declaration_type
supported_iff raw = (
  represented_supported _ raw,
  (
    λ h. (function_iff (as_string (prop raw "type"))).0 ((policy_function _).0 h),
    λ h. (policy_function _).1 ((function_iff (as_string (prop raw "type"))).1 h),
  ),
)
