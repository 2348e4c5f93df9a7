-- ===== src/Http/Chat/Tools.antt =====
-- src/http/openai-chat.ts: `parseTools`.
use Prim.Native.String.{String}
use cmm_routers.Prelude.{Option, none, some, List, [], ◌∷◌, string_eq, ◌≡◌, ◌≢◌, ◌↔◌, refl}
use cmm_routers.Core.Json.{
  Json, str, arr, obj, Fields, end, field, prop, prop?, as_string, as_record, elements,
}
use cmm_routers.Core.Errors.{RouterError, Result, ok, err, router_error, invalid_request}
use cmm_routers.Core.Model.{RouterTool, RouterFunctionTool}
use cmm_routers.Core.ToolKind.{
  ToolDeclarationKind, classify_function_iff, classify_tool_declaration_type,
  unsupported_tool_kind_error, represent_tool_declaration,
}

-- the object that is represented; a description that is not a string is left out
abbrev pub declaration_of : String → Option String → Fields → Fields
declaration_of name none parameters =
    field "type" (str "function")
      (field "name" (str name) (field "parameters" (obj parameters) end))
declaration_of name (some description) parameters = field "type" (str "function") (
    field "name" (str name)
      (field "description" (str description) (field "parameters" (obj parameters) end)))

-- `fn.parameters`: none if it is absent, and no object if it is one of another type
unfoldable pub parameters_of : Option Json → Option Fields
parameters_of none = some end
parameters_of (some v) = as_record (some v)

-- `isFunctionTool(represented)`, else the refusal
abbrev pub only_function : RouterTool → RouterError → Result RouterFunctionTool
only_function (RouterTool.function t) e = ok t
only_function _ e = err e

unfoldable pub tool_of :
    Option String → Option String → Option Fields → Option Json → Result RouterFunctionTool
tool_of none description parameters type =
    err (router_error invalid_request "a function tool requires a name")
tool_of (some name) description none type =
    err (router_error invalid_request "a function tool's parameters must be an object")
tool_of (some name) description (some parameters) type =
    only_function
      (represent_tool_declaration ToolDeclarationKind.function
        (declaration_of name description parameters))
      (unsupported_tool_kind_error ToolDeclarationKind.function type)

unfoldable pub by_kind : ToolDeclarationKind → Fields → Result RouterFunctionTool
unfolding tool_of
by_kind ToolDeclarationKind.function record_ =
    let fn = prop record_ "function" in
    tool_of (as_string (prop? fn "name")) (as_string (prop? fn "description"))
      (parameters_of (prop? fn "parameters")) (prop record_ "type")
by_kind kind record_ = err (unsupported_tool_kind_error kind (prop record_ "type"))

-- one round of the loop over the declarations
unfoldable pub parse_tool : Json → Result RouterFunctionTool
unfolding by_kind
parse_tool (obj record_) = by_kind (classify_tool_declaration_type (prop record_ "type")) record_
parse_tool _ = err (router_error invalid_request "each entry in tools must be an object")

abbrev pub prepend :
    Result RouterFunctionTool → Result (List RouterFunctionTool) → Result (List RouterFunctionTool)
prepend (err e) rest = err e
prepend (ok t) (err e) = err e
prepend (ok t) (ok ts) = ok (t ∷ ts)

unfoldable pub parse_tool_entries : List Json → Result (List RouterFunctionTool)
unfolding parse_tool
parse_tool_entries [] = ok []
parse_tool_entries (entry ∷ entries) = prepend (parse_tool entry) (parse_tool_entries entries)

unfoldable pub parse_tools : Option Json → Result (List RouterFunctionTool)
unfolding parse_tool_entries
parse_tools none = ok []
parse_tools (some (arr entries)) = parse_tool_entries (elements entries)
parse_tools _ = err (router_error invalid_request "tools must be an array")

-- An entry that declares the function `t`: its type is "function", and the name, the description and
-- the parameters are those of its member `function`.
abbrev pub Declares : Json → RouterFunctionTool → Type 0
Declares (obj record_) t =
    let fn = prop record_ "function" in
    (as_string (prop record_ "type") ≡ some "function")
    × (as_string (prop? fn "name") ≡ some t.name)
    × (as_string (prop? fn "description") ≡ t.description)
    × ((parameters : Fields) × (parameters_of (prop? fn "parameters") ≡ some parameters)
        × (t.parameters ≡ obj parameters))
Declares _ t = ⊥

abbrev pub AllDeclare : List Json → List RouterFunctionTool → Type 0
AllDeclare [] [] = Unit
AllDeclare (entry ∷ entries) (t ∷ ts) = Declares entry t × AllDeclare entries ts
AllDeclare _ _ = ⊥

represented :
    (name : String) (description : Option String) (parameters : Fields)
    → represent_tool_declaration ToolDeclarationKind.function
        (declaration_of name description parameters)
      ≡ RouterTool.function
          (record { name = name; description = description; parameters = obj parameters })
unfolding represent_tool_declaration
represented name none parameters = refl
represented name (some description) parameters = refl

same_tool_iff :
    (name : String) (description : Option String) (parameters : Fields) (t : RouterFunctionTool)
    → (◌≡◌ {A = Result RouterFunctionTool}
        (ok (record { name = name; description = description; parameters = obj parameters }))
        (ok t))
      ↔ ((◌≡◌ {A = Option String} (some name) (some t.name))
          × (description ≡ t.description)
          × ((ps : Fields) × (◌≡◌ {A = Option Fields} (some parameters) (some ps))
              × (t.parameters ≡ obj ps)))
same_tool_iff name description parameters t =
    (λ h. (cc, cc, (parameters, refl, cc)), λ (n, d, (ps, e, q)). cc)

tool_of_iff :
    (name description : Option String) (parameters : Option Fields) (type : Option Json)
    (t : RouterFunctionTool)
    → (tool_of name description parameters type ≡ ok t) ↔ (
        (name ≡ some t.name)
        × (description ≡ t.description)
        × ((ps : Fields) × (parameters ≡ some ps) × (t.parameters ≡ obj ps)))
unfolding tool_of
tool_of_iff none description parameters type t = (λ h. cc, λ h. cc)
tool_of_iff (some name) description none type t = (λ h. cc, λ (n, d, (ps, e, q)). cc)
tool_of_iff (some name) description (some parameters) type t =
    rw (represented name description parameters) (same_tool_iff name description parameters t)

by_kind_iff :
    (kind : ToolDeclarationKind) (record_ : Fields) (t : RouterFunctionTool)
    → let fn = prop record_ "function" in
      (by_kind kind record_ ≡ ok t) ↔ (
        (kind ≡ ToolDeclarationKind.function)
        × (as_string (prop? fn "name") ≡ some t.name)
        × (as_string (prop? fn "description") ≡ t.description)
        × ((ps : Fields) × (parameters_of (prop? fn "parameters") ≡ some ps)
            × (t.parameters ≡ obj ps)))
unfolding by_kind
by_kind_iff ToolDeclarationKind.function record_ t =
    let fn = prop record_ "function" in
    let same =
      tool_of_iff (as_string (prop? fn "name")) (as_string (prop? fn "description"))
        (parameters_of (prop? fn "parameters")) (prop record_ "type") t in
    (λ h. let (n, d, ps) = same.0 h in (refl, n, d, ps), λ (k, n, d, ps). same.1 (n, d, ps))
by_kind_iff ToolDeclarationKind.namespace record_ t = (λ h. cc, λ h. cc)
by_kind_iff ToolDeclarationKind.hosted record_ t = (λ h. cc, λ h. cc)
by_kind_iff ToolDeclarationKind.unknown record_ t = (λ h. cc, λ h. cc)

parse_tool_iff :
    (entry : Json) (t : RouterFunctionTool) → (parse_tool entry ≡ ok t) ↔ Declares entry t
unfolding parse_tool
parse_tool_iff (obj record_) t =
    let kind = classify_function_iff (prop record_ "type") in
    let rest = by_kind_iff (classify_tool_declaration_type (prop record_ "type")) record_ t in
    (
      λ h. let (k, n, d, ps) = rest.0 h in (kind.0 k, n, d, ps),
      λ (k, n, d, ps). rest.1 (kind.1 k, n, d, ps),
    )
parse_tool_iff (Json.null) t = (λ h. cc, λ h. elim h [ ])
parse_tool_iff (Json.bool b) t = (λ h. cc, λ h. elim h [ ])
parse_tool_iff (Json.num n) t = (λ h. cc, λ h. elim h [ ])
parse_tool_iff (Json.decimal d) t = (λ h. cc, λ h. elim h [ ])
parse_tool_iff (str s) t = (λ h. cc, λ h. elim h [ ])
parse_tool_iff (arr xs) t = (λ h. cc, λ h. elim h [ ])

prepend_iff :
    (first : Result RouterFunctionTool) (rest : Result (List RouterFunctionTool))
    (t : RouterFunctionTool) (ts : List RouterFunctionTool)
    → (prepend first rest ≡ ok (t ∷ ts)) ↔ ((first ≡ ok t) × (rest ≡ ok ts))
prepend_iff (err e) rest t ts = (λ h. cc, λ h. cc)
prepend_iff (ok u) (err e) t ts = (λ h. cc, λ h. cc)
prepend_iff (ok u) (ok us) t ts = (λ h. (cc, cc), λ h. cc)

prepend-ne-nil :
    (first : Result RouterFunctionTool) (rest : Result (List RouterFunctionTool))
    → prepend first rest ≢ ok []
prepend-ne-nil (err e) rest h = cc
prepend-ne-nil (ok u) (err e) h = cc
prepend-ne-nil (ok u) (ok us) h = cc

-- The declarations of an array are accepted exactly when each of them declares a function, and the
-- tools are then what they declare, in their order.
pub parse_tool_entries_iff :
    (entries : List Json) (ts : List RouterFunctionTool)
    → (parse_tool_entries entries ≡ ok ts) ↔ AllDeclare entries ts
unfolding parse_tool_entries
parse_tool_entries_iff [] [] = (λ h. tt, λ h. refl)
parse_tool_entries_iff [] (t ∷ ts) = (λ h. cc, λ h. elim h [ ])
parse_tool_entries_iff (entry ∷ entries) [] = (λ h. absurd (prepend-ne-nil _ _ h), λ h. elim h [ ])
parse_tool_entries_iff (entry ∷ entries) (t ∷ ts) =
    let both = prepend_iff (parse_tool entry) (parse_tool_entries entries) t ts in
    let first = parse_tool_iff entry t in
    let rest = parse_tool_entries_iff entries ts in
    (λ h. let (x, y) = both.0 h in (first.0 x, rest.0 y), λ h. both.1 (first.1 h.0, rest.1 h.1))
