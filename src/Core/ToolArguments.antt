-- ===== src/Core/ToolArguments.antt =====
-- src/core/tool-arguments.ts. `JSON.parse` is a parameter: the value of a text, or none where it
-- throws.
use Prim.Native.Char.{code}
use Prim.Native.String.{String}
use cmm_routers.Prelude.{
  Bool, true, false, ◌&&◌, Option, none, some, List, [], ◌∷◌, is_space, string_eq, ◌==◌,
  if◌then◌else◌, ◌≡◌, ◌↔◌, ◌⊎◌, refl, All, Bool-cases, eq_of_==, inl, inr,
}
use cmm_routers.Core.Json.{Json, obj, end}
use cmm_routers.Core.Errors.{
  RouterError, Result, Result-cases, ok, err, router_error, provider_protocol_error,
}

-- `raw.trim()`: the space at the front, and then at the end
unfoldable pub trim_start : String → String
trim_start String.[] = ""
trim_start (String.◌∷◌ c s) =
    let rest = trim_start s in if is_space (code c) then rest else String.◌∷◌ c s

-- whether a text has nothing but space
abbrev is_blank : String → Bool
is_blank String.[] = true
is_blank (String.◌∷◌ c s) = is_space (code c) && is_blank s

unfoldable pub trim_end : String → String
trim_end String.[] = ""
trim_end (String.◌∷◌ c s) =
    let rest = trim_end s in if is_blank (String.◌∷◌ c s) then "" else String.◌∷◌ c rest

unfoldable pub trim : String → String
unfolding trim_start trim_end
trim s = trim_end (trim_start s)

abbrev arguments_error : RouterError
arguments_error =
    router_error provider_protocol_error
      "Provider emitted tool arguments that are not valid JSON; refusing to fabricate arguments"

module _ (json_parse : String → Option Json) where
  abbrev parsed_or_error : Option Json → Result Json
  parsed_or_error none = err arguments_error
  parsed_or_error (some v) = ok v

  unfoldable pub parse_tool_arguments : String → Result Json
  unfolding trim
  parse_tool_arguments raw =
      let trimmed = trim raw in
      if trimmed == "" then ok (obj end) else parsed_or_error (json_parse trimmed)

  abbrev first_error : Result Json → Option RouterError → Option RouterError
  first_error (err e) rest = some e
  first_error (ok v) rest = rest

  unfoldable pub validate_tool_arguments : List String → Option RouterError
  unfolding parse_tool_arguments
  validate_tool_arguments [] = none
  validate_tool_arguments (raw ∷ raws) =
      first_error (parse_tool_arguments raw) (validate_tool_arguments raws)

  -- A payload that is a JSON text, or nothing but space.
  abbrev pub IsUsable : String → Type 0
  IsUsable raw = (trim raw ≡ "") ⊎ ((v : Json) × (json_parse (trim raw) ≡ some v))

  parsed_text :
      (raw : String)
      → (trim raw == "") ≡ false
      → parse_tool_arguments raw ≡ parsed_or_error (json_parse (trim raw))
  unfolding parse_tool_arguments
  parsed_text raw h = rw h refl

  usable_text :
      (o : Option Json) → ((v : Json) × (parsed_or_error o ≡ ok v)) ↔ ((v : Json) × (o ≡ some v))
  usable_text none = (λ (v, h). cc, λ (v, h). cc)
  usable_text (some v) = (λ h. (v, refl), λ h. (v, refl))

  parse_tool_arguments_iff :
      (raw : String) → ((v : Json) × (parse_tool_arguments raw ≡ ok v)) ↔ IsUsable raw
  unfolding parse_tool_arguments
  parse_tool_arguments_iff raw = elim (Bool-cases (trim raw == "")) [
    | inl blank ↦ (λ h. inl (eq_of_== (trim raw) "" blank), λ h. (obj end, rw blank refl))
    | inr text ↦ rw (parsed_text raw text) (
      λ h. inr ((usable_text (json_parse (trim raw))).0 h),
      λ h. elim h [
        | inl blank ↦ cc (text, (string_eq.beq_iff (trim raw) "").1 blank)
        | inr parsed ↦ (usable_text (json_parse (trim raw))).1 parsed
      ],
    )
  ]

  -- Payloads are passed exactly when each of them is a JSON text or nothing but space.
  pub validate_tool_arguments_iff :
      (raws : List String) → (validate_tool_arguments raws ≡ none) ↔ All IsUsable raws
  unfolding validate_tool_arguments
  validate_tool_arguments_iff [] = (λ h. tt, λ h. refl)
  validate_tool_arguments_iff (raw ∷ raws) = elim (Result-cases (parse_tool_arguments raw)) [
    | inl (e, bad) ↦
        rw bad
          (λ h. cc, λ h. let (v, good) = (parse_tool_arguments_iff raw).1 h.0 in cc (bad, good))
    | inr (v, good) ↦
        let rest = validate_tool_arguments_iff raws in
        rw good (λ h. ((parse_tool_arguments_iff raw).0 (v, good), rest.0 h), λ h. rest.1 h.1)
  ]
