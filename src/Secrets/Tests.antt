-- ===== src/Secrets/Tests.antt =====
-- Redaction and envelopes on concrete values.
use cmm_routers.Prelude.{◌≡◌, ◌↔◌, refl, some, [], ◌∷◌, string_eq}
use cmm_routers.Prelude.OrderedMap.{get}
use cmm_routers.Secrets.Payg.{assert_no_payg_fallback, present_keys, join_commas}
use cmm_routers.Core.Json.{Json, str, num, obj, arr, cons, nil, field, end}
use cmm_routers.Core.Errors.{ok, err, template}
use cmm_routers.Secrets.Names.{is_secret_key, is_forbidden_wire_key, matches_word}
use cmm_routers.Secrets.Redaction.{redact_object, redacted, IsRedacted, redact_object_lem}
use cmm_routers.Secrets.Wire.{
  serialize_envelope, assert_no_secrets, secret_field, decimal_text, IsClean,
  serialize_envelope_iff,
}

abbrev nested : Json
nested = obj (field "calls" (arr (cons (obj (field "Api_Key" (str "k") end)) nil)) end)

is_redacted :
    redact_object nested
    ≡ obj (field "calls" (arr (cons (obj (field "Api_Key" redacted end)) nil)) end)
unfolding redact_object is_secret_key matches_word
is_redacted = refl

is_refused : serialize_envelope nested ≡ err (secret_field "$.calls[0]" "Api_Key")
unfolding serialize_envelope assert_no_secrets is_forbidden_wire_key matches_word secret_field
    decimal_text template
is_refused = refl

redact_object_lem_example :
    IsRedacted (redact_object nested)
    × (redact_object (redact_object nested) ≡ redact_object nested)
redact_object_lem_example = redact_object_lem nested

abbrev plain : Json
plain = obj (field "version" (num 1) end)

serialize_envelope_iff_example :
    (serialize_envelope plain ≡ ok plain) ↔ (IsClean plain × (plain ≡ plain))
serialize_envelope_iff_example = serialize_envelope_iff plain plain

two_are_set :
    assert_no_payg_fallback (("GOOGLE_API_KEY", "x") ∷ ("HOME", "/") ∷ ("OPENAI_API_KEY", "y") ∷ [])
    ≡ some "PAYG fallback blocked; unset: OPENAI_API_KEY, GOOGLE_API_KEY"
unfolding assert_no_payg_fallback present_keys join_commas template get
two_are_set = refl
