-- ===== src/Http/Responses/Hidden.antt =====
-- src/http/openai-responses.ts: tools that are declared in items of the input.
use cmm_routers.Prelude.{
  Bool, true, false, not, ◌&&◌, Option, none, some, List, [], ◌∷◌, ◌++◌, ◌≡◌, refl, arith, any,
  is_some, string_eq, inl, inr, Bool-cases, ap, ◌∙◌,
}
use cmm_routers.Core.Json.{
  Json, null, bool, num, decimal, str, arr, obj, Items, nil, cons, Fields, prop, elements, is_str,
}
use cmm_routers.Core.Errors.{ok, Result-cases}
use cmm_routers.Core.Model.{RouterFunctionTool}
use cmm_routers.Http.Reply.{next}
use cmm_routers.Http.Chat.History.{is_empty_array}
use cmm_routers.Http.Responses.Handler.{Draft, parse_draft}
use cmm_routers.Http.Responses.Tools.{
  parse_tool_list, parse_response_tools, is_additional, additional_tools, split_items,
  normalize_response_input_additional_tools,
}

-- anything but no field or an empty array
abbrev pub declares : Option Json → Bool
declares v = is_some v && not (is_empty_array v)

-- Whether an item of the raw input declares tools of its own.
abbrev pub hides_tools : Json → Bool
hides_tools (obj record_) =
    is_str (prop record_ "type") "additional_tools" && declares (prop record_ "tools")
hides_tools _ = false

-- the items of the raw input, where it is an array
abbrev pub input_items : Option Json → List Json
input_items (some (arr items)) = elements items
input_items _ = []

no_declared : (v : Option Json) → parse_response_tools v ≡ ok [] → declares v ≡ false
unfolding parse_response_tools parse_tool_list
no_declared none h = refl
no_declared (some (arr nil)) h = refl
no_declared (some (arr (cons x xs))) h = absurd (ground (arith, h))
no_declared (some null) h = cc
no_declared (some (bool b)) h = cc
no_declared (some (num n)) h = cc
no_declared (some (decimal d)) h = cc
no_declared (some (str s)) h = cc
no_declared (some (obj fs)) h = cc

append_empty : (xs ys : List RouterFunctionTool) → xs ++ ys ≡ [] → (xs ≡ []) × (ys ≡ [])
append_empty [] ys h = (refl, h)
append_empty (x ∷ xs) ys h = cc

free_item :
    (item : Json)
    → is_additional item ≡ true
    → additional_tools item ≡ ok []
    → hides_tools item ≡ false
unfolding additional_tools
free_item (obj record_) a h = ground (arith, no_declared (prop record_ "tools"))
free_item null a h = refl
free_item (bool b) a h = refl
free_item (num n) a h = refl
free_item (decimal d) a h = refl
free_item (str s) a h = refl
free_item (arr xs) a h = refl

other_item : (item : Json) → is_additional item ≡ false → hides_tools item ≡ false
other_item (obj record_) h = ground (arith, h)
other_item null h = refl
other_item (bool b) h = refl
other_item (num n) h = refl
other_item (decimal d) h = refl
other_item (str s) h = refl
other_item (arr xs) h = refl

split_free :
    (items : List Json) (kept : Items)
    → split_items items ≡ ok (kept, [])
    → any hides_tools items ≡ false
unfolding split_items
split_free [] kept h = refl
split_free (item ∷ items) kept h = elim (Result-cases (split_items items)) [
  | inl (e, bad) ↦ absurd (elim (Result-cases (additional_tools item)) [
    | inl (e', worse) ↦ ground (arith, bad, worse, h)
    | inr (ts, found) ↦ ground (arith, bad, found, h)
  ])
  | inr ((stay, rest), split) ↦ elim (Bool-cases (is_additional item)) [
    | inl more ↦ elim (Result-cases (additional_tools item)) [
      | inl (e, bad) ↦ absurd (ground (arith, more, bad, split, h))
      | inr (ts, found) ↦
          let both = append_empty ts rest (ground (arith, more, found, split, h)) in
          rw (free_item item more (found ∙ ap ok both.0))
            (split_free items stay (split ∙ ap (λ r. ok (stay, r)) both.1))
    ]
    | inr other ↦
        let nothing : rest ≡ [] = ground (arith, other, split, h) in
        rw (other_item item other) (split_free items stay (split ∙ ap (λ r. ok (stay, r)) nothing))
  ]
]

-- an input whose items give no tools hides none
pub normalized_free :
    (input : Option Json) (kept : Option Json)
    → normalize_response_input_additional_tools input ≡ ok (kept, [])
    → any hides_tools (input_items input) ≡ false
unfolding normalize_response_input_additional_tools
normalized_free none kept h = refl
normalized_free (some (arr items)) kept h = elim (Result-cases (split_items (elements items))) [
  | inl (e, bad) ↦ absurd (ground (arith, bad, h))
  | inr ((stay, tools), split) ↦
      let nothing : tools ≡ [] = ground (arith, split, h) in
      split_free (elements items) stay (split ∙ ap (λ r. ok (stay, r)) nothing)
]
normalized_free (some null) kept h = refl
normalized_free (some (bool b)) kept h = refl
normalized_free (some (num n)) kept h = refl
normalized_free (some (decimal d)) kept h = refl
normalized_free (some (str s)) kept h = refl
normalized_free (some (obj fs)) kept h = refl

-- a body with no tools from any place hides none in its input
pub drafted_free :
    (body : Fields) (d : Draft)
    → parse_draft body ≡ next d
    → d.tools ≡ []
    → any hides_tools (input_items (prop body "input")) ≡ false
unfolding parse_draft
drafted_free body d h nothing =
    elim (Result-cases (normalize_response_input_additional_tools (prop body "input"))) [
      | inl (e, bad) ↦ absurd (ground (arith, bad, h))
      | inr ((kept, hidden), split) ↦
          elim (Result-cases (parse_response_tools (prop body "tools"))) [
            | inl (e, bad) ↦ absurd (ground (arith, bad, split, h))
            | inr (tools, parsed) ↦
                let whole : tools ++ hidden ≡ [] = ground (arith, parsed, split, h, nothing) in
                let hidden_none = (append_empty tools hidden whole).1 in
                normalized_free (prop body "input") kept
                  (split ∙ ap (λ r. ok (kept, r)) hidden_none)
          ]
    ]
