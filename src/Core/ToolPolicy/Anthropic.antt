-- ===== src/Core/ToolPolicy/Anthropic.antt =====
-- src/core/tool-policy.ts: the mapping to the Anthropic Messages wire, and that it loses nothing.
use cmm_routers.Prelude.{◌≡◌, ◌↔◌, refl, String, Bool, true, false, Option, some, arith}
use cmm_routers.Core.Json.{Json}
use cmm_routers.Core.Errors.{Result, ok, err, router_error, invalid_request}
use cmm_routers.Core.Model.{NormalizedToolChoice}
use cmm_routers.Core.ToolPolicy.{normalized, choice_object, non_empty}

pub data AnthropicChoiceType : Type 0 where
  auto none any tool : AnthropicChoiceType

pub record AnthropicToolChoice : Type 0 where
  pub type : AnthropicChoiceType
  pub name : Option String
  pub disable_parallel_tool_use : Option Bool

-- the flag is set for an explicit `false` alone
abbrev pub disable : Option Bool → Option Bool
disable (some false) = some true
disable _ = Option.none

abbrev pub anthropic : AnthropicChoiceType → Option String → Option Bool → AnthropicToolChoice
anthropic type name parallel = record {
  type = type;
  name = name;
  disable_parallel_tool_use = disable parallel;
}

-- the mapping of a choice that has passed the guard
abbrev pub anthropic_choice : Option NormalizedToolChoice → Option Bool → Option AnthropicToolChoice
anthropic_choice Option.none Option.none = Option.none
anthropic_choice Option.none (some parallel) = some (anthropic auto Option.none (some parallel))
anthropic_choice (some NormalizedToolChoice.auto) parallel =
    some (anthropic auto Option.none parallel)
anthropic_choice (some NormalizedToolChoice.none) parallel =
    some (anthropic none Option.none parallel)
anthropic_choice (some NormalizedToolChoice.required) parallel =
    some (anthropic any Option.none parallel)
anthropic_choice (some (NormalizedToolChoice.named name)) parallel =
    some (anthropic tool (some name) parallel)

unfoldable pub to_anthropic_tool_choice :
    Option Json → Option Bool → Result (Option AnthropicToolChoice)
unfolding normalized
to_anthropic_tool_choice Option.none parallel = ok (anthropic_choice Option.none parallel)
to_anthropic_tool_choice (some policy) parallel = elim (normalized policy) [
  | Option.none ↦ err (
      router_error invalid_request
        "toAnthropicToolChoice requires the Router's normalized tool policy")
  | some choice ↦ ok (anthropic_choice (some choice) parallel)
]

-- a choice that a surface can have parsed: its name, if it has one, is not empty
abbrev pub is_named : NormalizedToolChoice → Bool
is_named (NormalizedToolChoice.named name) = non_empty name
is_named _ = true

-- What the choice says, read back from the Anthropic wire.
abbrev pub choice_of : AnthropicChoiceType → Option String → Option NormalizedToolChoice
choice_of auto name = some NormalizedToolChoice.auto
choice_of none name = some NormalizedToolChoice.none
choice_of any name = some NormalizedToolChoice.required
choice_of tool Option.none = Option.none
choice_of tool (some name) = some (NormalizedToolChoice.named name)

to_anthropic-choice_object :
    (c : NormalizedToolChoice) (parallel : Option Bool)
    → is_named c ≡ true
    → to_anthropic_tool_choice (some (choice_object c)) parallel
      ≡ ok (anthropic_choice (some c) parallel)
unfolding to_anthropic_tool_choice
to_anthropic-choice_object NormalizedToolChoice.auto parallel h = refl
to_anthropic-choice_object NormalizedToolChoice.none parallel h = refl
to_anthropic-choice_object NormalizedToolChoice.required parallel h = refl
to_anthropic-choice_object (NormalizedToolChoice.named name) parallel h = ground arith

read_back :
    (c : NormalizedToolChoice) (parallel : Option Bool)
    → (a : AnthropicToolChoice) × (◌≡◌ {A = Result (Option AnthropicToolChoice)}
        (ok (anthropic_choice (some c) parallel))
        (ok (some a)))
      × (choice_of a.type a.name ≡ some c)
      × ((a.disable_parallel_tool_use ≡ some true) ↔ (parallel ≡ some false))
read_back NormalizedToolChoice.auto parallel = (_, refl, refl, ground arith)
read_back NormalizedToolChoice.none parallel = (_, refl, refl, ground arith)
read_back NormalizedToolChoice.required parallel = (_, refl, refl, ground arith)
read_back (NormalizedToolChoice.named name) parallel = (_, refl, refl, ground arith)

-- Every normalized choice with any parallel flag has a choice on the Anthropic wire, from which
-- both can be read back: the kind, the name, and whether parallel calls were refused.
pub choice_of-to_anthropic :
    (c : NormalizedToolChoice) (parallel : Option Bool)
    → is_named c ≡ true
    → (a : AnthropicToolChoice) × (to_anthropic_tool_choice (some (choice_object c)) parallel
        ≡ ok (some a))
      × (choice_of a.type a.name ≡ some c)
      × ((a.disable_parallel_tool_use ≡ some true) ↔ (parallel ≡ some false))
choice_of-to_anthropic c parallel h =
    rw (to_anthropic-choice_object c parallel h) (read_back c parallel)
