-- ===== src/Core/RouterEvent.antt =====
-- src/core/events.ts. `F` is the type of the numbers that a cost is given in.
use cmm_routers.Prelude.{ℕ, String, Option, some}
use cmm_routers.Core.Errors.{RouterError, code_text}

pub data FinishReason : Type 0 where
  stop tool_calls length : FinishReason

-- The counts of an event of type `usage`.
pub record TokenUsage (F : Type 0) : Type 0 where
  pub input_tokens : Option ℕ
  pub output_tokens : Option ℕ
  pub reasoning_tokens : Option ℕ
  pub cache_read_tokens : Option ℕ
  pub cost_usd : Option F

-- A value of type `unknown` that is thrown or reported: a `RouterError`, or anything else with its
-- `code`, where that is a string.
pub data Thrown : Type 0 where
  router : RouterError → Thrown
  other : (code : Option String) → Thrown

-- `error.code` of it
abbrev pub thrown_code : Thrown → Option String
thrown_code (router e) = some (code_text e.code)
thrown_code (other code) = code

pub data RouterEvent (F : Type 0) : Type 0 where
  text_delta : (text : String) → RouterEvent F
  tool_call_delta : (index : ℕ) (id : String) (name arguments_delta : Option String) → RouterEvent F
  usage : TokenUsage F → RouterEvent F
  completed : FinishReason → RouterEvent F
  error : Thrown → RouterEvent F
