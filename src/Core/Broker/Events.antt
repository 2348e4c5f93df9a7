-- ===== src/Core/Broker/Events.antt =====
-- The broker's life as a sequence of events: calls of its operations, timers and abort signals.
use cmm_routers.Prelude.{ℕ, String, Option, List, [], ◌∷◌}
use cmm_routers.Core.Profile.{RouterProfile}
use cmm_routers.Core.Model.{ProviderId}
use cmm_routers.Core.Broker.Key.{BrokerKey}
use cmm_routers.Core.Broker.State.{Signal, Broker}
use cmm_routers.Core.Broker.Operations.{
  create_pending_call, await_call, claim_by_public_tool_call_id, claim_call, resolve_call,
  cancel_scope, timer, abort,
}

pub data Event (C R : Type 0) : Type 0 where
  create : BrokerKey → Option ℕ → Option Signal → Option C → (now : ℕ) → Event C R
  await : BrokerKey → (promise : ℕ) → Event C R
  claim_public : String → Option RouterProfile → Event C R
  claim : BrokerKey → Event C R
  resolve : BrokerKey → R → Event C R
  cancel : Option String → Option ProviderId → Event C R
  timer_due : String → (now : ℕ) → Event C R
  aborts : (signal : ℕ) → Event C R

module _ {C R : Type 0} where
  unfoldable pub step : Broker C R → Event C R → Broker C R
  step b (create key ttl_ms signal context now) =
      (create_pending_call key ttl_ms signal context now b).0
  step b (await key promise) = (await_call key promise b).0
  step b (claim_public id expected) = (claim_by_public_tool_call_id id expected b).0
  step b (claim key) = (claim_call key b).0
  step b (resolve key result) = (resolve_call key result b).0
  step b (cancel session provider) = cancel_scope session provider b
  step b (timer_due id now) = timer id now b
  step b (aborts signal) = abort signal b

  unfoldable pub run : Broker C R → List (Event C R) → Broker C R
  unfolding step
  run b [] = b
  run b (e ∷ es) = run (step b e) es
