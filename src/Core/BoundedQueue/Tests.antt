-- ===== src/Core/BoundedQueue/Tests.antt =====
-- The queue on concrete calls.
use cmm_routers.Prelude.{ℕ, ◌≡◌, refl, List, [], ◌∷◌}
use cmm_routers.Core.BoundedQueue.{Call, push, ask, try_push, next, new}
use cmm_routers.Core.BoundedQueue.Refinement.{Refines, run, start, run-start-Refines}

abbrev calls : List (Call ℕ)
calls = ask 1 ∷ push 10 ∷ push 11 ∷ push 12 ∷ push 13 ∷ []

-- the first value goes to the waiting promise, two are queued, the last is refused
delivered_first : (run (start 2) calls).0.delivered ≡ (10, 1) ∷ []
unfolding new try_push next
delivered_first = refl

run-start-Refines_example : Refines (run (start 2) calls).0 (run (start 2) calls).1
run-start-Refines_example = run-start-Refines 2 calls
