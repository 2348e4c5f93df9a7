-- ===== src/Core/BoundedQueue.antt =====
-- src/core/bounded-queue.ts: the hand-off queue between a provider's producer and its consumer.
-- A promise of `next` is a number; a resolved promise is an entry of `delivered`. A queued value is
-- never `undefined`.
pub mod Pairing
pub mod Refinement
mod Tests
use cmm_routers.Prelude.{
  ℕ, suc, Bool, true, false, Option, none, some, List, [], ◌∷◌, ◌++◌, length, leb, if◌then◌else◌,
}

module _ {ℓ} (T : Type ℓ) where
  pub record BoundedQueue : Type ℓ where
    pub max_size : ℕ
    pub items : List T
    pub waiters : List ℕ
    -- the promises that have been resolved, in order
    pub delivered : List (T × ℕ)

module _ {ℓ} {T : Type ℓ} where
  unfoldable pub new : ℕ → BoundedQueue T
  new max_size = record { max_size = max_size; items = []; waiters = []; delivered = [] }

  -- the part of `tryPush` after `waiters.shift()`
  push_or_hand : BoundedQueue T → T → List ℕ → BoundedQueue T × Bool
  push_or_hand q value (waiter ∷ rest) =
      (record q { waiters = rest; delivered = q.delivered ++ (value, waiter) ∷ [] }, true)
  push_or_hand q value [] =
      if leb q.max_size (length q.items)
      then (q, false)
      else (record q { items = q.items ++ value ∷ [] }, true)

  unfoldable pub try_push : BoundedQueue T → T → BoundedQueue T × Bool
  unfolding push_or_hand
  try_push q value = push_or_hand q value q.waiters

  -- the part of `next` after `items.shift()`; `promise` is the promise that it returns
  take_or_wait : BoundedQueue T → ℕ → List T → BoundedQueue T
  take_or_wait q promise (item ∷ rest) = record q {
    items = rest;
    delivered = q.delivered ++ (item, promise) ∷ [];
  }
  take_or_wait q promise [] = record q { waiters = q.waiters ++ promise ∷ [] }

  unfoldable pub next : BoundedQueue T → ℕ → BoundedQueue T
  unfolding take_or_wait
  next q promise = take_or_wait q promise q.items

  unfoldable pub size : BoundedQueue T → ℕ
  size q = length q.items

-- One call of the producer or of the consumer.
pub data Call {ℓ} (T : Type ℓ) : Type ℓ where
  push : T → Call T
  ask : ℕ → Call T
