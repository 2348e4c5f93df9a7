-- ===== src/Core/BoundedQueue/Refinement.antt =====
-- The queue against its history: which values it accepted and which promises were asked for.
use cmm_routers.Prelude.{
  ℕ, ◌≤◌, ◌≡◌, ◌↔◌, refl, Bool, true, false, List, [], ◌∷◌, ◌++◌, length, drop, length-append,
  arith,
}
use cmm_routers.Core.BoundedQueue.{
  BoundedQueue, Call, push, ask, new, try_push, next, push_or_hand, take_or_wait,
}
use cmm_routers.Core.BoundedQueue.Pairing.{
  pair_up, meets_left, waits_left, meets_right, waits_right,
}

-- What a caller has seen: the values whose `tryPush` returned true, and its calls of `next`.
pub record History {ℓ} (T : Type ℓ) : Type ℓ where
  pub accepted : List T
  pub asked : List ℕ

module _ {ℓ} {T : Type ℓ} where
  abbrev pub note_push : History T → T → Bool → History T
  note_push h value true = record h { accepted = h.accepted ++ value ∷ [] }
  note_push h value false = h

  abbrev pub step : BoundedQueue T × History T → Call T → BoundedQueue T × History T
  step (q, h) (push value) = ((try_push q value).0, note_push h value (try_push q value).1)
  step (q, h) (ask promise) = (next q promise, record h { asked = h.asked ++ promise ∷ [] })

  abbrev pub run : BoundedQueue T × History T → List (Call T) → BoundedQueue T × History T
  run s [] = s
  run s (c ∷ cs) = run (step s c) cs

  -- The n-th accepted value goes to the n-th promise; what is left over waits on one side.
  pub record Refines (q : BoundedQueue T) (h : History T) : Type ℓ where
    pub delivered : q.delivered ≡ pair_up h.accepted h.asked
    pub queued : q.items ≡ drop (length h.asked) h.accepted
    pub waiting : q.waiters ≡ drop (length h.accepted) h.asked
    pub bounded : length q.items ≤ q.max_size

  push-Refines :
      (q : BoundedQueue T) (h : History T) (value : T) (waiters : List ℕ)
      → q.waiters ≡ waiters
      → Refines q h
      → let r = push_or_hand q value waiters in Refines r.0 (note_push h value r.1)
  unfolding push_or_hand
  push-Refines q h value [] e r =
      ground (arith, waits_left h.accepted h.asked value, length-append q.items (value ∷ []))
  push-Refines q h value (w ∷ ws) e r = ground (arith, meets_left h.accepted h.asked value w ws)

  ask-Refines :
      (q : BoundedQueue T) (h : History T) (promise : ℕ) (items : List T)
      → q.items ≡ items
      → Refines q h
      → Refines (take_or_wait q promise items) (record h { asked = h.asked ++ promise ∷ [] })
  unfolding take_or_wait
  ask-Refines q h promise [] e r = ground (arith, waits_right h.accepted h.asked promise)
  ask-Refines q h promise (i ∷ is) e r = ground (arith, meets_right h.accepted h.asked promise i is)

  step-Refines :
      (q : BoundedQueue T) (h : History T) (c : Call T)
      → Refines q h
      → Refines (step (q, h) c).0 (step (q, h) c).1
  unfolding try_push next
  step-Refines q h (push value) r = push-Refines q h value q.waiters refl r
  step-Refines q h (ask promise) r = ask-Refines q h promise q.items refl r

  run-Refines :
      (s : BoundedQueue T × History T) (cs : List (Call T))
      → Refines s.0 s.1
      → Refines (run s cs).0 (run s cs).1
  run-Refines s [] r = r
  run-Refines s (c ∷ cs) r = run-Refines (step s c) cs (step-Refines s.0 s.1 c r)

  abbrev pub start : ℕ → BoundedQueue T × History T
  start max_size = (new max_size, record { accepted = []; asked = [] })

  -- After any calls on a new queue, the resolved promises are the accepted values and the promises
  -- asked for, matched in order; what is queued are the accepted values beyond those, what waits
  -- are the promises beyond those, and the queue holds at most `maxSize` values.
  pub run-start-Refines :
      (max_size : ℕ) (cs : List (Call T))
      → Refines (run (start max_size) cs).0 (run (start max_size) cs).1
  unfolding new
  run-start-Refines max_size cs =
      run-Refines (start max_size) cs
        (record { delivered = refl; queued = refl; waiting = refl; bounded = omega arith })

  -- A push returns false exactly when nobody waits and `maxSize` values are queued, and then the
  -- queue is left as it was.
  pub try_push-refused :
      (q : BoundedQueue T) (value : T)
      → (((try_push q value).1 ≡ false) ↔ ((q.waiters ≡ []) × (q.max_size ≤ length q.items)))
        × ((try_push q value).1 ≡ false → (try_push q value).0 ≡ q)
  unfolding try_push push_or_hand
  try_push-refused q value = ground arith
