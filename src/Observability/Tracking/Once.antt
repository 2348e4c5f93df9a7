-- ===== src/Observability/Tracking/Once.antt =====
-- Recording a stream does not change it, and ends its request once.
use cmm_routers.Prelude.{
  ℕ, String, false, Option, List, [], ◌∷◌, ◌++◌, string_eq, ◌≡◌, refl, sym, ap, subst, Option-cases,
  inl, inr, nat_eq,
}
use cmm_routers.Core.RouterEvent.{TokenUsage}
use cmm_routers.Observability.UsageStore.{UsageStore, UsageIdentity, begin_request, end_request}
use cmm_routers.Observability.Tracking.{
  Pull, Ending, finished, thrown, abandoned, Completion, returned, raised, left, Tracker, no_usage,
  verdict, usage_after, stored, failure, track_without_store, track_with_store,
  track_provider_stream, end_once,
}

module _ {F : Type 0} where
  with-without :
      (id : String) (t : Tracker F) (ps : List (Pull F)) (ending : Ending) (now : ℕ)
      → ((track_with_store id t ps ending now).0
          ≡ (track_without_store t.collected t.usage ps ending).0)
        × ((track_with_store id t ps ending now).2
            ≡ (track_without_store t.collected t.usage ps ending).1)
  unfolding track_with_store track_without_store
  with-without id t [] finished now = (refl, refl)
  with-without id t [] (thrown e) now = (refl, refl)
  with-without id t [] abandoned now = (refl, refl)
  with-without id t (p ∷ ps) ending now =
      let t' : Tracker F = record t {
        collected = t.collected ++ p.event ∷ [];
        usage = usage_after p.aborted p.event t.usage;
      } in
      let below = with-without id t' ps ending now in
      elim (Option-cases (verdict p.aborted p.event t'.collected t'.usage)) [
        | inl goes_on ↦
            rw (goes_on, track_with_store, track_without_store)
              (ap (λ ys. p.event ∷ ys) below.0, below.1)
        | inr (o, ends) ↦ rw (ends, track_with_store, track_without_store) (refl, refl)
      ]

  -- What the store is after a stream that ended so, which was `s` once the request had begun: it
  -- has ended the request once, with the outcome that is returned, or with an error if the stream
  -- threw; if the consumer left, it has not.
  abbrev pub IsEndedOnce : String → UsageStore F → UsageStore F → Completion F → Type 0
  IsEndedOnce id s s' (returned o) = (now : ℕ) × (s' ≡ (end_request id (stored o) now s).0)
  IsEndedOnce id s s' (raised e) =
      (now : ℕ) × (u : TokenUsage F) × (s' ≡ (end_request id (failure e u) now s).0)
  IsEndedOnce id s s' left = s' ≡ s

  ended_once :
      (id : String) (t : Tracker F) (ps : List (Pull F)) (ending : Ending) (now : ℕ)
      → t.ended ≡ false
      → IsEndedOnce id t.store
          (track_with_store id t ps ending now).1.store
          (track_with_store id t ps ending now).2
  unfolding track_with_store end_once
  ended_once id t [] finished now h = rw h (now, refl)
  ended_once id t [] (thrown e) now h = rw h (now, t.usage, refl)
  ended_once id t [] abandoned now h = refl
  ended_once id t (p ∷ ps) ending now h =
      let t' : Tracker F = record t {
        collected = t.collected ++ p.event ∷ [];
        usage = usage_after p.aborted p.event t.usage;
      } in
      let below = ended_once id t' ps ending now h in
      elim (Option-cases (verdict p.aborted p.event t'.collected t'.usage)) [
        | inl goes_on ↦
            let steps : track_with_store id t (p ∷ ps) ending now ≡ (
              p.event ∷ (track_with_store id t' ps ending now).0,
              (track_with_store id t' ps ending now).1,
              (track_with_store id t' ps ending now).2,
            ) =
              rw (goes_on, track_with_store) refl in
            subst (λ x. IsEndedOnce id t.store x.1.store x.2) (sym steps) below
        | inr (o, ends) ↦
            let steps : track_with_store id t (p ∷ ps) ending now
                ≡ (p.event ∷ [], end_once id (stored o) p.now t', returned o) =
              rw (ends, track_with_store) refl in
            subst (λ x. IsEndedOnce id t.store x.1.store x.2) (sym steps) (p.now, rw h refl)
      ]

  -- A stream yields the same events and ends in the same way whether its use is recorded or not.
  pub track_provider_stream-transparent :
      (id provider model_id : String) (identity : Option UsageIdentity) (began now : ℕ)
      (s : UsageStore F) (ps : List (Pull F)) (ending : Ending)
      → ((track_provider_stream id provider model_id identity began now s ps ending).0
          ≡ (track_without_store [] no_usage ps ending).0)
        × ((track_provider_stream id provider model_id identity began now s ps ending).2
            ≡ (track_without_store [] no_usage ps ending).1)
  unfolding track_provider_stream
  track_provider_stream-transparent id provider model_id identity began now s ps ending =
      with-without id _ ps ending now

  -- A stream that returns or throws has ended its request exactly once in the store, with the
  -- status, the usage and the error code of the outcome that it returns, or as a failure with the
  -- code of what it throws. Only a consumer that leaves at a `yield` leaves the request active.
  pub track_provider_stream-ended :
      (id provider model_id : String) (identity : Option UsageIdentity) (began now : ℕ)
      (s : UsageStore F) (ps : List (Pull F)) (ending : Ending)
      → IsEndedOnce id
          (begin_request id provider model_id identity began s)
          (track_provider_stream id provider model_id identity began now s ps ending).1
          (track_provider_stream id provider model_id identity began now s ps ending).2
  unfolding track_provider_stream
  track_provider_stream-ended id provider model_id identity began now s ps ending =
      ended_once id _ ps ending now refl
