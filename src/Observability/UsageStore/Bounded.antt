-- ===== src/Observability/UsageStore/Bounded.antt =====
-- The store keeps the newest records, at most 500 of them.
use cmm_routers.Prelude.{
  ℕ, zero, suc, ◌+◌, ◌-◌, ◌≤◌, String, Option, List, [], ◌∷◌, ◌++◌, length, drop, ltb,
  if◌then◌else◌, ◌≡◌, refl, ◌∙◌, sym, ap, arith, length-append, length-drop, Bool-cases, inl, inr,
  string_eq, drop-nil,
}
use mathlib.Core.List.{append-nil, append_assoc}
use cmm_routers.Observability.UsageStore.{
  UsageStore, UsageRecord, UsageIdentity, Outcome, new, begin_request, end_request, push_bounded,
}

pub data Event (F : Type 0) : Type 0 where
  begins : (request_id provider model : String) → Option UsageIdentity → (now : ℕ) → Event F
  ends : (request_id : String) → Outcome F → (now : ℕ) → Event F

module _ {F : Type 0} where
  unfoldable pub step : Event F → UsageStore F → UsageStore F
  unfolding begin_request end_request
  step (begins request_id provider model identity now) s =
      begin_request request_id provider model identity now s
  step (ends request_id outcome now) s = (end_request request_id outcome now s).0

  unfoldable pub run : List (Event F) → UsageStore F → UsageStore F
  run [] s = s
  run (e ∷ es) s = run es (step e s)

  -- every record that was returned, in order
  unfoldable pub recorded : List (Event F) → UsageStore F → List (UsageRecord F)
  recorded [] s = []
  recorded (begins request_id provider model identity now ∷ es) s =
      recorded es (step (begins request_id provider model identity now) s)
  recorded (ends request_id outcome now ∷ es) s =
      (end_request request_id outcome now s).1 ∷ recorded es (step (ends request_id outcome now) s)

  -- the newest 500 of a list that grows at its end
  abbrev pub newest : List (UsageRecord F) → List (UsageRecord F)
  newest rs = drop (length rs - 500) rs

  drop-append :
      (n : ℕ) (xs ys : List (UsageRecord F)) → n ≤ length xs → drop n (xs ++ ys) ≡ drop n xs ++ ys
  drop-append zero xs ys h = refl
  drop-append (suc n) [] ys h = absurd (omega arith)
  drop-append (suc n) (x ∷ xs) ys h = drop-append n xs ys (omega arith)

  drop-drop : (m n : ℕ) (xs : List (UsageRecord F)) → drop m (drop n xs) ≡ drop (n + m) xs
  drop-drop m zero xs = ap (λ k. drop k xs) (omega arith)
  drop-drop m (suc n) [] = drop-nil m ∙ sym (drop-nil (suc n + m))
  drop-drop m (suc n) (x ∷ xs) =
      drop-drop m n xs ∙ ap (λ k. drop k (x ∷ xs)) {x = suc (n + m)} (omega arith)

  cut-newest :
      (rs : List (UsageRecord F))
      → (if ltb 500 (length rs) then drop (length rs - 500) rs else rs) ≡ newest rs
  cut-newest rs = elim (Bool-cases (ltb 500 (length rs))) [
    | inl more ↦ rw more refl
    | inr fits ↦ rw fits (sym (ap (λ k. drop k rs) {y = 0} (ground (arith, fits))))
  ]

  newest-drop :
      (n : ℕ) (rs : List (UsageRecord F)) → n ≤ length rs - 500 → newest (drop n rs) ≡ newest rs
  newest-drop n rs h =
      drop-drop (length (drop n rs) - 500) n rs
      ∙ ap (λ k. drop k rs) (omega (arith, length-drop n rs))

  push_bounded-newest :
      (rs : List (UsageRecord F)) (r : UsageRecord F)
      → push_bounded (newest rs) r ≡ newest (rs ++ r ∷ [])
  unfolding push_bounded
  push_bounded-newest rs r = rw (sym (drop-append (length rs - 500) rs (r ∷ []) (omega arith))) (
      cut-newest (drop (length rs - 500) (rs ++ r ∷ []))
      ∙ newest-drop (length rs - 500) (rs ++ r ∷ []) (omega (arith, length-append rs (r ∷ []))))

  run-newest :
      (es : List (Event F)) (s : UsageStore F) (past : List (UsageRecord F))
      → s.records ≡ newest past
      → (run es s).records ≡ newest (past ++ recorded es s)
  unfolding run recorded step begin_request end_request
  run-newest [] s past h = h ∙ ap newest (sym (append-nil past))
  run-newest (begins request_id provider model identity now ∷ es) s past h =
      run-newest es (step (begins request_id provider model identity now) s) past h
  run-newest (ends request_id outcome now ∷ es) s past h =
      let r = (end_request request_id outcome now s).1 in
      run-newest es (step (ends request_id outcome now) s) (past ++ r ∷ [])
        (ap (λ rs. push_bounded rs r) h ∙ push_bounded-newest past r)
      ∙ ap newest (append_assoc past (r ∷ []) (recorded es (step (ends request_id outcome now) s)))

  -- Whatever requests begin and end, in any order, the store holds exactly the newest 500 of the
  -- records that `endRequest` returned, the oldest first.
  pub run-records : (es : List (Event F)) → (run es new).records ≡ newest (recorded es new)
  unfolding new
  run-records es = run-newest es new [] refl
