-- ===== src/Core/BoundedQueue/Pairing.antt =====
-- Two sequences matched in order: how the n-th accepted value meets the n-th promise.
use cmm_routers.Prelude.{◌≡◌, refl, List, [], ◌∷◌, ◌++◌, length, drop, drop-nil, ap}

module _ {ℓ κ} {A : Type ℓ} {B : Type κ} where
  abbrev pub pair_up : List A → List B → List (A × B)
  pair_up [] bs = []
  pair_up (a ∷ xs) [] = []
  pair_up (a ∷ xs) (b ∷ bs) = (a, b) ∷ pair_up xs bs

  pair_up-nil : (xs : List A) → pair_up xs [] ≡ []
  pair_up-nil [] = refl
  pair_up-nil (x ∷ xs) = refl

  -- a new value on the left meets the first partner that is left over
  pub record MeetsLeft (xs : List A) (bs : List B) (a : A) (b : B) (rest : List B)
      : Type (ℓ ⊔ κ) where
    pub spare : drop (length bs) xs ≡ []
    pub pairs : pair_up (xs ++ a ∷ []) bs ≡ pair_up xs bs ++ (a, b) ∷ []
    pub left : drop (length bs) (xs ++ a ∷ []) ≡ []
    pub right : drop (length (xs ++ a ∷ [])) bs ≡ rest

  pub meets_left :
      (xs : List A) (bs : List B) (a : A) (b : B) (rest : List B)
      → drop (length xs) bs ≡ b ∷ rest
      → MeetsLeft xs bs a b rest
  meets_left [] [] a b rest h = cc
  meets_left [] (c ∷ cs) a b rest h = record {
    spare = refl;
    pairs = cc;
    left = drop-nil (length cs);
    right = cc;
  }
  meets_left (x ∷ xs) [] a b rest h = cc
  meets_left (x ∷ xs) (c ∷ cs) a b rest h =
      let m = meets_left xs cs a b rest h in
      record {
        spare = m.spare;
        pairs = ap (λ (l : List (A × B)). (x, c) ∷ l) m.pairs;
        left = m.left;
        right = m.right;
      }

  -- a new value on the left with no partner waits
  pub record WaitsLeft (xs : List A) (bs : List B) (a : A) : Type (ℓ ⊔ κ) where
    pub pairs : pair_up (xs ++ a ∷ []) bs ≡ pair_up xs bs
    pub left : drop (length bs) (xs ++ a ∷ []) ≡ drop (length bs) xs ++ a ∷ []
    pub right : drop (length (xs ++ a ∷ [])) bs ≡ []

  pub waits_left :
      (xs : List A) (bs : List B) (a : A) → drop (length xs) bs ≡ [] → WaitsLeft xs bs a
  waits_left [] [] a h = record { pairs = refl; left = refl; right = refl }
  waits_left [] (c ∷ cs) a h = cc
  waits_left (x ∷ xs) [] a h = record { pairs = refl; left = refl; right = refl }
  waits_left (x ∷ xs) (c ∷ cs) a h =
      let w = waits_left xs cs a h in
      record {
        pairs = ap (λ (l : List (A × B)). (x, c) ∷ l) w.pairs;
        left = w.left;
        right = w.right;
      }

  -- the same on the right
  pub record MeetsRight (xs : List A) (bs : List B) (b : B) (a : A) (rest : List A)
      : Type (ℓ ⊔ κ) where
    pub spare : drop (length xs) bs ≡ []
    pub pairs : pair_up xs (bs ++ b ∷ []) ≡ pair_up xs bs ++ (a, b) ∷ []
    pub left : drop (length (bs ++ b ∷ [])) xs ≡ rest
    pub right : drop (length xs) (bs ++ b ∷ []) ≡ []

  pub meets_right :
      (xs : List A) (bs : List B) (b : B) (a : A) (rest : List A)
      → drop (length bs) xs ≡ a ∷ rest
      → MeetsRight xs bs b a rest
  meets_right [] [] b a rest h = cc
  meets_right (x ∷ xs) [] b a rest h = record {
    spare = refl;
    pairs = cc (pair_up-nil xs);
    left = cc;
    right = drop-nil (length xs);
  }
  meets_right [] (c ∷ cs) b a rest h = cc
  meets_right (x ∷ xs) (c ∷ cs) b a rest h =
      let m = meets_right xs cs b a rest h in
      record {
        spare = m.spare;
        pairs = ap (λ (l : List (A × B)). (x, c) ∷ l) m.pairs;
        left = m.left;
        right = m.right;
      }

  pub record WaitsRight (xs : List A) (bs : List B) (b : B) : Type (ℓ ⊔ κ) where
    pub pairs : pair_up xs (bs ++ b ∷ []) ≡ pair_up xs bs
    pub left : drop (length (bs ++ b ∷ [])) xs ≡ []
    pub right : drop (length xs) (bs ++ b ∷ []) ≡ drop (length xs) bs ++ b ∷ []

  pub waits_right :
      (xs : List A) (bs : List B) (b : B) → drop (length bs) xs ≡ [] → WaitsRight xs bs b
  waits_right [] bs b h = record {
    pairs = refl;
    left = drop-nil (length (bs ++ b ∷ []));
    right = refl;
  }
  waits_right (x ∷ xs) [] b h = cc
  waits_right (x ∷ xs) (c ∷ cs) b h =
      let w = waits_right xs cs b h in
      record {
        pairs = ap (λ (l : List (A × B)). (x, c) ∷ l) w.pairs;
        left = w.left;
        right = w.right;
      }
