-- ===== src/Prelude/Sort.antt =====
-- Python's `sorted`: a stable sort by a comparison. `le x y` says that `x` may stand before `y`.
use vmlc_backend.Prelude.{
  ◌+◌, ◌≡◌, refl, Bool, true, false, List, [], ◌∷◌, arith, if◌then◌else◌, Bool-cases, inl, inr, All,
  All-map, count_of,
}

module _ {ℓ} {A : Type ℓ} (le : A → A → Bool) where
  unfoldable pub insert_sorted : A → List A → List A
  insert_sorted x [] = x ∷ []
  insert_sorted x (y ∷ ys) = if le x y then x ∷ y ∷ ys else y ∷ insert_sorted x ys

  unfoldable pub sort : List A → List A
  unfolding insert_sorted
  sort [] = []
  sort (x ∷ xs) = insert_sorted x (sort xs)

  -- Every element may stand before all that follow it.
  abbrev pub IsSorted : List A → Type 0
  IsSorted [] = Unit
  IsSorted (x ∷ xs) = All (λ y. le x y ≡ true) xs × IsSorted xs

  pub count_of-insert_sorted :
      (p : A → Bool) (x : A) (xs : List A)
      → count_of p (insert_sorted x xs) ≡ (if p x then 1 else 0) + count_of p xs
  unfolding insert_sorted
  count_of-insert_sorted p x [] = refl
  count_of-insert_sorted p x (y ∷ ys) = ground (arith, count_of-insert_sorted p x ys)

  -- Sorting keeps every element, as often as it occurs.
  pub count_of-sort : (p : A → Bool) (xs : List A) → count_of p (sort xs) ≡ count_of p xs
  unfolding sort
  count_of-sort p [] = refl
  count_of-sort p (x ∷ xs) = omega (arith, count_of-insert_sorted p x (sort xs), count_of-sort p xs)

  pub All-insert_sorted {κ} :
      (P : A → Type κ) (x : A) (xs : List A) → P x → All P xs → All P (insert_sorted x xs)
  unfolding insert_sorted
  All-insert_sorted P x [] p h = (p, tt)
  All-insert_sorted P x (y ∷ ys) p h = elim (Bool-cases (le x y)) [
    | inl e ↦ rw e (p, h)
    | inr e ↦ rw e (h.0, All-insert_sorted P x ys p h.1)
  ]

  pub All-sort {κ} : (P : A → Type κ) (xs : List A) → All P xs → All P (sort xs)
  unfolding sort
  All-sort P [] h = tt
  All-sort P (x ∷ xs) h = All-insert_sorted P x (sort xs) h.0 (All-sort P xs h.1)

  module _ (total : (x y : A) → le x y ≡ false → le y x ≡ true)
      (trans : (x y z : A) → le x y ≡ true → le y z ≡ true → le x z ≡ true) where
    insert_sorted-IsSorted : (x : A) (xs : List A) → IsSorted xs → IsSorted (insert_sorted x xs)
    unfolding insert_sorted
    insert_sorted-IsSorted x [] h = (tt, tt)
    insert_sorted-IsSorted x (y ∷ ys) h = elim (Bool-cases (le x y)) [
      | inl e ↦ rw e ((e, All-map (λ z. trans x y z e) ys h.0), h)
      | inr e ↦ rw e (
        All-insert_sorted (λ z. le y z ≡ true) x ys (total x y e) h.0,
        insert_sorted-IsSorted x ys h.1,
      )
    ]

    pub sort-IsSorted : (xs : List A) → IsSorted (sort xs)
    unfolding sort
    sort-IsSorted [] = tt
    sort-IsSorted (x ∷ xs) = insert_sorted-IsSorted x (sort xs) (sort-IsSorted xs)
