-- ===== src/Prelude/Table.antt =====
-- A database table as the list of its rows, and the query-set operations that the source uses.
use mathlib.Core.Path.{◌≡◌, refl, subst}
use mathlib.Core.Logic.{inl, inr}
use mathlib.Core.List.{List, [], ◌∷◌, ◌++◌}
use mathlib.Core.Bool.{Bool, true, false, ◌||◌}
use mathlib.Core.Option
use mathlib.Core.Option.{Option, none, some}
use native.Mathlib.Omega.{arith}
use vmlc_backend.Prelude.Tests.{if◌then◌else◌, Bool-cases, is_some}
use vmlc_backend.Prelude.Lists.{All, any_of, count_of, length}

module _ {ℓ} {A : Type ℓ} where
  -- `filter(...)`
  abbrev pub select : (A → Bool) → List A → List A
  select p [] = []
  select p (x ∷ xs) = if p x then x ∷ select p xs else select p xs

  -- `filter(...).update(...)`
  abbrev pub update_where : (A → Bool) → (A → A) → List A → List A
  update_where p f [] = []
  update_where p f (x ∷ xs) = (if p x then f x else x) ∷ update_where p f xs

  -- `filter(...).delete()`
  abbrev pub delete_where : (A → Bool) → List A → List A
  delete_where p [] = []
  delete_where p (x ∷ xs) = if p x then delete_where p xs else x ∷ delete_where p xs

  -- `filter(...).first()`, `get(...)` of a unique row
  abbrev pub first_where : (A → Bool) → List A → Option A
  first_where p [] = none
  first_where p (x ∷ xs) = if p x then some x else first_where p xs

module _ {ℓ} {A : Type ℓ} where
  pub length-select : (p : A → Bool) (xs : List A) → length (select p xs) ≡ count_of p xs
  length-select p [] = refl
  length-select p (x ∷ xs) = ground (arith, length-select p xs)

  pub first_where-true :
      (p : A → Bool) (xs : List A) {a : A} → first_where p xs ≡ some a → p a ≡ true
  first_where-true p [] h = cc
  first_where-true p (x ∷ xs) {a} h = elim (Bool-cases (p x)) [
    | inl e ↦ ground arith
    | inr e ↦ first_where-true p xs (rw e at h)
  ]

  pub first_where-All {κ} :
      (P : A → Type κ) (p : A → Bool) (xs : List A) {a : A}
      → All P xs
      → first_where p xs ≡ some a
      → P a
  first_where-All P p [] all h = absurd (cc)
  first_where-All P p (x ∷ xs) {a} all h = elim (Bool-cases (p x)) [
    | inl e ↦ let q : x ≡ a = ground arith in subst P q all.0
    | inr e ↦ first_where-All P p xs all.1 (rw e at h)
  ]

  pub update_where-All {κ} :
      (P : A → Type κ) (p : A → Bool) (f : A → A)
      → ((x : A) → P x → p x ≡ true → P (f x))
      → (xs : List A) → All P xs
      → All P (update_where p f xs)
  update_where-All P p f keep [] h = tt
  update_where-All P p f keep (x ∷ xs) h = (
    elim (Bool-cases (p x)) [ inl e ↦ rw e (keep x h.0 e) | inr e ↦ rw e h.0 ],
    update_where-All P p f keep xs h.1,
  )

  -- An update of the rows that pass a test, which leaves the test as it is, maps the first of them.
  pub first_where-update :
      (p : A → Bool) (f : A → A) (xs : List A)
      → ((x : A) → p (f x) ≡ p x)
      → first_where p (update_where p f xs) ≡ Option.map f (first_where p xs)
  first_where-update p f [] same = refl
  first_where-update p f (x ∷ xs) same = elim (Bool-cases (p x)) [
    | inl e ↦ rw (e, same x, e)
    | inr e ↦ rw (e, e) (first_where-update p f xs same)
  ]

  pub first_where-append :
      (p : A → Bool) (xs ys : List A)
      → first_where p (xs ++ ys)
        ≡ (if is_some (first_where p xs) then first_where p xs else first_where p ys)
  first_where-append p [] ys = refl
  first_where-append p (x ∷ xs) ys = elim (Bool-cases (p x)) [
    | inl e ↦ rw e
    | inr e ↦ rw e (first_where-append p xs ys)
  ]

  pub any_of-append :
      (p : A → Bool) (xs ys : List A) → any_of p (xs ++ ys) ≡ (any_of p xs || any_of p ys)
  any_of-append p [] ys = refl
  any_of-append p (x ∷ xs) ys = ground (arith, any_of-append p xs ys)

  pub any_of-first_where : (p : A → Bool) (xs : List A) → any_of p xs ≡ is_some (first_where p xs)
  any_of-first_where p [] = refl
  any_of-first_where p (x ∷ xs) = ground (arith, any_of-first_where p xs)

  -- An update of other rows, which leaves the test as it is, keeps the first row that passes it.
  pub first_where-others :
      (p q : A → Bool) (f : A → A) (xs : List A)
      → ((x : A) → p (f x) ≡ p x)
      → ((x : A) → p x ≡ true → q x ≡ false)
      → first_where p (update_where q f xs) ≡ first_where p xs
  first_where-others p q f [] same apart = refl
  first_where-others p q f (x ∷ xs) same apart = elim (Bool-cases (p x)) [
    | inl e ↦ rw (apart x e, e)
    | inr e ↦ ground (arith, first_where-others p q f xs same apart, same x)
  ]

  -- An update of some rows, which leaves the test as it is, maps the first that passes it if it is one
  -- of them.
  pub first_where-map_if :
      (p q : A → Bool) (f : A → A) (xs : List A)
      → ((x : A) → p (f x) ≡ p x)
      → first_where p (update_where q f xs)
        ≡ Option.map (λ x. if q x then f x else x) (first_where p xs)
  first_where-map_if p q f [] same = refl
  first_where-map_if p q f (x ∷ xs) same = elim (Bool-cases (p x)) [
    | inl e ↦ elim (Bool-cases (q x)) [
      | inl k ↦ rw (e, k, same x, e) refl
      | inr k ↦ rw (e, k, e) refl
    ]
    | inr e ↦ elim (Bool-cases (q x)) [
      | inl k ↦ rw (e, k, same x, e) (first_where-map_if p q f xs same)
      | inr k ↦ rw (e, k, e) (first_where-map_if p q f xs same)
    ]
  ]

  -- The first row that passes a test, replaced by another that passes it.
  pub first_where-replace :
      (p : A → Bool) (xs : List A) (a b : A)
      → p b ≡ true
      → first_where p xs ≡ some a
      → first_where p (update_where p (λ _. b) xs) ≡ some b
  first_where-replace p [] a b h k = absurd (cc)
  first_where-replace p (x ∷ xs) a b h k = elim (Bool-cases (p x)) [
    | inl e ↦ rw (e, h)
    | inr e ↦ rw (e, e) (first_where-replace p xs a b h (rw e at k))
  ]

  -- An update that leaves the test as it is keeps the first row that passes it, if it is not itself
  -- updated.
  pub first_where-kept :
      (p q : A → Bool) (f : A → A) (xs : List A) (a : A)
      → ((x : A) → p (f x) ≡ p x)
      → first_where p xs ≡ some a
      → q a ≡ false
      → first_where p (update_where q f xs) ≡ some a
  first_where-kept p q f [] a same h k = absurd (cc)
  first_where-kept p q f (x ∷ xs) a same h k = elim (Bool-cases (p x)) [
    | inl e ↦ ground (arith, same x)
    | inr e ↦
        let j : first_where p xs ≡ some a = rw e at h in
        ground (arith, same x, first_where-kept p q f xs a same j k)
  ]

  -- The same for a replacement of the row.
  pub first_where-replaced :
      (p q : A → Bool) (xs : List A) (a b : A)
      → p b ≡ true
      → first_where p xs ≡ some a
      → q a ≡ true
      → first_where p (update_where q (λ _. b) xs) ≡ some b
  first_where-replaced p q [] a b t h k = absurd (cc)
  first_where-replaced p q (x ∷ xs) a b t h k = elim (Bool-cases (p x)) [
    | inl e ↦ ground arith
    | inr e ↦
        let j : first_where p xs ≡ some a = rw e at h in
        ground (arith, first_where-replaced p q xs a b t j k)
  ]

  pub All-select {κ} :
      (P : A → Type κ) (p : A → Bool) (xs : List A)
      → All P (select p xs)
      → All (λ x. p x ≡ true → P x) xs
  All-select P p [] h = tt
  All-select P p (x ∷ xs) h = elim (Bool-cases (p x)) [
    | inl e ↦ let k : All P (x ∷ select p xs) = rw e at h in ((λ _. k.0), All-select P p xs k.1)
    | inr e ↦ ((λ j. absurd (cc)), All-select P p xs (rw e at h))
  ]

  -- The first row that passes a test, after an update that leaves the test as it is.
  pub first_where-updated :
      (p q : A → Bool) (f : A → A) (xs : List A) (a : A)
      → ((x : A) → p (f x) ≡ p x)
      → first_where p xs ≡ some a
      → first_where p (update_where q f xs) ≡ some (if q a then f a else a)
  first_where-updated p q f [] a same h = absurd (cc)
  first_where-updated p q f (x ∷ xs) a same h = elim (Bool-cases (p x)) [
    | inl e ↦
        let j : x ≡ a = ground arith in
        subst (λ b. first_where p (update_where q f (x ∷ xs)) ≡ some (if q b then f b else b)) j
          (ground (arith, same x))
    | inr e ↦
        let j : first_where p xs ≡ some a = rw e at h in
        ground (arith, same x, first_where-updated p q f xs a same j)
  ]
