-- ===== src/Prelude/Counts.antt =====
-- Counting rows across updates.
use vmlc_backend.Prelude.{
  ◌≤◌, ◌≡◌, refl, Bool, true, false, List, [], ◌∷◌, arith, count_of, update_where, any_of,
}

module _ {ℓ} {A : Type ℓ} where
  pub count_of_mono :
      (p q : A → Bool)
      → ((x : A) → p x ≡ true → q x ≡ true)
      → (xs : List A) → count_of p xs ≤ count_of q xs
  count_of_mono p q h [] = omega arith
  count_of_mono p q h (x ∷ xs) = ground (arith, count_of_mono p q h xs, h x)

  -- A count after an update is at most another count before it, if the one test of an updated row
  -- implies the other of the row.
  pub count_of-update-le :
      (p p' q : A → Bool) (f : A → A) (xs : List A)
      → ((x : A) → q x ≡ true → p (f x) ≡ true → p' x ≡ true)
      → ((x : A) → q x ≡ false → p x ≡ true → p' x ≡ true)
      → count_of p (update_where q f xs) ≤ count_of p' xs
  count_of-update-le p p' q f [] h k = omega arith
  count_of-update-le p p' q f (x ∷ xs) h k =
      ground (arith, count_of-update-le p p' q f xs h k, h x, k x)

  -- A row that passes a test still does after an update that keeps it so.
  pub any_of-update :
      (p q : A → Bool) (f : A → A) (xs : List A)
      → ((x : A) → p x ≡ true → q x ≡ true → p (f x) ≡ true)
      → any_of p xs ≡ true
      → any_of p (update_where q f xs) ≡ true
  any_of-update p q f [] keep h = absurd (cc)
  any_of-update p q f (x ∷ xs) keep h = ground (arith, any_of-update p q f xs keep, keep x)

  -- An update makes a row pass a test.
  pub any_of-updated :
      (p q : A → Bool) (f : A → A) (xs : List A)
      → ((x : A) → q x ≡ true → p (f x) ≡ true)
      → any_of q xs ≡ true
      → any_of p (update_where q f xs) ≡ true
  any_of-updated p q f [] make h = absurd (cc)
  any_of-updated p q f (x ∷ xs) make h = ground (arith, any_of-updated p q f xs make, make x)

  pub any_of-count : (p : A → Bool) (xs : List A) → any_of p xs ≡ false → count_of p xs ≡ 0
  any_of-count p [] h = refl
  any_of-count p (x ∷ xs) h = ground (arith, any_of-count p xs)
