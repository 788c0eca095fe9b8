-- ===== src/Prelude/Lists.antt =====
-- Lists measured by native numbers, and predicates on all their elements.
use Prim.Native.Nat.{ℕ, suc, ◌+◌, ◌≤◌}
use mathlib.Core.Path.{◌≡◌}
use mathlib.Core.List.{List, [], ◌∷◌, ◌++◌}
use mathlib.Core.Bool.{Bool, false, ◌||◌}
use native.Mathlib.Omega.{arith}
use vmlc_backend.Prelude.Tests.{◌==◌, if◌then◌else◌}

module _ {ℓ} {A : Type ℓ} where
  abbrev pub length : List A → ℕ
  length [] = 0
  length (x ∷ xs) = suc (length xs)

  abbrev pub All {κ} : (A → Type κ) → List A → Type κ
  All P [] = Unit
  All P (x ∷ xs) = P x × All P xs

  -- Two lists of one length whose elements are related one by one.
  abbrev pub Aligned {κ} : {B : Type κ} → (A → B → Type 0) → List A → List B → Type 0
  Aligned R [] [] = Unit
  Aligned R [] (y ∷ ys) = ⊥
  Aligned R (x ∷ xs) [] = ⊥
  Aligned R (x ∷ xs) (y ∷ ys) = R x y × Aligned R xs ys

  -- How many elements pass a test.
  abbrev pub count_of : (A → Bool) → List A → ℕ
  count_of p [] = 0
  count_of p (x ∷ xs) = (if p x then 1 else 0) + count_of p xs

  abbrev pub any_of : (A → Bool) → List A → Bool
  any_of p [] = false
  any_of p (x ∷ xs) = p x || any_of p xs

module _ {ℓ} {A : Type ℓ} where
  pub count_of-append :
      (p : A → Bool) (xs ys : List A) → count_of p (xs ++ ys) ≡ count_of p xs + count_of p ys
  count_of-append p [] ys = omega arith
  count_of-append p (x ∷ xs) ys = omega (arith, count_of-append p xs ys)

  pub length-append : (xs ys : List A) → length (xs ++ ys) ≡ length xs + length ys
  length-append [] ys = omega arith
  length-append (x ∷ xs) ys = omega (arith, length-append xs ys)

  pub count_of-le-length : (p : A → Bool) (xs : List A) → count_of p xs ≤ length xs
  count_of-le-length p [] = omega arith
  count_of-le-length p (x ∷ xs) = ground (arith, count_of-le-length p xs)

  pub All-map {κ μ} :
      {P : A → Type κ} {Q : A → Type μ} (f : (x : A) → P x → Q x) (xs : List A)
      → All P xs
      → All Q xs
  All-map f [] h = tt
  All-map f (x ∷ xs) h = (f x h.0, All-map f xs h.1)

  pub All-append {κ} : (P : A → Type κ) (xs ys : List A) → All P xs → All P ys → All P (xs ++ ys)
  All-append P [] ys h k = k
  All-append P (x ∷ xs) ys h k = (h.0, All-append P xs ys h.1 k)

-- Membership of an identifier.
abbrev pub is_in : ℕ → List ℕ → Bool
is_in a xs = any_of (λ x. x == a) xs
