-- ===== src/Competition/Promotion/Cutoff.antt =====
-- The cutoff rank and the two lists of a promotion.
use vmlc_backend.Prelude.{
  ℕ, ◌+◌, ◌≤◌, ◌≡◌, refl, true, false, List, [], ◌∷◌, arith, ◌==◌, ltb, if◌then◌else◌, inl, inr,
  Bool-cases, is_in, count_of,
}
use vmlc_backend.Competition.Model.{StageType, Policy}
use vmlc_backend.Competition.Promotion.{
  Tables, Failure, Result, and_then, total_active, ids_upto, ids_beyond, policy_cutoff,
}

pub and_then-done {ℓ κ} :
    {A : Type ℓ} {B : Type κ} (r : Result A) (f : A → Result B) (b : B)
    → and_then r f ≡ Result.done b
    → (a : A) × (r ≡ Result.done a) × (f a ≡ Result.done b)
and_then-done (Result.failed e) f b h = absurd (cc)
and_then-done (Result.done a) f b h = (a, refl, h)

-- A cutoff by percentage is at least 1; if the product does not exceed the number of entries, then
-- neither does the cutoff.
pub top_percent-bounds :
    (ceil_product : ℕ → ℕ → ℕ → ℕ) (t : Tables) (competition : ℕ) (from_type : StageType)
    (num den cutoff : ℕ)
    → ((total : ℕ) → ceil_product total num den ≤ total)
    → policy_cutoff ceil_product t competition from_type (Policy.top_percent num den)
      ≡ Result.done cutoff
    → (total : ℕ) × (total_active t competition from_type ≡ Result.done total)
      × (1 ≤ cutoff)
      × (cutoff ≤ total)
top_percent-bounds ceil_product t competition from_type num den cutoff le h =
    let (total, e, k) =
      and_then-done (total_active t competition from_type)
        (λ total.
          if ltb 0 total
          then Result.done
              (if ltb 1 (ceil_product total num den) then ceil_product total num den else 1)
          else Result.failed Failure.empty_stage)
        cutoff h in
    (total, e, ground (arith, le total), ground (arith, le total))

-- The two lists have every ranked candidate once, and no candidate who is ranked once is in both.
pub ids-split :
    (cutoff c : ℕ) (rs : List (ℕ × ℕ))
    → (count_of (λ i. i == c) (ids_upto cutoff rs) + count_of (λ i. i == c) (ids_beyond cutoff rs)
        ≡ count_of (λ r. r.0 == c) rs)
ids-split cutoff c [] = omega arith
ids-split cutoff c (r ∷ rs) = ground (arith, ids-split cutoff c rs)

is_in-count_of : (c : ℕ) (xs : List ℕ) → is_in c xs ≡ true → 1 ≤ count_of (λ i. i == c) xs
is_in-count_of c [] h = absurd (cc)
is_in-count_of c (x ∷ xs) h = ground (arith, is_in-count_of c xs)

-- Of a candidate who is ranked once the two lists are disjoint.
pub ids-disjoint :
    (cutoff c : ℕ) (rs : List (ℕ × ℕ))
    → count_of (λ r. r.0 == c) rs ≤ 1
    → is_in c (ids_upto cutoff rs) ≡ true
    → is_in c (ids_beyond cutoff rs) ≡ false
ids-disjoint cutoff c rs once h = elim (Bool-cases (is_in c (ids_beyond cutoff rs))) [
  | inl e ↦ absurd (
      omega (
        arith,
        ids-split cutoff c rs,
        is_in-count_of c (ids_upto cutoff rs) h,
        is_in-count_of c (ids_beyond cutoff rs) e,
      ))
  | inr e ↦ e
]
