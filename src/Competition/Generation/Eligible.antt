-- ===== src/Competition/Generation/Eligible.antt =====
-- Who is eligible for a ranking, against `_find_eligible_candidate_ids`.
use vmlc_backend.Prelude.{
  ℕ, ◌≡◌, refl, ap, ◌∙◌, subst, Bool, true, ◌&&◌, ◌||◌, List, [], ◌∷◌, map, arith, ◌==◌, ==_iff,
  if◌then◌else◌, inl, inr, Bool-cases, any_of, is_in, select,
}
use vmlc_backend.Competition.Model.{is_active, Candidate, Enrollment}
use vmlc_backend.Competition.Ranking.{to_set, active_candidate_ids, find_eligible_candidate_ids}

-- An active enrollment of the candidate in the competition, with an account that is active and whose
-- address is verified.
abbrev pub is_eligible : ℕ → List Candidate → List Enrollment → ℕ → Bool
is_eligible competition cs es c =
    any_of (λ e. e.candidate == c && (e.competition == competition && is_active e.status)) es
    && any_of (λ a. a.pk == c && (a.is_active && a.is_email_verified)) cs

abbrev pub one_if_eligible : ℕ → List Candidate → List Enrollment → ℕ → ℕ
one_if_eligible competition cs es c = if is_eligible competition cs es c then 1 else 0

is_in-to_set : (c : ℕ) (xs : List ℕ) → is_in c (to_set xs) ≡ is_in c xs
is_in-to_set c [] = refl
is_in-to_set c (x ∷ xs) = elim (Bool-cases (is_in x xs)) [
  | inl e ↦ elim (Bool-cases (x == c)) [
    | inl q ↦
        let k : is_in c xs ≡ true = subst (λ y. is_in y xs ≡ true) ((==_iff x c).0 q) e in
        rw (e, q) (is_in-to_set c xs ∙ k)
    | inr q ↦ rw (e, q) (is_in-to_set c xs)
  ]
  | inr e ↦ rw e (ap (λ b. (x == c) || b) (is_in-to_set c xs))
]

is_in-active :
    (c : ℕ) (cs : List Candidate)
    → is_in c (active_candidate_ids cs)
      ≡ any_of (λ a. a.pk == c && (a.is_active && a.is_email_verified)) cs
is_in-active c [] = refl
is_in-active c (a ∷ cs) = ground (arith, is_in-active c cs)

is_in-enrolled :
    (competition c : ℕ) (ids : List ℕ) (es : List Enrollment)
    → is_in c (
        map
          (λ e. e.candidate)
          (select
            (λ e. e.competition == competition && is_active e.status && is_in e.candidate ids)
            es))
      ≡ (any_of (λ e. e.candidate == c && (e.competition == competition && is_active e.status)) es
          && is_in c ids)
is_in-enrolled competition c ids [] = refl
is_in-enrolled competition c ids (e ∷ es) = elim (Bool-cases (e.candidate == c)) [
  | inl q ↦
      let k : is_in e.candidate ids ≡ is_in c ids =
        ap (λ y. is_in y ids) ((==_iff e.candidate c).0 q) in
      ground (arith, q, k, is_in-enrolled competition c ids es)
  | inr q ↦ ground (arith, q, is_in-enrolled competition c ids es)
]

pub find_eligible_candidate_ids-is_eligible :
    (competition c : ℕ) (cs : List Candidate) (es : List Enrollment)
    → is_in c (find_eligible_candidate_ids competition cs es) ≡ is_eligible competition cs es c
unfolding find_eligible_candidate_ids
find_eligible_candidate_ids-is_eligible competition c cs es =
    is_in-to_set c _
    ∙ is_in-enrolled competition c (active_candidate_ids cs) es
    ∙ ap
        (λ b.
          any_of (λ e. e.candidate == c && (e.competition == competition && is_active e.status)) es
          && b)
        (is_in-active c cs)
