-- ===== src/Competition/Leaderboard/Totals.antt =====
-- The aggregation of the scores by candidate and enrollment.
use vmlc_backend.Prelude.{
  ℕ, ◌+◌, ◌≡◌, refl, ◌∙◌, Bool, false, ◌&&◌, Option, none, some, List, [], ◌∷◌, arith, ◌==◌, opt_eq,
  if◌then◌else◌, inl, inr, Bool-cases, Option-cases, is_some, All, All-map, count_of, any_of,
}
use vmlc_backend.Competition.Model.{Enrollment}
use vmlc_backend.Competition.Ranking.{Entry, or_zero}
use vmlc_backend.Competition.Leaderboard.{Total, active_enrollment, is_group, add_score, totals}

-- The entries of one group, and the sum of their scores.
abbrev pub belongs : List Enrollment → ℕ → ℕ → Entry → Bool
belongs es c i e = e.candidate_id == c && opt_eq (active_enrollment es e) (some i)

abbrev pub sum_scores : List Enrollment → ℕ → ℕ → List Entry → ℕ
sum_scores es c i [] = 0
sum_scores es c i (e ∷ rest) =
    (if belongs es c i e then or_zero e.exam_score else 0) + sum_scores es c i rest

abbrev score_in : ℕ → ℕ → List Total → Option ℕ
score_in c i [] = none
score_in c i (t ∷ ts) = if is_group c i t then some t.score else score_in c i ts

abbrev IsDistinct : List Total → Type 0
IsDistinct [] = Unit
IsDistinct (t ∷ ts) = (score_in t.candidate t.enrollment ts ≡ none) × IsDistinct ts

score_in-add_score :
    (c i d j s : ℕ) (ts : List Total)
    → score_in c i (add_score d j s ts)
      ≡ (if d == c && j == i then some (or_zero (score_in c i ts) + s) else score_in c i ts)
unfolding add_score
score_in-add_score c i d j s [] = ground arith
score_in-add_score c i d j s (t ∷ ts) = ground (arith, score_in-add_score c i d j s ts)

add_score-IsDistinct :
    (c i s : ℕ) (ts : List Total) → IsDistinct ts → IsDistinct (add_score c i s ts)
unfolding add_score
add_score-IsDistinct c i s [] h = (refl, tt)
add_score-IsDistinct c i s (t ∷ ts) h = elim (Bool-cases (is_group c i t)) [
  | inl e ↦ rw e h
  | inr e ↦ rw e (
    score_in-add_score t.candidate t.enrollment c i s ts ∙ ground (arith, h.0),
    add_score-IsDistinct c i s ts h.1,
  )
]

totals-skip :
    (es : List Enrollment) (e : Entry) (rest : List Entry)
    → active_enrollment es e ≡ none
    → totals es (e ∷ rest) ≡ totals es rest
unfolding totals
totals-skip es e rest n = rw (totals, n)

totals-add :
    (es : List Enrollment) (e : Entry) (rest : List Entry) (i : ℕ)
    → active_enrollment es e ≡ some i
    → totals es (e ∷ rest) ≡ add_score e.candidate_id i (or_zero e.exam_score) (totals es rest)
unfolding totals
totals-add es e rest i s = rw (totals, s)

none_sum :
    (es : List Enrollment) (c i : ℕ) (entries : List Entry)
    → any_of (belongs es c i) entries ≡ false
    → sum_scores es c i entries ≡ 0
none_sum es c i [] h = refl
none_sum es c i (e ∷ rest) h = ground (arith, none_sum es c i rest)

totals-IsDistinct : (es : List Enrollment) (entries : List Entry) → IsDistinct (totals es entries)
unfolding totals
totals-IsDistinct es [] = tt
totals-IsDistinct es (e ∷ rest) = elim (Option-cases (active_enrollment es e)) [
  | inl n ↦ rw (totals-skip es e rest n) (totals-IsDistinct es rest)
  | inr (i, s) ↦ rw (totals-add es e rest i s) (
      add_score-IsDistinct e.candidate_id i (or_zero e.exam_score) (totals es rest)
        (totals-IsDistinct es rest))
]

score_in-totals :
    (es : List Enrollment) (c i : ℕ) (entries : List Entry)
    → score_in c i (totals es entries)
      ≡ (if any_of (belongs es c i) entries then some (sum_scores es c i entries) else none)
unfolding totals
score_in-totals es c i [] = refl
score_in-totals es c i (e ∷ rest) = elim (Option-cases (active_enrollment es e)) [
  | inl n ↦ rw (totals-skip es e rest n) (score_in-totals es c i rest ∙ ground (arith, n))
  | inr (j, s) ↦ rw (totals-add es e rest j s) (
      score_in-add_score c i e.candidate_id j (or_zero e.exam_score) (totals es rest)
      ∙ ground (arith, s, score_in-totals es c i rest, none_sum es c i rest))
]

IsDistinct-score_in :
    (ts : List Total)
    → IsDistinct ts
    → All (λ t. score_in t.candidate t.enrollment ts ≡ some t.score) ts
IsDistinct-score_in [] h = tt
IsDistinct-score_in (t ∷ ts) h =
    (ground arith, All-map (λ x k. ground arith) ts (IsDistinct-score_in ts h.1))

count_of-group :
    (c i : ℕ) (ts : List Total)
    → IsDistinct ts
    → count_of (is_group c i) ts ≡ (if is_some (score_in c i ts) then 1 else 0)
count_of-group c i [] h = refl
count_of-group c i (t ∷ ts) h = ground (arith, count_of-group c i ts h.1)

-- The score of every group is the sum of the scores of its entries, those of candidates whose
-- enrollment is active.
pub totals-sum :
    (es : List Enrollment) (entries : List Entry)
    → All (λ t. t.score ≡ sum_scores es t.candidate t.enrollment entries) (totals es entries)
totals-sum es entries =
    All-map (λ t k. ground (arith, score_in-totals es t.candidate t.enrollment entries))
      (totals es entries) (IsDistinct-score_in (totals es entries) (totals-IsDistinct es entries))

-- There is one group for a candidate and an enrollment that an entry belongs to, and no other.
pub count_of-totals :
    (es : List Enrollment) (c i : ℕ) (entries : List Entry)
    → count_of (is_group c i) (totals es entries)
      ≡ (if any_of (belongs es c i) entries then 1 else 0)
count_of-totals es c i entries = ground (
  arith,
  count_of-group c i (totals es entries) (totals-IsDistinct es entries),
  score_in-totals es c i entries,
)
