-- ===== src/Competition/Ranking/Scores.antt =====
-- `_build_candidate_scores`: which candidates are ranked, and with what data.
use vmlc_backend.Prelude.{
  ℕ, max, ◌≡◌, refl, ap, ◌∙◌, sym, Bool, true, false, ◌&&◌, Option, none, some, List, [], ◌∷◌,
  arith, ◌==◌, if◌then◌else◌, inl, inr, Bool-cases, All, is_in, select, delete_where, first_where,
}
use vmlc_backend.Prelude.Sort.{sort, insert_sorted, IsSorted, sort-IsSorted}
use vmlc_backend.Prelude.Dict.{Dict, lookup, insert, lookup-insert}
use vmlc_backend.Vmlc.Model.{ExamResult}
use vmlc_backend.Competition.Ranking.{
  ScoreData, AccessInfo, result_le, distinct_candidates, raw_results, access_by_candidate,
  present_data, absent_data, add_results, add_absentees, build_candidate_scores,
}

abbrev of_candidate : ℕ → ExamResult → Bool
of_candidate c r = r.candidate == c

-- The higher of two scores, of which either may be missing.
abbrev pub best : Option ℕ → Option ℕ → Option ℕ
best none t = t
best (some s) none = some s
best (some s) (some t) = some (max s t)

-- The highest score that candidate `c` has in exam `exam`.
abbrev pub best_score : ℕ → ℕ → List ExamResult → Option ℕ
best_score exam c [] = none
best_score exam c (r ∷ rs) =
    if r.exam == exam && r.candidate == c
    then best (some r.score) (best_score exam c rs)
    else best_score exam c rs

-- The same over rows of one exam.
abbrev top : ℕ → List ExamResult → Option ℕ
top c [] = none
top c (r ∷ rs) = if r.candidate == c then best (some r.score) (top c rs) else top c rs

abbrev score_of : Option ExamResult → Option ℕ
score_of none = none
score_of (some r) = some r.score

top-select :
    (exam c : ℕ) (rs : List ExamResult)
    → top c (select (λ r. r.exam == exam) rs) ≡ best_score exam c rs
top-select exam c [] = refl
top-select exam c (r ∷ rs) = ground (arith, top-select exam c rs)

best_swap :
    (s t : ℕ) (o : Option ℕ) → best (some s) (best (some t) o) ≡ best (some t) (best (some s) o)
best_swap s t none = ground arith
best_swap s t (some u) = ground arith

top-insert_sorted :
    (c : ℕ) (r : ExamResult) (rs : List ExamResult)
    → top c (insert_sorted result_le r rs) ≡ top c (r ∷ rs)
unfolding insert_sorted
top-insert_sorted c r [] = refl
top-insert_sorted c r (s ∷ rs) =
    ground (arith, top-insert_sorted c r rs, best_swap r.score s.score (top c rs))

top-sort : (c : ℕ) (rs : List ExamResult) → top c (sort result_le rs) ≡ top c rs
unfolding sort
top-sort c [] = refl
top-sort c (r ∷ rs) = ground (arith, top-sort c rs, top-insert_sorted c r (sort result_le rs))

result_le-total : (r s : ExamResult) → result_le r s ≡ false → result_le s r ≡ true
result_le-total r s h = ground arith

result_le_trans :
    (r s t : ExamResult) → result_le r s ≡ true → result_le s t ≡ true → result_le r t ≡ true
result_le_trans r s t h k = ground arith

-- No later row of the candidate has a higher score.
top-le :
    (r : ExamResult) (rs : List ExamResult)
    → All (λ s. result_le r s ≡ true) rs
    → best (some r.score) (top r.candidate rs) ≡ some r.score
top-le r [] h = refl
top-le r (s ∷ rs) h =
    ground (arith, top-le r rs h.1, best_swap r.score s.score (top r.candidate rs))

top_of_sorted :
    (c : ℕ) (rs : List ExamResult)
    → IsSorted result_le rs
    → top c rs ≡ score_of (first_where (of_candidate c) rs)
top_of_sorted c [] h = refl
top_of_sorted c (r ∷ rs) h = ground (arith, top_of_sorted c rs h.1, top-le r rs h.0)

first_where-delete :
    (c k : ℕ) (rs : List ExamResult)
    → first_where (of_candidate c) (delete_where (of_candidate k) rs)
      ≡ (if k == c then none else first_where (of_candidate c) rs)
first_where-delete c k [] = ground arith
first_where-delete c k (r ∷ rs) = ground (arith, first_where-delete c k rs)

first_where-distinct :
    (c : ℕ) (rs : List ExamResult)
    → first_where (of_candidate c) (distinct_candidates rs) ≡ first_where (of_candidate c) rs
first_where-distinct c [] = refl
first_where-distinct c (r ∷ rs) =
    ground
      (arith, first_where-distinct c rs, first_where-delete c r.candidate (distinct_candidates rs))

-- No candidate stands twice.
abbrev IsDistinct : List ExamResult → Type 0
IsDistinct [] = Unit
IsDistinct (r ∷ rs) = (first_where (of_candidate r.candidate) rs ≡ none) × IsDistinct rs

delete-IsDistinct :
    (k : ℕ) (rs : List ExamResult) → IsDistinct rs → IsDistinct (delete_where (of_candidate k) rs)
delete-IsDistinct k [] h = tt
delete-IsDistinct k (r ∷ rs) h = elim (Bool-cases (r.candidate == k)) [
  | inl e ↦ rw e (delete-IsDistinct k rs h.1)
  | inr e ↦
      rw e (ground (arith, first_where-delete r.candidate k rs, h.0), delete-IsDistinct k rs h.1)
]

distinct_candidates-IsDistinct : (rs : List ExamResult) → IsDistinct (distinct_candidates rs)
distinct_candidates-IsDistinct [] = tt
distinct_candidates-IsDistinct (r ∷ rs) = (
  ground (arith, first_where-delete r.candidate r.candidate (distinct_candidates rs)),
  delete-IsDistinct r.candidate (distinct_candidates rs) (distinct_candidates-IsDistinct rs),
)

-- A loop's entry for `c`: the data of its score if there is one, and else what stood there.
abbrev or_old : Dict AccessInfo → ℕ → Option ℕ → Option ScoreData → Option ScoreData
or_old accesses c none old = old
or_old accesses c (some s) old = some (present_data accesses c s)

lookup-add_results :
    (eligible : List ℕ) (accesses : Dict AccessInfo) (c : ℕ) (rs : List ExamResult)
    (d : Dict ScoreData)
    → IsDistinct rs
    → lookup c (add_results eligible accesses rs d) ≡ (
        if is_in c eligible
        then or_old accesses c (score_of (first_where (of_candidate c) rs)) (lookup c d)
        else lookup c d)
unfolding add_results
lookup-add_results eligible accesses c [] d h = ground arith
lookup-add_results eligible accesses c (r ∷ rs) d h =
    let v = present_data accesses r.candidate r.score in
    ground (
      arith,
      h.0,
      lookup-add_results eligible accesses c rs d h.1,
      lookup-add_results eligible accesses c rs (insert r.candidate v d) h.1,
      lookup-insert r.candidate c v d,
    )

-- The data of a candidate who had none so far.
abbrev or_absent : Option ℕ → Bool → Option ScoreData → Option ScoreData
or_absent absentee_score listed none = if listed then some (absent_data absentee_score) else none
or_absent absentee_score listed (some v) = some v

lookup-add_absentees :
    (absentee_score : Option ℕ) (c : ℕ) (eligible : List ℕ) (d : Dict ScoreData)
    → lookup c (add_absentees absentee_score eligible d)
      ≡ or_absent absentee_score (is_in c eligible) (lookup c d)
unfolding add_absentees
lookup-add_absentees absentee_score c [] d = ground arith
lookup-add_absentees absentee_score c (k ∷ ks) d = ground (
  arith,
  lookup-add_absentees absentee_score c ks d,
  lookup-add_absentees absentee_score c ks (insert k (absent_data absentee_score) d),
  lookup-insert k c (absent_data absentee_score) d,
)

-- What `_build_candidate_scores` promises for candidate `c`.
abbrev pub expected_data : ℕ → List ExamResult → Dict AccessInfo → Option ℕ → ℕ → ScoreData
expected_data exam results accesses absentee_score c = elim (best_score exam c results) [
  | none ↦ absent_data absentee_score
  | some s ↦ present_data accesses c s
]

raw-IsDistinct : (exam : ℕ) (results : List ExamResult) → IsDistinct (raw_results exam results)
unfolding raw_results
raw-IsDistinct exam results =
    distinct_candidates-IsDistinct (sort result_le (select (λ r. r.exam == exam) results))

module _ (exam : ℕ) (eligible : List ℕ) (results : List ExamResult) (accesses : List AccessInfo)
    (absentee_score : Option ℕ) where
  score_of_raw :
      (c : ℕ)
      → score_of (first_where (of_candidate c) (raw_results exam results))
        ≡ best_score exam c results
  unfolding raw_results
  score_of_raw c =
      let rows = select (λ r. r.exam == exam) results in
      ap score_of (first_where-distinct c (sort result_le rows))
      ∙ sym (
          top_of_sorted c (sort result_le rows)
            (sort-IsSorted result_le result_le-total result_le_trans rows))
      ∙ top-sort c rows
      ∙ top-select exam c results

  -- Exactly the eligible candidates have a value in the dict: the data of their highest score in
  -- the exam if they have a result, with the time used and the proctoring data of their access,
  -- and else those of an absentee.
  pub lookup-build_candidate_scores :
      (c : ℕ)
      → lookup c (build_candidate_scores exam eligible results accesses absentee_score) ≡ (
          if is_in c eligible
          then some (expected_data exam results (access_by_candidate accesses []) absentee_score c)
          else none)
  unfolding build_candidate_scores
  lookup-build_candidate_scores c =
      let by_candidate = access_by_candidate accesses [] in
      let d = add_results eligible by_candidate (raw_results exam results) [] in
      ground (
        arith,
        lookup-add_absentees absentee_score c eligible d,
        lookup-add_results eligible by_candidate c (raw_results exam results) []
            (raw-IsDistinct exam results),
        score_of_raw c,
      )
