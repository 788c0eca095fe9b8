-- ===== src/Competition/Generation/Rows.antt =====
-- Who has an entry in a generated ranking, and with what score.
use vmlc_backend.Prelude.{
  ℕ, ◌+◌, ◌≡◌, refl, ap, ◌∙◌, subst, Bool, ◌&&◌, Option, none, some, List, [], ◌∷◌, arith, ◌==◌,
  ==_refl, ==_iff, opt_eq, is_some, if◌then◌else◌, inl, inr, Bool-cases, Option-cases, count_of,
  is_in,
}
use vmlc_backend.Prelude.Sort.{count_of-sort}
use vmlc_backend.Prelude.Dict.{Dict, lookup, contains, HasUniqueKeys, insert-HasUniqueKeys}
use vmlc_backend.Competition.Model.{Enrollment}
use vmlc_backend.Vmlc.Model.{ExamResult}
use vmlc_backend.Competition.Ranking.{
  Score, ScoreData, AccessInfo, RankingPolicy, TieBreak, Entry, Loop, raw_results,
  access_by_candidate, present_data, absent_data, add_results, add_absentees,
  build_candidate_scores, standard_le, dense_le, sort_candidates, advance, loop_start, assign_loop,
  assign_ranks,
}
use vmlc_backend.Competition.Ranking.Scores.{
  best_score, expected_data, lookup-build_candidate_scores,
}

add_results-HasUniqueKeys :
    (eligible : List ℕ) (accesses : Dict AccessInfo) (rs : List ExamResult) (d : Dict ScoreData)
    → HasUniqueKeys d
    → HasUniqueKeys (add_results eligible accesses rs d)
unfolding add_results
add_results-HasUniqueKeys eligible accesses [] d h = h
add_results-HasUniqueKeys eligible accesses (r ∷ rs) d h =
    elim (Bool-cases (is_in r.candidate eligible)) [
      | inl e ↦ rw e (
          add_results-HasUniqueKeys eligible accesses rs _
            (insert-HasUniqueKeys r.candidate (present_data accesses r.candidate r.score) d h))
      | inr e ↦ rw e (add_results-HasUniqueKeys eligible accesses rs d h)
    ]

add_absentees-HasUniqueKeys :
    (absentee_score : Option ℕ) (cs : List ℕ) (d : Dict ScoreData)
    → HasUniqueKeys d
    → HasUniqueKeys (add_absentees absentee_score cs d)
unfolding add_absentees
add_absentees-HasUniqueKeys absentee_score [] d h = h
add_absentees-HasUniqueKeys absentee_score (c ∷ cs) d h = elim (Bool-cases (contains c d)) [
  | inl e ↦ rw e (add_absentees-HasUniqueKeys absentee_score cs d h)
  | inr e ↦ rw e (
      add_absentees-HasUniqueKeys absentee_score cs _
        (insert-HasUniqueKeys c (absent_data absentee_score) d h))
]

-- The score that an entry shows.
abbrev pub shown : ScoreData → ℕ
shown d = elim d.score [ Score.absent ↦ 0 | Score.points s ↦ s ]

-- The highest score of the candidate in the exam, or that of an absentee, by default 0.
abbrev pub final_score : ℕ → List ExamResult → Option ℕ → ℕ → ℕ
final_score exam results absentee_score c = elim (best_score exam c results) [
  | none ↦ elim absentee_score [ none ↦ 0 | some s ↦ s ]
  | some s ↦ s
]

abbrev pub has_entry : ℕ → ℕ → Entry → Bool
has_entry c v e = e.candidate_id == c && opt_eq e.exam_score (some v)

abbrev has_data : ℕ → ℕ → ℕ × ScoreData → Bool
has_data c v x = x.0 == c && shown x.1 == v

count_of-lookup :
    (c v : ℕ) (d : Dict ScoreData)
    → HasUniqueKeys d
    → count_of (has_data c v) d
      ≡ elim (lookup c d) [ none ↦ 0 | some x ↦ if shown x == v then 1 else 0 ]
count_of-lookup c v [] h = refl
count_of-lookup c v ((k, x) ∷ d) h = elim (Bool-cases (k == c)) [
  | inl e ↦
      let n : lookup c d ≡ none = subst (λ y. lookup y d ≡ none) ((==_iff k c).0 e) h.0 in
      let z : count_of (has_data c v) d ≡ 0 = count_of-lookup c v d h.1 ∙ rw n refl in
      ground (arith, e, z)
  | inr e ↦ ground (arith, e, count_of-lookup c v d h.1)
]

module _ (enrollments : List Enrollment) (competition total : ℕ) (policy : RankingPolicy)
    (c : ℕ) where
  count_of-loop :
      (l : Loop) (v : ℕ) (xs : Dict ScoreData)
      → count_of (has_entry c v) (assign_loop enrollments competition total policy l xs)
        ≡ count_of (has_data c v) xs
  unfolding assign_loop
  count_of-loop l v [] = refl
  count_of-loop l v ((k, d) ∷ xs) =
      ap (λ n. (if k == c && shown d == v then 1 else 0) + n)
        (count_of-loop (advance enrollments competition total policy l d) v xs)

  count_of-candidates :
      (l : Loop) (xs : Dict ScoreData)
      → count_of (λ e. e.candidate_id == c) (assign_loop enrollments competition total policy l xs)
        ≡ count_of (λ x. x.0 == c) xs
  unfolding assign_loop
  count_of-candidates l [] = refl
  count_of-candidates l ((k, d) ∷ xs) =
      ap (λ n. (if k == c then 1 else 0) + n)
        (count_of-candidates (advance enrollments competition total policy l d) xs)

count_of-sort_candidates :
    (p : ℕ × ScoreData → Bool) (scores : Dict ScoreData) (policy : RankingPolicy) (t : TieBreak)
    → count_of p (sort_candidates scores policy t) ≡ count_of p scores
unfolding sort_candidates
count_of-sort_candidates p scores RankingPolicy.dense TieBreak.submission_time_asc =
    count_of-sort dense_le p scores
count_of-sort_candidates p scores RankingPolicy.dense TieBreak.other =
    count_of-sort standard_le p scores
count_of-sort_candidates p scores RankingPolicy.standard t = count_of-sort standard_le p scores

build_candidate_scores-HasUniqueKeys :
    (exam : ℕ) (eligible : List ℕ) (results : List ExamResult) (accesses : List AccessInfo)
    (absentee_score : Option ℕ)
    → HasUniqueKeys (build_candidate_scores exam eligible results accesses absentee_score)
unfolding build_candidate_scores
build_candidate_scores-HasUniqueKeys exam eligible results accesses absentee_score =
    add_absentees-HasUniqueKeys absentee_score eligible _ (
      add_results-HasUniqueKeys eligible (access_by_candidate accesses [])
        (raw_results exam results) [] tt)

shown-present : (accesses : Dict AccessInfo) (c s : ℕ) → shown (present_data accesses c s) ≡ s
shown-present accesses c s = elim (Option-cases (lookup c accesses)) [
  | inl n ↦ rw (shown, n) refl
  | inr (a, e) ↦ rw (shown, e) refl
]

shown-absent :
    (absentee_score : Option ℕ)
    → shown (absent_data absentee_score) ≡ elim absentee_score [ none ↦ 0 | some s ↦ s ]
shown-absent none = refl
shown-absent (some s) = refl

shown-found :
    (accesses : Dict AccessInfo) (absentee_score : Option ℕ) (c : ℕ) (found : Option ℕ)
    → shown (elim found [ none ↦ absent_data absentee_score | some s ↦ present_data accesses c s ])
      ≡ elim found [ none ↦ elim absentee_score [ none ↦ 0 | some s ↦ s ] | some s ↦ s ]
shown-found accesses absentee_score c none = shown-absent absentee_score
shown-found accesses absentee_score c (some s) = shown-present accesses c s

shown-expected :
    (exam : ℕ) (results : List ExamResult) (accesses : Dict AccessInfo) (absentee_score : Option ℕ)
    (c : ℕ)
    → shown (expected_data exam results accesses absentee_score c)
      ≡ final_score exam results absentee_score c
shown-expected exam results accesses absentee_score c =
    shown-found accesses absentee_score c (best_score exam c results)

count_of-keys :
    (c : ℕ) (d : Dict ScoreData)
    → HasUniqueKeys d
    → count_of (λ x. x.0 == c) d ≡ (if is_some (lookup c d) then 1 else 0)
count_of-keys c [] h = refl
count_of-keys c ((k, x) ∷ d) h = elim (Bool-cases (k == c)) [
  | inl e ↦
      let n : lookup c d ≡ none = subst (λ y. lookup y d ≡ none) ((==_iff k c).0 e) h.0 in
      let z : count_of (λ x. x.0 == c) d ≡ 0 = count_of-keys c d h.1 ∙ rw n refl in
      ground (arith, e, z)
  | inr e ↦ ground (arith, e, count_of-keys c d h.1)
]

module _ (enrollments : List Enrollment) (competition exam : ℕ) (policy : RankingPolicy)
    (tie_break : TieBreak) (eligible : List ℕ) (results : List ExamResult)
    (accesses : List AccessInfo) (absentee_score : Option ℕ) (c : ℕ) where
  abbrev scores : Dict ScoreData
  scores = build_candidate_scores exam eligible results accesses absentee_score

  abbrev ranking : List Entry
  ranking = assign_ranks enrollments competition (sort_candidates scores policy tie_break) policy

  looked_up : lookup c scores ≡ (
      if is_in c eligible
      then some (expected_data exam results (access_by_candidate accesses []) absentee_score c)
      else none)
  looked_up = lookup-build_candidate_scores exam eligible results accesses absentee_score c

  pub count_of-assigned :
      count_of (λ e. e.candidate_id == c) ranking ≡ (if is_in c eligible then 1 else 0)
  unfolding assign_ranks
  count_of-assigned =
      count_of-candidates enrollments competition _ policy c loop_start
        (sort_candidates scores policy tie_break)
      ∙ count_of-sort_candidates (λ x. x.0 == c) scores policy tie_break
      ∙ count_of-keys c scores
          (build_candidate_scores-HasUniqueKeys exam eligible results accesses absentee_score)
      ∙ ground (arith, looked_up)

  pub count_of-scored :
      count_of (has_entry c (final_score exam results absentee_score c)) ranking
      ≡ (if is_in c eligible then 1 else 0)
  unfolding assign_ranks
  count_of-scored =
      let v = final_score exam results absentee_score c in
      count_of-loop enrollments competition _ policy c loop_start v
        (sort_candidates scores policy tie_break)
      ∙ count_of-sort_candidates (has_data c v) scores policy tie_break
      ∙ count_of-lookup c v scores
          (build_candidate_scores-HasUniqueKeys exam eligible results accesses absentee_score)
      ∙ elim (Bool-cases (is_in c eligible)) [
        | inl e ↦
            rw (looked_up, e)
              (rw (shown-expected exam results (access_by_candidate accesses []) absentee_score c)
                (rw (==_refl v) refl))
        | inr e ↦ rw (looked_up, e) refl
      ]
