-- ===== src/Competition/Leaderboard/Ranks.antt =====
-- The ranks of a leaderboard that `update_league_leaderboard` builds.
use vmlc_backend.Prelude.{
  ℕ, suc, ◌+◌, ◌≤◌, ◌≡◌, refl, ◌∙◌, ap, sym, Bool, true, false, ◌&&◌, Option, none, some, List, [],
  ◌∷◌, arith, ◌==◌, ltb, if◌then◌else◌, inl, inr, Bool-cases, All, All-map, Aligned, count_of,
  any_of, length,
}
use vmlc_backend.Prelude.Sort.{sort, IsSorted, sort-IsSorted, count_of-sort, All-sort}
use vmlc_backend.Competition.Model.{Enrollment}
use vmlc_backend.Competition.Ranking.{Entry}
use vmlc_backend.Competition.Leaderboard.{
  LeaderboardEntry, Total, is_group, totals, total_le, differs, rank_totals,
}
use vmlc_backend.Competition.Leaderboard.Totals.{belongs, sum_scores, totals-sum, count_of-totals}

abbrev above : ℕ → Total → Bool
above k t = ltb k t.score

-- What the loop knows when the totals `done` have been ranked.
abbrev After : Option ℕ → ℕ → List Total → Type 0
After none rank done = done ≡ []
After (some s) rank done = All (λ t. s ≤ t.score) done × (rank ≡ suc (count_of (above s) done))

abbrev BoundedBy : Option ℕ → List Total → Type 0
BoundedBy none rest = Unit
BoundedBy (some s) rest = All (λ t. t.score ≤ s) rest

count_of-above_full :
    (k : ℕ) (xs : List Total) → All (λ t. suc k ≤ t.score) xs → count_of (above k) xs ≡ length xs
count_of-above_full k [] h = refl
count_of-above_full k (x ∷ xs) h = ground (arith, count_of-above_full k xs h.1)

count_of-above_none :
    (k : ℕ) (xs : List Total) → All (λ t. t.score ≤ k) xs → count_of (above k) xs ≡ 0
count_of-above_none k [] h = refl
count_of-above_none k (x ∷ xs) h = ground (arith, count_of-above_none k xs h.1)

abbrev rank_of : ℕ → Option ℕ → ℕ → Total → ℕ
rank_of idx p rank t = if differs p t.score then idx + 1 else rank

rank_of_next :
    (p : Option ℕ) (idx rank : ℕ) (t : Total) (done : List Total)
    → idx ≡ length done
    → After p rank done
    → BoundedBy p (t ∷ [])
    → rank_of idx p rank t ≡ suc (count_of (above t.score) done)
rank_of_next none idx rank t done i a b = rw (i, a) refl
rank_of_next (some s) idx rank t done i a b = elim (Bool-cases (s == t.score)) [
  | inl e ↦
      let q : s ≡ t.score = ground arith in
      let v : rank ≡ suc (count_of (above t.score) done) =
        a.1 ∙ ap (λ k. suc (count_of (above k) done)) q in
      ground (arith, v)
  | inr e ↦
      let q : suc t.score ≤ s = ground arith in
      ground (arith, count_of-above_full t.score done (All-map (λ x h. omega arith) done a.0))
]

still-AtLeast :
    (p : Option ℕ) (rank : ℕ) (t : Total) (done : List Total)
    → After p rank done
    → BoundedBy p (t ∷ [])
    → All (λ x. t.score ≤ x.score) done
still-AtLeast none rank t done a b = rw a tt
still-AtLeast (some s) rank t done a b = All-map (λ x h. omega (arith, b.0)) done a.0

bound_of_head :
    (p : Option ℕ) (t : Total) (rest : List Total) → BoundedBy p (t ∷ rest) → BoundedBy p (t ∷ [])
bound_of_head none t rest b = tt
bound_of_head (some s) t rest b = (b.0, tt)

-- The row of a group: its total, and a rank that is one more than the number of higher totals.
abbrev pub IsRowOf : List Total → Total → LeaderboardEntry → Type 0
IsRowOf all t e =
    (e.candidate_id ≡ t.candidate)
    × (e.enrollment ≡ t.enrollment)
    × (e.total_score ≡ t.score)
    × (e.overall_rank ≡ some (suc (count_of (above t.score) all)))

rank_totals-IsRowOf :
    (all rest done : List Total) (p : Option ℕ) (idx rank : ℕ)
    → idx ≡ length done
    → After p rank done
    → BoundedBy p rest
    → IsSorted total_le rest
    → ((k : ℕ) → count_of (above k) all ≡ count_of (above k) done + count_of (above k) rest)
    → Aligned (IsRowOf all) rest (rank_totals idx p rank rest)
unfolding rank_totals
rank_totals-IsRowOf all [] done p idx rank i a b s h = tt
rank_totals-IsRowOf all (t ∷ rest) done p idx rank i a b s h =
    let r : rank_of idx p rank t ≡ suc (count_of (above t.score) done) =
      rank_of_next p idx rank t done i a (bound_of_head p t rest b) in
    let low : All (λ x. x.score ≤ t.score) rest = All-map (λ x k. ground arith) rest s.0 in
    let self : count_of (above t.score) (t ∷ rest) ≡ 0 =
      ground (arith, count_of-above_none t.score rest low) in
    (
      (refl, refl, refl, ap some (r ∙ omega (arith, h t.score, self))),
      rank_totals-IsRowOf all rest (t ∷ done) (some t.score) (idx + 1) (rank_of idx p rank t)
          (omega arith)
          (
            (omega arith, still-AtLeast p rank t done a (bound_of_head p t rest b)),
            ground (arith, r),
          )
          low s.1 (λ k. omega (arith, h k)),
    )

total_le-total : (x y : Total) → total_le x y ≡ false → total_le y x ≡ true
total_le-total x y h = ground arith

total_le_trans : (x y z : Total) → total_le x y ≡ true → total_le y z ≡ true → total_le x z ≡ true
total_le_trans x y z h k = ground arith

-- The entries that `update_league_leaderboard` stores, of the entries of the counted snapshots.
abbrev pub board : List Enrollment → List Entry → List LeaderboardEntry
board es entries = rank_totals 0 none 0 (sort total_le (totals es entries))

abbrev pub is_higher : ℕ → LeaderboardEntry → Bool
is_higher k e = ltb k e.total_score

abbrev pub is_row : ℕ → ℕ → LeaderboardEntry → Bool
is_row c i e = e.candidate_id == c && e.enrollment == i

-- A row of the right sum and rank.
abbrev pub IsRanked :
    List Enrollment → List Entry → List LeaderboardEntry → LeaderboardEntry → Type 0
IsRanked es entries rows e =
    (e.total_score ≡ sum_scores es e.candidate_id e.enrollment entries)
    × (e.overall_rank ≡ some (suc (count_of (is_higher e.total_score) rows)))

count_of-rows :
    (p : Total → Bool) (q : LeaderboardEntry → Bool) (all : List Total)
    → ((t : Total) (e : LeaderboardEntry) → IsRowOf all t e → q e ≡ p t)
    → (ts : List Total) (rows : List LeaderboardEntry) → Aligned (IsRowOf all) ts rows
    → count_of q rows ≡ count_of p ts
count_of-rows p q all same [] [] h = refl
count_of-rows p q all same [] (e ∷ rows) h = absurd h
count_of-rows p q all same (t ∷ ts) [] h = absurd h
count_of-rows p q all same (t ∷ ts) (e ∷ rows) h =
    rw (same t e h.0, count_of-rows p q all same ts rows h.1)

rows-IsRanked :
    (es : List Enrollment) (entries : List Entry) (all : List Total) (rows' : List LeaderboardEntry)
    → ((k : ℕ) → count_of (is_higher k) rows' ≡ count_of (above k) all)
    → (ts : List Total) (rows : List LeaderboardEntry) → Aligned (IsRowOf all) ts rows
    → All (λ t. t.score ≡ sum_scores es t.candidate t.enrollment entries) ts
    → All (IsRanked es entries rows') rows
rows-IsRanked es entries all rows' c [] [] h k = tt
rows-IsRanked es entries all rows' c [] (e ∷ rows) h k = absurd h
rows-IsRanked es entries all rows' c (t ∷ ts) [] h k = absurd h
rows-IsRanked es entries all rows' c (t ∷ ts) (e ∷ rows) h k = (
  (h.0.2 ∙ k.0 ∙ rw (h.0.0, h.0.1), h.0.3 ∙ ap (λ n. some (suc n)) (sym (rw h.0.2 (c t.score)))),
  rows-IsRanked es entries all rows' c ts rows h.1 k.1,
)

module _ (es : List Enrollment) (entries : List Entry) where
  abbrev standings : List Total
  standings = sort total_le (totals es entries)

  board-IsRowOf : Aligned (IsRowOf standings) standings (board es entries)
  board-IsRowOf =
      rank_totals-IsRowOf standings standings [] none 0 0 refl refl tt
        (sort-IsSorted total_le total_le-total total_le_trans (totals es entries))
        (λ k. omega arith)

  -- The leaderboard has exactly one row for a candidate and enrollment with an entry in the
  -- counted snapshots while the enrollment is active, and no other row. The total of a row is the
  -- sum of those entries' scores, and its rank is one more than the number of rows with a higher
  -- total.
  pub board-IsRanked :
      All (IsRanked es entries (board es entries)) (board es entries)
      × ((c i : ℕ)
          → count_of (is_row c i) (board es entries)
            ≡ (if any_of (belongs es c i) entries then 1 else 0))
  board-IsRanked = (
    rows-IsRanked es entries standings (board es entries)
        (λ k.
          count_of-rows (above k) (is_higher k) standings (λ t e h. rw (h.2)) standings
            (board es entries) board-IsRowOf)
        standings (board es entries) board-IsRowOf
        (All-sort total_le (λ t. t.score ≡ sum_scores es t.candidate t.enrollment entries)
          (totals es entries) (totals-sum es entries)),
    λ c i.
        count_of-rows (is_group c i) (is_row c i) standings (λ t e h. rw (h.0, h.1)) standings
          (board es entries) board-IsRowOf
        ∙ count_of-sort total_le (is_group c i) (totals es entries)
        ∙ count_of-totals es c i entries,
  )
