-- ===== src/Competition/Ranking/Dense.antt =====
-- `_sort_candidates` and `_assign_ranks` under the 'dense' policy: ranks without gaps, ties broken
-- by the time used.
use vmlc_backend.Prelude.{
  ℕ, ◌+◌, ◌<◌, ◌≡◌, refl, ◌∙◌, sym, Bool, true, false, count_of, some, List, [], ◌∷◌, arith,
  if◌then◌else◌, inl, inr, ◌⊎◌, Bool-cases, length, All, Aligned,
}
use vmlc_backend.Prelude.Sort.{sort, IsSorted, sort-IsSorted, count_of-sort}
use vmlc_backend.Prelude.Dict.{Dict}
use vmlc_backend.Competition.Model.{Enrollment}
use vmlc_backend.Competition.Ranking.{
  ScoreData, RankingPolicy, TieBreak, Entry, Loop, dense_le, sort_candidates, assign_loop,
  loop_start, assign_ranks, advance,
}
use vmlc_backend.Competition.Ranking.Order.{
  same_place, beats, dense_le-total, dense_le-beats, beats-same_place, dense_le_trans, squeeze,
  same_place_trans,
}

-- Of two candidates the later one does not beat the earlier; it has the same rank if the earlier does
-- not beat it either, and a larger one otherwise.
abbrev pub RanksAfter : ScoreData → ℕ → ℕ × ScoreData → Entry → Type 0
RanksAfter p rank y f =
    (beats y.1 p ≡ false)
    × (beats p y.1 ≡ false → f.rank ≡ rank)
    × (beats p y.1 ≡ true → rank < f.rank)

-- Each entry is its candidate's, and compares so with all that follow.
abbrev pub IsDenselyRanked : Dict ScoreData → List Entry → Type 0
IsDenselyRanked [] [] = Unit
IsDenselyRanked [] (f ∷ fs) = ⊥
IsDenselyRanked (x ∷ xs) [] = ⊥
IsDenselyRanked (x ∷ xs) (e ∷ es) =
    (e.candidate_id ≡ x.0) × Aligned (RanksAfter x.1 e.rank) xs es × IsDenselyRanked xs es

-- Every rank is that of the entry before, or the next number.
abbrev pub HasNoGaps : ℕ → List Entry → Type 0
HasNoGaps r [] = Unit
HasNoGaps r (e ∷ es) = ((e.rank ≡ r) ⊎ (e.rank ≡ r + 1)) × HasNoGaps e.rank es

-- The same, by the comparison that the loop makes.
abbrev IsPlaced : ScoreData → ℕ → ℕ × ScoreData → Entry → Type 0
IsPlaced p rank y f =
    (same_place y.1 p ≡ true → f.rank ≡ rank) × (same_place y.1 p ≡ false → rank < f.rank)

IsPlaced-RanksAfter :
    (x y : ℕ × ScoreData) (rank : ℕ) (f : Entry)
    → dense_le x y ≡ true
    → IsPlaced x.1 rank y f
    → RanksAfter x.1 rank y f
IsPlaced-RanksAfter x y rank f h p = (
  dense_le-beats x y h,
  λ k. p.0 (ground (arith, beats-same_place x y h)),
  λ k. p.1 (ground (arith, beats-same_place x y h)),
)

IsPlaced-trans :
    (x y z : ℕ × ScoreData) (r s : ℕ) (f : Entry)
    → dense_le x y ≡ true
    → dense_le y z ≡ true
    → (if same_place y.1 x.1 then r else r + 1) ≡ s
    → IsPlaced y.1 s z f
    → IsPlaced x.1 r z f
IsPlaced-trans x y z r s f xy yz rs h = elim (Bool-cases (same_place y.1 x.1)) [
  | inl e ↦
      let same = same_place_trans x y z e in
      let r-eq : r ≡ s = rw e at rs in
      (λ t. h.0 (same ∙ t) ∙ sym r-eq, λ t. rw r-eq (h.1 (same ∙ t)))
  | inr e ↦
      let r-eq : r + 1 ≡ s = rw e at rs in
      (
        λ t. absurd (cc (squeeze x y z xy yz t)),
        λ t. elim (Bool-cases (same_place z.1 y.1)) [
          | inl q ↦ omega (arith, h.0 q)
          | inr q ↦ omega (arith, h.1 q)
        ],
      )
]

Aligned-map :
    {R S : ℕ × ScoreData → Entry → Type 0} (T : ℕ × ScoreData → Type 0)
    (f : (y : ℕ × ScoreData) (e : Entry) → T y → R y e → S y e) (xs : Dict ScoreData)
    (es : List Entry)
    → All T xs
    → Aligned R xs es
    → Aligned S xs es
Aligned-map T f [] [] t h = tt
Aligned-map T f [] (e ∷ es) t h = h
Aligned-map T f (x ∷ xs) [] t h = h
Aligned-map T f (x ∷ xs) (e ∷ es) t h = (f x e t.0 h.0, Aligned-map T f xs es t.1 h.1)

module _ (enrollments : List Enrollment) (competition total : ℕ) where
  abbrev dense_loop : ℕ → ScoreData → ℕ → Dict ScoreData → List Entry
  dense_loop idx p rank rest =
      assign_loop enrollments competition total RankingPolicy.dense
        (record {
          idx = idx;
          previous_score = some p.score;
          previous_time_used = p.time_used;
          current_rank = rank;
        })
        rest

  loop-IsPlaced :
      (x : ℕ × ScoreData) (rest : Dict ScoreData) (idx rank : ℕ)
      → All (λ y. dense_le x y ≡ true) rest
      → IsSorted dense_le rest
      → Aligned (IsPlaced x.1 rank) rest (dense_loop idx x.1 rank rest)
  unfolding assign_loop
  loop-IsPlaced x [] idx rank b s = tt
  loop-IsPlaced x (y ∷ rest) idx rank b s =
      let next : ℕ = if same_place y.1 x.1 then rank else rank + 1 in
      (
        (λ t. rw t, λ t. rw t (omega arith)),
        Aligned-map (λ z. dense_le y z ≡ true)
            (λ z f t. IsPlaced-trans x y z rank next f b.0 t refl) rest _ s.0
            (loop-IsPlaced y rest (idx + 1) next s.0 s.1),
      )

  loop-IsDenselyRanked :
      (l : Loop) (rest : Dict ScoreData)
      → IsSorted dense_le rest
      → IsDenselyRanked rest (assign_loop enrollments competition total RankingPolicy.dense l rest)
  unfolding assign_loop
  loop-IsDenselyRanked l [] s = tt
  loop-IsDenselyRanked l (y ∷ rest) s = (
    refl,
    Aligned-map (λ z. dense_le y z ≡ true) (λ z f h. IsPlaced-RanksAfter y z _ f h) rest _ s.0
        (loop-IsPlaced y rest _ _ s.0 s.1),
    loop-IsDenselyRanked (advance enrollments competition total RankingPolicy.dense l y.1) rest s.1,
  )

  loop-HasNoGaps :
      (l : Loop) (rest : Dict ScoreData)
      → HasNoGaps l.current_rank
          (assign_loop enrollments competition total RankingPolicy.dense l rest)
  unfolding assign_loop
  loop-HasNoGaps l [] = tt
  loop-HasNoGaps l ((c, d) ∷ rest) = (
    ground arith,
    loop-HasNoGaps (advance enrollments competition total RankingPolicy.dense l d) rest,
  )

-- Under the 'dense' policy with the tie break by submission time the sorted candidates are those of
-- the dict, and the entries stand in their order. Of two candidates the later one does
-- not beat the earlier, by a higher score or by one that is not lower in less time; its rank is the same
-- if the earlier does not beat it either, and larger otherwise. Each rank is that of the entry before or the next number, the first being at most 1.
pub assign_ranks-dense :
    (enrollments : List Enrollment) (competition : ℕ) (scores : Dict ScoreData)
    → let sorted = sort_candidates scores RankingPolicy.dense TieBreak.submission_time_asc in
      let entries = assign_ranks enrollments competition sorted RankingPolicy.dense in
      ((p : ℕ × ScoreData → Bool) → count_of p sorted ≡ count_of p scores)
      × IsDenselyRanked sorted entries
      × HasNoGaps 0 entries
unfolding sort_candidates assign_ranks
assign_ranks-dense enrollments competition scores =
    let sorted = sort dense_le scores in
    (
      λ p. count_of-sort dense_le p scores,
      loop-IsDenselyRanked enrollments competition (length sorted) loop_start sorted
          (sort-IsSorted dense_le dense_le-total dense_le_trans scores),
      loop-HasNoGaps enrollments competition (length sorted) loop_start sorted,
    )
