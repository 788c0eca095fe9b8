-- ===== src/Competition/Ranking/Standard.antt =====
-- `_sort_candidates` and `_assign_ranks` under the 'standard' policy: ranks with gaps (1, 1, 3).
use vmlc_backend.Prelude.{
  ℕ, suc, ◌+◌, ◌≡◌, refl, ap, ◌∙◌, sym, Bool, true, false, Option, none, some, List, [], ◌∷◌, arith,
  inl, inr, Bool-cases, length, All, All-map, Aligned, count_of,
}
use vmlc_backend.Prelude.Int.{ℤ, ltb_ℤ, leb_ℤ, leb_ℤ_trans, leb_ℤ-total}
use vmlc_backend.Prelude.Sort.{sort, IsSorted, sort-IsSorted, count_of-sort}
use vmlc_backend.Prelude.Dict.{Dict}
use vmlc_backend.Competition.Model.{Enrollment}
use vmlc_backend.Competition.Ranking.{
  Score, ScoreData, RankingPolicy, TieBreak, Entry, score_key, score_as_float, standard_le,
  sort_candidates, score_eq, next_rank, assign_loop, assign_ranks,
}

-- The candidates whose score is above `k`.
abbrev pub above : ℤ → ℕ × ScoreData → Bool
above k y = ltb_ℤ k (score_as_float y.1)

abbrev AtLeast : ℤ → ℕ × ScoreData → Type 0
AtLeast k y = leb_ℤ k (score_as_float y.1) ≡ true

count_of-above_full :
    (k j : ℤ) (xs : Dict ScoreData)
    → ltb_ℤ k j ≡ true
    → All (AtLeast j) xs
    → count_of (above k) xs ≡ length xs
count_of-above_full k j [] h all = refl
count_of-above_full k j (x ∷ xs) h all = ground (arith, count_of-above_full k j xs h all.1)

count_of-above_none :
    (k : ℤ) (xs : Dict ScoreData)
    → All (λ y. leb_ℤ (score_as_float y.1) k ≡ true) xs
    → count_of (above k) xs ≡ 0
count_of-above_none k [] all = refl
count_of-above_none k (x ∷ xs) all = ground (arith, count_of-above_none k xs all.1)

-- What the loop knows when the candidates `done` have been ranked, the last of them first.
abbrev After : Option Score → ℕ → Dict ScoreData → Type 0
After none rank done = done ≡ []
After (some s) rank done =
    All (AtLeast (score_key s)) done × (rank ≡ suc (count_of (above (score_key s)) done))

abbrev BoundedBy : Option Score → Dict ScoreData → Type 0
BoundedBy none rest = Unit
BoundedBy (some s) rest = All (λ y. leb_ℤ (score_as_float y.1) (score_key s) ≡ true) rest

same_key : (t s : Score) → score_eq t s ≡ true → score_key t ≡ score_key s
same_key Score.absent Score.absent h = refl
same_key Score.absent (Score.points s) h = absurd (cc)
same_key (Score.points t) Score.absent h = absurd (cc)
same_key (Score.points t) (Score.points s) h = ground arith

lower_key :
    (t s : Score)
    → score_eq t s ≡ false
    → leb_ℤ (score_key t) (score_key s) ≡ true
    → ltb_ℤ (score_key t) (score_key s) ≡ true
lower_key Score.absent Score.absent h k = absurd (cc)
lower_key Score.absent (Score.points s) h k = ground arith
lower_key (Score.points t) Score.absent h k = ground arith
lower_key (Score.points t) (Score.points s) h k = ground arith

rank_of_next :
    (p : Option Score) (idx rank : ℕ) (time : Option ℤ) (d : ScoreData) (done : Dict ScoreData)
    → idx ≡ length done
    → After p rank done
    → BoundedBy p ((0, d) ∷ [])
    → next_rank RankingPolicy.standard
        (record { idx = idx; previous_score = p; previous_time_used = time; current_rank = rank })
        d
      ≡ suc (count_of (above (score_as_float d)) done)
rank_of_next none idx rank time d done i a b = rw (i, a) (omega arith)
rank_of_next (some s) idx rank time d done i a b = elim (Bool-cases (score_eq d.score s)) [
  | inl e ↦ rw (e, same_key d.score s e) a.1
  | inr e ↦ rw e (
      omega (
        arith,
        count_of-above_full (score_as_float d) (score_key s) done (lower_key d.score s e b.0) a.0,
      ))
]

leb_ℤ-refl : (a : ℤ) → leb_ℤ a a ≡ true
leb_ℤ-refl a = ground arith

still-AtLeast :
    (p : Option Score) (rank : ℕ) (d : ScoreData) (done : Dict ScoreData)
    → After p rank done
    → BoundedBy p ((0, d) ∷ [])
    → All (AtLeast (score_as_float d)) done
still-AtLeast none rank d done a b = rw a tt
still-AtLeast (some s) rank d done a b =
    All-map (λ y. leb_ℤ_trans (score_as_float d) (score_key s) (score_as_float y.1) b.0) done a.0

bound_of_head :
    (p : Option Score) (c : ℕ) (d : ScoreData) (rest : Dict ScoreData)
    → BoundedBy p ((c, d) ∷ rest)
    → BoundedBy p ((0, d) ∷ [])
bound_of_head none c d rest b = tt
bound_of_head (some s) c d rest b = (b.0, tt)

count_of-above_self :
    (c : ℕ) (d : ScoreData) (xs : Dict ScoreData)
    → count_of (above (score_as_float d)) ((c, d) ∷ xs) ≡ count_of (above (score_as_float d)) xs
count_of-above_self c d xs = ground arith

pub standard_le-total : (x y : ℕ × ScoreData) → standard_le x y ≡ false → standard_le y x ≡ true
standard_le-total x y = leb_ℤ-total (score_as_float y.1) (score_as_float x.1)

pub standard_le_trans :
    (x y z : ℕ × ScoreData)
    → standard_le x y ≡ true
    → standard_le y z ≡ true
    → standard_le x z ≡ true
standard_le_trans x y z h k =
    leb_ℤ_trans (score_as_float z.1) (score_as_float y.1) (score_as_float x.1) k h

-- The row of a candidate: its rank is one more than the number of higher scores.
abbrev pub HasStandardRank : Dict ScoreData → ℕ × ScoreData → Entry → Type 0
HasStandardRank scores x e =
    (e.candidate_id ≡ x.0) × (e.rank ≡ suc (count_of (above (score_as_float x.1)) scores))

module _ (enrollments : List Enrollment) (competition total : ℕ) (scores : Dict ScoreData) where
  loop-HasStandardRank :
      (rest done : Dict ScoreData) (p : Option Score) (idx rank : ℕ) (time : Option ℤ)
      → idx ≡ length done
      → After p rank done
      → BoundedBy p rest
      → IsSorted standard_le rest
      → ((k : ℤ) → count_of (above k) scores ≡ count_of (above k) done + count_of (above k) rest)
      → Aligned (HasStandardRank scores) rest (
          assign_loop enrollments competition total RankingPolicy.standard
            (record {
              idx = idx;
              previous_score = p;
              previous_time_used = time;
              current_rank = rank;
            })
            rest)
  unfolding assign_loop
  loop-HasStandardRank [] done p idx rank time i a b s h = tt
  loop-HasStandardRank ((c, d) ∷ rest) done p idx rank time i a b s h =
      let r = rank_of_next p idx rank time d done i a (bound_of_head p c d rest b) in
      let k = score_as_float d in
      (
        (
          refl,
          r ∙ omega (arith, h k, count_of-above_none k rest s.0, count_of-above_self c d rest),
        ),
        loop-HasStandardRank rest ((c, d) ∷ done) (some d.score) (idx + 1) _ d.time_used
            (omega arith)
            (
              (leb_ℤ-refl k, still-AtLeast p rank d done a (bound_of_head p c d rest b)),
              r ∙ ap suc (sym (count_of-above_self c d done)),
            )
            s.0 s.1 (λ j. omega (arith, h j)),
      )

-- Under the 'standard' policy the entries stand in the order of the sorted candidates, and the rank
-- of each is one more than the number of all candidates whose score is strictly higher, absent
-- candidates counting as -1.0.
pub assign_ranks-standard :
    (enrollments : List Enrollment) (competition : ℕ) (scores : Dict ScoreData)
    (tie_break : TieBreak)
    → Aligned (HasStandardRank scores) (sort_candidates scores RankingPolicy.standard tie_break) (
        assign_ranks enrollments competition
          (sort_candidates scores RankingPolicy.standard tie_break)
          RankingPolicy.standard)
unfolding sort_candidates assign_ranks
assign_ranks-standard enrollments competition scores tie_break =
    let sorted = sort standard_le scores in
    loop-HasStandardRank enrollments competition (length sorted) scores sorted [] none 0 0 none refl
      refl tt (sort-IsSorted standard_le standard_le-total standard_le_trans scores)
      (λ k. omega (arith, count_of-sort standard_le (above k) scores))
