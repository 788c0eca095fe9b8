-- ===== src/Competition/Ranking/Bounds.antt =====
-- `_assign_ranks` under either policy: the range of the ranks, and the percentiles.
use vmlc_backend.Prelude.{
  ℕ, ◌+◌, ◌-◌, ◌≤◌, ◌≡◌, refl, ap, true, List, [], ◌∷◌, arith, length, All, is_some,
}
use vmlc_backend.Prelude.Int.{ℤ, pos, sub_ℕ}
use vmlc_backend.Prelude.Dict.{Dict}
use vmlc_backend.Competition.Model.{Enrollment}
use vmlc_backend.Competition.Ranking.{
  ScoreData, RankingPolicy, Entry, Loop, next_rank, assign_loop, loop_start, assign_ranks, advance,
}

-- The rank is a place among `total` candidates, and the percentile counts the places behind it.
abbrev pub IsPlaced : ℕ → Entry → Type 0
IsPlaced total e = (1 ≤ e.rank) × (e.rank ≤ total) × (e.percentile ≡ (pos (total - e.rank), total))

-- Between two rounds: the rank is at most the index, and at least 1 after the first round.
record IsRunning (l : Loop) : Type 0 where
  upper : l.current_rank ≤ l.idx
  lower : is_some l.previous_score ≡ true → 1 ≤ l.current_rank

sub_ℕ-pos : (a b : ℕ) → b ≤ a → sub_ℕ a b ≡ pos (a - b)
sub_ℕ-pos a b h = ground arith

next_rank_range :
    (policy : RankingPolicy) (l : Loop) (d : ScoreData)
    → IsRunning l
    → (1 ≤ next_rank policy l d) × (next_rank policy l d ≤ l.idx + 1)
next_rank_range RankingPolicy.dense l d h = ground arith
next_rank_range RankingPolicy.standard l d h = ground arith

module _ (enrollments : List Enrollment) (competition total : ℕ) (policy : RankingPolicy) where
  loop-IsPlaced :
      (l : Loop) (rest : Dict ScoreData)
      → IsRunning l
      → l.idx + length rest ≡ total
      → All (IsPlaced total) (assign_loop enrollments competition total policy l rest)
  unfolding assign_loop
  loop-IsPlaced l [] h e = tt
  loop-IsPlaced l ((c, d) ∷ rest) h e =
      let (low, up) = next_rank_range policy l d h in
      (
        (low, omega arith, ap (λ (z : ℤ). (z, total)) (sub_ℕ-pos total _ (omega arith))),
        loop-IsPlaced (advance enrollments competition total policy l d) rest
            (record { upper = up; lower = λ _. low }) (omega arith),
      )

-- Under either policy, and for candidates in any order, every rank is at least 1 and at most the
-- number of candidates, so the percentile ((total - rank) / total, times 100) is at least 0 and
-- below 100.
pub assign_ranks-IsPlaced :
    (enrollments : List Enrollment) (competition : ℕ) (sorted : Dict ScoreData)
    (policy : RankingPolicy)
    → All (IsPlaced (length sorted)) (assign_ranks enrollments competition sorted policy)
unfolding assign_ranks
assign_ranks-IsPlaced enrollments competition sorted policy =
    loop-IsPlaced enrollments competition (length sorted) policy loop_start sorted
      (record { upper = omega arith; lower = λ t. absurd (cc) }) (omega arith)

module _ (enrollments : List Enrollment) (competition : ℕ) where
  loop-scored :
      (total : ℕ) (policy : RankingPolicy) (l : Loop) (rest : Dict ScoreData)
      → All
          (λ e. is_some e.exam_score ≡ true)
          (assign_loop enrollments competition total policy l rest)
  unfolding assign_loop
  loop-scored total policy l [] = tt
  loop-scored total policy l ((c, d) ∷ rest) =
      (refl, loop-scored total policy (advance enrollments competition total policy l d) rest)

  -- Every entry has a score, that of an absent candidate 0.
  pub assign_ranks-scored :
      (scores : Dict ScoreData) (policy : RankingPolicy)
      → All (λ e. is_some e.exam_score ≡ true) (assign_ranks enrollments competition scores policy)
  unfolding assign_ranks
  assign_ranks-scored scores policy = loop-scored (length scores) policy loop_start scores
