-- ===== src/Competition/Ranking/Tests.antt =====
-- Examples for the ranking: three candidates, of whom two have the same score and one is absent.
use vmlc_backend.Prelude.{
  ℕ, Bool, count_of, ◌≡◌, refl, true, false, Option, none, some, [], ◌∷◌, if◌then◌else◌, Aligned,
  is_in, map,
}
use vmlc_backend.Prelude.Int.{pos}
use vmlc_backend.Prelude.Sort.{sort, insert_sorted}
use vmlc_backend.Prelude.Dict.{Dict, lookup}
use vmlc_backend.Vmlc.Model.{ExamResult}
use vmlc_backend.Competition.Ranking.{
  Score, ScoreData, RankingPolicy, TieBreak, access_by_candidate, build_candidate_scores,
  sort_candidates, assign_loop, assign_ranks,
}
use vmlc_backend.Competition.Ranking.Scores.{expected_data, lookup-build_candidate_scores}
use vmlc_backend.Competition.Ranking.Standard.{HasStandardRank, assign_ranks-standard}
use vmlc_backend.Competition.Ranking.Dense.{IsDenselyRanked, HasNoGaps, assign_ranks-dense}

abbrev data_of : Score → Option ℕ → ScoreData
data_of s t = record {
  score = s;
  time_used = elim t [ none ↦ none | some n ↦ some (pos n) ];
  proctoring_status = none;
  violation_score = 0;
}

abbrev three : Dict ScoreData
three =
    (1, data_of Score.absent none)
    ∷ (2, data_of (Score.points 80) (some 50))
    ∷ (3, data_of (Score.points 80) (some 40))
    ∷ []

-- Ranks 1, 1, 3 under 'standard', and 1, 2, 3 under 'dense', where time breaks the tie.
standard_ranks :
    map {B = ℕ × ℕ}
      (λ e. (e.candidate_id, e.rank))
      (assign_ranks [] 0
        (sort_candidates three RankingPolicy.standard TieBreak.other)
        RankingPolicy.standard)
    ≡ (2, 1) ∷ (3, 1) ∷ (1, 3) ∷ []
unfolding assign_ranks assign_loop sort_candidates sort insert_sorted
standard_ranks = refl

dense_ranks :
    map {B = ℕ × ℕ}
      (λ e. (e.candidate_id, e.rank))
      (assign_ranks [] 0
        (sort_candidates three RankingPolicy.dense TieBreak.submission_time_asc)
        RankingPolicy.dense)
    ≡ (3, 1) ∷ (2, 2) ∷ (1, 3) ∷ []
unfolding assign_ranks assign_loop sort_candidates sort insert_sorted
dense_ranks = refl

assign_ranks-standard_example :
    Aligned (HasStandardRank three) (sort_candidates three RankingPolicy.standard TieBreak.other) (
      assign_ranks [] 0
        (sort_candidates three RankingPolicy.standard TieBreak.other)
        RankingPolicy.standard)
assign_ranks-standard_example = assign_ranks-standard [] 0 three TieBreak.other

assign_ranks-dense_example :
    ((p : ℕ × ScoreData → Bool)
      → count_of p (sort_candidates three RankingPolicy.dense TieBreak.submission_time_asc)
        ≡ count_of p three)
    × IsDenselyRanked (sort_candidates three RankingPolicy.dense TieBreak.submission_time_asc) (
        assign_ranks [] 0
          (sort_candidates three RankingPolicy.dense TieBreak.submission_time_asc)
          RankingPolicy.dense)
    × HasNoGaps 0 (
        assign_ranks [] 0
          (sort_candidates three RankingPolicy.dense TieBreak.submission_time_asc)
          RankingPolicy.dense)
assign_ranks-dense_example = assign_ranks-dense [] 0 three

abbrev result_of_two : ExamResult
result_of_two = record {
  id = 1;
  candidate = 2;
  exam = 5;
  score = 80;
  is_auto_submit = false;
  auto_score = true;
  recorded_at = 10;
}

lookup-build_candidate_scores_example :
    lookup 2 (build_candidate_scores 5 (1 ∷ 2 ∷ []) (result_of_two ∷ []) [] none) ≡ (
      if is_in 2 (1 ∷ 2 ∷ [])
      then some (expected_data 5 (result_of_two ∷ []) (access_by_candidate [] []) none 2)
      else none)
lookup-build_candidate_scores_example =
    lookup-build_candidate_scores 5 (1 ∷ 2 ∷ []) (result_of_two ∷ []) [] none 2
