-- ===== src/Competition/Leaderboard/Tests.antt =====
-- Examples for the leaderboard: two rounds, two candidates.
use vmlc_backend.Prelude.{
  ℕ, ◌≡◌, refl, Bool, true, false, Option, none, some, List, [], ◌∷◌, first_where, arith, count_of,
  All, any_of, if◌then◌else◌, map,
}
use vmlc_backend.Prelude.Int.{pos}
use vmlc_backend.Prelude.Sort.{sort, insert_sorted}
use vmlc_backend.Competition.Model.{StageType, Enrollment, EnrollmentStatus}
use vmlc_backend.Competition.Ranking.{RankingPolicy, Entry, AttemptStatus}
use vmlc_backend.Competition.Snapshot.{Snapshot}
use vmlc_backend.Competition.Leaderboard.{
  Leaderboard, total_le, totals, add_score, counted_entries, rank_totals, store_leaderboard,
  store_standings, save_leaderboard, update_league_leaderboard, publish_leaderboard,
}
use vmlc_backend.Competition.Leaderboard.Totals.{belongs}
use vmlc_backend.Competition.Leaderboard.Ranks.{board, is_row, IsRanked, board-IsRanked}
use vmlc_backend.Competition.Leaderboard.Publication.{is_for_round, IsConsistent, republish-stale}

abbrev entry : ℕ → ℕ → ℕ → Entry
entry candidate enrollment score = record {
  candidate_id = candidate;
  enrollment = some enrollment;
  exam_score = some score;
  rank = 1;
  percentile = (pos 0, 1);
  time_used = none;
  tie_break_reason = none;
  proctoring_status = none;
  violation_score = 0;
  attempt_status = AttemptStatus.present;
}

abbrev enrolled : ℕ → ℕ → Enrollment
enrolled id candidate = record {
  id = id;
  candidate = candidate;
  competition = 7;
  current_stage = none;
  status = EnrollmentStatus.active;
  last_active_at = none;
  disqualification_reason = none;
}

abbrev enrollments : List Enrollment
enrollments = enrolled 11 1 ∷ enrolled 12 2 ∷ []

abbrev round_snapshot : ℕ → List Entry → Snapshot
round_snapshot n es = record {
  id = n;
  competition = 7;
  stage = StageType.league;
  round = some n;
  exam = n;
  is_active = true;
  is_published = true;
  published_at = none;
  entries = es;
  ranking_policy = RankingPolicy.dense;
  tie_break_strategy = none;
  generated_by = none;
  published_by = none;
  scheduled_publish_at = none;
}

abbrev snapshots : List Snapshot
snapshots =
    round_snapshot 1 (entry 1 11 50 ∷ entry 2 12 70 ∷ [])
    ∷ round_snapshot 2 (entry 1 11 60 ∷ [])
    ∷ []

both_rounds :
    map {B = ℕ × ℕ × Option ℕ}
      (λ e. (e.candidate_id, e.total_score, e.overall_rank))
      (board enrollments (counted_entries 7 2 snapshots))
    ≡ (1, 110, some 1) ∷ (2, 70, some 2) ∷ []
unfolding rank_totals sort insert_sorted totals add_score
both_rounds = refl

board-IsRanked_example :
    All
      (IsRanked enrollments
        (counted_entries 7 2 snapshots)
        (board enrollments (counted_entries 7 2 snapshots)))
      (board enrollments (counted_entries 7 2 snapshots))
    × ((c i : ℕ)
        → count_of (is_row c i) (board enrollments (counted_entries 7 2 snapshots))
          ≡ (if any_of (belongs enrollments c i) (counted_entries 7 2 snapshots) then 1 else 0))
board-IsRanked_example = board-IsRanked enrollments (counted_entries 7 2 snapshots)

abbrev leaderboard : ℕ → Bool → Leaderboard
leaderboard id public = record {
  id = id;
  competition = 7;
  as_of_round = 2;
  is_public = public;
  entries = [];
}

-- The newest row is public and an older one is private.
abbrev table : List Leaderboard
table = leaderboard 2 true ∷ leaderboard 1 false ∷ []

abbrev updated : List Leaderboard
updated =
    leaderboard 2 true
    ∷ record (leaderboard 1 false) { entries = board enrollments (counted_entries 7 2 snapshots) }
    ∷ []

update_runs : update_league_leaderboard 3 7 2 snapshots enrollments table ≡ some updated
unfolding update_league_leaderboard store_standings store_leaderboard rank_totals sort insert_sorted
    totals add_score
update_runs = refl

standings_found :
    sort total_le (totals enrollments (counted_entries 7 2 snapshots))
    ≡ record { candidate = 1; enrollment = 11; score = 110 }
      ∷ record { candidate = 2; enrollment = 12; score = 70 }
      ∷ []
unfolding sort insert_sorted totals add_score
standings_found = refl

publish_runs : publish_leaderboard 7 2 updated ≡ some updated
unfolding publish_leaderboard save_leaderboard
publish_runs = refl

republish-stale_example : first_where (is_for_round 7 2) updated ≡ some (leaderboard 2 true)
republish-stale_example =
    republish-stale 3 7 2 snapshots enrollments table updated updated (leaderboard 2 true)
      (leaderboard 1 false) refl refl refl update_runs publish_runs

table-IsConsistent : IsConsistent (leaderboard 1 false ∷ leaderboard 2 true ∷ [])
table-IsConsistent = record { unique_ids = λ i. ground arith; one_public = λ c. ground arith }

publish_older :
    publish_leaderboard 7 2 (leaderboard 1 false ∷ leaderboard 2 true ∷ [])
    ≡ some (leaderboard 1 true ∷ leaderboard 2 false ∷ [])
unfolding publish_leaderboard save_leaderboard
publish_older = refl
