-- ===== src/Competition/Promotion/Tests.antt =====
-- Examples for the promotion: three candidates in the screening stage, of whom one is disqualified.
use vmlc_backend.Prelude.{
  length, ℕ, zero, suc, ◌≤◌, ◌≡◌, refl, true, none, some, List, [], ◌∷◌, ◌==◌, arith, count_of, All,
  Aligned, any_of,
}
use vmlc_backend.Prelude.Int.{pos}
use vmlc_backend.Prelude.Dict.{Dict}
use vmlc_backend.Prelude.Sort.{sort, insert_sorted}
use vmlc_backend.Competition.Model.{
  StageType, Competition, CompetitionStatus, Stage, Policy, EnrollmentStatus, Enrollment,
  ProgressStatus, StageProgress, Candidate, CandidateRole,
}
use vmlc_backend.Competition.Ranking.{
  Score, ScoreData, RankingPolicy, Entry, AttemptStatus, assign_ranks,
}
use vmlc_backend.Competition.Snapshot.{Snapshot}
use vmlc_backend.Competition.Promotion.{
  Tables, Result, and_then, is_for, finish, policy_cutoff, promote_candidates,
}
use vmlc_backend.Competition.Removal.{
  eliminate_league_absentees, disqualify_candidate, undisqualify_candidate,
}
use vmlc_backend.Competition.Promotion.Effect.{IsMoved, is_started_for, HasUniqueProgress}
use vmlc_backend.Competition.Promotion.Whole.{
  ranked_upto, ranked_beyond, promote_candidates-IsMoved,
}
use vmlc_backend.Competition.Removal.Absentees.{absentees-missed}
use vmlc_backend.Competition.Removal.Reversal.{restored_tables, disqualify-undisqualify}

abbrev stage : ℕ → StageType → Stage
stage id type = record {
  id = id;
  competition = 7;
  type = type;
  order = id;
  advancement_policy = some (Policy.top_percent 1 2);
}

abbrev enrolled : ℕ → ℕ → EnrollmentStatus → Enrollment
enrolled id candidate status = record {
  id = id;
  candidate = candidate;
  competition = 7;
  current_stage = some 1;
  status = status;
  last_active_at = none;
  disqualification_reason = none;
}

abbrev screening_progress : ℕ → StageProgress
screening_progress i = record {
  enrollment = i;
  stage = 1;
  status = ProgressStatus.in_progress;
  started_at = some 1;
  completed_at = none;
  discontinued_at = none;
}

abbrev data_of : ℕ → ScoreData
data_of s = record {
  score = Score.points s;
  time_used = none;
  proctoring_status = none;
  violation_score = 0;
}

abbrev three : Dict ScoreData
three = (1, data_of 90) ∷ (2, data_of 80) ∷ (3, data_of 70) ∷ []

abbrev snapshot : StageType → List Entry → Snapshot
snapshot type entries = record {
  id = 1;
  competition = 7;
  stage = type;
  round = none;
  exam = 5;
  is_active = true;
  is_published = true;
  published_at = some 50;
  entries = entries;
  ranking_policy = RankingPolicy.standard;
  tie_break_strategy = none;
  generated_by = none;
  published_by = none;
  scheduled_publish_at = none;
}

abbrev entry : ℕ → ℕ → Entry
entry candidate rank = record {
  candidate_id = candidate;
  enrollment = none;
  exam_score = some 1;
  rank = rank;
  percentile = (pos 0, 3);
  time_used = none;
  tie_break_reason = none;
  proctoring_status = none;
  violation_score = 0;
  attempt_status = AttemptStatus.present;
}

abbrev candidate : ℕ → Candidate
candidate i = record {
  pk = i;
  is_active = true;
  is_email_verified = true;
  role = CandidateRole.screening;
}

abbrev tables : Tables
tables = record {
  competitions = record { id = 7; status = CompetitionStatus.active } ∷ [];
  stages = stage 1 StageType.screening ∷ stage 2 StageType.league ∷ [];
  enrollments =
      enrolled 11 1 EnrollmentStatus.active
      ∷ enrolled 12 2 EnrollmentStatus.disqualified
      ∷ enrolled 13 3 EnrollmentStatus.active
      ∷ [];
  progress = screening_progress 11 ∷ screening_progress 12 ∷ screening_progress 13 ∷ [];
  candidates = candidate 1 ∷ candidate 2 ∷ candidate 3 ∷ [];
  snapshots = snapshot StageType.screening (entry 1 1 ∷ entry 2 2 ∷ entry 3 3 ∷ []) ∷ [];
  leaderboards = [];
}

-- Half of the entries, rounded up.
abbrev half : ℕ → ℕ
half zero = 0
half (suc zero) = 1
half (suc (suc n)) = suc (half n)

half-le : (n : ℕ) → half n ≤ n
half-le zero = omega arith
half-le (suc zero) = omega arith
half-le (suc (suc n)) = omega (arith, half-le n)

abbrev half_up : ℕ → ℕ → ℕ → ℕ
half_up total num den = half total

abbrev run : Result (ℕ × Tables)
run = promote_candidates half_up 100 StageType.screening StageType.league none none tables

abbrev active : Competition
active = record { id = 7; status = CompetitionStatus.active }

abbrev promoted : ℕ × Tables
promoted =
    finish 100 7 (stage 1 StageType.screening) (stage 2 StageType.league) (1 ∷ 2 ∷ []) (3 ∷ [])
      tables

promote_runs : run ≡ Result.done promoted
unfolding promote_candidates finish sort insert_sorted
promote_runs = refl

abbrev ranks : List (ℕ × ℕ)
ranks = (1, 1) ∷ (2, 2) ∷ (3, 3) ∷ []

ranked_once : (c : ℕ) → count_of (λ x. x.0 == c) ranks ≤ 1
ranked_once c = ground arith

promote_candidates-IsMoved_example :
    Aligned
      (IsMoved 100 7 2 (ranked_upto 2 ranks) (ranked_beyond 2 ranks))
      tables.enrollments
      promoted.1.enrollments
    × All
        (λ e.
          is_for 7 (ranked_upto 2 ranks) e ≡ true
          → any_of (is_started_for e.id 2) promoted.1.progress ≡ true)
        promoted.1.enrollments
    × (promoted.0 ≡ length (ranked_upto 2 ranks))
unfolding finish sort
promote_candidates-IsMoved_example =
    promote_candidates-IsMoved half_up 100 StageType.screening StageType.league none none tables
      promoted active (stage 1 StageType.screening) (stage 2 StageType.league) 2 ranks promote_runs
      refl refl refl refl refl ranked_once (omega arith)

tables-HasUniqueProgress : HasUniqueProgress tables.progress
tables-HasUniqueProgress i s = ground arith

cutoff_runs :
    policy_cutoff half_up tables 7 StageType.screening (Policy.top_percent 1 2) ≡ Result.done 2
unfolding sort insert_sorted
cutoff_runs = refl

abbrev league_tables : Tables
league_tables = record tables {
  snapshots = snapshot StageType.league (assign_ranks [] 7 three RankingPolicy.standard) ∷ [];
}

absentees-missed_example :
    eliminate_league_absentees 100 1 league_tables ≡ Result.done (0, league_tables)
absentees-missed_example =
    absentees-missed 100 1 league_tables
      (snapshot StageType.league (assign_ranks [] 7 three RankingPolicy.standard)) [] 7 three
      RankingPolicy.standard refl refl

disqualify-undisqualify_example :
    and_then
      (disqualify_candidate 100 1 none (some (b'x' ∷ [])) tables)
      (undisqualify_candidate 1 none)
    ≡ Result.done (restored_tables 100 (enrolled 11 1 EnrollmentStatus.active) tables)
disqualify-undisqualify_example =
    disqualify-undisqualify 100 1 none (some (b'x' ∷ [])) tables active
      (enrolled 11 1 EnrollmentStatus.active) refl refl (omega arith)
