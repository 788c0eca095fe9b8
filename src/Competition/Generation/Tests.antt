-- ===== src/Competition/Generation/Tests.antt =====
-- Examples for the generation: a concluded exam that the one eligible candidate missed.
use vmlc_backend.Core.Scoring.Complete.{IsScored, is_scored_access}
use vmlc_backend.Competition.Generation.Eligible.{one_if_eligible}
use vmlc_backend.Competition.Generation.Rows.{has_entry, final_score}
use vmlc_backend.Prelude.{
  All, count_of, ◌==◌, ℕ, ◌≡◌, refl, true, Option, none, some, List, [], ◌∷◌, arith,
}
use vmlc_backend.Prelude.Sort.{sort, insert_sorted}
use vmlc_backend.Competition.Model.{
  StageType, Candidate, CandidateRole, Enrollment, EnrollmentStatus,
}
use vmlc_backend.Vmlc.Model.{Attempts}
use vmlc_backend.Vmlc.Exam.{Slot, Exam, DeliveryMode, status, is_concluded}
use vmlc_backend.Core.Scoring.{compute_exam_results, score_accesses}
use vmlc_backend.Competition.Ranking.{
  RankingPolicy, TieBreak, find_eligible_candidate_ids, raw_results, add_results, add_absentees,
  build_candidate_scores, sort_candidates, assign_ranks,
}
use vmlc_backend.Competition.Snapshot.{Snapshot, create}
use vmlc_backend.Competition.Snapshot.Publish.{is_active_for, IsConsistent}
use vmlc_backend.Competition.Generation.{
  save_ranking, new_snapshot, scores_of, generate_and_save_ranking,
}
use vmlc_backend.Competition.Generation.Generated.{generate_and_save_ranking-IsGenerated}

abbrev slot : Slot
slot = record {
  id = 1;
  stage = 2;
  stage_type = StageType.league;
  competition = 7;
  round = some 1;
  is_active = true;
}

abbrev past_exam : Exam
past_exam = record {
  id = 5;
  delivery_mode = DeliveryMode.virtual;
  scheduled_date = some 1000;
  open_duration_hours = some 0;
  countdown_minutes = some 30;
  competition_slot = some slot;
  is_active = true;
  status_override = none;
}

abbrev candidates : List Candidate
candidates =
    record { pk = 9; is_active = true; is_email_verified = true; role = CandidateRole.league } ∷ []

abbrev enrollments : List Enrollment
enrollments =
    record {
      id = 11;
      candidate = 9;
      competition = 7;
      current_stage = some 2;
      status = EnrollmentStatus.active;
      last_active_at = none;
      disqualification_reason = none;
    }
    ∷ []

abbrev no_attempts : Attempts
no_attempts = record {
  questions = [];
  exam_questions = [];
  accesses = [];
  results = [];
  answers = [];
  next_access = 1;
  next_result = 1;
}

abbrev no_percent : ℕ → ℕ → ℕ
no_percent c t = 0

abbrev no_suspicion : ℕ → Option ℕ
no_suspicion a = none

abbrev scored : Attempts
scored = compute_exam_results no_percent 2001 5 no_attempts

abbrev generated : Snapshot
generated = new_snapshot 1 slot 5 RankingPolicy.standard TieBreak.other none (
    assign_ranks enrollments 7
      (sort_candidates (scores_of no_percent no_suspicion 5 slot candidates enrollments none scored)
        RankingPolicy.standard TieBreak.other)
      RankingPolicy.standard)

generate_runs :
    generate_and_save_ranking no_percent no_suspicion 2000 2001 1 slot past_exam
      RankingPolicy.standard TieBreak.other none none candidates enrollments no_attempts []
    ≡ some (generated, scored, create generated [])
unfolding generate_and_save_ranking save_ranking status find_eligible_candidate_ids
    build_candidate_scores add_results add_absentees raw_results compute_exam_results score_accesses
    sort insert_sorted
generate_runs = refl

empty-IsConsistent : IsConsistent []
empty-IsConsistent = record {
  unique_ids = λ i. omega arith;
  one_active = λ e. omega arith;
  one_published = λ c s n. omega arith;
}

generate_and_save_ranking-IsGenerated_example :
    (is_concluded (status 2000 past_exam) ≡ true)
    × All
        (λ a. is_scored_access 5 a ≡ true → IsScored no_percent scored a.candidate 5 scored.results)
        no_attempts.accesses
    × ((c : ℕ)
        → (count_of (λ x. x.candidate_id == c) generated.entries
            ≡ one_if_eligible 7 candidates enrollments c)
          × (count_of (has_entry c (final_score 5 scored.results none c)) generated.entries
              ≡ one_if_eligible 7 candidates enrollments c))
    × IsConsistent (create generated [])
    × (count_of (is_active_for 5) (create generated []) ≡ 1)
generate_and_save_ranking-IsGenerated_example =
    generate_and_save_ranking-IsGenerated no_percent no_suspicion 2000 2001 1 slot past_exam
      RankingPolicy.standard TieBreak.other none none candidates enrollments no_attempts scored []
      (create generated []) generated generate_runs empty-IsConsistent refl
