-- ===== src/Competition/Eligibility/Tests.antt =====
-- Examples for the eligibility: an enrolled candidate and an open exam of its stage.
use vmlc_backend.Prelude.{◌≡◌, ◌↔◌, refl, true, false, none, some, [], ◌∷◌}
use vmlc_backend.Competition.Model.{
  StageType, CompetitionStatus, EnrollmentStatus, ProgressStatus, Candidate, CandidateRole,
}
use vmlc_backend.Vmlc.Model.{ExamAccess, Attempts}
use vmlc_backend.Vmlc.Exam.{Exam, DeliveryMode, is_currently_open}
use vmlc_backend.Competition.Eligibility.{
  Rules, get_or_create_access, can_take_exam, can_view_leaderboard,
}
use vmlc_backend.Competition.Eligibility.Guards.{IsPermitted, can_take_exam-IsPermitted}

abbrev rules : Rules
rules = record {
  competitions = record { id = 7; status = CompetitionStatus.active } ∷ [];
  stages =
      record {
        id = 2;
        competition = 7;
        type = StageType.league;
        order = 2;
        advancement_policy = none;
      }
      ∷ [];
  enrollments =
      record {
        id = 11;
        candidate = 9;
        competition = 7;
        current_stage = some 2;
        status = EnrollmentStatus.active;
        last_active_at = none;
        disqualification_reason = none;
      }
      ∷ [];
  progress =
      record {
        enrollment = 11;
        stage = 2;
        status = ProgressStatus.in_progress;
        started_at = none;
        completed_at = none;
        discontinued_at = none;
      }
      ∷ [];
  qr_unlocked = λ c e. false;
}

abbrev candidate : Candidate
candidate = record {
  pk = 9;
  is_active = true;
  is_email_verified = true;
  role = CandidateRole.league;
}

abbrev league_exam : Exam
league_exam = record {
  id = 5;
  delivery_mode = DeliveryMode.virtual;
  scheduled_date = some 1000;
  open_duration_hours = some 2;
  countdown_minutes = some 30;
  competition_slot = some (record {
    id = 1;
    stage = 2;
    stage_type = StageType.league;
    competition = 7;
    round = some 1;
    is_active = true;
  });
  is_active = true;
  status_override = none;
}

abbrev no_attempts : Attempts
no_attempts = record {
  questions = [];
  exam_questions = [];
  accesses = [];
  results = [];
  answers = [];
  next_access = 1;
  next_result = 1;
}

abbrev new_access : ExamAccess
new_access = (get_or_create_access 9 5 no_attempts).0

abbrev after : Attempts
after = (get_or_create_access 9 5 no_attempts).1

allowed :
    can_take_exam 2000 rules candidate league_exam no_attempts
    ≡ some (record { reason = none; access = some new_access }, after)
unfolding can_take_exam get_or_create_access is_currently_open
allowed = refl

-- A candidate who was disqualified and has no progress may take the exam by the role.
abbrev disqualified_rules : Rules
disqualified_rules = record rules {
  enrollments =
      record {
        id = 11;
        candidate = 9;
        competition = 7;
        current_stage = some 2;
        status = EnrollmentStatus.disqualified;
        last_active_at = none;
        disqualification_reason = none;
      }
      ∷ [];
  progress = [];
}

disqualified_allowed :
    can_take_exam 2000 disqualified_rules candidate league_exam no_attempts
    ≡ some (record { reason = none; access = some new_access }, after)
unfolding can_take_exam get_or_create_access is_currently_open
disqualified_allowed = refl

can_take_exam-IsPermitted_example :
    (can_take_exam 2000 rules candidate league_exam no_attempts
      ≡ some (record { reason = none; access = some new_access }, after))
    ↔ IsPermitted 2000 rules candidate league_exam new_access
can_take_exam-IsPermitted_example =
    can_take_exam-IsPermitted 2000 rules candidate league_exam no_attempts

sees_league : can_view_leaderboard rules candidate StageType.league ≡ true
unfolding can_view_leaderboard
sees_league = refl
