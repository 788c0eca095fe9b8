-- ===== src/Vmlc/Passcode/Tests.antt =====
-- Examples for passcodes: two candidates of a stage, of whom one has submitted.
use vmlc_backend.Prelude.{
  ℕ, Bool, ◌==◌, ◌+◌, ◌≡◌, refl, ◌⊎◌, ◌↔◌, arith, true, false, none, some, [], ◌∷◌, is_some,
}
use vmlc_backend.Competition.Model.{StageType, EnrollmentStatus, Enrollment}
use vmlc_backend.Competition.Eligibility.{get_or_create_access}
use vmlc_backend.Vmlc.Model.{AccessStatus, ExamAccess}
use vmlc_backend.Vmlc.Exam.{DeliveryMode, Exam}
use vmlc_backend.Vmlc.Passcode.{
  PasscodeStatus, Passcode, Codes, issue_to, issue_all, passcode_for, renew_existing,
  generate_passcodes, is_past, logged_in, authenticate_passcode,
}
use vmlc_backend.Vmlc.Passcode.Authentication.{IsHeld, authenticate_passcode-IsHeld}
use vmlc_backend.Vmlc.Passcode.Renewal.{IsServed, issue_to-IsServed}

abbrev access : ExamAccess
access = record {
  id = 1;
  exam = 5;
  candidate = 9;
  status = AccessStatus.pending;
  started_at = none;
  deadline = none;
  submitted_at = none;
  proctoring_status = none;
  is_manually_reviewed = false;
  is_unlocked = false;
}

abbrev code : Passcode
code = record {
  id = 1;
  exam_access = some 1;
  passcode = some 77;
  is_passcode_sent = true;
  expiry_date = some 500;
  status = PasscodeStatus.issued;
}

abbrev codes : Codes
codes = record {
  attempts = record {
    questions = [];
    exam_questions = [];
    accesses = access ∷ record access { id = 2; candidate = 8; submitted_at = some 4 } ∷ [];
    results = [];
    answers = [];
    next_access = 3;
    next_result = 1;
  };
  passcodes = code ∷ [];
  next_passcode = 2;
  drawn = 0;
  mails = [];
}

abbrev is_running : ℕ → Bool
is_running e = e == 5

authenticate_passcode-IsHeld_example :
    ((s' : Codes) × (authenticate_passcode 400 is_running 77 codes ≡ (logged_in 9, s')))
    ↔ ((p : Passcode) × IsHeld is_running 77 9 p codes × (is_past 400 p ≡ false))
authenticate_passcode-IsHeld_example = authenticate_passcode-IsHeld is_running 77 codes 400 9

-- The passcode of the first candidate is past its date.
abbrev turned : Codes
turned = record codes {
  passcodes =
      record code { passcode = some 100; expiry_date = some 900; is_passcode_sent = false } ∷ [];
  drawn = 1;
}

issue_to-IsServed_example :
    (a : ExamAccess) × (get_or_create_access 9 5 turned.attempts ≡ (a, turned.attempts))
    × ((is_some a.submitted_at ≡ true) ⊎ IsServed (λ n. 100 + n) 600 900 (omega arith) a.id turned)
    × (issue_to (λ n. 100 + n) 600 900 5 9 turned ≡ some (0, turned))
unfolding issue_to get_or_create_access passcode_for renew_existing
issue_to-IsServed_example =
    issue_to-IsServed (λ n. 100 + n) 600 900 (omega arith) 5 9 1 codes turned refl

abbrev enrolled : ℕ → Enrollment
enrolled c = record {
  id = c;
  candidate = c;
  competition = 2;
  current_stage = some 3;
  status = EnrollmentStatus.active;
  last_active_at = none;
  disqualification_reason = none;
}

abbrev exam : Exam
exam = record {
  id = 5;
  delivery_mode = DeliveryMode.virtual;
  scheduled_date = some 1000;
  open_duration_hours = some 2;
  countdown_minutes = some 30;
  competition_slot = some (record {
    id = 1;
    stage = 3;
    stage_type = StageType.league;
    competition = 2;
    round = some 1;
    is_active = true;
  });
  is_active = true;
  status_override = none;
}

-- Of three candidates the one who has submitted gets no passcode.
generated :
    (generate_passcodes (λ n. 100 + n) 600 (enrolled 9 ∷ enrolled 8 ∷ enrolled 7 ∷ []) exam codes).0
    ≡ some 2
unfolding generate_passcodes issue_all issue_to get_or_create_access passcode_for renew_existing
generated = refl
