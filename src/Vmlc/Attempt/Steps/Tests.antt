-- ===== src/Vmlc/Attempt/Steps/Tests.antt =====
-- Examples for the steps of the attempts: a candidate takes an exam of one question and does nothing.
use vmlc_backend.Prelude.{
  ℕ, ◌≡◌, ◌≢◌, refl, arith, true, false, none, some, [], ◌∷◌, All, first_where,
}
use vmlc_backend.Competition.Model.{Candidate, CandidateRole}
use vmlc_backend.Competition.Eligibility.{Rules, get_or_create_access, can_take_exam}
use vmlc_backend.Vmlc.Model.{Question, Attempts, access_of}
use vmlc_backend.Vmlc.Exam.{DeliveryMode, Exam, is_currently_open}
use vmlc_backend.Vmlc.Attempt.{
  Item, created, saved, taken, is_within_personal_time, submit, auto_save, Delivery, can_start,
  start_access, take_exam, mark_expired,
}
use vmlc_backend.Vmlc.Attempt.Sound.{IsSound}
use vmlc_backend.Vmlc.Attempt.Steps.{
  took, before_exams, Reach, start, later, Reach-IsSound, Reach-no_error, Reach-expiry,
}
use vmlc_backend.Vmlc.Attempt.Taking.{attempt, started, expired}

abbrev exam : Exam
exam = record {
  id = 5;
  delivery_mode = DeliveryMode.virtual;
  scheduled_date = some 1000;
  open_duration_hours = some 2;
  countdown_minutes = some 30;
  competition_slot = none;
  is_active = true;
  status_override = none;
}

abbrev candidate : Candidate
candidate = record {
  pk = 9;
  is_active = true;
  is_email_verified = true;
  role = CandidateRole.screening;
}

abbrev no_rules : Rules
no_rules = record {
  competitions = [];
  stages = [];
  enrollments = [];
  progress = [];
  qr_unlocked = λ c e. false;
}

abbrev question : Question
question = record { id = 3; correct_answer = b'A' ∷ []; is_archived = false }

abbrev beginning : Delivery
beginning = before_exams (question ∷ []) ((5, 3) ∷ [])

abbrev sitting : Delivery
sitting = (take_exam 2000 no_rules candidate exam beginning).1

sitting_reach : Reach sitting
sitting_reach = later (start (question ∷ []) ((5, 3) ∷ [])) (took 2000 no_rules candidate exam)

Reach-IsSound_example : IsSound sitting.attempts
Reach-IsSound_example = Reach-IsSound sitting_reach

Reach-no_error_example :
    All (λ a. is_within_personal_time 3000 a ≢ none) sitting.attempts.accesses
    × (mark_expired 3000 1 sitting.attempts ≢ none)
Reach-no_error_example = Reach-no_error 3000 1 sitting sitting_reach

abbrev one_answer : Item
one_answer = (3, some (b'a' ∷ []))

takes : take_exam 2000 no_rules candidate exam beginning ≡ (taken, sitting)
unfolding take_exam can_take_exam is_currently_open get_or_create_access start_access
takes = refl

can_begin : can_start (attempt 2000 no_rules candidate exam beginning).status ≡ true
unfolding get_or_create_access
can_begin = refl

Reach-expiry_example :
    (db : Attempts) × (mark_expired 9000000000
        (attempt 2000 no_rules candidate exam beginning).id
        sitting.attempts
      ≡ some db)
    × (first_where (access_of 9 5) db.accesses
        ≡ some (expired (started 2000 30 (attempt 2000 no_rules candidate exam beginning))))
    × ((submit 9000000001 9 exam (some true) (one_answer ∷ []) db).0 ≢ created)
    × ((submit 9000000001 9 exam (some true) (one_answer ∷ []) db).1 ≡ db)
    × ((n : ℕ) → (auto_save 9000000001 9 exam (one_answer ∷ []) db).0 ≢ saved n)
    × ((auto_save 9000000001 9 exam (one_answer ∷ []) db).1 ≡ db)
Reach-expiry_example =
    Reach-expiry 2000 9000000000 9000000001 30 no_rules candidate exam beginning sitting (some true)
      (one_answer ∷ []) (start (question ∷ []) ((5, 3) ∷ [])) takes can_begin refl (omega arith)
