-- ===== src/Vmlc/Attempt/Tests.antt =====
-- Examples for the attempts: a candidate with a started access, and one question.
use vmlc_backend.Prelude.{
  ◌==◌, ℕ, ◌+◌, ◌*◌, ◌≡◌, ◌≢◌, refl, true, false, none, some, List, [], ◌∷◌, first_where,
}
use vmlc_backend.Vmlc.Model.{AccessStatus, ExamAccess, ExamResult, Attempts, access_of, result_of}
use vmlc_backend.Vmlc.Exam.{DeliveryMode, Exam, minute, is_currently_open}
use vmlc_backend.Vmlc.Attempt.{
  Item, created, saved, submit, store_submission, auto_save, face_capture, chosen,
}
use vmlc_backend.Prelude.Text.{strip, upper}
use vmlc_backend.Vmlc.Attempt.Frame.{submit_access}
use vmlc_backend.Vmlc.Attempt.Submit.{
  IsAccepted, submit-IsAccepted, submit_once, auto_save_blocks_submit,
}
use vmlc_backend.Competition.Model.{Candidate, CandidateRole}
use vmlc_backend.Competition.Eligibility.{Rules, get_or_create_access, can_take_exam}
use vmlc_backend.Competition.Eligibility.Guards.{IsPermitted}
use vmlc_backend.Vmlc.Attempt.{Delivery, taken, take_exam, start_access, can_start}
use vmlc_backend.Vmlc.Attempt.Taking.{attempt, after_check, started, IsBegun, take_exam-IsBegun}
use vmlc_backend.Vmlc.Attempt.Saved.{saved_text, last_choice, auto_save-saved_text}
use vmlc_backend.Vmlc.Attempt.Reopen.{face_capture_reopens}

abbrev open_exam : Exam
open_exam = record {
  id = 5;
  delivery_mode = DeliveryMode.virtual;
  scheduled_date = some 1000;
  open_duration_hours = some 2;
  countdown_minutes = some 30;
  competition_slot = none;
  is_active = true;
  status_override = none;
}

abbrev started_access : ExamAccess
started_access = record {
  id = 1;
  exam = 5;
  candidate = 9;
  status = AccessStatus.started;
  started_at = some 1500;
  deadline = some (1500 + 30 * minute);
  submitted_at = none;
  proctoring_status = none;
  is_manually_reviewed = false;
  is_unlocked = false;
}

abbrev tables : Attempts
tables = record {
  questions = record { id = 3; correct_answer = b'A' ∷ []; is_archived = false } ∷ [];
  exam_questions = (5, 3) ∷ [];
  accesses = started_access ∷ [];
  results = [];
  answers = [];
  next_access = 2;
  next_result = 1;
}

abbrev one_answer : List Item
one_answer = (3, some (b'a' ∷ [])) ∷ []

submit_accepts :
    submit 2000 9 open_exam (some false) one_answer tables
    ≡ (created, (submit 2000 9 open_exam (some false) one_answer tables).1)
unfolding submit store_submission is_currently_open
submit_accepts = refl

auto_save_accepts :
    auto_save 2000 9 open_exam one_answer tables
    ≡ (saved 1, (auto_save 2000 9 open_exam one_answer tables).1)
unfolding auto_save is_currently_open chosen strip upper
auto_save_accepts = refl

abbrev submitted : Attempts
submitted = (submit 2000 9 open_exam (some false) one_answer tables).1

abbrev auto_saved : Attempts
auto_saved = (auto_save 2000 9 open_exam one_answer tables).1

submit_once_example :
    ((submit 3000 9 open_exam (some true) one_answer submitted).1 ≡ submitted)
    × ((submit 3000 9 open_exam (some true) one_answer submitted).0 ≢ created)
    × ((auto_save 3000 9 open_exam one_answer submitted).1 ≡ submitted)
submit_once_example =
    submit_once 2000 3000 9 open_exam open_exam (some false) (some true) one_answer one_answer
      tables submitted refl submit_accepts

submit-IsAccepted_example :
    (a : ExamAccess) × (first_where (access_of 9 5) tables.accesses ≡ some a)
    × IsAccepted 2000 open_exam a
    × (first_where (access_of 9 5) submitted.accesses ≡ some (submit_access 2000 a))
submit-IsAccepted_example =
    submit-IsAccepted 2000 9 open_exam (some false) one_answer tables submitted submit_accepts

auto_save_blocks_submit_example :
    (submit 3000 9 open_exam (some false) one_answer auto_saved).0 ≢ created
auto_save_blocks_submit_example =
    auto_save_blocks_submit 2000 3000 9 1 open_exam open_exam (some false) one_answer one_answer
      tables auto_saved refl auto_save_accepts

auto_save-saved_text_example :
    (r : ExamResult) × (first_where (result_of 9 5) auto_saved.results ≡ some r)
    × ((q : ℕ)
        → saved_text r.id q auto_saved.answers
          ≡ last_choice q one_answer (saved_text r.id q tables.answers))
auto_save-saved_text_example =
    auto_save-saved_text 2000 9 1 open_exam one_answer tables auto_saved auto_save_accepts

open_at_3000 : is_currently_open 3000 open_exam ≡ some true
unfolding is_currently_open
open_at_3000 = refl

face_capture_reopens_example :
    (auto_save 3000 9 open_exam one_answer (face_capture 9 open_exam submitted).1).0 ≡ saved 1
unfolding submit store_submission is_currently_open chosen strip upper
face_capture_reopens_example =
    face_capture_reopens 2000 3000 9 open_exam (some false) one_answer one_answer tables submitted
      started_access submit_accepts refl refl open_at_3000 refl

abbrev no_rules : Rules
no_rules = record {
  competitions = [];
  stages = [];
  enrollments = [];
  progress = [];
  qr_unlocked = λ c e. false;
}

abbrev candidate : Candidate
candidate = record {
  pk = 9;
  is_active = true;
  is_email_verified = true;
  role = CandidateRole.screening;
}

abbrev delivery : Delivery
delivery = record { attempts = record tables { accesses = [] }; heartbeats = []; expirations = [] }

abbrev taken_delivery : Delivery
taken_delivery = (take_exam 2000 no_rules candidate open_exam delivery).1

take_runs : take_exam 2000 no_rules candidate open_exam delivery ≡ (taken, taken_delivery)
unfolding take_exam can_take_exam is_currently_open get_or_create_access start_access
take_runs = refl

can_begin : can_start (attempt 2000 no_rules candidate open_exam delivery).status ≡ true
unfolding get_or_create_access
can_begin = refl

take_exam-IsBegun_example :
    IsPermitted 2000 no_rules candidate open_exam
      (attempt 2000 no_rules candidate open_exam delivery)
    × (can_start (attempt 2000 no_rules candidate open_exam delivery).status ≡ true
        → IsBegun 2000 9 open_exam
            (attempt 2000 no_rules candidate open_exam delivery)
            taken_delivery)
    × (can_start (attempt 2000 no_rules candidate open_exam delivery).status ≡ false
        → taken_delivery ≡ after_check 2000 no_rules candidate open_exam delivery)
take_exam-IsBegun_example =
    take_exam-IsBegun 2000 no_rules candidate open_exam delivery taken_delivery take_runs

row_by_id :
    first_where
      (λ b. b.id == (attempt 2000 no_rules candidate open_exam delivery).id)
      taken_delivery.attempts.accesses
    ≡ some (started 2000 30 (attempt 2000 no_rules candidate open_exam delivery))
unfolding take_exam can_take_exam is_currently_open get_or_create_access start_access
row_by_id = refl
