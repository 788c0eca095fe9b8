-- ===== src/Vmlc/Exam/Tests.antt =====
-- Examples for the exam: one with a start and a duration of two hours, in a league slot.
use vmlc_backend.Prelude.{◌≤◌, ◌≡◌, refl, ◌↔◌, ◌⊎◌, true, false, none, some}
use vmlc_backend.Competition.Model.{StageType}
use vmlc_backend.Vmlc.Exam.{
  ExamStatus, DeliveryMode, Slot, Exam, end_time, status, is_currently_open, concluded_at,
}
use vmlc_backend.Vmlc.Exam.Status.{is_currently_open-status}

abbrev league_slot : Slot
league_slot = record {
  id = 1;
  stage = 2;
  stage_type = StageType.league;
  competition = 7;
  round = some 1;
  is_active = false;
}

abbrev league_exam : Exam
league_exam = record {
  id = 5;
  delivery_mode = DeliveryMode.virtual;
  scheduled_date = some 1000;
  open_duration_hours = some 2;
  countdown_minutes = some 30;
  competition_slot = some league_slot;
  is_active = true;
  status_override = none;
}

before_start : status 999 league_exam ≡ ExamStatus.scheduled
unfolding status
before_start = refl

at_the_end : status (end_time 1000 2) league_exam ≡ ExamStatus.concluded
unfolding status
at_the_end = refl

open_at_the_end : is_currently_open (end_time 1000 2) league_exam ≡ some true
unfolding is_currently_open
open_at_the_end = refl

not_concluded_at_the_end : concluded_at (end_time 1000 2) league_exam ≡ none
unfolding concluded_at
not_concluded_at_the_end = refl

is_currently_open-status_example : (is_currently_open 2000 league_exam ≡ some true) ↔ (
    (status 2000 league_exam ≡ ExamStatus.ongoing)
    ⊎ ((status 2000 league_exam ≡ ExamStatus.concluded) × (2000 ≡ end_time 1000 2) × (1000 ≤ 2000)))
is_currently_open-status_example = is_currently_open-status 2000 1000 2 league_exam refl refl refl
