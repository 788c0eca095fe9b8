-- ===== src/Vmlc/Exam/Status.antt =====
-- How the status of an exam, its open window and its conclusion go together.
use vmlc_backend.Prelude.{ℕ, ◌≤◌, ◌≡◌, ◌↔◌, ◌⊎◌, true, none, some, arith}
use vmlc_backend.Vmlc.Exam.{ExamStatus, Exam, end_time, status, is_currently_open}

-- The place of a status in the course of an exam's life.
abbrev pub phase : ExamStatus → ℕ
phase ExamStatus.draft = 0
phase ExamStatus.cancelled = 0
phase ExamStatus.scheduled = 1
phase ExamStatus.ongoing = 2
phase ExamStatus.concluded = 3

-- As time passes and the row stays, an exam only moves on: scheduled, ongoing, concluded.
pub status-monotone :
    (now later : ℕ) (e : Exam) → now ≤ later → phase (status now e) ≤ phase (status later e)
unfolding status
status-monotone now later e h = ground arith

-- Of an exam with no override, a start and a duration, the window is open exactly when the status is
-- ONGOING, or when the exam is CONCLUDED at this very instant, its end time.
pub is_currently_open-status :
    (now start hours : ℕ) (e : Exam)
    → e.status_override ≡ none
    → e.scheduled_date ≡ some start
    → e.open_duration_hours ≡ some hours
    → (is_currently_open now e ≡ some true) ↔ (
        (status now e ≡ ExamStatus.ongoing)
        ⊎ ((status now e ≡ ExamStatus.concluded) × (now ≡ end_time start hours) × (start ≤ now)))
unfolding status is_currently_open
is_currently_open-status now start hours e o s d = (ground arith, ground arith)
