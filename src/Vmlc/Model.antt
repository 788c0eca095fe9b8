-- ===== src/Vmlc/Model.antt =====
-- The tables of vmlc/models.py. Identifiers are numbers, times are microseconds since a fixed
-- origin, and a score is held in hundredths. Floats that the code only copies are held by codes,
-- with 0 for 0.0.
use vmlc_backend.Prelude.{ℕ, Bool, true, false, ◌&&◌, Option, List, ◌==◌}
use vmlc_backend.Competition.Model.{ProctoringStatus}

pub record Question : Type 0 where
  pub id : ℕ
  pub correct_answer : List ℕ
  pub is_archived : Bool

-- `ExamAccess.Status`
pub data AccessStatus : Type 0 where
  pending issued started submitted expired failed : AccessStatus

abbrev pub is_submitted : AccessStatus → Bool
is_submitted AccessStatus.submitted = true
is_submitted _ = false

abbrev pub is_started : AccessStatus → Bool
is_started AccessStatus.started = true
is_started _ = false

-- `status in [SUBMITTED, EXPIRED, FAILED]`
abbrev pub is_finished : AccessStatus → Bool
is_finished AccessStatus.submitted = true
is_finished AccessStatus.expired = true
is_finished AccessStatus.failed = true
is_finished _ = false

pub record ExamAccess : Type 0 where
  pub id : ℕ
  pub exam : ℕ
  pub candidate : ℕ
  pub status : AccessStatus
  pub started_at : Option ℕ
  pub deadline : Option ℕ
  pub submitted_at : Option ℕ
  pub proctoring_status : Option ProctoringStatus
  pub is_manually_reviewed : Bool
  pub is_unlocked : Bool

pub record ExamResult : Type 0 where
  pub id : ℕ
  pub candidate : ℕ
  pub exam : ℕ
  pub score : ℕ
  pub is_auto_submit : Bool
  pub auto_score : Bool
  pub recorded_at : ℕ

pub record Answer : Type 0 where
  pub result : ℕ
  pub question : ℕ
  pub selected_option : Option (List ℕ)

-- The tables of the attempts. `exam_questions` links exams to questions; an identifier for a new
-- access or result is the next number.
pub record Attempts : Type 0 where
  pub questions : List Question
  pub exam_questions : List (ℕ × ℕ)
  pub accesses : List ExamAccess
  pub results : List ExamResult
  pub answers : List Answer
  pub next_access : ℕ
  pub next_result : ℕ

-- `candidate=..., exam=...`
abbrev pub access_of : ℕ → ℕ → ExamAccess → Bool
access_of candidate exam a = a.candidate == candidate && a.exam == exam

abbrev pub result_of : ℕ → ℕ → ExamResult → Bool
result_of candidate exam r = r.candidate == candidate && r.exam == exam
