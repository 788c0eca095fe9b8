-- ===== src/Competition/Model.antt =====
-- The tables of competition/models.py that the services read and write. Identifiers are numbers,
-- and so are times, in microseconds since a fixed origin. A score is held in hundredths, as the
-- columns are decimals of two places.
use vmlc_backend.Prelude.{ℕ, Bool, true, false, Option, none, some, List, ◌==◌, first_where}

-- `Competition.Status`
pub data CompetitionStatus : Type 0 where
  upcoming active concluded : CompetitionStatus

pub record Competition : Type 0 where
  pub id : ℕ
  pub status : CompetitionStatus

abbrev pub is_active_competition : Competition → Bool
is_active_competition c = elim c.status [ CompetitionStatus.active ↦ true | _ ↦ false ]

-- `Stage.Type`
pub data StageType : Type 0 where
  screening league final : StageType

abbrev pub stage_code : StageType → ℕ
stage_code StageType.screening = 0
stage_code StageType.league = 1
stage_code StageType.final = 2

abbrev pub stage_eq : StageType → StageType → Bool
stage_eq a b = stage_code a == stage_code b

-- `Enrollment.Status`
pub data EnrollmentStatus : Type 0 where
  pending active eliminated disqualified : EnrollmentStatus

abbrev pub is_active : EnrollmentStatus → Bool
is_active EnrollmentStatus.active = true
is_active _ = false

abbrev pub is_disqualified : EnrollmentStatus → Bool
is_disqualified EnrollmentStatus.disqualified = true
is_disqualified _ = false

abbrev pub is_active_or_pending : EnrollmentStatus → Bool
is_active_or_pending EnrollmentStatus.active = true
is_active_or_pending EnrollmentStatus.pending = true
is_active_or_pending _ = false

-- `EnrollmentStageProgress.Status`
pub data ProgressStatus : Type 0 where
  pending in_progress completed discontinued : ProgressStatus

abbrev pub is_in_progress : ProgressStatus → Bool
is_in_progress ProgressStatus.in_progress = true
is_in_progress _ = false

abbrev pub is_discontinued : ProgressStatus → Bool
is_discontinued ProgressStatus.discontinued = true
is_discontinued _ = false

-- The choices of `proctoring_status`.
pub data ProctoringStatus : Type 0 where
  clear suspicious flagged : ProctoringStatus

-- `advancement_policy` of a stage's config: a mode and its value. The value of `top_percent` is a
-- fraction, held as a numerator and a denominator.
pub data Policy : Type 0 where
  top_n : ℕ → Policy
  top_percent : (num den : ℕ) → Policy
  unsupported : Policy

pub record Stage : Type 0 where
  pub id : ℕ
  pub competition : ℕ
  pub type : StageType
  pub order : ℕ
  pub advancement_policy : Option Policy

-- Of `metadata` only the key that the services write is kept.
pub record Enrollment : Type 0 where
  pub id : ℕ
  pub candidate : ℕ
  pub competition : ℕ
  pub current_stage : Option ℕ
  pub status : EnrollmentStatus
  pub last_active_at : Option ℕ
  pub disqualification_reason : Option (List ℕ)

pub record StageProgress : Type 0 where
  pub enrollment : ℕ
  pub stage : ℕ
  pub status : ProgressStatus
  pub started_at : Option ℕ
  pub completed_at : Option ℕ
  pub discontinued_at : Option ℕ

-- `Candidate.Roles` of identity/models.py
pub data CandidateRole : Type 0 where
  screening league final winner : CandidateRole

-- `candidate.role == stage.type`, and the role that is named like a stage.
abbrev pub role_code : CandidateRole → ℕ
role_code CandidateRole.screening = 0
role_code CandidateRole.league = 1
role_code CandidateRole.final = 2
role_code CandidateRole.winner = 3

abbrev pub role_of_stage : StageType → CandidateRole
role_of_stage StageType.screening = CandidateRole.screening
role_of_stage StageType.league = CandidateRole.league
role_of_stage StageType.final = CandidateRole.final

-- A candidate with the two flags of its user.
pub record Candidate : Type 0 where
  pub pk : ℕ
  pub is_active : Bool
  pub is_email_verified : Bool
  pub role : CandidateRole

-- `Competition.objects.filter(status=ACTIVE).first()`
abbrev pub active_competition : List Competition → Option ℕ
active_competition cs = elim (first_where is_active_competition cs) [
  | none ↦ none
  | some c ↦ some c.id
]
