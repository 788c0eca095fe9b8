-- ===== src/Competition/Eligibility.antt =====
-- competition/services/eligibility.py: who may take an exam, and who may see a leaderboard.
pub mod Guards
pub mod Access
mod Tests
use vmlc_backend.Prelude.{
  ℕ, ◌+◌, Bool, true, false, not, ◌&&◌, ◌||◌, Option, none, some, List, [], ◌∷◌, ◌++◌, ◌==◌, leb,
  if◌then◌else◌, first_where, any_of, is_some,
}
use vmlc_backend.Competition.Model.{
  StageType, stage_code, Competition, is_active_competition, active_competition, is_active,
  Enrollment, ProgressStatus, StageProgress, Stage, CandidateRole, role_code, Candidate,
}
use vmlc_backend.Vmlc.Model.{AccessStatus, ExamAccess, Attempts, access_of}
use vmlc_backend.Vmlc.Exam.{Slot, Exam, is_currently_open, is_final}

-- The tables that the checks read. `qr_unlocked` says whether the cache has the key
-- "qr_unlock:{candidate}:{exam}".
pub record Rules : Type 0 where
  pub competitions : List Competition
  pub stages : List Stage
  pub enrollments : List Enrollment
  pub progress : List StageProgress
  pub qr_unlocked : ℕ → ℕ → Bool

-- The reasons of a refusal, in the order of the checks.
pub data Reason : Type 0 where
  inactive_account exam_inactive exam_not_open not_enrolled stage_mismatch no_progress : Reason
  already_submitted attempt_expired attempt_failed not_unlocked : Reason

-- The tuple that `can_take_exam` returns: None as a reason is the permission.
pub record Verdict : Type 0 where
  pub reason : Option Reason
  pub access : Option ExamAccess

abbrev pub is_allowed : Verdict → Bool
is_allowed v = not (is_some v.reason)

abbrev pub new_access : ℕ → ℕ → ℕ → ExamAccess
new_access id candidate exam = record {
  id = id;
  exam = exam;
  candidate = candidate;
  status = AccessStatus.pending;
  started_at = none;
  deadline = none;
  submitted_at = none;
  proctoring_status = none;
  is_manually_reviewed = false;
  is_unlocked = false;
}

-- `ExamAccess.objects.get_or_create(candidate=..., exam=..., defaults=PENDING)`
unfoldable pub get_or_create_access : ℕ → ℕ → Attempts → ExamAccess × Attempts
get_or_create_access candidate exam db = elim (first_where (access_of candidate exam) db.accesses) [
  | some a ↦ (a, db)
  | none ↦
      let a = new_access db.next_access candidate exam in
      (a, record db { accesses = db.accesses ++ a ∷ []; next_access = db.next_access + 1 })
]

-- The candidate's active enrollment in a competition.
abbrev pub find_active_enrollment : ℕ → ℕ → List Enrollment → Option Enrollment
find_active_enrollment candidate competition es =
    first_where
      (λ e. e.candidate == candidate && (e.competition == competition && is_active e.status)) es

abbrev pub same_competition : Option ℕ → ℕ → Bool
same_competition none c = false
same_competition (some d) c = c == d

-- The stage of the fallback for a candidate without an enrollment or a stage.
abbrev pub fallback_stage : Rules → Candidate → Slot → Option ℕ
fallback_stage rules c slot =
    if same_competition (active_competition rules.competitions) slot.competition
      && role_code c.role == stage_code slot.stage_type
    then some slot.stage
    else none

-- `candidate_current_stage`
abbrev pub effective_stage : Rules → Candidate → Slot → Option Enrollment → Option ℕ
effective_stage rules c slot none = fallback_stage rules c slot
effective_stage rules c slot (some e) = elim e.current_stage [
  | some s ↦ some s
  | none ↦ fallback_stage rules c slot
]

abbrev pub is_open_progress : ProgressStatus → Bool
is_open_progress ProgressStatus.pending = true
is_open_progress ProgressStatus.in_progress = true
is_open_progress _ = false

-- `has_progress`, which is asked of an enrolled candidate only.
abbrev pub has_progress : List StageProgress → ℕ → Option Enrollment → Bool
has_progress ps stage none = true
has_progress ps stage (some e) =
    any_of (λ p. p.enrollment == e.id && (p.stage == stage && is_open_progress p.status)) ps

-- The checks on the attempt itself.
abbrev pub check_attempt : Rules → Candidate → Exam → ExamAccess → Option Reason
check_attempt rules c e a = elim a.status [
  | AccessStatus.submitted ↦ some already_submitted
  | AccessStatus.expired ↦ some attempt_expired
  | AccessStatus.failed ↦ some attempt_failed
  | _ ↦
      if is_final e.competition_slot && (not a.is_unlocked && not (rules.qr_unlocked c.pk e.id))
      then some not_unlocked
      else none
]

-- The checks that an exam with a slot adds.
abbrev pub check_slot : Rules → Candidate → Exam → Slot → ExamAccess → Option Reason
check_slot rules c e slot a =
    let enrollment = find_active_enrollment c.pk slot.competition rules.enrollments in
    elim (effective_stage rules c slot enrollment) [
      | none ↦ some not_enrolled
      | some stage ↦
          if not (stage == slot.stage)
          then some stage_mismatch
          else if not (has_progress rules.progress slot.stage enrollment)
          then some no_progress
          else check_attempt rules c e a
    ]

abbrev pub check_access : Rules → Candidate → Exam → ExamAccess → Option Reason
check_access rules c e a = elim e.competition_slot [
  | none ↦ none
  | some slot ↦ check_slot rules c e slot a
]

abbrev refuse : Reason → Attempts → Option (Verdict × Attempts)
refuse r db = some (record { reason = some r; access = none }, db)

-- `EligibilityService.can_take_exam`. `none` is the TypeError of an exam without a duration.
unfoldable pub can_take_exam : ℕ → Rules → Candidate → Exam → Attempts → Option (Verdict × Attempts)
can_take_exam now rules c e db =
    if not c.is_active
    then refuse inactive_account db
    else if not e.is_active
    then refuse exam_inactive db
    else elim (is_currently_open now e) [
      | none ↦ none
      | some false ↦ refuse exam_not_open db
      | some true ↦
          let (a, db') = get_or_create_access c.pk e.id db in
          some (record { reason = check_access rules c e a; access = some a }, db')
    ]

-- `stage_order`, with 0 for the role WINNER, which it does not list.
abbrev pub stage_level : StageType → ℕ
stage_level StageType.screening = 1
stage_level StageType.league = 2
stage_level StageType.final = 3

abbrev pub role_level : CandidateRole → ℕ
role_level CandidateRole.screening = 1
role_level CandidateRole.league = 2
role_level CandidateRole.final = 3
role_level CandidateRole.winner = 0

abbrev find_stage_type : List Stage → Option ℕ → Option StageType
find_stage_type stages none = none
find_stage_type stages (some i) = elim (first_where (λ s. s.id == i) stages) [
  | none ↦ none
  | some s ↦ some s.type
]

abbrev pub is_running : List Competition → ℕ → Bool
is_running cs i = any_of (λ c. c.id == i && is_active_competition c) cs

-- The enrollment in an active competition that `can_view_leaderboard` looks up.
abbrev pub current_enrollment : Rules → ℕ → Option Enrollment
current_enrollment rules candidate =
    first_where
      (λ e.
        e.candidate == candidate
        && (is_running rules.competitions e.competition && is_active e.status))
      rules.enrollments

abbrev pub candidate_level : Rules → Candidate → ℕ
candidate_level rules c = elim (current_enrollment rules c.pk) [
  | none ↦ role_level c.role
  | some e ↦ elim (find_stage_type rules.stages e.current_stage) [
    | none ↦ role_level c.role
    | some t ↦ stage_level t
  ]
]

-- `EligibilityService.can_view_leaderboard`
unfoldable pub can_view_leaderboard : Rules → Candidate → StageType → Bool
can_view_leaderboard rules c t =
    if not (is_some (current_enrollment rules c.pk))
      && not (any_of is_active_competition rules.competitions)
    then false
    else leb (stage_level t) (candidate_level rules c)
