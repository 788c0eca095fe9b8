-- ===== src/Vmlc/Exam.antt =====
-- The model `Exam` of vmlc/models.py: its computed status, the window in which it is open, `retract`
-- and `save`. The clock is an argument: each call of `timezone.now()` is a time of its own.
pub mod Status
pub mod Retract
mod Tests
use vmlc_backend.Prelude.{
  ℕ, ◌+◌, ◌*◌, ◌≡◌, Bool, true, false, not, ◌&&◌, ◌||◌, Option, none, some, ◌==◌, leb, ltb,
  if◌then◌else◌, is_some,
}
use vmlc_backend.Competition.Model.{StageType}

-- `Exam.Status`
pub data ExamStatus : Type 0 where
  draft scheduled ongoing concluded cancelled : ExamStatus

-- `Exam.ExamDeliveryMode`
pub data DeliveryMode : Type 0 where
  virtual in_person : DeliveryMode

-- The StageExam of an exam, with the type and the competition of its stage.
pub record Slot : Type 0 where
  pub id : ℕ
  pub stage : ℕ
  pub stage_type : StageType
  pub competition : ℕ
  pub round : Option ℕ
  pub is_active : Bool

pub record Exam : Type 0 where
  pub id : ℕ
  pub delivery_mode : DeliveryMode
  pub scheduled_date : Option ℕ
  pub open_duration_hours : Option ℕ
  pub countdown_minutes : Option ℕ
  pub competition_slot : Option Slot
  pub is_active : Bool
  pub status_override : Option ExamStatus

-- `timedelta(hours=1)` and `timedelta(minutes=1)`
abbrev pub hour : ℕ
hour = 3600000000

abbrev pub minute : ℕ
minute = 60000000

abbrev pub end_time : ℕ → ℕ → ℕ
end_time start hours = start + hours * hour

-- The part of `status` below the guard on `is_active`.
abbrev pub status_in_time : ℕ → ℕ → ℕ → ExamStatus
status_in_time now start hours =
    if ltb now start
    then ExamStatus.scheduled
    else if ltb now (end_time start hours)
    then ExamStatus.ongoing
    else ExamStatus.concluded

abbrev pub status_of_dates : ℕ → Bool → Option ℕ → Option ℕ → ExamStatus
status_of_dates now active (some start) (some hours) =
    if active then status_in_time now start hours else ExamStatus.cancelled
status_of_dates now active (some start) none = ExamStatus.draft
status_of_dates now active none _ = ExamStatus.draft

-- `status`
unfoldable pub status : ℕ → Exam → ExamStatus
status now e = elim e.status_override [
  | some s ↦ s
  | none ↦ status_of_dates now e.is_active e.scheduled_date e.open_duration_hours
]

abbrev open_between : ℕ → Option ℕ → Option ℕ → Option Bool
open_between now none _ = some false
open_between now (some start) none = none
open_between now (some start) (some hours) = some (leb start now && leb now (end_time start hours))

-- `is_currently_open`; `none` is the TypeError of `timedelta(hours=None)`.
unfoldable pub is_currently_open : ℕ → Exam → Option Bool
is_currently_open now e =
    if e.is_active then open_between now e.scheduled_date e.open_duration_hours else some false

-- `concluded_at`
unfoldable pub concluded_at : ℕ → Exam → Option ℕ
concluded_at now e = elim e.scheduled_date [
  | none ↦ none
  | some start ↦ elim e.open_duration_hours [
    | none ↦ none
    | some hours ↦ if ltb (end_time start hours) now then some (end_time start hours) else none
  ]
]

abbrev pub is_scheduled : ExamStatus → Bool
is_scheduled ExamStatus.scheduled = true
is_scheduled _ = false

abbrev pub is_concluded : ExamStatus → Bool
is_concluded ExamStatus.concluded = true
is_concluded _ = false

abbrev pub is_cancelled : ExamStatus → Bool
is_cancelled ExamStatus.cancelled = true
is_cancelled _ = false

abbrev pub is_final : Option Slot → Bool
is_final none = false
is_final (some s) = elim s.stage_type [ StageType.final ↦ true | _ ↦ false ]

-- The slot after `save`: active only if the exam is scheduled and active.
abbrev sync_slot : Bool → Option Slot → Option Slot
sync_slot should_be_active none = none
sync_slot should_be_active (some s) = some (record s { is_active = should_be_active })

abbrev was_cancelled : Option ExamStatus → Bool
was_cancelled none = false
was_cancelled (some s) = is_cancelled s

-- `save` and the hook that it leaves for the commit: the row, and whether the staff are told that
-- the exam is cancelled. `old` is the status of the stored row, if there is one.
unfoldable pub save : ℕ → Option ExamStatus → Exam → Exam × Bool
save now old e =
    let mode = if is_final e.competition_slot then DeliveryMode.in_person else e.delivery_mode in
    let slot = sync_slot (is_some e.scheduled_date && e.is_active) e.competition_slot in
    (
      record e { delivery_mode = mode; competition_slot = slot },
      not (was_cancelled old) && is_cancelled (status now e),
    )

abbrev deactivate : Option Slot → Option Slot
deactivate none = none
deactivate (some s) = some (record s { is_active = false })

-- `retract`: the row afterwards, whether the staff are told of a cancellation by its `save`, and
-- the flag that it returns.
unfoldable pub retract : ℕ → ℕ → Exam → Exam × Bool × Bool
unfolding status save
retract now later e =
    if is_scheduled (status now e)
    then (let cleared : Exam = record e {
      scheduled_date = none;
      countdown_minutes = none;
      open_duration_hours = none;
      is_active = true;
    } in
        let (saved, told) = save later (some (status later e)) cleared in
        (record saved { competition_slot = deactivate saved.competition_slot }, told, true))
    else (e, false, false)
