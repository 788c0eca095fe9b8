-- ===== src/Vmlc/Exam/Retract.antt =====
-- `Exam.save` and `Exam.retract`.
use vmlc_backend.Prelude.{ℕ, ◌≡◌, ◌≢◌, ◌&&◌, Bool, true, false, Option, none, some, arith, is_some}
use vmlc_backend.Vmlc.Exam.{
  ExamStatus, Exam, Slot, is_scheduled, status, is_currently_open, save, retract,
}

abbrev pub slot_is_active : Option Slot → Option Bool
slot_is_active none = none
slot_is_active (some s) = some s.is_active

-- Saving an exam with a slot leaves its status as it is at every time; its slot is then active
-- exactly when the exam is active and has a date. The staff are told only if the exam is CANCELLED afterwards and was not before.
pub save_lem :
    (now t : ℕ) (old : Option ExamStatus) (e : Exam) (s : Slot)
    → e.competition_slot ≡ some s
    → let (e', told) = save now old e in
      (status t e' ≡ status t e)
      × (slot_is_active e'.competition_slot ≡ some (is_some e.scheduled_date && e.is_active))
      × (told ≡ true → (status now e' ≡ ExamStatus.cancelled) × (old ≢ some ExamStatus.cancelled))
unfolding save status
save_lem now t old e s h = (ground arith, ground arith, λ q. (ground arith, λ r. ground arith))

-- A SCHEDULED exam with no override can be retracted: it is a DRAFT at every later time, its window
-- is never open and its slot is not active, and nobody is told of a cancellation. An exam of any
-- other status is refused and stays as it is.
pub retract_lem :
    (now later t : ℕ) (e : Exam)
    → e.status_override ≡ none
    → let (e', told, done) = retract now later e in
      (is_scheduled (status now e) ≡ true
        → (done ≡ true)
          × (told ≡ false)
          × (status t e' ≡ ExamStatus.draft)
          × (is_currently_open t e' ≡ some false)
          × (slot_is_active e'.competition_slot ≡ some true → ⊥))
      × (is_scheduled (status now e) ≡ false → (done ≡ false) × (e' ≡ e))
unfolding retract save status is_currently_open
retract_lem now later t e o = (
  λ h. (ground arith, ground arith, ground arith, ground arith, λ q. ground arith),
  λ h. (ground arith, ground arith),
)
