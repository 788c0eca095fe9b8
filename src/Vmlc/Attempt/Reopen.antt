-- ===== src/Vmlc/Attempt/Reopen.antt =====
-- The face capture view, which sets the status of an access whatever it was.
use vmlc_backend.Prelude.{
  ℕ, ◌≡◌, refl, Bool, true, Option, some, List, arith, first_where, first_where-update, ◌&&◌,
  length, is_some,
}
use vmlc_backend.Vmlc.Model.{AccessStatus, ExamAccess, Attempts, access_of}
use vmlc_backend.Vmlc.Exam.{Exam, is_currently_open}
use vmlc_backend.Competition.Eligibility.{get_or_create_access}
use vmlc_backend.Vmlc.Attempt.{
  created, saved, Item, submit, auto_save, face_capture, is_valid_submission, options_valid,
}
use vmlc_backend.Vmlc.Attempt.Submit.{submit-IsAccepted}

-- Uploading a face capture makes any access of the candidate to the exam PENDING again.
pub face_capture-pending :
    (candidate : ℕ) (e : Exam) (db : Attempts) {a : ExamAccess}
    → first_where (access_of candidate e.id) db.accesses ≡ some a
    → first_where (access_of candidate e.id) (face_capture candidate e db).1.accesses
      ≡ some (record a { status = AccessStatus.pending })
unfolding face_capture get_or_create_access
face_capture-pending candidate e db found = ground (
  arith,
  first_where-update (access_of candidate e.id) (λ b. record b { status = AccessStatus.pending })
      db.accesses (λ x. refl),
)

auto_save_pending :
    (later candidate : ℕ) (e : Exam) (items : List Item) (db : Attempts) {a : ExamAccess}
    → first_where (access_of candidate e.id) db.accesses ≡ some a
    → a.status ≡ AccessStatus.pending
    → is_some a.started_at ≡ is_some a.deadline
    → is_currently_open later e ≡ some true
    → (is_valid_submission db items && options_valid items) ≡ true
    → (auto_save later candidate e items db).0 ≡ saved (length items)
unfolding auto_save
auto_save_pending later candidate e items db found p timed open_now valid = ground arith

face_capture-questions :
    (candidate : ℕ) (e : Exam) (db : Attempts)
    → (face_capture candidate e db).1.questions ≡ db.questions
unfolding face_capture get_or_create_access
face_capture-questions candidate e db = ground arith

-- A submitted attempt does not stay closed: after an accepted submission and one upload of a face
-- capture, valid answers are saved again while the exam is open. (The access is assumed to have a
-- deadline exactly if it has a start.)
pub face_capture_reopens :
    (now later candidate : ℕ) (e : Exam) (auto : Option Bool) (items items' : List Item)
    (db db' : Attempts) (a : ExamAccess)
    → submit now candidate e auto items db ≡ (created, db')
    → first_where (access_of candidate e.id) db.accesses ≡ some a
    → is_some a.started_at ≡ is_some a.deadline
    → is_currently_open later e ≡ some true
    → (is_valid_submission db' items' && options_valid items') ≡ true
    → (auto_save later candidate e items' (face_capture candidate e db').1).0
      ≡ saved (length items')
face_capture_reopens now later candidate e auto items items' db db' a h found timed open_now valid =
    let (b, found', _, after) = submit-IsAccepted now candidate e auto items db db' h in
    let same : b ≡ a = ground arith in
    auto_save_pending later candidate e items' (face_capture candidate e db').1
      (face_capture-pending candidate e db' after) refl (rw same timed) open_now
      (rw (face_capture-questions candidate e db') valid)
