-- ===== src/Vmlc/Attempt/Submit.antt =====
-- Submissions: when one is accepted, and what it rules out.
use mathlib.Core.Option
use vmlc_backend.Prelude.{
  ℕ, ◌+◌, ◌≤◌, ◌≡◌, ◌≢◌, refl, ap, ◌∙◌, ◌⊎◌, Bool, true, false, Option, none, some, List, arith,
  is_some, inl, inr, Option-cases, first_where,
}
use vmlc_backend.Vmlc.Model.{is_finished, ExamAccess, Attempts, access_of, result_of}
use vmlc_backend.Vmlc.Exam.{Exam, is_currently_open}
use vmlc_backend.Vmlc.Attempt.{
  grace, Response, created, saved, Item, guard_access, submit, store_submission, store_answers,
  auto_save,
}
use vmlc_backend.Vmlc.Attempt.Frame.{
  submit_access, store_submission-access, store_submission-result, store_answers-result,
}

-- The access with which a request was accepted.
pub record IsAccepted (now : ℕ) (e : Exam) (a : ExamAccess) : Type 0 where
  pub unfinished : is_finished a.status ≡ false
  pub in_time :
      (is_currently_open now e ≡ some true) ⊎ ((d : ℕ) × (a.deadline ≡ some d) × (now ≤ d + grace))

guard_access-IsAccepted :
    (now : ℕ) (e : Exam) (a : ExamAccess) → guard_access now e a ≡ none → IsAccepted now e a
guard_access-IsAccepted now e a h = record { unfinished = ground arith; in_time = ground arith }

module _ (now candidate : ℕ) (e : Exam) where
  -- A stored submission came from `store_submission`, over an access that passed the guards.
  submit-created :
      (auto : Option Bool) (items : List Item) (db db' : Attempts)
      → submit now candidate e auto items db ≡ (created, db')
      → (a : ExamAccess) × (flag : Bool) × (first_where (access_of candidate e.id) db.accesses
          ≡ some a)
        × (guard_access now e a ≡ none)
        × (store_submission now candidate e.id flag items db ≡ (created, db'))
  unfolding submit
  submit-created none items db db' h = absurd (ground arith)
  submit-created (some flag) items db db' h =
      elim (Option-cases (first_where (access_of candidate e.id) db.accesses)) [
        | inl missing ↦ absurd (ground arith)
        | inr (a, found) ↦ (a, flag, found, ground arith, ground arith)
      ]

  -- A submission is accepted only over the candidate's own access to the exam, which is not yet
  -- submitted, expired or failed, and only while the exam is open or until the grace period after
  -- the access's deadline; the access is then SUBMITTED at that time.
  pub submit-IsAccepted :
      (auto : Option Bool) (items : List Item) (db db' : Attempts)
      → submit now candidate e auto items db ≡ (created, db')
      → (a : ExamAccess) × (first_where (access_of candidate e.id) db.accesses ≡ some a)
        × IsAccepted now e a
        × (first_where (access_of candidate e.id) db'.accesses ≡ some (submit_access now a))
  submit-IsAccepted auto items db db' h =
      let (a, flag, found, passed, stored) = submit-created auto items db db' h in
      (
        a,
        found,
        guard_access-IsAccepted now e a passed,
        store_submission-access now candidate e.id flag items db db' stored
            ∙ ap (Option.map (submit_access now)) found,
      )

-- A request over an access that is SUBMITTED changes nothing.
module _ (later candidate : ℕ) (e : Exam) (items : List Item) (db : Attempts) {a : ExamAccess}
    (found : first_where (access_of candidate e.id) db.accesses ≡ some a)
    (finished : is_finished a.status ≡ true) where
  pub submit_finished :
      (auto : Option Bool)
      → ((submit later candidate e auto items db).1 ≡ db)
        × ((submit later candidate e auto items db).0 ≢ created)
  unfolding submit
  submit_finished auto = (ground arith, λ q. ground arith)

  pub auto_save_finished : (auto_save later candidate e items db).1 ≡ db
  unfolding auto_save
  auto_save_finished = ground arith

  pub auto_save_refused : (n : ℕ) → (auto_save later candidate e items db).0 ≢ saved n
  unfolding auto_save
  auto_save_refused n q = ground arith

-- After an accepted submission neither the submit view nor the auto-save view changes anything for
-- the candidate and the exam, at whatever time and with whatever answers, and no second submission
-- is accepted.
pub submit_once :
    (now later candidate : ℕ) (e e' : Exam) (auto auto' : Option Bool) (items items' : List Item)
    (db db' : Attempts)
    → e'.id ≡ e.id
    → submit now candidate e auto items db ≡ (created, db')
    → ((submit later candidate e' auto' items' db').1 ≡ db')
      × ((submit later candidate e' auto' items' db').0 ≢ created)
      × ((auto_save later candidate e' items' db').1 ≡ db')
submit_once now later candidate e e' auto auto' items items' db db' same h =
    let (a, _, _, found) = submit-IsAccepted now candidate e auto items db db' h in
    let found' : first_where (access_of candidate e'.id) db'.accesses ≡ some (submit_access now a) =
      rw same found in
    let (kept, again) = submit_finished later candidate e' items' db' found' refl auto' in
    (kept, again, auto_save_finished later candidate e' items' db' found' refl)

pub auto_save-saved :
    (now candidate : ℕ) (e : Exam) (items : List Item) (db db' : Attempts) (n : ℕ)
    → auto_save now candidate e items db ≡ (saved n, db')
    → db' ≡ store_answers now candidate e.id items db
unfolding auto_save
auto_save-saved now candidate e items db db' n h = ground arith

-- Where the candidate has a result for the exam, no submission is accepted.
submit_with_result :
    (now candidate : ℕ) (e : Exam) (auto : Option Bool) (items : List Item) (db : Attempts)
    → is_some (first_where (result_of candidate e.id) db.results) ≡ true
    → (submit now candidate e auto items db).0 ≢ created
submit_with_result now candidate e auto items db r q =
    let (r', db') = submit now candidate e auto items db in
    let (a, flag, found, passed, stored) =
      submit-created now candidate e auto items db db' (ap (λ (x : Response). (x, db')) q) in
    cc (store_submission-result now candidate e.id flag items db r)

-- Once answers have been auto-saved for an exam no submission of the candidate for that exam is
-- accepted, at whatever time and with whatever answers.
pub auto_save_blocks_submit :
    (now later candidate n : ℕ) (e e' : Exam) (auto : Option Bool) (items items' : List Item)
    (db db' : Attempts)
    → e'.id ≡ e.id
    → auto_save now candidate e items db ≡ (saved n, db')
    → (submit later candidate e' auto items' db').0 ≢ created
auto_save_blocks_submit now later candidate n e e' auto items items' db db' same h q =
    let left : db' ≡ store_answers now candidate e.id items db =
      auto_save-saved now candidate e items db db' n h in
    let has_result : is_some (first_where (result_of candidate e'.id) db'.results) ≡ true =
      rw (same, left) (store_answers-result now candidate e.id items db) in
    submit_with_result later candidate e' auto items' db' has_result q
