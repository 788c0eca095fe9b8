-- ===== src/Vmlc/Attempt/Frame.antt =====
-- What storing a submission or saved answers does to the rows of the attempt.
use mathlib.Core.Option
use vmlc_backend.Prelude.{
  ℕ, ◌≡◌, refl, Bool, true, false, some, List, [], ◌∷◌, arith, is_some, first_where,
  first_where-update, first_where-append,
}
use vmlc_backend.Vmlc.Model.{AccessStatus, ExamAccess, Attempts, access_of, result_of}
use vmlc_backend.Vmlc.Attempt.{
  created, integrity_error, Item, new_result, store_submission, store_answers,
}

abbrev pub submit_access : ℕ → ExamAccess → ExamAccess
submit_access now a = record a { status = AccessStatus.submitted; submitted_at = some now }

module _ (now candidate exam : ℕ) where
  -- A stored submission has marked the access.
  pub store_submission-access :
      (auto : Bool) (items : List Item) (db db' : Attempts)
      → store_submission now candidate exam auto items db ≡ (created, db')
      → first_where (access_of candidate exam) db'.accesses
        ≡ Option.map (submit_access now) (first_where (access_of candidate exam) db.accesses)
  unfolding store_submission
  store_submission-access auto items db db' h = ground (
    arith,
    first_where-update (access_of candidate exam) (submit_access now) db.accesses (λ x. refl),
  )

  -- A submission is not stored where the candidate has a result for the exam.
  pub store_submission-result :
      (auto : Bool) (items : List Item) (db : Attempts)
      → is_some (first_where (result_of candidate exam) db.results) ≡ true
      → store_submission now candidate exam auto items db ≡ (integrity_error, db)
  unfolding store_submission
  store_submission-result auto items db h = ground arith

  -- Saved answers leave a result behind.
  pub store_answers-result :
      (items : List Item) (db : Attempts)
      → is_some (
          first_where
            (result_of candidate exam)
            (store_answers now candidate exam items db).results)
        ≡ true
  unfolding store_answers
  store_answers-result items db =
      let r = new_result db.next_result now candidate exam false in
      ground (arith, first_where-append (result_of candidate exam) db.results (r ∷ []))
