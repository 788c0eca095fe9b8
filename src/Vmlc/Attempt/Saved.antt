-- ===== src/Vmlc/Attempt/Saved.antt =====
-- Auto-saved answers: what is read back after a save.
use vmlc_backend.Prelude.{
  ℕ, ◌≡◌, refl, ap, ◌∙◌, false, ◌&&◌, Option, none, some, List, [], ◌∷◌, ◌++◌, arith, ◌==◌,
  if◌then◌else◌, inl, inr, Bool-cases, Option-cases, first_where, update_where, any_of,
  first_where-append,
}
use vmlc_backend.Prelude.Text.{Text}
use vmlc_backend.Vmlc.Model.{ExamResult, Answer, Attempts, result_of}
use vmlc_backend.Vmlc.Exam.{Exam}
use vmlc_backend.Vmlc.Attempt.{
  saved, Item, chosen, new_result, answer_of, upsert_answer, upsert_answers, get_or_create_result,
  store_answers, auto_save,
}
use vmlc_backend.Vmlc.Attempt.Submit.{auto_save-saved}

-- The option stored for a question of a result.
abbrev pub saved_text : ℕ → ℕ → List Answer → Option Text
saved_text result question [] = none
saved_text result question (a ∷ answers) =
    if answer_of result question a then a.selected_option else saved_text result question answers

-- The last option that a request gives for a question, or else the old one.
abbrev pub last_choice : ℕ → List Item → Option Text → Option Text
last_choice question [] old = old
last_choice question ((q, t) ∷ items) old =
    last_choice question items (if q == question then some (chosen t) else old)

module _ (result q j : ℕ) (t : Text) where
  saved_text-update :
      (answers : List Answer)
      → saved_text result j
          (update_where (answer_of result q) (λ a. record a { selected_option = some t }) answers)
        ≡ (if q == j && any_of (answer_of result q) answers
            then some t
            else saved_text result j answers)
  saved_text-update [] = ground arith
  saved_text-update (a ∷ answers) = ground (arith, saved_text-update answers)

  saved_text-append :
      (answers : List Answer)
      → any_of (answer_of result q) answers ≡ false
      → saved_text result j
          (answers ++ record { result = result; question = q; selected_option = some t } ∷ [])
        ≡ (if q == j then some t else saved_text result j answers)
  saved_text-append [] h = ground arith
  saved_text-append (a ∷ answers) h = ground (arith, saved_text-append answers)

  saved_text-upsert :
      (answers : List Answer)
      → saved_text result j (upsert_answer result q t answers)
        ≡ (if q == j then some t else saved_text result j answers)
  saved_text-upsert answers = elim (Bool-cases (any_of (answer_of result q) answers)) [
    | inl e ↦ rw e (ground (arith, saved_text-update answers))
    | inr e ↦ rw e (saved_text-append answers e)
  ]

saved_text-upsert_answers :
    (result j : ℕ) (items : List Item) (answers : List Answer)
    → saved_text result j (upsert_answers result items answers)
      ≡ last_choice j items (saved_text result j answers)
saved_text-upsert_answers result j [] answers = refl
saved_text-upsert_answers result j ((q, t) ∷ items) answers =
    saved_text-upsert_answers result j items (upsert_answer result q (chosen t) answers)
    ∙ ap (last_choice j items) (saved_text-upsert result q j (chosen t) answers)

-- After an auto-save the candidate has a result for the exam, under which every question reads back
-- the last option that the request gives for it, or what stood there before if it gives none.
pub auto_save-saved_text :
    (now candidate n : ℕ) (e : Exam) (items : List Item) (db db' : Attempts)
    → auto_save now candidate e items db ≡ (saved n, db')
    → (r : ExamResult) × (first_where (result_of candidate e.id) db'.results ≡ some r)
      × ((q : ℕ)
          → saved_text r.id q db'.answers ≡ last_choice q items (saved_text r.id q db.answers))
unfolding store_answers get_or_create_result
auto_save-saved_text now candidate n e items db db' h =
    let left : db' ≡ store_answers now candidate e.id items db =
      auto_save-saved now candidate e items db db' n h in
    elim (Option-cases (first_where (result_of candidate e.id) db.results)) [
      | inl missing ↦
          let r = new_result db.next_result now candidate e.id false in
          (
            r,
            ground (arith, first_where-append (result_of candidate e.id) db.results (r ∷ [])),
            λ q. ground (arith, saved_text-upsert_answers r.id q items db.answers),
          )
      | inr (r, found) ↦
          (r, ground arith, λ q. ground (arith, saved_text-upsert_answers r.id q items db.answers))
    ]
