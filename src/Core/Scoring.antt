-- ===== src/Core/Scoring.antt =====
-- core/utils/functions.py: the automatic score of an attempt. `percent c t` stands for
-- `round((c / t) * 100, 2)`, in hundredths: float division is not the program's own code.
pub mod Bounds
pub mod Complete
mod Tests
use vmlc_backend.Prelude.{
  ℕ, ◌+◌, Bool, true, false, not, ◌&&◌, Option, none, some, List, [], ◌∷◌, ◌++◌, ◌==◌,
  if◌then◌else◌, select, update_where, first_where, count_of, length, map,
}
use vmlc_backend.Prelude.Text.{Text, strip, upper, text_eq}
use vmlc_backend.Vmlc.Model.{
  Question, is_submitted, ExamAccess, ExamResult, Answer, Attempts, result_of,
}

abbrev pub find_question : List Question → ℕ → Option Question
find_question qs i = first_where (λ q. q.id == i) qs

-- `question__is_archived=False`
abbrev pub is_open_question : List Question → ℕ → Bool
is_open_question qs i = elim (find_question qs i) [ none ↦ false | some q ↦ not q.is_archived ]

-- `exam.questions.filter(is_archived=False)`
pub open_questions : Attempts → ℕ → List ℕ
open_questions db exam =
    select (is_open_question db.questions)
      (map (λ l. l.1) (select (λ l. l.0 == exam) db.exam_questions))

-- `(answer.selected_option or "").strip().upper()`
abbrev pub cleaned : Option Text → Text
cleaned none = upper (strip [])
cleaned (some t) = upper (strip t)

abbrev pub is_correct : List Question → Answer → Bool
is_correct qs a = elim (find_question qs a.question) [
  | none ↦ false
  | some q ↦ text_eq (cleaned a.selected_option) (upper (strip q.correct_answer))
]

-- `submitted_answers`
pub submitted_answers : Attempts → ℕ → List Answer
submitted_answers db result =
    select (λ a. a.result == result && is_open_question db.questions a.question) db.answers

module _ (percent : ℕ → ℕ → ℕ) where
  -- The score that `_compute_and_save_candidate_exam_result` gives to a result.
  pub auto_score : Attempts → ExamResult → ℕ
  unfolding open_questions submitted_answers
  auto_score db r =
      let total = length (open_questions db r.exam) in
      if total == 0
      then 0
      else percent (count_of (is_correct db.questions) (submitted_answers db r.id)) total

  -- `_compute_and_save_candidate_exam_result`
  pub compute_and_save : ℕ → ExamResult → Attempts → Attempts
  unfolding auto_score
  compute_and_save now r db = record db {
    results =
        update_where (λ s. s.id == r.id)
          (λ s. record s { score = auto_score db r; auto_score = true; recorded_at = now })
          db.results;
  }

  -- One round of the loop of `compute_exam_results`.
  pub score_access : ℕ → ExamAccess → Attempts → Attempts
  unfolding compute_and_save
  score_access now a db = elim (first_where (result_of a.candidate a.exam) db.results) [
    | some r ↦ compute_and_save now r db
    | none ↦
        let r : ExamResult = record {
          id = db.next_result;
          candidate = a.candidate;
          exam = a.exam;
          score = 0;
          is_auto_submit = false;
          auto_score = false;
          recorded_at = now;
        } in
        compute_and_save now r
          (record db { results = db.results ++ r ∷ []; next_result = db.next_result + 1 })
  ]

  unfoldable pub score_accesses : ℕ → List ExamAccess → Attempts → Attempts
  score_accesses now [] db = db
  score_accesses now (a ∷ as') db = score_accesses now as' (score_access now a db)

  -- `compute_exam_results`, for an exam that exists.
  unfoldable pub compute_exam_results : ℕ → ℕ → Attempts → Attempts
  unfolding score_accesses score_access
  compute_exam_results now exam db =
      score_accesses now (select (λ a. a.exam == exam && is_submitted a.status) db.accesses) db
