-- ===== src/Core/Scoring/Tests.antt =====
-- Examples for the scoring: one question, one submitted access, one right answer.
use vmlc_backend.Prelude.{
  ℕ, ◌≤◌, ◌≡◌, refl, true, false, none, some, [], ◌∷◌, ◌==◌, arith, All, count_of, if◌then◌else◌,
}
use vmlc_backend.Prelude.Text.{strip, upper}
use vmlc_backend.Vmlc.Model.{AccessStatus, ExamAccess, ExamResult, Attempts}
use vmlc_backend.Core.Scoring.{open_questions, submitted_answers, auto_score, compute_exam_results}
use vmlc_backend.Core.Scoring.Bounds.{answer_to, auto_score-bound}
use vmlc_backend.Core.Scoring.Complete.{IsScored, is_scored_access, compute_exam_results-IsScored}

-- All or nothing, as a stand-in for the rounded percentage.
abbrev whole : ℕ → ℕ → ℕ
whole c t = if c == t then 10000 else 0

abbrev submitted : ExamAccess
submitted = record {
  id = 1;
  exam = 5;
  candidate = 9;
  status = AccessStatus.submitted;
  started_at = some 1500;
  deadline = some 2500;
  submitted_at = some 2000;
  proctoring_status = none;
  is_manually_reviewed = false;
  is_unlocked = false;
}

abbrev result : ExamResult
result = record {
  id = 4;
  candidate = 9;
  exam = 5;
  score = 0;
  is_auto_submit = false;
  auto_score = false;
  recorded_at = 2000;
}

abbrev tables : Attempts
tables = record {
  questions = record { id = 3; correct_answer = b'A' ∷ []; is_archived = false } ∷ [];
  exam_questions = (5, 3) ∷ [];
  accesses = submitted ∷ [];
  results = result ∷ [];
  answers = record { result = 4; question = 3; selected_option = some (b'a' ∷ []) } ∷ [];
  next_access = 2;
  next_result = 5;
}

right_answer : auto_score whole tables result ≡ 10000
unfolding auto_score open_questions submitted_answers strip upper
right_answer = refl

whole-le : (c t : ℕ) → c ≤ t → whole c t ≤ 10000
whole-le c t h = ground arith

answered_once : (q : ℕ) → count_of (answer_to 4 q) tables.answers ≤ 1
answered_once q = ground arith

auto_score-bound_example : auto_score whole tables result ≤ 10000
auto_score-bound_example =
    auto_score-bound whole tables result whole-le answered_once ((λ h. refl), tt)

compute_exam_results-IsScored_example :
    All
      (λ a.
        is_scored_access 5 a ≡ true
        → IsScored whole
            (compute_exam_results whole 3000 5 tables)
            a.candidate
            5
            (compute_exam_results whole 3000 5 tables).results)
      tables.accesses
compute_exam_results-IsScored_example = compute_exam_results-IsScored whole 3000 5 tables
