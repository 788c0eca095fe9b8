-- ===== src/Core/Scoring/Bounds.antt =====
-- The range of an automatic score.
use vmlc_backend.Prelude.{
  ℕ, suc, ◌≤◌, ◌≡◌, refl, Bool, true, false, ◌&&◌, List, [], ◌∷◌, map, arith, ◌==◌, inl, inr,
  Bool-cases, if-cases, sym, subst, is_in, select, delete_where, count_of, count_of-le-length,
  length, All,
}
use vmlc_backend.Vmlc.Model.{ExamResult, Answer, Attempts}
use vmlc_backend.Core.Scoring.{
  is_open_question, open_questions, submitted_answers, is_correct, auto_score,
}

-- A list without repeats is no longer than a list that has all its elements.
abbrev IsDistinct : List ℕ → Type 0
IsDistinct [] = Unit
IsDistinct (x ∷ xs) = (is_in x xs ≡ false) × IsDistinct xs

length-delete_where :
    (x : ℕ) (ys : List ℕ)
    → (length (delete_where (λ y. y == x) ys) ≤ length ys)
      × (is_in x ys ≡ true → suc (length (delete_where (λ y. y == x) ys)) ≤ length ys)
length-delete_where x [] = (omega arith, λ h. absurd (cc))
length-delete_where x (y ∷ ys) =
    let (a, b) = length-delete_where x ys in (ground (arith, a), λ h. ground (arith, a, b))

is_in-delete_where :
    (x z : ℕ) (ys : List ℕ)
    → (z == x) ≡ false
    → is_in z ys ≡ true
    → is_in z (delete_where (λ y. y == x) ys) ≡ true
is_in-delete_where x z [] h k = absurd (cc)
is_in-delete_where x z (y ∷ ys) h k = ground (arith, is_in-delete_where x z ys h)

All-delete_where :
    (x : ℕ) (xs ys : List ℕ)
    → is_in x xs ≡ false
    → All (λ z. is_in z ys ≡ true) xs
    → All (λ z. is_in z (delete_where (λ y. y == x) ys) ≡ true) xs
All-delete_where x [] ys h k = tt
All-delete_where x (z ∷ xs) ys h k =
    (is_in-delete_where x z ys (ground arith) k.0, All-delete_where x xs ys (ground arith) k.1)

length-IsDistinct :
    (xs ys : List ℕ) → IsDistinct xs → All (λ z. is_in z ys ≡ true) xs → length xs ≤ length ys
length-IsDistinct [] ys h k = omega arith
length-IsDistinct (x ∷ xs) ys h k = omega (
  arith,
  (length-delete_where x ys).1 k.0,
  length-IsDistinct xs (delete_where (λ y. y == x) ys) h.1 (All-delete_where x xs ys h.0 k.1),
)

abbrev pub answer_to : ℕ → ℕ → Answer → Bool
answer_to result question a = a.result == result && a.question == question

abbrev counted : Attempts → ℕ → Answer → Bool
counted db result a = a.result == result && is_open_question db.questions a.question

abbrev question_ids : List Answer → List ℕ
question_ids as' = map (λ a. a.question) as'

-- The constraint "unique_answer_per_candidate_exam_result" makes the counted questions distinct.
repeated :
    (db : Attempts) (result q : ℕ) (as' : List Answer)
    → is_in q (question_ids (select (counted db result) as')) ≡ true
    → 1 ≤ count_of (answer_to result q) as'
repeated db result q [] h = absurd (cc)
repeated db result q (a ∷ as') h = ground (arith, repeated db result q as')

counted-IsDistinct :
    (db : Attempts) (result : ℕ) (as' : List Answer)
    → ((q : ℕ) → count_of (answer_to result q) as' ≤ 1)
    → IsDistinct (question_ids (select (counted db result) as'))
counted-IsDistinct db result [] h = tt
counted-IsDistinct db result (a ∷ as') h =
    let rest : IsDistinct (question_ids (select (counted db result) as')) =
      counted-IsDistinct db result as' (λ q. ground (arith, h q)) in
    elim (Bool-cases (counted db result a)) [
      | inl e ↦ rw e (
        elim (Bool-cases (is_in a.question (question_ids (select (counted db result) as')))) [
          | inl k ↦ absurd (ground (arith, h a.question, repeated db result a.question as' k))
          | inr k ↦ k
        ],
        rest,
      )
      | inr e ↦ rw e rest
    ]

is_in-select :
    (p : ℕ → Bool) (q : ℕ) (ys : List ℕ)
    → is_in q ys ≡ true
    → p q ≡ true
    → is_in q (select p ys) ≡ true
is_in-select p q [] h k = absurd (cc)
is_in-select p q (y ∷ ys) h k = elim (Bool-cases (y == q)) [
  | inl e ↦ let same : y ≡ q = ground arith in ground (arith, subst (λ x. p x ≡ true) (sym same) k)
  | inr e ↦ ground (arith, is_in-select p q ys)
]

length-question_ids : (as' : List Answer) → length (question_ids as') ≡ length as'
length-question_ids [] = refl
length-question_ids (a ∷ as') = omega (arith, length-question_ids as')

-- `exam.questions`
abbrev pub question_ids_of : Attempts → ℕ → List ℕ
question_ids_of db exam = map (λ l. l.1) (select (λ l. l.0 == exam) db.exam_questions)

counted-covered :
    (db : Attempts) (result : ℕ) (ids : List ℕ) (as' : List Answer)
    → All (λ a. a.result == result ≡ true → is_in a.question ids ≡ true) as'
    → All
        (λ q. is_in q (select (is_open_question db.questions) ids) ≡ true)
        (question_ids (select (counted db result) as'))
counted-covered db result ids [] h = tt
counted-covered db result ids (a ∷ as') h = elim (Bool-cases (counted db result a)) [
  | inl e ↦ rw e (
    is_in-select (is_open_question db.questions) a.question ids (h.0 (ground arith)) (ground arith),
    counted-covered db result ids as' h.1,
  )
  | inr e ↦ rw e (counted-covered db result ids as' h.1)
]

-- If a share of at most the whole is at most 100.00, a result has at most one answer to a question,
-- and its answers are to questions of its exam, then its automatic score is at most 100.00.
pub auto_score-bound :
    (percent : ℕ → ℕ → ℕ) (db : Attempts) (r : ExamResult)
    → ((c t : ℕ) → c ≤ t → percent c t ≤ 10000)
    → ((q : ℕ) → count_of (answer_to r.id q) db.answers ≤ 1)
    → All
        (λ a. a.result == r.id ≡ true → is_in a.question (question_ids_of db r.exam) ≡ true)
        db.answers
    → auto_score percent db r ≤ 10000
unfolding auto_score open_questions submitted_answers
auto_score-bound percent db r share once covered =
    let counted_answers : List Answer = select (counted db r.id) db.answers in
    let few : length counted_answers ≤ length (open_questions db r.exam) = omega (
      arith,
      length-question_ids counted_answers,
      length-IsDistinct (question_ids counted_answers) (open_questions db r.exam)
          (counted-IsDistinct db r.id db.answers once)
          (counted-covered db r.id (question_ids_of db r.exam) db.answers covered),
    ) in
    let right : count_of (is_correct db.questions) counted_answers ≤ length counted_answers =
      count_of-le-length (is_correct db.questions) counted_answers in
    let right_of_all : count_of (is_correct db.questions) counted_answers
        ≤ length (open_questions db r.exam) =
      omega (arith, few, right) in
    if-cases (λ s. s ≤ 10000) (length (open_questions db r.exam) == 0) 0
      (percent (count_of (is_correct db.questions) counted_answers)
        (length (open_questions db r.exam)))
      (λ _. omega arith)
      (λ _.
        share (count_of (is_correct db.questions) counted_answers)
          (length (open_questions db r.exam)) right_of_all)
