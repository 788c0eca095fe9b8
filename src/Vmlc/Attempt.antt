-- ===== src/Vmlc/Attempt.antt =====
-- The handlers that move a candidate's attempt: `candidate_take_exam_V2` and `ExamFaceCaptureView`
-- of vmlc/views/exam.py, `SubmitAnswersV2View` and `AutoSaveAnswersV2View` of vmlc/views/answer.py,
-- and `mark_exam_access_as_expired_task` of vmlc/tasks.py. The answer views run in a transaction:
-- where they raise, the tables stay as they were. Column widths are not modelled.
pub mod Frame
pub mod Submit
pub mod Saved
pub mod Reopen
pub mod Taking
pub mod Sound
pub mod Handlers
pub mod Steps
mod Tests
use vmlc_backend.Prelude.{
  ℕ, ◌+◌, ◌*◌, Bool, true, false, not, ◌&&◌, ◌||◌, Option, none, some, List, [], ◌∷◌, ◌++◌, map,
  ◌==◌, leb, if◌then◌else◌, is_some, any_of, update_where, delete_where, first_where, length,
}
use vmlc_backend.Prelude.Text.{Text, strip, upper}
use vmlc_backend.Competition.Model.{Candidate}
use vmlc_backend.Competition.Eligibility.{
  Rules, Reason, Verdict, is_allowed, get_or_create_access, can_take_exam,
}
use vmlc_backend.Vmlc.Model.{
  Question, AccessStatus, is_started, is_finished, ExamAccess, ExamResult, Answer, Attempts,
  access_of, result_of,
}
use vmlc_backend.Vmlc.Exam.{Exam, minute, is_currently_open}

-- `GRACE_PERIOD_MINUTES` of core/utils/cache.py, in microseconds.
abbrev pub grace : ℕ
grace = 600000000

-- What a handler answers. The last five end the request with an exception.
pub data Response : Type 0 where
  created : Response
  saved : ℕ → Response
  taken : Response
  uploaded : Response
  invalid no_access already_finished closed : Response
  refused : Reason → Response
  integrity_error type_error key_error : Response

-- One answer of a request: a question and the text of `selected_option`, which may be missing.
abbrev pub Item : Type 0
Item = ℕ × Option Text

-- `answer_data.get("selected_option", "").strip().upper()`
unfoldable pub chosen : Option Text → Text
chosen none = upper (strip [])
chosen (some t) = upper (strip t)

abbrev pub questions_exist : List Question → List Item → Bool
questions_exist qs [] = true
questions_exist qs ((q, t) ∷ items) = any_of (λ r. r.id == q) qs && questions_exist qs items

abbrev pub is_empty {ℓ} : {A : Type ℓ} → List A → Bool
is_empty [] = true
is_empty (x ∷ xs) = false

-- `CandidateAnswerBulkSerializer`: there is an answer, and every question exists.
abbrev pub is_valid_submission : Attempts → List Item → Bool
is_valid_submission db items = not (is_empty items) && questions_exist db.questions items

-- `valid_options` of the auto-save serializer: nothing, or one of A, B, C, D.
abbrev pub is_option : Text → Bool
is_option [] = true
is_option (c ∷ []) = leb b'A' c && leb c b'D'
is_option (c ∷ d ∷ t) = false

abbrev pub options_valid : List Item → Bool
options_valid [] = true
options_valid ((q, t) ∷ items) = is_option (chosen t) && options_valid items

-- `is_within_personal_time`; `none` is the TypeError of a start without a deadline.
abbrev pub is_within_personal_time : ℕ → ExamAccess → Option Bool
is_within_personal_time now a = elim a.started_at [
  | none ↦ some false
  | some s ↦ elim a.deadline [ none ↦ none | some d ↦ some (leb now (d + grace)) ]
]

-- The guards that both answer views share, in their order. None: the handler goes on.
abbrev pub guard_open : ℕ → Exam → ExamAccess → Option Response
guard_open now e a = elim (is_currently_open now e) [
  | none ↦ some type_error
  | some open_now ↦ elim (is_within_personal_time now a) [
    | none ↦ some type_error
    | some in_time ↦ if not open_now && not in_time then some closed else none
  ]
]

abbrev pub guard_access : ℕ → Exam → ExamAccess → Option Response
guard_access now e a = if is_finished a.status then some already_finished else guard_open now e a

abbrev pub new_result : ℕ → ℕ → ℕ → ℕ → Bool → ExamResult
new_result id now candidate exam auto = record {
  id = id;
  candidate = candidate;
  exam = exam;
  score = 0;
  is_auto_submit = auto;
  auto_score = false;
  recorded_at = now;
}

abbrev pub new_answers : ℕ → List Item → List Answer
new_answers result [] = []
new_answers result ((q, t) ∷ items) =
    record { result = result; question = q; selected_option = some (chosen t) }
    ∷ new_answers result items

-- Two answers to one question violate "unique_answer_per_candidate_exam_result".
abbrev pub has_repeats : List Item → Bool
has_repeats [] = false
has_repeats ((q, t) ∷ items) = any_of (λ i. i.0 == q) items || has_repeats items

-- `objects.create` and `bulk_create`, with the unique constraints of both tables.
unfoldable pub store_submission : ℕ → ℕ → ℕ → Bool → List Item → Attempts → Response × Attempts
store_submission now candidate exam auto items db =
    if is_some (first_where (result_of candidate exam) db.results) || has_repeats items
    then (integrity_error, db)
    else (
      created,
      record db {
        results = db.results ++ new_result db.next_result now candidate exam auto ∷ [];
        answers = db.answers ++ new_answers db.next_result items;
        accesses =
            update_where (access_of candidate exam)
              (λ a. record a { status = AccessStatus.submitted; submitted_at = some now })
              db.accesses;
        next_result = db.next_result + 1;
      },
    )

-- `SubmitAnswersV2View.post` for an exam that exists. The serializer leaves a missing
-- `is_auto_submit` out of its validated data, and the view then raises KeyError.
unfoldable pub submit : ℕ → ℕ → Exam → Option Bool → List Item → Attempts → Response × Attempts
submit now candidate e auto items db =
    if not (is_valid_submission db items) then (invalid, db) else elim auto [
      | none ↦ (key_error, db)
      | some auto_submit ↦ elim (first_where (access_of candidate e.id) db.accesses) [
        | none ↦ (no_access, db)
        | some a ↦ elim (guard_access now e a) [
          | some r ↦ (r, db)
          | none ↦ store_submission now candidate e.id auto_submit items db
        ]
      ]
    ]

-- `CandidateExamResult.objects.get_or_create`
unfoldable pub get_or_create_result : ℕ → ℕ → ℕ → Attempts → ExamResult × Attempts
get_or_create_result now candidate exam db =
    elim (first_where (result_of candidate exam) db.results) [
      | some r ↦ (r, db)
      | none ↦
          let r = new_result db.next_result now candidate exam false in
          (r, record db { results = db.results ++ r ∷ []; next_result = db.next_result + 1 })
    ]

abbrev pub answer_of : ℕ → ℕ → Answer → Bool
answer_of result question a = a.result == result && a.question == question

-- `CandidateAnswer.objects.update_or_create`
abbrev pub upsert_answer : ℕ → ℕ → Text → List Answer → List Answer
upsert_answer result question t answers =
    if any_of (answer_of result question) answers
    then update_where (answer_of result question) (λ a. record a { selected_option = some t })
        answers
    else answers ++ record { result = result; question = question; selected_option = some t } ∷ []

abbrev pub upsert_answers : ℕ → List Item → List Answer → List Answer
upsert_answers result [] answers = answers
upsert_answers result ((q, t) ∷ items) answers =
    upsert_answers result items (upsert_answer result q (chosen t) answers)

unfoldable pub store_answers : ℕ → ℕ → ℕ → List Item → Attempts → Attempts
unfolding get_or_create_result
store_answers now candidate exam items db =
    let (r, db') = get_or_create_result now candidate exam db in
    record db' { answers = upsert_answers r.id items db'.answers }

-- `AutoSaveAnswersV2View.post` for an exam that exists.
unfoldable pub auto_save : ℕ → ℕ → Exam → List Item → Attempts → Response × Attempts
unfolding store_answers
auto_save now candidate e items db =
    if not (is_valid_submission db items && options_valid items)
    then (invalid, db)
    else elim (first_where (access_of candidate e.id) db.accesses) [
      | none ↦ (no_access, db)
      | some a ↦ elim (guard_access now e a) [
        | some r ↦ (r, db)
        | none ↦ (saved (length items), store_answers now candidate e.id items db)
      ]
    ]

-- `ExamFaceCaptureView.post` for an exam that exists and a valid image.
unfoldable pub face_capture : ℕ → Exam → Attempts → Response × Attempts
unfolding get_or_create_access
face_capture candidate e db =
    let (a, db') = get_or_create_access candidate e.id db in
    (
      uploaded,
      record db' {
        accesses =
            update_where (access_of candidate e.id)
              (λ b. record b { status = AccessStatus.pending }) db'.accesses;
      },
    )

-- The tables, the access of each heartbeat, and the expirations that the queue holds: an access
-- and the time at which its task runs.
pub record Delivery : Type 0 where
  pub attempts : Attempts
  pub heartbeats : List ℕ
  pub expirations : List (ℕ × ℕ)

abbrev pub can_start : AccessStatus → Bool
can_start AccessStatus.pending = true
can_start AccessStatus.issued = true
can_start _ = false

-- The block of `candidate_take_exam_V2` for an access that is PENDING or ISSUED.
unfoldable pub start_access : ℕ → ExamAccess → ℕ → Delivery → Delivery
start_access now a minutes s = record s {
  attempts = record (s.attempts) {
    accesses =
        update_where (λ b. b.id == a.id)
          (λ b. record b {
            status = AccessStatus.started;
            started_at = some now;
            deadline = some (now + minutes * minute);
          })
          s.attempts.accesses;
  };
  heartbeats = delete_where (λ h. h == a.id) s.heartbeats;
  expirations = s.expirations ++ (a.id, now + minutes * minute + grace) ∷ [];
}

-- `candidate_take_exam_V2` for an exam that exists; its `countdown_minutes` may be unset.
unfoldable pub take_exam : ℕ → Rules → Candidate → Exam → Delivery → Response × Delivery
unfolding start_access
take_exam now rules c e s = elim (can_take_exam now rules c e s.attempts) [
  | none ↦ (type_error, s)
  | some (verdict, db) ↦ elim verdict.reason [
    | some r ↦ (refused r, record s { attempts = db })
    | none ↦ elim verdict.access [
      | none ↦ (type_error, s)
      | some a ↦
          if can_start a.status
          then elim e.countdown_minutes [
            | none ↦ (type_error, record s { attempts = db })
            | some minutes ↦ (taken, start_access now a minutes (record s { attempts = db }))
          ]
          else (taken, record s { attempts = db })
    ]
  ]
]

-- `mark_exam_access_as_expired_task`; `none` is the TypeError of a missing deadline.
unfoldable pub mark_expired : ℕ → ℕ → Attempts → Option Attempts
mark_expired now access db = elim (first_where (λ a. a.id == access) db.accesses) [
  | none ↦ some db
  | some a ↦ if not (is_started a.status) then some db else elim a.deadline [
    | none ↦ none
    | some d ↦
        if leb d now
        then some (record db {
          accesses =
              update_where (λ b. b.id == access) (λ b. record b { status = AccessStatus.expired })
                db.accesses;
        })
        else some db
  ]
]
