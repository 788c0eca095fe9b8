-- ===== src/Vmlc/Attempt/Handlers.antt =====
-- What each handler, and the expiry task, keep of the attempts.
use vmlc_backend.Prelude.{
  ℕ, ◌≡◌, refl, subst, Bool, true, false, not, ◌&&◌, Option, none, some, List, arith, leb, ◌==◌,
  if◌then◌else◌, if-cases, update_where, first_where, Bool-cases, Option-cases, inl, inr,
}
use vmlc_backend.Competition.Model.{Candidate}
use vmlc_backend.Competition.Eligibility.{Rules, Verdict, get_or_create_access, can_take_exam}
use vmlc_backend.Vmlc.Model.{AccessStatus, is_started, ExamAccess, Attempts, access_of}
use vmlc_backend.Vmlc.Exam.{Exam, is_currently_open}
use vmlc_backend.Vmlc.Attempt.{
  Response, taken, type_error, Item, guard_access, submit, auto_save, face_capture, Delivery,
  can_start, start_access, take_exam, mark_expired, is_valid_submission, options_valid,
}
use vmlc_backend.Vmlc.Attempt.Sound.{
  IsSound, with_accesses-IsSound, get_or_create_access-IsSound, store_submission-IsSound,
  store_answers-IsSound,
}

-- What a handler answers, with sound tables.
abbrev KeepsSound : Response × Attempts → Type 0
KeepsSound r = IsSound r.1

pub submit-IsSound :
    (now c : ℕ) (e : Exam) (auto : Option Bool) (items : List Item) (db : Attempts)
    → IsSound db
    → IsSound (submit now c e auto items db).1
unfolding submit
submit-IsSound now c e none items db w =
    if-cases KeepsSound (not (is_valid_submission db items)) _ _ (λ _. w) (λ _. w)
submit-IsSound now c e (some flag) items db w =
    if-cases KeepsSound (not (is_valid_submission db items)) _ _ (λ _. w)
      (λ _. elim (Option-cases (first_where (access_of c e.id) db.accesses)) [
        | inl q ↦ rw q w
        | inr (a, q) ↦ elim (Option-cases (guard_access now e a)) [
          | inl k ↦ rw q (rw k (store_submission-IsSound now c e.id flag items db w))
          | inr (r, k) ↦ rw q (rw k w)
        ]
      ])

pub auto_save-IsSound :
    (now c : ℕ) (e : Exam) (items : List Item) (db : Attempts)
    → IsSound db
    → IsSound (auto_save now c e items db).1
unfolding auto_save
auto_save-IsSound now c e items db w =
    if-cases KeepsSound (not (is_valid_submission db items && options_valid items)) _ _ (λ _. w)
      (λ _. elim (Option-cases (first_where (access_of c e.id) db.accesses)) [
        | inl q ↦ rw q w
        | inr (a, q) ↦ elim (Option-cases (guard_access now e a)) [
          | inl k ↦ rw q (rw k (store_answers-IsSound now c e.id items db w))
          | inr (r, k) ↦ rw q (rw k w)
        ]
      ])

pub face_capture-IsSound :
    (c : ℕ) (e : Exam) (db : Attempts) → IsSound db → IsSound (face_capture c e db).1
unfolding face_capture
face_capture-IsSound c e db w =
    with_accesses-IsSound (access_of c e.id) _ (get_or_create_access c e.id db).1 (λ a. refl)
      (λ a. (refl, refl)) (λ a h q. ground arith) (get_or_create_access-IsSound c e.id db w)

pub mark_expired-IsSound :
    (now access : ℕ) (db db' : Attempts)
    → IsSound db
    → mark_expired now access db ≡ some db'
    → IsSound db'
unfolding mark_expired
mark_expired-IsSound now access db db' w h =
    elim (Option-cases (first_where (λ a. a.id == access) db.accesses)) [
      | inl q ↦ let same : db ≡ db' = ground arith in subst IsSound same w
      | inr (a, q) ↦
          let closed =
            with_accesses-IsSound (λ b. b.id == access)
              (λ b. record b { status = AccessStatus.expired }) db (λ b. refl) (λ b. (refl, refl))
              (λ b z k. ground arith) w in
          elim (Bool-cases (is_started a.status)) [
            | inr k ↦ let same : db ≡ db' = ground arith in subst IsSound same w
            | inl k ↦ elim (Option-cases a.deadline) [
              | inl z ↦ absurd (ground arith)
              | inr (d, z) ↦ elim (Bool-cases (leb d now)) [
                | inl late ↦
                    let same : record db {
                      accesses =
                          update_where (λ b. b.id == access)
                            (λ b. record b { status = AccessStatus.expired }) db.accesses;
                    }
                        ≡ db' =
                      ground arith in
                    subst IsSound same closed
                | inr early ↦ let same : db ≡ db' = ground arith in subst IsSound same w
              ]
            ]
          ]
    ]

can_take_exam-IsSound :
    (now : ℕ) (rules : Rules) (c : Candidate) (e : Exam) (db db' : Attempts) (v : Verdict)
    → IsSound db
    → can_take_exam now rules c e db ≡ some (v, db')
    → IsSound db'
unfolding can_take_exam
can_take_exam-IsSound now rules c e db db' v w h =
    let stored = get_or_create_access-IsSound c.pk e.id db w in
    elim (Bool-cases (c.is_active && e.is_active)) [
      | inr k ↦ let same : db ≡ db' = ground arith in subst IsSound same w
      | inl k ↦ elim (Option-cases (is_currently_open now e)) [
        | inl q ↦ absurd (ground arith)
        | inr (false, q) ↦ let same : db ≡ db' = ground arith in subst IsSound same w
        | inr (true, q) ↦
            let same : (get_or_create_access c.pk e.id db).1 ≡ db' = ground arith in
            subst IsSound same stored
      ]
    ]

start_access-IsSound :
    (now minutes : ℕ) (a : ExamAccess) (s : Delivery)
    → IsSound s.attempts
    → IsSound (start_access now a minutes s).attempts
unfolding start_access
start_access-IsSound now minutes a s =
    with_accesses-IsSound (λ b. b.id == a.id) _ s.attempts (λ b. refl) (λ b. (refl, refl))
      (λ b z k. refl)

abbrev Handed : Response × Delivery → Type 0
Handed r = IsSound r.1.attempts

given_out-IsSound :
    (now : ℕ) (a : ExamAccess) (e : Exam) (s : Delivery) (db : Attempts)
    → IsSound db
    → Handed (
        if can_start a.status
        then elim e.countdown_minutes [
          | none ↦ (type_error, record s { attempts = db })
          | some minutes ↦ (taken, start_access now a minutes (record s { attempts = db }))
        ]
        else (taken, record s { attempts = db }))
given_out-IsSound now a e s db w =
    if-cases Handed (can_start a.status) _ _
      (λ _. elim (Option-cases e.countdown_minutes) [
        | inl q ↦ rw q w
        | inr (m, q) ↦ rw q (start_access-IsSound now m a (record s { attempts = db }) w)
      ])
      (λ _. w)

pub take_exam-IsSound :
    (now : ℕ) (rules : Rules) (c : Candidate) (e : Exam) (s : Delivery)
    → IsSound s.attempts
    → IsSound (take_exam now rules c e s).1.attempts
unfolding take_exam
take_exam-IsSound now rules c e s w = elim (Option-cases (can_take_exam now rules c e s.attempts)) [
  | inl q ↦ rw (take_exam, q) w
  | inr ((v, db), q) ↦
      let checked = can_take_exam-IsSound now rules c e s.attempts db v w q in
      elim (Option-cases v.reason) [
        | inr (r, k) ↦ rw (take_exam, q) (rw k checked)
        | inl k ↦ elim (Option-cases v.access) [
          | inl z ↦ rw (take_exam, q) (rw k (rw z w))
          | inr (a, z) ↦ rw (take_exam, q) (rw k (rw z (given_out-IsSound now a e s db checked)))
        ]
      ]
]
