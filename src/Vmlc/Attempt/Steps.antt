-- ===== src/Vmlc/Attempt/Steps.antt =====
-- The attempts as a system of steps: every handler and the expiry task, in any order, at any times and
-- with any rules. What the administration does to the tables is not among the steps.
mod Tests
use vmlc_backend.Prelude.{
  ℕ, ◌+◌, ◌*◌, ◌≤◌, ◌≡◌, ◌≢◌, Bool, true, Option, none, some, List, [], ◌∷◌, arith, ◌==◌, ==_refl,
  subst, ap, All, All-map, first_where, first_where-All, count_of, Bool-cases, Option-cases, inl,
  inr,
}
use vmlc_backend.Competition.Model.{Candidate}
use vmlc_backend.Competition.Eligibility.{Rules}
use vmlc_backend.Vmlc.Model.{Question, ExamAccess, Attempts, access_of}
use vmlc_backend.Vmlc.Exam.{Exam, minute}
use vmlc_backend.Vmlc.Attempt.{
  Item, created, saved, taken, is_within_personal_time, submit, auto_save, face_capture, Delivery,
  can_start, take_exam, mark_expired,
}
use vmlc_backend.Vmlc.Attempt.Sound.{is_timed, IsSound}
use vmlc_backend.Vmlc.Attempt.Handlers.{
  submit-IsSound, auto_save-IsSound, face_capture-IsSound, mark_expired-IsSound, take_exam-IsSound,
}
use vmlc_backend.Vmlc.Attempt.Taking.{
  attempt, started, expired, IsBegun, take_exam-IsBegun, take_exam-expiry,
}

abbrev pub with_attempts : Delivery → Attempts → Delivery
with_attempts s db = record s { attempts = db }

-- A request of a candidate, or a run of the expiry task that succeeds.
pub data Step (s : Delivery) : Delivery → Type 0 where
  took : (now : ℕ) (rules : Rules) (c : Candidate) (e : Exam) → Step s (take_exam now rules c e s).1
  submitted :
      (now c : ℕ) (e : Exam) (auto : Option Bool) (items : List Item)
      → Step s (with_attempts s (submit now c e auto items s.attempts).1)
  saved_answers :
      (now c : ℕ) (e : Exam) (items : List Item)
      → Step s (with_attempts s (auto_save now c e items s.attempts).1)
  captured : (c : ℕ) (e : Exam) → Step s (with_attempts s (face_capture c e s.attempts).1)
  ran_expiry :
      (now access : ℕ) (db : Attempts)
      → mark_expired now access s.attempts ≡ some db
      → Step s (with_attempts s db)

-- The questions of the exams, and nothing else.
abbrev pub before_exams : List Question → List (ℕ × ℕ) → Delivery
before_exams questions exam_questions = record {
  attempts = record {
    questions = questions;
    exam_questions = exam_questions;
    accesses = [];
    results = [];
    answers = [];
    next_access = 1;
    next_result = 1;
  };
  heartbeats = [];
  expirations = [];
}

pub data Reach : Delivery → Type 0 where
  start : (questions : List Question) (links : List (ℕ × ℕ)) → Reach (before_exams questions links)
  later : {s t : Delivery} → Reach s → Step s t → Reach t

Step-IsSound : {s t : Delivery} → Step s t → IsSound s.attempts → IsSound t.attempts
Step-IsSound {s} (took now rules c e) w = take_exam-IsSound now rules c e s w
Step-IsSound {s} (submitted now c e auto items) w = submit-IsSound now c e auto items s.attempts w
Step-IsSound {s} (saved_answers now c e items) w = auto_save-IsSound now c e items s.attempts w
Step-IsSound {s} (captured c e) w = face_capture-IsSound c e s.attempts w
Step-IsSound {s} (ran_expiry now access db h) w = mark_expired-IsSound now access s.attempts db w h

-- Whatever requests and expiry tasks have run, in whatever order: a candidate has at most one access
-- and at most one result for an exam, the identifiers of the accesses are unique, an access has a start
-- exactly if it has a deadline, and one that is STARTED has them.
pub Reach-IsSound : {s : Delivery} → Reach s → IsSound s.attempts
Reach-IsSound (start questions links) = record {
  accesses = record {
    timed = tt;
    fresh = tt;
    unique_ids = λ id. omega arith;
    unique_pairs = λ c x. omega arith;
  };
  unique_results = λ c x. omega arith;
}
Reach-IsSound (later r st) = Step-IsSound st (Reach-IsSound r)

-- In a reachable state no access makes the check of the personal time fail, and the expiry task of no
-- access fails, at whatever time.
pub Reach-no_error :
    (now id : ℕ) (s : Delivery)
    → Reach s
    → All (λ a. is_within_personal_time now a ≢ none) s.attempts.accesses
      × (mark_expired now id s.attempts ≢ none)
unfolding mark_expired
Reach-no_error now id s r =
    let timed = (Reach-IsSound r).accesses.timed in
    (
      All-map (λ a h k. ground arith) s.attempts.accesses timed,
      elim (Option-cases (first_where (λ a. a.id == id) s.attempts.accesses)) [
        | inl q ↦ λ k. ground arith
        | inr (a, q) ↦
            let t =
              first_where-All (λ x. is_timed x ≡ true) (λ x. x.id == id) s.attempts.accesses timed
                q in
            λ k. ground arith
      ],
    )

found_counted :
    (p : ExamAccess → Bool) (as' : List ExamAccess) (a : ExamAccess)
    → first_where p as' ≡ some a
    → 1 ≤ count_of (λ x. x.id == a.id) as'
found_counted p [] a h = absurd (cc)
found_counted p (x ∷ rest) a h = elim (Bool-cases (p x)) [
  | inl e ↦
      let q : x ≡ a = ground arith in
      subst (λ b. 1 ≤ count_of (λ y. y.id == b.id) (x ∷ rest)) q (ground (arith, ==_refl x.id))
  | inr e ↦
      let k : first_where p rest ≡ some a = rw e at h in ground (arith, found_counted p rest a k)
]

-- Where identifiers are unique, that of a row finds the row.
by_id :
    (p : ExamAccess → Bool) (as' : List ExamAccess) (a : ExamAccess)
    → ((id : ℕ) → count_of (λ x. x.id == id) as' ≤ 1)
    → first_where p as' ≡ some a
    → first_where (λ x. x.id == a.id) as' ≡ some a
by_id p [] a once h = absurd (cc)
by_id p (x ∷ rest) a once h = elim (Bool-cases (p x)) [
  | inl e ↦
      let q : x ≡ a = ground arith in
      subst (λ b. first_where (λ y. y.id == b.id) (x ∷ rest) ≡ some b) q
        (ground (arith, ==_refl x.id))
  | inr e ↦
      let k : first_where p rest ≡ some a = rw e at h in
      ground (
        arith,
        once a.id,
        found_counted p rest a k,
        by_id p rest a (λ id. ground (arith, once id)) k,
      )
]

-- In a reachable state: when a candidate begins an exam with a countdown, the expiry task, run at the
-- deadline or later with nothing in between, succeeds and makes the attempt EXPIRED. In the tables that
-- it leaves both views refuse whatever the candidate sends for the exam, at whatever time, and change
-- nothing.
pub Reach-expiry :
    (now after t m : ℕ) (rules : Rules) (c : Candidate) (e : Exam) (s s' : Delivery)
    (auto : Option Bool) (items : List Item)
    → Reach s
    → take_exam now rules c e s ≡ (taken, s')
    → can_start (attempt now rules c e s).status ≡ true
    → e.countdown_minutes ≡ some m
    → now + m * minute ≤ after
    → (db : Attempts) × (mark_expired after (attempt now rules c e s).id s'.attempts ≡ some db)
      × (first_where (access_of c.pk e.id) db.accesses
          ≡ some (expired (started now m (attempt now rules c e s))))
      × ((submit t c.pk e auto items db).0 ≢ created)
      × ((submit t c.pk e auto items db).1 ≡ db)
      × ((n : ℕ) → (auto_save t c.pk e items db).0 ≢ saved n)
      × ((auto_save t c.pk e items db).1 ≡ db)
Reach-expiry now after t m rules c e s s' auto items r h fresh cd due =
    let sound : IsSound s'.attempts =
      subst (λ x. IsSound x.attempts) (ap (λ x. x.1) h)
        (take_exam-IsSound now rules c e s (Reach-IsSound r)) in
    let b : IsBegun now c.pk e (attempt now rules c e s) s' =
      (take_exam-IsBegun now rules c e s s' h).1 fresh in
    let same : b.minutes ≡ m = cc in
    let row =
      subst
        (λ n.
          first_where (access_of c.pk e.id) s'.attempts.accesses
          ≡ some (started now n (attempt now rules c e s)))
        same b.row in
    take_exam-expiry now after t m rules c e s s' auto items h fresh cd
      (by_id (access_of c.pk e.id) s'.attempts.accesses (started now m (attempt now rules c e s))
        sound.accesses.unique_ids row)
      due
