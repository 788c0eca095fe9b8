-- ===== src/Vmlc/Attempt/Taking.antt =====
-- Taking an exam, and the expiry of an attempt that is not submitted.
use vmlc_backend.Prelude.{
  ℕ, ◌+◌, ◌*◌, ◌≤◌, ◌≡◌, ◌≢◌, refl, ◌∙◌, subst, sym, Bool, true, false, ◌&&◌, Option, none, some,
  List, arith, ◌==◌, ==_refl, if◌then◌else◌, inl, inr, Option-cases, first_where,
  first_where-updated, any_of, any_of-append, update_where,
}
use vmlc_backend.Competition.Model.{Candidate}
use vmlc_backend.Competition.Eligibility.{Rules, Verdict, get_or_create_access, can_take_exam}
use vmlc_backend.Competition.Eligibility.Guards.{IsPermitted, can_take_exam-allowed}
use vmlc_backend.Competition.Eligibility.Access.{get_or_create_access-stored}
use vmlc_backend.Vmlc.Model.{AccessStatus, is_started, ExamAccess, Attempts, access_of}
use vmlc_backend.Vmlc.Exam.{Exam, minute}
use vmlc_backend.Vmlc.Attempt.Submit.{submit_finished, auto_save_finished, auto_save_refused}
use vmlc_backend.Vmlc.Attempt.{
  grace, Item, created, saved, submit, auto_save, taken, type_error, Delivery, can_start,
  start_access, take_exam, mark_expired,
}

abbrev pub started : ℕ → ℕ → ExamAccess → ExamAccess
started now minutes a = record a {
  status = AccessStatus.started;
  started_at = some now;
  deadline = some (now + minutes * minute);
}

-- The stored attempt, once a candidate has begun it.
pub record IsBegun (now candidate : ℕ) (e : Exam) (a : ExamAccess) (s : Delivery) : Type 0 where
  pub minutes : ℕ
  pub countdown : e.countdown_minutes ≡ some minutes
  pub row :
      first_where (access_of candidate e.id) s.attempts.accesses ≡ some (started now minutes a)
  pub expiry :
      any_of (λ x. x.0 == a.id && x.1 == now + minutes * minute + grace) s.expirations ≡ true

start_access-IsBegun :
    (now minutes candidate : ℕ) (e : Exam) (a : ExamAccess) (s : Delivery)
    → e.countdown_minutes ≡ some minutes
    → first_where (access_of candidate e.id) s.attempts.accesses ≡ some a
    → IsBegun now candidate e a (start_access now a minutes s)
unfolding start_access
start_access-IsBegun now minutes candidate e a s m h = record {
  minutes = minutes;
  countdown = m;
  row =
      first_where-updated (access_of candidate e.id) (λ b. b.id == a.id) (started now minutes)
        s.attempts.accesses a (λ x. refl) h
      ∙ rw (==_refl a.id);
  expiry =
      any_of-append _ s.expirations _
      ∙ ground (arith, ==_refl a.id, ==_refl (now + minutes * minute + grace));
}

module _ (now : ℕ) (rules : Rules) (c : Candidate) (e : Exam) (s : Delivery) where
  abbrev pub attempt : ExamAccess
  attempt = (get_or_create_access c.pk e.id s.attempts).0

  abbrev pub after_check : Delivery
  after_check = record s { attempts = (get_or_create_access c.pk e.id s.attempts).1 }

  -- The verdict behind an exam that was handed out.
  verdict_of :
      (s' : Delivery)
      → take_exam now rules c e s ≡ (taken, s')
      → (v : Verdict) × (db : Attempts) × (can_take_exam now rules c e s.attempts ≡ some (v, db))
        × (v.reason ≡ none)
  unfolding take_exam
  verdict_of s' h = elim (Option-cases (can_take_exam now rules c e s.attempts)) [
    | inl n ↦ absurd (ground arith)
    | inr ((v, db), q) ↦ (v, db, q, ground arith)
  ]

  handed_out :
      (db : Attempts) (v : Verdict) (a : ExamAccess)
      → can_take_exam now rules c e s.attempts ≡ some (v, db)
      → v.reason ≡ none
      → v.access ≡ some a
      → take_exam now rules c e s ≡ (
          if can_start a.status
          then elim e.countdown_minutes [
            | none ↦ (type_error, record s { attempts = db })
            | some minutes ↦ (taken, start_access now a minutes (record s { attempts = db }))
          ]
          else (taken, record s { attempts = db }))
  unfolding take_exam
  handed_out db v a q r k = ground (arith, q, r, k)

  -- The attempt begins when the exam is handed out.
  take_exam-begins :
      (s' : Delivery)
      → take_exam now rules c e s ≡ (taken, s')
      → can_start attempt.status ≡ true
      → IsBegun now c.pk e attempt s'
  take_exam-begins s' h fresh =
      let (v, db, q, r) = verdict_of s' h in
      let (given, left, permitted) = can_take_exam-allowed now rules c e s.attempts db v q r in
      let out : take_exam now rules c e s ≡ (
          if can_start attempt.status
          then elim e.countdown_minutes [
            | none ↦ (type_error, record s { attempts = db })
            | some minutes ↦ (taken, start_access now attempt minutes (record s { attempts = db }))
          ]
          else (taken, record s { attempts = db })) =
        handed_out db v attempt q r given in
      elim (Option-cases e.countdown_minutes) [
        | inl n ↦ absurd (ground (arith, out, h, fresh, n))
        | inr (m, k) ↦
            let same : start_access now attempt m (record s { attempts = db }) ≡ s' =
              ground (arith, out, h, fresh, k) in
            subst (IsBegun now c.pk e attempt) same (
              start_access-IsBegun now m c.pk e attempt (record s { attempts = db }) k
                (subst (λ d. first_where (access_of c.pk e.id) d.accesses ≡ some attempt) (sym left)
                  (get_or_create_access-stored c.pk e.id s.attempts)))
      ]

  -- An exam is handed out only to a candidate who is permitted to take it, whatever the status of the
  -- attempt. If the attempt had not begun, it is then STARTED at that time, with the exam's countdown as
  -- its deadline, and its expiry is in the queue for the end of the grace period; if it had begun
  -- before, nothing changes but that the attempt is stored.
  pub take_exam-IsBegun :
      (s' : Delivery)
      → take_exam now rules c e s ≡ (taken, s')
      → IsPermitted now rules c e attempt
        × (can_start attempt.status ≡ true → IsBegun now c.pk e attempt s')
        × (can_start attempt.status ≡ false → s' ≡ after_check)
  take_exam-IsBegun s' h =
      let (v, db, q, r) = verdict_of s' h in
      let (given, left, permitted) = can_take_exam-allowed now rules c e s.attempts db v q r in
      (
        permitted,
        take_exam-begins s' h,
        λ begun. ground (arith, handed_out db v attempt q r given, h, begun, left),
      )

abbrev pub expired : ExamAccess → ExamAccess
expired a = record a { status = AccessStatus.expired }

abbrev expire : ℕ → Attempts → Attempts
expire access db = record db { accesses = update_where (λ b. b.id == access) expired db.accesses }

mark_expired-due :
    (later d : ℕ) (a : ExamAccess) (db : Attempts)
    → first_where (λ b. b.id == a.id) db.accesses ≡ some a
    → is_started a.status ≡ true
    → a.deadline ≡ some d
    → d ≤ later
    → mark_expired later a.id db ≡ some (expire a.id db)
unfolding mark_expired
mark_expired-due later d a db h st dl due = ground (arith, h, st, dl)

-- If a candidate has begun an attempt, whose row is the one that its identifier finds, and has not
-- submitted it, then the expiry task, run at the deadline or later, succeeds and makes the attempt
-- EXPIRED. In the tables that it leaves both views refuse whatever they are sent, at whatever time, and
-- change nothing.
pub take_exam-expiry :
    (now later t m : ℕ) (rules : Rules) (c : Candidate) (e : Exam) (s s' : Delivery)
    (auto : Option Bool) (items : List Item)
    → take_exam now rules c e s ≡ (taken, s')
    → can_start (attempt now rules c e s).status ≡ true
    → e.countdown_minutes ≡ some m
    → first_where (λ b. b.id == (attempt now rules c e s).id) s'.attempts.accesses
      ≡ some (started now m (attempt now rules c e s))
    → now + m * minute ≤ later
    → (db : Attempts) × (mark_expired later (attempt now rules c e s).id s'.attempts ≡ some db)
      × (first_where (access_of c.pk e.id) db.accesses
          ≡ some (expired (started now m (attempt now rules c e s))))
      × ((submit t c.pk e auto items db).0 ≢ created)
      × ((submit t c.pk e auto items db).1 ≡ db)
      × ((n : ℕ) → (auto_save t c.pk e items db).0 ≢ saved n)
      × ((auto_save t c.pk e items db).1 ≡ db)
take_exam-expiry now later t m rules c e s s' auto items h fresh cd by_id due =
    let a : ExamAccess = attempt now rules c e s in
    let b : IsBegun now c.pk e a s' = take_exam-begins now rules c e s s' h fresh in
    let same : b.minutes ≡ m = cc in
    let row : first_where (access_of c.pk e.id) s'.attempts.accesses ≡ some (started now m a) =
      subst (λ n. first_where (access_of c.pk e.id) s'.attempts.accesses ≡ some (started now n a))
        same b.row in
    let db : Attempts = expire a.id s'.attempts in
    let closed : first_where (access_of c.pk e.id) db.accesses ≡ some (expired (started now m a)) =
      first_where-updated (access_of c.pk e.id) (λ x. x.id == a.id) expired s'.attempts.accesses
        (started now m a) (λ x. refl) row
      ∙ rw (==_refl a.id) in
    (
      db,
      mark_expired-due later (now + m * minute) (started now m a) s'.attempts by_id refl refl due,
      closed,
      (submit_finished t c.pk e items db closed refl auto).1,
      (submit_finished t c.pk e items db closed refl auto).0,
      auto_save_refused t c.pk e items db closed refl,
      auto_save_finished t c.pk e items db closed refl,
    )
