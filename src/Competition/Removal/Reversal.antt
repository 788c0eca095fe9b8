-- ===== src/Competition/Removal/Reversal.antt =====
-- A disqualification, and its reversal.
use vmlc_backend.Prelude.{
  ℕ, opt_eq, ◌≤◌, ◌≡◌, refl, ◌∙◌, subst, Bool, true, false, ◌&&◌, Option, none, some, List, [], ◌∷◌,
  arith, inl, inr, ◌==◌, ==_refl, Bool-cases, first_where, first_where-true, update_where, count_of,
}
use vmlc_backend.Competition.Model.{
  Enrollment, EnrollmentStatus, Competition, StageProgress, ProgressStatus, is_discontinued,
}
use vmlc_backend.Competition.Promotion.{
  Tables, Result, and_then, find_competition, is_for, discontinue,
}
use vmlc_backend.Competition.Removal.{
  is_active_of, is_disqualified_of, disqualify, reinstate, resume, is_current, save_enrollment,
  disqualify_candidate, undisqualify_candidate,
}

-- The candidate's row in the competition.
abbrev pub is_row_of : ℕ → ℕ → Enrollment → Bool
is_row_of competition candidate e = is_for competition (candidate ∷ []) e

active-counted :
    (c k : ℕ) (es : List Enrollment) (e : Enrollment)
    → first_where (is_active_of c k) es ≡ some e
    → 1 ≤ count_of (is_row_of c k) es
active-counted c k [] e h = absurd (cc)
active-counted c k (x ∷ xs) e h = elim (Bool-cases (is_active_of c k x)) [
  | inl q ↦ ground arith
  | inr q ↦
      let j : first_where (is_active_of c k) xs ≡ some e = rw q at h in
      omega (arith, active-counted c k xs e j)
]

-- The disqualified row is the one that the reversal finds.
disqualified_found :
    (c k now : ℕ) (reason : Option (List ℕ)) (es : List Enrollment) (e : Enrollment)
    → count_of (is_row_of c k) es ≤ 1
    → first_where (is_active_of c k) es ≡ some e
    → first_where (is_disqualified_of c k) (save_enrollment (disqualify now reason e) es)
      ≡ some (disqualify now reason e)
disqualified_found c k now reason [] e once h = absurd (cc)
disqualified_found c k now reason (x ∷ xs) e once h =
    let ours : is_active_of c k e ≡ true = first_where-true (is_active_of c k) (x ∷ xs) h in
    elim (Bool-cases (x.id == e.id)) [
      | inl q ↦ ground arith
      | inr q ↦ elim (Bool-cases (is_active_of c k x)) [
        | inl a ↦ absurd (
            let j : x ≡ e = ground arith in
            ground (arith, ==_refl e.id, subst (λ y. (y.id == e.id) ≡ false) j q))
        | inr a ↦
            let j : first_where (is_active_of c k) xs ≡ some e = rw a at h in
            ground (arith, active-counted c k xs e j, disqualified_found c k now reason xs e)
      ]
    ]

save_twice :
    (a b : Enrollment) (es : List Enrollment)
    → b.id ≡ a.id
    → save_enrollment b (save_enrollment a es) ≡ save_enrollment b es
save_twice a b [] h = refl
save_twice a b (x ∷ xs) h = ground (arith, save_twice a b xs h, ==_refl a.id)

resume_discontinued :
    (now : ℕ) (reason : Option (List ℕ)) (e : Enrollment) (ps : List StageProgress)
    → update_where
        (λ p. is_current (disqualify now reason e) p && is_discontinued p.status)
        resume
        (update_where (is_current e) (discontinue now) ps)
      ≡ update_where (is_current e) (λ p. resume (discontinue now p)) ps
resume_discontinued now reason e [] = refl
resume_discontinued now reason e (p ∷ ps) = elim (Bool-cases (is_current e p)) [
  | inl q ↦ rw (q, resume_discontinued now reason e ps, q)
  | inr q ↦ rw (q, resume_discontinued now reason e ps, q)
]

-- The row that a reversal restores: as before, but for the time and the reason.
abbrev pub restored : ℕ → Enrollment → Enrollment
restored now e = record e {
  status = EnrollmentStatus.active;
  last_active_at = some now;
  disqualification_reason = none;
}

-- A row of progress that is in progress without a date of discontinuation.
abbrev pub running : StageProgress → StageProgress
running p = record p { status = ProgressStatus.in_progress; discontinued_at = none }

-- The tables that a disqualification and its reversal leave.
abbrev pub restored_tables : ℕ → Enrollment → Tables → Tables
restored_tables now e t = record t {
  enrollments = update_where (λ x. x.id == e.id) (λ x. restored now e) t.enrollments;
  progress =
      update_where (λ p. p.enrollment == e.id && opt_eq e.current_stage (some p.stage)) running
        t.progress;
}

abbrev disqualified_tables : ℕ → Option (List ℕ) → Enrollment → Tables → Tables
disqualified_tables now reason e t = record t {
  enrollments = save_enrollment (disqualify now reason e) t.enrollments;
  progress = update_where (is_current e) (discontinue now) t.progress;
}

disqualify_candidate-done :
    (now k : ℕ) (cid : Option ℕ) (reason : Option (List ℕ)) (t : Tables) (c : Competition)
    (e : Enrollment)
    → find_competition t cid ≡ Result.done c
    → first_where (is_active_of c.id k) t.enrollments ≡ some e
    → disqualify_candidate now k cid reason t ≡ Result.done (disqualified_tables now reason e t)
unfolding disqualify_candidate
disqualify_candidate-done now k cid reason t c e hc he = rw (disqualify_candidate, hc) (rw he)

undisqualify_candidate-done :
    (k : ℕ) (cid : Option ℕ) (t : Tables) (c : Competition) (e : Enrollment)
    → find_competition t cid ≡ Result.done c
    → first_where (is_disqualified_of c.id k) t.enrollments ≡ some e
    → undisqualify_candidate k cid t
      ≡ Result.done (record t {
        enrollments = save_enrollment (reinstate e) t.enrollments;
        progress = update_where (λ p. is_current e p && is_discontinued p.status) resume t.progress;
      })
unfolding undisqualify_candidate
undisqualify_candidate-done k cid t c e hc he = rw (undisqualify_candidate, hc) (rw he)

-- If the competition is found and the candidate has an active enrollment in it, and no second one,
-- then a disqualification succeeds, and its reversal after it. The enrollment is then as it was but for
-- the time, that of the disqualification, and the reason, which is none. Its progress in its stage is
-- IN_PROGRESS without a date of discontinuation, also where it was PENDING or COMPLETED before, and
-- everything else in the tables is as it was.
pub disqualify-undisqualify :
    (now k : ℕ) (cid : Option ℕ) (reason : Option (List ℕ)) (t : Tables) (c : Competition)
    (e : Enrollment)
    → find_competition t cid ≡ Result.done c
    → first_where (is_active_of c.id k) t.enrollments ≡ some e
    → count_of (is_row_of c.id k) t.enrollments ≤ 1
    → and_then (disqualify_candidate now k cid reason t) (undisqualify_candidate k cid)
      ≡ Result.done (restored_tables now e t)
disqualify-undisqualify now k cid reason t c e hc he once =
    rw (disqualify_candidate-done now k cid reason t c e hc he) (
      undisqualify_candidate-done k cid (disqualified_tables now reason e t) c
        (disqualify now reason e) hc (disqualified_found c.id k now reason t.enrollments e once he)
      ∙ rw (
        save_twice (disqualify now reason e) (restored now e) t.enrollments refl,
        resume_discontinued now reason e t.progress,
      ))
