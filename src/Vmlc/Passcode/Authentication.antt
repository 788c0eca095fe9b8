-- ===== src/Vmlc/Passcode/Authentication.antt =====
-- Who logs in by a passcode, and how often.
use vmlc_backend.Prelude.{
  ℕ, ◌≤◌, ◌≡◌, ◌↔◌, refl, ap, ◌∙◌, sym, subst, Bool, true, false, some, arith, ◌==◌, ==_refl,
  ==_iff, if◌then◌else◌, count_of, first_where, first_where-true, first_where-updated, Bool-cases,
  Option-cases, inl, inr,
}
use vmlc_backend.Prelude.Counts.{count_of-update-le}
use vmlc_backend.Vmlc.Model.{ExamAccess}
use vmlc_backend.Vmlc.Passcode.{
  PasscodeStatus, is_used, Passcode, Codes, update_passcode, Login, logged_in, link_expired,
  has_token, is_past, set_status, authenticate_passcode,
}

-- The record and the access behind a token.
pub record IsHeld (active : ℕ → Bool) (token candidate : ℕ) (p : Passcode) (s : Codes)
    : Type 0 where
  pub row : first_where (has_token token) s.passcodes ≡ some p
  pub only : count_of (has_token token) s.passcodes ≤ 1
  pub access : ExamAccess
  pub linked : p.exam_access ≡ some access.id
  pub stored : first_where (λ a. a.id == access.id) s.attempts.accesses ≡ some access
  pub owner : access.candidate ≡ candidate
  pub exam : active access.exam ≡ true

module _ (active : ℕ → Bool) (token : ℕ) (s : Codes) where
  login_held :
      (now candidate : ℕ) (p : Passcode)
      → IsHeld active token candidate p s
      → authenticate_passcode now active token s ≡ (
          if is_past now p
          then (link_expired, update_passcode p.id (set_status PasscodeStatus.expired) s)
          else (
            logged_in candidate,
            (if is_used p.status
                then s
                else update_passcode p.id (set_status PasscodeStatus.used) s),
          ))
  unfolding authenticate_passcode
  login_held now candidate p h = ground (arith, h.row, h.only, h.linked, h.stored, h.owner, h.exam)

  login_granted :
      (now candidate : ℕ) (p : Passcode)
      → IsHeld active token candidate p s
      → is_past now p ≡ false
      → authenticate_passcode now active token s ≡ (
        logged_in candidate,
        (if is_used p.status then s else update_passcode p.id (set_status PasscodeStatus.used) s),
      )
  login_granted now candidate p h e = ground (arith, login_held now candidate p h, e)

  logged_in-IsHeld :
      (now candidate : ℕ) (s' : Codes)
      → authenticate_passcode now active token s ≡ (logged_in candidate, s')
      → (p : Passcode) × IsHeld active token candidate p s × (is_past now p ≡ false)
  unfolding authenticate_passcode
  logged_in-IsHeld now candidate s' h =
      elim (Option-cases (first_where (has_token token) s.passcodes)) [
        | inl e ↦ absurd (ground arith)
        | inr (p, e) ↦ elim (Option-cases p.exam_access) [
          | inl k ↦ absurd (ground arith)
          | inr (id, k) ↦ elim (Option-cases (first_where (λ a. a.id == id) s.attempts.accesses)) [
            | inl q ↦ absurd (ground arith)
            | inr (a, q) ↦
                let same : a.id ≡ id =
                  (==_iff a.id id).0 (first_where-true (λ x. x.id == id) s.attempts.accesses q) in
                (
                  p,
                  record {
                    row = e;
                    only = ground arith;
                    access = a;
                    linked = k ∙ ap some (sym same);
                    stored =
                        subst (λ i. first_where (λ x. x.id == i) s.attempts.accesses ≡ some a)
                          (sym same) q;
                    owner = ground arith;
                    exam = ground arith;
                  },
                  ground arith,
                )
          ]
        ]
      ]

  -- A login by a passcode is granted exactly to the candidate of the one access whose passcode it is,
  -- if the exam of that access has its flag `is_active` and the date of the passcode is not past,
  -- whether or not the exam is ongoing.
  pub authenticate_passcode-IsHeld :
      (now candidate : ℕ)
      → ((s' : Codes) × (authenticate_passcode now active token s ≡ (logged_in candidate, s')))
        ↔ ((p : Passcode) × IsHeld active token candidate p s × (is_past now p ≡ false))
  authenticate_passcode-IsHeld now candidate = (
    (λ (s', h). logged_in-IsHeld now candidate s' h),
    λ (p, h, e). (_, login_granted now candidate p h e),
  )

  used-IsHeld :
      (candidate : ℕ) (p : Passcode)
      → IsHeld active token candidate p s
      → IsHeld active token candidate
          (set_status PasscodeStatus.used p)
          (update_passcode p.id (set_status PasscodeStatus.used) s)
  used-IsHeld candidate p h = record {
    row =
        first_where-updated (has_token token) (λ x. x.id == p.id) (set_status PasscodeStatus.used)
          s.passcodes p (λ x. refl) h.row
        ∙ rw (==_refl p.id) refl;
    only = omega (
      arith,
      h.only,
      count_of-update-le (has_token token) (has_token token) (λ x. x.id == p.id)
          (set_status PasscodeStatus.used) s.passcodes (λ x q k. k) (λ x q k. k),
    );
    access = h.access;
    linked = h.linked;
    stored = h.stored;
    owner = h.owner;
    exam = h.exam;
  }

module _ (active : ℕ → Bool) (token : ℕ) (s : Codes) where
  -- A passcode that has logged a candidate in logs the candidate in again, as often as it is used
  -- before its date.
  pub authenticate_passcode-again :
      (now later candidate : ℕ) (s' : Codes)
      → authenticate_passcode now active token s ≡ (logged_in candidate, s')
      → (p : Passcode) × IsHeld active token candidate p s
        × ((is_past later p ≡ false)
            → (authenticate_passcode later active token s').0 ≡ logged_in candidate)
  authenticate_passcode-again now later candidate s' h =
      let (p, held, e) = logged_in-IsHeld active token s now candidate s' h in
      (
        p,
        held,
        λ k. elim (Bool-cases (is_used p.status)) [
          | inl u ↦
              let same : s ≡ s' =
                ground (arith, login_held active token s now candidate p held, h, e, u) in
              subst (λ x. (authenticate_passcode later active token x).0 ≡ logged_in candidate) same
                (ap (λ (x : Login × Codes). x.0)
                  (login_granted active token s later candidate p held k))
          | inr u ↦
              let same : update_passcode p.id (set_status PasscodeStatus.used) s ≡ s' =
                ground (arith, login_held active token s now candidate p held, h, e, u) in
              subst (λ x. (authenticate_passcode later active token x).0 ≡ logged_in candidate) same
                (ap (λ (x : Login × Codes). x.0)
                  (login_granted active token
                    (update_passcode p.id (set_status PasscodeStatus.used) s) later candidate
                    (set_status PasscodeStatus.used p) (used-IsHeld active token s candidate p held)
                    k))
        ],
      )
