-- ===== src/Vmlc/Passcode/Renewal.antt =====
-- What generating passcodes leaves for a candidate.
use vmlc_backend.Prelude.{
  ℕ, ◌+◌, ◌≤◌, ◌≡◌, refl, ◌∙◌, sym, subst, ◌⊎◌, true, false, none, some, arith, ◌==◌, ==_refl, ltb,
  is_some, first_where, first_where-append, first_where-updated, Bool-cases, Option-cases, inl, inr,
}
use vmlc_backend.Vmlc.Model.{ExamAccess}
use vmlc_backend.Competition.Eligibility.{get_or_create_access}
use vmlc_backend.Competition.Eligibility.Access.{get_or_create_twice}
use vmlc_backend.Vmlc.Passcode.{
  is_expired, Passcode, Codes, is_for_access, update_passcode, renewed, new_passcode,
  renew_existing, create_passcode, passcode_for, issue_to,
}

module _ (draw : ℕ → ℕ) (now expiry : ℕ) (due : now ≤ expiry) where
  -- The access has a passcode that is not EXPIRED and whose date is set and not past.
  pub record IsServed (access : ℕ) (s : Codes) : Type 0 where
    pub row : Passcode
    pub found : first_where (is_for_access access) s.passcodes ≡ some row
    pub alive : is_expired row.status ≡ false
    pub date : ℕ
    pub dated : row.expiry_date ≡ some date
    pub future : now ≤ date

  abbrev renewal : Passcode → Codes → Codes
  renewal p s = record (update_passcode p.id (renewed (draw s.drawn) expiry) s) {
    drawn = s.drawn + 1;
  }

  renewal-IsServed :
      (access : ℕ) (p : Passcode) (s : Codes)
      → first_where (is_for_access access) s.passcodes ≡ some p
      → IsServed access (renewal p s)
  renewal-IsServed access p s h = record {
    row = renewed (draw s.drawn) expiry p;
    found =
        first_where-updated (is_for_access access) (λ x. x.id == p.id)
          (renewed (draw s.drawn) expiry) s.passcodes p (λ x. refl) h
        ∙ rw (==_refl p.id) refl;
    alive = refl;
    date = expiry;
    dated = refl;
    future = due;
  }

  renew_existing-IsServed :
      (access n : ℕ) (p : Passcode) (s s' : Codes)
      → first_where (is_for_access access) s.passcodes ≡ some p
      → renew_existing draw now expiry p s ≡ some (n, s')
      → IsServed access s'
  unfolding renew_existing
  renew_existing-IsServed access n p s s' h k =
      let new = renewal-IsServed access p s h in
      elim (Bool-cases (is_expired p.status)) [
        | inl e ↦ let same : renewal p s ≡ s' = ground arith in subst (IsServed access) same new
        | inr e ↦ elim (Option-cases p.expiry_date) [
          | inl q ↦ absurd (ground arith)
          | inr (d, q) ↦ elim (Bool-cases (ltb d now)) [
            | inl past ↦
                let same : renewal p s ≡ s' = ground arith in subst (IsServed access) same new
            | inr kept ↦
                let same : s ≡ s' = ground arith in
                subst (IsServed access) same (record {
                  row = p;
                  found = h;
                  alive = e;
                  date = d;
                  dated = q;
                  future = ground arith;
                })
          ]
        ]
      ]

  create_passcode-IsServed :
      (access : ℕ) (s : Codes)
      → first_where (is_for_access access) s.passcodes ≡ none
      → IsServed access (create_passcode draw now expiry access s).1
  create_passcode-IsServed access s h = record {
    row = renewed (draw s.drawn) expiry (new_passcode s.next_passcode access expiry);
    found = rw (first_where-append, h) (ground (arith, ==_refl access));
    alive = refl;
    date = expiry;
    dated = refl;
    future = due;
  }

  passcode_for-again :
      (access : ℕ) (s : Codes)
      → IsServed access s
      → passcode_for draw now expiry access s ≡ some (0, s)
  unfolding passcode_for renew_existing
  passcode_for-again access s h = ground (arith, h.found, h.alive, h.dated, h.future)

  passcode_for-IsServed :
      (access n : ℕ) (s s' : Codes)
      → passcode_for draw now expiry access s ≡ some (n, s')
      → IsServed access s'
  unfolding passcode_for
  passcode_for-IsServed access n s s' h =
      elim (Option-cases (first_where (is_for_access access) s.passcodes)) [
        | inl e ↦
            let same : (create_passcode draw now expiry access s).1 ≡ s' = ground arith in
            subst (IsServed access) same (create_passcode-IsServed access s e)
        | inr (p, e) ↦ renew_existing-IsServed access n p s s' e (rw (passcode_for, e) at h)
      ]

  passcode_for-attempts :
      (access n : ℕ) (s s' : Codes)
      → passcode_for draw now expiry access s ≡ some (n, s')
      → s'.attempts ≡ s.attempts
  unfolding passcode_for renew_existing
  passcode_for-attempts access n s s' h =
      elim (Option-cases (first_where (is_for_access access) s.passcodes)) [
        | inl e ↦ ground arith
        | inr (p, e) ↦ elim (Bool-cases (is_expired p.status)) [
          | inl x ↦ ground arith
          | inr x ↦ elim (Option-cases p.expiry_date) [
            | inl q ↦ absurd (ground arith)
            | inr (d, q) ↦ ground arith
          ]
        ]
      ]

  -- A turn of the generation for a candidate, before the date at which the new passcodes expire, leaves
  -- an access of the candidate to the exam that has been submitted, or has a passcode that is not
  -- EXPIRED and whose date is not past; and a second turn at that time changes nothing.
  pub issue_to-IsServed :
      (exam candidate n : ℕ) (s s' : Codes)
      → issue_to draw now expiry exam candidate s ≡ some (n, s')
      → (a : ExamAccess) × (get_or_create_access candidate exam s'.attempts ≡ (a, s'.attempts))
        × ((is_some a.submitted_at ≡ true) ⊎ IsServed a.id s')
        × (issue_to draw now expiry exam candidate s' ≡ some (0, s'))
  unfolding issue_to
  issue_to-IsServed exam candidate n s s' h =
      let a : ExamAccess = (get_or_create_access candidate exam s.attempts).0 in
      let mid : Codes = record s {
        attempts = (get_or_create_access candidate exam s.attempts).1;
      } in
      let again : get_or_create_access candidate exam mid.attempts ≡ (a, mid.attempts) =
        get_or_create_twice candidate exam s.attempts in
      elim (Bool-cases (is_some a.submitted_at)) [
        | inl e ↦
            let same : mid ≡ s' = ground arith in
            subst
              (λ x.
                (b : ExamAccess) × (get_or_create_access candidate exam x.attempts
                  ≡ (b, x.attempts))
                × ((is_some b.submitted_at ≡ true) ⊎ IsServed b.id x)
                × (issue_to draw now expiry exam candidate x ≡ some (0, x)))
              same (a, again, inl e, ground (arith, again, e))
        | inr e ↦
            let k : passcode_for draw now expiry a.id mid ≡ some (n, s') = ground arith in
            let kept = passcode_for-attempts a.id n mid s' k in
            let again' : get_or_create_access candidate exam s'.attempts ≡ (a, s'.attempts) =
              subst (λ x. get_or_create_access candidate exam x ≡ (a, x)) (sym kept) again in
            let served = passcode_for-IsServed a.id n mid s' k in
            (a, again', inr served, ground (arith, again', e, passcode_for-again a.id s' served))
      ]
