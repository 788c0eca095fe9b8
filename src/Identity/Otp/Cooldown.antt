-- ===== src/Identity/Otp/Cooldown.antt =====
-- How often a code is issued, and how long it serves.
use vmlc_backend.Prelude.{
  ℕ, ◌+◌, ◌-◌, ◌/◌, ◌≤◌, ◌<◌, ◌≡◌, refl, ap, ◌∙◌, Bool, true, false, none, some, List, [], ◌∷◌,
  ◌++◌, arith, ◌==◌, ==_refl, ltb, leb, if◌then◌else◌, All, update_where, update_where-All, select,
  first_where, first_where-updated, Bool-cases, inl, inr,
}
use vmlc_backend.Prelude.Text.{Text, text_eq}
use vmlc_backend.Identity.Otp.{
  User, EmailOtp, Store, Reply, done, rate_limited, expired_otp, cooldown, lifetime, latest,
  is_otp_of, can_resend_otp, is_live, expire, new_otp, issue, has_email, send_otp_to_email,
  send_password_change_otp, send_email_otp, request_password_change, has_code, is_otp_format,
  check_latest, save_verified, verify_email,
}

text_eq_refl : (t : Text) → text_eq t t ≡ true
text_eq_refl [] = refl
text_eq_refl (c ∷ t) = ground (arith, ==_refl c, text_eq_refl t)

-- A row that is not older than the others is the latest of those that pass a test.
latest-last :
    (p : EmailOtp → Bool) (o : EmailOtp) (os : List EmailOtp)
    → All (λ k. k.created_at ≤ o.created_at) os
    → p o ≡ true
    → latest (select p (os ++ o ∷ [])) ≡ some o
latest-last p o [] h e = ground arith
latest-last p o (k ∷ os) h e = ground (arith, latest-last p o os h.1 e)

-- For an account that is not verified, the view that sends a code sends one whenever it is asked, also
-- within the two minutes after the last one and also where the request asks for a resend.
pub send_email_otp-unlimited :
    (now : ℕ) (code email : Text) (resend : Bool) (s : Store) (u : User)
    → first_where (has_email email) s.users ≡ some u
    → u.is_email_verified ≡ false
    → send_email_otp now code email resend s ≡ (done, issue now code u.id s)
unfolding send_email_otp send_otp_to_email
send_email_otp-unlimited now code email resend s u h e = rw (send_email_otp, h) (rw e refl)

module _ (now : ℕ) (code email : Text) (s : Store) (u : User)
    (known : first_where (has_email email) s.users ≡ some u)
    (past : All (λ o. o.created_at ≤ now) s.otps) where
  abbrev issued : EmailOtp
  issued = new_otp s.next_otp now u.id code

  abbrev expired_before : List EmailOtp
  expired_before = update_where (is_live now u.id) (expire now) s.otps

  past_expired : All (λ o. o.created_at ≤ now) expired_before
  past_expired =
      update_where-All (λ o. o.created_at ≤ now) (is_live now u.id) (expire now) (λ o h e. h) s.otps
        past

  latest-issued :
      (p : EmailOtp → Bool)
      → p issued ≡ true
      → latest (select p (issue now code u.id s).otps) ≡ some issued
  unfolding issue
  latest-issued p = latest-last p issued expired_before past_expired

  issued_known : first_where (has_email email) (issue now code u.id s).users ≡ some u
  unfolding issue
  issued_known = known

  can_resend_issued :
      (later : ℕ)
      → can_resend_otp later u.id (issue now code u.id s).otps
        ≡ (if leb (now + cooldown) later then none else some ((now + cooldown - later) / 1000000))
  unfolding can_resend_otp
  can_resend_issued later = rw (can_resend_otp, latest-issued (is_otp_of u.id) (==_refl u.id)) refl

  -- After a code was issued for a password change, a second request within two minutes is refused
  -- and changes nothing, and one from then on is granted.
  pub request_password_change-cooldown :
      (later : ℕ) (code' : Text)
      → request_password_change later code' email (issue now code u.id s) ≡ (
          if ltb later (now + cooldown)
          then (rate_limited ((now + cooldown - later) / 1000000), issue now code u.id s)
          else (done, issue later code' u.id (issue now code u.id s)))
  unfolding request_password_change send_password_change_otp
  request_password_change-cooldown later code' = elim (Bool-cases (leb (now + cooldown) later)) [
    | inl e ↦
        let q : can_resend_otp later u.id (issue now code u.id s).otps ≡ none =
          can_resend_issued later ∙ rw e refl in
        let z : ltb later (now + cooldown) ≡ false = ground arith in
        rw (request_password_change, issued_known) (rw (send_password_change_otp, q) (rw z refl))
    | inr e ↦
        let q : can_resend_otp later u.id (issue now code u.id s).otps
            ≡ some ((now + cooldown - later) / 1000000) =
          can_resend_issued later ∙ rw e refl in
        let z : ltb later (now + cooldown) ≡ true = ground arith in
        rw (request_password_change, issued_known) (rw (send_password_change_otp, q) (rw z refl))
  ]

  -- A code of six digits that was mailed verifies the address for ten minutes: the account is then
  -- verified and active. After that it is refused as expired.
  pub issue-verify_email :
      (later : ℕ)
      → u.is_email_verified ≡ false
      → is_otp_format code ≡ true
      → ((later ≤ now + lifetime)
          → ((verify_email later email code (issue now code u.id s)).0 ≡ done)
            × (first_where
                  (has_email email)
                  (verify_email later email code (issue now code u.id s)).1.users
                ≡ some (record u { is_email_verified = true; is_active = true })))
        × ((now + lifetime < later)
            → verify_email later email code (issue now code u.id s)
              ≡ (expired_otp, issue now code u.id s))
  unfolding verify_email
  issue-verify_email later e f =
      let q =
        latest-issued (has_code u.id code) (ground (arith, ==_refl u.id, text_eq_refl code)) in
      let s' : Store = issue now code u.id s in
      (
        (λ h.
            let c : check_latest later u.id code s'.otps ≡ none = ground arith in
            let ran : verify_email later email code s' ≡ (done, save_verified later code u s') =
              ground (arith, issued_known) in
            (
              ap (λ (x : Reply × Store). x.0) ran,
              ap (λ (x : Reply × Store). first_where (has_email email) x.1.users) ran
                  ∙ (first_where-updated (has_email email) (λ x. x.id == u.id)
                        (λ x. record x { is_email_verified = true; is_active = true }) s'.users u
                        (λ x. refl) issued_known
                      ∙ rw (==_refl u.id) refl),
            )),
        λ h.
            let c : check_latest later u.id code s'.otps ≡ some expired_otp = ground arith in
            ground (arith, issued_known),
      )
