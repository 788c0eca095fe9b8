-- ===== src/Identity/Otp/Tests.antt =====
-- Examples for one-time passwords: an account with the address "a@x" and the code 123456.
use vmlc_backend.Prelude.{
  ◌≡◌, ◌≢◌, ◌≤◌, ◌<◌, ◌+◌, refl, arith, true, false, some, [], ◌∷◌, first_where,
}
use vmlc_backend.Prelude.Text.{Text, lower}
use vmlc_backend.Identity.Otp.{
  User, Store, done, expired_otp, lifetime, can_resend_otp, issue, has_email,
  send_password_change_otp, request_password_change, verify_email, change_password,
}
use vmlc_backend.Identity.Otp.Live.{
  Reach, start, later, requested, without_codes, HasOneLive, Reach-HasOneLive,
}
use vmlc_backend.Identity.Otp.Once.{change_password-once}
use vmlc_backend.Identity.Otp.Cooldown.{issue-verify_email}

abbrev address : Text
address = b'a' ∷ b'@' ∷ b'x' ∷ []

abbrev code : Text
code = b'1' ∷ b'2' ∷ b'3' ∷ b'4' ∷ b'5' ∷ b'6' ∷ []

abbrev secret : Text
secret = b's' ∷ b'3' ∷ []

abbrev account : User
account = record {
  id = 1;
  email = address;
  is_email_verified = false;
  is_active = false;
  password = [];
}

abbrev fresh : Store
fresh = without_codes (account ∷ [])

abbrev asked : Store
asked = (request_password_change 1000 code address fresh).1

asked_reach : Reach 1000 asked
asked_reach = later (start (account ∷ [])) (omega arith) (requested code address)

Reach-HasOneLive_example : HasOneLive 1000 asked.otps
Reach-HasOneLive_example = Reach-HasOneLive asked_reach

change_password-once_example :
    (change_password 2000 address code secret secret true
      (change_password 1000 address code secret secret true asked).1).0
    ≢ done
unfolding change_password request_password_change send_password_change_otp can_resend_otp issue
    lower
change_password-once_example =
    change_password-once 1000 2000 address code code secret secret secret secret true true asked
      (change_password 1000 address code secret secret true asked).1 asked_reach (omega arith) refl

issue-verify_email_example :
    ((5000 ≤ 1000 + lifetime)
      → ((verify_email 5000 address code (issue 1000 code 1 fresh)).0 ≡ done)
        × (first_where
              (has_email address)
              (verify_email 5000 address code (issue 1000 code 1 fresh)).1.users
            ≡ some (record account { is_email_verified = true; is_active = true })))
    × ((1000 + lifetime < 5000)
        → verify_email 5000 address code (issue 1000 code 1 fresh)
          ≡ (expired_otp, issue 1000 code 1 fresh))
unfolding lower
issue-verify_email_example =
    issue-verify_email 1000 code address fresh account refl tt 5000 refl refl
