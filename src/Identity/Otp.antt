-- ===== src/Identity/Otp.antt =====
-- One-time passwords: core/utils/auth.py and the serializers of identity/serializers/auth.py, as the
-- views of identity/views/auth.py call them. Times are microseconds; a password stands for its hash;
-- a code is drawn by the `secrets` module and is an argument. Mails are queued without fail.
pub mod Live
pub mod Once
pub mod Cooldown
mod Tests
use vmlc_backend.Prelude.{
  ℕ, ◌+◌, ◌-◌, ◌/◌, Bool, true, false, not, ◌&&◌, Option, none, some, List, [], ◌∷◌, ◌++◌, ◌==◌,
  ltb, leb, if◌then◌else◌, any_of, is_in, select, update_where, first_where, length,
}
use vmlc_backend.Prelude.Text.{Text, lower, is_digits, text_eq}

pub record User : Type 0 where
  pub id : ℕ
  pub email : Text
  pub is_email_verified : Bool
  pub is_active : Bool
  pub password : Text

pub record EmailOtp : Type 0 where
  pub id : ℕ
  pub user : ℕ
  pub otp : Text
  pub created_at : ℕ
  pub expires_at : ℕ

-- The tables, the users that have a row of `UserVerification`, and the users and codes of the mails.
pub record Store : Type 0 where
  pub users : List User
  pub otps : List EmailOtp
  pub next_otp : ℕ
  pub verifications : List ℕ
  pub mails : List (ℕ × Text)

pub data Reply : Type 0 where
  done : Reply
  rate_limited : ℕ → Reply
  no_account already_verified invalid_otp expired_otp invalid mismatch : Reply

-- Two minutes and ten minutes, in microseconds.
abbrev pub cooldown : ℕ
cooldown = 120000000

abbrev pub lifetime : ℕ
lifetime = 600000000

-- `order_by("-created_at").first()`; of several with the latest time, the one stored last.
abbrev pub latest : List EmailOtp → Option EmailOtp
latest [] = none
latest (o ∷ os) = elim (latest os) [
  | none ↦ some o
  | some k ↦ if ltb k.created_at o.created_at then some o else some k
]

abbrev pub is_otp_of : ℕ → EmailOtp → Bool
is_otp_of user o = o.user == user

-- `can_resend_otp`: none, or the seconds to wait.
unfoldable pub can_resend_otp : ℕ → ℕ → List EmailOtp → Option ℕ
can_resend_otp now user otps = elim (latest (select (is_otp_of user) otps)) [
  | none ↦ none
  | some o ↦
      if leb (o.created_at + cooldown) now
      then none
      else some ((o.created_at + cooldown - now) / 1000000)
]

-- `expires_at__gt=timezone.now()`
abbrev pub is_live : ℕ → ℕ → EmailOtp → Bool
is_live now user o = is_otp_of user o && ltb now o.expires_at

abbrev pub expire : ℕ → EmailOtp → EmailOtp
expire now o = record o { expires_at = now }

abbrev pub new_otp : ℕ → ℕ → ℕ → Text → EmailOtp
new_otp id now user code = record {
  id = id;
  user = user;
  otp = code;
  created_at = now;
  expires_at = now + lifetime;
}

-- The part that `send_otp_to_email` and `send_password_change_otp` share: existing codes are expired,
-- a new one is stored and mailed.
unfoldable pub issue : ℕ → Text → ℕ → Store → Store
issue now code user s = record s {
  otps =
      update_where (is_live now user) (expire now) s.otps ++ new_otp s.next_otp now user code ∷ [];
  next_otp = s.next_otp + 1;
  mails = s.mails ++ (user, code) ∷ [];
}

-- `send_otp_to_email`
unfoldable pub send_otp_to_email : ℕ → Text → ℕ → Bool → Store → Reply × Store
send_otp_to_email now code user is_resend s =
    if not is_resend then (done, issue now code user s) else elim (can_resend_otp now user s.otps) [
      | some seconds ↦ (rate_limited seconds, s)
      | none ↦ (done, issue now code user s)
    ]

-- `send_password_change_otp`
unfoldable pub send_password_change_otp : ℕ → Text → ℕ → Store → Reply × Store
send_password_change_otp now code user s = elim (can_resend_otp now user s.otps) [
  | some seconds ↦ (rate_limited seconds, s)
  | none ↦ (done, issue now code user s)
]

abbrev pub has_email : Text → User → Bool
has_email email u = text_eq u.email (lower email)

-- `SendEmailOTPView`. Its serializer's `save` reads the flag from its keyword arguments, of which the
-- view gives none: the flag of the request is not used.
unfoldable pub send_email_otp : ℕ → Text → Text → Bool → Store → Reply × Store
send_email_otp now code email resend s = elim (first_where (has_email email) s.users) [
  | none ↦ (no_account, s)
  | some u ↦
      if u.is_email_verified then (already_verified, s) else send_otp_to_email now code u.id false s
]

-- `RequestPasswordChangeView`
unfoldable pub request_password_change : ℕ → Text → Text → Store → Reply × Store
request_password_change now code email s = elim (first_where (has_email email) s.users) [
  | none ↦ (no_account, s)
  | some u ↦ send_password_change_otp now code u.id s
]

-- `ResendPasswordChangeOTPView`, for a text with an "@"; it answers the same for an unknown address.
unfoldable pub resend_password_change : ℕ → Text → Text → Store → Reply × Store
resend_password_change now code email s = elim (first_where (has_email email) s.users) [
  | none ↦ (done, s)
  | some u ↦ send_otp_to_email now code u.id true s
]

-- The field `otp`: six digits.
abbrev pub is_otp_format : Text → Bool
is_otp_format otp = length otp == 6 && is_digits otp

abbrev pub has_code : ℕ → Text → EmailOtp → Bool
has_code user otp o = is_otp_of user o && text_eq o.otp otp

-- `otp_obj` of the two serializers that take the latest row, and `is_expired`.
abbrev pub check_latest : ℕ → ℕ → Text → List EmailOtp → Option Reply
check_latest now user otp otps = elim (latest (select (has_code user otp) otps)) [
  | none ↦ some invalid_otp
  | some o ↦ if ltb o.expires_at now then some expired_otp else none
]

abbrev pub expire_row : ℕ → Option EmailOtp → List EmailOtp → List EmailOtp
expire_row now none otps = otps
expire_row now (some o) otps = update_where (λ x. x.id == o.id) (expire now) otps

abbrev pub update_user : ℕ → (User → User) → Store → Store
update_user id f s = record s { users = update_where (λ u. u.id == id) f s.users }

-- `VerifyEmailOTPSerializer.save`
abbrev pub save_verified : ℕ → Text → User → Store → Store
save_verified now otp u s =
    update_user u.id (λ x. record x { is_email_verified = true; is_active = true })
      (record s {
        otps = expire_row now (latest (select (has_code u.id otp) s.otps)) s.otps;
        verifications =
            if is_in u.id s.verifications then s.verifications else s.verifications ++ u.id ∷ [];
      })

-- `VerifyEmailOTPView`
unfoldable pub verify_email : ℕ → Text → Text → Store → Reply × Store
verify_email now email otp s =
    if not (is_otp_format otp) then (invalid, s) else elim (first_where (has_email email) s.users) [
      | none ↦ (invalid_otp, s)
      | some u ↦
          if u.is_email_verified
          then (already_verified, s)
          else elim (check_latest now u.id otp s.otps) [
            | some r ↦ (r, s)
            | none ↦ (done, save_verified now otp u s)
          ]
    ]

-- `verify_otp_for_password_change`, which expires the row that it finds.
abbrev pub usable : ℕ → ℕ → Text → EmailOtp → Bool
usable now user otp o = has_code user otp o && ltb now o.expires_at

-- `PasswordChangeView`; `strong` tells whether Django's validators accept the new password.
unfoldable pub change_password : ℕ → Text → Text → Text → Text → Bool → Store → Reply × Store
change_password now email otp new_password confirm strong s =
    elim (first_where (has_email email) s.users) [
      | none ↦ (no_account, s)
      | some u ↦
          if not (is_otp_format otp && strong)
          then (invalid, s)
          else (if not (text_eq new_password confirm)
              then (mismatch, s)
              else elim (first_where (usable now u.id otp) s.otps) [
                | none ↦ (invalid_otp, s)
                | some o ↦ (
                  done,
                  update_user u.id (λ x. record x { password = new_password })
                      (record s { otps = expire_row now (some o) s.otps }),
                )
              ])
    ]
