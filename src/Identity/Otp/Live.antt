-- ===== src/Identity/Otp/Live.antt =====
-- At most one code of a user is live, and a code changes one password only.
use vmlc_backend.Prelude.{
  ℕ, ◌≤◌, ◌≡◌, refl, subst, Bool, true, false, not, ◌&&◌, Option, none, some, List, [], ◌∷◌, ◌++◌,
  arith, ◌==◌, ==_iff, if-cases, select, update_where, first_where, count_of, count_of-append,
  Bool-cases, Option-cases, inl, inr,
}
use vmlc_backend.Prelude.Text.{Text, text_eq}
use vmlc_backend.Prelude.Counts.{count_of_mono, count_of-update-le}
use vmlc_backend.Identity.Otp.{
  User, EmailOtp, Store, Reply, latest, is_live, expire, new_otp, issue, send_otp_to_email,
  send_password_change_otp, has_email, send_email_otp, request_password_change,
  resend_password_change, has_code, check_latest, expire_row, verify_email, usable, change_password,
  is_otp_format, can_resend_otp,
}

-- A request to one of the views at a time. The view that confirms a code stores nothing.
pub data Step (now : ℕ) (s : Store) : Store → Type 0 where
  sent : (code email : Text) (resend : Bool) → Step now s (send_email_otp now code email resend s).1
  requested : (code email : Text) → Step now s (request_password_change now code email s).1
  resent : (code email : Text) → Step now s (resend_password_change now code email s).1
  verified : (email otp : Text) → Step now s (verify_email now email otp s).1
  changed :
      (email otp new_password confirm : Text) (strong : Bool)
      → Step now s (change_password now email otp new_password confirm strong s).1

abbrev pub without_codes : List User → Store
without_codes users = record {
  users = users;
  otps = [];
  next_otp = 1;
  verifications = [];
  mails = [];
}

-- The states that requests at later and later times reach, with the time of the last.
pub data Reach : ℕ → Store → Type 0 where
  start : (users : List User) → Reach 0 (without_codes users)
  later : {t now : ℕ} {s s' : Store} → Reach t s → t ≤ now → Step now s s' → Reach now s'

abbrev pub HasOneLive : ℕ → List EmailOtp → Type 0
HasOneLive now otps = (user : ℕ) → count_of (is_live now user) otps ≤ 1

-- Time only takes lives.
HasOneLive-mono :
    (t now : ℕ) (otps : List EmailOtp) → t ≤ now → HasOneLive t otps → HasOneLive now otps
HasOneLive-mono t now otps h w user =
    omega
      (arith, w user, count_of_mono (is_live now user) (is_live t user) (λ o e. ground arith) otps)

expire-HasOneLive :
    (now : ℕ) (q : EmailOtp → Bool) (otps : List EmailOtp)
    → HasOneLive now otps
    → HasOneLive now (update_where q (expire now) otps)
expire-HasOneLive now q otps w user = omega (
  arith,
  w user,
  count_of-update-le (is_live now user) (is_live now user) q (expire now) otps
      (λ o e h. ground arith) (λ o e h. h),
)

-- After the codes of a user are expired none of them is live.
expired_all :
    (now user : ℕ) (otps : List EmailOtp)
    → count_of (is_live now user) (update_where (is_live now user) (expire now) otps) ≡ 0
expired_all now user [] = refl
expired_all now user (o ∷ os) = ground (arith, expired_all now user os)

issue-HasOneLive :
    (now user : ℕ) (code : Text) (s : Store)
    → HasOneLive now s.otps
    → HasOneLive now (issue now code user s).otps
unfolding issue
issue-HasOneLive now user code s w other =
    let fresh = new_otp s.next_otp now user code ∷ [] in
    let old = update_where (is_live now user) (expire now) s.otps in
    elim (Bool-cases (user == other)) [
      | inl e ↦
          subst (λ k. count_of (is_live now k) (old ++ fresh) ≤ 1) ((==_iff user other).0 e)
            (ground
              (arith, count_of-append (is_live now user) old fresh, expired_all now user s.otps))
      | inr e ↦ ground (
        arith,
        count_of-append (is_live now other) old fresh,
        expire-HasOneLive now (is_live now user) s.otps w other,
      )
    ]

send_otp_to_email-HasOneLive :
    (now user : ℕ) (code : Text) (resend : Bool) (s : Store)
    → HasOneLive now s.otps
    → HasOneLive now (send_otp_to_email now code user resend s).1.otps
unfolding send_otp_to_email
send_otp_to_email-HasOneLive now user code false s w = issue-HasOneLive now user code s w
send_otp_to_email-HasOneLive now user code true s w =
    elim (Option-cases (can_resend_otp now user s.otps)) [
      | inl e ↦ rw (send_otp_to_email, e) (issue-HasOneLive now user code s w)
      | inr (seconds, e) ↦ rw (send_otp_to_email, e) w
    ]

expire_row-HasOneLive :
    (now : ℕ) (row : Option EmailOtp) (otps : List EmailOtp)
    → HasOneLive now otps
    → HasOneLive now (expire_row now row otps)
expire_row-HasOneLive now none otps w = w
expire_row-HasOneLive now (some o) otps w = expire-HasOneLive now (λ x. x.id == o.id) otps w

-- Every request keeps at most one code of a user live.
pub Step-HasOneLive :
    {now : ℕ} {s s' : Store} → Step now s s' → HasOneLive now s.otps → HasOneLive now s'.otps
unfolding send_email_otp request_password_change send_password_change_otp resend_password_change
    verify_email change_password send_otp_to_email
Step-HasOneLive {now} {s} (sent code email resend) w =
    elim (Option-cases (first_where (has_email email) s.users)) [
      | inl e ↦ rw (send_email_otp, e) w
      | inr (u, e) ↦
          rw (send_email_otp, e)
            (if-cases (λ (x : Reply × Store). HasOneLive now x.1.otps) u.is_email_verified _ _
              (λ _. w) (λ _. send_otp_to_email-HasOneLive now u.id code false s w))
    ]
Step-HasOneLive {now} {s} (requested code email) w =
    elim (Option-cases (first_where (has_email email) s.users)) [
      | inl e ↦ rw (request_password_change, e) w
      | inr (u, e) ↦
          rw (request_password_change, e) (send_otp_to_email-HasOneLive now u.id code true s w)
    ]
Step-HasOneLive {now} {s} (resent code email) w =
    elim (Option-cases (first_where (has_email email) s.users)) [
      | inl e ↦ rw (resend_password_change, e) w
      | inr (u, e) ↦
          rw (resend_password_change, e) (send_otp_to_email-HasOneLive now u.id code true s w)
    ]
Step-HasOneLive {now} {s} (verified email otp) w =
    let Keeps : Reply × Store → Type 0 = λ x. HasOneLive now x.1.otps in
    if-cases Keeps (not (is_otp_format otp)) _ _ (λ _. w)
      (λ _. elim (Option-cases (first_where (has_email email) s.users)) [
        | inl e ↦ rw e w
        | inr (u, e) ↦ rw e (
            if-cases Keeps u.is_email_verified _ _ (λ _. w)
              (λ _. elim (Option-cases (check_latest now u.id otp s.otps)) [
                | inl k ↦ rw k (
                    expire_row-HasOneLive now (latest (select (has_code u.id otp) s.otps)) s.otps w)
                | inr (r, k) ↦ rw k w
              ]))
      ])
Step-HasOneLive {now} {s} (changed email otp new_password confirm strong) w =
    let Keeps : Reply × Store → Type 0 = λ x. HasOneLive now x.1.otps in
    elim (Option-cases (first_where (has_email email) s.users)) [
      | inl e ↦ rw (change_password, e) w
      | inr (u, e) ↦
          rw (change_password, e)
            (if-cases Keeps (not (is_otp_format otp && strong)) _ _ (λ _. w)
              (λ _.
                if-cases Keeps (not (text_eq new_password confirm)) _ _ (λ _. w)
                  (λ _. elim (Option-cases (first_where (usable now u.id otp) s.otps)) [
                    | inl k ↦ rw k w
                    | inr (o, k) ↦ rw k (expire_row-HasOneLive now (some o) s.otps w)
                  ])))
    ]

-- Whatever requests have come, at later and later times, at most one code of a user is live.
pub Reach-HasOneLive : {now : ℕ} {s : Store} → Reach now s → HasOneLive now s.otps
Reach-HasOneLive (start users) = λ user. omega arith
Reach-HasOneLive (later {t} {now} {s} {s'} r before st) =
    Step-HasOneLive st (HasOneLive-mono t now s.otps before (Reach-HasOneLive r))
