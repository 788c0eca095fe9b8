-- ===== src/Identity/Otp/Once.antt =====
-- A code changes one password only.
use vmlc_backend.Prelude.{
  ℕ, ◌≤◌, ◌≡◌, ◌≢◌, refl, ◌∙◌, subst, Bool, none, some, List, [], ◌∷◌, arith, ◌==◌, ==_refl,
  update_where, first_where, first_where-updated, count_of, Bool-cases, Option-cases, inl, inr,
}
use vmlc_backend.Prelude.Text.{Text}
use vmlc_backend.Identity.Otp.{
  User, EmailOtp, Store, done, is_live, expire, has_email, usable, change_password, expire_row,
  update_user,
}
use vmlc_backend.Identity.Otp.Live.{Reach, Reach-HasOneLive}

usable-live :
    (now user : ℕ) (otp : Text) (os : List EmailOtp) (o : EmailOtp)
    → first_where (usable now user otp) os ≡ some o
    → 1 ≤ count_of (is_live now user) os
usable-live now user otp [] o h = absurd (cc)
usable-live now user otp (x ∷ xs) o h = elim (Bool-cases (usable now user otp x)) [
  | inl e ↦ ground arith
  | inr e ↦
      let k : first_where (usable now user otp) xs ≡ some o = rw e at h in
      ground (arith, usable-live now user otp xs o k)
]

none_live-expired :
    (now user : ℕ) (q : EmailOtp → Bool) (os : List EmailOtp)
    → count_of (is_live now user) os ≡ 0
    → count_of (is_live now user) (update_where q (expire now) os) ≡ 0
none_live-expired now user q [] h = refl
none_live-expired now user q (o ∷ os) h = ground (arith, none_live-expired now user q os)

-- The use of the one live code leaves none.
spent :
    (now user : ℕ) (otp : Text) (os : List EmailOtp) (o : EmailOtp)
    → count_of (is_live now user) os ≤ 1
    → first_where (usable now user otp) os ≡ some o
    → count_of (is_live now user) (update_where (λ x. x.id == o.id) (expire now) os) ≡ 0
spent now user otp [] o once h = absurd (cc)
spent now user otp (x ∷ xs) o once h = elim (Bool-cases (usable now user otp x)) [
  | inl e ↦
      let same : x ≡ o = ground arith in
      let rest : count_of (is_live now user) xs ≡ 0 = ground arith in
      subst
        (λ y.
          count_of (is_live now user) (update_where (λ z. z.id == y.id) (expire now) (x ∷ xs)) ≡ 0)
        same (ground (arith, ==_refl x.id, none_live-expired now user (λ z. z.id == x.id) xs rest))
  | inr e ↦
      let k : first_where (usable now user otp) xs ≡ some o = rw e at h in
      ground (arith, usable-live now user otp xs o k, spent now user otp xs o, k)
]

nothing_usable :
    (now later user : ℕ) (otp : Text) (os : List EmailOtp)
    → now ≤ later
    → count_of (is_live now user) os ≡ 0
    → first_where (usable later user otp) os ≡ none
nothing_usable now later user otp [] h e = refl
nothing_usable now later user otp (o ∷ os) h e =
    ground (arith, nothing_usable now later user otp os)

-- The tables after a password was changed.
data Changed (now : ℕ) (email otp new_password : Text) (s s' : Store) : Type 0 where
  changed :
      (u : User) (o : EmailOtp)
      → first_where (has_email email) s.users ≡ some u
      → first_where (usable now u.id otp) s.otps ≡ some o
      → s'
        ≡ update_user u.id
            (λ x. record x { password = new_password })
            (record s { otps = expire_row now (some o) s.otps })
      → Changed now email otp new_password s s'

change_password-done :
    (now : ℕ) (email otp new_password confirm : Text) (strong : Bool) (s s' : Store)
    → change_password now email otp new_password confirm strong s ≡ (done, s')
    → Changed now email otp new_password s s'
unfolding change_password
change_password-done now email otp new_password confirm strong s s' h =
    elim (Option-cases (first_where (has_email email) s.users)) [
      | inl e ↦ absurd (ground arith)
      | inr (u, e) ↦ elim (Option-cases (first_where (usable now u.id otp) s.otps)) [
        | inl k ↦ absurd (ground arith)
        | inr (o, k) ↦ changed u o e k (ground arith)
      ]
    ]

change_password-refused :
    (now : ℕ) (email otp new_password confirm : Text) (strong : Bool) (s : Store) (u : User)
    → first_where (has_email email) s.users ≡ some u
    → first_where (usable now u.id otp) s.otps ≡ none
    → (change_password now email otp new_password confirm strong s).0 ≢ done
unfolding change_password
change_password-refused now email otp new_password confirm strong s u h k q = ground arith

-- In every reachable state: once a password was changed with a code, no password of the account is
-- changed at that time or later, with whatever code, before another code is issued.
pub change_password-once :
    (now later : ℕ) (email otp otp' first second confirm confirm' : Text) (strong strong' : Bool)
    (s s' : Store)
    → Reach now s
    → now ≤ later
    → change_password now email otp first confirm strong s ≡ (done, s')
    → (change_password later email otp' second confirm' strong' s').0 ≢ done
change_password-once now later email otp otp' first second confirm confirm' strong strong' s s' r h
      ran =
    elim (change_password-done now email otp first confirm strong s s' ran) [
      | changed u o found live left ↦
          let users : first_where (has_email email) s'.users
              ≡ some (record u { password = first }) =
            rw left (
              first_where-updated (has_email email) (λ x. x.id == u.id)
                (λ x. record x { password = first }) s.users u (λ x. refl) found
              ∙ rw (==_refl u.id) refl) in
          let none_left = spent now u.id otp s.otps o (Reach-HasOneLive r u.id) live in
          let unusable : first_where (usable later u.id otp') s'.otps ≡ none =
            rw left (nothing_usable now later u.id otp' _ h none_left) in
          change_password-refused later email otp' second confirm' strong' s'
            (record u { password = first }) users unusable
    ]
