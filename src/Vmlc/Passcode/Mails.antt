-- ===== src/Vmlc/Passcode/Mails.antt =====
-- `send_passcode_emails` of vmlc/services/exam_access.py. The text of a mail is not modelled; the queue
-- takes each task.
use vmlc_backend.Prelude.{
  ℕ, ◌≡◌, refl, Bool, true, false, not, ◌&&◌, Option, none, some, List, [], ◌∷◌, ◌++◌, arith, ◌==◌,
  ==_refl, is_some, select, update_where, first_where, length, Bool-cases, inl, inr, All, All-map,
  any_of, ==_iff, sym, ◌∙◌, ap, subst,
}
use mathlib.Core.List.{append-nil, append_assoc}
use vmlc_backend.Vmlc.Model.{ExamAccess}
use vmlc_backend.Vmlc.Passcode.{is_issued, Passcode, Codes, update_passcode}

-- The access of a passcode.
abbrev pub access_behind : List ExamAccess → Passcode → Option ExamAccess
access_behind accesses p = elim p.exam_access [
  | none ↦ none
  | some id ↦ first_where (λ a. a.id == id) accesses
]

abbrev pub is_of_exam : ℕ → List ExamAccess → Passcode → Bool
is_of_exam exam accesses p = elim (access_behind accesses p) [
  | none ↦ false
  | some a ↦ a.exam == exam
]

-- `passcode_records`
abbrev pub is_unsent : ℕ → List ExamAccess → Passcode → Bool
is_unsent exam accesses p =
    is_of_exam exam accesses p && is_some p.passcode && is_issued p.status && not p.is_passcode_sent

-- The candidate and the token of a mail.
abbrev pub letter : List ExamAccess → Passcode → List (ℕ × ℕ)
letter accesses p = elim (access_behind accesses p) [
  | none ↦ []
  | some a ↦ elim p.passcode [ none ↦ [] | some token ↦ (a.candidate, token) ∷ [] ]
]

abbrev pub mark_sent : Passcode → Passcode
mark_sent p = record p { is_passcode_sent = true }

-- One turn of the loop.
abbrev pub send_letter : Passcode → Codes → Codes
send_letter p s =
    update_passcode p.id mark_sent (record s { mails = s.mails ++ letter s.attempts.accesses p })

unfoldable pub send_letters : List Passcode → Codes → Codes
send_letters [] s = s
send_letters (p ∷ ps) s = send_letters ps (send_letter p s)

-- `send_passcode_emails`, with the number of mails that it returns.
unfoldable pub send_passcode_emails : ℕ → Codes → ℕ × Codes
send_passcode_emails exam s =
    let records = select (is_unsent exam s.attempts.accesses) s.passcodes in
    (length records, send_letters records s)

-- The letters of some passcodes, in their order.
abbrev pub letters_of : List ExamAccess → List Passcode → List (ℕ × ℕ)
letters_of accesses [] = []
letters_of accesses (p ∷ ps) = letter accesses p ++ letters_of accesses ps

-- Every unsent row has the identifier of one of the given rows.
abbrev Covers : ℕ → List ExamAccess → List Passcode → List Passcode → Type 0
Covers exam accesses ps =
    All (λ r. is_unsent exam accesses r ≡ true → any_of (λ p. p.id == r.id) ps ≡ true)

module _ (exam : ℕ) (accesses : List ExamAccess) where
  select-Covers :
      (rows : List Passcode) → Covers exam accesses (select (is_unsent exam accesses) rows) rows
  select-Covers [] = tt
  select-Covers (r ∷ rows) = (
    (λ h. ground (arith, h, ==_refl r.id)),
    All-map (λ x f h. ground (arith, f h)) rows (select-Covers rows),
  )

  send-Covers :
      (p : Passcode) (ps rows : List Passcode)
      → Covers exam accesses (p ∷ ps) rows
      → Covers exam accesses ps (update_where (λ x. x.id == p.id) mark_sent rows)
  send-Covers p ps [] h = tt
  send-Covers p ps (r ∷ rows) h = (
    elim (Bool-cases (r.id == p.id)) [
      | inl e ↦ λ u. ground arith
      | inr e ↦ λ u. ground (arith, h.0, ==_iff p.id r.id, ==_iff r.id p.id)
    ],
    send-Covers p ps rows h.1,
  )

  none_unsent :
      (rows : List Passcode)
      → Covers exam accesses [] rows
      → select (is_unsent exam accesses) rows ≡ []
  none_unsent [] h = refl
  none_unsent (r ∷ rows) h = ground (arith, none_unsent rows h.1, h.0)

  send_letters-none :
      (ps : List Passcode) (s : Codes)
      → s.attempts.accesses ≡ accesses
      → Covers exam accesses ps s.passcodes
      → (select (is_unsent exam accesses) (send_letters ps s).passcodes ≡ [])
        × ((send_letters ps s).attempts ≡ s.attempts)
        × ((send_letters ps s).mails ≡ s.mails ++ letters_of accesses ps)
  unfolding send_letters
  send_letters-none [] s e h = (none_unsent s.passcodes h, refl, sym (append-nil s.mails))
  send_letters-none (p ∷ ps) s e h =
      let (a, b, c) = send_letters-none ps (send_letter p s) e (send-Covers p ps s.passcodes h) in
      (
        a,
        b,
        c
            ∙ ap (λ x. s.mails ++ letter x p ++ letters_of accesses ps) e
            ∙ append_assoc s.mails (letter accesses p) (letters_of accesses ps),
      )

-- The mails go to the candidates of the passcodes that are ISSUED and not yet sent, and no other is
-- left to send: the same call repeated changes nothing and returns 0.
pub send_passcode_emails_lem :
    (exam n : ℕ) (s s' : Codes)
    → send_passcode_emails exam s ≡ (n, s')
    → (s'.mails
        ≡ s.mails
          ++ letters_of s.attempts.accesses
              (select (is_unsent exam s.attempts.accesses) s.passcodes))
      × (s'.attempts ≡ s.attempts)
      × (send_passcode_emails exam s' ≡ (0, s'))
unfolding send_passcode_emails send_letters
send_passcode_emails_lem exam n s s' h =
    let accesses = s.attempts.accesses in
    let records = select (is_unsent exam accesses) s.passcodes in
    let (a, b, c) =
      send_letters-none exam accesses records s refl (select-Covers exam accesses s.passcodes) in
    let ran : send_letters records s ≡ s' = ground arith in
    let rest : select (is_unsent exam s'.attempts.accesses) s'.passcodes ≡ [] =
      subst (λ x. select (is_unsent exam x.attempts.accesses) x.passcodes ≡ []) ran (rw b a) in
    (
      subst (λ x. x.mails ≡ s.mails ++ letters_of accesses records) ran c,
      subst (λ x. x.attempts ≡ s.attempts) ran b,
      rw rest refl,
    )
