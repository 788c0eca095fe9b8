-- ===== src/Vmlc/Passcode.antt =====
-- Passcodes for direct access to an exam: `ExamAccessPasscode` of vmlc/models.py, and
-- `generate_passcodes`, `send_passcode_emails` and `authenticate_passcode` of
-- vmlc/services/exam_access.py. `secrets.token_urlsafe` is a parameter that gives the tokens in the
-- order in which they are drawn. The URL follows from the token and is not stored here.
pub mod Authentication
pub mod Renewal
pub mod Mails
mod Tests
use vmlc_backend.Prelude.{
  ℕ, ◌+◌, Bool, true, false, not, ◌&&◌, ◌||◌, Option, none, some, List, [], ◌∷◌, ◌++◌, ◌==◌, ltb,
  leb, if◌then◌else◌, is_some, opt_eq, any_of, count_of, select, update_where, first_where,
}
use vmlc_backend.Competition.Model.{is_active, Enrollment}
use vmlc_backend.Competition.Eligibility.{get_or_create_access}
use vmlc_backend.Vmlc.Model.{ExamAccess, Attempts, access_of}
use vmlc_backend.Vmlc.Exam.{Slot, Exam, end_time}

-- `ExamAccessPasscode.Status`
pub data PasscodeStatus : Type 0 where
  issued used expired : PasscodeStatus

abbrev pub is_issued : PasscodeStatus → Bool
is_issued PasscodeStatus.issued = true
is_issued _ = false

abbrev pub is_used : PasscodeStatus → Bool
is_used PasscodeStatus.used = true
is_used _ = false

abbrev pub is_expired : PasscodeStatus → Bool
is_expired PasscodeStatus.expired = true
is_expired _ = false

pub record Passcode : Type 0 where
  pub id : ℕ
  pub exam_access : Option ℕ
  pub passcode : Option ℕ
  pub is_passcode_sent : Bool
  pub expiry_date : Option ℕ
  pub status : PasscodeStatus

-- The tables, the number of tokens drawn so far, and the mails: a candidate and a token.
pub record Codes : Type 0 where
  pub attempts : Attempts
  pub passcodes : List Passcode
  pub next_passcode : ℕ
  pub drawn : ℕ
  pub mails : List (ℕ × ℕ)

abbrev pub is_for_access : ℕ → Passcode → Bool
is_for_access access p = opt_eq p.exam_access (some access)

abbrev pub update_passcode : ℕ → (Passcode → Passcode) → Codes → Codes
update_passcode id f s = record s { passcodes = update_where (λ p. p.id == id) f s.passcodes }

-- The row after a token is drawn for it.
abbrev pub renewed : ℕ → ℕ → Passcode → Passcode
renewed token expiry p = record p {
  passcode = some token;
  status = PasscodeStatus.issued;
  expiry_date = some expiry;
  is_passcode_sent = false;
}

abbrev pub new_passcode : ℕ → ℕ → ℕ → Passcode
new_passcode id access expiry = record {
  id = id;
  exam_access = some access;
  passcode = none;
  is_passcode_sent = false;
  expiry_date = some expiry;
  status = PasscodeStatus.issued;
}

module _ (draw : ℕ → ℕ) (now expiry : ℕ) where
  -- A row that `get_or_create` finds is renewed if it is EXPIRED or past its date; None is the
  -- TypeError of a row without a date.
  unfoldable pub renew_existing : Passcode → Codes → Option (ℕ × Codes)
  renew_existing p s =
      let new : Codes = record (update_passcode p.id (renewed (draw s.drawn) expiry) s) {
        drawn = s.drawn + 1;
      } in
      if is_expired p.status then some (1, new) else elim p.expiry_date [
        | none ↦ none
        | some d ↦ some (if ltb d now then (1, new) else (0, s))
      ]

  -- A row that `get_or_create` creates is always given a token.
  abbrev pub create_passcode : ℕ → Codes → ℕ × Codes
  create_passcode access s = (
    1,
    record s {
      passcodes =
          s.passcodes
          ++ renewed (draw s.drawn) expiry (new_passcode s.next_passcode access expiry) ∷ [];
      next_passcode = s.next_passcode + 1;
      drawn = s.drawn + 1;
    },
  )

  unfoldable pub passcode_for : ℕ → Codes → Option (ℕ × Codes)
  passcode_for access s = elim (first_where (is_for_access access) s.passcodes) [
    | none ↦ some (create_passcode access s)
    | some p ↦ renew_existing p s
  ]

  -- One turn of the loop. An access that is created has no submission.
  unfoldable pub issue_to : ℕ → ℕ → Codes → Option (ℕ × Codes)
  issue_to exam candidate s =
      let (a, attempts) = get_or_create_access candidate exam s.attempts in
      let s' : Codes = record s { attempts = attempts } in
      if is_some a.submitted_at then some (0, s') else passcode_for a.id s'

  unfoldable pub issue_all : ℕ → List ℕ → Codes → Option (ℕ × Codes)
  issue_all exam [] s = some (0, s)
  issue_all exam (c ∷ cs) s = elim (issue_to exam c s) [
    | none ↦ none
    | some (n, s') ↦ elim (issue_all exam cs s') [ none ↦ none | some (m, s'') ↦ some (n + m, s'') ]
  ]

-- `eligible_enrollments`
abbrev pub is_eligible : Slot → Enrollment → Bool
is_eligible slot e =
    e.competition == slot.competition
    && opt_eq e.current_stage (some slot.stage)
    && is_active e.status

abbrev pub candidates_of : List Enrollment → List ℕ
candidates_of [] = []
candidates_of (e ∷ es) = e.candidate ∷ candidates_of es

-- `expiry_date`, of an exam with a date and a duration that is not 0.
abbrev pub expiry_of : Exam → Option ℕ
expiry_of e = elim e.scheduled_date [
  | none ↦ none
  | some start ↦ elim e.open_duration_hours [
    | none ↦ none
    | some hours ↦ if hours == 0 then none else some (end_time start hours)
  ]
]

-- `generate_passcodes` of an exam that exists, with `FRONTEND_BASE_URL` set. The loop runs in a
-- transaction: where it raises, the tables stay as they were.
unfoldable pub generate_passcodes : (ℕ → ℕ) → ℕ → List Enrollment → Exam → Codes → Option ℕ × Codes
generate_passcodes draw now enrollments e s = elim e.competition_slot [
  | none ↦ (some 0, s)
  | some slot ↦ elim (expiry_of e) [
    | none ↦ (some 0, s)
    | some expiry ↦
        elim (issue_all draw now expiry e.id (candidates_of (select (is_eligible slot) enrollments))
          s) [ none ↦ (none, s) | some (count, s') ↦ (some count, s') ]
  ]
]

-- What `authenticate_passcode` answers; `several` is MultipleObjectsReturned.
pub data Login : Type 0 where
  logged_in : ℕ → Login
  invalid_passcode no_access_record link_expired exam_inactive several : Login

abbrev pub has_token : ℕ → Passcode → Bool
has_token token p = opt_eq p.passcode (some token)

abbrev pub is_past : ℕ → Passcode → Bool
is_past now p = elim p.expiry_date [ none ↦ false | some d ↦ ltb d now ]

abbrev pub set_status : PasscodeStatus → Passcode → Passcode
set_status status p = record p { status = status }

-- The part after the record and its access are found; the exam of the access is given.
abbrev pub login_with : ℕ → Bool → Passcode → ExamAccess → Codes → Login × Codes
login_with now exam_active p a s =
    if is_past now p
    then (link_expired, update_passcode p.id (set_status PasscodeStatus.expired) s)
    else (if not exam_active then (exam_inactive, s) else (
      logged_in a.candidate,
      (if is_used p.status then s else update_passcode p.id (set_status PasscodeStatus.used) s),
    ))

-- `authenticate_passcode`; `active` tells whether an exam is active.
unfoldable pub authenticate_passcode : ℕ → (ℕ → Bool) → ℕ → Codes → Login × Codes
authenticate_passcode now active token s =
    if leb 2 (count_of (has_token token) s.passcodes)
    then (several, s)
    else elim (first_where (has_token token) s.passcodes) [
      | none ↦ (invalid_passcode, s)
      | some p ↦ elim p.exam_access [
        | none ↦ (no_access_record, s)
        | some id ↦ elim (first_where (λ a. a.id == id) s.attempts.accesses) [
          | none ↦ (no_access_record, s)
          | some a ↦ login_with now (active a.exam) p a s
        ]
      ]
    ]
