-- ===== src/Competition/Eligibility/Guards.antt =====
-- The checks of `can_take_exam` as one condition, and what the call stores.
use vmlc_backend.Prelude.{
  ℕ, ap, Bool-cases, ==_iff, ◌&&◌, any_of, ◌⊎◌, ◌≡◌, refl, sym, subst, ◌∙◌, ◌↔◌, true, false, not,
  ◌||◌, Option, none, some, arith, ◌==◌, inl, inr, Option-cases, if◌then◌else◌,
}
use vmlc_backend.Competition.Model.{
  StageType, stage_code, CandidateRole, role_code, role_of_stage, active_competition, Candidate,
  Enrollment,
}
use vmlc_backend.Vmlc.Model.{is_finished, ExamAccess, Attempts}
use vmlc_backend.Vmlc.Exam.{Slot, Exam, is_currently_open, is_final}
use vmlc_backend.Competition.Eligibility.{
  Rules, Reason, Verdict, get_or_create_access, find_active_enrollment, same_competition,
  fallback_stage, is_open_progress, effective_stage, has_progress, check_attempt, check_slot,
  check_access, can_take_exam,
}

-- The competition of the exam is the active one, and the candidate's role is its stage.
abbrev pub IsFallback : Rules → Candidate → Slot → Type 0
IsFallback rules c slot =
    (active_competition rules.competitions ≡ some slot.competition)
    × (c.role ≡ role_of_stage slot.stage_type)

-- Whether a candidate, with their active enrollment in the competition if there is one, counts as being
-- in the stage of the exam. Without one, also if there is one that is not active, the role decides.
abbrev pub IsInStage : Rules → Candidate → Slot → Option Enrollment → Type 0
IsInStage rules c slot none = IsFallback rules c slot
IsInStage rules c slot (some r) =
    ((r.current_stage ≡ some slot.stage) ⊎ ((r.current_stage ≡ none) × IsFallback rules c slot))
    × (any_of (λ p. p.enrollment == r.id && (p.stage == slot.stage && is_open_progress p.status))
          rules.progress
        ≡ true)

-- What an exam of a competition asks of a candidate, with the attempt that is stored for it.
pub record IsOpenTo (rules : Rules) (c : Candidate) (e : Exam) (a : ExamAccess) (slot : Slot)
    : Type 0 where
  pub in_stage :
      IsInStage rules c slot (find_active_enrollment c.pk slot.competition rules.enrollments)
  pub open_attempt : is_finished a.status ≡ false
  pub unlocked :
      is_final e.competition_slot ≡ true → (a.is_unlocked || rules.qr_unlocked c.pk e.id) ≡ true

role_matches :
    (r : CandidateRole) (t : StageType) → (role_code r == stage_code t) ≡ true → r ≡ role_of_stage t
role_matches CandidateRole.screening StageType.screening h = refl
role_matches CandidateRole.league StageType.league h = refl
role_matches CandidateRole.final StageType.final h = refl
role_matches _ _ h = absurd (ground arith)

role_of_stage-code : (t : StageType) → (role_code (role_of_stage t) == stage_code t) ≡ true
role_of_stage-code StageType.screening = refl
role_of_stage-code StageType.league = refl
role_of_stage-code StageType.final = refl

same_competition_iff : (o : Option ℕ) (k : ℕ) → (same_competition o k ≡ true) ↔ (o ≡ some k)
same_competition_iff none k = (λ h. absurd (cc), λ h. absurd (cc))
same_competition_iff (some d) k =
    (λ h. ap some (sym ((==_iff k d).0 h)), λ h. (==_iff k d).1 (ground arith))

module _ (rules : Rules) (c : Candidate) (slot : Slot) where
  fallback_stage_iff : (fallback_stage rules c slot ≡ some slot.stage) ↔ IsFallback rules c slot
  fallback_stage_iff =
      let active = active_competition rules.competitions in
      let code = role_code c.role == stage_code slot.stage_type in
      elim (Bool-cases (same_competition active slot.competition && code)) [
        | inl e ↦ (
          λ h. (
            (same_competition_iff active slot.competition).0 (ground (arith, e)),
            role_matches c.role slot.stage_type (ground (arith, e)),
          ),
          λ h. rw e refl,
        )
        | inr e ↦ (
          λ h. absurd (let z : none ≡ some slot.stage = rw e at h in cc),
          λ (a, r). absurd (
              let q = (same_competition_iff active slot.competition).1 a in
              let z : code ≡ true =
                subst (λ x. (role_code x == stage_code slot.stage_type) ≡ true) (sym r)
                  (role_of_stage-code slot.stage_type) in
              ground (arith, e, q, z)),
        )
      ]

  effective-IsInStage :
      (o : Option Enrollment)
      → ((effective_stage rules c slot o ≡ some slot.stage)
          × (has_progress rules.progress slot.stage o ≡ true))
        ↔ IsInStage rules c slot o
  effective-IsInStage none = (λ h. fallback_stage_iff.0 h.0, λ h. (fallback_stage_iff.1 h, refl))
  effective-IsInStage (some r) = elim (Option-cases r.current_stage) [
    | inl k ↦ (
      λ h. (inr (k, fallback_stage_iff.0 (rw k at h.0)), h.1),
      λ h. elim h.0 [
        | inl q ↦ absurd (let z : none ≡ some slot.stage = sym k ∙ q in cc)
        | inr q ↦ (rw k (fallback_stage_iff.1 q.1), h.1)
      ],
    )
    | inr (s, k) ↦ (
      λ h. (inl (k ∙ (rw k at h.0)), h.1),
      λ h. elim h.0 [
        | inl q ↦ (rw k (sym k ∙ q), h.1)
        | inr q ↦ absurd (let z : none ≡ some s = sym q.0 ∙ k in cc)
      ],
    )
  ]

check_attempt-IsOpen :
    (rules : Rules) (c : Candidate) (e : Exam) (a : ExamAccess)
    → (check_attempt rules c e a ≡ none) ↔ (
        (is_finished a.status ≡ false)
        × (is_final e.competition_slot ≡ true
            → (a.is_unlocked || rules.qr_unlocked c.pk e.id) ≡ true))
check_attempt-IsOpen rules c e a = ground arith

module _ (rules : Rules) (c : Candidate) (e : Exam) (a : ExamAccess) (slot : Slot) where
  abbrev enrollment : Option Enrollment
  enrollment = find_active_enrollment c.pk slot.competition rules.enrollments

  check_slot-none :
      effective_stage rules c slot enrollment ≡ none
      → check_slot rules c e slot a ≡ some Reason.not_enrolled
  check_slot-none n = rw (check_slot, n)

  check_slot-some :
      (stage : ℕ)
      → effective_stage rules c slot enrollment ≡ some stage
      → check_slot rules c e slot a ≡ (
          if not (stage == slot.stage)
          then some Reason.stage_mismatch
          else if not (has_progress rules.progress slot.stage enrollment)
          then some Reason.no_progress
          else check_attempt rules c e a)
  check_slot-some stage s = rw (check_slot, s)

  check_slot-IsOpenTo : (check_slot rules c e slot a ≡ none) ↔ IsOpenTo rules c e a slot
  check_slot-IsOpenTo = elim (Option-cases (effective_stage rules c slot enrollment)) [
    | inl n ↦ (
      λ h. absurd (let k : some Reason.not_enrolled ≡ none = sym (check_slot-none n) ∙ h in cc),
      λ h. absurd (
          let k : none ≡ some slot.stage =
            sym n ∙ ((effective-IsInStage rules c slot enrollment).1 h.in_stage).0 in
          cc),
    )
    | inr (stage, s) ↦ (
      λ h.
          let k : (if not (stage == slot.stage)
                then some Reason.stage_mismatch
                else if not (has_progress rules.progress slot.stage enrollment)
                then some Reason.no_progress
                else check_attempt rules c e a)
              ≡ none =
            sym (check_slot-some stage s) ∙ h in
          record {
            in_stage =
                (effective-IsInStage rules c slot enrollment).0 (s ∙ ground arith, ground arith);
            open_attempt = ((check_attempt-IsOpen rules c e a).0 (ground arith)).0;
            unlocked = ((check_attempt-IsOpen rules c e a).0 (ground arith)).1;
          },
      λ h.
          check_slot-some stage s
          ∙ let (effective, progress) =
              (effective-IsInStage rules c slot enrollment).1 h.in_stage in
            let k : some stage ≡ some slot.stage = sym s ∙ effective in
            ground
              (arith, progress, (check_attempt-IsOpen rules c e a).1 (h.open_attempt, h.unlocked)),
    )
  ]

abbrev IsOpenToSlot : Rules → Candidate → Exam → ExamAccess → Option Slot → Type 0
IsOpenToSlot rules c e a none = Unit
IsOpenToSlot rules c e a (some slot) = IsOpenTo rules c e a slot

-- When a candidate may take an exam: what `can_take_exam` is to decide.
pub record IsPermitted (now : ℕ) (rules : Rules) (c : Candidate) (e : Exam) (a : ExamAccess)
    : Type 0 where
  pub active_account : c.is_active ≡ true
  pub active_exam : e.is_active ≡ true
  pub open_now : is_currently_open now e ≡ some true
  pub in_competition : IsOpenToSlot rules c e a e.competition_slot

abbrev check_optional_slot : Rules → Candidate → Exam → ExamAccess → Option Slot → Option Reason
check_optional_slot rules c e a none = none
check_optional_slot rules c e a (some slot) = check_slot rules c e slot a

check_optional_slot-IsOpen :
    (rules : Rules) (c : Candidate) (e : Exam) (a : ExamAccess) (o : Option Slot)
    → (check_optional_slot rules c e a o ≡ none) ↔ IsOpenToSlot rules c e a o
check_optional_slot-IsOpen rules c e a none = (λ h. tt, λ h. refl)
check_optional_slot-IsOpen rules c e a (some slot) = check_slot-IsOpenTo rules c e a slot

check_access-IsOpen :
    (rules : Rules) (c : Candidate) (e : Exam) (a : ExamAccess)
    → (check_access rules c e a ≡ none) ↔ IsOpenToSlot rules c e a e.competition_slot
check_access-IsOpen rules c e a =
    let same : (o : Option Slot)
        → elim o [ none ↦ none | some slot ↦ check_slot rules c e slot a ]
          ≡ check_optional_slot rules c e a o =
      λ o. elim o [ none ↦ refl | some slot ↦ refl ] in
    subst (λ r. (r ≡ none) ↔ IsOpenToSlot rules c e a e.competition_slot)
      (sym (same e.competition_slot)) (check_optional_slot-IsOpen rules c e a e.competition_slot)

module _ (now : ℕ) (rules : Rules) (c : Candidate) (e : Exam) (db : Attempts) where
  abbrev stored : ExamAccess
  stored = (get_or_create_access c.pk e.id db).0

  -- The call gives permission exactly when the candidate's account and the exam are active, the exam is
  -- open, and, if it belongs to a competition, the stored attempt is not finished, a final exam is
  -- unlocked for it, and: an active enrollment of the candidate in the competition has open progress in
  -- the exam's stage and this stage, or no stage and the fallback holds; or the candidate has no active
  -- enrollment there, be it that one is disqualified, eliminated or pending, and the fallback holds,
  -- whatever the progress. The fallback is that the competition is the active one and the candidate's
  -- role is the stage.
  pub can_take_exam-IsPermitted :
      (can_take_exam now rules c e db
        ≡ some
            (record { reason = none; access = some stored }, (get_or_create_access c.pk e.id db).1))
      ↔ IsPermitted now rules c e stored
  unfolding can_take_exam
  can_take_exam-IsPermitted = (
    λ h. record {
      active_account = ground arith;
      active_exam = ground arith;
      open_now = ground arith;
      in_competition = (check_access-IsOpen rules c e stored).0 (ground arith);
    },
    λ h. ground (
      arith,
      h.active_account,
      h.active_exam,
      h.open_now,
      (check_access-IsOpen rules c e stored).1 h.in_competition,
    ),
  )

-- A verdict without a reason comes with the stored attempt.
pub can_take_exam-allowed :
    (now : ℕ) (rules : Rules) (c : Candidate) (e : Exam) (db db' : Attempts) (v : Verdict)
    → can_take_exam now rules c e db ≡ some (v, db')
    → v.reason ≡ none
    → (v.access ≡ some (get_or_create_access c.pk e.id db).0)
      × (db' ≡ (get_or_create_access c.pk e.id db).1)
      × IsPermitted now rules c e (get_or_create_access c.pk e.id db).0
unfolding can_take_exam
can_take_exam-allowed now rules c e db db' v h k = (
  ground arith,
  ground arith,
  record {
    active_account = ground arith;
    active_exam = ground arith;
    open_now = ground arith;
    in_competition =
        (check_access-IsOpen rules c e (get_or_create_access c.pk e.id db).0).0 (ground arith);
  },
)
