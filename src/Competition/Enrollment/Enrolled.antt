-- ===== src/Competition/Enrollment/Enrolled.antt =====
-- What enrolling leaves.
use vmlc_backend.Prelude.{
  ℕ, ◌+◌, ◌≤◌, ◌≡◌, refl, ◌∙◌, subst, true, false, ◌&&◌, some, List, [], ◌∷◌, arith, ◌==◌, ==_refl,
  if◌then◌else◌, inl, inr, Bool-cases, Option-cases, any_of, any_of-append, All, count_of,
  count_of-append, length, length-append,
}
use vmlc_backend.Prelude.Counts.{any_of-count}
use vmlc_backend.Competition.Model.{Enrollment, Stage}
use vmlc_backend.Competition.Enrollment.{
  Roll, is_enrolled, new_enrollment, enroll, enroll_all, first_stage, Chosen, queryset, sequence,
  collection, to_enroll, total_to_enroll, EnrollmentOutcome, no_stages, type_error, created_rows,
  enroll_candidates,
}

-- At most one enrollment for a candidate and a competition.
abbrev pub HasUniqueEnrollments : List Enrollment → Type 0
HasUniqueEnrollments es = (c k : ℕ) → count_of (is_enrolled c k) es ≤ 1

new_row_alone :
    (competition c d k : ℕ) (es : List Enrollment)
    → count_of (is_enrolled competition c) es ≡ 0
    → (c == k && competition == d) ≡ true
    → count_of (is_enrolled d k) es ≡ 0
new_row_alone competition c d k es h j =
    let qc : c ≡ k = ground arith in
    let qd : competition ≡ d = ground arith in
    subst (λ a. count_of (is_enrolled d a) es ≡ 0) qc
      (subst (λ b. count_of (is_enrolled b c) es ≡ 0) qd h)

module _ (competition stage : ℕ) where
  enroll-old :
      (c : ℕ) (t : Roll)
      → any_of (is_enrolled competition c) t.enrollments ≡ true
      → enroll competition stage c t ≡ (t, false)
  unfolding enroll
  enroll-old c t h = rw (enroll, h)

  enroll-enrolled :
      (c k : ℕ) (t : Roll)
      → (any_of (is_enrolled competition c) (enroll competition stage c t).0.enrollments ≡ true)
        × (any_of (is_enrolled competition k) t.enrollments ≡ true
            → any_of (is_enrolled competition k) (enroll competition stage c t).0.enrollments
              ≡ true)
  unfolding enroll
  enroll-enrolled c k t = elim (Bool-cases (any_of (is_enrolled competition c) t.enrollments)) [
    | inl e ↦ rw (enroll, e) (e, λ h. h)
    | inr e ↦
        rw (enroll, e)
          (
            any_of-append (is_enrolled competition c) t.enrollments _
                ∙ ground (arith, ==_refl c, ==_refl competition),
            λ h. any_of-append (is_enrolled competition k) t.enrollments _ ∙ rw h,
          )
  ]

  enroll-HasUniqueEnrollments :
      (c : ℕ) (t : Roll)
      → HasUniqueEnrollments t.enrollments
      → HasUniqueEnrollments (enroll competition stage c t).0.enrollments
  unfolding enroll
  enroll-HasUniqueEnrollments c t h d k =
      elim (Bool-cases (any_of (is_enrolled competition c) t.enrollments)) [
        | inl e ↦ rw (enroll, e) (h d k)
        | inr e ↦
            rw (enroll, e)
              (ground (
                arith,
                count_of-append (is_enrolled d k) t.enrollments
                    (new_enrollment t.next_enrollment competition c stage ∷ []),
                new_row_alone competition c d k t.enrollments
                    (any_of-count (is_enrolled competition c) t.enrollments e),
                h d k,
              ))
      ]

  enroll-count :
      (c : ℕ) (t : Roll)
      → length (enroll competition stage c t).0.enrollments
        ≡ length t.enrollments + (if (enroll competition stage c t).1 then 1 else 0)
  unfolding enroll
  enroll-count c t = elim (Bool-cases (any_of (is_enrolled competition c) t.enrollments)) [
    | inl e ↦ rw (enroll, e) (omega arith)
    | inr e ↦ rw (enroll, e) (length-append t.enrollments _)
  ]

  -- A number of rounds.
  enroll_all-keeps :
      (k : ℕ) (cs : List ℕ) (t : Roll)
      → any_of (is_enrolled competition k) t.enrollments ≡ true
      → any_of (is_enrolled competition k) (enroll_all competition stage cs t).0.enrollments ≡ true
  unfolding enroll_all
  enroll_all-keeps k [] t h = h
  enroll_all-keeps k (c ∷ cs) t h =
      enroll_all-keeps k cs (enroll competition stage c t).0 ((enroll-enrolled c k t).1 h)

  enroll_all-enrolled :
      (cs : List ℕ) (t : Roll)
      → All
          (λ c.
            any_of (is_enrolled competition c) (enroll_all competition stage cs t).0.enrollments
            ≡ true)
          cs
  unfolding enroll_all
  enroll_all-enrolled [] t = tt
  enroll_all-enrolled (c ∷ cs) t = (
    enroll_all-keeps c cs (enroll competition stage c t).0 (enroll-enrolled c c t).0,
    enroll_all-enrolled cs (enroll competition stage c t).0,
  )

  enroll_all-old :
      (cs : List ℕ) (t : Roll)
      → All (λ c. any_of (is_enrolled competition c) t.enrollments ≡ true) cs
      → enroll_all competition stage cs t ≡ (t, 0)
  unfolding enroll_all
  enroll_all-old [] t h = refl
  enroll_all-old (c ∷ cs) t h = rw (enroll-old c t h.0) (rw (enroll_all-old cs t h.1))

  enroll_all-HasUniqueEnrollments :
      (cs : List ℕ) (t : Roll)
      → HasUniqueEnrollments t.enrollments
      → HasUniqueEnrollments (enroll_all competition stage cs t).0.enrollments
  unfolding enroll_all
  enroll_all-HasUniqueEnrollments [] t h = h
  enroll_all-HasUniqueEnrollments (c ∷ cs) t h =
      enroll_all-HasUniqueEnrollments cs (enroll competition stage c t).0
        (enroll-HasUniqueEnrollments c t h)

  enroll_all-count :
      (cs : List ℕ) (t : Roll)
      → length (enroll_all competition stage cs t).0.enrollments
        ≡ length t.enrollments + (enroll_all competition stage cs t).1
  unfolding enroll_all
  enroll_all-count [] t = omega arith
  enroll_all-count (c ∷ cs) t =
      omega (arith, enroll-count c t, enroll_all-count cs (enroll competition stage c t).0)

-- The loop gives the answer also where there is nobody to enroll.
abbrev outcome : Roll × ℕ → EnrollmentOutcome
outcome (u, n) = created_rows u n

loop_outcome :
    (stage competition : ℕ) (cs : List ℕ) (t : Roll)
    → (if length cs == 0 then created_rows t 0 else outcome (enroll_all competition stage cs t))
      ≡ outcome (enroll_all competition stage cs t)
unfolding enroll_all
loop_outcome stage competition [] t = refl
loop_outcome stage competition (c ∷ cs) t = ground arith

queryset_outcome :
    (stages : List Stage) (competition : ℕ) (cs everyone : List ℕ) (t : Roll) (s : Stage)
    → first_stage competition stages ≡ some s
    → enroll_candidates stages competition (queryset cs) everyone t
      ≡ outcome (enroll_all competition s.id cs t)
unfolding enroll_candidates
queryset_outcome stages competition cs everyone t s e =
    rw (enroll_candidates, e) (loop_outcome s.id competition cs t)

-- What `enroll_candidates` leaves when it enrolls given candidates.
pub record IsEnrolled (stages : List Stage) (competition : ℕ) (cs everyone : List ℕ) (t t' : Roll)
    (n : ℕ) : Type 0 where
  pub everybody : All (λ c. any_of (is_enrolled competition c) t'.enrollments ≡ true) cs
  pub counted : length t'.enrollments ≡ length t.enrollments + n
  pub unique : HasUniqueEnrollments t.enrollments → HasUniqueEnrollments t'.enrollments
  pub again : enroll_candidates stages competition (queryset cs) everyone t' ≡ created_rows t' 0

-- In a competition with a stage, enrolling the candidates of a query set, or of a collection without
-- the attribute `count`, succeeds: each of them is then enrolled in the competition, the number that it
-- returns is that of the new rows, no candidate has a second enrollment if none had before, and the
-- call repeated with a query set changes nothing and returns 0. Given as a list or a tuple, the same
-- candidates are not enrolled: the call raises a TypeError.
pub enroll_candidates-IsEnrolled :
    (stages : List Stage) (competition : ℕ) (cs everyone : List ℕ) (t : Roll) (s : Stage)
    → first_stage competition stages ≡ some s
    → (t' : Roll) × (n : ℕ) × (enroll_candidates stages competition (queryset cs) everyone t
        ≡ created_rows t' n)
      × (enroll_candidates stages competition (collection cs) everyone t ≡ created_rows t' n)
      × IsEnrolled stages competition cs everyone t t' n
      × (enroll_candidates stages competition (sequence cs) everyone t ≡ type_error)
unfolding enroll_candidates
enroll_candidates-IsEnrolled stages competition cs everyone t s e =
    let r = enroll_all competition s.id cs t in
    let enrolled = enroll_all-enrolled competition s.id cs t in
    (
      r.0,
      r.1,
      queryset_outcome stages competition cs everyone t s e,
      rw (enroll_candidates, e) (loop_outcome s.id competition cs t),
      record {
        everybody = enrolled;
        counted = enroll_all-count competition s.id cs t;
        unique = enroll_all-HasUniqueEnrollments competition s.id cs t;
        again =
            queryset_outcome stages competition cs everyone r.0 s e
            ∙ rw (enroll_all-old competition s.id cs r.0 enrolled) refl;
      },
      rw (enroll_candidates, e) refl,
    )

-- However the candidates are chosen, a call that succeeds keeps at most one enrollment for a candidate
-- and a competition.
pub enroll_candidates-HasUniqueEnrollments :
    (stages : List Stage) (competition : ℕ) (chosen : Chosen) (everyone : List ℕ) (t t' : Roll)
    (n : ℕ)
    → HasUniqueEnrollments t.enrollments
    → enroll_candidates stages competition chosen everyone t ≡ created_rows t' n
    → HasUniqueEnrollments t'.enrollments
unfolding enroll_candidates
enroll_candidates-HasUniqueEnrollments stages competition chosen everyone t t' n u h =
    let found = to_enroll competition chosen everyone t in
    elim (Option-cases (first_stage competition stages)) [
      | inl e ↦
          absurd (let k : no_stages ≡ created_rows t' n = rw (enroll_candidates, e) at h in cc)
      | inr (s, e) ↦ elim (Option-cases (total_to_enroll chosen found)) [
        | inl q ↦
            absurd
              (let k : type_error ≡ created_rows t' n = rw (enroll_candidates, e, q) at h in cc)
        | inr (total, q) ↦ elim (Bool-cases (total == 0)) [
          | inl z ↦
              let k : created_rows t 0 ≡ created_rows t' n = rw (enroll_candidates, e, q, z) at h in
              let same : t ≡ t' = cc in subst (λ r. HasUniqueEnrollments r.enrollments) same u
          | inr z ↦
              let k : outcome (enroll_all competition s.id found t) ≡ created_rows t' n =
                rw (enroll_candidates, e, q, z) at h in
              let same : (enroll_all competition s.id found t).0 ≡ t' = cc in
              subst (λ r. HasUniqueEnrollments r.enrollments) same
                (enroll_all-HasUniqueEnrollments competition s.id found t u)
        ]
      ]
    ]
