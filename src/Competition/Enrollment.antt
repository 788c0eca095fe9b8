-- ===== src/Competition/Enrollment.antt =====
-- competition/services/enrollment.py: enrolling candidates into the first stage of a competition.
pub mod Enrolled
mod Tests
use vmlc_backend.Prelude.{
  ℕ, ◌+◌, Bool, true, false, ◌&&◌, Option, none, some, List, [], ◌∷◌, ◌++◌, map, ◌==◌, leb,
  if◌then◌else◌, is_in, is_some, any_of, select, delete_where, first_where, length,
}
use vmlc_backend.Prelude.Sort.{sort}
use vmlc_backend.Competition.Model.{
  Stage, Enrollment, EnrollmentStatus, StageProgress, ProgressStatus,
}

-- The tables that the service writes; an identifier for a new enrollment is the next number.
pub record Roll : Type 0 where
  pub enrollments : List Enrollment
  pub progress : List StageProgress
  pub next_enrollment : ℕ

-- `competition.stages.order_by("order").first()`
abbrev pub stage_le : Stage → Stage → Bool
stage_le a b = leb a.order b.order

abbrev pub first_stage : ℕ → List Stage → Option Stage
first_stage competition stages =
    first_where (λ s. true) (sort stage_le (select (λ s. s.competition == competition) stages))

abbrev pub is_enrolled : ℕ → ℕ → Enrollment → Bool
is_enrolled competition candidate e = e.candidate == candidate && e.competition == competition

abbrev pub new_enrollment : ℕ → ℕ → ℕ → ℕ → Enrollment
new_enrollment id competition candidate stage = record {
  id = id;
  candidate = candidate;
  competition = competition;
  current_stage = some stage;
  status = EnrollmentStatus.active;
  last_active_at = none;
  disqualification_reason = none;
}

-- `EnrollmentStageProgress.objects.get_or_create(...)`
abbrev pub add_progress : ℕ → ℕ → List StageProgress → List StageProgress
add_progress enrollment stage ps =
    if any_of (λ p. p.enrollment == enrollment && p.stage == stage) ps
    then ps
    else ps
      ++ record {
        enrollment = enrollment;
        stage = stage;
        status = ProgressStatus.in_progress;
        started_at = none;
        completed_at = none;
        discontinued_at = none;
      }
        ∷ []

-- One round of the loop of `enroll_candidates`: the tables, and whether a row was created.
unfoldable pub enroll : ℕ → ℕ → ℕ → Roll → Roll × Bool
enroll competition stage candidate t =
    if any_of (is_enrolled competition candidate) t.enrollments then (t, false) else (
      record {
        enrollments =
            t.enrollments ++ new_enrollment t.next_enrollment competition candidate stage ∷ [];
        progress = add_progress t.next_enrollment stage t.progress;
        next_enrollment = t.next_enrollment + 1;
      },
      true,
    )

unfoldable pub enroll_all : ℕ → ℕ → List ℕ → Roll → Roll × ℕ
unfolding enroll
enroll_all competition stage [] t = (t, 0)
enroll_all competition stage (c ∷ cs) t =
    let (u, created) = enroll competition stage c t in
    let (v, count) = enroll_all competition stage cs u in (v, (if created then 1 else 0) + count)

-- The argument `candidates`: None, a query set, a list or a tuple, or a collection that has no
-- attribute `count`, as a set.
pub data Chosen : Type 0 where
  missing : Chosen
  queryset sequence collection : List ℕ → Chosen

-- The candidates that the loop runs over. For None they are all who have no enrollment in the
-- competition.
abbrev pub to_enroll : ℕ → Chosen → List ℕ → Roll → List ℕ
to_enroll competition missing everyone t =
    delete_where
      (λ c.
        is_in c (map (λ e. e.candidate) (select (λ e. e.competition == competition) t.enrollments)))
      everyone
to_enroll competition (queryset cs) everyone t = cs
to_enroll competition (sequence cs) everyone t = cs
to_enroll competition (collection cs) everyone t = cs

-- `candidates.count() if hasattr(candidates, "count") else len(candidates)`. The method of a list or a
-- tuple needs an argument: `none` is the TypeError.
abbrev pub total_to_enroll : Chosen → List ℕ → Option ℕ
total_to_enroll (sequence cs) found = none
total_to_enroll _ found = some (length found)

-- How a call ends: with the tables and the number of new rows, or with an exception.
pub data EnrollmentOutcome : Type 0 where
  no_stages type_error : EnrollmentOutcome
  created_rows : Roll → ℕ → EnrollmentOutcome

-- `enroll_candidates`
unfoldable pub enroll_candidates : List Stage → ℕ → Chosen → List ℕ → Roll → EnrollmentOutcome
unfolding enroll_all
enroll_candidates stages competition candidates everyone t = elim (first_stage competition stages) [
  | none ↦ no_stages
  | some s ↦
      let found = to_enroll competition candidates everyone t in
      elim (total_to_enroll candidates found) [
        | none ↦ type_error
        | some total ↦
            if total == 0
            then created_rows t 0
            else (let (u, created) = enroll_all competition s.id found t in created_rows u created)
      ]
]
