-- ===== src/Competition/Enrollment/Tests.antt =====
-- Examples for the enrollment: two candidates, of whom one is enrolled already.
use vmlc_backend.Prelude.{ℕ, ◌≡◌, refl, none, List, [], ◌∷◌, arith}
use vmlc_backend.Prelude.Sort.{sort, insert_sorted}
use vmlc_backend.Competition.Model.{StageType, Stage}
use vmlc_backend.Competition.Enrollment.{
  Roll, missing, queryset, sequence, collection, created_rows, type_error, new_enrollment, enroll,
  enroll_all, enroll_candidates,
}
use vmlc_backend.Competition.Enrollment.Enrolled.{
  HasUniqueEnrollments, IsEnrolled, enroll_candidates-IsEnrolled,
}

abbrev screening : Stage
screening = record {
  id = 1;
  competition = 7;
  type = StageType.screening;
  order = 1;
  advancement_policy = none;
}

abbrev stages : List Stage
stages =
    record {
      id = 2;
      competition = 7;
      type = StageType.league;
      order = 2;
      advancement_policy = none;
    }
    ∷ record {
      id = 1;
      competition = 7;
      type = StageType.screening;
      order = 1;
      advancement_policy = none;
    }
    ∷ []

abbrev roll : Roll
roll = record { enrollments = new_enrollment 10 7 1 1 ∷ []; progress = []; next_enrollment = 11 }

abbrev enrolled : Roll × ℕ
enrolled = enroll_all 7 1 (1 ∷ 2 ∷ []) roll

enroll_runs : enroll_candidates stages 7 (queryset (1 ∷ 2 ∷ [])) [] roll ≡ created_rows enrolled.0 1
unfolding enroll_candidates sort insert_sorted enroll_all enroll
enroll_runs = refl

-- A call without candidates enrolls whoever is not enrolled.
enroll_others : enroll_candidates stages 7 missing (1 ∷ 2 ∷ []) roll ≡ created_rows enrolled.0 1
unfolding enroll_candidates sort insert_sorted enroll_all enroll
enroll_others = refl

enroll_candidates-IsEnrolled_example :
    (t' : Roll) × (n : ℕ) × (enroll_candidates stages 7 (queryset (1 ∷ 2 ∷ [])) [] roll
      ≡ created_rows t' n)
    × (enroll_candidates stages 7 (collection (1 ∷ 2 ∷ [])) [] roll ≡ created_rows t' n)
    × IsEnrolled stages 7 (1 ∷ 2 ∷ []) [] roll t' n
    × (enroll_candidates stages 7 (sequence (1 ∷ 2 ∷ [])) [] roll ≡ type_error)
unfolding sort insert_sorted
enroll_candidates-IsEnrolled_example =
    enroll_candidates-IsEnrolled stages 7 (1 ∷ 2 ∷ []) [] roll screening refl

roll-HasUniqueEnrollments : HasUniqueEnrollments roll.enrollments
roll-HasUniqueEnrollments c k = ground arith
