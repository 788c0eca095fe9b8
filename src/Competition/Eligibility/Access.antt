-- ===== src/Competition/Eligibility/Access.antt =====
-- What `can_take_exam` stores, and who sees which leaderboard.
use vmlc_backend.Prelude.{
  ℕ, ◌≤◌, ◌≡◌, true, some, arith, inl, inr, ==_refl, Option-cases, first_where, first_where-append,
}
use vmlc_backend.Competition.Model.{Candidate, StageType}
use vmlc_backend.Vmlc.Model.{ExamAccess, Attempts, access_of}
use vmlc_backend.Vmlc.Exam.{Exam}
use vmlc_backend.Competition.Eligibility.{
  Rules, Verdict, get_or_create_access, can_take_exam, stage_level, can_view_leaderboard,
}

-- The attempt of the pair is in the table afterwards.
pub get_or_create_access-stored :
    (candidate exam : ℕ) (db : Attempts)
    → first_where (access_of candidate exam) (get_or_create_access candidate exam db).1.accesses
      ≡ some (get_or_create_access candidate exam db).0
unfolding get_or_create_access
get_or_create_access-stored candidate exam db =
    elim (Option-cases (first_where (access_of candidate exam) db.accesses)) [
      | inl n ↦
          rw (get_or_create_access, n)
            (rw (first_where-append, n) (ground (arith, ==_refl candidate, ==_refl exam)))
      | inr (a, s) ↦ rw (get_or_create_access, s, s)
    ]

-- With an attempt in the table the call returns it and changes nothing.
get_or_create_access-found :
    (candidate exam : ℕ) (db : Attempts) (a : ExamAccess)
    → first_where (access_of candidate exam) db.accesses ≡ some a
    → get_or_create_access candidate exam db ≡ (a, db)
unfolding get_or_create_access
get_or_create_access-found candidate exam db a h = rw (get_or_create_access, h)

pub get_or_create_twice :
    (candidate exam : ℕ) (db : Attempts)
    → get_or_create_access candidate exam (get_or_create_access candidate exam db).1
      ≡ get_or_create_access candidate exam db
get_or_create_twice candidate exam db =
    get_or_create_access-found candidate exam (get_or_create_access candidate exam db).1
      (get_or_create_access candidate exam db).0 (get_or_create_access-stored candidate exam db)

-- Asked a second time at the same moment, with the attempts as the first call left them, the call
-- gives the same verdict and stores nothing more.
pub can_take_exam_twice :
    (now : ℕ) (rules : Rules) (c : Candidate) (e : Exam) (db db' : Attempts) (v : Verdict)
    → can_take_exam now rules c e db ≡ some (v, db')
    → can_take_exam now rules c e db' ≡ some (v, db')
unfolding can_take_exam
can_take_exam_twice now rules c e db db' v h = ground (arith, get_or_create_twice c.pk e.id db)

-- Who may see the leaderboard of a stage may see that of every earlier one.
pub can_view_leaderboard-earlier :
    (rules : Rules) (c : Candidate) (early late : StageType)
    → stage_level early ≤ stage_level late
    → can_view_leaderboard rules c late ≡ true
    → can_view_leaderboard rules c early ≡ true
unfolding can_view_leaderboard
can_view_leaderboard-earlier rules c early late h k = ground arith
