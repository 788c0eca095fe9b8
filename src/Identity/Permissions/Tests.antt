-- ===== src/Identity/Permissions/Tests.antt =====
-- Examples for the permissions: a candidate who has submitted an exam with a published ranking.
use vmlc_backend.Prelude.{◌≡◌, ◌≢◌, refl, ◌↔◌, true, false, none, some, [], ◌∷◌, arith}
use vmlc_backend.Competition.Model.{StageType, EnrollmentStatus, Enrollment}
use vmlc_backend.Competition.Ranking.{RankingPolicy}
use vmlc_backend.Competition.Snapshot.{Snapshot}
use vmlc_backend.Competition.Snapshot.Publish.{IsConsistent}
use vmlc_backend.Vmlc.Model.{AccessStatus, ExamAccess}
use vmlc_backend.Identity.Roles.{Role}
use vmlc_backend.Identity.Permissions.{
  Request, Tables, allowed, server_error, ranking, is_staff, can_view_scoreboard, can_view_entry,
}
use vmlc_backend.Identity.Permissions.Scores.{MaySee, can_view_entry-MaySee, can_view_entry-answers}

abbrev ada : Request
ada = record {
  user = 5;
  is_authenticated = true;
  is_safe_method = true;
  candidate_profile = some 5;
  staff_profile = none;
  enrollment = none;
}

abbrev manager : Request
manager = record ada {
  candidate_profile = none;
  staff_profile = some (record { role = Role.manager; is_active = true });
}

abbrev snapshot : Snapshot
snapshot = record {
  id = 1;
  competition = 2;
  stage = StageType.league;
  round = some 1;
  exam = 3;
  is_active = true;
  is_published = true;
  published_at = some 10;
  entries = [];
  ranking_policy = RankingPolicy.standard;
  tie_break_strategy = none;
  generated_by = none;
  published_by = none;
  scheduled_publish_at = none;
}

abbrev enrolled : Enrollment
enrolled = record {
  id = 1;
  candidate = 5;
  competition = 2;
  current_stage = none;
  status = EnrollmentStatus.active;
  last_active_at = none;
  disqualification_reason = none;
}

abbrev submitted_access : ExamAccess
submitted_access = record {
  id = 1;
  exam = 3;
  candidate = 5;
  status = AccessStatus.submitted;
  started_at = some 1;
  deadline = some 2;
  submitted_at = some 2;
  proctoring_status = none;
  is_manually_reviewed = false;
  is_unlocked = false;
}

abbrev db : Tables
db = record {
  competitions = [];
  stages = [];
  enrollments = enrolled ∷ [];
  snapshots = snapshot ∷ [];
  accesses = submitted_access ∷ [];
}

can_view_entry-MaySee_example :
    (can_view_entry (some 5) (some 3) db ada ≡ allowed) ↔ MaySee (some 5) (some 3) db ada
unfolding is_staff
can_view_entry-MaySee_example = can_view_entry-MaySee (some 5) (some 3) db ada refl refl

own_entry : can_view_entry (some 5) (some 3) db ada ≡ allowed
unfolding can_view_entry is_staff
own_entry = refl

db-IsConsistent : IsConsistent db.snapshots
db-IsConsistent = record {
  unique_ids = λ i. ground arith;
  one_active = λ e. ground arith;
  one_published = λ c s r. ground arith;
}

can_view_entry-answers_example :
    (can_view_entry (some 5) (some 3) db ada ≢ server_error)
    × (can_view_scoreboard ranking (some 3) db ada ≢ server_error)
can_view_entry-answers_example =
    can_view_entry-answers (some 5) 3 2 StageType.league (some 1) db ada db-IsConsistent
      ((λ h. refl), tt)
