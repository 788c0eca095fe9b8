-- ===== src/Identity/Permissions.antt =====
-- The permission classes of identity/permissions.py. A request is what they read of it: the user, the
-- two profiles, and the enrollment that the middleware of identity/middleware.py has attached. The API
-- key classes of the framework, and the lists that name them, are not modelled.
pub mod Hierarchy
pub mod Scores
mod Tests
use vmlc_backend.Prelude.{
  ℕ, Bool, true, false, not, ◌&&◌, ◌||◌, Option, none, some, List, [], ◌∷◌, ◌==◌, leb,
  if◌then◌else◌, is_some, any_of, opt_eq, select, first_where, count_of,
}
use vmlc_backend.Competition.Model.{
  StageType, stage_eq, Stage, Competition, is_active_competition, is_active, Enrollment,
}
use vmlc_backend.Competition.Snapshot.{Snapshot}
use vmlc_backend.Vmlc.Model.{is_submitted, ExamAccess, access_of}
use vmlc_backend.Identity.Roles.{Role, moderator, admin, has_minimum_role}

pub record StaffProfile : Type 0 where
  pub role : Role
  pub is_active : Bool

pub record Request : Type 0 where
  pub user : ℕ
  pub is_authenticated : Bool
  pub is_safe_method : Bool
  pub candidate_profile : Option ℕ
  pub staff_profile : Option StaffProfile
  pub enrollment : Option Enrollment

-- The tables that the classes query.
pub record Tables : Type 0 where
  pub competitions : List Competition
  pub stages : List Stage
  pub enrollments : List Enrollment
  pub snapshots : List Snapshot
  pub accesses : List ExamAccess

-- What a permission class answers; `get` of several rows ends in an error.
pub data Access : Type 0 where
  allowed denied server_error : Access

abbrev pub grant : Bool → Access
grant true = allowed
grant false = denied

-- `competition__status=ACTIVE`
abbrev pub in_active_competition : List Competition → Enrollment → Bool
in_active_competition cs e = any_of (λ c. c.id == e.competition && is_active_competition c) cs

-- `get_enrollment`
unfoldable pub get_enrollment : Tables → Request → Option Enrollment
get_enrollment db r = elim r.enrollment [
  | some e ↦ some e
  | none ↦ elim r.candidate_profile [
    | none ↦ none
    | some c ↦
        first_where
          (λ e. e.candidate == c && in_active_competition db.competitions e && is_active e.status)
          db.enrollments
  ]
]

unfoldable pub is_candidate : Request → Bool
is_candidate r = is_some r.candidate_profile

unfoldable pub is_staff : Request → Bool
is_staff r = is_some r.staff_profile

-- `settings.DEBUG or staff.is_active`
unfoldable pub is_active_staff : Bool → Request → Bool
is_active_staff debug r = elim r.staff_profile [ none ↦ false | some s ↦ debug || s.is_active ]

-- `HasMinimumStaffRole`
unfoldable pub has_minimum_staff_role : Role → Request → Bool
has_minimum_staff_role minimum r = elim r.staff_profile [
  | none ↦ false
  | some s ↦ has_minimum_role s.role minimum
]

-- The checks of `[HasMinimumStaffRole(role)] + ActiveStaff`, after the API key.
unfoldable pub active_permissions : Bool → Role → Request → Bool
active_permissions debug minimum r =
    has_minimum_staff_role minimum r && r.is_authenticated && is_active_staff debug r

unfoldable pub is_active_participant : Tables → Request → Bool
is_active_participant db r = elim (get_enrollment db r) [
  | none ↦ false
  | some e ↦ is_active e.status
]

abbrev pub stage_type : List Stage → Option ℕ → Option StageType
stage_type stages none = none
stage_type stages (some id) = elim (first_where (λ s. s.id == id) stages) [
  | none ↦ none
  | some s ↦ some s.type
]

-- `IsInStage`
unfoldable pub is_in_stage : List StageType → Tables → Request → Bool
is_in_stage allowed_stages db r = elim (get_enrollment db r) [
  | none ↦ false
  | some e ↦ is_active e.status && elim (stage_type db.stages e.current_stage) [
    | none ↦ false
    | some t ↦ any_of (λ a. stage_eq a t) allowed_stages
  ]
]

-- The condition on staff that three of the classes share.
abbrev pub is_active_with_role : Bool → Role → Request → Bool
is_active_with_role debug minimum r = elim r.staff_profile [
  | none ↦ false
  | some s ↦ (debug || s.is_active) && has_minimum_role s.role minimum
]

-- `IsLeagueParticipantOrStaffBase`
unfoldable pub is_league_participant_or_staff : Bool → Tables → Request → Bool
is_league_participant_or_staff debug db r =
    is_active_with_role debug moderator r || is_in_stage (StageType.league ∷ []) db r

-- `IsObjectOwnerOrActiveAdmin.has_object_permission`, of an object that belongs to a user.
unfoldable pub is_owner_or_active_admin : Bool → ℕ → Request → Bool
is_owner_or_active_admin debug owner r = r.user == owner || is_active_with_role debug admin r

-- `IsActiveModeratorOrCandidate`
unfoldable pub is_active_moderator_or_candidate : Bool → Request → Bool
is_active_moderator_or_candidate debug r = is_active_with_role debug moderator r || is_candidate r

-- `IsManagerForStaffDetail`; the flag tells whether the URL names a staff member.
abbrev is_manager : Role → Bool
is_manager Role.manager = true
is_manager Role.superadmin = true
is_manager _ = false

unfoldable pub is_manager_for_staff_detail : Bool → Request → Bool
is_manager_for_staff_detail names_staff r =
    if not names_staff
    then true
    else elim r.staff_profile [ none ↦ false | some s ↦ is_manager s.role ]

-- `RankingSnapshot.objects.get(exam_id=exam_id, is_published=True)`
abbrev pub is_published_for : ℕ → Snapshot → Bool
is_published_for exam s = s.exam == exam && s.is_published

pub data Scoreboard : Type 0 where
  leaderboard ranking another : Scoreboard

-- `CanViewScoreboard`. The test of the enrollment has no effect, as its `return` is missing.
unfoldable pub can_view_scoreboard : Scoreboard → Option ℕ → Tables → Request → Access
can_view_scoreboard board exam db r =
    if not r.is_authenticated
    then denied
    else (if is_staff r then allowed else elim board [
      | leaderboard ↦ allowed
      | another ↦ allowed
      | ranking ↦ elim exam [
        | none ↦ denied
        | some x ↦
            if leb 2 (count_of (is_published_for x) db.snapshots)
            then server_error
            else grant (is_some (first_where (is_published_for x) db.snapshots))
      ]
    ])

-- `CanViewOwnOrStaffRankingSnapshotEntry`, for a candidate and an exam that the URL may name.
abbrev pub is_enrolled_in : ℕ → ℕ → Enrollment → Bool
is_enrolled_in candidate competition e =
    e.candidate == candidate && e.competition == competition && is_active e.status

abbrev pub has_submitted : ℕ → ℕ → ExamAccess → Bool
has_submitted candidate exam a = access_of candidate exam a && is_submitted a.status

abbrev pub entry_access : ℕ → ℕ → Tables → Access
entry_access c x db =
    if leb 2 (count_of (is_published_for x) db.snapshots)
    then server_error
    else elim (first_where (is_published_for x) db.snapshots) [
      | none ↦ denied
      | some s ↦ grant (
          any_of (is_enrolled_in c s.competition) db.enrollments
          && any_of (has_submitted c s.exam) db.accesses)
    ]

unfoldable pub can_view_entry : Option ℕ → Option ℕ → Tables → Request → Access
can_view_entry requested exam db r =
    if not r.is_authenticated
    then denied
    else (if is_staff r then allowed else elim r.candidate_profile [
      | none ↦ denied
      | some c ↦
          if not (opt_eq (some c) requested)
          then denied
          else elim exam [ none ↦ denied | some x ↦ entry_access c x db ]
    ])
