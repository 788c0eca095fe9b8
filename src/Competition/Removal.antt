-- ===== src/Competition/Removal.antt =====
-- competition/services/promotion.py: the elimination of absentees, and the disqualification of a
-- candidate with its reversal.
pub mod Absentees
pub mod Reversal
use vmlc_backend.Prelude.{
  ℕ, ◌+◌, Bool, true, false, not, ◌&&◌, ◌||◌, Option, none, some, List, [], ◌∷◌, ◌++◌, map, ◌==◌,
  ltb, leb, opt_eq, if◌then◌else◌, select, update_where, first_where, any_of, length, is_in,
  is_some,
}
use vmlc_backend.Prelude.Sort.{sort}
use vmlc_backend.Competition.Model.{
  StageType, stage_eq, Competition, is_active_competition, Policy, Stage, EnrollmentStatus,
  is_active, is_disqualified, is_active_or_pending, Enrollment, ProgressStatus, is_in_progress,
  is_discontinued, StageProgress, Candidate, role_of_stage,
}
use vmlc_backend.Competition.Ranking.{Entry}
use vmlc_backend.Competition.Snapshot.{Snapshot}
use vmlc_backend.Competition.Leaderboard.{Leaderboard, LeaderboardEntry, latest_leaderboard, head}
use vmlc_backend.Competition.Promotion.{
  Tables, Failure, Result, and_then, require, find_competition, is_for, eliminate, discontinue,
}

-- The entries that `eliminate_league_absentees` looks for.
abbrev pub is_absentee : List Enrollment → Entry → Bool
is_absentee es e = not (is_some e.exam_score) && elim e.enrollment [
  | none ↦ false
  | some i ↦ any_of (λ r. r.id == i && is_active r.status) es
]

abbrev pub enrollments_of : List Entry → List ℕ
enrollments_of [] = []
enrollments_of (e ∷ es) = elim e.enrollment [
  | none ↦ enrollments_of es
  | some i ↦ i ∷ enrollments_of es
]

abbrev pub is_stage_of_type : List Stage → StageType → ℕ → Bool
is_stage_of_type stages type i = any_of (λ s. s.id == i && stage_eq s.type type) stages

-- `eliminate_league_absentees`
unfoldable pub eliminate_league_absentees : ℕ → ℕ → Tables → Result (ℕ × Tables)
eliminate_league_absentees now snapshot t =
    and_then (require Failure.does_not_exist (first_where (λ s. s.id == snapshot) t.snapshots))
      (λ r.
        if not (stage_eq r.stage StageType.league)
        then Result.done (0, t)
        else elim (select (is_absentee t.enrollments) r.entries) [
          | [] ↦ Result.done (0, t)
          | e ∷ es ↦
              let ids : List ℕ = enrollments_of (e ∷ es) in
              Result.done (
                length ids,
                record t {
                  enrollments = update_where (λ r. is_in r.id ids) (eliminate now) t.enrollments;
                  progress =
                      update_where
                        (λ p.
                          is_in p.enrollment ids
                          && (is_stage_of_type t.stages StageType.league p.stage
                              && is_in_progress p.status))
                        (discontinue now) t.progress;
                },
              )
        ])

-- The columns that `disqualify_candidate` and its reversal set; without a reason the metadata stays.
abbrev pub set_reason : Option (List ℕ) → Option (List ℕ) → Option (List ℕ)
set_reason none old = old
set_reason (some []) old = old
set_reason (some (x ∷ xs)) old = some (x ∷ xs)

abbrev pub disqualify : ℕ → Option (List ℕ) → Enrollment → Enrollment
disqualify now reason e = record e {
  status = EnrollmentStatus.disqualified;
  last_active_at = some now;
  disqualification_reason = set_reason reason e.disqualification_reason;
}

abbrev pub reinstate : Enrollment → Enrollment
reinstate e = record e { status = EnrollmentStatus.active; disqualification_reason = none }

abbrev pub resume : StageProgress → StageProgress
resume p = record p { status = ProgressStatus.in_progress; discontinued_at = none }

abbrev pub is_current : Enrollment → StageProgress → Bool
is_current e p = p.enrollment == e.id && opt_eq e.current_stage (some p.stage)

abbrev pub is_active_of : ℕ → ℕ → Enrollment → Bool
is_active_of competition candidate e = is_for competition (candidate ∷ []) e && is_active e.status

abbrev pub is_disqualified_of : ℕ → ℕ → Enrollment → Bool
is_disqualified_of competition candidate e =
    is_for competition (candidate ∷ []) e && is_disqualified e.status

-- `enrollment.save()`
abbrev pub save_enrollment : Enrollment → List Enrollment → List Enrollment
save_enrollment r es = update_where (λ e. e.id == r.id) (λ _. r) es

-- `disqualify_candidate`
unfoldable pub disqualify_candidate : ℕ → ℕ → Option ℕ → Option (List ℕ) → Tables → Result Tables
disqualify_candidate now candidate competition_id reason t =
    and_then (find_competition t competition_id) (λ c.
      and_then
        (require Failure.no_enrollment (first_where (is_active_of c.id candidate) t.enrollments))
        (λ e. Result.done (record t {
          enrollments = save_enrollment (disqualify now reason e) t.enrollments;
          progress = update_where (is_current e) (discontinue now) t.progress;
        })))

-- `undisqualify_candidate`
unfoldable pub undisqualify_candidate : ℕ → Option ℕ → Tables → Result Tables
undisqualify_candidate candidate competition_id t =
    and_then (find_competition t competition_id) (λ c.
      and_then
        (require Failure.no_enrollment
          (first_where (is_disqualified_of c.id candidate) t.enrollments))
        (λ e. Result.done (record t {
          enrollments = save_enrollment (reinstate e) t.enrollments;
          progress =
              update_where (λ p. is_current e p && is_discontinued p.status) resume t.progress;
        })))
