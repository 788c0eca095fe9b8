-- ===== src/Competition/Promotion.antt =====
-- competition/services/promotion.py: `promote_candidates`.
-- The operations are transactions: a failure leaves the tables as they were.
pub mod Cutoff
pub mod Effect
pub mod Whole
mod Tests
use vmlc_backend.Prelude.{
  ℕ, ◌+◌, Bool, true, false, not, ◌&&◌, ◌||◌, Option, none, some, List, [], ◌∷◌, ◌++◌, map, ◌==◌,
  ltb, leb, opt_eq, if◌then◌else◌, select, update_where, first_where, any_of, length, is_in,
  is_some,
}
use vmlc_backend.Prelude.Sort.{sort}
use vmlc_backend.Competition.Model.{
  StageType, stage_eq, Competition, is_active_competition, Policy, Stage, EnrollmentStatus,
  is_active, is_disqualified, is_active_or_pending, Enrollment, ProgressStatus, is_in_progress,
  is_discontinued, StageProgress, Candidate, role_of_stage,
}
use vmlc_backend.Competition.Ranking.{Entry}
use vmlc_backend.Competition.Snapshot.{Snapshot}
use vmlc_backend.Competition.Leaderboard.{Leaderboard, LeaderboardEntry, latest_leaderboard, head}

-- The tables that the service reads and writes.
pub record Tables : Type 0 where
  pub competitions : List Competition
  pub stages : List Stage
  pub enrollments : List Enrollment
  pub progress : List StageProgress
  pub candidates : List Candidate
  pub snapshots : List Snapshot
  pub leaderboards : List Leaderboard

-- The messages of `PromotionError`, and DoesNotExist of an unknown identifier.
pub data Failure : Type 0 where
  does_not_exist no_competition no_source_stage no_target_stage no_policy no_ranking
        no_leaderboard :
      Failure
  empty_stage unsupported_mode unsupported_stage no_enrollment : Failure

pub data Result {ℓ} (A : Type ℓ) : Type ℓ where
  failed : Failure → Result A
  done : A → Result A

abbrev pub and_then {ℓ κ} : {A : Type ℓ} {B : Type κ} → Result A → (A → Result B) → Result B
and_then (Result.failed e) f = Result.failed e
and_then (Result.done a) f = f a

abbrev pub require {ℓ} : {A : Type ℓ} → Failure → Option A → Result A
require e none = Result.failed e
require e (some a) = Result.done a

-- The competition: by its identifier, or the active one.
abbrev pub find_competition : Tables → Option ℕ → Result Competition
find_competition t none =
    require Failure.no_competition (first_where is_active_competition t.competitions)
find_competition t (some i) =
    require Failure.does_not_exist (first_where (λ c. c.id == i) t.competitions)

abbrev pub find_stage : Tables → ℕ → StageType → Option Stage
find_stage t competition type =
    first_where (λ s. s.competition == competition && stage_eq s.type type) t.stages

-- `order_by("-published_at")`, where NULL is first.
abbrev pub published_le : Snapshot → Snapshot → Bool
published_le a b = elim a.published_at [
  | none ↦ true
  | some s ↦ elim b.published_at [ none ↦ false | some r ↦ leb r s ]
]

abbrev pub find_ranking : Tables → ℕ → Option Snapshot
find_ranking t competition = head (
    sort published_le (
      select
        (λ s.
          s.competition == competition
          && (stage_eq s.stage StageType.screening && (s.is_active && s.is_published)))
        t.snapshots))

abbrev pub find_leaderboard : Tables → ℕ → Option Leaderboard
find_leaderboard t competition = latest_leaderboard competition none t.leaderboards

-- `total_active_in_stage`
abbrev pub total_active : Tables → ℕ → StageType → Result ℕ
total_active t competition StageType.screening =
    and_then (require Failure.no_ranking (find_ranking t competition))
      (λ r. Result.done (length r.entries))
total_active t competition StageType.league =
    and_then (require Failure.no_leaderboard (find_leaderboard t competition))
      (λ l. Result.done (length l.entries))
total_active t competition StageType.final = Result.done 0

-- The candidates with a rank, and whether the cutoff is met; a rank None is in neither list.
abbrev pub ranked_entries : List Entry → List (ℕ × ℕ)
ranked_entries es = map (λ e. (e.candidate_id, e.rank)) es

abbrev pub ranked_rows : List LeaderboardEntry → List (ℕ × ℕ)
ranked_rows [] = []
ranked_rows (e ∷ es) = elim e.overall_rank [
  | none ↦ ranked_rows es
  | some r ↦ (e.candidate_id, r) ∷ ranked_rows es
]

abbrev pub ranks_of : Tables → ℕ → StageType → Result (List (ℕ × ℕ))
ranks_of t competition StageType.screening =
    and_then (require Failure.no_ranking (find_ranking t competition))
      (λ r. Result.done (ranked_entries r.entries))
ranks_of t competition StageType.league =
    and_then (require Failure.no_leaderboard (find_leaderboard t competition))
      (λ l. Result.done (ranked_rows l.entries))
ranks_of t competition StageType.final = Result.failed Failure.unsupported_stage

-- `rank__lte=cutoff_rank` and `rank__gt=cutoff_rank`
abbrev pub ids_upto : ℕ → List (ℕ × ℕ) → List ℕ
ids_upto cutoff rs = map (λ r. r.0) (select (λ r. leb r.1 cutoff) rs)

abbrev pub ids_beyond : ℕ → List (ℕ × ℕ) → List ℕ
ids_beyond cutoff rs = map (λ r. r.0) (select (λ r. not (leb r.1 cutoff)) rs)

-- The updates of the rows of the enrollments and of the progress.
abbrev pub is_for : ℕ → List ℕ → Enrollment → Bool
is_for competition ids e = e.competition == competition && is_in e.candidate ids

abbrev pub advance : ℕ → ℕ → Enrollment → Enrollment
advance now stage e = record e {
  current_stage = some stage;
  status = EnrollmentStatus.active;
  last_active_at = some now;
}

abbrev pub eliminate : ℕ → Enrollment → Enrollment
eliminate now e = record e { status = EnrollmentStatus.eliminated; last_active_at = some now }

abbrev pub promote_enrollments : ℕ → ℕ → ℕ → List ℕ → List ℕ → List Enrollment → List Enrollment
promote_enrollments now competition stage up out es =
    update_where (λ e. is_for competition out e && is_active_or_pending e.status) (eliminate now)
      (update_where (λ e. is_for competition up e && is_active e.status) (advance now stage) es)

-- The progress rows of a stage that belong to an enrollment of one of the candidates.
abbrev pub belongs_to : List Enrollment → ℕ → List ℕ → StageProgress → Bool
belongs_to es competition ids p = any_of (λ e. e.id == p.enrollment && is_for competition ids e) es

abbrev pub complete : ℕ → StageProgress → StageProgress
complete now p = record p { status = ProgressStatus.completed; completed_at = some now }

abbrev pub discontinue : ℕ → StageProgress → StageProgress
discontinue now p = record p { status = ProgressStatus.discontinued; discontinued_at = some now }

abbrev pub close_progress :
    ℕ → ℕ → ℕ → List ℕ → List ℕ → List Enrollment → List StageProgress → List StageProgress
close_progress now competition stage up out es ps =
    update_where (λ p. p.stage == stage && belongs_to es competition out p) (discontinue now)
      (update_where (λ p. p.stage == stage && belongs_to es competition up p) (complete now) ps)

abbrev pub is_progress : ℕ → ℕ → StageProgress → Bool
is_progress enrollment stage p = p.enrollment == enrollment && p.stage == stage

abbrev pub start : ℕ → StageProgress → StageProgress
start now p = record p { status = ProgressStatus.in_progress; started_at = some now }

abbrev pub new_progress : ℕ → ℕ → ℕ → StageProgress
new_progress now stage enrollment = record {
  enrollment = enrollment;
  stage = stage;
  status = ProgressStatus.in_progress;
  started_at = some now;
  completed_at = none;
  discontinued_at = none;
}

-- `EnrollmentStageProgress.objects.update_or_create(...)`
abbrev pub start_progress : ℕ → ℕ → ℕ → List StageProgress → List StageProgress
start_progress now stage enrollment ps =
    if any_of (is_progress enrollment stage) ps
    then update_where (is_progress enrollment stage) (start now) ps
    else ps ++ new_progress now stage enrollment ∷ []

unfoldable pub start_all : ℕ → ℕ → List Enrollment → List StageProgress → List StageProgress
start_all now stage [] ps = ps
start_all now stage (e ∷ es) ps = start_all now stage es (start_progress now stage e.id ps)

abbrev pub set_role : StageType → Candidate → Candidate
set_role type c = record c { role = role_of_stage type }

-- The writes of a promotion, once the two lists are known.
unfoldable pub apply_promotion : ℕ → ℕ → Stage → Stage → List ℕ → List ℕ → Tables → Tables
unfolding start_all
apply_promotion now competition source target up out t =
    let es : List Enrollment = promote_enrollments now competition target.id up out t.enrollments in
    record t {
      enrollments = es;
      candidates = update_where (λ c. is_in c.pk up) (set_role target.type) t.candidates;
      progress =
          start_all now target.id (select (is_for competition up) es)
            (close_progress now competition source.id up out es t.progress);
    }

-- The end of `promote_candidates`: nobody to promote is no promotion at all.
unfoldable pub finish : ℕ → ℕ → Stage → Stage → List ℕ → List ℕ → Tables → ℕ × Tables
finish now competition source target [] out t = (0, t)
finish now competition source target (i ∷ up) out t =
    (length (i ∷ up), apply_promotion now competition source target (i ∷ up) out t)

module _ (ceil_product : ℕ → ℕ → ℕ → ℕ) where
  -- `math.ceil(total * float(value))` with the value as a fraction is `ceil_product total num den`.
  abbrev pub policy_cutoff : Tables → ℕ → StageType → Policy → Result ℕ
  policy_cutoff t competition from_type (Policy.top_n n) = Result.done n
  policy_cutoff t competition from_type (Policy.top_percent num den) =
      and_then (total_active t competition from_type) (λ total.
        if ltb 0 total
        then Result.done
            (if ltb 1 (ceil_product total num den) then ceil_product total num den else 1)
        else Result.failed Failure.empty_stage)
  policy_cutoff t competition from_type Policy.unsupported = Result.failed Failure.unsupported_mode

  -- The effective cutoff rank.
  abbrev pub effective_cutoff : Tables → ℕ → Stage → StageType → Option ℕ → Result ℕ
  effective_cutoff t competition source from_type (some n) = Result.done n
  effective_cutoff t competition source from_type none =
      and_then (require Failure.no_policy source.advancement_policy)
        (policy_cutoff t competition from_type)

  -- `promote_candidates`: the number of promoted candidates, and the tables.
  unfoldable pub promote_candidates :
      ℕ → StageType → StageType → Option ℕ → Option ℕ → Tables → Result (ℕ × Tables)
  unfolding finish
  promote_candidates now from_type to_type cutoff_rank competition_id t =
      and_then (find_competition t competition_id) (λ c.
        and_then (require Failure.no_source_stage (find_stage t c.id from_type)) (λ source.
          and_then (require Failure.no_target_stage (find_stage t c.id to_type)) (λ target.
            and_then (effective_cutoff t c.id source from_type cutoff_rank) (λ cutoff.
              and_then (ranks_of t c.id from_type) (λ ranks. Result.done (
                finish now c.id source target (ids_upto cutoff ranks) (ids_beyond cutoff ranks)
                  t))))))
