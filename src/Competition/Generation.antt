-- ===== src/Competition/Generation.antt =====
-- `generate_and_save_ranking` of competition/services/ranking.py: from the attempts of a concluded exam
-- to a stored snapshot. `percent` rounds a score as in Core/Scoring.antt, and `suspicion` is the average
-- suspicion score of an access, which the database computes.
pub mod Eligible
pub mod Rows
pub mod Generated
mod Tests
use vmlc_backend.Prelude.{
  ℕ, Bool, true, false, not, ◌&&◌, Option, none, some, List, [], ◌∷◌, map, ◌==◌, if◌then◌else◌,
  is_in, select,
}
use vmlc_backend.Prelude.Dict.{Dict}
use vmlc_backend.Competition.Model.{Enrollment, Candidate}
use vmlc_backend.Vmlc.Model.{ExamAccess, Attempts}
use vmlc_backend.Vmlc.Exam.{Slot, Exam, status, is_concluded}
use vmlc_backend.Core.Scoring.{compute_exam_results}
use vmlc_backend.Competition.Ranking.{
  AccessInfo, ScoreData, RankingPolicy, TieBreak, Entry, find_eligible_candidate_ids,
  build_candidate_scores, sort_candidates, assign_ranks,
}
use vmlc_backend.Competition.Snapshot.{Snapshot, create}

-- The rows of the query over ExamAccess.
abbrev pub access_info : (ℕ → Option ℕ) → ℕ → List ℕ → List ExamAccess → List AccessInfo
access_info suspicion exam eligible accesses =
    map
      (λ a. record {
        candidate = a.candidate;
        started_at = a.started_at;
        submitted_at = a.submitted_at;
        proctoring_status = a.proctoring_status;
        avg_suspicion = suspicion a.id;
      })
      (select (λ a. is_in a.candidate eligible && a.exam == exam) accesses)

abbrev pub stored_tie_break : RankingPolicy → TieBreak → Option TieBreak
stored_tie_break RankingPolicy.dense t = some t
stored_tie_break RankingPolicy.standard t = none

-- `_create_ranking_snapshot`, with the entries that are created for it.
abbrev pub new_snapshot : ℕ → Slot → ℕ → RankingPolicy → TieBreak → Option ℕ → List Entry → Snapshot
new_snapshot id slot exam policy tie_break actor entries = record {
  id = id;
  competition = slot.competition;
  stage = slot.stage_type;
  round = slot.round;
  exam = exam;
  is_active = true;
  is_published = false;
  published_at = none;
  entries = entries;
  ranking_policy = policy;
  tie_break_strategy = stored_tie_break policy tie_break;
  generated_by = actor;
  published_by = none;
  scheduled_publish_at = none;
}

-- The end of the method: without a candidate it raises RankingSnapshotGenerationError.
unfoldable pub save_ranking :
    ℕ
    → Slot
    → ℕ
    → RankingPolicy
    → TieBreak
    → Option ℕ
    → List Enrollment
    → Dict ScoreData
    → List Snapshot
    → Option (Snapshot × List Snapshot)
save_ranking id slot exam policy tie_break actor enrollments [] table = none
save_ranking id slot exam policy tie_break actor enrollments (x ∷ scores) table =
    let r : Snapshot = new_snapshot id slot exam policy tie_break actor (
      assign_ranks enrollments slot.competition (sort_candidates (x ∷ scores) policy tie_break)
        policy) in
    some (r, create r table)

module _ (percent : ℕ → ℕ → ℕ) (suspicion : ℕ → Option ℕ) where
  -- The dict of scores, over the attempts that have just been scored.
  abbrev pub scores_of :
      ℕ → Slot → List Candidate → List Enrollment → Option ℕ → Attempts → Dict ScoreData
  scores_of exam slot candidates enrollments absentee_score db =
      let eligible : List ℕ = find_eligible_candidate_ids slot.competition candidates enrollments in
      build_candidate_scores exam eligible db.results
        (access_info suspicion exam eligible db.accesses) absentee_score

  -- `generate_and_save_ranking`: the snapshot, the attempts with their scores, and the snapshots. It is a
  -- transaction, so `none`, an exception, changes nothing. `later` is the time of the scoring, and `id` the
  -- identifier of the new row.
  unfoldable pub generate_and_save_ranking :
      ℕ
      → ℕ
      → ℕ
      → Slot
      → Exam
      → RankingPolicy
      → TieBreak
      → Option ℕ
      → Option ℕ
      → List Candidate
      → List Enrollment
      → Attempts
      → List Snapshot
      → Option (Snapshot × Attempts × List Snapshot)
  unfolding save_ranking
  generate_and_save_ranking now later id slot e policy tie_break absentee_score actor candidates
        enrollments db table =
      if not (is_concluded (status now e))
      then none
      else (let scored : Attempts = compute_exam_results percent later e.id db in
          elim (save_ranking id slot e.id policy tie_break actor enrollments
            (scores_of e.id slot candidates enrollments absentee_score scored) table) [
              | none ↦ none
              | some (r, table') ↦ some (r, scored, table')
            ])
