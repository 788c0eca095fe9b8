-- ===== src/Competition/Removal/Absentees.antt =====
-- `eliminate_league_absentees` on the entries that the ranking service writes.
use vmlc_backend.Prelude.{
  ℕ, ◌≡◌, refl, ◌==◌, true, some, List, [], ◌∷◌, arith, select, first_where, is_some, All,
}
use vmlc_backend.Prelude.Dict.{Dict}
use vmlc_backend.Competition.Model.{Enrollment}
use vmlc_backend.Competition.Ranking.{Entry, ScoreData, RankingPolicy, assign_ranks}
use vmlc_backend.Competition.Ranking.Bounds.{assign_ranks-scored}
use vmlc_backend.Competition.Snapshot.{Snapshot}
use vmlc_backend.Competition.Promotion.{Tables, Result}
use vmlc_backend.Competition.Removal.{is_absentee, eliminate_league_absentees}

nobody_absent :
    (es : List Enrollment) (entries : List Entry)
    → All (λ e. is_some e.exam_score ≡ true) entries
    → select (is_absentee es) entries ≡ []
nobody_absent es [] h = refl
nobody_absent es (e ∷ rest) h = ground (arith, nobody_absent es rest h.1, h.0)

-- For a snapshot whose entries come from `_assign_ranks`, the elimination of absentees finds nobody
-- and changes nothing: the ranking writes a score for absent candidates too.
pub absentees-missed :
    (now snapshot : ℕ) (t : Tables) (r : Snapshot) (enrollments : List Enrollment) (competition : ℕ)
    (scores : Dict ScoreData) (policy : RankingPolicy)
    → first_where (λ s. s.id == snapshot) t.snapshots ≡ some r
    → r.entries ≡ assign_ranks enrollments competition scores policy
    → eliminate_league_absentees now snapshot t ≡ Result.done (0, t)
unfolding eliminate_league_absentees
absentees-missed now snapshot t r enrollments competition scores policy h k =
    let n : select (is_absentee t.enrollments) r.entries ≡ [] = rw k (
      nobody_absent t.enrollments (assign_ranks enrollments competition scores policy)
        (assign_ranks-scored enrollments competition scores policy)) in
    ground (arith, h, n)
