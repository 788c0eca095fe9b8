-- ===== src/Competition/Generation/Generated.antt =====
-- What a generated ranking is, and what it leaves in the table.
use vmlc_backend.Prelude.{
  ℕ, ◌≡◌, sym, subst, true, false, Option, some, List, [], ◌∷◌, arith, inl, inr, Option-cases,
  count_of, count_of-append, ==_refl, ap, ◌∙◌, All, is_in, ◌==◌, if◌then◌else◌,
}
use vmlc_backend.Core.Scoring.Complete.{IsScored, is_scored_access, compute_exam_results-IsScored}
use vmlc_backend.Competition.Generation.Eligible.{
  one_if_eligible, find_eligible_candidate_ids-is_eligible,
}
use vmlc_backend.Competition.Generation.Rows.{
  has_entry, final_score, count_of-assigned, count_of-scored,
}
use vmlc_backend.Prelude.Dict.{Dict}
use vmlc_backend.Competition.Model.{Enrollment, Candidate}
use vmlc_backend.Vmlc.Model.{Attempts}
use vmlc_backend.Vmlc.Exam.{Slot, Exam, status, is_concluded}
use vmlc_backend.Core.Scoring.{compute_exam_results}
use vmlc_backend.Competition.Ranking.{
  ScoreData, RankingPolicy, TieBreak, find_eligible_candidate_ids, sort_candidates, assign_ranks,
}
use vmlc_backend.Competition.Snapshot.{Snapshot, deactivate_others, create}
use vmlc_backend.Competition.Snapshot.Publish.{has_id, is_active_for, IsConsistent}
use vmlc_backend.Competition.Snapshot.Creation.{create-IsConsistent}
use vmlc_backend.Competition.Generation.{
  access_info, save_ranking, scores_of, generate_and_save_ranking,
}

-- A snapshot made of a dict of scores, and the table with it.
record IsRankingOf (id : ℕ) (slot : Slot) (exam : ℕ) (policy : RankingPolicy) (tie_break : TieBreak)
    (enrollments : List Enrollment) (scores : Dict ScoreData) (table : List Snapshot) (r : Snapshot)
    (table' : List Snapshot) : Type 0 where
  pub own_id : r.id ≡ id
  pub active : r.is_active ≡ true
  pub own_exam : r.exam ≡ exam
  pub hidden : r.is_published ≡ false
  pub ranks :
      r.entries
      ≡ assign_ranks enrollments slot.competition (sort_candidates scores policy tie_break) policy
  pub stored : table' ≡ create r table

save_ranking-IsRankingOf :
    (id : ℕ) (slot : Slot) (exam : ℕ) (policy : RankingPolicy) (tie_break : TieBreak)
    (actor : Option ℕ) (enrollments : List Enrollment) (scores : Dict ScoreData)
    (table table' : List Snapshot) (r : Snapshot)
    → save_ranking id slot exam policy tie_break actor enrollments scores table ≡ some (r, table')
    → IsRankingOf id slot exam policy tie_break enrollments scores table r table'
unfolding save_ranking
save_ranking-IsRankingOf id slot exam policy tie_break actor enrollments [] table table' r h =
    absurd (cc)
save_ranking-IsRankingOf id slot exam policy tie_break actor enrollments (x ∷ scores) table table' r
      h =
    record {
      own_id = ground arith;
      active = ground arith;
      own_exam = ground arith;
      hidden = ground arith;
      ranks = ground arith;
      stored = ground arith;
    }

table-active :
    (r : Snapshot) (table : List Snapshot)
    → r.is_active ≡ true
    → IsConsistent (create r table)
    → count_of (is_active_for r.exam) (create r table) ≡ 1
unfolding create
table-active r table k h =
    let others = if r.is_active then deactivate_others r.id r.exam table else table in
    ground (
      arith,
      k,
      h.one_active r.exam,
      ==_refl r.exam,
      count_of-append (is_active_for r.exam) others (r ∷ []),
    )

module _ (percent : ℕ → ℕ → ℕ) (suspicion : ℕ → Option ℕ) (now later id : ℕ) (slot : Slot)
    (e : Exam) (policy : RankingPolicy) (tie_break : TieBreak) (absentee_score actor : Option ℕ)
    (candidates : List Candidate) (enrollments : List Enrollment) (db scored : Attempts)
    (table table' : List Snapshot) (r : Snapshot) where
  -- The steps of a run that succeeds.
  generate_and_save_ranking-IsRankingOf :
      generate_and_save_ranking percent suspicion now later id slot e policy tie_break
          absentee_score actor candidates enrollments db table
        ≡ some (r, scored, table')
      → (is_concluded (status now e) ≡ true)
        × (scored ≡ compute_exam_results percent later e.id db)
        × IsRankingOf id slot e.id policy tie_break enrollments
            (scores_of percent suspicion e.id slot candidates enrollments absentee_score scored)
            table
            r
            table'
  unfolding generate_and_save_ranking
  generate_and_save_ranking-IsRankingOf h =
      let now_scored : Attempts = compute_exam_results percent later e.id db in
      let scores : Dict ScoreData =
        scores_of percent suspicion e.id slot candidates enrollments absentee_score now_scored in
      elim (Option-cases
        (save_ranking id slot e.id policy tie_break actor enrollments scores table)) [
          | inl n ↦ absurd (ground arith)
          | inr ((s, t), q) ↦
              let k : scored ≡ now_scored = ground arith in
              let kr : s ≡ r = ground arith in
              let kt : t ≡ table' = ground arith in
              (
                ground arith,
                k,
                subst
                    (λ d.
                      IsRankingOf id slot e.id policy tie_break enrollments
                        (scores_of percent suspicion e.id slot candidates enrollments absentee_score
                          d)
                        table r table')
                    (sym k)
                    (subst
                      (λ x.
                        IsRankingOf id slot e.id policy tie_break enrollments scores table x table')
                      kr
                      (subst (IsRankingOf id slot e.id policy tie_break enrollments scores table s)
                        kt
                        (save_ranking-IsRankingOf id slot e.id policy tie_break actor enrollments
                          scores table t s q))),
              )
        ]

  -- With a fresh identifier the snapshots stay consistent: among others, the new snapshot is the only
  -- active one of its exam.
  generate_and_save_ranking-IsConsistent :
      generate_and_save_ranking percent suspicion now later id slot e policy tie_break
          absentee_score actor candidates enrollments db table
        ≡ some (r, scored, table')
      → IsConsistent table
      → count_of (has_id id) table ≡ 0
      → IsConsistent table'
  generate_and_save_ranking-IsConsistent h c fresh =
      let (_, _, g) = generate_and_save_ranking-IsRankingOf h in
      subst IsConsistent (sym g.stored) (
        create-IsConsistent r table c
          (subst (λ i. count_of (has_id i) table ≡ 0) (sym g.own_id) fresh) g.hidden)

  ranked_rows :
      (c : ℕ)
      → generate_and_save_ranking percent suspicion now later id slot e policy tie_break
          absentee_score actor candidates enrollments db table
        ≡ some (r, scored, table')
      → (count_of (λ x. x.candidate_id == c) r.entries
          ≡ one_if_eligible slot.competition candidates enrollments c)
        × (count_of (has_entry c (final_score e.id scored.results absentee_score c)) r.entries
            ≡ one_if_eligible slot.competition candidates enrollments c)
  ranked_rows c h =
      let (_, _, g) = generate_and_save_ranking-IsRankingOf h in
      let eligible = find_eligible_candidate_ids slot.competition candidates enrollments in
      let infos = access_info suspicion e.id eligible scored.accesses in
      let k : (if is_in c eligible then 1 else 0)
          ≡ one_if_eligible slot.competition candidates enrollments c =
        ap (λ b. if b then 1 else 0)
          (find_eligible_candidate_ids-is_eligible slot.competition c candidates enrollments) in
      (
        ap (count_of (λ x. x.candidate_id == c)) g.ranks
            ∙ count_of-assigned enrollments slot.competition e.id policy tie_break eligible
                scored.results infos absentee_score c
            ∙ k,
        ap (count_of (has_entry c (final_score e.id scored.results absentee_score c))) g.ranks
            ∙ count_of-scored enrollments slot.competition e.id policy tie_break eligible
                scored.results infos absentee_score c
            ∙ k,
      )

  -- A ranking is generated only of a concluded exam, and every SUBMITTED access to it is scored
  -- before. Of each candidate the snapshot has one entry, with the highest score that the candidate
  -- has in the exam after the scoring (or that of an absentee, by default 0), if an account that is
  -- active and verified has an active enrollment in the competition, and else none. In a consistent
  -- table where its identifier is new, the table that it leaves is consistent, with exactly one
  -- active snapshot of the exam.
  pub generate_and_save_ranking-IsGenerated :
      generate_and_save_ranking percent suspicion now later id slot e policy tie_break
          absentee_score actor candidates enrollments db table
        ≡ some (r, scored, table')
      → IsConsistent table
      → count_of (has_id id) table ≡ 0
      → (is_concluded (status now e) ≡ true)
        × All
            (λ a.
              is_scored_access e.id a ≡ true
              → IsScored percent scored a.candidate e.id scored.results)
            db.accesses
        × ((c : ℕ)
            → (count_of (λ x. x.candidate_id == c) r.entries
                ≡ one_if_eligible slot.competition candidates enrollments c)
              × (count_of (has_entry c (final_score e.id scored.results absentee_score c)) r.entries
                  ≡ one_if_eligible slot.competition candidates enrollments c))
        × IsConsistent table'
        × (count_of (is_active_for e.id) table' ≡ 1)
  generate_and_save_ranking-IsGenerated h consistent fresh =
      let (concluded, s, g) = generate_and_save_ranking-IsRankingOf h in
      let whole : IsConsistent table' = generate_and_save_ranking-IsConsistent h consistent fresh in
      (
        concluded,
        subst
            (λ x.
              All
                (λ a.
                  is_scored_access e.id a ≡ true → IsScored percent x a.candidate e.id x.results)
                db.accesses)
            (sym s) (compute_exam_results-IsScored percent later e.id db),
        λ c. ranked_rows c h,
        whole,
        rw (sym g.own_exam, g.stored)
            (table-active r table g.active (subst IsConsistent g.stored whole)),
      )
