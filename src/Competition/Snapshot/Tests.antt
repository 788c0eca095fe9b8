-- ===== src/Competition/Snapshot/Tests.antt =====
-- Examples for the snapshots: two of one round, of which the older one is published.
use vmlc_backend.Prelude.{ℕ, ◌≡◌, refl, Bool, true, false, none, some, List, [], ◌∷◌, arith}
use vmlc_backend.Competition.Model.{StageType}
use vmlc_backend.Competition.Ranking.{RankingPolicy}
use vmlc_backend.Competition.Snapshot.{Snapshot, save, publish}
use vmlc_backend.Competition.Snapshot.Publish.{IsConsistent, publish-IsConsistent}

abbrev snapshot : ℕ → ℕ → Bool → Bool → Snapshot
snapshot id exam active published = record {
  id = id;
  competition = 7;
  stage = StageType.league;
  round = some 1;
  exam = exam;
  is_active = active;
  is_published = published;
  published_at = none;
  entries = [];
  ranking_policy = RankingPolicy.dense;
  tie_break_strategy = none;
  generated_by = none;
  published_by = none;
  scheduled_publish_at = none;
}

abbrev table : List Snapshot
table = snapshot 1 5 true true ∷ snapshot 2 6 true false ∷ []

table-IsConsistent : IsConsistent table
table-IsConsistent = record {
  unique_ids = λ i. ground arith;
  one_active = λ e. ground arith;
  one_published = λ c s n. ground arith;
}

-- Publishing the second withdraws the first.
publish_runs : publish 99 2 (some 4) table ≡ (
  (publish 99 2 (some 4) table).0,
  some (record (snapshot 2 6 true true) { published_at = some 99; published_by = some 4 }),
)
unfolding publish save
publish_runs = refl

publish-IsConsistent_example : IsConsistent (publish 99 2 (some 4) table).0
publish-IsConsistent_example = publish-IsConsistent 99 2 (some 4) table table-IsConsistent

abbrev shown : Snapshot
shown = record (snapshot 2 6 true true) { published_at = some 99; published_by = some 4 }
