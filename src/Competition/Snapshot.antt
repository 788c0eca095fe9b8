-- ===== src/Competition/Snapshot.antt =====
-- The model `RankingSnapshot` of competition/models.py, with its `save`, and `publish_ranking_task`
-- of competition/tasks.py.
pub mod Publish
pub mod Creation
pub mod Live
mod Tests
use vmlc_backend.Prelude.{
  ℕ, ◌+◌, Bool, true, false, not, ◌&&◌, ◌||◌, Option, none, some, List, [], ◌∷◌, ◌++◌, ◌==◌, opt_eq,
  if◌then◌else◌, update_where, first_where,
}
use vmlc_backend.Competition.Model.{StageType, stage_eq}
use vmlc_backend.Competition.Ranking.{RankingPolicy, TieBreak, Entry}

-- A row, with its entries and the keys of `meta` that the services write.
pub record Snapshot : Type 0 where
  pub id : ℕ
  pub competition : ℕ
  pub stage : StageType
  pub round : Option ℕ
  pub exam : ℕ
  pub is_active : Bool
  pub is_published : Bool
  pub published_at : Option ℕ
  pub entries : List Entry
  pub ranking_policy : RankingPolicy
  pub tie_break_strategy : Option TieBreak
  pub generated_by : Option ℕ
  pub published_by : Option ℕ
  pub scheduled_publish_at : Option ℕ

-- `filter(is_active=True, exam=...).exclude(pk=...)`
abbrev pub is_rival : ℕ → ℕ → Snapshot → Bool
is_rival id exam s = s.is_active && (s.exam == exam && not (s.id == id))

abbrev pub retire : Snapshot → Snapshot
retire s = record s { is_active = false }

-- The update that `save` makes first, for an active row.
abbrev pub deactivate_others : ℕ → ℕ → List Snapshot → List Snapshot
deactivate_others id exam table = update_where (is_rival id exam) retire table

-- `save` of a row that is in the table.
unfoldable pub save : Snapshot → List Snapshot → List Snapshot
save r table =
    update_where (λ s. s.id == r.id) (λ _. r)
      (if r.is_active then deactivate_others r.id r.exam table else table)

-- `objects.create`: `save` of a new row.
unfoldable pub create : Snapshot → List Snapshot → List Snapshot
create r table = (if r.is_active then deactivate_others r.id r.exam table else table) ++ r ∷ []

-- `filter(competition=..., stage=..., round=...)`
abbrev pub of_round : ℕ → StageType → Option ℕ → Snapshot → Bool
of_round competition stage round s =
    s.competition == competition && (stage_eq s.stage stage && opt_eq s.round round)

-- `filter(...).exclude(id=...)`
abbrev pub is_superseded : Snapshot → Snapshot → Bool
is_superseded r s = of_round r.competition r.stage r.round s && not (s.id == r.id)

abbrev pub withdraw : Snapshot → Snapshot
withdraw s = record s { is_published = false; published_at = none; is_active = false }

abbrev pub withdraw_others : Snapshot → List Snapshot → List Snapshot
withdraw_others r table = update_where (is_superseded r) withdraw table

abbrev or_else : Option ℕ → Option ℕ → Option ℕ
or_else none old = old
or_else (some a) old = some a

abbrev pub published : ℕ → Option ℕ → Snapshot → Snapshot
published now actor r = record r {
  is_active = true;
  is_published = true;
  published_at = some now;
  published_by = or_else actor r.published_by;
  scheduled_publish_at = none;
}

-- `publish_ranking_task`: the table, and the snapshot for whose publication the hooks run.
unfoldable pub publish : ℕ → ℕ → Option ℕ → List Snapshot → List Snapshot × Option Snapshot
unfolding save
publish now id actor table = elim (first_where (λ s. s.id == id) table) [
  | none ↦ (table, none)
  | some r ↦
      if not r.is_active || r.is_published
      then (table, none)
      else (save (published now actor r) (withdraw_others r table), some (published now actor r))
]
