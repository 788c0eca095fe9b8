-- ===== src/Competition/Leaderboard.antt =====
-- competition/services/leaderboard.py, and the model `LeagueLeaderboard` of competition/models.py
-- with its `save`. The table is in the model's order, the newest row first.
pub mod Totals
pub mod Ranks
pub mod Publication
pub mod Update
mod Tests
use vmlc_backend.Prelude.{
  ℕ, ◌+◌, Bool, true, false, not, ◌&&◌, ◌||◌, Option, none, some, List, [], ◌∷◌, ◌++◌, ◌==◌, ltb,
  leb, if◌then◌else◌, select, update_where, first_where, map,
}
use vmlc_backend.Prelude.Int.{ℤ, pos, sub_ℕ}
use vmlc_backend.Prelude.Sort.{sort}
use vmlc_backend.Prelude.Dict.{Dict, lookup, insert}
use vmlc_backend.Competition.Model.{StageType, stage_eq, Enrollment, is_active}
use vmlc_backend.Competition.Ranking.{Entry, or_zero}
use vmlc_backend.Competition.Snapshot.{Snapshot}

pub record LeaderboardEntry : Type 0 where
  pub candidate_id : ℕ
  pub enrollment : ℕ
  pub total_score : ℕ
  pub overall_rank : Option ℕ

-- The service always sets `as_of_round`, and `stage` to LEAGUE.
pub record Leaderboard : Type 0 where
  pub id : ℕ
  pub competition : ℕ
  pub as_of_round : ℕ
  pub is_public : Bool
  pub entries : List LeaderboardEntry

-- `ordering`: `order_by("-as_of_round")`
abbrev pub round_le : Leaderboard → Leaderboard → Bool
round_le a b = leb b.as_of_round a.as_of_round

abbrev pub matches_public : Option Bool → Bool → Bool
matches_public none b = true
matches_public (some true) b = b
matches_public (some false) b = not b

abbrev pub head {ℓ} : {A : Type ℓ} → List A → Option A
head [] = none
head (x ∷ xs) = some x

-- The query of `get_latest_league_leaderboard`, for a competition.
unfoldable pub latest_leaderboard : ℕ → Option Bool → List Leaderboard → Option Leaderboard
latest_leaderboard competition is_public table = head (
    sort round_le
      (select (λ l. l.competition == competition && matches_public is_public l.is_public) table))

-- `previous_ranks`
abbrev pub previous_ranks : List LeaderboardEntry → Dict (Option ℕ) → Dict (Option ℕ)
previous_ranks [] d = d
previous_ranks (e ∷ es) d = previous_ranks es (insert e.candidate_id e.overall_rank d)

abbrev pub rank_change : Dict (Option ℕ) → LeaderboardEntry → ℤ
rank_change d e = elim (lookup e.candidate_id d) [
  | none ↦ pos 0
  | some none ↦ pos 0
  | some (some before) ↦ elim e.overall_rank [ none ↦ pos 0 | some rank ↦ sub_ℕ before rank ]
]

-- Ranks in order, None last.
abbrev pub rank_le : LeaderboardEntry × ℤ → LeaderboardEntry × ℤ → Bool
rank_le a b = elim b.0.overall_rank [
  | none ↦ true
  | some s ↦ elim a.0.overall_rank [ none ↦ false | some r ↦ leb r s ]
]

abbrev pub previous_entries : List Leaderboard → ℕ → ℕ → List LeaderboardEntry
previous_entries table competition round =
    if ltb 1 round
    then elim (first_where (λ l. l.competition == competition && l.as_of_round + 1 == round)
        table) [ none ↦ [] | some l ↦ l.entries ]
    else []

-- `_annotate_rank_changes`: `processed_entries`.
unfoldable pub annotate_rank_changes :
    List Leaderboard → ℕ → Leaderboard → List (LeaderboardEntry × ℤ)
annotate_rank_changes table competition l =
    let ranks : Dict (Option ℕ) =
      previous_ranks (previous_entries table competition l.as_of_round) [] in
    sort rank_le (map (λ e. (e, rank_change ranks e)) l.entries)

abbrev pub round_upto : ℕ → Option ℕ → Bool
round_upto n none = false
round_upto n (some r) = leb r n

-- `published_rankings`
abbrev pub is_counted : ℕ → ℕ → Snapshot → Bool
is_counted competition as_of_round s =
    s.competition == competition
    && (stage_eq s.stage StageType.league && (round_upto as_of_round s.round && s.is_active))

abbrev pub all_entries : List Snapshot → List Entry
all_entries [] = []
all_entries (s ∷ ss) = s.entries ++ all_entries ss

-- `enrollment__status=ACTIVE`, for an entry with an enrollment.
abbrev pub active_enrollment : List Enrollment → Entry → Option ℕ
active_enrollment es e = elim e.enrollment [
  | none ↦ none
  | some i ↦ elim (first_where (λ r. r.id == i) es) [
    | none ↦ none
    | some r ↦ if is_active r.status then some i else none
  ]
]

-- A group of the aggregation, by candidate and enrollment, with the sum of its scores.
pub record Total : Type 0 where
  pub candidate : ℕ
  pub enrollment : ℕ
  pub score : ℕ

abbrev pub is_group : ℕ → ℕ → Total → Bool
is_group candidate enrollment t = t.candidate == candidate && t.enrollment == enrollment

unfoldable pub add_score : ℕ → ℕ → ℕ → List Total → List Total
add_score c i s [] = record { candidate = c; enrollment = i; score = s } ∷ []
add_score c i s (t ∷ ts) =
    if is_group c i t then record t { score = t.score + s } ∷ ts else t ∷ add_score c i s ts

unfoldable pub totals : List Enrollment → List Entry → List Total
unfolding add_score
totals es [] = []
totals es (e ∷ rest) = elim (active_enrollment es e) [
  | none ↦ totals es rest
  | some i ↦ add_score e.candidate_id i (or_zero e.exam_score) (totals es rest)
]

-- `order_by("-total_score")`
abbrev pub total_le : Total → Total → Bool
total_le a b = leb b.score a.score

abbrev pub differs : Option ℕ → ℕ → Bool
differs none s = true
differs (some p) s = not (s == p)

-- The loop of `update_league_leaderboard` that assigns the ranks; `idx` is the index before it.
unfoldable pub rank_totals : ℕ → Option ℕ → ℕ → List Total → List LeaderboardEntry
rank_totals idx previous_score current_rank [] = []
rank_totals idx previous_score current_rank (t ∷ ts) =
    let rank : ℕ = if differs previous_score t.score then idx + 1 else current_rank in
    record {
      candidate_id = t.candidate;
      enrollment = t.enrollment;
      total_score = t.score;
      overall_rank = some rank;
    }
    ∷ rank_totals (idx + 1) (some t.score) rank ts

abbrev pub is_private_for : ℕ → ℕ → Leaderboard → Bool
is_private_for competition as_of_round l =
    l.competition == competition && (l.as_of_round == as_of_round && not l.is_public)

abbrev pub replace_entries : List LeaderboardEntry → Leaderboard → Leaderboard
replace_entries es l = record l { entries = es }

-- `get_or_create(...)`, then the entries replaced. A second private row for the round is the
-- exception MultipleObjectsReturned, which is `none`. `fresh` is the identifier of a new row.
unfoldable pub store_leaderboard :
    ℕ → ℕ → ℕ → List LeaderboardEntry → List Leaderboard → Option (List Leaderboard)
store_leaderboard fresh competition as_of_round es table =
    elim (select (is_private_for competition as_of_round) table) [
      | [] ↦ some (
          record {
            id = fresh;
            competition = competition;
            as_of_round = as_of_round;
            is_public = false;
            entries = es;
          }
          ∷ table)
      | l ∷ [] ↦
          some (update_where (is_private_for competition as_of_round) (replace_entries es) table)
      | l ∷ k ∷ ls ↦ none
    ]

-- The totals in order: without any nothing is stored.
unfoldable pub store_standings :
    ℕ → ℕ → ℕ → List Total → List Leaderboard → Option (List Leaderboard)
unfolding rank_totals store_leaderboard
store_standings fresh competition as_of_round [] table = some table
store_standings fresh competition as_of_round (t ∷ ts) table =
    store_leaderboard fresh competition as_of_round (rank_totals 0 none 0 (t ∷ ts)) table

-- The entries of `published_rankings`.
abbrev pub counted_entries : ℕ → ℕ → List Snapshot → List Entry
counted_entries competition as_of_round snapshots =
    all_entries (select (is_counted competition as_of_round) snapshots)

-- `update_league_leaderboard`, for a competition that exists: the table afterwards.
unfoldable pub update_league_leaderboard :
    ℕ → ℕ → ℕ → List Snapshot → List Enrollment → List Leaderboard → Option (List Leaderboard)
unfolding totals store_standings
update_league_leaderboard fresh competition as_of_round snapshots enrollments table =
    store_standings fresh competition as_of_round
      (sort total_le (totals enrollments (counted_entries competition as_of_round snapshots))) table

-- The rows that `save` of a public row withdraws.
abbrev pub is_other_public : Leaderboard → Leaderboard → Bool
is_other_public r l = l.competition == r.competition && (l.is_public && not (l.id == r.id))

abbrev pub hide : Leaderboard → Leaderboard
hide l = record l { is_public = false }

unfoldable pub save_leaderboard : Leaderboard → List Leaderboard → List Leaderboard
save_leaderboard r table =
    update_where (λ l. l.id == r.id) (λ _. r)
      (if r.is_public then update_where (is_other_public r) hide table else table)

-- `publish_league_leaderboard_update`. Without a row the code fails on None, which is `none`.
unfoldable pub publish_leaderboard : ℕ → ℕ → List Leaderboard → Option (List Leaderboard)
unfolding save_leaderboard
publish_leaderboard competition as_of_round table =
    elim (first_where (λ l. l.competition == competition && l.as_of_round == as_of_round) table) [
      | none ↦ none
      | some l ↦ some (save_leaderboard (record l { is_public = true }) table)
    ]
