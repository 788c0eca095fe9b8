-- ===== src/Competition/Leaderboard/Update.antt =====
-- What `update_league_leaderboard` stores.
use vmlc_backend.Prelude.{
  ℕ, ◌≡◌, refl, subst, true, false, some, List, [], ◌∷◌, arith, inl, inr, ==_refl, Bool-cases, All,
  any_of, select, update_where, none,
}
use vmlc_backend.Prelude.Sort.{sort}
use vmlc_backend.Competition.Model.{Enrollment}
use vmlc_backend.Competition.Snapshot.{Snapshot}
use vmlc_backend.Competition.Leaderboard.{
  Leaderboard, LeaderboardEntry, Total, is_private_for, replace_entries, total_le, totals,
  rank_totals, counted_entries, store_leaderboard, store_standings, update_league_leaderboard,
}
use vmlc_backend.Competition.Leaderboard.Ranks.{board}

-- The rows of a table that are private and of the round.
abbrev pub HasEntries : ℕ → ℕ → List LeaderboardEntry → Leaderboard → Type 0
HasEntries competition round es l = is_private_for competition round l ≡ true → l.entries ≡ es

store-HasEntries_new :
    (competition round : ℕ) (es : List LeaderboardEntry) (table : List Leaderboard)
    → select (is_private_for competition round) table ≡ []
    → All (HasEntries competition round es) table
store-HasEntries_new competition round es [] h = tt
store-HasEntries_new competition round es (x ∷ xs) h =
    elim (Bool-cases (is_private_for competition round x)) [
      | inl e ↦
          absurd (let k : x ∷ select (is_private_for competition round) xs ≡ [] = rw e at h in cc)
      | inr e ↦ ((λ k. absurd (cc)), store-HasEntries_new competition round es xs (rw e at h))
    ]

store-HasEntries_old :
    (competition round : ℕ) (es : List LeaderboardEntry) (table : List Leaderboard)
    → All
        (HasEntries competition round es)
        (update_where (is_private_for competition round) (replace_entries es) table)
store-HasEntries_old competition round es [] = tt
store-HasEntries_old competition round es (x ∷ xs) =
    elim (Bool-cases (is_private_for competition round x)) [
      | inl e ↦ rw e ((λ k. refl), store-HasEntries_old competition round es xs)
      | inr e ↦ rw e ((λ k. absurd (cc)), store-HasEntries_old competition round es xs)
    ]

any_of-old :
    (competition round : ℕ) (es : List LeaderboardEntry) (table : List Leaderboard)
    (l : Leaderboard) (ls : List Leaderboard)
    → select (is_private_for competition round) table ≡ l ∷ ls
    → any_of
        (is_private_for competition round)
        (update_where (is_private_for competition round) (replace_entries es) table)
      ≡ true
any_of-old competition round es [] l ls h = absurd (cc)
any_of-old competition round es (x ∷ xs) l ls h =
    elim (Bool-cases (is_private_for competition round x)) [
      | inl e ↦ ground arith
      | inr e ↦
          let k : select (is_private_for competition round) xs ≡ l ∷ ls = rw e at h in
          ground (arith, any_of-old competition round es xs l ls k)
    ]

-- The table has a private row for the round, and every such row has the entries.
abbrev pub HasPrivate : ℕ → ℕ → List LeaderboardEntry → List Leaderboard → Type 0
HasPrivate competition round es table =
    All (HasEntries competition round es) table
    × (any_of (is_private_for competition round) table ≡ true)

store-HasPrivate :
    (fresh competition round : ℕ) (es : List LeaderboardEntry) (table table' : List Leaderboard)
    (found : List Leaderboard)
    → select (is_private_for competition round) table ≡ found
    → store_leaderboard fresh competition round es table ≡ some table'
    → HasPrivate competition round es table'
unfolding store_leaderboard
store-HasPrivate fresh competition round es table table' [] s h =
    let k : some (
          record {
            id = fresh;
            competition = competition;
            as_of_round = round;
            is_public = false;
            entries = es;
          }
          ∷ table)
        ≡ some table' =
      rw (store_leaderboard, s) at h in
    let q : record {
      id = fresh;
      competition = competition;
      as_of_round = round;
      is_public = false;
      entries = es;
    }
          ∷ table
        ≡ table' =
      cc in
    subst (HasPrivate competition round es) q (
      ((λ j. refl), store-HasEntries_new competition round es table s),
      ground (arith, ==_refl competition, ==_refl round),
    )
store-HasPrivate fresh competition round es table table' (l ∷ []) s h =
    let k : some (update_where (is_private_for competition round) (replace_entries es) table)
        ≡ some table' =
      rw (store_leaderboard, s) at h in
    let q : update_where (is_private_for competition round) (replace_entries es) table ≡ table' =
      cc in
    subst (HasPrivate competition round es) q (
      store-HasEntries_old competition round es table,
      any_of-old competition round es table l [] s,
    )
store-HasPrivate fresh competition round es table table' (l ∷ m ∷ ls) s h =
    absurd (let k : none ≡ some table' = rw (store_leaderboard, s) at h in cc)

standings-HasPrivate :
    (fresh competition round : ℕ) (ts : List Total) (t : Total) (rest : List Total)
    (table table' : List Leaderboard)
    → ts ≡ t ∷ rest
    → store_standings fresh competition round ts table ≡ some table'
    → HasPrivate competition round (rank_totals 0 none 0 ts) table'
unfolding store_standings
standings-HasPrivate fresh competition round [] t rest table table' q h = absurd (cc)
standings-HasPrivate fresh competition round (x ∷ xs) t rest table table' q h =
    store-HasPrivate fresh competition round (rank_totals 0 none 0 (x ∷ xs)) table table' _ refl h

-- If there are totals for a round and the update does not fail, then the table has a private
-- leaderboard for the round, and every private one has the ranked totals as its entries.
pub update-HasPrivate :
    (fresh competition round : ℕ) (snapshots : List Snapshot) (enrollments : List Enrollment)
    (table table' : List Leaderboard) (t : Total) (rest : List Total)
    → sort total_le (totals enrollments (counted_entries competition round snapshots)) ≡ t ∷ rest
    → update_league_leaderboard fresh competition round snapshots enrollments table ≡ some table'
    → HasPrivate competition round
        (board enrollments (counted_entries competition round snapshots))
        table'
unfolding update_league_leaderboard
update-HasPrivate fresh competition round snapshots enrollments table table' t rest some_total h =
    standings-HasPrivate fresh competition round
      (sort total_le (totals enrollments (counted_entries competition round snapshots))) t rest
      table table' some_total h
