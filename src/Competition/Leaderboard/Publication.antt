-- ===== src/Competition/Leaderboard/Publication.antt =====
-- The table of leaderboards under an update and a publication.
use vmlc_backend.Prelude.{
  ℕ, ◌≤◌, ◌≡◌, refl, ◌∙◌, ap, sym, subst, Bool, true, false, ◌&&◌, ◌||◌, none, some, List, [], ◌∷◌,
  arith, ◌==◌, inl, inr, Bool-cases, Option-cases, count_of, select, update_where, first_where,
  first_where-true, first_where-kept, first_where-replaced, ==_refl,
}
use vmlc_backend.Prelude.Sort.{sort}
use vmlc_backend.Prelude.Counts.{count_of-update-le}
use vmlc_backend.Competition.Model.{Enrollment}
use vmlc_backend.Competition.Snapshot.{Snapshot}
use vmlc_backend.Competition.Leaderboard.{
  Leaderboard, LeaderboardEntry, is_private_for, replace_entries, Total, rank_totals, total_le,
  totals, counted_entries, store_standings, store_leaderboard, update_league_leaderboard,
  is_other_public, hide, save_leaderboard, publish_leaderboard,
}

abbrev pub has_id : ℕ → Leaderboard → Bool
has_id i l = l.id == i

abbrev pub is_public_for : ℕ → Leaderboard → Bool
is_public_for competition l = l.competition == competition && l.is_public

abbrev pub is_for_round : ℕ → ℕ → Leaderboard → Bool
is_for_round competition round l = l.competition == competition && l.as_of_round == round

-- Identifiers are unique, and a competition has at most one public leaderboard.
pub record IsConsistent (table : List Leaderboard) : Type 0 where
  pub unique_ids : (i : ℕ) → count_of (has_id i) table ≤ 1
  pub one_public : (competition : ℕ) → count_of (is_public_for competition) table ≤ 1

abbrev shown : Leaderboard → Leaderboard
shown r = record r { is_public = true }

abbrev hidden : Leaderboard → List Leaderboard → List Leaderboard
hidden r table = update_where (is_other_public (shown r)) hide table

module _ (r : Leaderboard) (table : List Leaderboard) where
  save-has_id :
      (i : ℕ) → count_of (has_id i) (save_leaderboard (shown r) table) ≤ count_of (has_id i) table
  unfolding save_leaderboard
  save-has_id i = omega (
    arith,
    count_of-update-le (has_id i) (has_id i) (has_id r.id) (λ _. shown r) (hidden r table)
        (λ x q k. ground arith) (λ x q k. k),
    count_of-update-le (has_id i) (has_id i) (is_other_public (shown r)) hide table (λ x q k. k)
        (λ x q k. k),
  )

  -- Of the competition only the row itself can stay public.
  save-own :
      (c : ℕ)
      → (r.competition == c) ≡ true
      → count_of (is_public_for c) (save_leaderboard (shown r) table) ≤ count_of (has_id r.id) table
  unfolding save_leaderboard
  save-own c same = omega (
    arith,
    count_of-update-le (is_public_for c) (λ x. has_id r.id x || is_public_for c x) (has_id r.id)
        (λ _. shown r) (hidden r table) (λ x q k. ground arith) (λ x q k. ground arith),
    count_of-update-le (λ x. has_id r.id x || is_public_for c x) (has_id r.id)
        (is_other_public (shown r)) hide table (λ x q k. ground arith) (λ x q k. ground arith),
  )

  save-other :
      (c : ℕ)
      → (r.competition == c) ≡ false
      → count_of (is_public_for c) (save_leaderboard (shown r) table)
        ≤ count_of (is_public_for c) table
  unfolding save_leaderboard
  save-other c apart = omega (
    arith,
    count_of-update-le (is_public_for c) (is_public_for c) (has_id r.id) (λ _. shown r)
        (hidden r table) (λ x q k. ground arith) (λ x q k. k),
    count_of-update-le (is_public_for c) (is_public_for c) (is_other_public (shown r)) hide table
        (λ x q k. ground arith) (λ x q k. k),
  )

  save-IsConsistent : IsConsistent table → IsConsistent (save_leaderboard (shown r) table)
  save-IsConsistent h = record {
    unique_ids = λ i. omega (arith, save-has_id i, h.unique_ids i);
    one_public = λ c. elim (Bool-cases (r.competition == c)) [
      | inl e ↦ omega (arith, save-own c e, h.unique_ids r.id)
      | inr e ↦ omega (arith, save-other c e, h.one_public c)
    ];
  }

publish-some :
    (competition round : ℕ) (table table' : List Leaderboard)
    → publish_leaderboard competition round table ≡ some table'
    → (r : Leaderboard) × (first_where (is_for_round competition round) table ≡ some r)
      × (save_leaderboard (shown r) table ≡ table')
unfolding publish_leaderboard
publish-some competition round table table' h =
    elim (Option-cases (first_where (is_for_round competition round) table)) [
      | inl n ↦ absurd (let k : none ≡ some table' = rw (publish_leaderboard, n) at h in cc)
      | inr (r, s) ↦ (
        r,
        s,
        let k : some (save_leaderboard (shown r) table) ≡ some table' =
              rw (publish_leaderboard, s) at h in
            cc,
      )
    ]

-- A publication keeps the identifiers unique and at most one public leaderboard for a competition.
pub publish_leaderboard-IsConsistent :
    (competition round : ℕ) (table table' : List Leaderboard)
    → IsConsistent table
    → publish_leaderboard competition round table ≡ some table'
    → IsConsistent table'
publish_leaderboard-IsConsistent competition round table table' h k =
    let (r, s, q) = publish-some competition round table table' k in
    subst IsConsistent q (save-IsConsistent r table h)

-- The first row of a round is the row that a publication shows, with its entries as they are.
published_row :
    (competition round : ℕ) (table : List Leaderboard) (r : Leaderboard)
    → first_where (is_for_round competition round) table ≡ some r
    → first_where (is_for_round competition round) (save_leaderboard (shown r) table)
      ≡ some (shown r)
unfolding save_leaderboard
published_row competition round table r h =
    first_where-replaced (is_for_round competition round) (has_id r.id) (hidden r table) r (shown r)
      (first_where-true (is_for_round competition round) table h)
      (first_where-kept (is_for_round competition round) (is_other_public (shown r)) hide table r
        (λ x. refl) h (ground (arith, ==_refl r.id)))
      (==_refl r.id)

store-keeps_public :
    (fresh competition round : ℕ) (es : List LeaderboardEntry) (table table' : List Leaderboard)
    (r l : Leaderboard)
    → first_where (is_for_round competition round) table ≡ some r
    → r.is_public ≡ true
    → select (is_private_for competition round) table ≡ l ∷ []
    → store_leaderboard fresh competition round es table ≡ some table'
    → first_where (is_for_round competition round) table' ≡ some r
unfolding store_leaderboard
store-keeps_public fresh competition round es table table' r l h pub_r one k =
    let q : some (update_where (is_private_for competition round) (replace_entries es) table)
        ≡ some table' =
      rw (store_leaderboard, one) at k in
    let q' : update_where (is_private_for competition round) (replace_entries es) table ≡ table' =
      cc in
    subst (λ t. first_where (is_for_round competition round) t ≡ some r) q'
      (first_where-kept (is_for_round competition round) (is_private_for competition round)
        (replace_entries es) table r (λ x. refl) h (ground arith))

standings-keeps_public :
    (fresh competition round : ℕ) (ts : List Total) (table table' : List Leaderboard)
    (r l : Leaderboard)
    → first_where (is_for_round competition round) table ≡ some r
    → r.is_public ≡ true
    → select (is_private_for competition round) table ≡ l ∷ []
    → store_standings fresh competition round ts table ≡ some table'
    → first_where (is_for_round competition round) table' ≡ some r
unfolding store_standings
standings-keeps_public fresh competition round [] table table' r l h pub_r one k =
    let q : table ≡ table' = cc in
    subst (λ t. first_where (is_for_round competition round) t ≡ some r) q h
standings-keeps_public fresh competition round (t ∷ ts) table table' r l h pub_r one k =
    store-keeps_public fresh competition round (rank_totals 0 none 0 (t ∷ ts)) table table' r l h
      pub_r one k

-- If the newest leaderboard of a round is public and an older one of the round is private, then an
-- update and the publication after it leave the public one with the entries that it had: the update
-- writes into the private row and the publication shows the newest.
pub republish-stale :
    (fresh competition round : ℕ) (snapshots : List Snapshot) (enrollments : List Enrollment)
    (table updated published : List Leaderboard) (r l : Leaderboard)
    → first_where (is_for_round competition round) table ≡ some r
    → r.is_public ≡ true
    → select (is_private_for competition round) table ≡ l ∷ []
    → update_league_leaderboard fresh competition round snapshots enrollments table ≡ some updated
    → publish_leaderboard competition round updated ≡ some published
    → first_where (is_for_round competition round) published ≡ some r
unfolding update_league_leaderboard
republish-stale fresh competition round snapshots enrollments table updated published r l h pub_r
      one k j =
    let found : first_where (is_for_round competition round) updated ≡ some r =
      standings-keeps_public fresh competition round
        (sort total_le (totals enrollments (counted_entries competition round snapshots))) table
        updated r l h pub_r one k in
    let (s, e, q) = publish-some competition round updated published j in
    let same : s ≡ r = cc in
    let as_is : shown r ≡ r = rw pub_r in
    subst (λ t. first_where (is_for_round competition round) t ≡ some r) q
      (subst
        (λ x.
          first_where (is_for_round competition round) (save_leaderboard (shown x) updated)
          ≡ some r)
        (sym same) (published_row competition round updated r found ∙ ap some as_is))
