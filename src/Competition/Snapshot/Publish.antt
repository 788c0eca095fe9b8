-- ===== src/Competition/Snapshot/Publish.antt =====
-- The uniqueness rules of the snapshots, under creation and publication.
use vmlc_backend.Prelude.{
  ℕ, ◌≤◌, ◌≡◌, Bool, true, false, not, ◌&&◌, ◌||◌, Option, List, arith, ◌==◌, inl, inr, Bool-cases,
  Option-cases, count_of, update_where, first_where,
}
use vmlc_backend.Competition.Model.{StageType}
use vmlc_backend.Competition.Snapshot.{
  Snapshot, is_rival, retire, is_superseded, withdraw, deactivate_others, save, of_round,
  withdraw_others, published, publish,
}
use vmlc_backend.Prelude.Counts.{count_of-update-le}

abbrev pub has_id : ℕ → Snapshot → Bool
has_id i s = s.id == i

abbrev pub is_active_for : ℕ → Snapshot → Bool
is_active_for exam s = s.is_active && s.exam == exam

abbrev pub is_published_in : ℕ → StageType → Option ℕ → Snapshot → Bool
is_published_in competition stage round s = s.is_published && of_round competition stage round s

-- Identifiers are unique; an exam has at most one active snapshot, and a round of a stage at most
-- one published one, also where the round is None.
pub record IsConsistent (table : List Snapshot) : Type 0 where
  pub unique_ids : (i : ℕ) → count_of (has_id i) table ≤ 1
  pub one_active : (exam : ℕ) → count_of (is_active_for exam) table ≤ 1
  pub one_published :
      (competition : ℕ) (stage : StageType) (round : Option ℕ)
      → count_of (is_published_in competition stage round) table ≤ 1

-- The three updates of a publication, against a test that each of them preserves.
abbrev table_after : Snapshot → Snapshot → List Snapshot → List Snapshot
table_after r r' table =
    update_where (has_id r'.id) (λ _. r')
      (deactivate_others r'.id r'.exam (withdraw_others r table))

abbrev or_id : ℕ → (Snapshot → Bool) → Snapshot → Bool
or_id i p s = has_id i s || p s

of_round_same :
    (c : ℕ) (s : StageType) (n : Option ℕ) (r x : Snapshot)
    → of_round c s n r ≡ true
    → of_round c s n x ≡ true
    → of_round r.competition r.stage r.round x ≡ true
of_round_same c s n r x h k = ground arith

module _ (r : Snapshot) (table : List Snapshot) where
  withdraw_others-has_id :
      (i : ℕ) → count_of (has_id i) (withdraw_others r table) ≤ count_of (has_id i) table
  withdraw_others-has_id i =
      count_of-update-le (has_id i) (has_id i) (is_superseded r) withdraw table (λ x q h. h)
        (λ x q h. h)

  withdraw_others-active :
      (e : ℕ)
      → count_of (is_active_for e) (withdraw_others r table) ≤ count_of (is_active_for e) table
  withdraw_others-active e =
      count_of-update-le (is_active_for e) (is_active_for e) (is_superseded r) withdraw table
        (λ x q h. ground arith) (λ x q h. h)

  withdraw_others-published :
      (c : ℕ) (s : StageType) (n : Option ℕ)
      → count_of (is_published_in c s n) (withdraw_others r table)
        ≤ count_of (is_published_in c s n) table
  withdraw_others-published c s n =
      count_of-update-le (is_published_in c s n) (is_published_in c s n) (is_superseded r) withdraw
        table (λ x q h. ground arith) (λ x q h. h)

  -- Of the round of `r` no other row stays published.
  withdraw_others-round :
      (c : ℕ) (s : StageType) (n : Option ℕ)
      → of_round c s n r ≡ true
      → count_of (or_id r.id (is_published_in c s n)) (withdraw_others r table)
        ≤ count_of (has_id r.id) table
  withdraw_others-round c s n same =
      count_of-update-le (or_id r.id (is_published_in c s n)) (has_id r.id) (is_superseded r)
        withdraw table (λ x q h. ground arith) (λ x q h. ground (arith, of_round_same c s n r x))

pub deactivate_others-has_id :
    (i e j : ℕ) (table : List Snapshot)
    → count_of (has_id j) (deactivate_others i e table) ≤ count_of (has_id j) table
deactivate_others-has_id i e j table =
    count_of-update-le (has_id j) (has_id j) (is_rival i e) retire table (λ x q h. h) (λ x q h. h)

pub deactivate_others-active :
    (i e f : ℕ) (table : List Snapshot)
    → count_of (is_active_for f) (deactivate_others i e table) ≤ count_of (is_active_for f) table
deactivate_others-active i e f table =
    count_of-update-le (is_active_for f) (is_active_for f) (is_rival i e) retire table
      (λ x q h. ground arith) (λ x q h. h)

-- Of the exam no other row stays active.
deactivate_others-exam :
    (i e : ℕ) (table : List Snapshot)
    → count_of (or_id i (is_active_for e)) (deactivate_others i e table) ≤ count_of (has_id i) table
deactivate_others-exam i e table =
    count_of-update-le (or_id i (is_active_for e)) (has_id i) (is_rival i e) retire table
      (λ x q h. ground arith) (λ x q h. ground arith)

pub deactivate_others-published :
    (i e : ℕ) (c : ℕ) (s : StageType) (n : Option ℕ) (table : List Snapshot)
    → (count_of (is_published_in c s n) (deactivate_others i e table)
        ≤ count_of (is_published_in c s n) table)
      × (count_of (or_id i (is_published_in c s n)) (deactivate_others i e table)
          ≤ count_of (or_id i (is_published_in c s n)) table)
deactivate_others-published i e c s n table = (
  count_of-update-le (is_published_in c s n) (is_published_in c s n) (is_rival i e) retire table
      (λ x q h. h) (λ x q h. h),
  count_of-update-le (or_id i (is_published_in c s n)) (or_id i (is_published_in c s n))
      (is_rival i e) retire table (λ x q h. h) (λ x q h. h),
)

-- The replaced row counts for itself.
replace-le :
    (r' : Snapshot) (p : Snapshot → Bool) (table : List Snapshot)
    → (count_of p (update_where (has_id r'.id) (λ _. r') table) ≤ count_of (or_id r'.id p) table)
      × (p r' ≡ false → count_of p (update_where (has_id r'.id) (λ _. r') table) ≤ count_of p table)
replace-le r' p table = (
  count_of-update-le p (or_id r'.id p) (has_id r'.id) (λ _. r') table (λ x q h. rw q)
      (λ x q h. rw (q, h)),
  λ n. count_of-update-le p p (has_id r'.id) (λ _. r') table (λ x q h. absurd (cc)) (λ x q h. h),
)

module _ (r : Snapshot) (now : ℕ) (actor : Option ℕ) (table : List Snapshot) where
  abbrev after : List Snapshot
  after = table_after r (published now actor r) table

  after-has_id : (i : ℕ) → count_of (has_id i) after ≤ count_of (has_id i) table
  after-has_id i = omega (
    arith,
    count_of-update-le (has_id i) (has_id i) (has_id r.id) (λ _. published now actor r)
        (deactivate_others r.id r.exam (withdraw_others r table)) (λ x q k. ground arith)
        (λ x q k. k),
    deactivate_others-has_id r.id r.exam i (withdraw_others r table),
    withdraw_others-has_id r table i,
  )

  after-active : (e : ℕ) → IsConsistent table → count_of (is_active_for e) after ≤ 1
  after-active e h = elim (Bool-cases (r.exam == e)) [
    | inl q ↦ ground (
      arith,
      (replace-le (published now actor r) (is_active_for e)
          (deactivate_others r.id r.exam (withdraw_others r table))).0,
      deactivate_others-exam r.id r.exam (withdraw_others r table),
      withdraw_others-has_id r table r.id,
      h.unique_ids r.id,
    )
    | inr q ↦ omega (
      arith,
      (replace-le (published now actor r) (is_active_for e)
            (deactivate_others r.id r.exam (withdraw_others r table))).1
          q,
      deactivate_others-active r.id r.exam e (withdraw_others r table),
      withdraw_others-active r table e,
      h.one_active e,
    )
  ]

  after-published :
      (c : ℕ) (s : StageType) (n : Option ℕ)
      → IsConsistent table
      → count_of (is_published_in c s n) after ≤ 1
  after-published c s n h = elim (Bool-cases (of_round c s n r)) [
    | inl q ↦ omega (
      arith,
      (replace-le (published now actor r) (is_published_in c s n)
          (deactivate_others r.id r.exam (withdraw_others r table))).0,
      (deactivate_others-published r.id r.exam c s n (withdraw_others r table)).1,
      withdraw_others-round r table c s n q,
      h.unique_ids r.id,
    )
    | inr q ↦ omega (
      arith,
      (replace-le (published now actor r) (is_published_in c s n)
            (deactivate_others r.id r.exam (withdraw_others r table))).1
          q,
      (deactivate_others-published r.id r.exam c s n (withdraw_others r table)).0,
      withdraw_others-published r table c s n,
      h.one_published c s n,
    )
  ]

-- Publishing a snapshot, or refusing to, keeps the identifiers unique, at most one active snapshot
-- for an exam and at most one published snapshot for a round of a stage.
pub publish-IsConsistent :
    (now id : ℕ) (actor : Option ℕ) (table : List Snapshot)
    → IsConsistent table
    → IsConsistent (publish now id actor table).0
unfolding publish save
publish-IsConsistent now id actor table h =
    elim (Option-cases (first_where (λ s. s.id == id) table)) [
      | inl e ↦ rw (publish, e) h
      | inr (r, e) ↦ elim (Bool-cases (not r.is_active || r.is_published)) [
        | inl k ↦ rw (publish, e, k) h
        | inr k ↦
            rw (publish, e, k)
              record {
                unique_ids = λ i. omega (arith, after-has_id r now actor table i, h.unique_ids i);
                one_active = λ x. after-active r now actor table x h;
                one_published = λ c s n. after-published r now actor table c s n h;
              }
      ]
    ]
