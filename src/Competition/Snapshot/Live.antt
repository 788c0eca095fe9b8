-- ===== src/Competition/Snapshot/Live.antt =====
-- What a publication leaves in the table, and that it happens once.
use vmlc_backend.Prelude.{
  ℕ, ◌≡◌, refl, subst, sym, ==_iff, true, false, not, ◌||◌, Option, none, some, List, arith, inl,
  inr, Bool-cases, Option-cases, first_where, first_where-true, first_where-others,
  first_where-replace,
}
use vmlc_backend.Competition.Snapshot.{
  Snapshot, is_rival, retire, is_superseded, withdraw, deactivate_others, save, withdraw_others,
  published, publish,
}
use vmlc_backend.Competition.Snapshot.Publish.{has_id}

-- The row is in the table after a publication, as published.
first_where-published :
    (now : ℕ) (actor : Option ℕ) (r : Snapshot) (table : List Snapshot)
    → first_where (has_id r.id) table ≡ some r
    → first_where (has_id r.id) (save (published now actor r) (withdraw_others r table))
      ≡ some (published now actor r)
unfolding save
first_where-published now actor r table h =
    first_where-replace (has_id r.id) (deactivate_others r.id r.exam (withdraw_others r table)) r
      (published now actor r) (ground arith)
      (rw
        (
          first_where-others (has_id r.id) (is_rival r.id r.exam) retire (withdraw_others r table)
              (λ x. refl) (λ x k. ground arith),
          first_where-others (has_id r.id) (is_superseded r) withdraw table (λ x. refl)
              (λ x k. ground arith),
        )
        h)

-- The three outcomes of a publication, with the row that it found.
data Outcome (now id : ℕ) (actor : Option ℕ) (table : List Snapshot) : Type 0 where
  missing :
      first_where (has_id id) table ≡ none
      → publish now id actor table ≡ (table, none)
      → Outcome now id actor table
  refused :
      (r : Snapshot)
      → first_where (has_id id) table ≡ some r
      → (not r.is_active || r.is_published) ≡ true
      → publish now id actor table ≡ (table, none)
      → Outcome now id actor table
  done :
      (r : Snapshot)
      → first_where (has_id id) table ≡ some r
      → (not r.is_active || r.is_published) ≡ false
      → publish now id actor table
        ≡ (save (published now actor r) (withdraw_others r table), some (published now actor r))
      → Outcome now id actor table

outcome : (now id : ℕ) (actor : Option ℕ) (table : List Snapshot) → Outcome now id actor table
unfolding publish
outcome now id actor table = elim (Option-cases (first_where (has_id id) table)) [
  | inl e ↦ missing e (rw (publish, e))
  | inr (r, e) ↦ elim (Bool-cases (not r.is_active || r.is_published)) [
    | inl k ↦ refused r e k (rw (publish, e, k))
    | inr k ↦ done r e k (rw (publish, e, k))
  ]
]

publish-missing :
    (now id : ℕ) (actor : Option ℕ) (table : List Snapshot)
    → first_where (has_id id) table ≡ none
    → publish now id actor table ≡ (table, none)
unfolding publish
publish-missing now id actor table h = rw (publish, h)

publish-refused :
    (now id : ℕ) (actor : Option ℕ) (table : List Snapshot) (r : Snapshot)
    → first_where (has_id id) table ≡ some r
    → (not r.is_active || r.is_published) ≡ true
    → publish now id actor table ≡ (table, none)
unfolding publish
publish-refused now id actor table r h k = rw (publish, h, k)

id-found :
    (id : ℕ) (r : Snapshot) (table : List Snapshot)
    → first_where (has_id id) table ≡ some r
    → first_where (has_id r.id) table ≡ some r
id-found id r table h =
    let q : r.id ≡ id = (==_iff r.id id).0 (first_where-true (has_id id) table h) in
    subst (λ i. first_where (has_id i) table ≡ some r) (sym q) h

-- If a publication hands a snapshot to its hooks, then the table had the row, active and not
-- published, and afterwards has exactly what was handed over: the row active, published at the
-- time given and without a schedule, with its entries as they were.
pub publish-shown :
    (now id : ℕ) (actor : Option ℕ) (table : List Snapshot) (shown : Snapshot)
    → (publish now id actor table).1 ≡ some shown
    → ((r : Snapshot) × (first_where (has_id id) table ≡ some r)
        × (r.is_active ≡ true)
        × (r.is_published ≡ false)
        × (shown.entries ≡ r.entries))
      × (first_where (has_id shown.id) (publish now id actor table).0 ≡ some shown)
      × (shown.is_active ≡ true)
      × (shown.is_published ≡ true)
      × (shown.published_at ≡ some now)
      × (shown.scheduled_publish_at ≡ none)
publish-shown now id actor table shown h = elim (outcome now id actor table) [
  | missing e p ↦ absurd (let k : none ≡ some shown = rw p at h in cc)
  | refused r e k p ↦ absurd (let k : none ≡ some shown = rw p at h in cc)
  | done r e k p ↦ rw p (
      let q : published now actor r ≡ shown = ground (arith, (rw p at h)) in
      subst
        (λ t.
          ((r : Snapshot) × (first_where (has_id id) table ≡ some r)
            × (r.is_active ≡ true)
            × (r.is_published ≡ false)
            × (t.entries ≡ r.entries))
          × (first_where (has_id t.id) (save (published now actor r) (withdraw_others r table))
              ≡ some t)
          × (t.is_active ≡ true)
          × (t.is_published ≡ true)
          × (t.published_at ≡ some now)
          × (t.scheduled_publish_at ≡ none))
        q
        (
          (r, e, ground arith, ground arith, refl),
          first_where-published now actor r table (id-found id r table e),
          refl,
          refl,
          refl,
          refl,
        ))
]

-- A publication is done once: the same identifier published again, whenever and by whomever,
-- changes nothing and runs no hook.
pub publish_twice :
    (now later id : ℕ) (actor other : Option ℕ) (table : List Snapshot)
    → publish later id other (publish now id actor table).0 ≡ ((publish now id actor table).0, none)
publish_twice now later id actor other table = elim (outcome now id actor table) [
  | missing e p ↦ rw p (publish-missing later id other table e)
  | refused r e k p ↦ rw p (publish-refused later id other table r e k)
  | done r e k p ↦ rw p (
      let q : r.id ≡ id = (==_iff r.id id).0 (first_where-true (has_id id) table e) in
      publish-refused later id other (save (published now actor r) (withdraw_others r table))
        (published now actor r)
        (subst
          (λ i.
            first_where (has_id i) (save (published now actor r) (withdraw_others r table))
            ≡ some (published now actor r))
          q (first_where-published now actor r table (id-found id r table e)))
        refl)
]
