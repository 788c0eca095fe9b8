-- ===== src/Competition/Snapshot/Creation.antt =====
-- The uniqueness rules of the snapshots, under creation.
use vmlc_backend.Prelude.{
  ℕ, ◌≤◌, ◌≡◌, Bool, true, false, List, [], ◌∷◌, ◌++◌, arith, ◌==◌, ==_iff, if-cases, count_of,
  count_of-append,
}
use vmlc_backend.Competition.Snapshot.{Snapshot, is_rival, retire, deactivate_others, create}
use vmlc_backend.Prelude.Counts.{count_of-update-le}
use vmlc_backend.Competition.Snapshot.Publish.{
  has_id, is_active_for, is_published_in, IsConsistent, deactivate_others-has_id,
  deactivate_others-active, deactivate_others-published,
}

-- A row is appended to a table that has no other row of its kind.
append-le :
    (p : Snapshot → Bool) (table : List Snapshot) (r : Snapshot)
    → count_of p table ≤ 1
    → (p r ≡ true → count_of p table ≡ 0)
    → count_of p (table ++ r ∷ []) ≤ 1
append-le p table r h k = ground (arith, count_of-append p table (r ∷ []), k)

module _ (r : Snapshot) (table : List Snapshot) (fresh : count_of (has_id r.id) table ≡ 0) where
  fresh-id : (i : ℕ) → (r.id == i) ≡ true → count_of (has_id i) table ≡ 0
  fresh-id i k = rw ((==_iff r.id i).0 k) at fresh

  fresh-active :
      (x : ℕ)
      → (r.exam == x) ≡ true
      → count_of (is_active_for x) (deactivate_others r.id r.exam table) ≡ 0
  fresh-active x k = omega (
    arith,
    count_of-update-le (is_active_for x) (has_id r.id) (is_rival r.id r.exam) retire table
        (λ y q j. ground arith) (λ y q j. ground arith),
    fresh,
  )

-- Creating an unpublished snapshot with a fresh identifier keeps the same rules.
pub create-IsConsistent :
    (r : Snapshot) (table : List Snapshot)
    → IsConsistent table
    → count_of (has_id r.id) table ≡ 0
    → r.is_published ≡ false
    → IsConsistent (create r table)
unfolding create
create-IsConsistent r table h fresh hidden =
    if-cases (λ T. IsConsistent (T ++ r ∷ [])) r.is_active (deactivate_others r.id r.exam table)
      table
      (λ e. record {
        unique_ids = λ i.
            append-le (has_id i) (deactivate_others r.id r.exam table) r
              (omega (arith, deactivate_others-has_id r.id r.exam i table, h.unique_ids i))
              (λ k.
                omega (
                  arith,
                  deactivate_others-has_id r.id r.exam i table,
                  fresh-id r table fresh i k,
                ));
        one_active = λ x.
            append-le (is_active_for x) (deactivate_others r.id r.exam table) r
              (omega (arith, deactivate_others-active r.id r.exam x table, h.one_active x))
              (λ k. fresh-active r table fresh x (ground arith));
        one_published = λ c s n.
            append-le (is_published_in c s n) (deactivate_others r.id r.exam table) r
              (omega (
                arith,
                (deactivate_others-published r.id r.exam c s n table).0,
                h.one_published c s n,
              ))
              (λ k. absurd (cc));
      })
      (λ e. record {
        unique_ids = λ i. append-le (has_id i) table r (h.unique_ids i) (fresh-id r table fresh i);
        one_active = λ x. append-le (is_active_for x) table r (h.one_active x) (λ k. absurd (cc));
        one_published = λ c s n.
            append-le (is_published_in c s n) table r (h.one_published c s n) (λ k. absurd (cc));
      })
