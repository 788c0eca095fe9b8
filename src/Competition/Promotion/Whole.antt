-- ===== src/Competition/Promotion/Whole.antt =====
-- `promote_candidates` as a whole.
use vmlc_backend.Prelude.{
  map, select, leb, not, ℕ, ◌≡◌, refl, subst, sym, true, false, Option, some, length, List, [], ◌∷◌,
  arith, any_of, All, All-select, ◌==◌, Aligned, is_in, count_of, ◌≤◌,
}
use vmlc_backend.Competition.Model.{StageType, Competition, Stage, Enrollment}
use vmlc_backend.Competition.Promotion.{
  Tables, Failure, Result, require, find_competition, find_stage, effective_cutoff, ranks_of,
  finish, ids_upto, ids_beyond, is_for, promote_enrollments, apply_promotion, promote_candidates,
}
use vmlc_backend.Competition.Promotion.Cutoff.{and_then-done, ids-disjoint}
use vmlc_backend.Competition.Promotion.Effect.{
  IsMoved, promote_enrollments-IsMoved, IsNotRevived, promote_enrollments-IsNotRevived,
  is_started_for, start_all-started, HasUniqueProgress, apply_promotion-HasUniqueProgress,
}

-- A promotion that does not fail: what it found, and that its result is that of its last step.
pub record IsPromotion (ceil_product : ℕ → ℕ → ℕ → ℕ) (now : ℕ) (from_type to_type : StageType)
    (cutoff_rank competition_id : Option ℕ) (t : Tables) (r : ℕ × Tables) : Type 0 where
  pub c : Competition
  pub source : Stage
  pub target : Stage
  pub cutoff : ℕ
  pub ranks : List (ℕ × ℕ)
  pub cutoff_found :
      effective_cutoff ceil_product t c.id source from_type cutoff_rank ≡ Result.done cutoff
  pub ranks_found : ranks_of t c.id from_type ≡ Result.done ranks
  pub result : r ≡ finish now c.id source target (ids_upto cutoff ranks) (ids_beyond cutoff ranks) t

pub promote_candidates-IsPromotion :
    (ceil_product : ℕ → ℕ → ℕ → ℕ) (now : ℕ) (from_type to_type : StageType)
    (cutoff_rank competition_id : Option ℕ) (t : Tables) (r : ℕ × Tables)
    → promote_candidates ceil_product now from_type to_type cutoff_rank competition_id t
      ≡ Result.done r
    → IsPromotion ceil_product now from_type to_type cutoff_rank competition_id t r
unfolding promote_candidates
promote_candidates-IsPromotion ceil_product now from_type to_type cutoff_rank competition_id t r h =
    let (c, e0, h0) = and_then-done (find_competition t competition_id) _ r h in
    let (source, e1, h1) =
      and_then-done (require Failure.no_source_stage (find_stage t c.id from_type)) _ r h0 in
    let (target, e2, h2) =
      and_then-done (require Failure.no_target_stage (find_stage t c.id to_type)) _ r h1 in
    let (cutoff, e3, h3) =
      and_then-done (effective_cutoff ceil_product t c.id source from_type cutoff_rank) _ r h2 in
    let (ranks, e4, h4) = and_then-done (ranks_of t c.id from_type) _ r h3 in
    record {
      c = c;
      source = source;
      target = target;
      cutoff = cutoff;
      ranks = ranks;
      cutoff_found = e3;
      ranks_found = e4;
      result = cc;
    }

Aligned-IsNotRevived_refl : (es : List Enrollment) → Aligned IsNotRevived es es
Aligned-IsNotRevived_refl [] = tt
Aligned-IsNotRevived_refl (e ∷ es) = ((refl, refl, refl, λ h. h), Aligned-IsNotRevived_refl es)

module _ (now competition : ℕ) (source target : Stage) where
  finish-IsNotRevived :
      (up out : List ℕ) (t : Tables)
      → Aligned IsNotRevived t.enrollments
          (finish now competition source target up out t).1.enrollments
  unfolding finish apply_promotion
  finish-IsNotRevived [] out t = Aligned-IsNotRevived_refl t.enrollments
  finish-IsNotRevived (i ∷ up) out t =
      promote_enrollments-IsNotRevived now competition target.id (i ∷ up) out t.enrollments

  finish-HasUniqueProgress :
      (up out : List ℕ) (t : Tables)
      → HasUniqueProgress t.progress
      → HasUniqueProgress (finish now competition source target up out t).1.progress
  unfolding finish
  finish-HasUniqueProgress [] out t h = h
  finish-HasUniqueProgress (i ∷ up) out t h =
      apply_promotion-HasUniqueProgress now competition source target (i ∷ up) out t h

  finish-IsMoved :
      (up out : List ℕ) (t : Tables)
      → ((c : ℕ) → is_in c up ≡ true → is_in c out ≡ false)
      → 1 ≤ (finish now competition source target up out t).0
      → Aligned
          (IsMoved now competition target.id up out)
          t.enrollments
          (finish now competition source target up out t).1.enrollments
  unfolding finish apply_promotion
  finish-IsMoved [] out t apart h = absurd (omega (arith, h))
  finish-IsMoved (i ∷ up) out t apart h =
      promote_enrollments-IsMoved now competition target.id (i ∷ up) out t.enrollments apart

  finish-count :
      (up out : List ℕ) (t : Tables) → (finish now competition source target up out t).0 ≡ length up
  unfolding finish
  finish-count [] out t = refl
  finish-count (i ∷ up) out t = refl

  finish-started :
      (up out : List ℕ) (t : Tables)
      → All
          (λ e.
            is_for competition up e ≡ true
            → any_of
                (is_started_for e.id target.id)
                (finish now competition source target up out t).1.progress
              ≡ true)
          (finish now competition source target up out t).1.enrollments
  unfolding finish apply_promotion
  finish-started [] out t = All-nobody t.enrollments
    where
      All-nobody :
          (es : List Enrollment)
          → All
              (λ e.
                is_for competition [] e ≡ true
                → any_of (is_started_for e.id target.id) t.progress ≡ true)
              es
      All-nobody [] = tt
      All-nobody (e ∷ es) = ((λ h. absurd (ground (arith, h))), All-nobody es)
  finish-started (i ∷ up) out t =
      All-select _ (is_for competition (i ∷ up))
        (promote_enrollments now competition target.id (i ∷ up) out t.enrollments)
        (start_all-started now target.id _ _)

module _ (ceil_product : ℕ → ℕ → ℕ → ℕ) (now : ℕ) (from_type to_type : StageType)
    (cutoff_rank competition_id : Option ℕ) (t : Tables) (r : ℕ × Tables) where
  -- A promotion makes no enrollment active that was not active before, and keeps every row with
  -- its candidate and its competition.
  pub promote_candidates-IsNotRevived :
      promote_candidates ceil_product now from_type to_type cutoff_rank competition_id t
        ≡ Result.done r
      → Aligned IsNotRevived t.enrollments r.1.enrollments
  promote_candidates-IsNotRevived h =
      let p : IsPromotion ceil_product now from_type to_type cutoff_rank competition_id t r =
        promote_candidates-IsPromotion ceil_product now from_type to_type cutoff_rank competition_id
          t r h in
      subst (λ x. Aligned IsNotRevived t.enrollments x.1.enrollments) (sym p.result)
        (finish-IsNotRevived now p.c.id p.source p.target (ids_upto p.cutoff p.ranks)
          (ids_beyond p.cutoff p.ranks) t)

  -- A promotion keeps at most one progress row for an enrollment and a stage.
  pub promote_candidates-HasUniqueProgress :
      promote_candidates ceil_product now from_type to_type cutoff_rank competition_id t
        ≡ Result.done r
      → HasUniqueProgress t.progress
      → HasUniqueProgress r.1.progress
  promote_candidates-HasUniqueProgress h k =
      let p : IsPromotion ceil_product now from_type to_type cutoff_rank competition_id t r =
        promote_candidates-IsPromotion ceil_product now from_type to_type cutoff_rank competition_id
          t r h in
      subst (λ x. HasUniqueProgress x.1.progress) (sym p.result)
        (finish-HasUniqueProgress now p.c.id p.source p.target (ids_upto p.cutoff p.ranks)
          (ids_beyond p.cutoff p.ranks) t k)

-- The candidates whose rank is at most the cutoff, and those whose rank is not.
abbrev pub ranked_upto : ℕ → List (ℕ × ℕ) → List ℕ
ranked_upto cutoff ranks = map (λ x. x.0) (select (λ x. leb x.1 cutoff) ranks)

abbrev pub ranked_beyond : ℕ → List (ℕ × ℕ) → List ℕ
ranked_beyond cutoff ranks = map (λ x. x.0) (select (λ x. not (leb x.1 cutoff)) ranks)

-- If a promotion succeeds in a competition, from one stage to another that stand in the table, and
-- promotes somebody by a cutoff from ranks that have no candidate twice: an active enrollment of a
-- candidate up to the cutoff moves to the stage of the type promoted to, an active or pending one of a
-- candidate beyond it becomes ELIMINATED, and every other enrollment stays as it is; afterwards each
-- enrollment of a candidate up to the cutoff has progress in the stage promoted to, also one that did not
-- move; and the number returned is that of the candidates up to the cutoff.
pub promote_candidates-IsMoved :
    (ceil_product : ℕ → ℕ → ℕ → ℕ) (now : ℕ) (from_type to_type : StageType)
    (cutoff_rank competition_id : Option ℕ) (t : Tables) (r : ℕ × Tables) (c : Competition)
    (source target : Stage) (cutoff : ℕ) (ranks : List (ℕ × ℕ))
    → promote_candidates ceil_product now from_type to_type cutoff_rank competition_id t
      ≡ Result.done r
    → find_competition t competition_id ≡ Result.done c
    → find_stage t c.id from_type ≡ some source
    → find_stage t c.id to_type ≡ some target
    → effective_cutoff ceil_product t c.id source from_type cutoff_rank ≡ Result.done cutoff
    → ranks_of t c.id from_type ≡ Result.done ranks
    → ((k : ℕ) → count_of (λ x. x.0 == k) ranks ≤ 1)
    → 1 ≤ r.0
    → Aligned
        (IsMoved now c.id target.id (ranked_upto cutoff ranks) (ranked_beyond cutoff ranks))
        t.enrollments
        r.1.enrollments
      × All
          (λ e.
            is_for c.id (ranked_upto cutoff ranks) e ≡ true
            → any_of (is_started_for e.id target.id) r.1.progress ≡ true)
          r.1.enrollments
      × (r.0 ≡ length (ranked_upto cutoff ranks))
unfolding promote_candidates
promote_candidates-IsMoved ceil_product now from_type to_type cutoff_rank competition_id t r c
      source target cutoff ranks h hc hs ht hk hr once some_up =
    let up : List ℕ = ids_upto cutoff ranks in
    let out : List ℕ = ids_beyond cutoff ranks in
    let k : Result.done (finish now c.id source target up out t) ≡ Result.done r =
      rw (promote_candidates, hc, hs, ht, hk, hr) at h in
    let same : finish now c.id source target up out t ≡ r = cc in
    (
      subst
          (λ x. 1 ≤ x.0 → Aligned (IsMoved now c.id target.id up out) t.enrollments x.1.enrollments)
          same
          (finish-IsMoved now c.id source target up out t
            (λ i. ids-disjoint cutoff i ranks (once i)))
          some_up,
      subst
          (λ x.
            All
              (λ e.
                is_for c.id up e ≡ true
                → any_of (is_started_for e.id target.id) x.1.progress ≡ true)
              x.1.enrollments)
          same (finish-started now c.id source target up out t),
      subst (λ x. x.0 ≡ length up) same (finish-count now c.id source target up out t),
    )
