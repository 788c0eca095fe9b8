-- ===== src/Competition/Promotion/Effect.antt =====
-- What a promotion does to the enrollments and to the progress rows.
use vmlc_backend.Prelude.{
  some, ℕ, ◌≤◌, ◌≡◌, ◌∙◌, subst, Bool, true, false, ◌&&◌, List, [], ◌∷◌, arith, ◌==◌, if◌then◌else◌,
  ==_refl, if-cases, is_in, select, update_where, count_of, count_of-append, any_of, any_of-append,
  All, Aligned,
}
use vmlc_backend.Prelude.Counts.{count_of-update-le, any_of-update, any_of-updated, any_of-count}
use vmlc_backend.Competition.Model.{
  EnrollmentStatus, Stage, is_active, is_active_or_pending, Enrollment, is_in_progress,
  StageProgress,
}
use vmlc_backend.Competition.Promotion.{
  Tables, is_for, advance, eliminate, promote_enrollments, is_progress, start, start_progress,
  start_all, close_progress, complete, discontinue, belongs_to, new_progress, apply_promotion,
}

-- What becomes of an enrollment when the list `up` is promoted to a stage and `out` is eliminated.
pub record IsMoved (now competition stage : ℕ) (up out : List ℕ) (e e' : Enrollment) : Type 0 where
  pub promoted :
      is_for competition up e ≡ true
      → is_active e.status ≡ true
      → e' ≡ record e {
        current_stage = some stage;
        status = EnrollmentStatus.active;
        last_active_at = some now;
      }
  pub eliminated :
      is_for competition out e ≡ true
      → is_active_or_pending e.status ≡ true
      → e' ≡ record e { status = EnrollmentStatus.eliminated; last_active_at = some now }
  pub untouched :
      (is_for competition up e && is_active e.status) ≡ false
      → (is_for competition out e && is_active_or_pending e.status) ≡ false
      → e' ≡ e

abbrev moved : ℕ → ℕ → ℕ → List ℕ → List ℕ → Enrollment → Enrollment
moved now competition stage up out e =
    let a : Enrollment =
      if is_for competition up e && is_active e.status then advance now stage e else e in
    if is_for competition out a && is_active_or_pending a.status then eliminate now a else a

moved-IsMoved :
    (now competition stage : ℕ) (up out : List ℕ) (e : Enrollment)
    → (is_in e.candidate up ≡ true → is_in e.candidate out ≡ false)
    → IsMoved now competition stage up out e (moved now competition stage up out e)
moved-IsMoved now competition stage up out e apart = record {
  promoted = λ h k. ground arith;
  eliminated = λ h k. ground arith;
  untouched = λ h k. ground arith;
}

-- If no candidate is in both lists, then each enrollment moves as it should: an active one of the
-- promoted to the target stage, an active or pending one of the eliminated to ELIMINATED, and every
-- other row stays as it is.
pub promote_enrollments-IsMoved :
    (now competition stage : ℕ) (up out : List ℕ) (es : List Enrollment)
    → ((c : ℕ) → is_in c up ≡ true → is_in c out ≡ false)
    → Aligned
        (IsMoved now competition stage up out)
        es
        (promote_enrollments now competition stage up out es)
promote_enrollments-IsMoved now competition stage up out [] apart = tt
promote_enrollments-IsMoved now competition stage up out (e ∷ es) apart = (
  moved-IsMoved now competition stage up out e (apart e.candidate),
  promote_enrollments-IsMoved now competition stage up out es apart,
)

-- The row keeps its keys, and is active afterwards only if it was before.
abbrev pub IsNotRevived : Enrollment → Enrollment → Type 0
IsNotRevived e e' =
    (e'.id ≡ e.id)
    × (e'.candidate ≡ e.candidate)
    × (e'.competition ≡ e.competition)
    × (is_active e'.status ≡ true → is_active e.status ≡ true)

moved-IsNotRevived :
    (now competition stage : ℕ) (up out : List ℕ) (e : Enrollment)
    → IsNotRevived e (moved now competition stage up out e)
moved-IsNotRevived now competition stage up out e =
    (ground arith, ground arith, ground arith, λ h. ground arith)

pub promote_enrollments-IsNotRevived :
    (now competition stage : ℕ) (up out : List ℕ) (es : List Enrollment)
    → Aligned IsNotRevived es (promote_enrollments now competition stage up out es)
promote_enrollments-IsNotRevived now competition stage up out [] = tt
promote_enrollments-IsNotRevived now competition stage up out (e ∷ es) = (
  moved-IsNotRevived now competition stage up out e,
  promote_enrollments-IsNotRevived now competition stage up out es,
)

-- The enrollment has a progress row for the stage that is in progress.
abbrev pub is_started_for : ℕ → ℕ → StageProgress → Bool
is_started_for enrollment stage p = is_progress enrollment stage p && is_in_progress p.status

start_progress-started :
    (now stage i : ℕ) (ps : List StageProgress)
    → any_of (is_started_for i stage) (start_progress now stage i ps) ≡ true
start_progress-started now stage i ps =
    if-cases (λ qs. any_of (is_started_for i stage) qs ≡ true) (any_of (is_progress i stage) ps) _ _
      (λ h.
        any_of-updated (is_started_for i stage) (is_progress i stage) (start now) ps
          (λ p q. ground arith) h)
      (λ h. any_of-append (is_started_for i stage) ps _ ∙ ground (arith, ==_refl i, ==_refl stage))

start_progress-keeps :
    (now stage i j : ℕ) (ps : List StageProgress)
    → any_of (is_started_for j stage) ps ≡ true
    → any_of (is_started_for j stage) (start_progress now stage i ps) ≡ true
start_progress-keeps now stage i j ps h =
    if-cases (λ qs. any_of (is_started_for j stage) qs ≡ true) (any_of (is_progress i stage) ps) _ _
      (λ k.
        any_of-update (is_started_for j stage) (is_progress i stage) (start now) ps
          (λ p q r. ground arith) h)
      (λ k. any_of-append (is_started_for j stage) ps _ ∙ rw h)

start_all-keeps :
    (now stage j : ℕ) (es : List Enrollment) (ps : List StageProgress)
    → any_of (is_started_for j stage) ps ≡ true
    → any_of (is_started_for j stage) (start_all now stage es ps) ≡ true
unfolding start_all
start_all-keeps now stage j [] ps h = h
start_all-keeps now stage j (e ∷ es) ps h =
    start_all-keeps now stage j es (start_progress now stage e.id ps)
      (start_progress-keeps now stage e.id j ps h)

-- Every enrollment of the loop has its row afterwards, in progress.
pub start_all-started :
    (now stage : ℕ) (es : List Enrollment) (ps : List StageProgress)
    → All (λ e. any_of (is_started_for e.id stage) (start_all now stage es ps) ≡ true) es
unfolding start_all
start_all-started now stage [] ps = tt
start_all-started now stage (e ∷ es) ps = (
  start_all-keeps now stage e.id es (start_progress now stage e.id ps)
      (start_progress-started now stage e.id ps),
  start_all-started now stage es (start_progress now stage e.id ps),
)

-- At most one progress row for an enrollment and a stage.
abbrev pub HasUniqueProgress : List StageProgress → Type 0
HasUniqueProgress ps = (i s : ℕ) → count_of (is_progress i s) ps ≤ 1

new_row_alone :
    (i stage j s : ℕ) (ps : List StageProgress)
    → count_of (is_progress i stage) ps ≡ 0
    → (i == j && stage == s) ≡ true
    → count_of (is_progress j s) ps ≡ 0
new_row_alone i stage j s ps h k =
    let qi : i ≡ j = ground arith in
    let qs : stage ≡ s = ground arith in
    subst (λ a. count_of (is_progress a s) ps ≡ 0) qi
      (subst (λ b. count_of (is_progress i b) ps ≡ 0) qs h)

start_progress-HasUniqueProgress :
    (now stage i : ℕ) (ps : List StageProgress)
    → HasUniqueProgress ps
    → HasUniqueProgress (start_progress now stage i ps)
start_progress-HasUniqueProgress now stage i ps h j s =
    if-cases (λ qs. count_of (is_progress j s) qs ≤ 1) (any_of (is_progress i stage) ps) _ _
      (λ k. omega (
        arith,
        h j s,
        count_of-update-le (is_progress j s) (is_progress j s) (is_progress i stage) (start now) ps
            (λ p q r. r) (λ p q r. r),
      ))
      (λ k. ground (
        arith,
        count_of-append (is_progress j s) ps (new_progress now stage i ∷ []),
        new_row_alone i stage j s ps (any_of-count (is_progress i stage) ps k),
        h j s,
      ))

start_all-HasUniqueProgress :
    (now stage : ℕ) (es : List Enrollment) (ps : List StageProgress)
    → HasUniqueProgress ps
    → HasUniqueProgress (start_all now stage es ps)
unfolding start_all
start_all-HasUniqueProgress now stage [] ps h = h
start_all-HasUniqueProgress now stage (e ∷ es) ps h =
    start_all-HasUniqueProgress now stage es (start_progress now stage e.id ps)
      (start_progress-HasUniqueProgress now stage e.id ps h)

-- A promotion keeps at most one progress row for an enrollment and a stage.
pub apply_promotion-HasUniqueProgress :
    (now competition : ℕ) (source target : Stage) (up out : List ℕ) (t : Tables)
    → HasUniqueProgress t.progress
    → HasUniqueProgress (apply_promotion now competition source target up out t).progress
unfolding apply_promotion
apply_promotion-HasUniqueProgress now competition source target up out t h =
    let es : List Enrollment = promote_enrollments now competition target.id up out t.enrollments in
    start_all-HasUniqueProgress now target.id (select (is_for competition up) es)
      (close_progress now competition source.id up out es t.progress)
      (λ i s. omega (
        arith,
        h i s,
        count_of-update-le (is_progress i s) (is_progress i s)
            (λ p. p.stage == source.id && belongs_to es competition out p) (discontinue now)
            (update_where (λ p. p.stage == source.id && belongs_to es competition up p)
              (complete now) t.progress)
            (λ p q r. r) (λ p q r. r),
        count_of-update-le (is_progress i s) (is_progress i s)
            (λ p. p.stage == source.id && belongs_to es competition up p) (complete now) t.progress
            (λ p q r. r) (λ p q r. r),
      ))
