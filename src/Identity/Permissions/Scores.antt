-- ===== src/Identity/Permissions/Scores.antt =====
-- Who may see a ranking and one's own entry of it.
use vmlc_backend.Prelude.{
  All, List, [], ◌∷◌, ◌==◌, ◌≢◌, ℕ, ◌≤◌, ◌≡◌, ◌↔◌, true, false, Option, some, arith, ==_refl,
  any_of, first_where, count_of, inl, inr, Option-cases,
}
use vmlc_backend.Competition.Model.{StageType}
use vmlc_backend.Competition.Snapshot.{Snapshot, of_round}
use vmlc_backend.Competition.Snapshot.Publish.{IsConsistent, is_published_in}
use vmlc_backend.Identity.Permissions.{
  Request, Tables, server_error, ranking, allowed, is_staff, is_published_for, Scoreboard,
  can_view_scoreboard, is_enrolled_in, has_submitted, can_view_entry,
}

-- Of two requests that agree on whether the user is authenticated and is staff, a scoreboard is shown
-- to both or to none: no profile or enrollment is asked for.
pub can_view_scoreboard-any :
    (board : Scoreboard) (exam : Option ℕ) (db : Tables) (r r' : Request)
    → r.is_authenticated ≡ r'.is_authenticated
    → is_staff r ≡ is_staff r'
    → can_view_scoreboard board exam db r ≡ can_view_scoreboard board exam db r'
unfolding can_view_scoreboard
can_view_scoreboard-any board exam db r r' a s = ground arith

-- That the candidate of a request may see the entry asked for.
pub record MaySee (requested exam : Option ℕ) (db : Tables) (r : Request) : Type 0 where
  pub candidate : ℕ
  pub own : (r.candidate_profile ≡ some candidate) × (requested ≡ some candidate)
  pub of : ℕ
  pub named : exam ≡ some of
  pub snapshot : Snapshot
  pub published : first_where (is_published_for of) db.snapshots ≡ some snapshot
  pub only : count_of (is_published_for of) db.snapshots ≤ 1
  pub enrolled : any_of (is_enrolled_in candidate snapshot.competition) db.enrollments ≡ true
  pub submitted : any_of (has_submitted candidate snapshot.exam) db.accesses ≡ true

module _ (requested exam : Option ℕ) (db : Tables) (r : Request) (known : r.is_authenticated ≡ true)
    (not_staff : is_staff r ≡ false) where
  allowed-MaySee : can_view_entry requested exam db r ≡ allowed → MaySee requested exam db r
  unfolding can_view_entry
  allowed-MaySee h = elim (Option-cases r.candidate_profile) [
    | inl e ↦ absurd (ground arith)
    | inr (c, e) ↦ elim (Option-cases exam) [
      | inl k ↦ absurd (ground arith)
      | inr (x, k) ↦ elim (Option-cases (first_where (is_published_for x) db.snapshots)) [
        | inl q ↦ absurd (ground arith)
        | inr (s, q) ↦ record {
          candidate = c;
          own = (e, ground arith);
          of = x;
          named = k;
          snapshot = s;
          published = q;
          only = ground arith;
          enrolled = ground arith;
          submitted = ground arith;
        }
      ]
    ]
  ]

  MaySee-allowed : MaySee requested exam db r → can_view_entry requested exam db r ≡ allowed
  unfolding can_view_entry
  MaySee-allowed m =
      ground
        (arith, m.own, m.named, m.published, m.only, m.enrolled, m.submitted, ==_refl m.candidate)

  -- A user who is not staff may see an entry of a ranking exactly if it is their own, the URL names an
  -- exam with exactly one published ranking, and the candidate has an active enrollment in the
  -- competition of that ranking and a submitted attempt at its exam.
  pub can_view_entry-MaySee :
      (can_view_entry requested exam db r ≡ allowed) ↔ MaySee requested exam db r
  can_view_entry-MaySee = (allowed-MaySee, MaySee-allowed)

-- All rankings of the exam are of one round of one stage.
abbrev pub IsOfRound : ℕ → ℕ → StageType → Option ℕ → List Snapshot → Type 0
IsOfRound exam competition stage round =
    All (λ s. (s.exam == exam) ≡ true → of_round competition stage round s ≡ true)

published_once :
    (exam competition : ℕ) (stage : StageType) (round : Option ℕ) (table : List Snapshot)
    → IsOfRound exam competition stage round table
    → count_of (is_published_for exam) table
      ≤ count_of (is_published_in competition stage round) table
published_once exam c stage round [] h = omega arith
published_once exam c stage round (s ∷ table) h =
    ground (arith, published_once exam c stage round table h.1, h.0)

-- If the table of the rankings is consistent, as every publication keeps it, and all rankings of an
-- exam are of one round, the look-up of its published ranking never fails, whoever asks.
pub can_view_entry-answers :
    (requested : Option ℕ) (exam competition : ℕ) (stage : StageType) (round : Option ℕ)
    (db : Tables) (r : Request)
    → IsConsistent db.snapshots
    → IsOfRound exam competition stage round db.snapshots
    → (can_view_entry requested (some exam) db r ≢ server_error)
      × (can_view_scoreboard ranking (some exam) db r ≢ server_error)
unfolding can_view_entry can_view_scoreboard
can_view_entry-answers requested exam c stage round db r k h =
    let once : count_of (is_published_for exam) db.snapshots ≤ 1 =
      omega
        (arith, published_once exam c stage round db.snapshots h, k.one_published c stage round) in
    ((λ q. ground arith), λ q. ground arith)
