-- ===== src/Core/Scoring/Complete.antt =====
-- Which results are scored after `compute_exam_results`.
use vmlc_backend.Prelude.{
  ℕ, ◌+◌, ◌≡◌, refl, ◌∙◌, sym, subst, Bool, true, false, ◌&&◌, none, some, List, [], ◌∷◌, ◌++◌,
  arith, ◌==◌, ==_refl, if◌then◌else◌, inl, inr, Bool-cases, Option-cases, select, update_where,
  first_where, first_where-true, first_where-append, first_where-updated, All, All-select,
}
use vmlc_backend.Vmlc.Model.{is_submitted, ExamAccess, ExamResult, Attempts, result_of}
use vmlc_backend.Core.Scoring.{
  open_questions, submitted_answers, auto_score, compute_and_save, score_access, score_accesses,
  compute_exam_results,
}

-- The accesses that `compute_exam_results` scores.
abbrev pub is_scored_access : ℕ → ExamAccess → Bool
is_scored_access exam a = a.exam == exam && is_submitted a.status

module _ (percent : ℕ → ℕ → ℕ) where
  auto_score_same :
      (db : Attempts) (r s : ExamResult)
      → r.id ≡ s.id
      → r.exam ≡ s.exam
      → auto_score percent db r ≡ auto_score percent db s
  unfolding auto_score
  auto_score_same db r s i e = rw (i, e)

  -- The first result of a candidate for an exam is scored, by the answers of `db`.
  pub record IsScored (db : Attempts) (candidate exam : ℕ) (results : List ExamResult)
      : Type 0 where
    pub found : ExamResult
    pub is_first : first_where (result_of candidate exam) results ≡ some found
    pub is_auto : found.auto_score ≡ true
    pub right_score : found.score ≡ auto_score percent db found

  abbrev rescored : ℕ → Attempts → ExamResult → ExamResult → ExamResult
  rescored now db r s = record s {
    score = auto_score percent db r;
    auto_score = true;
    recorded_at = now;
  }

  abbrev rescore : ℕ → Attempts → ExamResult → List ExamResult → List ExamResult
  rescore now db r results = update_where (λ s. s.id == r.id) (rescored now db r) results

  exam_of : (c e : ℕ) (r : ExamResult) → result_of c e r ≡ true → r.exam ≡ e
  exam_of c e r h = ground arith

  -- Scoring another result of the exam keeps what is scored, and scoring the result makes it so.
  rescore-IsScored :
      (now c e : ℕ) (db : Attempts) (r : ExamResult) (results : List ExamResult)
      → r.exam ≡ e
      → IsScored db c e results
      → IsScored db c e (rescore now db r results)
  rescore-IsScored now c e db r results re h =
      let own : h.found.exam ≡ e =
        exam_of c e h.found (first_where-true (result_of c e) results h.is_first) in
      let first : first_where (result_of c e) (rescore now db r results)
          ≡ some (if h.found.id == r.id then rescored now db r h.found else h.found) =
        first_where-updated (result_of c e) (λ s. s.id == r.id) (rescored now db r) results h.found
          (λ x. refl) h.is_first in
      elim (Bool-cases (h.found.id == r.id)) [
        | inl k ↦ record {
          found = rescored now db r h.found;
          is_first = first ∙ rw k;
          is_auto = refl;
          right_score =
              auto_score_same db r (rescored now db r h.found) (ground arith) (re ∙ sym own);
        }
        | inr k ↦ record {
          found = h.found;
          is_first = first ∙ rw k;
          is_auto = h.is_auto;
          right_score = h.right_score;
        }
      ]

  -- Scoring makes the first result of a pair scored.
  rescore-found :
      (now c e : ℕ) (db : Attempts) (r : ExamResult) (results : List ExamResult)
      → first_where (result_of c e) results ≡ some r
      → IsScored db c e (rescore now db r results)
  rescore-found now c e db r results h = record {
    found = rescored now db r r;
    is_first =
        first_where-updated (result_of c e) (λ s. s.id == r.id) (rescored now db r) results r
          (λ x. refl) h
        ∙ rw (==_refl r.id);
    is_auto = refl;
    right_score = auto_score_same db r (rescored now db r r) refl refl;
  }

  append-IsScored :
      (c e : ℕ) (db : Attempts) (r : ExamResult) (results : List ExamResult)
      → IsScored db c e results
      → IsScored db c e (results ++ r ∷ [])
  append-IsScored c e db r results h = record {
    found = h.found;
    is_first = first_where-append (result_of c e) results (r ∷ []) ∙ rw (h.is_first);
    is_auto = h.is_auto;
    right_score = h.right_score;
  }

  -- The row that `score_access` creates.
  abbrev fresh_result : ℕ → ExamAccess → Attempts → ExamResult
  fresh_result now a db = record {
    id = db.next_result;
    candidate = a.candidate;
    exam = a.exam;
    score = 0;
    is_auto_submit = false;
    auto_score = false;
    recorded_at = now;
  }

  -- The results after one round, by the two cases.
  data Round (now : ℕ) (a : ExamAccess) (db : Attempts) : Type 0 where
    old :
        (r : ExamResult)
        → first_where (result_of a.candidate a.exam) db.results ≡ some r
        → score_access percent now a db ≡ record db { results = rescore now db r db.results }
        → Round now a db
    new :
        first_where (result_of a.candidate a.exam) db.results ≡ none
        → score_access percent now a db ≡ record db {
          results =
              rescore now db (fresh_result now a db) (db.results ++ fresh_result now a db ∷ []);
          next_result = db.next_result + 1;
        }
        → Round now a db

  round : (now : ℕ) (a : ExamAccess) (db : Attempts) → Round now a db
  unfolding score_access compute_and_save auto_score open_questions submitted_answers
  round now a db = elim (Option-cases (first_where (result_of a.candidate a.exam) db.results)) [
    | inl n ↦ new n (rw (score_access, n))
    | inr (r, s) ↦ old r s (rw (score_access, s))
  ]

  -- The score does not depend on the results.
  IsScored-frame :
      (c e next : ℕ) (db : Attempts) (rs results : List ExamResult)
      → IsScored db c e results
      → IsScored (record db { results = rs; next_result = next }) c e results
  unfolding auto_score open_questions submitted_answers
  IsScored-frame c e next db rs results h = record {
    found = h.found;
    is_first = h.is_first;
    is_auto = h.is_auto;
    right_score = h.right_score;
  }

  score_access-keeps :
      (now c e : ℕ) (a : ExamAccess) (db : Attempts)
      → a.exam ≡ e
      → IsScored db c e db.results
      → IsScored (score_access percent now a db) c e (score_access percent now a db).results
  score_access-keeps now c e a db q h = elim (round now a db) [
    | old r s p ↦
        let own : r.exam ≡ a.exam =
          exam_of a.candidate a.exam r
            (first_where-true (result_of a.candidate a.exam) db.results s) in
        rw p (
          IsScored-frame c e db.next_result db _ _
            (rescore-IsScored now c e db r db.results (own ∙ q) h))
    | new n p ↦ rw p (
        IsScored-frame c e (db.next_result + 1) db _ _ (
          rescore-IsScored now c e db (fresh_result now a db)
            (db.results ++ fresh_result now a db ∷ []) q
            (append-IsScored c e db (fresh_result now a db) db.results h)))
  ]

  score_access-scores :
      (now : ℕ) (a : ExamAccess) (db : Attempts)
      → IsScored
          (score_access percent now a db)
          a.candidate
          a.exam
          (score_access percent now a db).results
  score_access-scores now a db = elim (round now a db) [
    | old r s p ↦ rw p (
        IsScored-frame a.candidate a.exam db.next_result db _ _
          (rescore-found now a.candidate a.exam db r db.results s))
    | new n p ↦ rw p (
        IsScored-frame a.candidate a.exam (db.next_result + 1) db _ _ (
          rescore-found now a.candidate a.exam db (fresh_result now a db)
            (db.results ++ fresh_result now a db ∷ [])
            (first_where-append (result_of a.candidate a.exam) db.results
                (fresh_result now a db ∷ [])
              ∙ rw n (ground (arith, ==_refl a.candidate, ==_refl a.exam)))))
  ]

  score_accesses-keeps :
      (now c e : ℕ) (as' : List ExamAccess) (db : Attempts)
      → All (λ a. a.exam ≡ e) as'
      → IsScored db c e db.results
      → IsScored (score_accesses percent now as' db) c e (score_accesses percent now as' db).results
  unfolding score_accesses
  score_accesses-keeps now c e [] db q h = h
  score_accesses-keeps now c e (a ∷ as') db q h =
      score_accesses-keeps now c e as' (score_access percent now a db) q.1
        (score_access-keeps now c e a db q.0 h)

  score_accesses-scores :
      (now e : ℕ) (as' : List ExamAccess) (db : Attempts)
      → All (λ a. a.exam ≡ e) as'
      → All
          (λ a.
            IsScored
              (score_accesses percent now as' db)
              a.candidate
              e
              (score_accesses percent now as' db).results)
          as'
  unfolding score_accesses
  score_accesses-scores now e [] db q = tt
  score_accesses-scores now e (a ∷ as') db q = (
    score_accesses-keeps now a.candidate e as' (score_access percent now a db) q.1 (
        subst
          (λ x.
            IsScored (score_access percent now a db) a.candidate x
              (score_access percent now a db).results)
          q.0 (score_access-scores now a db)),
    score_accesses-scores now e as' (score_access percent now a db) q.1,
  )

  of_the_exam :
      (exam : ℕ) (as' : List ExamAccess)
      → All (λ a. a.exam ≡ exam) (select (is_scored_access exam) as')
  of_the_exam exam [] = tt
  of_the_exam exam (a ∷ as') = elim (Bool-cases (is_scored_access exam a)) [
    | inl e ↦ rw e (ground arith, of_the_exam exam as')
    | inr e ↦ rw e (of_the_exam exam as')
  ]

  -- After `compute_exam_results` every SUBMITTED access to the exam has a result, and the first
  -- result of its candidate for the exam is marked as scored automatically, with the score that its
  -- answers give.
  pub compute_exam_results-IsScored :
      (now exam : ℕ) (db : Attempts)
      → All
          (λ a.
            is_scored_access exam a ≡ true
            → IsScored
                (compute_exam_results percent now exam db)
                a.candidate
                exam
                (compute_exam_results percent now exam db).results)
          db.accesses
  unfolding compute_exam_results
  compute_exam_results-IsScored now exam db = All-select _ (is_scored_access exam) db.accesses (
      score_accesses-scores now exam (select (is_scored_access exam) db.accesses) db
        (of_the_exam exam db.accesses))
