-- ===== src/Vmlc/Attempt/Sound.antt =====
-- What every handler keeps of the tables of the attempts.
use vmlc_backend.Prelude.{
  ℕ, ◌+◌, ◌≤◌, ◌<◌, ◌≡◌, refl, ap, Bool, true, false, not, ◌&&◌, ◌||◌, none, List, [], ◌∷◌, ◌++◌,
  arith, ◌==◌, if◌then◌else◌, if-cases, is_some, All, All-map, All-append, update_where,
  update_where-All, first_where, count_of, count_of-append, Bool-cases, Option-cases, inl, inr,
}
use vmlc_backend.Prelude.Counts.{count_of-update-le}
use vmlc_backend.Competition.Eligibility.{new_access, get_or_create_access}
use vmlc_backend.Vmlc.Model.{is_started, ExamAccess, ExamResult, Attempts, access_of, result_of}
use vmlc_backend.Vmlc.Attempt.{
  Response, Item, new_result, has_repeats, store_submission, get_or_create_result, store_answers,
}

-- A start and a deadline are set together, and a STARTED attempt has them.
abbrev pub is_timed : ExamAccess → Bool
is_timed a =
    if is_some a.started_at
    then is_some a.deadline
    else not (is_some a.deadline) && not (is_started a.status)

pub record IsSoundTable (accesses : List ExamAccess) (next_access : ℕ) : Type 0 where
  pub timed : All (λ a. is_timed a ≡ true) accesses
  pub fresh : All (λ a. a.id < next_access) accesses
  pub unique_ids : (id : ℕ) → count_of (λ a. a.id == id) accesses ≤ 1
  pub unique_pairs : (candidate exam : ℕ) → count_of (access_of candidate exam) accesses ≤ 1

pub record IsSound (db : Attempts) : Type 0 where
  pub accesses : IsSoundTable db.accesses db.next_access
  pub unique_results : (candidate exam : ℕ) → count_of (result_of candidate exam) db.results ≤ 1

-- An update that keeps the identifier and the pair of an access.
pub update-IsSoundTable :
    (q : ExamAccess → Bool) (f : ExamAccess → ExamAccess) (as' : List ExamAccess) (n : ℕ)
    → ((a : ExamAccess) → (f a).id ≡ a.id)
    → ((a : ExamAccess) → ((f a).candidate ≡ a.candidate) × ((f a).exam ≡ a.exam))
    → ((a : ExamAccess) → is_timed a ≡ true → q a ≡ true → is_timed (f a) ≡ true)
    → IsSoundTable as' n
    → IsSoundTable (update_where q f as') n
update-IsSoundTable q f as' n same_id same_pair keep w = record {
  timed = update_where-All (λ a. is_timed a ≡ true) q f keep as' w.timed;
  fresh = update_where-All (λ a. a.id < n) q f (λ a h e. rw (same_id a) h) as' w.fresh;
  unique_ids = λ id. omega (
    arith,
    w.unique_ids id,
    count_of-update-le (λ a. a.id == id) (λ a. a.id == id) q f as'
        (λ a e h. ground (arith, same_id a)) (λ a e h. h),
  );
  unique_pairs = λ c x. omega (
    arith,
    w.unique_pairs c x,
    count_of-update-le (access_of c x) (access_of c x) q f as'
        (λ a e h. ground (arith, same_pair a)) (λ a e h. h),
  );
}

no_such_id :
    (id n : ℕ) (as' : List ExamAccess)
    → All (λ a. a.id < n) as'
    → n ≤ id
    → count_of (λ a. a.id == id) as' ≡ 0
no_such_id id n [] h k = refl
no_such_id id n (a ∷ rest) h k = ground (arith, no_such_id id n rest)

-- A new row for a pair of a candidate and an exam that has none: if two pairs agree the rows of the
-- one are those of the other.
none_of_pair :
    (c x d y : ℕ) (as' : List ExamAccess)
    → first_where (access_of c x) as' ≡ none
    → c ≡ d
    → x ≡ y
    → count_of (access_of d y) as' ≡ 0
none_of_pair c x d y [] h e f = refl
none_of_pair c x d y (a ∷ rest) h e f = ground (arith, none_of_pair c x d y rest)

pub get_or_create_access-IsSound :
    (candidate exam : ℕ) (db : Attempts)
    → IsSound db
    → IsSound (get_or_create_access candidate exam db).1
unfolding get_or_create_access
get_or_create_access-IsSound c x db w =
    elim (Option-cases (first_where (access_of c x) db.accesses)) [
      | inr (a, e) ↦ rw (get_or_create_access, e) w
      | inl e ↦
          rw (get_or_create_access, e)
            (record {
              accesses = record {
                timed =
                    All-append (λ a. is_timed a ≡ true) db.accesses _ w.accesses.timed (refl, tt);
                fresh =
                    All-append (λ a. a.id < db.next_access + 1) db.accesses _
                      (All-map (λ a h. omega arith) db.accesses w.accesses.fresh) (omega arith, tt);
                unique_ids = λ id. ground (
                  arith,
                  count_of-append (λ a. a.id == id) db.accesses
                      (new_access db.next_access c x ∷ []),
                  w.accesses.unique_ids id,
                  no_such_id id db.next_access db.accesses w.accesses.fresh,
                );
                unique_pairs = λ d y. ground (
                  arith,
                  count_of-append (access_of d y) db.accesses (new_access db.next_access c x ∷ []),
                  w.accesses.unique_pairs d y,
                  none_of_pair c x d y db.accesses e,
                );
              };
              unique_results = w.unique_results;
            })
    ]

-- A request that changes the accesses by an update alone.
pub with_accesses-IsSound :
    (q : ExamAccess → Bool) (f : ExamAccess → ExamAccess) (db : Attempts)
    → ((a : ExamAccess) → (f a).id ≡ a.id)
    → ((a : ExamAccess) → ((f a).candidate ≡ a.candidate) × ((f a).exam ≡ a.exam))
    → ((a : ExamAccess) → is_timed a ≡ true → q a ≡ true → is_timed (f a) ≡ true)
    → IsSound db
    → IsSound (record db { accesses = update_where q f db.accesses })
with_accesses-IsSound q f db same_id same_pair keep w = record {
  accesses = update-IsSoundTable q f db.accesses db.next_access same_id same_pair keep w.accesses;
  unique_results = w.unique_results;
}

no_result_of :
    (c x d y : ℕ) (rs : List ExamResult)
    → is_some (first_where (result_of c x) rs) ≡ false
    → c ≡ d
    → x ≡ y
    → count_of (result_of d y) rs ≡ 0
no_result_of c x d y [] h e f = refl
no_result_of c x d y (r ∷ rs) h e f = ground (arith, no_result_of c x d y rs)

-- A result for a pair that has none.
new_result_unique :
    (id now c x : ℕ) (auto : Bool) (rs : List ExamResult)
    → is_some (first_where (result_of c x) rs) ≡ false
    → ((d y : ℕ) → count_of (result_of d y) rs ≤ 1)
    → (d y : ℕ) → count_of (result_of d y) (rs ++ new_result id now c x auto ∷ []) ≤ 1
new_result_unique id now c x auto rs h w d y = ground (
  arith,
  count_of-append (result_of d y) rs (new_result id now c x auto ∷ []),
  w d y,
  no_result_of c x d y rs h,
)

pub store_submission-IsSound :
    (now c x : ℕ) (auto : Bool) (items : List Item) (db : Attempts)
    → IsSound db
    → IsSound (store_submission now c x auto items db).1
unfolding store_submission
store_submission-IsSound now c x auto items db w =
    elim (Bool-cases (is_some (first_where (result_of c x) db.results))) [
      | inl e ↦ rw (store_submission, e) w
      | inr e ↦
          if-cases (λ (r : Response × Attempts). IsSound r.1)
            (is_some (first_where (result_of c x) db.results) || has_repeats items) _ _ (λ _. w)
            (λ _. record {
              accesses =
                  update-IsSoundTable (access_of c x) _ db.accesses db.next_access (λ a. refl)
                    (λ a. (refl, refl)) (λ a h q. ground arith) w.accesses;
              unique_results =
                  new_result_unique db.next_result now c x auto db.results e w.unique_results;
            })
    ]

pub store_answers-IsSound :
    (now c x : ℕ) (items : List Item) (db : Attempts)
    → IsSound db
    → IsSound (store_answers now c x items db)
unfolding store_answers get_or_create_result
store_answers-IsSound now c x items db w =
    elim (Option-cases (first_where (result_of c x) db.results)) [
      | inr (r, e) ↦
          rw (store_answers, get_or_create_result, e)
            (record { accesses = w.accesses; unique_results = w.unique_results })
      | inl e ↦
          rw (store_answers, get_or_create_result, e)
            (record {
              accesses = w.accesses;
              unique_results =
                  new_result_unique db.next_result now c x false db.results (ap is_some e)
                    w.unique_results;
            })
    ]
