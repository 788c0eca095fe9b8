-- ===== src/Competition/Ranking.antt =====
-- competition/services/ranking.py: the ranking of the candidates of one exam.
-- `Scores`, `Standard`, `Order`, `Dense` and `Bounds` hold the proofs.
pub mod Scores
pub mod Standard
pub mod Order
pub mod Dense
pub mod Bounds
mod Tests
use vmlc_backend.Prelude.{
  ℕ, suc, ◌+◌, ◌≡◌, Bool, true, false, ◌&&◌, ◌||◌, Option, none, some, List, [], ◌∷◌, ◌++◌, map,
  ◌==◌, ltb, leb, if◌then◌else◌, is_in, select, delete_where, first_where, length, opt_eq,
}
use vmlc_backend.Prelude.Int.{ℤ, pos, negsuc, sub_ℕ, leb_ℤ, ltb_ℤ, eq_ℤ}
use vmlc_backend.Prelude.Sort.{sort}
use vmlc_backend.Prelude.Dict.{Dict, lookup, insert, contains}
use vmlc_backend.Competition.Model.{
  ProctoringStatus, EnrollmentStatus, is_active, Enrollment, Candidate,
}
use vmlc_backend.Vmlc.Model.{ExamResult}

-- A candidate's score: the text 'absent', or a number.
pub data Score : Type 0 where
  absent : Score
  points : ℕ → Score

pub data RankingPolicy : Type 0 where
  standard dense : RankingPolicy

pub data TieBreak : Type 0 where
  submission_time_asc other : TieBreak

-- A value of the dict `candidate_scores`; `time_used` is in microseconds.
pub record ScoreData : Type 0 where
  pub score : Score
  pub time_used : Option ℤ
  pub proctoring_status : Option ProctoringStatus
  pub violation_score : ℕ

-- What the query over ExamAccess gives for one candidate.
pub record AccessInfo : Type 0 where
  pub candidate : ℕ
  pub started_at : Option ℕ
  pub submitted_at : Option ℕ
  pub proctoring_status : Option ProctoringStatus
  pub avg_suspicion : Option ℕ

-- `set(...)`
abbrev pub to_set : List ℕ → List ℕ
to_set [] = []
to_set (x ∷ xs) = if is_in x xs then to_set xs else x ∷ to_set xs

abbrev pub active_candidate_ids : List Candidate → List ℕ
active_candidate_ids cs = map (λ c. c.pk) (select (λ c. c.is_active && c.is_email_verified) cs)

-- `_find_eligible_candidate_ids`
unfoldable pub find_eligible_candidate_ids : ℕ → List Candidate → List Enrollment → List ℕ
find_eligible_candidate_ids competition cs es = to_set (
    map (λ e. e.candidate)
      (select
        (λ e.
          e.competition == competition
          && is_active e.status
          && is_in e.candidate (active_candidate_ids cs))
        es))

-- `order_by("candidate_id", "-score")`
abbrev pub result_le : ExamResult → ExamResult → Bool
result_le r s = ltb r.candidate s.candidate || (r.candidate == s.candidate && leb s.score r.score)

-- `distinct("candidate_id")`: the first row of each candidate.
abbrev pub distinct_candidates : List ExamResult → List ExamResult
distinct_candidates [] = []
distinct_candidates (r ∷ rs) =
    r ∷ delete_where (λ s. s.candidate == r.candidate) (distinct_candidates rs)

unfoldable pub raw_results : ℕ → List ExamResult → List ExamResult
raw_results exam rs = distinct_candidates (sort result_le (select (λ r. r.exam == exam) rs))

-- `exam_access_by_candidate`
abbrev pub access_by_candidate : List AccessInfo → Dict AccessInfo → Dict AccessInfo
access_by_candidate [] d = d
access_by_candidate (a ∷ rest) d = access_by_candidate rest (insert a.candidate a d)

-- `submitted_at - started_at`, if both are set.
abbrev pub elapsed : Option ℕ → Option ℕ → Option ℤ
elapsed (some s) (some t) = some (sub_ℕ t s)
elapsed (some s) none = none
elapsed none _ = none

abbrev pub or_zero : Option ℕ → ℕ
or_zero none = 0
or_zero (some v) = v

-- The data of a candidate who has a result.
abbrev pub present_data : Dict AccessInfo → ℕ → ℕ → ScoreData
present_data accesses candidate score = elim (lookup candidate accesses) [
  | none ↦ record {
    score = points score;
    time_used = none;
    proctoring_status = none;
    violation_score = 0;
  }
  | some a ↦ record {
    score = points score;
    time_used = elapsed a.started_at a.submitted_at;
    proctoring_status = a.proctoring_status;
    violation_score = or_zero a.avg_suspicion;
  }
]

-- The data of an eligible candidate who has none.
abbrev pub absent_data : Option ℕ → ScoreData
absent_data absentee_score = record {
  score = elim absentee_score [ none ↦ absent | some s ↦ points s ];
  time_used = none;
  proctoring_status = none;
  violation_score = 0;
}

-- The two loops of `_build_candidate_scores`.
unfoldable pub add_results :
    List ℕ → Dict AccessInfo → List ExamResult → Dict ScoreData → Dict ScoreData
add_results eligible accesses [] d = d
add_results eligible accesses (r ∷ rs) d = add_results eligible accesses rs (
    if is_in r.candidate eligible
    then insert r.candidate (present_data accesses r.candidate r.score) d
    else d)

unfoldable pub add_absentees : Option ℕ → List ℕ → Dict ScoreData → Dict ScoreData
add_absentees absentee_score [] d = d
add_absentees absentee_score (c ∷ cs) d =
    add_absentees absentee_score cs
      (if contains c d then d else insert c (absent_data absentee_score) d)

unfoldable pub build_candidate_scores :
    ℕ → List ℕ → List ExamResult → List AccessInfo → Option ℕ → Dict ScoreData
unfolding add_results add_absentees raw_results
build_candidate_scores exam eligible results accesses absentee_score =
    add_absentees absentee_score eligible
      (add_results eligible (access_by_candidate accesses []) (raw_results exam results) [])

-- `score_as_float`, in hundredths: -1.0 stands for 'absent'.
abbrev pub score_key : Score → ℤ
score_key absent = negsuc 99
score_key (points s) = pos s

abbrev pub score_as_float : ScoreData → ℤ
score_as_float d = score_key d.score

-- The second part of the key: None is after every number.
abbrev pub time_le : Option ℤ → Option ℤ → Bool
time_le _ none = true
time_le none (some t) = false
time_le (some s) (some t) = leb_ℤ s t

abbrev pub standard_le : ℕ × ScoreData → ℕ × ScoreData → Bool
standard_le a b = leb_ℤ (score_as_float b.1) (score_as_float a.1)

abbrev pub dense_le : ℕ × ScoreData → ℕ × ScoreData → Bool
dense_le a b =
    ltb_ℤ (score_as_float b.1) (score_as_float a.1)
    || (eq_ℤ (score_as_float a.1) (score_as_float b.1) && time_le a.1.time_used b.1.time_used)

-- `_sort_candidates`
unfoldable pub sort_candidates : Dict ScoreData → RankingPolicy → TieBreak → Dict ScoreData
sort_candidates scores RankingPolicy.dense TieBreak.submission_time_asc = sort dense_le scores
sort_candidates scores RankingPolicy.dense TieBreak.other = sort standard_le scores
sort_candidates scores RankingPolicy.standard tie_break = sort standard_le scores

pub data AttemptStatus : Type 0 where
  present absent : AttemptStatus

-- A row of RankingSnapshotEntry. `percentile` is a fraction whose hundredfold the code stores as
-- a float; `tie_break_reason` holds the values that the message names.
pub record Entry : Type 0 where
  pub candidate_id : ℕ
  pub enrollment : Option ℕ
  pub exam_score : Option ℕ
  pub rank : ℕ
  pub percentile : ℤ × ℕ
  pub time_used : Option ℤ
  pub tie_break_reason : Option (Score × Option ℤ × ℕ)
  pub proctoring_status : Option ProctoringStatus
  pub violation_score : ℕ
  pub attempt_status : AttemptStatus

-- `score == previous_score`; a number never equals the text 'absent'.
abbrev pub score_eq : Score → Score → Bool
score_eq absent absent = true
score_eq absent (points t) = false
score_eq (points s) absent = false
score_eq (points s) (points t) = s == t

abbrev pub same_score : Option Score → Score → Bool
same_score none s = false
same_score (some p) s = score_eq s p

abbrev pub same_time : Option ℤ → Option ℤ → Bool
same_time none none = true
same_time none (some t) = false
same_time (some s) none = false
same_time (some s) (some t) = eq_ℤ s t

-- The variables of the loop of `_assign_ranks`.
pub record Loop : Type 0 where
  pub idx : ℕ
  pub previous_score : Option Score
  pub previous_time_used : Option ℤ
  pub current_rank : ℕ

abbrev pub is_tied : Loop → ScoreData → Bool
is_tied l d = same_score l.previous_score d.score && same_time d.time_used l.previous_time_used

abbrev pub next_rank : RankingPolicy → Loop → ScoreData → ℕ
next_rank RankingPolicy.dense l d = if is_tied l d then l.current_rank else l.current_rank + 1
next_rank RankingPolicy.standard l d =
    if same_score l.previous_score d.score then l.current_rank else l.idx + 1

abbrev pub next_reason : RankingPolicy → Loop → ScoreData → Option (Score × Option ℤ × ℕ)
next_reason RankingPolicy.dense l d =
    if is_tied l d then some (d.score, d.time_used, l.current_rank) else none
next_reason RankingPolicy.standard l d = none

-- `Enrollment.objects.filter(candidate_id=..., competition=...).first()`
abbrev pub find_enrollment : List Enrollment → ℕ → ℕ → Option ℕ
find_enrollment es competition candidate =
    elim (first_where (λ e. e.candidate == candidate && (e.competition == competition)) es) [
      | none ↦ none
      | some e ↦ some e.id
    ]

module _ (enrollments : List Enrollment) (competition total : ℕ) (policy : RankingPolicy) where
  abbrev pub make_entry : Loop → ℕ → ScoreData → Entry
  make_entry l candidate d =
      let rank = next_rank policy l d in
      record {
        candidate_id = candidate;
        enrollment = find_enrollment enrollments competition candidate;
        exam_score = some (elim d.score [ absent ↦ 0 | points s ↦ s ]);
        rank = rank;
        percentile = (sub_ℕ total rank, total);
        time_used = d.time_used;
        tie_break_reason = next_reason policy l d;
        proctoring_status = d.proctoring_status;
        violation_score = d.violation_score;
        attempt_status = elim d.score [
          | absent ↦ AttemptStatus.absent
          | points s ↦ AttemptStatus.present
        ];
      }

  abbrev pub advance : Loop → ScoreData → Loop
  advance l d = record {
    idx = l.idx + 1;
    previous_score = some d.score;
    previous_time_used = d.time_used;
    current_rank = next_rank policy l d;
  }

  unfoldable pub assign_loop : Loop → Dict ScoreData → List Entry
  assign_loop l [] = []
  assign_loop l ((c, d) ∷ rest) = make_entry l c d ∷ assign_loop (advance l d) rest

abbrev pub loop_start : Loop
loop_start = record { idx = 0; previous_score = none; previous_time_used = none; current_rank = 0 }

-- `_assign_ranks`
unfoldable pub assign_ranks : List Enrollment → ℕ → Dict ScoreData → RankingPolicy → List Entry
unfolding assign_loop
assign_ranks enrollments competition sorted policy =
    assign_loop enrollments competition (length sorted) policy loop_start sorted
