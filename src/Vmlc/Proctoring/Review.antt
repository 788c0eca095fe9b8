-- ===== src/Vmlc/Proctoring/Review.antt =====
-- A review by the staff is not undone by telemetry.
use vmlc_backend.Prelude.{
  ℕ, ◌≡◌, update_where, true, some, List, arith, first_where, first_where-true, first_where-updated,
  Bool-cases, Option-cases, inl, inr, ◌∙◌, sym, ==_iff, subst, ==_refl, refl, ◌==◌,
}
use vmlc_backend.Competition.Model.{ProctoringStatus}
use vmlc_backend.Vmlc.Model.{is_started, ExamAccess, access_of}
use vmlc_backend.Vmlc.Proctoring.{EventType, Telemetry, Maths, duration_normalized}
use vmlc_backend.Vmlc.Proctoring.Service.{
  is_access, is_heartbeat, has_uuid, process_heartbeat, post_heartbeat, judge, store_events,
  process_events_and_score, reviewed, update_proctoring_status, set_proctoring, average_suspicion,
  auto_status,
}
use vmlc_backend.Vmlc.Proctoring.Flagging.{other_row, judge-accesses}
use vmlc_backend.Vmlc.Proctoring.Steps.{AutoStep, beat, processed}

-- Heartbeats and runs of the task, one after another.
pub data Runs (m : Maths) (s : Telemetry) : Telemetry → Type 0 where
  idle : Runs m s s
  more : {t u : Telemetry} → Runs m s t → AutoStep m t u → Runs m s u

-- The access of an identifier is reviewed and has a status.
abbrev pub IsReviewed : ℕ → ProctoringStatus → List ExamAccess → Type 0
IsReviewed id status accesses =
    (x : ExamAccess) × (first_where (is_access id) accesses ≡ some x)
    × (x.proctoring_status ≡ some status)
    × (x.is_manually_reviewed ≡ true)

post_heartbeat-accesses :
    (candidate exam sequence uuid : ℕ) (summary events : List (EventType × ℕ)) (s : Telemetry)
    → (post_heartbeat candidate exam sequence uuid summary events s).1.accesses ≡ s.accesses
unfolding post_heartbeat process_heartbeat
post_heartbeat-accesses candidate exam sequence uuid summary events s =
    elim (Option-cases (first_where (access_of candidate exam) s.accesses)) [
      | inl k ↦ rw (post_heartbeat, k) refl
      | inr (a, k) ↦ elim (Bool-cases (is_started a.status)) [
        | inr e ↦ rw (post_heartbeat, k, e) refl
        | inl e ↦ elim (Option-cases (first_where (has_uuid uuid) s.heartbeats)) [
          | inl q ↦ rw (post_heartbeat, k, e) (rw (process_heartbeat, q) refl)
          | inr (x, q) ↦ rw (post_heartbeat, k, e) (rw (process_heartbeat, q) refl)
        ]
      ]
    ]

judge-IsReviewed :
    (m : Maths) (now id : ℕ) (status : ProctoringStatus) (a : ExamAccess) (s : Telemetry)
    → first_where (is_access a.id) s.accesses ≡ some a
    → IsReviewed id status s.accesses
    → IsReviewed id status (judge m now a s).accesses
unfolding auto_status average_suspicion duration_normalized
judge-IsReviewed m now id status a s here (x, found, v, r) =
    elim (Bool-cases a.is_manually_reviewed) [
      | inl e ↦ rw (judge-accesses m now a s, e) (x, found, v, r)
      | inr e ↦ elim (Bool-cases (a.id == id)) [
        | inl k ↦
            let same =
              subst (λ i. first_where (is_access i) s.accesses ≡ some a) ((==_iff a.id id).0 k)
                here in
            absurd (ground (arith, same, found, e, r))
        | inr k ↦ subst (IsReviewed id status) (sym (judge-accesses m now a s)) (
          x,
          rw e (
              other_row id a (set_proctoring (auto_status m now a s)) s.accesses (λ y. refl) k
              ∙ found),
          v,
          r,
        )
      ]
    ]

AutoStep-IsReviewed :
    (m : Maths) (id : ℕ) (status : ProctoringStatus) {s t : Telemetry}
    → AutoStep m s t
    → IsReviewed id status s.accesses
    → IsReviewed id status t.accesses
unfolding process_events_and_score
AutoStep-IsReviewed m id status {s} (beat candidate exam sequence uuid summary events) w =
    subst (IsReviewed id status)
      (sym (post_heartbeat-accesses candidate exam sequence uuid summary events s)) w
AutoStep-IsReviewed m id status {s} (processed now heartbeat events) w =
    elim (Option-cases (first_where (is_heartbeat heartbeat) s.heartbeats)) [
      | inl k ↦ rw (process_events_and_score, k) w
      | inr (h, k) ↦ elim (Option-cases (first_where (is_access h.exam_access) s.accesses)) [
        | inl q ↦ rw (process_events_and_score, k, q) w
        | inr (a, q) ↦
            let mine =
              (==_iff a.id h.exam_access).0
                (first_where-true (is_access h.exam_access) s.accesses q) in
            let here = subst (λ i. first_where (is_access i) s.accesses ≡ some a) (sym mine) q in
            rw (process_events_and_score, k, q)
              (judge-IsReviewed m now id status a (store_events m h events s) here w)
      ]
    ]

Runs-IsReviewed :
    (m : Maths) (id : ℕ) (status : ProctoringStatus) {s t : Telemetry}
    → Runs m s t
    → IsReviewed id status s.accesses
    → IsReviewed id status t.accesses
Runs-IsReviewed m id status idle w = w
Runs-IsReviewed m id status (more r st) w =
    AutoStep-IsReviewed m id status st (Runs-IsReviewed m id status r w)

-- If identifiers find their rows: a status that the staff has set for an attempt stays, and the attempt
-- stays reviewed, whatever heartbeats and runs of the task follow.
pub update_proctoring_status-kept :
    (m : Maths) (exam candidate : ℕ) (status : ProctoringStatus) (s s' t : Telemetry)
    (a : ExamAccess)
    → first_where (access_of candidate exam) s.accesses ≡ some a
    → first_where (is_access a.id) s.accesses ≡ some a
    → update_proctoring_status exam candidate status s ≡ (true, s')
    → Runs m s' t
    → (x : ExamAccess) × (first_where (is_access a.id) t.accesses ≡ some x)
      × (x.proctoring_status ≡ some status)
      × (x.is_manually_reviewed ≡ true)
unfolding update_proctoring_status
update_proctoring_status-kept m exam candidate status s s' t a row here h runs =
    let left : update_where (is_access a.id) (reviewed status) s.accesses ≡ s'.accesses =
      ground (arith, row) in
    let own =
      first_where-updated (is_access a.id) (is_access a.id) (reviewed status) s.accesses a
        (λ x. refl) here
      ∙ rw (==_refl a.id) refl in
    Runs-IsReviewed m a.id status runs
      (subst (IsReviewed a.id status) left (reviewed status a, own, refl, refl))
