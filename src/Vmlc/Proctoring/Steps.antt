-- ===== src/Vmlc/Proctoring/Steps.antt =====
-- Proctoring as a system of steps: heartbeats, runs of the task that reads their events, and reviews by
-- the staff, in any order and at any times. A task may run for any heartbeat and with any events.
use vmlc_backend.Prelude.{
  ℕ, ◌≡◌, update_where, true, false, some, List, [], arith, first_where, Bool-cases, Option-cases,
  inl, inr, ◌∙◌, sym, ==_iff, subst, refl, ◌==◌,
}
use vmlc_backend.Competition.Model.{ProctoringStatus}
use vmlc_backend.Vmlc.Model.{ExamAccess, access_of}
use vmlc_backend.Competition.Snapshot.{Snapshot}
use vmlc_backend.Vmlc.Proctoring.{EventType, Telemetry, Maths}
use vmlc_backend.Vmlc.Proctoring.Service.{
  is_access, post_heartbeat, process_events_and_score, reviewed, update_proctoring_status,
}
use vmlc_backend.Vmlc.Proctoring.Critical.{has_critical, IsFlagging, post_heartbeat-IsFlagging}
use vmlc_backend.Vmlc.Proctoring.Flagging.{
  other_row, updated_row, process_events_and_score-IsFlagging,
}

-- A heartbeat of a candidate, or a run of the task.
pub data AutoStep (m : Maths) (s : Telemetry) : Telemetry → Type 0 where
  beat :
      (candidate exam sequence uuid : ℕ) (summary events : List (EventType × ℕ))
      → AutoStep m s (post_heartbeat candidate exam sequence uuid summary events s).1
  processed :
      (now heartbeat : ℕ) (events : List (EventType × ℕ))
      → AutoStep m s (process_events_and_score m now heartbeat events s)

pub data Step (m : Maths) (s : Telemetry) : Telemetry → Type 0 where
  auto : {t : Telemetry} → AutoStep m s t → Step m s t
  review :
      (exam candidate : ℕ) (status : ProctoringStatus)
      → Step m s (update_proctoring_status exam candidate status s).1

-- Accesses and rankings, and no telemetry.
abbrev pub without_telemetry : List ExamAccess → List Snapshot → Telemetry
without_telemetry accesses snapshots = record {
  accesses = accesses;
  snapshots = snapshots;
  heartbeats = [];
  next_heartbeat = 1;
  events = [];
  tasks = [];
}

pub data Reach (m : Maths) : Telemetry → Type 0 where
  start :
      (accesses : List ExamAccess) (snapshots : List Snapshot)
      → Reach m (without_telemetry accesses snapshots)
  later : {s t : Telemetry} → Reach m s → Step m s t → Reach m t

update_proctoring_status-IsFlagging :
    (exam candidate : ℕ) (status : ProctoringStatus) (s : Telemetry)
    → IsFlagging s
    → IsFlagging (update_proctoring_status exam candidate status s).1
unfolding update_proctoring_status
update_proctoring_status-IsFlagging exam candidate status s w =
    elim (Option-cases (first_where (access_of candidate exam) s.accesses)) [
      | inl k ↦ rw (update_proctoring_status, k) w
      | inr (a, k) ↦
          rw (update_proctoring_status, k)
            (record {
              fresh = w.fresh;
              dated = w.dated;
              flags = λ id x row by c. elim (Bool-cases (a.id == id)) [
                | inr e ↦
                    w.flags id x
                      (sym (other_row id a (reviewed status) s.accesses (λ y. refl) e) ∙ row) by c
                | inl e ↦
                    let own =
                      subst
                        (λ i.
                          first_where (is_access i)
                            (update_where (is_access a.id) (reviewed status) s.accesses)
                          ≡ some x)
                        (sym ((==_iff a.id id).0 e)) row in
                    let (y, q) = updated_row a.id (reviewed status) s.accesses x (λ z. refl) own in
                    absurd (ground (arith, q, by))
              ];
            })
    ]

Step-IsFlagging : {m : Maths} {s t : Telemetry} → Step m s t → IsFlagging s → IsFlagging t
Step-IsFlagging {m} {s} (auto (beat candidate exam sequence uuid summary events)) =
    post_heartbeat-IsFlagging candidate exam sequence uuid summary events s
Step-IsFlagging {m} {s} (auto (processed now heartbeat events)) =
    process_events_and_score-IsFlagging m now heartbeat events s
Step-IsFlagging {m} {s} (review exam candidate status) =
    update_proctoring_status-IsFlagging exam candidate status s

Reach-IsFlagging : {m : Maths} {s : Telemetry} → Reach m s → IsFlagging s
Reach-IsFlagging (start accesses snapshots) = record {
  fresh = tt;
  dated = tt;
  flags = λ id a row by c. absurd (cc);
}
Reach-IsFlagging (later r st) = Step-IsFlagging st (Reach-IsFlagging r)

-- In every reachable state, the access that an identifier finds is FLAGGED if nobody has reviewed it
-- and a critical event was reported for it, whatever the scores, the order and the times.
pub Reach-flagged :
    (m : Maths) (s : Telemetry) (id : ℕ) (a : ExamAccess)
    → Reach m s
    → first_where (is_access id) s.accesses ≡ some a
    → a.is_manually_reviewed ≡ false
    → has_critical id s ≡ true
    → a.proctoring_status ≡ some ProctoringStatus.flagged
Reach-flagged m s id a r = (Reach-IsFlagging r).flags id a
