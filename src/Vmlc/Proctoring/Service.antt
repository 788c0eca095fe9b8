-- ===== src/Vmlc/Proctoring/Service.antt =====
-- The operations of `ProctoringService`, and `ExamHeartbeatView.post` of vmlc/views/proctoring.py.
use vmlc_backend.Prelude.{
  ℕ, ◌+◌, Bool, true, false, not, ◌&&◌, Option, none, some, List, [], ◌∷◌, ◌++◌, map, ◌==◌, leb,
  if◌then◌else◌, count_of, select, update_where, first_where, length,
}
use vmlc_backend.Prelude.Sort.{sort}
use vmlc_backend.Competition.Model.{ProctoringStatus}
use vmlc_backend.Competition.Ranking.{Entry}
use vmlc_backend.Competition.Snapshot.{Snapshot}
use vmlc_backend.Vmlc.Model.{is_started, ExamAccess, access_of}
use vmlc_backend.Vmlc.Proctoring.{
  EventType, is_critical_type, ExamHeartbeat, ViolationEvent, Telemetry, Maths,
  calculate_suspicion_score, has_burst, mean_score, recency_weighted, duration_normalized,
  determine_status, capped,
}

abbrev pub is_access : ℕ → ExamAccess → Bool
is_access id a = a.id == id

abbrev pub is_heartbeat : ℕ → ExamHeartbeat → Bool
is_heartbeat id h = h.id == id

abbrev pub has_uuid : ℕ → ExamHeartbeat → Bool
has_uuid uuid h = h.client_uuid == uuid

abbrev pub new_heartbeat : ℕ → ℕ → ℕ → ℕ → List (EventType × ℕ) → ExamHeartbeat
new_heartbeat id access sequence uuid summary = record {
  id = id;
  exam_access = access;
  sequence_number = sequence;
  client_uuid = uuid;
  summary = summary;
  suspicion_score = 0;
}

-- `process_heartbeat`: the sequence number of the heartbeat that it returns, and the tables.
unfoldable pub process_heartbeat :
    ℕ → ℕ → ℕ → List (EventType × ℕ) → List (EventType × ℕ) → Telemetry → ℕ × Telemetry
process_heartbeat access sequence uuid summary events s =
    elim (first_where (has_uuid uuid) s.heartbeats) [
      | some h ↦ (h.sequence_number, s)
      | none ↦ (
        sequence,
        record s {
          heartbeats =
              s.heartbeats ++ new_heartbeat s.next_heartbeat access sequence uuid summary ∷ [];
          next_heartbeat = s.next_heartbeat + 1;
          tasks = s.tasks ++ (s.next_heartbeat, events) ∷ [];
        },
      )
    ]

-- What the view answers.
pub data Receipt : Type 0 where
  not_found not_ongoing : Receipt
  received : ℕ → Receipt

-- `ExamHeartbeatView.post` of a valid payload.
unfoldable pub post_heartbeat :
    ℕ → ℕ → ℕ → ℕ → List (EventType × ℕ) → List (EventType × ℕ) → Telemetry → Receipt × Telemetry
post_heartbeat candidate exam sequence uuid summary events s =
    elim (first_where (access_of candidate exam) s.accesses) [
      | none ↦ (not_found, s)
      | some a ↦
          if not (is_started a.status)
          then (not_ongoing, s)
          else (let (n, s') = process_heartbeat a.id sequence uuid summary events s in
              (received n, s'))
    ]

abbrev pub belongs_to : ℕ → Option ExamHeartbeat → Bool
belongs_to access none = false
belongs_to access (some h) = h.exam_access == access

-- Whether an event is of an access, through its heartbeat.
abbrev pub is_event_of : ℕ → List ExamHeartbeat → ViolationEvent → Bool
is_event_of access heartbeats e =
    belongs_to access (first_where (is_heartbeat e.heartbeat) heartbeats)

-- `critical_count`
abbrev pub is_critical_of : ℕ → List ExamHeartbeat → ViolationEvent → Bool
is_critical_of access heartbeats e = e.is_critical && is_event_of access heartbeats e

abbrev pub events_of : ℕ → List (EventType × ℕ) → List ViolationEvent
events_of heartbeat [] = []
events_of heartbeat ((t, at) ∷ rest) =
    record {
      heartbeat = heartbeat;
      event_type = t;
      timestamp = at;
      is_critical = is_critical_type t;
    }
    ∷ events_of heartbeat rest

-- The heartbeats of an access by their sequence numbers.
abbrev pub heartbeats_of : ℕ → List ExamHeartbeat → List ExamHeartbeat
heartbeats_of access heartbeats =
    sort (λ h k. leb h.sequence_number k.sequence_number)
      (select (λ h. h.exam_access == access) heartbeats)

-- `_detect_burst_violations`
abbrev pub is_burst : ℕ → Telemetry → Bool
is_burst access s =
    has_burst
      (sort leb (map (λ e. e.timestamp) (select (is_event_of access s.heartbeats) s.events)))

-- `avg_suspicion` of `get_proctoring_summary`, for an access with heartbeats.
unfoldable pub average_suspicion : Maths → ℕ → ExamAccess → Telemetry → ℕ × ℕ
average_suspicion m now a s =
    let scores = map (λ h. h.suspicion_score) (heartbeats_of a.id s.heartbeats) in
    capped (
      duration_normalized m now a (length scores)
        (recency_weighted scores (mean_score (is_burst a.id s) scores)))

-- `auto_status` of `get_proctoring_summary`, for an access with heartbeats.
unfoldable pub auto_status : Maths → ℕ → ExamAccess → Telemetry → ProctoringStatus
auto_status m now a s =
    determine_status (average_suspicion m now a s)
      (count_of (is_critical_of a.id s.heartbeats) s.events)

-- An update of the entries of a candidate in some rankings.
abbrev pub update_entries : (Snapshot → Bool) → ℕ → (Entry → Entry) → List Snapshot → List Snapshot
update_entries p candidate f =
    update_where p
      (λ x. record x { entries = update_where (λ e. e.candidate_id == candidate) f x.entries })

abbrev pub set_entries : (Snapshot → Bool) → ℕ → (Entry → Entry) → Telemetry → Telemetry
set_entries p candidate f s = record s { snapshots = update_entries p candidate f s.snapshots }

abbrev pub set_proctoring : ProctoringStatus → ExamAccess → ExamAccess
set_proctoring status a = record a { proctoring_status = some status }

-- The tables after the events are stored and the heartbeat has its score.
abbrev pub store_events : Maths → ExamHeartbeat → List (EventType × ℕ) → Telemetry → Telemetry
store_events m h events s = record s {
  events = s.events ++ events_of h.id events;
  heartbeats =
      update_where (is_heartbeat h.id)
        (λ x. record x { suspicion_score = calculate_suspicion_score m h.summary }) s.heartbeats;
}

abbrev pub current : ExamAccess → Snapshot → Bool
current a x = x.exam == a.exam && x.is_active

-- The part of `process_events_and_score` for the access of the heartbeat.
unfoldable pub judge : Maths → ℕ → ExamAccess → Telemetry → Telemetry
judge m now a s =
    let avg = average_suspicion m now a s in
    let status = auto_status m now a s in
    let scored =
      set_entries (current a) a.candidate (λ e. record e { violation_score = m.round avg.0 avg.1 })
        s in
    if a.is_manually_reviewed
    then scored
    else set_entries (current a) a.candidate (λ e. record e { proctoring_status = some status })
        (record scored {
          accesses = update_where (is_access a.id) (set_proctoring status) s.accesses;
        })

-- `process_events_and_score`
unfoldable pub process_events_and_score :
    Maths → ℕ → ℕ → List (EventType × ℕ) → Telemetry → Telemetry
process_events_and_score m now heartbeat events s =
    elim (first_where (is_heartbeat heartbeat) s.heartbeats) [
      | none ↦ s
      | some h ↦ elim (first_where (is_access h.exam_access) s.accesses) [
        | none ↦ s
        | some a ↦ judge m now a (store_events m h events s)
      ]
    ]

-- The access after a review.
abbrev pub reviewed : ProctoringStatus → ExamAccess → ExamAccess
reviewed status a = record a { proctoring_status = some status; is_manually_reviewed = true }

-- `update_proctoring_status`; false is the exception of a missing access.
unfoldable pub update_proctoring_status : ℕ → ℕ → ProctoringStatus → Telemetry → Bool × Telemetry
update_proctoring_status exam candidate status s =
    elim (first_where (access_of candidate exam) s.accesses) [
      | none ↦ (false, s)
      | some a ↦ (
        true,
        set_entries (λ x. x.exam == exam) candidate
            (λ e. record e { proctoring_status = some status })
            (record s { accesses = update_where (is_access a.id) (reviewed status) s.accesses }),
      )
    ]
