-- ===== src/Vmlc/Proctoring/Critical.antt =====
-- Critical events, and what a heartbeat does to them.
use vmlc_backend.Prelude.{
  ℕ, ◌<◌, ◌≡◌, refl, Bool, true, false, Option, none, some, List, [], ◌∷◌, ◌++◌, arith, ◌==◌,
  ==_iff, All, All-map, All-append, ltb, any_of, count_of, update_where, first_where,
  first_where-map_if, any_of-append, Bool-cases, if◌then◌else◌, Option-cases, inl, inr, ◌∙◌, sym,
  ap,
}
use mathlib.Core.Option
use vmlc_backend.Competition.Model.{ProctoringStatus}
use vmlc_backend.Vmlc.Model.{is_started, ExamAccess, access_of}
use vmlc_backend.Vmlc.Proctoring.{
  calculate_suspicion_score, EventType, ExamHeartbeat, ViolationEvent, Telemetry, Maths,
}
use vmlc_backend.Vmlc.Proctoring.Service.{
  is_access, is_heartbeat, has_uuid, new_heartbeat, process_heartbeat, post_heartbeat, belongs_to,
  is_event_of, is_critical_of, events_of, store_events,
}

abbrev pub has_critical : ℕ → Telemetry → Bool
has_critical access s = any_of (is_critical_of access s.heartbeats) s.events

-- Events are of heartbeats with older identifiers, and an access that nobody has reviewed and that has
-- a critical event is FLAGGED.
pub record IsFlagging (s : Telemetry) : Type 0 where
  pub fresh : All (λ h. h.id < s.next_heartbeat) s.heartbeats
  pub dated : All (λ e. e.heartbeat < s.next_heartbeat) s.events
  pub flags :
      (id : ℕ) (a : ExamAccess)
      → first_where (is_access id) s.accesses ≡ some a
      → a.is_manually_reviewed ≡ false
      → has_critical id s ≡ true
      → a.proctoring_status ≡ some ProctoringStatus.flagged

first_where-older :
    (n : ExamHeartbeat) (hs : List ExamHeartbeat) (id : ℕ)
    → id < n.id
    → first_where (is_heartbeat id) (hs ++ n ∷ []) ≡ first_where (is_heartbeat id) hs
first_where-older n [] id h = ground (arith, ==_iff n.id id)
first_where-older n (x ∷ hs) id h = ground (arith, first_where-older n hs id h)

event_of-append :
    (access : ℕ) (n : ExamHeartbeat) (hs : List ExamHeartbeat) (e : ViolationEvent)
    → e.heartbeat < n.id
    → is_event_of access (hs ++ n ∷ []) e ≡ is_event_of access hs e
event_of-append access n hs e h = ap (belongs_to access) (first_where-older n hs e.heartbeat h)

critical-append :
    (access : ℕ) (n : ExamHeartbeat) (hs : List ExamHeartbeat) (es : List ViolationEvent)
    → All (λ e. e.heartbeat < n.id) es
    → any_of (is_critical_of access (hs ++ n ∷ [])) es ≡ any_of (is_critical_of access hs) es
critical-append access n hs [] h = refl
critical-append access n hs (e ∷ es) h =
    rw (event_of-append access n hs e h.0, critical-append access n hs es h.1) refl

abbrev pub with_score : ℕ → ExamHeartbeat → ExamHeartbeat
with_score score h = record h { suspicion_score = score }

belongs_to-scored :
    (access score : ℕ) (q : ExamHeartbeat → Bool) (o : Option ExamHeartbeat)
    → belongs_to access (Option.map (λ x. if q x then with_score score x else x) o)
      ≡ belongs_to access o
belongs_to-scored access score q none = refl
belongs_to-scored access score q (some x) = elim (Bool-cases (q x)) [
  | inl k ↦ rw k refl
  | inr k ↦ rw k refl
]

event_of-scored :
    (access id score : ℕ) (hs : List ExamHeartbeat) (e : ViolationEvent)
    → is_event_of access (update_where (is_heartbeat id) (with_score score) hs) e
      ≡ is_event_of access hs e
event_of-scored access id score hs e =
    ap (belongs_to access) (
      first_where-map_if (is_heartbeat e.heartbeat) (is_heartbeat id) (with_score score) hs
        (λ x. refl))
    ∙ belongs_to-scored access score (is_heartbeat id) (first_where (is_heartbeat e.heartbeat) hs)

critical-scored :
    (access id score : ℕ) (hs : List ExamHeartbeat) (es : List ViolationEvent)
    → any_of (is_critical_of access (update_where (is_heartbeat id) (with_score score) hs)) es
      ≡ any_of (is_critical_of access hs) es
critical-scored access id score hs [] = refl
critical-scored access id score hs (e ∷ es) =
    rw (event_of-scored access id score hs e, critical-scored access id score hs es) refl

-- The events of a heartbeat are of no other access.
events_of-apart :
    (access : ℕ) (h : ExamHeartbeat) (hs : List ExamHeartbeat) (events : List (EventType × ℕ))
    → first_where (is_heartbeat h.id) hs ≡ some h
    → (h.exam_access == access) ≡ false
    → any_of (is_critical_of access hs) (events_of h.id events) ≡ false
events_of-apart access h hs [] found apart = refl
events_of-apart access h hs ((t, at) ∷ rest) found apart =
    rw (found, apart) (ground (arith, events_of-apart access h hs rest found apart))

pub events_of-older :
    (id next : ℕ) (events : List (EventType × ℕ))
    → id < next
    → All (λ e. e.heartbeat < next) (events_of id events)
events_of-older id next [] h = tt
events_of-older id next ((t, at) ∷ rest) h = (h, events_of-older id next rest h)

pub count_of-any :
    (p : ViolationEvent → Bool) (es : List ViolationEvent)
    → any_of p es ≡ true
    → ltb 0 (count_of p es) ≡ true
count_of-any p [] h = absurd (cc)
count_of-any p (e ∷ es) h = ground (arith, count_of-any p es)

process_heartbeat-IsFlagging :
    (access sequence uuid : ℕ) (summary events : List (EventType × ℕ)) (s : Telemetry)
    → IsFlagging s
    → IsFlagging (process_heartbeat access sequence uuid summary events s).1
unfolding process_heartbeat
process_heartbeat-IsFlagging access sequence uuid summary events s w =
    let n = new_heartbeat s.next_heartbeat access sequence uuid summary in
    elim (Option-cases (first_where (has_uuid uuid) s.heartbeats)) [
      | inr (x, k) ↦ rw (process_heartbeat, k) w
      | inl k ↦
          rw (process_heartbeat, k)
            (record {
              fresh =
                  All-append _ s.heartbeats (n ∷ [])
                    (All-map (λ h q. omega arith) s.heartbeats w.fresh) (omega arith, tt);
              dated = All-map (λ e q. omega arith) s.events w.dated;
              flags = λ id a found by c.
                  w.flags id a found by
                    (sym (critical-append id n s.heartbeats s.events w.dated) ∙ c);
            })
    ]

pub post_heartbeat-IsFlagging :
    (candidate exam sequence uuid : ℕ) (summary events : List (EventType × ℕ)) (s : Telemetry)
    → IsFlagging s
    → IsFlagging (post_heartbeat candidate exam sequence uuid summary events s).1
unfolding post_heartbeat
post_heartbeat-IsFlagging candidate exam sequence uuid summary events s w =
    elim (Option-cases (first_where (access_of candidate exam) s.accesses)) [
      | inl k ↦ rw (post_heartbeat, k) w
      | inr (a, k) ↦ elim (Bool-cases (is_started a.status)) [
        | inl e ↦
            rw (post_heartbeat, k, e)
              (process_heartbeat-IsFlagging a.id sequence uuid summary events s w)
        | inr e ↦ rw (post_heartbeat, k, e) w
      ]
    ]

pub has_critical-apart :
    (m : Maths) (id : ℕ) (h : ExamHeartbeat) (events : List (EventType × ℕ)) (s : Telemetry)
    → first_where (is_heartbeat h.id) s.heartbeats ≡ some h
    → (h.exam_access == id) ≡ false
    → has_critical id (store_events m h events s) ≡ true
    → has_critical id s ≡ true
has_critical-apart m id h events s found apart c =
    let hs = s.heartbeats in
    let q =
      critical-scored id h.id (calculate_suspicion_score m h.summary) hs
        (s.events ++ events_of h.id events) in
    let k = any_of-append (is_critical_of id hs) s.events (events_of h.id events) in
    let z = events_of-apart id h hs events found apart in ground (arith, sym q ∙ c, k, z)
