-- ===== src/Vmlc/Proctoring.antt =====
-- vmlc/services/proctoring.py: heartbeats, the events that they report, and the status of an access.
-- Scores are billionths and times are microseconds. `math.sqrt` and `math.log1p` are parameters, and
-- what Python computes in floats is exact here: an average is a fraction.
pub mod Service
pub mod Critical
pub mod Flagging
pub mod Steps
pub mod Review
mod Tests
use vmlc_backend.Prelude.{
  ℕ, ◌+◌, ◌-◌, ◌*◌, Bool, true, false, not, ◌&&◌, Option, none, some, List, [], ◌∷◌, ◌++◌, map,
  ◌==◌, ltb, leb, if◌then◌else◌, any_of, count_of, select, update_where, first_where, length,
}
use vmlc_backend.Prelude.Sort.{sort}
use vmlc_backend.Competition.Model.{ProctoringStatus}
use vmlc_backend.Competition.Ranking.{Entry}
use vmlc_backend.Competition.Snapshot.{Snapshot}
use vmlc_backend.Vmlc.Model.{is_started, ExamAccess, access_of}

-- The keys of SUSPICION_WEIGHTS, and any other text.
pub data EventType : Type 0 where
  tab_switch multi_face fullscreen_exit no_face devtools_open screenshot other : EventType

-- `event_type in CRITICAL_EVENTS`
abbrev pub is_critical_type : EventType → Bool
is_critical_type EventType.multi_face = true
is_critical_type EventType.devtools_open = true
is_critical_type _ = false

-- `SUSPICION_WEIGHTS.get(event_type, 0.05)`, in hundredths.
abbrev pub weight : EventType → ℕ
weight EventType.tab_switch = 30
weight EventType.multi_face = 50
weight EventType.fullscreen_exit = 10
weight EventType.no_face = 20
weight EventType.devtools_open = 40
weight EventType.screenshot = 10
weight EventType.other = 5

pub record ExamHeartbeat : Type 0 where
  pub id : ℕ
  pub exam_access : ℕ
  pub sequence_number : ℕ
  pub client_uuid : ℕ
  pub summary : List (EventType × ℕ)
  pub suspicion_score : ℕ

pub record ViolationEvent : Type 0 where
  pub heartbeat : ℕ
  pub event_type : EventType
  pub timestamp : ℕ
  pub is_critical : Bool

-- The tables, and the queued tasks: a heartbeat and its events.
pub record Telemetry : Type 0 where
  pub accesses : List ExamAccess
  pub snapshots : List Snapshot
  pub heartbeats : List ExamHeartbeat
  pub next_heartbeat : ℕ
  pub events : List ViolationEvent
  pub tasks : List (ℕ × List (EventType × ℕ))

-- The square root of a count in ten millionths, `log1p` of a fraction in billionths, the interval of
-- the heartbeats, and the rounding of a fraction of billionths to hundredths.
pub record Maths : Type 0 where
  pub sqrt : ℕ → ℕ
  pub log1p : ℕ → ℕ → ℕ
  pub interval : ℕ
  pub round : ℕ → ℕ → ℕ

-- 1.0, in billionths.
abbrev pub one : ℕ
one = 1000000000

abbrev pub sum_weights : Maths → List (EventType × ℕ) → ℕ
sum_weights m [] = 0
sum_weights m ((t, n) ∷ rest) =
    (if ltb 0 n then weight t * (10000000 + m.sqrt n) else 0) + sum_weights m rest

-- `calculate_suspicion_score`, of a summary whose values are numbers that are not negative.
unfoldable pub calculate_suspicion_score : Maths → List (EventType × ℕ) → ℕ
calculate_suspicion_score m summary =
    if leb (sum_weights m summary) one then sum_weights m summary else one

-- Whether a window of ten seconds from one of the times, which are in order, has three of them.
abbrev pub has_burst : List ℕ → Bool
has_burst [] = false
has_burst (t ∷ ts) =
    if leb 3 (count_of (λ u. leb u (t + 10000000)) (t ∷ ts)) then true else has_burst ts

abbrev pub total_score : List ℕ → ℕ
total_score [] = 0
total_score (x ∷ xs) = x + total_score xs

-- The mean with the multiplier 1.5 of a burst, as a fraction.
abbrev pub mean_score : Bool → List ℕ → ℕ × ℕ
mean_score burst scores =
    if burst
    then (total_score scores * 3, length scores * 2)
    else (total_score scores, length scores)

-- The weights of `_apply_recency_weighting` from the oldest heartbeat on, each twice the one before:
-- the weighted sum and the sum of the weights.
abbrev pub recent_sums : ℕ → List ℕ → ℕ × ℕ
recent_sums w [] = (0, 0)
recent_sums w (x ∷ xs) = let (a, b) = recent_sums (w * 2) xs in (x * w + a, w + b)

-- `_apply_recency_weighting`
unfoldable pub recency_weighted : List ℕ → ℕ × ℕ → ℕ × ℕ
recency_weighted scores base = if leb (length scores) 1 then base else recent_sums 1 scores

-- `_apply_duration_normalization`
unfoldable pub duration_normalized : Maths → ℕ → ExamAccess → ℕ → ℕ × ℕ → ℕ × ℕ
duration_normalized m now a count base = elim a.started_at [
  | none ↦ base
  | some start ↦
      let end : ℕ = elim a.submitted_at [ none ↦ now | some t ↦ t ] in
      if count == 0
      then base
      else (if leb end start
          then base
          else (base.0 * (one + m.log1p (count * m.interval) (end - start)), base.1 * one))
]

-- A fraction of billionths is at least a bound; a bound up to 1 is not affected by the cap of 1.
abbrev pub reaches : ℕ → ℕ × ℕ → Bool
reaches bound avg = leb (bound * avg.1) avg.0

-- `determine_status`
unfoldable pub determine_status : ℕ × ℕ → ℕ → ProctoringStatus
determine_status avg critical_count =
    if ltb 0 critical_count
    then ProctoringStatus.flagged
    else (if reaches 700000000 avg
        then ProctoringStatus.flagged
        else (if reaches 300000000 avg
            then ProctoringStatus.suspicious
            else ProctoringStatus.clear))

-- `min(1.0, avg_suspicion)`
abbrev pub capped : ℕ × ℕ → ℕ × ℕ
capped avg = if reaches one avg then (one, 1) else avg
