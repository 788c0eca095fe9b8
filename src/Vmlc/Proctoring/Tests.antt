-- ===== src/Vmlc/Proctoring/Tests.antt =====
-- Runs of proctoring on small tables.
use vmlc_backend.Prelude.{◌+◌, ◌≡◌, refl, true, false, none, some, [], ◌∷◌, first_where}
use vmlc_backend.Competition.Model.{ProctoringStatus}
use vmlc_backend.Vmlc.Model.{AccessStatus, ExamAccess}
use vmlc_backend.Vmlc.Proctoring.{
  EventType, Telemetry, Maths, calculate_suspicion_score, recency_weighted, mean_score,
  determine_status,
}
use vmlc_backend.Vmlc.Proctoring.Service.{
  is_access, average_suspicion, auto_status, judge, process_heartbeat, post_heartbeat,
  process_events_and_score, update_proctoring_status,
}
use vmlc_backend.Vmlc.Proctoring.Steps.{
  auto, beat, processed, without_telemetry, Reach, start, later, Reach-flagged,
}
use vmlc_backend.Vmlc.Proctoring.Review.{idle, more, update_proctoring_status-kept}

-- Functions of whole numbers in place of the square root and the logarithm.
abbrev maths : Maths
maths = record {
  sqrt = λ n. n + 10000000;
  log1p = λ n d. 0;
  interval = 300000000;
  round = λ n d. 0;
}

abbrev attempt : ExamAccess
attempt = record {
  id = 4;
  exam = 7;
  candidate = 9;
  status = AccessStatus.started;
  started_at = some 10;
  deadline = some 1000;
  submitted_at = none;
  proctoring_status = none;
  is_manually_reviewed = false;
  is_unlocked = true;
}

abbrev before : Telemetry
before = without_telemetry (attempt ∷ []) []

abbrev beaten : Telemetry
beaten = (post_heartbeat 9 7 1 55 ((EventType.devtools_open, 1) ∷ []) [] before).1

abbrev flagged_after : Telemetry
flagged_after = process_events_and_score maths 20 1 ((EventType.devtools_open, 15) ∷ []) beaten

abbrev flagged_attempt : ExamAccess
flagged_attempt = record attempt { proctoring_status = some ProctoringStatus.flagged }

flagged_reach : Reach maths flagged_after
flagged_reach =
    later
      (later (start (attempt ∷ []) [])
        (auto (beat 9 7 1 55 ((EventType.devtools_open, 1) ∷ []) [])))
      (auto (processed 20 1 ((EventType.devtools_open, 15) ∷ [])))

Reach-flagged_example : flagged_attempt.proctoring_status ≡ some ProctoringStatus.flagged
unfolding post_heartbeat process_heartbeat process_events_and_score judge auto_status
    average_suspicion determine_status
Reach-flagged_example =
    Reach-flagged maths flagged_after 4 flagged_attempt flagged_reach refl refl refl

-- The same heartbeat sent again is answered with its number and changes nothing.
beat_again : post_heartbeat 9 7 1 55 [] [] beaten ≡ post_heartbeat 9 7 2 55 [] [] beaten
unfolding post_heartbeat process_heartbeat
beat_again = refl

abbrev cleared : Telemetry
cleared = (update_proctoring_status 7 9 ProctoringStatus.clear flagged_after).1

update_proctoring_status-kept_example :
    (x : ExamAccess) × (first_where
        (is_access 4)
        (process_events_and_score maths 30 1 ((EventType.multi_face, 25) ∷ []) cleared).accesses
      ≡ some x)
    × (x.proctoring_status ≡ some ProctoringStatus.clear)
    × (x.is_manually_reviewed ≡ true)
unfolding post_heartbeat process_heartbeat process_events_and_score judge auto_status
    average_suspicion determine_status update_proctoring_status
update_proctoring_status-kept_example =
    update_proctoring_status-kept maths 7 9 ProctoringStatus.clear flagged_after cleared
      (process_events_and_score maths 30 1 ((EventType.multi_face, 25) ∷ []) cleared)
      flagged_attempt refl refl refl (more idle (processed 30 1 ((EventType.multi_face, 25) ∷ [])))

-- Of two heartbeats the burst makes no difference: the weighted mean does not use it.
recency_ignores_burst :
    recency_weighted (100 ∷ 200 ∷ []) (mean_score true (100 ∷ 200 ∷ []))
    ≡ recency_weighted (100 ∷ 200 ∷ []) (mean_score false (100 ∷ 200 ∷ []))
unfolding recency_weighted
recency_ignores_burst = refl

score_example : calculate_suspicion_score maths ((EventType.tab_switch, 1) ∷ []) ≡ 600000030
unfolding calculate_suspicion_score
score_example = refl
