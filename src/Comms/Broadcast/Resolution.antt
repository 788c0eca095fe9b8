-- ===== src/Comms/Broadcast/Resolution.antt =====
-- What a run of a broadcast leaves: its logs, its status and the count of its recipients.
use vmlc_backend.Prelude.{
  ℕ, ◌+◌, ◌<◌, ◌≢◌, true, Option, ◌≡◌, refl, ap, ◌∙◌, subst, false, some, List, ◌++◌, arith, any_of,
  ◌==◌, ◌&&◌, Bool, if◌then◌else◌, length, Bool-cases, inl, inr, first_where, first_where-update,
}
use vmlc_backend.Comms.Model.{
  is_pending, BroadcastStatus, is_sent_status, Broadcast, BroadcastLog, Comms,
}
use vmlc_backend.Comms.Delivery.{Outside, Run, deliveries}
use vmlc_backend.Comms.Delivery.All.{
  final_logs, sent_among, reached_by, HasFreshIds, IsDelivered, deliver_all-IsDelivered,
}
use vmlc_backend.Comms.Broadcast.{
  is_broadcast, Outcome, begin, save_begun, resolve_broadcast_status, has_pending, resolve,
  finish_row, finish, completed, start_run, run_broadcast, send_broadcast,
}

-- The logs that a run of a broadcast adds.
abbrev pub run_logs : Outside → ℕ → Broadcast → Comms → List BroadcastLog
run_logs o now b s =
    final_logs o now b.id s.accounts (deliveries b.mediums b.target_roles) s.next_log

-- The status that a number of SENT logs among all of them makes: SENT for all, PARTIAL for some, and
-- FAILED for none of at least one.
pub record IsResolved (total sent : ℕ) (status : BroadcastStatus) : Type 0 where
  pub all_sent : sent ≡ total → status ≡ BroadcastStatus.sent
  pub some_sent : 0 < sent → sent < total → status ≡ BroadcastStatus.partial
  pub none_sent : sent ≡ 0 → 0 < total → status ≡ BroadcastStatus.failed

-- The time of sending changes exactly for the status SENT.
abbrev pub IsDated : ℕ → BroadcastStatus → Option ℕ → Option ℕ → Type 0
IsDated now status before after =
    (status ≡ BroadcastStatus.sent → after ≡ some now)
    × (status ≢ BroadcastStatus.sent → after ≡ before)

pub resolve-IsResolved :
    (total sent : ℕ) → IsResolved total sent (resolve_broadcast_status total sent)
unfolding resolve_broadcast_status
resolve-IsResolved total sent = record {
  all_sent = λ h. ground arith;
  some_sent = λ h k. ground arith;
  none_sent = λ h k. ground arith;
}

is_sent_status-sent :
    (status : BroadcastStatus) → is_sent_status status ≡ true → status ≡ BroadcastStatus.sent
is_sent_status-sent BroadcastStatus.sent h = refl
is_sent_status-sent _ h = absurd (cc)

pub sent_at-IsDated :
    (now : ℕ) (status : BroadcastStatus) (before : Option ℕ)
    → IsDated now status before (if is_sent_status status then some now else before)
sent_at-IsDated now status before = (
  λ h. rw h refl,
  λ h. elim (Bool-cases (is_sent_status status)) [
    | inl e ↦ absurd (h (is_sent_status-sent status e))
    | inr e ↦ rw e refl
  ],
)

-- A log of the broadcast is PENDING.
abbrev pub is_waiting : ℕ → List BroadcastLog → Bool
is_waiting broadcast logs = any_of (λ l. l.broadcast == broadcast && is_pending l.status) logs

-- The state and the row after a run that no exception ends.
pub record IsRun (o : Outside) (now : ℕ) (b : Broadcast) (s s' : Comms) : Type 0 where
  pub logs : s'.logs ≡ s.logs ++ run_logs o now b s
  pub row : Broadcast
  pub found : first_where (is_broadcast b.id) s'.broadcasts ≡ some row
  pub waiting : is_waiting b.id s'.logs ≡ true → row.status ≡ BroadcastStatus.in_progress
  pub resolved :
      is_waiting b.id s'.logs ≡ false
      → IsResolved
          (length (deliveries b.mediums b.target_roles))
          (sent_among (run_logs o now b s))
          row.status
  pub total : row.total_recipients ≡ b.total_recipients + reached_by (run_logs o now b s)
  pub last_attempt : row.last_attempt ≡ some now
  pub sent_at : IsDated now row.status b.sent_at row.sent_at

module _ (o : Outside) (now : ℕ) (b : Broadcast) (s : Comms) (fresh : HasFreshIds s.next_log s.logs)
    (there : first_where (is_broadcast b.id) s.broadcasts ≡ some b) where
  abbrev started : Comms
  started = save_begun (begin now b) s

  module _ (r : Run) (ran : run_broadcast o now b s ≡ (false, r)) where
    delivered : IsDelivered o now b.id (deliveries b.mediums b.target_roles) (start_run started) r
    unfolding run_broadcast
    delivered = deliver_all-IsDelivered o now b.id _ (start_run started) r fresh ran

    run_waiting :
        has_pending b.id r.state.logs ≡ true
        → (resolve now r (begin now b)).status ≡ BroadcastStatus.in_progress
    run_waiting h = rw h refl

    run-IsResolved :
        has_pending b.id r.state.logs ≡ false
        → IsResolved
            (length (deliveries b.mediums b.target_roles))
            (sent_among (run_logs o now b s))
            (resolve now r (begin now b)).status
    run-IsResolved h =
        let total : r.total_attempts ≡ length (deliveries b.mediums b.target_roles) =
          ground (arith, delivered.attempts) in
        let sent : r.successful_attempts ≡ sent_among (run_logs o now b s) =
          ground (arith, delivered.successes) in
        rw (h, total, sent)
          (resolve-IsResolved (length (deliveries b.mediums b.target_roles))
            (sent_among (run_logs o now b s)))

    run-IsDated :
        IsDated now
          (resolve now r (begin now b)).status
          b.sent_at
          (resolve now r (begin now b)).sent_at
    run-IsDated = elim (Bool-cases (has_pending b.id r.state.logs)) [
      | inl e ↦ rw (e) (sent_at-IsDated now BroadcastStatus.in_progress b.sent_at)
      | inr e ↦ rw (e) (
          sent_at-IsDated now (resolve_broadcast_status r.total_attempts r.successful_attempts)
            b.sent_at)
    ]

    begun_row : first_where (is_broadcast b.id) r.state.broadcasts ≡ some (begin now b)
    begun_row =
        ap (first_where (is_broadcast b.id)) delivered.broadcasts
        ∙ first_where-update (is_broadcast b.id) _ s.broadcasts (λ x. refl)
        ∙ rw there refl

    finish-IsRun :
        (run : IsRun o now b s (finish now r (begin now b))) × ((resolve now r (begin now b)).status
          ≡ run.row.status)
    unfolding finish
    finish-IsRun = (
      record {
        logs = delivered.logs;
        row = finish_row now r (begin now b) (begin now b);
        found =
            first_where-update (is_broadcast b.id) (finish_row now r (begin now b))
              r.state.broadcasts (λ x. refl)
            ∙ rw begun_row refl;
        waiting = run_waiting;
        resolved = run-IsResolved;
        total = ground (arith, delivered.reached);
        last_attempt = refl;
        sent_at = run-IsDated;
      },
      refl,
    )

  -- A run of a stored broadcast that no exception ends adds one log for each medium and target role,
  -- SENT, FAILED or PENDING as the delivery went. The broadcast is then IN_PROGRESS while one of its logs
  -- is pending; otherwise it is SENT if all the new logs are SENT, PARTIAL if some but not all are, and
  -- FAILED if there are new logs and none is SENT. Its time of sending is set exactly for SENT, its
  -- recipients have grown by those of the SENT logs, and the answer has these numbers and this status.
  pub send_broadcast-IsRun :
      (s' : Comms) (status : BroadcastStatus) (attempts successes reached : ℕ)
      → send_broadcast o now b.id s ≡ (completed status attempts successes reached, s')
      → (run : IsRun o now b s s') × (status ≡ run.row.status)
        × (attempts ≡ length (deliveries b.mediums b.target_roles))
        × (successes ≡ sent_among (run_logs o now b s))
        × (reached ≡ reached_by (run_logs o now b s))
  unfolding send_broadcast
  send_broadcast-IsRun s' status attempts successes reached h =
      elim (Bool-cases (run_broadcast o now b s).0) [
        | inl e ↦ absurd (ground (arith, there, e, h))
        | inr e ↦
            let r : Run = (run_broadcast o now b s).1 in
            let ran : run_broadcast o now b s ≡ (false, r) = ground arith in
            let d = delivered r ran in
            let answer : ◌≡◌ {A = Outcome × Comms}
                (
                  completed (resolve now r (begin now b)).status r.total_attempts
                      r.successful_attempts r.total_recipients_reached,
                  finish now r (begin now b),
                )
                (completed status attempts successes reached, s') =
              ground (arith, there, e, h) in
            let same : finish now r (begin now b) ≡ s' = ground (arith, answer) in
            subst
              (λ x.
                (run : IsRun o now b s x) × (status ≡ run.row.status)
                × (attempts ≡ length (deliveries b.mediums b.target_roles))
                × (successes ≡ sent_among (run_logs o now b s))
                × (reached ≡ reached_by (run_logs o now b s)))
              same
              (
                (finish-IsRun r ran).0,
                ground (arith, answer) ∙ (finish-IsRun r ran).1,
                ground (arith, answer, d.attempts),
                ground (arith, answer, d.successes),
                ground (arith, answer, d.reached),
              )
      ]
