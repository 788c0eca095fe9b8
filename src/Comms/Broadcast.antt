-- ===== src/Comms/Broadcast.antt =====
-- Broadcasts: `Broadcast.cancel` of comms/models.py, `NotificationService.send_broadcast` of
-- comms/services/notification.py and `send_bulk_sms_task` of comms/tasks.py.
pub mod Resolution
pub mod Sms
pub mod Waiting
pub mod Cancelled
mod Tests
use vmlc_backend.Prelude.{
  ℕ, ◌+◌, Bool, true, false, ◌&&◌, Option, none, some, List, ◌==◌, ltb, leb, if◌then◌else◌, any_of,
  update_where, first_where, length, count_of, ◌*◌, ◌/◌,
}
use vmlc_backend.Comms.Model.{
  BroadcastStatus, is_retry, is_cancellable, is_sent_status, Broadcast, MediumStatus, is_pending,
  is_sent, BroadcastLog, SmsJob, Comms,
}
use vmlc_backend.Comms.Delivery.{Outside, deliveries, Run, deliver_all, update_log, log_failed}

abbrev pub is_broadcast : ℕ → Broadcast → Bool
is_broadcast id b = b.id == id

abbrev pub save_broadcast : ℕ → (Broadcast → Broadcast) → Comms → Comms
save_broadcast id f s = record s { broadcasts = update_where (is_broadcast id) f s.broadcasts }

-- `Broadcast.cancel`, of the broadcast in memory and its row.
unfoldable pub cancel : Broadcast → Comms → Bool × Comms
cancel b s =
    if is_cancellable b.status
    then (true, save_broadcast b.id (λ x. record x { status = BroadcastStatus.cancelled }) s)
    else (false, s)

-- `_resolve_broadcast_status`
unfoldable pub resolve_broadcast_status : ℕ → ℕ → BroadcastStatus
resolve_broadcast_status total successful =
    if successful == total
    then BroadcastStatus.sent
    else (if ltb 0 successful then BroadcastStatus.partial else BroadcastStatus.failed)

abbrev pub is_log_of : ℕ → BroadcastLog → Bool
is_log_of broadcast l = l.broadcast == broadcast

-- `broadcast.logs.filter(status=PENDING).exists()`
abbrev pub has_pending : ℕ → List BroadcastLog → Bool
has_pending broadcast = any_of (λ l. is_log_of broadcast l && is_pending l.status)

-- The broadcast in memory after its status is set to IN_PROGRESS.
abbrev pub begin : ℕ → Broadcast → Broadcast
begin now b = record b {
  retry_count = (if is_retry b.status then b.retry_count + 1 else b.retry_count);
  status = BroadcastStatus.in_progress;
  last_attempt = some now;
}

abbrev pub save_begun : Broadcast → Comms → Comms
save_begun b = save_broadcast b.id (λ x. record x {
  status = b.status;
  last_attempt = b.last_attempt;
  retry_count = b.retry_count;
})

-- The broadcast in memory after the final status is resolved.
abbrev pub resolve : ℕ → Run → Broadcast → Broadcast
resolve now r b =
    if has_pending b.id r.state.logs
    then b
    else let status = resolve_broadcast_status r.total_attempts r.successful_attempts in
      record b {
        status = status;
        sent_at = (if is_sent_status status then some now else b.sent_at);
      }

-- The row after the last save; `F("total_recipients") + ...` reads the row, and without it the value
-- in memory is written.
abbrev pub finish_row : ℕ → Run → Broadcast → Broadcast → Broadcast
finish_row now r b x =
    let b' = resolve now r b in
    record x {
      status = b'.status;
      sent_at = b'.sent_at;
      total_recipients =
          if ltb 0 r.total_recipients_reached
          then x.total_recipients + r.total_recipients_reached
          else b.total_recipients;
    }

unfoldable pub finish : ℕ → Run → Broadcast → Comms
finish now r b = save_broadcast b.id (finish_row now r b) r.state

pub data Outcome : Type 0 where
  not_found raised : Outcome
  completed : BroadcastStatus → ℕ → ℕ → ℕ → Outcome

abbrev pub start_run : Comms → Run
start_run s = record {
  total_attempts = 0;
  successful_attempts = 0;
  total_recipients_reached = 0;
  state = s;
}

-- The loop of a broadcast that is found.
unfoldable pub run_broadcast : Outside → ℕ → Broadcast → Comms → Bool × Run
run_broadcast o now b s =
    deliver_all o now b.id (deliveries b.mediums b.target_roles)
      (start_run (save_begun (begin now b) s))

-- What follows the loop, for the broadcast in memory.
abbrev pub conclude : ℕ → Broadcast → Bool × Run → Outcome × Comms
conclude now b (true, r) = (raised, r.state)
conclude now b (false, r) = (
  completed (resolve now r b).status r.total_attempts r.successful_attempts
      r.total_recipients_reached,
  finish now r b,
)

-- `send_broadcast`
unfoldable pub send_broadcast : Outside → ℕ → ℕ → Comms → Outcome × Comms
send_broadcast o now id s = elim (first_where (is_broadcast id) s.broadcasts) [
  | none ↦ (not_found, s)
  | some b ↦ conclude now (begin now b) (run_broadcast o now b s)
]

-- What the Kudi API answers: the balance, and then success, a failure, or an exception.
pub data SmsAnswer : Type 0 where
  success failure exception : SmsAnswer

pub record Kudi : Type 0 where
  pub balance : ℕ
  pub answer : SmsAnswer

-- The end of a run of `send_bulk_sms_task`.
pub data SmsOutcome : Type 0 where
  finished missing_log fatal : SmsOutcome
  retry : SmsOutcome

-- `estimate_cost`, in kobo: 5.60 for each page and recipient.
unfoldable pub estimate_cost : ℕ → ℕ → ℕ
estimate_cost message_length recipients =
    (if leb message_length 160 then 1 else (message_length + 152) / 153) * recipients * 560

-- The log after a success, and then its broadcast.
abbrev pub mark_sms_sent : ℕ → ℕ → BroadcastLog → BroadcastLog
mark_sms_sent now count l = record l {
  status = MediumStatus.sent;
  sent_at = some now;
  recipient_count = count;
}

abbrev pub sent_logs : ℕ → List BroadcastLog → ℕ
sent_logs broadcast = count_of (λ l. is_log_of broadcast l && is_sent l.status)

-- The status that the task gives a broadcast without pending logs.
abbrev pub sms_resolved : ℕ → List BroadcastLog → BroadcastStatus
sms_resolved broadcast logs =
    resolve_broadcast_status (count_of (is_log_of broadcast) logs) (sent_logs broadcast logs)

abbrev pub resolve_after_sms : ℕ → ℕ → Comms → Comms
resolve_after_sms now broadcast s =
    if has_pending broadcast s.logs
    then s
    else save_broadcast broadcast
        (λ x. record x {
          status = sms_resolved broadcast s.logs;
          sent_at = if is_sent_status (sms_resolved broadcast s.logs) then some now else x.sent_at;
        })
        s

abbrev pub add_recipients : ℕ → Broadcast → Broadcast
add_recipients count b = record b { total_recipients = b.total_recipients + count }

unfoldable pub sms_success : ℕ → ℕ → Option BroadcastLog → Comms → Comms
sms_success now count none s = s
sms_success now count (some l) s = resolve_after_sms now l.broadcast (
    save_broadcast l.broadcast (add_recipients count) (update_log l.id (mark_sms_sent now count) s))

-- The handler of other exceptions, among them that of a retry too many.
abbrev pub sms_fatal : Option BroadcastLog → Comms → SmsOutcome × Comms
sms_fatal none s = (fatal, s)
sms_fatal (some l) s = (fatal, update_log l.id log_failed s)

-- `may_retry` tells whether Celery queues another run or raises MaxRetriesExceededError.
abbrev pub or_retry : Bool → Option BroadcastLog → Comms → SmsOutcome × Comms
or_retry true l s = (retry, s)
or_retry false l s = sms_fatal l s

abbrev pub sms_attempt : Bool → ℕ → ℕ → Kudi → ℕ → Option BroadcastLog → Comms → SmsOutcome × Comms
sms_attempt may_retry now message_length k count l s =
    if ltb k.balance (estimate_cost message_length count)
    then or_retry may_retry l s
    else elim k.answer [
      | SmsAnswer.success ↦ (finished, sms_success now count l s)
      | SmsAnswer.failure ↦ or_retry may_retry l s
      | SmsAnswer.exception ↦ sms_fatal l s
    ]

-- `send_bulk_sms_task`
unfoldable pub send_bulk_sms : Bool → ℕ → ℕ → Kudi → SmsJob → Comms → SmsOutcome × Comms
send_bulk_sms may_retry now message_length k job s = elim job.log [
  | none ↦ sms_attempt may_retry now message_length k (length job.recipients) none s
  | some id ↦ elim (first_where (λ l. l.id == id) s.logs) [
    | none ↦ (missing_log, s)
    | some l ↦ sms_attempt may_retry now message_length k (length job.recipients) (some l) s
  ]
]
