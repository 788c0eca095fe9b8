-- ===== src/Comms/Model.antt =====
-- The rows of comms/models.py that the services read and write, and the queues they fill. The texts
-- of messages and of log entries are not modelled. Identifiers are numbers, and so are times, in
-- microseconds, and the codes of roles.
use vmlc_backend.Prelude.{ℕ, Bool, true, false, Option, List}
use vmlc_backend.Prelude.Text.{Text}

-- `Broadcast.Medium`, and any other string.
pub data Medium : Type 0 where
  platform email whatsapp sms unknown : Medium

-- The keys of `target_roles`.
pub data RoleType : Type 0 where
  staff candidate : RoleType

abbrev pub is_staff : RoleType → Bool
is_staff RoleType.staff = true
is_staff RoleType.candidate = false

-- `Broadcast.Status`
pub data BroadcastStatus : Type 0 where
  failed_to_queue pending in_progress sent partial failed cancelled : BroadcastStatus

-- `status in [FAILED, PARTIAL]`
abbrev pub is_retry : BroadcastStatus → Bool
is_retry BroadcastStatus.failed = true
is_retry BroadcastStatus.partial = true
is_retry _ = false

-- `status in [PENDING, FAILED_TO_QUEUE]`
abbrev pub is_cancellable : BroadcastStatus → Bool
is_cancellable BroadcastStatus.pending = true
is_cancellable BroadcastStatus.failed_to_queue = true
is_cancellable _ = false

abbrev pub is_sent_status : BroadcastStatus → Bool
is_sent_status BroadcastStatus.sent = true
is_sent_status _ = false

pub record Broadcast : Type 0 where
  pub id : ℕ
  pub mediums : List Medium
  pub target_roles : List (RoleType × List ℕ)
  pub status : BroadcastStatus
  pub total_recipients : ℕ
  pub last_attempt : Option ℕ
  pub sent_at : Option ℕ
  pub retry_count : ℕ

-- `BroadcastLog.MediumStatus`
pub data MediumStatus : Type 0 where
  pending sent failed : MediumStatus

abbrev pub is_pending : MediumStatus → Bool
is_pending MediumStatus.pending = true
is_pending _ = false

abbrev pub is_sent : MediumStatus → Bool
is_sent MediumStatus.sent = true
is_sent _ = false

pub record BroadcastLog : Type 0 where
  pub id : ℕ
  pub broadcast : ℕ
  pub medium : Medium
  pub role_type : RoleType
  pub target_role : ℕ
  pub status : MediumStatus
  pub recipient_count : ℕ
  pub sent_at : Option ℕ

-- A staff member or a candidate with the columns of the user; an empty text stands for no value.
pub record Account : Type 0 where
  pub user : ℕ
  pub role_type : RoleType
  pub role : ℕ
  pub is_active : Bool
  pub email : Text
  pub phone : Text

-- The arguments of `send_bulk_sms_task`.
pub record SmsJob : Type 0 where
  pub recipients : List Text
  pub log : Option ℕ

-- The tables, the recipients of the mails and of the notifications, and the queued SMS tasks.
pub record Comms : Type 0 where
  pub accounts : List Account
  pub broadcasts : List Broadcast
  pub logs : List BroadcastLog
  pub next_log : ℕ
  pub mails : List (List Text)
  pub notifications : List ℕ
  pub sms_jobs : List SmsJob
