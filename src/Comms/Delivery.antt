-- ===== src/Comms/Delivery.antt =====
-- The loop of `NotificationService.send_broadcast` of comms/services/notification.py: one turn for
-- each medium and target role.
pub mod Turn
pub mod All
use vmlc_backend.Prelude.{
  ℕ, ◌+◌, Bool, true, false, not, ◌&&◌, none, some, List, [], ◌∷◌, ◌++◌, map, ◌==◌, if◌then◌else◌,
  select, update_where, length,
}
use vmlc_backend.Prelude.Text.{Text}
use vmlc_backend.Comms.Model.{
  Medium, RoleType, is_staff, MediumStatus, BroadcastLog, Account, Comms,
}
use vmlc_backend.Comms.Phone.{normalize_phone, is_placeholder_phone}

-- What the outside does for the log of an identifier: whether the queue takes a task, whether the
-- database stores the notifications, and, for all, whether `SMS_PROVIDER` is "kudi".
pub record Outside : Type 0 where
  pub queue_accepts : ℕ → Bool
  pub database_saves : ℕ → Bool
  pub uses_kudi : Bool

abbrev pub is_filled : Text → Bool
is_filled [] = false
is_filled (c ∷ s) = true

-- One turn of the three nested loops.
pub record Delivery : Type 0 where
  pub medium : Medium
  pub role_type : RoleType
  pub role : ℕ

abbrev pub role_deliveries : Medium → RoleType → List ℕ → List Delivery
role_deliveries m t [] = []
role_deliveries m t (r ∷ rs) =
    record { medium = m; role_type = t; role = r } ∷ role_deliveries m t rs

abbrev pub target_deliveries : Medium → List (RoleType × List ℕ) → List Delivery
target_deliveries m [] = []
target_deliveries m ((t, rs) ∷ targets) = role_deliveries m t rs ++ target_deliveries m targets

unfoldable pub deliveries : List Medium → List (RoleType × List ℕ) → List Delivery
deliveries [] targets = []
deliveries (m ∷ ms) targets = target_deliveries m targets ++ deliveries ms targets

-- `_resolve_recipients`, for one key.
abbrev pub is_recipient : RoleType → ℕ → Account → Bool
is_recipient t role a =
    (if is_staff t then is_staff a.role_type else not (is_staff a.role_type))
    && a.role == role
    && a.is_active

-- How a delivery ended: without an exception, with one that the loop catches, or with another.
pub data Ending : Type 0 where
  done caught raised : Ending

-- `_send_email_broadcast`
abbrev pub send_email : Outside → ℕ → List Account → Comms → Ending × Comms
send_email o log recipients s =
    let emails = select is_filled (map (λ a. a.email) recipients) in
    elim emails [
      | [] ↦ (caught, s)
      | e ∷ es ↦
          if o.queue_accepts log
          then (done, record s { mails = s.mails ++ (e ∷ es) ∷ [] })
          else (raised, s)
    ]

-- `_send_platform_broadcast`, with the task that the signal queues.
abbrev pub send_platform : Outside → ℕ → List Account → Comms → Ending × Comms
send_platform o log recipients s =
    if o.database_saves log
    then (
      (if o.queue_accepts log then done else raised),
      record s { notifications = s.notifications ++ map (λ a. a.user) recipients },
    )
    else (caught, s)

-- `valid_phones`
abbrev pub valid_phones : List Account → List Text
valid_phones recipients = map normalize_phone (
    select (λ p. not (is_placeholder_phone (normalize_phone p)))
      (select is_filled (map (λ a. a.phone) recipients)))

-- `_send_sms_broadcast` with `send_bulk_phone_msg`; a provider other than Kudi answers each message
-- with a failure that nobody reads.
abbrev pub send_sms : Outside → ℕ → List Account → Comms → Ending × Comms
send_sms o log recipients s = elim (valid_phones recipients) [
  | [] ↦ (caught, s)
  | p ∷ ps ↦
      if not o.uses_kudi
      then (done, s)
      else (if o.queue_accepts log
          then (
            done,
            record s {
              sms_jobs = s.sms_jobs ++ record { recipients = p ∷ ps; log = some log } ∷ [];
            },
          )
          else (caught, s))
]

unfoldable pub send_by : Outside → Medium → ℕ → List Account → Comms → Ending × Comms
send_by o m log [] s = (caught, s)
send_by o Medium.email log (a ∷ rest) s = send_email o log (a ∷ rest) s
send_by o Medium.platform log (a ∷ rest) s = send_platform o log (a ∷ rest) s
send_by o Medium.sms log (a ∷ rest) s = send_sms o log (a ∷ rest) s
send_by o Medium.whatsapp log (a ∷ rest) s = (done, s)
send_by o Medium.unknown log (a ∷ rest) s = (caught, s)

-- `medium in [EMAIL, PLATFORM]`
abbrev pub is_synchronous : Medium → Bool
is_synchronous Medium.email = true
is_synchronous Medium.platform = true
is_synchronous _ = false

abbrev pub new_log : ℕ → ℕ → Delivery → ℕ → BroadcastLog
new_log id broadcast d count = record {
  id = id;
  broadcast = broadcast;
  medium = d.medium;
  role_type = d.role_type;
  target_role = d.role;
  status = MediumStatus.pending;
  recipient_count = count;
  sent_at = none;
}

abbrev pub log_sent : ℕ → BroadcastLog → BroadcastLog
log_sent now l = record l { status = MediumStatus.sent; sent_at = some now }

abbrev pub log_failed : BroadcastLog → BroadcastLog
log_failed l = record l { status = MediumStatus.failed }

abbrev pub update_log : ℕ → (BroadcastLog → BroadcastLog) → Comms → Comms
update_log id f s = record s { logs = update_where (λ l. l.id == id) f s.logs }

-- The counters of the loop, and the state.
pub record Run : Type 0 where
  pub total_attempts : ℕ
  pub successful_attempts : ℕ
  pub total_recipients_reached : ℕ
  pub state : Comms

-- The end of a turn, whose log has the given identifier.
abbrev pub settle : ℕ → ℕ → Delivery → ℕ → Ending × Comms → Run → Bool × Run
settle now log d count (raised, s) r = (true, record r { state = s })
settle now log d count (caught, s) r = (false, record r { state = update_log log log_failed s })
settle now log d count (done, s) r =
    if is_synchronous d.medium
    then (
      false,
      record r {
        successful_attempts = r.successful_attempts + 1;
        total_recipients_reached = r.total_recipients_reached + count;
        state = update_log log (log_sent now) s;
      },
    )
    else (false, record r { state = s })

abbrev pub recipients_of : Delivery → List Account → List Account
recipients_of d = select (is_recipient d.role_type d.role)

-- The log that a turn creates.
abbrev pub with_log : ℕ → Delivery → Comms → Comms
with_log broadcast d s = record s {
  logs = s.logs ++ new_log s.next_log broadcast d (length (recipients_of d s.accounts)) ∷ [];
  next_log = s.next_log + 1;
}

-- One turn; true if an exception ends the loop.
unfoldable pub deliver : Outside → ℕ → ℕ → Delivery → Run → Bool × Run
deliver o now broadcast d r =
    let recipients = recipients_of d r.state.accounts in
    let log = r.state.next_log in
    settle now log d (length recipients)
      (send_by o d.medium log recipients (with_log broadcast d r.state))
      (record r { total_attempts = r.total_attempts + 1 })

unfoldable pub deliver_all : Outside → ℕ → ℕ → List Delivery → Run → Bool × Run
deliver_all o now broadcast [] r = (false, r)
deliver_all o now broadcast (d ∷ ds) r =
    let (stop, r') = deliver o now broadcast d r in
    elim stop [ true ↦ (true, r') | false ↦ deliver_all o now broadcast ds r' ]
