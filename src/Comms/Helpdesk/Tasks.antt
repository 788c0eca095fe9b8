-- ===== src/Comms/Helpdesk/Tasks.antt =====
-- The periodic tasks `auto_close_in_progress_threads_task` and `cleanup_snoozed_helpdesk_threads_task`
-- of comms/tasks.py.
use vmlc_backend.Prelude.{
  ℕ, ◌+◌, Bool, false, not, ◌&&◌, Option, none, some, List, [], ◌∷◌, ◌==◌, ltb, leb, if◌then◌else◌,
  update_where, select,
}
use vmlc_backend.Comms.Helpdesk.{
  ThreadStatus, is_in_progress, is_snoozed, HelpdeskThread, is_from_candidate, ThreadMessage, Desk,
}

-- The message with the latest `created_at`; of several, the one stored last.
abbrev pub latest_message : List ThreadMessage → Option ThreadMessage
latest_message [] = none
latest_message (m ∷ ms) = elim (latest_message ms) [
  | none ↦ some m
  | some k ↦ if ltb k.created_at m.created_at then some m else some k
]

abbrev pub messages_of : ℕ → List ThreadMessage → List ThreadMessage
messages_of thread = select (λ m. m.thread == thread)

abbrev pub waits_for_staff : HelpdeskThread → List ThreadMessage → Bool
waits_for_staff t messages = elim (latest_message (messages_of t.id messages)) [
  | none ↦ false
  | some m ↦ is_from_candidate m.sender_type
]

-- Ten minutes, in microseconds.
abbrev pub idle_time : ℕ
idle_time = 600000000

-- `last_message_at__lte=ten_minutes_ago`
abbrev pub is_idle : ℕ → HelpdeskThread → Bool
is_idle now t = elim t.last_message_at [ none ↦ false | some at ↦ leb (at + idle_time) now ]

abbrev pub is_to_close : ℕ → List ThreadMessage → HelpdeskThread → Bool
is_to_close now messages t =
    is_in_progress t.status && is_idle now t && not (waits_for_staff t messages)

unfoldable pub auto_close : ℕ → Desk → Desk
auto_close now s = record s {
  threads =
      update_where (is_to_close now s.messages)
        (λ t. record t { status = ThreadStatus.closed; snoozed_until = none }) s.threads;
}

-- `status=SNOOZED, snoozed_until__lte=now`
abbrev pub is_due : ℕ → HelpdeskThread → Bool
is_due now t = elim t.snoozed_until [
  | none ↦ false
  | some until ↦ is_snoozed t.status && leb until now
]

unfoldable pub cleanup_snoozed : ℕ → Desk → Desk
cleanup_snoozed now s = record s {
  threads =
      update_where (is_due now)
        (λ t. record t { status = ThreadStatus.open_thread; snoozed_until = none }) s.threads;
}
