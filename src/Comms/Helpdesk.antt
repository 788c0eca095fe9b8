-- ===== src/Comms/Helpdesk.antt =====
-- The helpdesk: `HelpdeskThread` and `ThreadMessage` of comms/models.py, the views
-- `HelpdeskThreadView`, `StaffHelpdeskThreadActionView` and `HelpdeskThreadMessageView` of
-- comms/views.py, and the two periodic tasks of comms/tasks.py. Texts and caches are not modelled.
pub mod Messages
pub mod Tasks
pub mod Sound
pub mod Closing
pub mod Steps
mod Tests
use vmlc_backend.Prelude.{
  ℕ, ◌+◌, Bool, true, false, not, ◌&&◌, Option, none, some, List, [], ◌∷◌, ◌++◌, ◌==◌, ltb, leb,
  if◌then◌else◌, is_some, opt_eq, any_of, select, update_where, first_where,
}

-- `HelpdeskThread.Status`
pub data ThreadStatus : Type 0 where
  open_thread in_progress closed snoozed : ThreadStatus

abbrev pub is_open : ThreadStatus → Bool
is_open ThreadStatus.open_thread = true
is_open _ = false

abbrev pub is_in_progress : ThreadStatus → Bool
is_in_progress ThreadStatus.in_progress = true
is_in_progress _ = false

abbrev pub is_snoozed : ThreadStatus → Bool
is_snoozed ThreadStatus.snoozed = true
is_snoozed _ = false

pub record HelpdeskThread : Type 0 where
  pub id : ℕ
  pub candidate : ℕ
  pub assigned_staff : Option ℕ
  pub status : ThreadStatus
  pub snoozed_until : Option ℕ
  pub last_message_at : Option ℕ

-- `ThreadMessage.SenderType`
pub data SenderType : Type 0 where
  candidate staff system : SenderType

abbrev pub is_from_candidate : SenderType → Bool
is_from_candidate SenderType.candidate = true
is_from_candidate _ = false

pub record ThreadMessage : Type 0 where
  pub id : ℕ
  pub thread : ℕ
  pub sender : Option ℕ
  pub sender_type : SenderType
  pub created_at : ℕ

-- The tables, the reads as pairs of a message and a user, and the escalation checks in the queue:
-- a message and the time of its check.
pub record Desk : Type 0 where
  pub threads : List HelpdeskThread
  pub messages : List ThreadMessage
  pub reads : List (ℕ × ℕ)
  pub next_thread : ℕ
  pub next_message : ℕ
  pub escalations : List (ℕ × ℕ)

pub data Reply : Type 0 where
  ok : Reply
  thread_not_found permission_denied invalid : Reply

abbrev pub is_thread : ℕ → HelpdeskThread → Bool
is_thread id t = t.id == id

abbrev pub update_thread : ℕ → (HelpdeskThread → HelpdeskThread) → Desk → Desk
update_thread id f s = record s { threads = update_where (is_thread id) f s.threads }

-- `HelpdeskThread.refresh_status`
unfoldable pub refresh_status : ℕ → HelpdeskThread → HelpdeskThread
refresh_status now t = elim t.snoozed_until [
  | none ↦ t
  | some until ↦
      if is_snoozed t.status && ltb until now
      then record t { status = ThreadStatus.closed; snoozed_until = none }
      else t
]

-- `ThreadMessage.save` of a new message.
unfoldable pub save_message : ℕ → ℕ → Option ℕ → SenderType → Desk → Desk
save_message now thread sender sender_type s =
    update_thread thread (λ t. record t { last_message_at = some now })
      (record s {
        messages =
            s.messages
            ++ record {
              id = s.next_message;
              thread = thread;
              sender = sender;
              sender_type = sender_type;
              created_at = now;
            }
              ∷ [];
        next_message = s.next_message + 1;
      })

abbrev pub new_thread : ℕ → ℕ → HelpdeskThread
new_thread id owner = record {
  id = id;
  candidate = owner;
  assigned_staff = none;
  status = ThreadStatus.open_thread;
  snoozed_until = none;
  last_message_at = none;
}

-- `thread.messages.exclude(reads__user=user).exclude(sender=user)`
abbrev pub is_unread : ℕ → ℕ → List (ℕ × ℕ) → ThreadMessage → Bool
is_unread thread user reads m =
    m.thread == thread
    && not (any_of (λ r. r.0 == m.id && r.1 == user) reads)
    && not (opt_eq m.sender (some user))

abbrev pub mark_read : ℕ → List ThreadMessage → List (ℕ × ℕ)
mark_read user [] = []
mark_read user (m ∷ ms) = (m.id, user) ∷ mark_read user ms

abbrev pub set_status : ThreadStatus → HelpdeskThread → HelpdeskThread
set_status status t = record t { status = status }

-- `HelpdeskThreadView.get` of a candidate.
unfoldable pub view_thread : ℕ → ℕ → ℕ → Desk → Desk
unfolding save_message
view_thread now user owner s = elim (first_where (λ t. t.candidate == owner) s.threads) [
  | none ↦ save_message now s.next_thread none SenderType.system (record s {
    threads = s.threads ++ new_thread s.next_thread owner ∷ [];
    next_thread = s.next_thread + 1;
  })
  | some t ↦ elim (select (is_unread t.id user s.reads) s.messages) [
    | [] ↦
        if is_open t.status then update_thread t.id (set_status ThreadStatus.in_progress) s else s
    | m ∷ ms ↦
        update_thread t.id (set_status ThreadStatus.in_progress)
          (record s { reads = s.reads ++ mark_read user (m ∷ ms) })
  ]
]

-- `StaffHelpdeskThreadActionView.patch` with its serializer: a thread is closed, or snoozed until a
-- time that must be given.
pub data Action : Type 0 where
  close : Action
  snooze : Option ℕ → Action

unfoldable pub act_on_thread : ℕ → Action → Desk → Reply × Desk
act_on_thread id action s = elim (first_where (is_thread id) s.threads) [
  | none ↦ (thread_not_found, s)
  | some t ↦ elim action [
    | close ↦ (
      ok,
      update_thread id (λ x. record x { status = ThreadStatus.closed; snoozed_until = none }) s,
    )
    | snooze none ↦ (invalid, s)
    | snooze (some until) ↦ (
      ok,
      update_thread id (λ x. record x { status = ThreadStatus.snoozed; snoozed_until = some until })
          s,
    )
  ]
]
