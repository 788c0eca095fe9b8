-- ===== src/Comms/Helpdesk/Steps.antt =====
-- The helpdesk as a system of steps: the views and the periodic tasks, in any order and at any times.
use vmlc_backend.Prelude.{
  ℕ, ◌<◌, ◌≡◌, refl, Bool, true, false, none, some, List, [], ◌∷◌, arith, if-cases, All,
  update_where, Option-cases, inl, inr,
}
use vmlc_backend.Comms.Helpdesk.{
  ThreadStatus, is_snoozed, HelpdeskThread, Desk, update_thread, refresh_status, view_thread,
  Action, act_on_thread,
}
use vmlc_backend.Comms.Helpdesk.Messages.{Poster, post_message}
use vmlc_backend.Comms.Helpdesk.Tasks.{auto_close, is_due, cleanup_snoozed}
use vmlc_backend.Comms.Helpdesk.Sound.{
  is_wakeable, IsSoundDesk, update-IsSound, view_thread-IsSound, act_on_thread-IsSound,
  post_message-IsSound, refresh_status-IsSound,
}

-- A request or a task, at any time.
pub data Step (s : Desk) : Desk → Type 0 where
  viewed : (now user owner : ℕ) → Step s (view_thread now user owner s)
  acted : (id : ℕ) (action : Action) → Step s (act_on_thread id action s).1
  posted : (now : ℕ) (p : Poster) (id : ℕ) (valid : Bool) → Step s (post_message now p id valid s).1
  refreshed : (now id : ℕ) → Step s (update_thread id (refresh_status now) s)
  closed_idle : (now : ℕ) → Step s (auto_close now s)
  cleaned : (now : ℕ) → Step s (cleanup_snoozed now s)

abbrev pub empty_desk : Desk
empty_desk = record {
  threads = [];
  messages = [];
  reads = [];
  next_thread = 1;
  next_message = 1;
  escalations = [];
}

pub data Reach : Desk → Type 0 where
  start : Reach empty_desk
  later : {s t : Desk} → Reach s → Step s t → Reach t

-- Every step keeps the threads sound.
pub Step-IsSound : {s t : Desk} → Step s t → IsSoundDesk s → IsSoundDesk t
unfolding auto_close cleanup_snoozed
Step-IsSound {s} (viewed now user owner) = view_thread-IsSound now user owner s
Step-IsSound {s} (acted id action) = act_on_thread-IsSound id action s
Step-IsSound {s} (posted now p id valid) = post_message-IsSound now p id valid s
Step-IsSound {s} (refreshed now id) = refresh_status-IsSound now id s
Step-IsSound {s} (closed_idle now) =
    update-IsSound _ _ s.threads s.next_thread (λ t. refl) (λ t. refl) (λ t h q. refl)
Step-IsSound {s} (cleaned now) =
    update-IsSound _ _ s.threads s.next_thread (λ t. refl) (λ t. refl) (λ t h q. refl)

-- Whatever requests and tasks have run, in whatever order and at whatever times: a candidate has at
-- most one thread, identifiers are unique, and a snoozed thread has a time at which it wakes.
pub Reach-IsSoundDesk : {s : Desk} → Reach s → IsSoundDesk s
Reach-IsSoundDesk start = record {
  wakeable = tt;
  fresh = tt;
  unique_ids = λ id. omega arith;
  unique_owners = λ owner. omega arith;
}
Reach-IsSoundDesk (later r st) = Step-IsSound st (Reach-IsSoundDesk r)

abbrev pub SleepsUntilAfter : ℕ → HelpdeskThread → Type 0
SleepsUntilAfter now t =
    is_snoozed t.status ≡ true → (until : ℕ) × (t.snoozed_until ≡ some until) × (now < until)

not_due :
    (now : ℕ) (t : HelpdeskThread)
    → is_wakeable t ≡ true
    → is_due now t ≡ false
    → SleepsUntilAfter now t
not_due now t h e k = elim (Option-cases t.snoozed_until) [
  | inl q ↦ absurd (ground arith)
  | inr (until, q) ↦ (until, q, ground arith)
]

is_due-cleaned :
    (now : ℕ) (ts : List HelpdeskThread)
    → All (λ t. is_wakeable t ≡ true) ts
    → All (SleepsUntilAfter now) (
        update_where
          (is_due now)
          (λ t. record t { status = ThreadStatus.open_thread; snoozed_until = none })
          ts)
is_due-cleaned now [] h = tt
is_due-cleaned now (t ∷ ts) h = (
  if-cases (SleepsUntilAfter now) (is_due now t) _ t (λ e k. absurd (cc))
      (λ e. not_due now t h.0 e),
  is_due-cleaned now ts h.1,
)

-- In every reachable state, once the clean-up task has run at some time, a thread is snoozed only
-- until a later time: all whose time has come are awake.
pub cleanup_snoozed-wakes :
    (now : ℕ) (s : Desk)
    → Reach s
    → All
        (λ t.
          is_snoozed t.status ≡ true → (until : ℕ) × (t.snoozed_until ≡ some until) × (now < until))
        (cleanup_snoozed now s).threads
unfolding cleanup_snoozed
cleanup_snoozed-wakes now s r = is_due-cleaned now s.threads (Reach-IsSoundDesk r).wakeable
