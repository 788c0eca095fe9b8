-- ===== src/Comms/Helpdesk/Messages.antt =====
-- `HelpdeskThreadMessageView.post` of comms/views.py, with `assign_staff_automatically` for the staff
-- member who posts.
use vmlc_backend.Prelude.{
  ℕ, ◌+◌, Bool, false, not, ◌&&◌, Option, none, some, [], ◌∷◌, ◌++◌, ◌==◌, ltb, if◌then◌else◌,
  is_some, first_where,
}
use vmlc_backend.Identity.Roles.{Role, moderator, has_minimum_role}
use vmlc_backend.Comms.Helpdesk.{
  ThreadStatus, is_snoozed, HelpdeskThread, SenderType, Desk, Reply, ok, thread_not_found,
  permission_denied, invalid, is_thread, update_thread, save_message,
}

-- Who posts: the user, the role of their staff profile, and their candidate profile.
pub record Poster : Type 0 where
  pub user : ℕ
  pub staff_role : Option Role
  pub candidate_profile : Option ℕ

unfoldable pub is_support : Poster → Bool
is_support p = elim p.staff_role [ none ↦ false | some r ↦ has_minimum_role r moderator ]

abbrev pub is_owner : Poster → HelpdeskThread → Bool
is_owner p t = elim p.candidate_profile [ none ↦ false | some c ↦ t.candidate == c ]

abbrev pub is_snoozed_active : ℕ → HelpdeskThread → Bool
is_snoozed_active now t = elim t.snoozed_until [
  | none ↦ false
  | some until ↦ is_snoozed t.status && ltb now until
]

-- The thread after a candidate's message, and after a reply.
abbrev pub candidate_posted : ℕ → HelpdeskThread → HelpdeskThread
candidate_posted now t =
    if is_snoozed_active now t
    then t
    else record t { status = ThreadStatus.open_thread; snoozed_until = none }

abbrev pub staff_posted : HelpdeskThread → HelpdeskThread
staff_posted t = record t { status = ThreadStatus.in_progress }

-- `thread.save(update_fields=["status", "snoozed_until"])`
abbrev pub save_thread : HelpdeskThread → Desk → Desk
save_thread t =
    update_thread t.id (λ x. record x { status = t.status; snoozed_until = t.snoozed_until })

abbrev pub assign : ℕ → HelpdeskThread → HelpdeskThread
assign user t = record t { assigned_staff = some user; status = ThreadStatus.in_progress }

-- Two minutes, in microseconds.
abbrev pub escalation_delay : ℕ
escalation_delay = 120000000

abbrev pub post_as_candidate : ℕ → ℕ → HelpdeskThread → Desk → Desk
post_as_candidate now user t s =
    let s' =
      save_message now t.id (some user) SenderType.candidate
        (save_thread (candidate_posted now t) s) in
    record s' { escalations = s'.escalations ++ (s.next_message, now + escalation_delay) ∷ [] }

abbrev pub post_as_staff : ℕ → ℕ → HelpdeskThread → Desk → Desk
post_as_staff now user t s =
    let s' = save_message now t.id (some user) SenderType.staff (save_thread (staff_posted t) s) in
    if is_some t.assigned_staff then s' else update_thread t.id (assign user) s'

-- `valid` tells whether the serializer accepts the text.
unfoldable pub post_message : ℕ → Poster → ℕ → Bool → Desk → Reply × Desk
unfolding save_message
post_message now p id valid s = elim (first_where (is_thread id) s.threads) [
  | none ↦ (thread_not_found, s)
  | some t ↦
      if not (is_support p) && not (is_owner p t)
      then (permission_denied, s)
      else (if not valid then (invalid, s) else (
        ok,
        (if is_support p then post_as_staff now p.user t s else post_as_candidate now p.user t s),
      ))
]
