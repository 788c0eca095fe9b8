-- ===== src/Comms/Helpdesk/Closing.antt =====
-- What the task that closes idle threads leaves alone.
use vmlc_backend.Prelude.{
  ℕ, ◌≤◌, ◌≡◌, refl, sym, ◌∙◌, subst, Bool, true, false, some, List, [], ◌∷◌, ◌++◌, arith, ◌==◌,
  ==_refl, ==_iff, first_where-true, All, if-cases, select, first_where, first_where-kept,
  Option-cases, List-cases, inl, inr,
}
use vmlc_backend.Comms.Helpdesk.{
  HelpdeskThread, SenderType, is_from_candidate, ThreadMessage, Desk, ok, is_thread, is_open,
  is_unread, save_message, view_thread,
}
use vmlc_backend.Comms.Helpdesk.Messages.{Poster, is_support, post_message}
use vmlc_backend.Comms.Helpdesk.Tasks.{
  latest_message, messages_of, waits_for_staff, is_to_close, auto_close,
}

waits_if_latest :
    (t : HelpdeskThread) (messages : List ThreadMessage) (m : ThreadMessage)
    → latest_message (messages_of t.id messages) ≡ some m
    → is_from_candidate m.sender_type ≡ true
    → waits_for_staff t messages ≡ true
waits_if_latest t messages m h e = ground arith

-- A message that is not older than the others is the latest.
latest_message-last :
    (p : ThreadMessage → Bool) (m : ThreadMessage) (ms : List ThreadMessage)
    → All (λ k. k.created_at ≤ m.created_at) ms
    → p m ≡ true
    → latest_message (select p (ms ++ m ∷ [])) ≡ some m
latest_message-last p m [] h e = ground arith
latest_message-last p m (k ∷ ms) h e = ground (arith, latest_message-last p m ms h.1 e)

-- The task leaves a thread as it is if the latest message in it is the candidate's.
pub auto_close-waiting :
    (now id : ℕ) (s : Desk) (t : HelpdeskThread)
    → first_where (is_thread id) s.threads ≡ some t
    → waits_for_staff t s.messages ≡ true
    → first_where (is_thread id) (auto_close now s).threads ≡ some t
unfolding auto_close
auto_close-waiting now id s t h e =
    first_where-kept (is_thread id) (is_to_close now s.messages) _ s.threads t (λ x. refl) h
      (ground arith)

abbrev candidate_message : ℕ → ℕ → Poster → Desk → ThreadMessage
candidate_message now id p s = record {
  id = s.next_message;
  thread = id;
  sender = some p.user;
  sender_type = SenderType.candidate;
  created_at = now;
}

-- A message that a candidate posted is stored, with its sender and time.
posted_message :
    (now id : ℕ) (p : Poster) (valid : Bool) (s s' : Desk)
    → post_message now p id valid s ≡ (ok, s')
    → is_support p ≡ false
    → s'.messages ≡ s.messages ++ candidate_message now id p s ∷ []
unfolding post_message save_message
posted_message now id p valid s s' h e =
    elim (Option-cases (first_where (is_thread id) s.threads)) [
      | inl q ↦ absurd (ground arith)
      | inr (t, q) ↦
          let same = (==_iff t.id id).0 (first_where-true (is_thread id) s.threads q) in
          ground arith
    ]

-- A candidate who has a thread adds no message by viewing it.
viewed_messages :
    (later user owner : ℕ) (s : Desk) (t : HelpdeskThread)
    → first_where (λ x. x.candidate == owner) s.threads ≡ some t
    → (view_thread later user owner s).messages ≡ s.messages
unfolding view_thread
viewed_messages later user owner s t h =
    elim (List-cases (select (is_unread t.id user s.reads) s.messages)) [
      | inl u ↦
          rw (view_thread, h)
            (rw u (
              if-cases (λ (x : Desk). x.messages ≡ s.messages) (is_open t.status) _ s (λ _. refl)
                (λ _. refl)))
      | inr (m, ms, u) ↦ rw (view_thread, h) (rw u refl)
    ]

-- After a candidate's message, posted no earlier than the others, and a view of the thread by the
-- candidate, which may set it IN_PROGRESS, the task that closes idle threads leaves it as it is,
-- however late it runs.
pub post-view-auto_close :
    (now later at id user owner : ℕ) (p : Poster) (valid : Bool) (s s' : Desk)
    (t t' : HelpdeskThread)
    → All (λ k. k.created_at ≤ now) s.messages
    → post_message now p id valid s ≡ (ok, s')
    → is_support p ≡ false
    → first_where (λ x. x.candidate == owner) s'.threads ≡ some t
    → first_where (is_thread id) (view_thread later user owner s').threads ≡ some t'
    → first_where (is_thread id) (auto_close at (view_thread later user owner s')).threads ≡ some t'
post-view-auto_close now later at id user owner p valid s s' t t' old h e own there =
    let posted = posted_message now id p valid s s' h e in
    let same : t'.id ≡ id =
      (==_iff t'.id id).0
        (first_where-true (is_thread id) (view_thread later user owner s').threads there) in
    let messages : (view_thread later user owner s').messages
        ≡ s.messages ++ candidate_message now id p s ∷ [] =
      viewed_messages later user owner s' t own ∙ posted in
    let last =
      latest_message-last (λ m. m.thread == id) (candidate_message now id p s) s.messages old
        (==_refl id) in
    auto_close-waiting at id (view_thread later user owner s') t' there (
      rw messages (
        waits_if_latest t' _ (candidate_message now id p s)
          (subst
            (λ k.
              latest_message (messages_of k (s.messages ++ candidate_message now id p s ∷ []))
              ≡ some (candidate_message now id p s))
            (sym same) last)
          refl))
