-- ===== src/Comms/Helpdesk/Sound.antt =====
-- What every request and task keeps of the threads.
use vmlc_backend.Prelude.{
  ℕ, ◌+◌, ◌≤◌, ◌<◌, ◌≡◌, refl, ap, ◌∙◌, ==_iff, subst, Bool, true, false, not, ◌&&◌, ◌||◌, Option,
  none, some, List, [], ◌∷◌, ◌++◌, arith, ◌==◌, if-cases, is_some, All, All-map, All-append, select,
  update_where, update_where-All, first_where, first_where-All, count_of, count_of-append,
  Bool-cases, Option-cases, List-cases, inl, inr, any_of-first_where,
}
use vmlc_backend.Prelude.Counts.{count_of-update-le, any_of-count}
use vmlc_backend.Comms.Helpdesk.{
  ThreadStatus, is_snoozed, is_open, HelpdeskThread, SenderType, Desk, Reply, is_thread,
  update_thread, refresh_status, save_message, new_thread, is_unread, set_status, view_thread,
  Action, close, snooze, act_on_thread,
}
use vmlc_backend.Comms.Helpdesk.Messages.{
  Poster, is_support, is_owner, is_snoozed_active, candidate_posted, staff_posted, save_thread,
  assign, post_as_candidate, post_as_staff, post_message,
}

-- A thread that is snoozed has a time at which it wakes.
abbrev pub is_wakeable : HelpdeskThread → Bool
is_wakeable t = not (is_snoozed t.status) || is_some t.snoozed_until

pub record IsSound (threads : List HelpdeskThread) (next_thread : ℕ) : Type 0 where
  pub wakeable : All (λ t. is_wakeable t ≡ true) threads
  pub fresh : All (λ t. t.id < next_thread) threads
  pub unique_ids : (id : ℕ) → count_of (is_thread id) threads ≤ 1
  pub unique_owners : (owner : ℕ) → count_of (λ t. t.candidate == owner) threads ≤ 1

abbrev pub IsSoundDesk : Desk → Type 0
IsSoundDesk s = IsSound s.threads s.next_thread

-- An update that keeps the identifier and the owner of a thread.
pub update-IsSound :
    (q : HelpdeskThread → Bool) (f : HelpdeskThread → HelpdeskThread) (ts : List HelpdeskThread)
    (n : ℕ)
    → ((t : HelpdeskThread) → (f t).id ≡ t.id)
    → ((t : HelpdeskThread) → (f t).candidate ≡ t.candidate)
    → ((t : HelpdeskThread) → is_wakeable t ≡ true → q t ≡ true → is_wakeable (f t) ≡ true)
    → IsSound ts n
    → IsSound (update_where q f ts) n
update-IsSound q f ts n same_id same_owner keep w = record {
  wakeable = update_where-All (λ t. is_wakeable t ≡ true) q f keep ts w.wakeable;
  fresh = update_where-All (λ t. t.id < n) q f (λ t h e. rw (same_id t) h) ts w.fresh;
  unique_ids = λ id. omega (
    arith,
    w.unique_ids id,
    count_of-update-le (is_thread id) (is_thread id) q f ts (λ t e h. ground (arith, same_id t))
        (λ t e h. h),
  );
  unique_owners = λ owner. omega (
    arith,
    w.unique_owners owner,
    count_of-update-le (λ t. t.candidate == owner) (λ t. t.candidate == owner) q f ts
        (λ t e h. ground (arith, same_owner t)) (λ t e h. h),
  );
}

not_yet :
    (id n : ℕ) (ts : List HelpdeskThread)
    → All (λ t. t.id < n) ts
    → n ≤ id
    → count_of (is_thread id) ts ≡ 0
not_yet id n [] h k = refl
not_yet id n (t ∷ ts) h k = ground (arith, not_yet id n ts)

-- A thread for a candidate who has none.
append-IsSound :
    (owner : ℕ) (ts : List HelpdeskThread) (n : ℕ)
    → first_where (λ t. t.candidate == owner) ts ≡ none
    → IsSound ts n
    → IsSound (ts ++ new_thread n owner ∷ []) (n + 1)
append-IsSound owner ts n none_yet w = record {
  wakeable = All-append (λ t. is_wakeable t ≡ true) ts _ w.wakeable (refl, tt);
  fresh =
      All-append (λ t. t.id < n + 1) ts _ (All-map (λ t h. omega arith) ts w.fresh)
        (omega arith, tt);
  unique_ids = λ id. ground (
    arith,
    count_of-append (is_thread id) ts (new_thread n owner ∷ []),
    w.unique_ids id,
    not_yet id n ts w.fresh,
  );
  unique_owners = λ c.
      let absent =
        any_of-count (λ t. t.candidate == owner) ts
          (any_of-first_where (λ t. t.candidate == owner) ts ∙ ap is_some none_yet) in
      elim (Bool-cases (owner == c)) [
        | inl e ↦
            let gone =
              subst (λ k. count_of (λ t. t.candidate == k) ts ≡ 0) ((==_iff owner c).0 e) absent in
            ground
              (arith, count_of-append (λ t. t.candidate == c) ts (new_thread n owner ∷ []), gone)
        | inr e ↦ ground (
          arith,
          count_of-append (λ t. t.candidate == c) ts (new_thread n owner ∷ []),
          w.unique_owners c,
        )
      ];
}

pub set_status-IsSound :
    (id : ℕ) (status : ThreadStatus) (ts : List HelpdeskThread) (n : ℕ)
    → is_snoozed status ≡ false
    → IsSound ts n
    → IsSound (update_where (is_thread id) (set_status status) ts) n
set_status-IsSound id status ts n e =
    update-IsSound (is_thread id) (set_status status) ts n (λ t. refl) (λ t. refl)
      (λ t h q. ground arith)

save_message-IsSound :
    (now thread : ℕ) (sender : Option ℕ) (kind : SenderType) (s : Desk)
    → IsSoundDesk s
    → IsSoundDesk (save_message now thread sender kind s)
unfolding save_message
save_message-IsSound now thread sender kind s =
    update-IsSound (is_thread thread) _ s.threads s.next_thread (λ t. refl) (λ t. refl) (λ t h q. h)

pub view_thread-IsSound :
    (now user owner : ℕ) (s : Desk) → IsSoundDesk s → IsSoundDesk (view_thread now user owner s)
unfolding view_thread
view_thread-IsSound now user owner s w =
    elim (Option-cases (first_where (λ t. t.candidate == owner) s.threads)) [
      | inl e ↦
          rw (view_thread, e)
            (save_message-IsSound now s.next_thread none SenderType.system
              (record s {
                threads = s.threads ++ new_thread s.next_thread owner ∷ [];
                next_thread = s.next_thread + 1;
              })
              (append-IsSound owner s.threads s.next_thread e w))
      | inr (t, e) ↦
          let moved =
            set_status-IsSound t.id ThreadStatus.in_progress s.threads s.next_thread refl w in
          elim (List-cases (select (is_unread t.id user s.reads) s.messages)) [
            | inl u ↦
                rw (view_thread, e)
                  (rw u (if-cases IsSoundDesk (is_open t.status) _ s (λ _. moved) (λ _. w)))
            | inr (m, ms, u) ↦ rw (view_thread, e) (rw u moved)
          ]
    ]

pub act_on_thread-IsSound :
    (id : ℕ) (action : Action) (s : Desk)
    → IsSoundDesk s
    → IsSoundDesk (act_on_thread id action s).1
unfolding act_on_thread
act_on_thread-IsSound id close s w = elim (Option-cases (first_where (is_thread id) s.threads)) [
  | inl e ↦ rw (act_on_thread, e) w
  | inr (t, e) ↦
      rw (act_on_thread, e)
        (update-IsSound (is_thread id) _ s.threads s.next_thread (λ x. refl) (λ x. refl)
          (λ x h q. refl) w)
]
act_on_thread-IsSound id (snooze none) s w =
    elim (Option-cases (first_where (is_thread id) s.threads)) [
      | inl e ↦ rw (act_on_thread, e) w
      | inr (t, e) ↦ rw (act_on_thread, e) w
    ]
act_on_thread-IsSound id (snooze (some until)) s w =
    elim (Option-cases (first_where (is_thread id) s.threads)) [
      | inl e ↦ rw (act_on_thread, e) w
      | inr (t, e) ↦
          rw (act_on_thread, e)
            (update-IsSound (is_thread id) _ s.threads s.next_thread (λ x. refl) (λ x. refl)
              (λ x h q. refl) w)
    ]

save_thread-IsSound :
    (t : HelpdeskThread) (s : Desk)
    → is_wakeable t ≡ true
    → IsSoundDesk s
    → IsSoundDesk (save_thread t s)
save_thread-IsSound t s h =
    update-IsSound (is_thread t.id) _ s.threads s.next_thread (λ x. refl) (λ x. refl) (λ x k q. h)

module _ (now user : ℕ) (t : HelpdeskThread) (s : Desk) (h : is_wakeable t ≡ true)
    (w : IsSoundDesk s) where
  post_as_candidate-IsSound : IsSoundDesk (post_as_candidate now user t s)
  post_as_candidate-IsSound =
      save_message-IsSound now t.id (some user) SenderType.candidate
        (save_thread (candidate_posted now t) s)
        (save_thread-IsSound (candidate_posted now t) s
          (if-cases (λ x. is_wakeable x ≡ true) (is_snoozed_active now t) t _ (λ _. h) (λ _. refl))
          w)

  post_as_staff-IsSound : IsSoundDesk (post_as_staff now user t s)
  post_as_staff-IsSound =
      let s' : Desk =
        save_message now t.id (some user) SenderType.staff (save_thread (staff_posted t) s) in
      let w' : IsSoundDesk s' =
        save_message-IsSound now t.id (some user) SenderType.staff (save_thread (staff_posted t) s)
          (save_thread-IsSound (staff_posted t) s refl w) in
      if-cases IsSoundDesk (is_some t.assigned_staff) s' _ (λ _. w')
        (λ _.
          update-IsSound (is_thread t.id) (assign user) s'.threads s'.next_thread (λ x. refl)
            (λ x. refl) (λ x k q. refl) w')

pub post_message-IsSound :
    (now : ℕ) (p : Poster) (id : ℕ) (valid : Bool) (s : Desk)
    → IsSoundDesk s
    → IsSoundDesk (post_message now p id valid s).1
unfolding post_message
post_message-IsSound now p id valid s w =
    elim (Option-cases (first_where (is_thread id) s.threads)) [
      | inl e ↦ rw (post_message, e) w
      | inr (t, e) ↦
          let h =
            first_where-All (λ x. is_wakeable x ≡ true) (is_thread id) s.threads w.wakeable e in
          rw (post_message, e)
            (if-cases (λ (x : Reply × Desk). IsSoundDesk x.1)
              (not (is_support p) && not (is_owner p t)) _ _ (λ _. w)
              (λ _.
                if-cases (λ (x : Reply × Desk). IsSoundDesk x.1) (not valid) _ _ (λ _. w)
                  (λ _.
                    if-cases IsSoundDesk (is_support p) _ _
                      (λ _. post_as_staff-IsSound now p.user t s h w)
                      (λ _. post_as_candidate-IsSound now p.user t s h w))))
    ]

pub refresh_status-IsSound :
    (now id : ℕ) (s : Desk) → IsSoundDesk s → IsSoundDesk (update_thread id (refresh_status now) s)
unfolding refresh_status
refresh_status-IsSound now id s =
    update-IsSound (is_thread id) (refresh_status now) s.threads s.next_thread (λ t. ground arith)
      (λ t. ground arith) (λ t h q. ground arith)
