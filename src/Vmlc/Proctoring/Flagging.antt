-- ===== src/Vmlc/Proctoring/Flagging.antt =====
-- What heartbeats and the task that reads their events do to the status of an access.
use vmlc_backend.Prelude.{
  ℕ, ◌<◌, ◌≡◌, refl, true, false, some, List, arith, ◌==◌, ==_refl, ==_iff, All-append,
  update_where, first_where, first_where-update, first_where-updated, first_where-true,
  first_where-All, update_where-All, first_where-others, Bool-cases, if◌then◌else◌, Option-cases,
  inl, inr, ◌∙◌, sym, subst,
}
use vmlc_backend.Competition.Model.{ProctoringStatus}
use vmlc_backend.Vmlc.Model.{ExamAccess}
use vmlc_backend.Vmlc.Proctoring.{
  calculate_suspicion_score, EventType, Telemetry, Maths, determine_status, duration_normalized,
}
use vmlc_backend.Vmlc.Proctoring.Service.{
  is_access, is_heartbeat, is_critical_of, events_of, average_suspicion, auto_status,
  set_proctoring, store_events, judge, process_events_and_score,
}
use vmlc_backend.Vmlc.Proctoring.Critical.{
  has_critical, IsFlagging, with_score, has_critical-apart, events_of-older, count_of-any,
}

pub judge-accesses :
    (m : Maths) (now : ℕ) (a : ExamAccess) (s : Telemetry)
    → (judge m now a s).accesses ≡ (
        if a.is_manually_reviewed
        then s.accesses
        else update_where (is_access a.id) (set_proctoring (auto_status m now a s)) s.accesses)
unfolding judge
judge-accesses m now a s = elim (Bool-cases a.is_manually_reviewed) [
  | inl e ↦ rw (judge, e) refl
  | inr e ↦ rw (judge, e) refl
]

judge-frame :
    (m : Maths) (now : ℕ) (a : ExamAccess) (s : Telemetry)
    → ((judge m now a s).heartbeats ≡ s.heartbeats)
      × ((judge m now a s).events ≡ s.events)
      × ((judge m now a s).next_heartbeat ≡ s.next_heartbeat)
unfolding judge
judge-frame m now a s = elim (Bool-cases a.is_manually_reviewed) [
  | inl e ↦ rw (judge, e) (refl, refl, refl)
  | inr e ↦ rw (judge, e) (refl, refl, refl)
]

pub other_row :
    (id : ℕ) (a : ExamAccess) (f : ExamAccess → ExamAccess) (as' : List ExamAccess)
    → ((x : ExamAccess) → (f x).id ≡ x.id)
    → (a.id == id) ≡ false
    → first_where (is_access id) (update_where (is_access a.id) f as')
      ≡ first_where (is_access id) as'
other_row id a f as' same apart =
    first_where-others (is_access id) (is_access a.id) f as' (λ x. rw (same x) refl)
      (λ x h. ground (arith, apart, ==_iff x.id id, ==_iff x.id a.id, ==_iff a.id id))

pub own_row :
    (a : ExamAccess) (f : ExamAccess → ExamAccess) (as' : List ExamAccess)
    → ((x : ExamAccess) → (f x).id ≡ x.id)
    → first_where (is_access a.id) as' ≡ some a
    → first_where (is_access a.id) (update_where (is_access a.id) f as') ≡ some (f a)
own_row a f as' same here =
    first_where-updated (is_access a.id) (is_access a.id) f as' a (λ x. rw (same x) refl) here
    ∙ rw (==_refl a.id) refl

auto_status-flagged :
    (m : Maths) (now : ℕ) (a : ExamAccess) (s : Telemetry)
    → has_critical a.id s ≡ true
    → auto_status m now a s ≡ ProctoringStatus.flagged
unfolding auto_status determine_status
auto_status-flagged m now a s c =
    rw (count_of-any (is_critical_of a.id s.heartbeats) s.events c) refl

judge-flags :
    (m : Maths) (now id : ℕ) (a x : ExamAccess) (s : Telemetry)
    → first_where (is_access a.id) s.accesses ≡ some a
    → a.id ≡ id
    → first_where (is_access id) (judge m now a s).accesses ≡ some x
    → x.is_manually_reviewed ≡ false
    → has_critical id s ≡ true
    → x.proctoring_status ≡ some ProctoringStatus.flagged
judge-flags m now id a x s here same found by c =
    let row : first_where (is_access a.id) (judge m now a s).accesses ≡ some x =
      subst (λ i. first_where (is_access i) (judge m now a s).accesses ≡ some x) (sym same) found in
    let status =
      auto_status-flagged m now a s (subst (λ i. has_critical i s ≡ true) (sym same) c) in
    let own = own_row a (set_proctoring (auto_status m now a s)) s.accesses (λ y. refl) here in
    elim (Bool-cases a.is_manually_reviewed) [
      | inl r ↦
          let k : first_where (is_access a.id) s.accesses ≡ some x =
            rw (judge-accesses m now a s, r) at row in
          absurd (ground (arith, here, k, r, by))
      | inr r ↦
          let k = rw (judge-accesses m now a s, r) at row in
          let q : x ≡ set_proctoring (auto_status m now a s) a = ground (arith, own, k) in
          rw q (rw status refl)
    ]

judge-others :
    (m : Maths) (now id : ℕ) (a x : ExamAccess) (s : Telemetry)
    → (a.id == id) ≡ false
    → first_where (is_access id) (judge m now a s).accesses ≡ some x
    → first_where (is_access id) s.accesses ≡ some x
unfolding auto_status average_suspicion duration_normalized
judge-others m now id a x s apart found = elim (Bool-cases a.is_manually_reviewed) [
  | inl r ↦ rw (judge-accesses m now a s, r) at found
  | inr r ↦
      sym (other_row id a (set_proctoring (auto_status m now a s)) s.accesses (λ y. refl) apart)
      ∙ (rw (judge-accesses m now a s, r) at found)
]

pub process_events_and_score-IsFlagging :
    (m : Maths) (now heartbeat : ℕ) (events : List (EventType × ℕ)) (s : Telemetry)
    → IsFlagging s
    → IsFlagging (process_events_and_score m now heartbeat events s)
unfolding process_events_and_score
process_events_and_score-IsFlagging m now heartbeat events s w =
    elim (Option-cases (first_where (is_heartbeat heartbeat) s.heartbeats)) [
      | inl k ↦ rw (process_events_and_score, k) w
      | inr (h, k) ↦ elim (Option-cases (first_where (is_access h.exam_access) s.accesses)) [
        | inl q ↦ rw (process_events_and_score, k, q) w
        | inr (a, q) ↦
            let named : h.id ≡ heartbeat =
              (==_iff h.id heartbeat).0
                (first_where-true (is_heartbeat heartbeat) s.heartbeats k) in
            let mine : a.id ≡ h.exam_access =
              (==_iff a.id h.exam_access).0
                (first_where-true (is_access h.exam_access) s.accesses q) in
            let found =
              subst (λ i. first_where (is_heartbeat i) s.heartbeats ≡ some h) (sym named) k in
            let here = subst (λ i. first_where (is_access i) s.accesses ≡ some a) (sym mine) q in
            let old : h.id < s.next_heartbeat =
              first_where-All (λ x. x.id < s.next_heartbeat) (is_heartbeat heartbeat) s.heartbeats
                w.fresh k in
            let mid = store_events m h events s in
            let (hb, ev, nx) = judge-frame m now a mid in
            rw (process_events_and_score, k, q)
              (record {
                fresh =
                    rw (hb, nx)
                      (update_where-All (λ x. x.id < s.next_heartbeat) (is_heartbeat h.id)
                        (with_score (calculate_suspicion_score m h.summary)) (λ x b e. b)
                        s.heartbeats w.fresh);
                dated =
                    rw (ev, nx)
                      (All-append (λ e. e.heartbeat < s.next_heartbeat) s.events
                        (events_of h.id events) w.dated
                        (events_of-older h.id s.next_heartbeat events old));
                flags = λ id x row by c.
                    let c' : has_critical id mid ≡ true = rw (hb, ev) at c in
                    elim (Bool-cases (a.id == id)) [
                      | inl e ↦ judge-flags m now id a x mid here ((==_iff a.id id).0 e) row by c'
                      | inr e ↦
                          w.flags id x (judge-others m now id a x mid e row) by
                            (has_critical-apart m id h events s found (rw mine at e) c')
                    ];
              })
      ]
    ]

-- The row that is found after an update of it was found before.
pub updated_row :
    (id : ℕ) (f : ExamAccess → ExamAccess) (as' : List ExamAccess) (x : ExamAccess)
    → ((y : ExamAccess) → (f y).id ≡ y.id)
    → first_where (is_access id) (update_where (is_access id) f as') ≡ some x
    → (y : ExamAccess) × (x ≡ f y)
updated_row id f as' x same found =
    let q = first_where-update (is_access id) f as' (λ y. rw (same y) refl) in
    elim (Option-cases (first_where (is_access id) as')) [
      | inl k ↦ absurd (ground (arith, q, k, found))
      | inr (y, k) ↦ (y, ground (arith, q, k, found))
    ]
