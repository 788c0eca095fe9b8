-- ===== src/Comms/Broadcast/Sms.antt =====
-- The task that sends the SMS of a log: that it ends, and what it makes of the broadcast.
use vmlc_backend.Prelude.{
  ℕ, count_of, ◌&&◌, zero, suc, not, ◌==◌, ltb, subst, ◌+◌, ◌≡◌, ◌≢◌, refl, ◌∙◌, ◌⊎◌, Bool, true,
  false, Option, none, some, List, arith, ==_iff, if◌then◌else◌, if-cases, length, Bool-cases, inl,
  inr, first_where, first_where-true, first_where-update,
}
use vmlc_backend.Comms.Model.{
  is_sent_status, is_sent, is_pending, Broadcast, BroadcastLog, SmsJob, Comms,
}
use vmlc_backend.Comms.Broadcast.Resolution.{
  is_waiting, IsResolved, IsDated, resolve-IsResolved, sent_at-IsDated,
}
use vmlc_backend.Comms.Delivery.{update_log, log_failed}
use vmlc_backend.Comms.Broadcast.{
  is_broadcast, save_broadcast, SmsAnswer, Kudi, SmsOutcome, finished, fatal, retry, estimate_cost,
  mark_sms_sent, sms_resolved, resolve_after_sms, add_recipients, has_pending, sms_success,
  sms_attempt, send_bulk_sms,
}

abbrev pub is_again : SmsOutcome → Bool
is_again retry = true
is_again _ = false

-- The runs that Celery starts for one queued task, of which the first is number `retries`: a run
-- that asks for a retry is followed by another. None: the fuel was too small.
unfoldable pub sms_runs :
    (ℕ → Bool) → (ℕ → ℕ) → (ℕ → Kudi) → ℕ → SmsJob → ℕ → ℕ → Comms → Option (SmsOutcome × Comms)
sms_runs may_retry clock replies len job retries zero s = none
sms_runs may_retry clock replies len job retries (suc fuel) s =
    let (out, s') = send_bulk_sms (may_retry retries) (clock retries) len (replies retries) job s in
    let rest = sms_runs may_retry clock replies len job (suc retries) fuel s' in
    if is_again out then rest else some (out, s')

answer-cases :
    (a : SmsAnswer)
    → (a ≡ SmsAnswer.success) ⊎ ((a ≡ SmsAnswer.exception) ⊎ (a ≡ SmsAnswer.failure))
answer-cases SmsAnswer.success = inl refl
answer-cases SmsAnswer.exception = inr (inl refl)
answer-cases SmsAnswer.failure = inr (inr refl)

-- Whether the log is in the table and its delivery is decided.
abbrev pub is_settled : ℕ → Comms → Bool
is_settled id s = elim (first_where (λ l. l.id == id) s.logs) [
  | none ↦ false
  | some l ↦ not (is_pending l.status)
]

module _ (len : ℕ) (job : SmsJob) (id : ℕ) (named : job.log ≡ some id) where
  -- The end of a run whose log is in the table.
  data Step (may_retry : Bool) (now : ℕ) (k : Kudi) (s : Comms) : Type 0 where
    again :
        may_retry ≡ true
        → send_bulk_sms may_retry now len k job s ≡ (retry, s)
        → Step may_retry now k s
    stops :
        (out : SmsOutcome) (s' : Comms)
        → is_again out ≡ false
        → send_bulk_sms may_retry now len k job s ≡ (out, s')
        → is_settled id s' ≡ true
        → Step may_retry now k s

  settle_log :
      (f : BroadcastLog → BroadcastLog) (s : Comms) (l : BroadcastLog)
      → first_where (λ x. x.id == id) s.logs ≡ some l
      → ((x : BroadcastLog) → (f x).id ≡ x.id)
      → is_pending (f l).status ≡ false
      → is_settled id (update_log l.id f s) ≡ true
  settle_log f s l h same q =
      let e : l.id ≡ id = (==_iff l.id id).0 (first_where-true (λ x. x.id == id) s.logs h) in
      let u = first_where-update (λ x. x.id == id) f s.logs (λ x. rw (same x) refl) in
      ground (arith, u, h, q, e)

  attempt_of :
      (may_retry : Bool) (now : ℕ) (k : Kudi) (s : Comms) (l : BroadcastLog)
      → first_where (λ x. x.id == id) s.logs ≡ some l
      → send_bulk_sms may_retry now len k job s
        ≡ sms_attempt may_retry now len k (length job.recipients) (some l) s
  unfolding send_bulk_sms
  attempt_of may_retry now k s l h = rw (send_bulk_sms, named) (rw h refl)

  fatal-settled :
      (s : Comms) (l : BroadcastLog)
      → first_where (λ x. x.id == id) s.logs ≡ some l
      → is_settled id (update_log l.id log_failed s) ≡ true
  fatal-settled s l h = settle_log log_failed s l h (λ x. refl) refl

  success-settled :
      (now count : ℕ) (s : Comms) (l : BroadcastLog)
      → first_where (λ x. x.id == id) s.logs ≡ some l
      → is_settled id (sms_success now count (some l) s) ≡ true
  unfolding sms_success
  success-settled now count s l h =
      let q = settle_log (mark_sms_sent now count) s l h (λ x. refl) refl in
      if-cases (λ x. is_settled id x ≡ true) _ _ _ (λ _. q) (λ _. q)

  step :
      (may_retry : Bool) (now : ℕ) (k : Kudi) (s : Comms) (l : BroadcastLog)
      → first_where (λ x. x.id == id) s.logs ≡ some l
      → Step may_retry now k s
  step may_retry now k s l h =
      let a = attempt_of may_retry now k s l h in
      let failed = fatal-settled s l h in
      let sent = success-settled now (length job.recipients) s l h in
      elim (Bool-cases (ltb k.balance (estimate_cost len (length job.recipients)))) [
        | inl e ↦ elim (Bool-cases may_retry) [
          | inl m ↦ again m (ground arith)
          | inr m ↦ stops fatal (update_log l.id log_failed s) refl (ground arith) failed
        ]
        | inr e ↦ elim (answer-cases k.answer) [
          | inl q ↦
              stops finished (sms_success now (length job.recipients) (some l) s) refl
                (ground arith) sent
          | inr (inl q) ↦ stops fatal (update_log l.id log_failed s) refl (ground arith) failed
          | inr (inr q) ↦ elim (Bool-cases may_retry) [
            | inl m ↦ again m (ground arith)
            | inr m ↦ stops fatal (update_log l.id log_failed s) refl (ground arith) failed
          ]
        ]
      ]

  module _ (may_retry : ℕ → Bool) (clock : ℕ → ℕ) (replies : ℕ → Kudi) where
    -- If Celery allows no retry after the run number `retries + fuel`, that run is the last.
    runs-end :
        (fuel retries : ℕ) (s : Comms) (l : BroadcastLog)
        → may_retry (retries + fuel) ≡ false
        → first_where (λ x. x.id == id) s.logs ≡ some l
        → (out : SmsOutcome) × (s' : Comms) × (sms_runs may_retry clock replies len job retries
              (suc fuel)
              s
            ≡ some (out, s'))
          × (is_settled id s' ≡ true)
    unfolding sms_runs
    runs-end zero retries s l last h =
        elim (step (may_retry retries) (clock retries) (replies retries) s l h) [
          | stops out s' e q k ↦ (out, s', ground (arith, e, q), k)
          | again m q ↦ absurd (
              let z : may_retry retries ≡ false =
                subst (λ n. may_retry n ≡ false) (omega arith) last in
              cc)
        ]
    runs-end (suc fuel) retries s l last h =
        elim (step (may_retry retries) (clock retries) (replies retries) s l h) [
          | stops out s' e q k ↦ (out, s', ground (arith, e, q), k)
          | again m q ↦
              let later = subst (λ n. may_retry n ≡ false) (omega arith) last in
              rw q (runs-end fuel (suc retries) s l later h)
        ]

    -- If Celery allows no retry after run number 12, then the task ends within 13 runs, and the
    -- delivery of its log is then decided: the log is SENT or FAILED.
    pub sms_runs-end :
        (s : Comms) (l : BroadcastLog)
        → may_retry 12 ≡ false
        → first_where (λ x. x.id == id) s.logs ≡ some l
        → (out : SmsOutcome) × (s' : Comms) × (sms_runs may_retry clock replies len job 0 13 s
            ≡ some (out, s'))
          × (is_settled id s' ≡ true)
    sms_runs-end = runs-end 12 0

-- The row of a broadcast with the status that its logs make, if none of them is pending.
abbrev pub resolved_row : ℕ → ℕ → List BroadcastLog → Broadcast → Broadcast
resolved_row now broadcast logs b = if has_pending broadcast logs then b else record b {
  status = sms_resolved broadcast logs;
  sent_at = if is_sent_status (sms_resolved broadcast logs) then some now else b.sent_at;
}

resolve_after_sms-row :
    (now broadcast : ℕ) (s : Comms) (b : Broadcast)
    → first_where (is_broadcast broadcast) s.broadcasts ≡ some b
    → ((resolve_after_sms now broadcast s).logs ≡ s.logs)
      × (first_where (is_broadcast broadcast) (resolve_after_sms now broadcast s).broadcasts
          ≡ some (resolved_row now broadcast s.logs b))
resolve_after_sms-row now broadcast s b row = elim (Bool-cases (has_pending broadcast s.logs)) [
  | inl e ↦ (rw e refl, rw (e, row) refl)
  | inr e ↦ (
    rw e refl,
    rw e (first_where-update (is_broadcast broadcast) _ s.broadcasts (λ x. refl) ∙ rw row refl),
  )
]

after_success :
    (now count : ℕ) (l : BroadcastLog) (s : Comms) (b : Broadcast)
    → first_where (is_broadcast l.broadcast) s.broadcasts ≡ some b
    → first_where (is_broadcast l.broadcast) (sms_success now count (some l) s).broadcasts
      ≡ some (
          resolved_row now l.broadcast
            (sms_success now count (some l) s).logs
            (add_recipients count b))
unfolding sms_success
after_success now count l s b row =
    let mid : Comms =
      save_broadcast l.broadcast (add_recipients count)
        (update_log l.id (mark_sms_sent now count) s) in
    let added : first_where (is_broadcast l.broadcast) mid.broadcasts
        ≡ some (add_recipients count b) =
      first_where-update (is_broadcast l.broadcast) (add_recipients count) s.broadcasts (λ x. refl)
      ∙ rw row refl in
    let (kept, new) = resolve_after_sms-row now l.broadcast mid (add_recipients count b) added in
    rw kept new

-- What a row of a broadcast becomes when the messages for some recipients are sent and the logs are
-- then these: a broadcast with a pending log keeps its status, and another has the status that its
-- logs make.
pub record IsCounted (now count broadcast : ℕ) (logs : List BroadcastLog) (b x : Broadcast)
    : Type 0 where
  pub total : x.total_recipients ≡ b.total_recipients + count
  pub waiting : is_waiting broadcast logs ≡ true → (x.status ≡ b.status) × (x.sent_at ≡ b.sent_at)
  pub resolved :
      is_waiting broadcast logs ≡ false
      → IsResolved
          (count_of (λ l. l.broadcast == broadcast) logs)
          (count_of (λ l. l.broadcast == broadcast && is_sent l.status) logs)
          x.status
        × IsDated now x.status b.sent_at x.sent_at

resolved_row-IsCounted :
    (now count broadcast : ℕ) (logs : List BroadcastLog) (b : Broadcast)
    → IsCounted now count broadcast logs b
        (resolved_row now broadcast logs (add_recipients count b))
resolved_row-IsCounted now count broadcast logs b = record {
  total = elim (Bool-cases (has_pending broadcast logs)) [ inl e ↦ rw e refl | inr e ↦ rw e refl ];
  waiting = λ e. rw e (refl, refl);
  resolved = λ e. rw e (
    resolve-IsResolved (count_of (λ l. l.broadcast == broadcast) logs)
        (count_of (λ l. l.broadcast == broadcast && is_sent l.status) logs),
    sent_at-IsDated now (sms_resolved broadcast logs) b.sent_at,
  );
}

-- A run that sends the messages of a log adds their number to the recipients of the broadcast. If a log
-- of the broadcast is then pending, the broadcast keeps its status; otherwise it is SENT if all its logs
-- are SENT, PARTIAL if some but not all are, and FAILED if none is, with the time of sending set exactly
-- for SENT. Every other run leaves the broadcasts as they were, also where it fails the last pending log.
pub send_bulk_sms-broadcast :
    (may_retry : Bool) (now len : ℕ) (k : Kudi) (job : SmsJob) (id : ℕ) (s s' : Comms)
    (out : SmsOutcome) (l : BroadcastLog) (b : Broadcast)
    → job.log ≡ some id
    → first_where (λ x. x.id == id) s.logs ≡ some l
    → first_where (is_broadcast l.broadcast) s.broadcasts ≡ some b
    → send_bulk_sms may_retry now len k job s ≡ (out, s')
    → ((out ≡ finished)
        × (x : Broadcast) × (first_where (is_broadcast l.broadcast) s'.broadcasts ≡ some x)
        × IsCounted now (length job.recipients) l.broadcast s'.logs b x)
      ⊎ ((out ≢ finished) × (s'.broadcasts ≡ s.broadcasts))
send_bulk_sms-broadcast may_retry now len k job id s s' out l b named h row ran =
    let a = attempt_of len job id named may_retry now k s l h in
    elim (Bool-cases (ltb k.balance (estimate_cost len (length job.recipients)))) [
      | inl e ↦ elim (Bool-cases may_retry) [
        | inl m ↦ inr ((λ q. ground arith), ground arith)
        | inr m ↦ inr ((λ q. ground arith), ground arith)
      ]
      | inr e ↦ elim (answer-cases k.answer) [
        | inl q ↦ inl (
          ground arith,
          resolved_row now l.broadcast s'.logs (add_recipients (length job.recipients) b),
          ground (arith, after_success now (length job.recipients) l s b row),
          resolved_row-IsCounted now (length job.recipients) l.broadcast s'.logs b,
        )
        | inr (inl q) ↦ inr ((λ z. ground arith), ground arith)
        | inr (inr q) ↦ elim (Bool-cases may_retry) [
          | inl m ↦ inr ((λ z. ground arith), ground arith)
          | inr m ↦ inr ((λ z. ground arith), ground arith)
        ]
      ]
    ]
