-- ===== src/Comms/Delivery/Turn.antt =====
-- What one turn of the loop leaves behind.
use vmlc_backend.Prelude.{
  ℕ, ◌+◌, ◌<◌, ◌≡◌, refl, Bool, true, false, not, ◌||◌, List, [], ◌∷◌, ◌++◌, map, select, arith,
  some, none, ◌==◌, if◌then◌else◌, All, update_where, length, any_of, Bool-cases, List-cases, inl,
  inr,
}
use vmlc_backend.Prelude.Text.{Text}
use vmlc_backend.Comms.Model.{Medium, MediumStatus, is_sent, BroadcastLog, Account, Comms}
use vmlc_backend.Comms.Delivery.{
  Outside, Delivery, Ending, done, caught, raised, is_filled, send_by, valid_phones, is_synchronous,
  new_log, log_sent, log_failed, Run, settle, recipients_of, with_log, deliver,
}

-- Sending fills queues and notifications only.
pub record IsFrame (s s' : Comms) : Type 0 where
  pub accounts : s'.accounts ≡ s.accounts
  pub broadcasts : s'.broadcasts ≡ s.broadcasts
  pub logs : s'.logs ≡ s.logs
  pub next_log : s'.next_log ≡ s.next_log

send_by-IsFrame :
    (o : Outside) (m : Medium) (log : ℕ) (recipients : List Account) (s : Comms)
    → IsFrame s (send_by o m log recipients s).1
unfolding send_by
send_by-IsFrame o m log [] s = record {
  accounts = ground arith;
  broadcasts = ground arith;
  logs = ground arith;
  next_log = ground arith;
}
send_by-IsFrame o Medium.email log (a ∷ rest) s = record {
  accounts = ground arith;
  broadcasts = ground arith;
  logs = ground arith;
  next_log = ground arith;
}
send_by-IsFrame o Medium.platform log (a ∷ rest) s = record {
  accounts = ground arith;
  broadcasts = ground arith;
  logs = ground arith;
  next_log = ground arith;
}
send_by-IsFrame o Medium.sms log (a ∷ rest) s = record {
  accounts = ground arith;
  broadcasts = ground arith;
  logs = ground arith;
  next_log = ground arith;
}
send_by-IsFrame o Medium.whatsapp log (a ∷ rest) s = record {
  accounts = ground arith;
  broadcasts = ground arith;
  logs = ground arith;
  next_log = ground arith;
}
send_by-IsFrame o Medium.unknown log (a ∷ rest) s = record {
  accounts = ground arith;
  broadcasts = ground arith;
  logs = ground arith;
  next_log = ground arith;
}

abbrev either : Bool → MediumStatus → MediumStatus
either true a = a
either false a = MediumStatus.failed

-- The status that the log of a delivery has after its turn: sent by mail to at least one address,
-- and on the platform where the notifications are stored; an SMS waits for its task where there is
-- a valid number and the task is queued; a WhatsApp message waits.
abbrev pub expected_status : Outside → Medium → ℕ → List Account → MediumStatus
expected_status o m log [] = MediumStatus.failed
expected_status o Medium.email log (a ∷ rest) =
    either (any_of (λ x. is_filled x.email) (a ∷ rest)) MediumStatus.sent
expected_status o Medium.platform log (a ∷ rest) = either (o.database_saves log) MediumStatus.sent
expected_status o Medium.sms log (a ∷ rest) = elim (valid_phones (a ∷ rest)) [
  | [] ↦ MediumStatus.failed
  | p ∷ ps ↦ either (not o.uses_kudi || o.queue_accepts log) MediumStatus.pending
]
expected_status o Medium.whatsapp log (a ∷ rest) = MediumStatus.pending
expected_status o Medium.unknown log (a ∷ rest) = MediumStatus.failed

update_where-last :
    (n : ℕ) (f : BroadcastLog → BroadcastLog) (logs : List BroadcastLog) (x : BroadcastLog)
    → All (λ l. l.id < n) logs
    → x.id ≡ n
    → update_where (λ l. l.id == n) f (logs ++ x ∷ []) ≡ logs ++ f x ∷ []
update_where-last n f [] x h e = ground (arith)
update_where-last n f (l ∷ logs) x h e = ground (arith, update_where-last n f logs x h.1 e)

-- The log that a turn leaves for a delivery.
abbrev pub final_log : Outside → ℕ → ℕ → List Account → Delivery → ℕ → BroadcastLog
final_log o now broadcast accounts d id =
    let recipients = recipients_of d accounts in
    let status = expected_status o d.medium id recipients in
    record (new_log id broadcast d (length recipients)) {
      status = status;
      sent_at = if is_sent status then some now else none;
    }

no_emails :
    (as' : List Account)
    → select is_filled (map (λ a. a.email) as') ≡ []
    → any_of (λ a. is_filled a.email) as' ≡ false
no_emails [] h = refl
no_emails (a ∷ rest) h = ground (arith, no_emails rest)

some_email :
    (as' : List Account) {e : Text} {es : List Text}
    → select is_filled (map (λ a. a.email) as') ≡ e ∷ es
    → any_of (λ a. is_filled a.email) as' ≡ true
some_email [] h = absurd (cc)
some_email (a ∷ rest) {e} {es} h = elim (Bool-cases (is_filled a.email)) [
  | inl q ↦ ground arith
  | inr q ↦
      let k : select is_filled (map (λ x. x.email) rest) ≡ e ∷ es = ground arith in
      ground (arith, some_email rest k)
]

-- How a delivery ends decides the status of its log, unless an exception ends the loop.
data Ends (o : Outside) (m : Medium) (log : ℕ) (recipients : List Account) (s : Comms)
    : Type 0 where
  as_raised : (send_by o m log recipients s).0 ≡ raised → Ends o m log recipients s
  as_sent :
      (send_by o m log recipients s).0 ≡ done
      → is_synchronous m ≡ true
      → expected_status o m log recipients ≡ MediumStatus.sent
      → Ends o m log recipients s
  as_pending :
      (send_by o m log recipients s).0 ≡ done
      → is_synchronous m ≡ false
      → expected_status o m log recipients ≡ MediumStatus.pending
      → Ends o m log recipients s
  as_failed :
      (send_by o m log recipients s).0 ≡ caught
      → expected_status o m log recipients ≡ MediumStatus.failed
      → Ends o m log recipients s

send_by-Ends :
    (o : Outside) (m : Medium) (log : ℕ) (recipients : List Account) (s : Comms)
    → Ends o m log recipients s
unfolding send_by
send_by-Ends o m log [] s = as_failed refl refl
send_by-Ends o Medium.email log (a ∷ rest) s =
    elim (List-cases (select is_filled (map (λ x. x.email) (a ∷ rest)))) [
      | inl e ↦ as_failed (ground arith) (rw (no_emails (a ∷ rest) e))
      | inr (x, xs, e) ↦ elim (Bool-cases (o.queue_accepts log)) [
        | inl q ↦ as_sent (ground arith) refl (rw (some_email (a ∷ rest) e))
        | inr q ↦ as_raised (ground arith)
      ]
    ]
send_by-Ends o Medium.platform log (a ∷ rest) s = elim (Bool-cases (o.database_saves log)) [
  | inl e ↦ elim (Bool-cases (o.queue_accepts log)) [
    | inl q ↦ as_sent (ground arith) refl (ground arith)
    | inr q ↦ as_raised (ground arith)
  ]
  | inr e ↦ as_failed (ground arith) (ground arith)
]
send_by-Ends o Medium.sms log (a ∷ rest) s = elim (List-cases (valid_phones (a ∷ rest))) [
  | inl e ↦ as_failed (ground arith) (ground arith)
  | inr (x, xs, e) ↦ elim (Bool-cases (not o.uses_kudi || o.queue_accepts log)) [
    | inl q ↦ as_pending (ground arith) refl (ground arith)
    | inr q ↦ as_failed (ground arith) (ground arith)
  ]
]
send_by-Ends o Medium.whatsapp log (a ∷ rest) s = as_pending refl refl refl
send_by-Ends o Medium.unknown log (a ∷ rest) s = as_failed refl refl

-- What a turn that ends without an exception leaves.
pub record IsTurn (o : Outside) (now broadcast : ℕ) (d : Delivery) (r r' : Run) : Type 0 where
  pub logs :
      r'.state.logs
      ≡ r.state.logs ++ final_log o now broadcast r.state.accounts d r.state.next_log ∷ []
  pub accounts : r'.state.accounts ≡ r.state.accounts
  pub broadcasts : r'.state.broadcasts ≡ r.state.broadcasts
  pub next_log : r'.state.next_log ≡ r.state.next_log + 1
  pub attempts : r'.total_attempts ≡ r.total_attempts + 1
  pub successes :
      r'.successful_attempts
      ≡ r.successful_attempts
        + (if is_sent (final_log o now broadcast r.state.accounts d r.state.next_log).status
            then 1
            else 0)
  pub reached :
      r'.total_recipients_reached
      ≡ r.total_recipients_reached
        + (if is_sent (final_log o now broadcast r.state.accounts d r.state.next_log).status
            then length (recipients_of d r.state.accounts)
            else 0)

module _ (o : Outside) (now broadcast : ℕ) (d : Delivery) (r r' : Run)
    (fresh : All (λ l. l.id < r.state.next_log) r.state.logs) where
  abbrev begun : Comms
  begun = with_log broadcast d r.state

  abbrev mine : ℕ
  mine = r.state.next_log

  abbrev users : List Account
  users = recipients_of d r.state.accounts

  abbrev counted : Run
  counted = record r { total_attempts = r.total_attempts + 1 }

  settle-IsTurn :
      (e : Ending) (s : Comms)
      → IsFrame begun s
      → Ends o d.medium mine users begun
      → (send_by o d.medium mine users begun).0 ≡ e
      → settle now mine d (length users) (e, s) counted ≡ (false, r')
      → IsTurn o now broadcast d r r'
  settle-IsTurn raised s f w q h = absurd (ground arith)
  settle-IsTurn caught s f (as_raised k) q h = absurd (cc)
  settle-IsTurn caught s f (as_sent k m x) q h = absurd (cc)
  settle-IsTurn caught s f (as_pending k m x) q h = absurd (cc)
  settle-IsTurn caught s f (as_failed k x) q h =
      let last =
        update_where-last mine log_failed r.state.logs (new_log mine broadcast d (length users))
          fresh refl in
      record {
        logs = ground (arith, last);
        accounts = ground arith;
        broadcasts = ground arith;
        next_log = ground arith;
        attempts = ground arith;
        successes = ground arith;
        reached = ground arith;
      }
  settle-IsTurn done s f (as_raised k) q h = absurd (cc)
  settle-IsTurn done s f (as_failed k x) q h = absurd (cc)
  settle-IsTurn done s f (as_sent k m x) q h =
      let last =
        update_where-last mine (log_sent now) r.state.logs (new_log mine broadcast d (length users))
          fresh refl in
      record {
        logs = ground (arith, last);
        accounts = ground arith;
        broadcasts = ground arith;
        next_log = ground arith;
        attempts = ground arith;
        successes = ground arith;
        reached = ground arith;
      }
  settle-IsTurn done s f (as_pending k m x) q h = record {
    logs = ground (arith);
    accounts = ground arith;
    broadcasts = ground arith;
    next_log = ground arith;
    attempts = ground arith;
    successes = ground arith;
    reached = ground arith;
  }

  pub deliver-IsTurn : deliver o now broadcast d r ≡ (false, r') → IsTurn o now broadcast d r r'
  unfolding deliver
  deliver-IsTurn h =
      settle-IsTurn (send_by o d.medium mine users begun).0 (send_by o d.medium mine users begun).1
        (send_by-IsFrame o d.medium mine users begun) (send_by-Ends o d.medium mine users begun)
        refl h
