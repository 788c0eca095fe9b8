-- ===== src/Comms/Delivery/All.antt =====
-- What the whole loop leaves behind, if no exception ends it.
use mathlib.Core.List.{append_assoc}
use vmlc_backend.Prelude.{
  ℕ, ◌+◌, ◌<◌, ◌≡◌, refl, sym, ◌∙◌, subst, false, List, [], ◌∷◌, ◌++◌, arith, if◌then◌else◌, All,
  All-map, All-append, length, Bool-cases, inl, inr, count_of,
}
use vmlc_backend.Comms.Model.{is_sent, BroadcastLog, Account}
use vmlc_backend.Comms.Delivery.{Outside, Delivery, Run, deliver, deliver_all}
use vmlc_backend.Comms.Delivery.Turn.{final_log, IsTurn, deliver-IsTurn}

-- The logs of the deliveries, in order, under consecutive identifiers.
abbrev pub final_logs : Outside → ℕ → ℕ → List Account → List Delivery → ℕ → List BroadcastLog
final_logs o now broadcast accounts [] id = []
final_logs o now broadcast accounts (d ∷ ds) id =
    final_log o now broadcast accounts d id ∷ final_logs o now broadcast accounts ds (id + 1)

abbrev pub sent_among : List BroadcastLog → ℕ
sent_among = count_of (λ l. is_sent l.status)

-- The recipients of the logs that are SENT.
abbrev pub reached_by : List BroadcastLog → ℕ
reached_by [] = 0
reached_by (l ∷ logs) = (if is_sent l.status then l.recipient_count else 0) + reached_by logs

-- The counters and tables that a loop over some deliveries leaves.
pub record IsDelivered (o : Outside) (now broadcast : ℕ) (ds : List Delivery) (r r' : Run)
    : Type 0 where
  pub logs :
      r'.state.logs
      ≡ r.state.logs ++ final_logs o now broadcast r.state.accounts ds r.state.next_log
  pub accounts : r'.state.accounts ≡ r.state.accounts
  pub broadcasts : r'.state.broadcasts ≡ r.state.broadcasts
  pub attempts : r'.total_attempts ≡ r.total_attempts + length ds
  pub successes :
      r'.successful_attempts
      ≡ r.successful_attempts
        + sent_among (final_logs o now broadcast r.state.accounts ds r.state.next_log)
  pub reached :
      r'.total_recipients_reached
      ≡ r.total_recipients_reached
        + reached_by (final_logs o now broadcast r.state.accounts ds r.state.next_log)

abbrev pub HasFreshIds : ℕ → List BroadcastLog → Type 0
HasFreshIds n = All (λ l. l.id < n)

append-nil {ℓ} : {A : Type ℓ} (xs : List A) → xs ++ [] ≡ xs
append-nil [] = refl
append-nil (x ∷ xs) = ground (arith, append-nil xs)

turn-HasFreshIds :
    (o : Outside) (now broadcast : ℕ) (d : Delivery) (r r' : Run)
    → HasFreshIds r.state.next_log r.state.logs
    → IsTurn o now broadcast d r r'
    → HasFreshIds r'.state.next_log r'.state.logs
turn-HasFreshIds o now broadcast d r r' fresh t =
    rw (t.logs, t.next_log)
      (All-append (λ l. l.id < r.state.next_log + 1) r.state.logs _
        (All-map (λ l h. omega arith) r.state.logs fresh) (omega arith, tt))

turn-IsDelivered :
    (o : Outside) (now broadcast : ℕ) (d : Delivery) (ds : List Delivery) (r r' r'' : Run)
    → IsTurn o now broadcast d r r'
    → IsDelivered o now broadcast ds r' r''
    → IsDelivered o now broadcast (d ∷ ds) r r''
turn-IsDelivered o now broadcast d ds r r' r'' t k =
    let same : final_logs o now broadcast r'.state.accounts ds r'.state.next_log
        ≡ final_logs o now broadcast r.state.accounts ds (r.state.next_log + 1) =
      rw (t.accounts, t.next_log) in
    record {
      logs = k.logs ∙ rw (t.logs, same) (append_assoc r.state.logs _ _);
      accounts = k.accounts ∙ t.accounts;
      broadcasts = k.broadcasts ∙ t.broadcasts;
      attempts = omega (arith, k.attempts, t.attempts);
      successes = ground (arith, k.successes, t.successes, same);
      reached = ground (arith, k.reached, t.reached, same);
    }

nothing-IsDelivered :
    (o : Outside) (now broadcast : ℕ) (r : Run) → IsDelivered o now broadcast [] r r
nothing-IsDelivered o now broadcast r = record {
  logs = sym (append-nil r.state.logs);
  accounts = refl;
  broadcasts = refl;
  attempts = omega arith;
  successes = omega arith;
  reached = omega arith;
}

-- Without an exception the loop adds one log for each delivery, in order, with the status that the
-- delivery should have.
pub deliver_all-IsDelivered :
    (o : Outside) (now broadcast : ℕ) (ds : List Delivery) (r r' : Run)
    → HasFreshIds r.state.next_log r.state.logs
    → deliver_all o now broadcast ds r ≡ (false, r')
    → IsDelivered o now broadcast ds r r'
unfolding deliver_all
deliver_all-IsDelivered o now broadcast [] r r' fresh h =
    let q : r ≡ r' = ground arith in
    subst (IsDelivered o now broadcast [] r) q (nothing-IsDelivered o now broadcast r)
deliver_all-IsDelivered o now broadcast (d ∷ ds) r r' fresh h =
    elim (Bool-cases (deliver o now broadcast d r).0) [
      | inl e ↦ absurd (ground arith)
      | inr e ↦
          let t =
            deliver-IsTurn o now broadcast d r (deliver o now broadcast d r).1 fresh
              (ground arith) in
          turn-IsDelivered o now broadcast d ds r _ r' t (
            deliver_all-IsDelivered o now broadcast ds (deliver o now broadcast d r).1 r'
              (turn-HasFreshIds o now broadcast d r _ fresh t) (rw (deliver_all, e) at h))
    ]
