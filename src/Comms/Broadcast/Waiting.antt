-- ===== src/Comms/Broadcast/Waiting.antt =====
-- Broadcasts that never leave the status IN_PROGRESS.
use vmlc_backend.Prelude.{
  ℕ, ◌+◌, ◌≡◌, sym, subst, ◌∙◌, ◌++◌, Bool, true, false, not, ◌&&◌, some, List, [], ◌∷◌, arith,
  ==_refl, any_of, any_of-append, first_where, Bool-cases, inl, inr,
}
use vmlc_backend.Comms.Model.{Medium, BroadcastStatus, is_pending, Broadcast, Account, Comms}
use vmlc_backend.Comms.Delivery.{Outside, Delivery, recipients_of, deliveries}
use vmlc_backend.Comms.Delivery.All.{final_logs, HasFreshIds}
use vmlc_backend.Comms.Broadcast.{is_broadcast, is_log_of, has_pending, completed, send_broadcast}
use vmlc_backend.Comms.Broadcast.Resolution.{run_logs, send_broadcast-IsRun}

abbrev is_whatsapp : Medium → Bool
is_whatsapp Medium.whatsapp = true
is_whatsapp _ = false

abbrev is_empty : List Account → Bool
is_empty [] = true
is_empty (a ∷ rest) = false

-- A delivery by WhatsApp to a role with an active member.
abbrev pub waits : List Account → Delivery → Bool
waits accounts d = is_whatsapp d.medium && not (is_empty (recipients_of d accounts))

final_logs-pending :
    (o : Outside) (now broadcast : ℕ) (accounts : List Account) (ds : List Delivery) (id : ℕ)
    → any_of (waits accounts) ds ≡ true
    → has_pending broadcast (final_logs o now broadcast accounts ds id) ≡ true
final_logs-pending o now broadcast accounts [] id h = absurd (cc)
final_logs-pending o now broadcast accounts (d ∷ ds) id h = elim (Bool-cases (waits accounts d)) [
  | inl e ↦ ground (arith, ==_refl broadcast)
  | inr e ↦
      let k : any_of (waits accounts) ds ≡ true = ground arith in
      ground (arith, final_logs-pending o now broadcast accounts ds (id + 1) k)
]

-- A broadcast with WhatsApp among its mediums and an active member in one of its target roles is
-- still IN_PROGRESS when its run ends, whatever else was sent.
pub whatsapp_unresolved :
    (o : Outside) (now : ℕ) (b : Broadcast) (s s' : Comms) (status : BroadcastStatus)
    (attempts successes reached : ℕ)
    → HasFreshIds s.next_log s.logs
    → first_where (is_broadcast b.id) s.broadcasts ≡ some b
    → any_of (waits s.accounts) (deliveries b.mediums b.target_roles) ≡ true
    → send_broadcast o now b.id s ≡ (completed status attempts successes reached, s')
    → status ≡ BroadcastStatus.in_progress
whatsapp_unresolved o now b s s' status attempts successes reached fresh there waiting h =
    let p =
      final_logs-pending o now b.id s.accounts (deliveries b.mediums b.target_roles) s.next_log
        waiting in
    let q =
      any_of-append (λ l. is_log_of b.id l && is_pending l.status) s.logs (run_logs o now b s) in
    let k : has_pending b.id (s.logs ++ run_logs o now b s) ≡ true = ground (arith) in
    let (run, same, attempts_eq, successes_eq, reached_eq) =
      send_broadcast-IsRun o now b s fresh there s' status attempts successes reached h in
    same ∙ run.waiting (subst (λ ls. has_pending b.id ls ≡ true) (sym run.logs) k)
