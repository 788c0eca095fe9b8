-- ===== src/Comms/Broadcast/Cancelled.antt =====
-- A broadcast that is cancelled before its task runs.
use vmlc_backend.Prelude.{
  ℕ, ◌≡◌, refl, ap, sym, subst, ◌∙◌, true, some, List, [], ◌∷◌, arith, first_where,
  first_where-update, update_where,
}
use vmlc_backend.Comms.Model.{BroadcastStatus, is_cancellable, Broadcast, Comms}
use vmlc_backend.Comms.Delivery.{Outside, deliveries, deliver_all}
use vmlc_backend.Comms.Broadcast.{
  is_broadcast, save_broadcast, cancel, begin, save_begun, start_run, run_broadcast, conclude,
  send_broadcast,
}

abbrev pub cancelled : Broadcast → Broadcast
cancelled b = record b { status = BroadcastStatus.cancelled }

abbrev cancelled_state : Broadcast → Comms → Comms
cancelled_state b s = save_broadcast b.id cancelled s

save_over :
    (id : ℕ) (f g : Broadcast → Broadcast) (bs : List Broadcast)
    → ((b : Broadcast) → (g b).id ≡ b.id)
    → ((b : Broadcast) → f (g b) ≡ f b)
    → update_where (is_broadcast id) f (update_where (is_broadcast id) g bs)
      ≡ update_where (is_broadcast id) f bs
save_over id f g [] same over = refl
save_over id f g (b ∷ bs) same over = ground (arith, save_over id f g bs same over, same b, over b)

begin-cancelled :
    (now : ℕ) (b : Broadcast)
    → is_cancellable b.status ≡ true
    → begin now (cancelled b) ≡ begin now b
begin-cancelled now b h = ground arith

start-cancelled :
    (now : ℕ) (b : Broadcast) (s : Comms)
    → is_cancellable b.status ≡ true
    → save_begun (begin now (cancelled b)) (cancelled_state b s) ≡ save_begun (begin now b) s
start-cancelled now b s h =
    ap (λ x. save_begun x (cancelled_state b s)) (begin-cancelled now b h)
    ∙ (ap (λ bs. record s { broadcasts = bs })
        (save_over b.id _ cancelled s.broadcasts (λ x. refl) (λ x. refl)))

run_cancelled :
    (o : Outside) (now : ℕ) (b : Broadcast) (s : Comms)
    → is_cancellable b.status ≡ true
    → run_broadcast o now (cancelled b) (cancelled_state b s) ≡ run_broadcast o now b s
unfolding run_broadcast
run_cancelled o now b s h =
    ap (λ x. deliver_all o now b.id (deliveries b.mediums b.target_roles) (start_run x))
      (start-cancelled now b s h)

send_found :
    (o : Outside) (now : ℕ) (b : Broadcast) (s : Comms)
    → first_where (is_broadcast b.id) s.broadcasts ≡ some b
    → send_broadcast o now b.id s ≡ conclude now (begin now b) (run_broadcast o now b s)
unfolding send_broadcast
send_found o now b s h = rw (send_broadcast, h) refl

-- A cancellation that succeeds does not change what the task of the broadcast does when it runs: the
-- broadcast is delivered as if it had not been cancelled, and ends in the same state.
pub cancel-send :
    (o : Outside) (now : ℕ) (b : Broadcast) (s s' : Comms)
    → first_where (is_broadcast b.id) s.broadcasts ≡ some b
    → cancel b s ≡ (true, s')
    → send_broadcast o now b.id s' ≡ send_broadcast o now b.id s
unfolding cancel
cancel-send o now b s s' there h =
    let left : cancelled_state b s ≡ s' = ground arith in
    let found : first_where (is_broadcast b.id) (cancelled_state b s).broadcasts
        ≡ some (cancelled b) =
      first_where-update (is_broadcast b.id) cancelled s.broadcasts (λ x. refl) ∙ rw there refl in
    let c : is_cancellable b.status ≡ true = ground arith in
    subst (λ x. send_broadcast o now b.id x ≡ send_broadcast o now b.id s) left
      (send_found o now (cancelled b) (cancelled_state b s) found
        ∙ ap (λ x. conclude now x (run_broadcast o now (cancelled b) (cancelled_state b s)))
            (begin-cancelled now b c)
        ∙ ap (conclude now (begin now b)) (run_cancelled o now b s c)
        ∙ sym (send_found o now b s there))
