-- ===== src/Comms/Broadcast/Tests.antt =====
-- Examples for broadcasts: one by mail and SMS to two candidates, and one by WhatsApp.
use vmlc_backend.Prelude.{
  ℕ, length, suc, ◌+◌, ltb, ◌≡◌, refl, ◌⊎◌, ◌≢◌, Bool, true, none, some, List, [], ◌∷◌, first_where,
}
use vmlc_backend.Comms.Model.{
  Medium, RoleType, BroadcastStatus, Broadcast, MediumStatus, BroadcastLog, Account, SmsJob, Comms,
}
use vmlc_backend.Comms.Phone.{normalize_phone, is_placeholder_phone}
use vmlc_backend.Comms.Delivery.{Outside, deliveries, send_by, deliver, deliver_all}
use vmlc_backend.Comms.Delivery.All.{sent_among, reached_by}
use vmlc_backend.Comms.Broadcast.{
  is_broadcast, cancel, resolve_broadcast_status, finish, completed, run_broadcast, send_broadcast,
  SmsAnswer, Kudi, SmsOutcome, finished, estimate_cost, sms_success, send_bulk_sms,
}
use vmlc_backend.Comms.Broadcast.Resolution.{run_logs, IsRun, send_broadcast-IsRun}
use vmlc_backend.Comms.Broadcast.Sms.{
  sms_runs, is_settled, IsCounted, sms_runs-end, send_bulk_sms-broadcast,
}
use vmlc_backend.Comms.Broadcast.Waiting.{whatsapp_unresolved}
use vmlc_backend.Comms.Broadcast.Cancelled.{cancel-send}

abbrev working : Outside
working = record { queue_accepts = λ _. true; database_saves = λ _. true; uses_kudi = true }

abbrev ada : Account
ada = record {
  user = 1;
  role_type = RoleType.candidate;
  role = 7;
  is_active = true;
  email = b'a' ∷ b'@' ∷ b'x' ∷ [];
  phone = b'0' ∷ b'8' ∷ b'1' ∷ [];
}

abbrev bola : Account
bola = record ada { user = 2; email = b'b' ∷ b'@' ∷ b'x' ∷ []; phone = [] }

abbrev by : List Medium → Broadcast
by mediums = record {
  id = 4;
  mediums = mediums;
  target_roles = (RoleType.candidate, 7 ∷ []) ∷ [];
  status = BroadcastStatus.pending;
  total_recipients = 0;
  last_attempt = none;
  sent_at = none;
  retry_count = 0;
}

abbrev state_with : Broadcast → Comms
state_with b = record {
  accounts = ada ∷ bola ∷ [];
  broadcasts = b ∷ [];
  logs = [];
  next_log = 1;
  mails = [];
  notifications = [];
  sms_jobs = [];
}

abbrev mixed : Broadcast
mixed = by (Medium.email ∷ Medium.sms ∷ [])

abbrev mixed_sent : Comms
mixed_sent = (send_broadcast working 100 4 (state_with mixed)).1

mixed_run :
    send_broadcast working 100 4 (state_with mixed)
    ≡ (completed BroadcastStatus.in_progress 2 1 2, mixed_sent)
unfolding send_broadcast run_broadcast deliver_all deliver deliveries send_by normalize_phone
    is_placeholder_phone finish resolve_broadcast_status
mixed_run = refl

send_broadcast-IsRun_example :
    (run : IsRun working 100 mixed (state_with mixed) mixed_sent) × (BroadcastStatus.in_progress
      ≡ run.row.status)
    × (2 ≡ length (deliveries mixed.mediums mixed.target_roles))
    × (1 ≡ sent_among (run_logs working 100 mixed (state_with mixed)))
    × (2 ≡ reached_by (run_logs working 100 mixed (state_with mixed)))
send_broadcast-IsRun_example =
    send_broadcast-IsRun working 100 mixed (state_with mixed) tt refl mixed_sent
      BroadcastStatus.in_progress 2 1 2 mixed_run

abbrev chat : Broadcast
chat = by (Medium.email ∷ Medium.whatsapp ∷ [])

chat_run : send_broadcast working 100 4 (state_with chat) ≡ (
  completed BroadcastStatus.in_progress 2 1 2,
  (send_broadcast working 100 4 (state_with chat)).1,
)
unfolding send_broadcast run_broadcast deliver_all deliver deliveries send_by normalize_phone
    is_placeholder_phone finish resolve_broadcast_status
chat_run = refl

whatsapp_unresolved_example :
    ◌≡◌ {A = BroadcastStatus} BroadcastStatus.in_progress BroadcastStatus.in_progress
unfolding deliveries
whatsapp_unresolved_example =
    whatsapp_unresolved working 100 chat (state_with chat)
      (send_broadcast working 100 4 (state_with chat)).1 BroadcastStatus.in_progress 2 1 2 tt refl
      refl chat_run

cancel-send_example :
    send_broadcast working 100 4 (cancel mixed (state_with mixed)).1
    ≡ send_broadcast working 100 4 (state_with mixed)
unfolding cancel
cancel-send_example =
    cancel-send working 100 mixed (state_with mixed) (cancel mixed (state_with mixed)).1 refl refl

-- The log of an SMS that waits, after the mail of the same broadcast was sent.
abbrev waiting_log : BroadcastLog
waiting_log = record {
  id = 2;
  broadcast = 4;
  medium = Medium.sms;
  role_type = RoleType.candidate;
  target_role = 7;
  status = MediumStatus.pending;
  recipient_count = 2;
  sent_at = none;
}

abbrev job : SmsJob
job = record { recipients = (b'2' ∷ b'3' ∷ b'4' ∷ b'8' ∷ b'1' ∷ []) ∷ []; log = some 2 }

abbrev waiting_state : Comms
waiting_state = record (state_with mixed) { logs = waiting_log ∷ [] }

-- The balance is too low until the run number 3.
abbrev replies : ℕ → Kudi
replies (suc (suc (suc n))) = record { balance = 10000; answer = SmsAnswer.success }
replies n = record { balance = 0; answer = SmsAnswer.success }

abbrev may_retry : ℕ → Bool
may_retry n = ltb n 12

sms_runs-end_example :
    (out : SmsOutcome) × (s' : Comms) × (sms_runs may_retry
        (λ n. 100 + n)
        replies
        20
        job
        0
        13
        waiting_state
      ≡ some (out, s'))
    × (is_settled 2 s' ≡ true)
sms_runs-end_example =
    sms_runs-end 20 job 2 refl may_retry (λ n. 100 + n) replies waiting_state waiting_log refl refl

abbrev rich : Kudi
rich = record { balance = 10000; answer = SmsAnswer.success }

abbrev sms_done : Comms
sms_done = (send_bulk_sms true 200 20 rich job waiting_state).1

sms_run : send_bulk_sms true 200 20 rich job waiting_state ≡ (finished, sms_done)
unfolding send_bulk_sms estimate_cost sms_success resolve_broadcast_status
sms_run = refl

send_bulk_sms-broadcast_example :
    ((finished ≡ finished)
      × (x : Broadcast) × (first_where (is_broadcast 4) sms_done.broadcasts ≡ some x)
      × IsCounted 200 1 4 sms_done.logs mixed x)
    ⊎ ((finished ≢ finished) × (sms_done.broadcasts ≡ waiting_state.broadcasts))
send_bulk_sms-broadcast_example =
    send_bulk_sms-broadcast true 200 20 rich job 2 waiting_state sms_done finished waiting_log mixed
      refl refl refl sms_run
