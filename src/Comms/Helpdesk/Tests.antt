-- ===== src/Comms/Helpdesk/Tests.antt =====
-- Examples for the helpdesk: a candidate opens a thread, is snoozed, and writes.
use vmlc_backend.Prelude.{◌≡◌, refl, arith, true, none, some, [], ◌∷◌, first_where}
use vmlc_backend.Comms.Helpdesk.{
  is_thread, Desk, save_message, view_thread, snooze, act_on_thread, HelpdeskThread, ThreadStatus,
}
use vmlc_backend.Comms.Helpdesk.Messages.{Poster, is_support, post_message}
use vmlc_backend.Comms.Helpdesk.Tasks.{auto_close, cleanup_snoozed}
use vmlc_backend.Comms.Helpdesk.Sound.{IsSoundDesk}
use vmlc_backend.Comms.Helpdesk.Steps.{
  viewed, acted, posted, empty_desk, Reach, start, later, Reach-IsSoundDesk,
}
use vmlc_backend.Comms.Helpdesk.Closing.{post-view-auto_close}

abbrev ada : Poster
ada = record { user = 5; staff_role = none; candidate_profile = some 5 }

-- The candidate opens a thread, the staff snooze it until 100, and the candidate writes at 50.
abbrev opened : Desk
opened = view_thread 10 5 5 empty_desk

abbrev snoozed_desk : Desk
snoozed_desk = (act_on_thread 1 (snooze (some 100)) opened).1

abbrev written : Desk
written = (post_message 50 ada 1 true snoozed_desk).1

written_reach : Reach written
written_reach =
    later (later (later start (viewed 10 5 5)) (acted 1 (snooze (some 100)))) (posted 50 ada 1 true)

Reach-IsSoundDesk_example : IsSoundDesk written
Reach-IsSoundDesk_example = Reach-IsSoundDesk written_reach

-- The clean-up opens the thread.
cleaned_status :
    (cleanup_snoozed 100 written).threads
    ≡ record {
      id = 1;
      candidate = 5;
      assigned_staff = none;
      status = ThreadStatus.open_thread;
      snoozed_until = none;
      last_message_at = some 50;
    }
      ∷ []
unfolding cleanup_snoozed post_message act_on_thread view_thread save_message is_support
cleaned_status = refl

abbrev answered : Desk
answered = (post_message 50 ada 1 true opened).1

abbrev own_thread : HelpdeskThread
own_thread = record {
  id = 1;
  candidate = 5;
  assigned_staff = none;
  status = ThreadStatus.open_thread;
  snoozed_until = none;
  last_message_at = some 50;
}

post-view-auto_close_example :
    first_where (is_thread 1) (auto_close 900000000 (view_thread 60 5 5 answered)).threads
    ≡ some (record own_thread { status = ThreadStatus.in_progress })
unfolding post_message view_thread save_message is_support
post-view-auto_close_example =
    post-view-auto_close 50 60 900000000 1 5 5 ada true opened answered own_thread
      (record own_thread { status = ThreadStatus.in_progress }) (omega arith, tt) refl refl refl
      refl
