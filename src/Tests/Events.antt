-- ===== src/Tests/Events.antt =====
-- Runs of event.c and schedule.c.
use epri_client.Prelude.{
  ℕ, ◌≡◌, refl, arith, true, false, [], ◌∷◌, ◌==◌, if◌then◌else◌, List, ◌+◌, ◌*◌,
}
use epri_client.Prelude.Int.{pos}
use epri_client.EventQueue.{Event, EventState, insert_event, remove_event, next_event}
use epri_client.EventQueue.Order.{
  IsTimed, Answer, insert_event-IsTimed, next_event-Answer, remove_event-insert_event,
}
use epri_client.Schedule.{SeEvent, EventBlock, Schedule, Env}
use epri_client.Schedule.Insert.{insert_active}
use epri_client.Schedule.Controls.{der_of, Disjoint}
use epri_client.Schedule.Disjoint.{insert_active-Disjoint}
use epri_client.LinkedList.{find_by_data}
use epri_client.Schedule.{set_der, block_supersede, prevails}
use epri_client.Schedule.Insert.{insert_active_loop}
use epri_client.Schedule.Update.{complete_expired, remove_block}
use epri_client.Schedule.Expiry.{
  Completed, complete_expired-Completed, IsQueued, Without, remove_block-Without,
}
use epri_client.Schedule.Losses.{IsEnd, passed, passed_none, insert_active_loses}

abbrev event_at : ℕ → ℕ → Event
event_at item time = record { item = item; type = 3; time = time }

abbrev two_waiting : EventState
two_waiting = record { cur_event = event_at 1 10 ∷ event_at 2 20 ∷ []; im_event = []; timer = 0 }

two_waiting-IsTimed : IsTimed two_waiting.cur_event
two_waiting-IsTimed = ((omega arith, tt), (tt, tt))

insert_event-IsTimed_example : IsTimed (insert_event two_waiting 3 4 15).cur_event
insert_event-IsTimed_example =
    insert_event-IsTimed two_waiting 3 4 15
      ((omega arith, omega arith), ((omega arith, omega arith), tt)) two_waiting-IsTimed

next_event-Answer_example : Answer two_waiting 12 (next_event two_waiting 12)
next_event-Answer_example = next_event-Answer two_waiting 12 two_waiting-IsTimed

remove_event-insert_event_example :
    remove_event (insert_event two_waiting 1 4 0) 1 ≡ remove_event two_waiting 1
remove_event-insert_event_example = remove_event-insert_event two_waiting 1 4 0

-- A DER control that sets the bits `der`, created at the time of its number.
abbrev control : ℕ → ℕ → SeEvent
control id der = record {
  creation_time = id;
  start = 100;
  duration = 50;
  randomize_start = pos 0;
  randomize_duration = pos 0;
  current_status = 1;
  response_required = 3;
  is_der_control = true;
  is_randomizable = true;
  is_subscribed = false;
  der_base = der;
}

abbrev block_of : ℕ → EventBlock
block_of der = record { status = 1; primacy = 1; der = der; start = 100; end = 150 }

-- Block 1 has the control 3, block 2 the control 4; the event of block 3 has the controls 2 and 4.
abbrev controls : Env
controls = record {
  event = λ id. control id (if id == 1 then 3 else if id == 2 then 4 else 6);
  time = 100;
  dut_strategy = 0;
  active_poll_rate = 300;
}

abbrev two_active : Schedule
two_active = record {
  next = 150;
  known = λ id. true;
  block = λ id. block_of (if id == 1 then 3 else if id == 2 then 4 else 0);
  scheduled = [];
  active = 1 ∷ 2 ∷ [];
  superseded = [];
  out = [];
}

insert_active-Disjoint_example :
    Disjoint
      (der_of (insert_active controls two_active 3))
      (insert_active controls two_active 3).active
insert_active-Disjoint_example =
    insert_active-Disjoint controls two_active 3 (λ x. ground arith) (omega arith)
      (ground arith, (ground arith, tt)) ((refl, tt), (tt, tt))

-- Block 1 has the higher priority, block 2 the lower one; the new block 3 has the controls of both
-- and one more.
abbrev ranked_block : ℕ → EventBlock
ranked_block id = record {
  status = 1;
  primacy = if id == 1 then 0 else if id == 2 then 2 else 1;
  der = if id == 1 then 3 else if id == 2 then 4 else 7;
  start = 100;
  end = 100 + 10 * id;
}

abbrev ranked : Schedule
ranked = record two_active { block = ranked_block }

abbrev ranked_once : Schedule
ranked_once = set_der ranked 3 4

insert_active_loses_example : IsEnd [] (insert_active_loop controls 3 (1 ∷ 2 ∷ []) ranked).0.active
unfolding block_supersede prevails
insert_active_loses_example =
    insert_active_loses controls 3 2 [] (1 ∷ []) ranked ranked_once (set_der ranked_once 2 0)
      (passed refl refl passed_none) refl

-- At the time 115 block 1 is over, block 2 is not.
abbrev later_controls : Env
later_controls = record controls { time = 115 }

complete_expired-Completed_example :
    (done : List ℕ) × Completed later_controls ranked
      (1 ∷ 2 ∷ [])
      done
      (complete_expired later_controls (1 ∷ 2 ∷ []) ranked).0
      (complete_expired later_controls (1 ∷ 2 ∷ []) ranked).1
complete_expired-Completed_example = complete_expired-Completed later_controls (1 ∷ 2 ∷ []) ranked

active_one-IsQueued : IsQueued two_active 1
unfolding find_by_data
active_one-IsQueued = record {
  scheduled_once = tt;
  active_once = (refl, (refl, tt));
  superseded_once = tt;
  in_scheduled = refl;
  in_active = refl;
  in_superseded = refl;
}

remove_block-Without_example : Without two_active (remove_block controls two_active 1) 1
remove_block-Without_example = remove_block-Without controls two_active 1 active_one-IsQueued
