-- ===== src/Schedule/Update.antt =====
-- The operations on a schedule from outside: a new or changed event, the passing of time, and the
-- cancellation or deletion of an event.
use epri_client.Prelude.{
  ℕ, ◌+◌, ◌-◌, Bool, true, false, ◌||◌, List, [], ◌∷◌, map, leb, ◌==◌, in_range, if◌then◌else◌, min,
}
use epri_client.Prelude.Int.{ℤ}
use epri_client.LinkedList.{list_remove}
use epri_client.Schedule.{
  scheduled_status, active_status, canceled_status, canceled_random_status, superseded_status,
  completed_status, active_wait_status, schedule_superseded_status, Response, event_received,
  event_completed, event_canceled, event_superseded, event_expired, event_end, remove_block_event,
  remove_schedule_event, schedule_update, Schedule, Env, update_at, put_block, emit, set_status,
  device_response, new_block,
}
use epri_client.Schedule.Insert.{insert_block, activate_block, insert_active}

-- The first loop of `update_schedule`: the blocks whose end has passed are completed. The result
-- holds the rest of the active queue.
unfoldable pub complete_block : Env → Schedule → ℕ → Schedule
complete_block env s id =
    let ended = emit (device_response env s id event_completed) (event_end id) in
    set_status (if (s.block id).status == active_status then ended else s) id completed_status

unfoldable pub complete_expired : Env → List ℕ → Schedule → List ℕ × Schedule
complete_expired env [] s = ([], s)
complete_expired env (id ∷ next) s =
    let rest = complete_expired env next (complete_block env s id) in
    if leb (s.block id).end env.time then rest else (id ∷ next, s)

-- `last ? min (last, t) : t`, where 0 stands for no time.
abbrev pub earlier : ℕ → ℕ → ℕ
earlier last t = if last == 0 then t else min last t

-- The second loop: the blocks whose start has come are made active.
unfoldable pub start_due : Env → List ℕ → Schedule → ℕ → List ℕ × Schedule × ℕ
start_due env [] s last = ([], s, last)
start_due env (id ∷ next) s last =
    let s' = insert_active env s id in
    let rest = start_due env next s' (earlier last (s'.block id).end) in
    if leb (s.block id).start env.time
    then rest
    else (id ∷ next, s, earlier last (s.block id).start)

-- The third loop: the blocks superseded by the schedule whose start has come are superseded.
unfoldable pub supersede_due : Env → List ℕ → Schedule → ℕ → List ℕ × Schedule × ℕ
supersede_due env [] s last = ([], s, last)
supersede_due env (id ∷ next) s last =
    let s' = device_response env (set_status s id superseded_status) id event_superseded in
    let rest = supersede_due env next s' last in
    if leb (s.block id).start env.time
    then rest
    else (id ∷ next, s, earlier last (s.block id).start)

-- Sets the timer for the next change, if it is another than before.
unfoldable pub set_next : Schedule → ℕ → Schedule
set_next s last =
    if last == 0
    then record s { next = 0 }
    else if last == s.next
    then s
    else let s' = emit (emit s remove_schedule_event) (schedule_update last) in
      record s' { next = last }

-- The end of the first block that stays active is the first time to wake up.
abbrev pub first_end : Schedule → List ℕ → ℕ
first_end s [] = 0
first_end s (id ∷ _) = (s.block id).end

unfoldable pub update_schedule : Env → Schedule → Schedule
update_schedule env s =
    let (active, s₁) = complete_expired env s.active s in
    let (scheduled, s₂, last₂) =
      start_due env s₁.scheduled (record s₁ { active = active }) (first_end s₁ active) in
    let (superseded, s₃, last₃) =
      supersede_due env s₂.superseded (record s₂ { scheduled = scheduled }) last₂ in
    set_next (record s₃ { superseded = superseded }) last₃

-- `block_update`.
unfoldable pub block_update : Env → Schedule → ℕ → ℕ → Schedule
block_update env s id status =
    let ended = emit (put_block s id (record (s.block id) { end = env.time })) (event_end id) in
    set_status (if (s.block id).status == active_status then ended else s) id status

-- The end of `schedule_event`: what the server says of an event that the schedule still follows.
unfoldable pub follow_event : Env → Schedule → ℕ → Schedule
follow_event env s id =
    let status = (env.event id).current_status in
    if status == scheduled_status
    then (if (s.block id).status == active_wait_status
        then insert_active env s id
        else insert_block env s id)
    else if status == active_status
    then insert_active env s id
    else if status == canceled_status || status == canceled_random_status
    then block_update env (device_response env s id event_canceled) id status
    else if status == superseded_status
    then block_update env (device_response env s id event_superseded) id status
    else s

-- `in_range (eb->status, Canceled, Completed)`: the block is done with.
abbrev pub is_over : ℕ → Bool
is_over status = in_range status canceled_status completed_status

-- The event's stub also gets the schedule and the completion routine, which the schedule does not
-- read. `start_offset` and `duration_offset` are what `rand_bound` returns.
unfoldable pub schedule_event : Env → ℤ → ℤ → Schedule → ℕ → ℕ → Schedule
schedule_event env start_offset duration_offset s id primacy =
    let follow =
      λ (t : Schedule). if is_over (t.block id).status then t else follow_event env t id in
    if s.known id
    then follow (put_block s id (record (s.block id) { primacy = primacy }))
    else let fresh = new_block (env.event id) start_offset duration_offset primacy in
      let t = put_block (record s { known = update_at s.known id true }) id fresh in
      let received = device_response env t id event_received in
      if leb fresh.end env.time
      then device_response env (set_status received id completed_status) id event_expired
      else follow received

-- `case Active` of `remove_block`.
abbrev pub end_active : Env → Schedule → ℕ → Schedule
end_active env s id =
    let cut = put_block s id (record (s.block id) { end = env.time }) in
    let ended = emit (emit cut (remove_block_event id)) (event_end id) in
    record ended { active = list_remove s.active id }

-- Takes the block out of the queue that its status names.
unfoldable pub remove_block : Env → Schedule → ℕ → Schedule
remove_block env s id =
    let status = (s.block id).status in
    if status == scheduled_status
    then record s { scheduled = list_remove s.scheduled id }
    else if status == active_status
    then end_active env s id
    else if status == active_wait_status
    then record s { active = list_remove s.active id }
    else if status == schedule_superseded_status
    then record s { superseded = list_remove s.superseded id }
    else s

-- `remove_blocks` for one of the schedules of the event.
unfoldable pub remove_blocks_in : Env → ℕ → Response → Schedule → Schedule
remove_blocks_in env id response s =
    let status = (env.event id).current_status in
    let s' = remove_block env s id in
    set_status (if (s'.block id).status == status then s' else device_response env s' id response)
      id status

unfoldable pub remove_blocks : Env → ℕ → Response → List Schedule → List Schedule
remove_blocks env id response schedules = map (remove_blocks_in env id response) schedules

unfoldable pub activate_block_in : Env → ℕ → Schedule → Schedule
activate_block_in env id s =
    if (s.block id).status == active_wait_status then activate_block env s id else s

unfoldable pub activate_blocks : Env → ℕ → List Schedule → List Schedule
activate_blocks env id schedules = map (activate_block_in env id) schedules

abbrev pub forget_block : ℕ → Schedule → Schedule
forget_block id s = record s { known = update_at s.known id false }

-- The block leaves the hash table of each schedule, and the event has no schedules any more.
unfoldable pub delete_blocks : ℕ → List Schedule → List Schedule
delete_blocks id schedules = map (forget_block id) schedules

-- The clock offset `se_time_offset`, counted backwards, and the time of the last synchronisation.
pub record SyncState : Type 0 where
  pub steps_back : ℕ
  pub sync_time : ℕ
  pub retries : List (ℕ × ℕ)

-- An event that is still scheduled when it should be active: the clock is set back by a second
-- unless this was just done, and the event is read again a second later.
unfoldable pub resynchronise : ℕ → ℕ → SyncState → SyncState
resynchronise now id c =
    if c.sync_time == now then record c { retries = (id, now + 1) ∷ c.retries } else record c {
      steps_back = c.steps_back + 1;
      sync_time = now - 1;
      retries = (id, now - 1 + 1) ∷ c.retries;
    }

unfoldable pub event_update : Env → ℕ → SyncState → List Schedule → SyncState × List Schedule
event_update env id c schedules =
    let status = (env.event id).current_status in
    if status == scheduled_status
    then (resynchronise env.time id c, schedules)
    else if status == active_status
    then (c, activate_blocks env id schedules)
    else if status == canceled_status || status == canceled_random_status
    then (c, remove_blocks env id event_canceled schedules)
    else if status == superseded_status
    then (c, remove_blocks env id event_superseded schedules)
    else (c, schedules)
