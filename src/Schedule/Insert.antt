-- ===== src/Schedule/Insert.antt =====
-- Putting a block into the schedule: `insert_block` for a future event, `insert_active` for one
-- whose time has come.
use epri_client.Prelude.{ℕ, ◌+◌, Bool, true, false, ◌&&◌, List, [], ◌∷◌, ltb, ◌==◌, if◌then◌else◌}
use epri_client.LinkedList.{insert_sorted}
use epri_client.Schedule.{
  scheduled_status, active_status, superseded_status, active_wait_status,
  schedule_superseded_status, event_started, event_superseded, SeEvent, event_start, event_end,
  poll, update, Schedule, Env, put_block, emit, set_status, set_der, device_response,
  block_supersede, compare_start, compare_end,
}

-- `if (resource_type (eb->event) == SE_DERControl) eb->der = der_base (eb->event);`
abbrev pub load_der : Env → Schedule → ℕ → Schedule
load_der env s id =
    if (env.event id).is_der_control then set_der s id (env.event id).der_base else s

-- The end of the interval of an event, as `event_interval` computes it.
abbrev pub interval_end : SeEvent → ℕ
interval_end ev = ev.start + ev.duration

abbrev pub overlaps : SeEvent → SeEvent → Bool
overlaps x y = ltb x.start (interval_end y) && ltb y.start (interval_end x)

-- `e->status = ScheduleSuperseded; link_insert (s->superseded, e)`
abbrev pub schedule_supersede : Schedule → ℕ → Schedule
schedule_supersede s e =
    let s' = set_status s e schedule_superseded_status in
    record s' { superseded = e ∷ s'.superseded }

-- The adjustment of a scheduled block that does not overlap.
abbrev pub adjoin : Env → Schedule → ℕ → ℕ → Schedule
adjoin env s eb e =
    let x = interval_end (env.event eb) in
    let y = env.event e in
    let end = (s.block eb).end in
    if x == y.start
    then put_block s e (record (s.block e) { start = end })
    else if x == interval_end y
    then put_block s e (record (s.block e) { end = end })
    else s

-- What the loop does with the scheduled block `e`: the schedule, whether `e` stays scheduled, and
-- whether the function returns, since nothing is left for `eb` to control.
unfoldable pub insert_block_step : Env → Schedule → ℕ → ℕ → Schedule × Bool × Bool
insert_block_step env s eb e =
    if overlaps (env.event eb) (env.event e)
    then (let (won, s') = block_supersede env s eb e in
        if won
        then (schedule_supersede s' e, false, false)
        else if (s'.block eb).der == 0
        then (schedule_supersede s' eb, true, true)
        else (s', true, false))
    else (adjoin env s eb e, true, false)

-- The loop over the scheduled blocks: the blocks that stay, the schedule, and whether it returned.
unfoldable pub insert_block_loop : Env → ℕ → List ℕ → Schedule → List ℕ × Schedule × Bool
insert_block_loop env eb [] s = ([], s, false)
insert_block_loop env eb (e ∷ next) s =
    let (s', stays, returns) = insert_block_step env s eb e in
    let (kept, s'', returned) = insert_block_loop env eb next s' in
    if returns then (e ∷ next, s', true) else ((if stays then e ∷ kept else kept), s'', returned)

unfoldable pub insert_block : Env → Schedule → ℕ → Schedule
insert_block env s eb =
    let s' = load_der env (set_status s eb scheduled_status) eb in
    let (kept, s'', returned) = insert_block_loop env eb s'.scheduled s' in
    record s'' { scheduled = if returned then kept else insert_sorted (compare_start s'') kept eb }

unfoldable pub activate_block : Env → Schedule → ℕ → Schedule
activate_block env s eb =
    let started =
      device_response env (emit (set_status s eb active_status) (event_start eb)) eb
        event_started in
    emit (if (s.block eb).status == active_status then s else started)
      (poll eb env.active_poll_rate)

-- The active block `a` leaves the queue. `prev` is still `&s->active`, so `prev->next = next` makes
-- what stands behind `a` the whole queue.
unfoldable pub cut_active : Schedule → ℕ → ℕ → List ℕ → Schedule
cut_active s eb a next =
    let b = s.block a in
    let ended = record b { end = (s.block eb).start; status = superseded_status } in
    let cut = put_block (record s { active = next }) a ended in
    if b.status == active_status then emit cut (event_end a) else cut

unfoldable pub supersede_active : Env → Schedule → ℕ → ℕ → List ℕ → Schedule
supersede_active env s eb a next = device_response env (cut_active s eb a next) a event_superseded

-- A round of the loop: the schedule, and whether the function returns.
unfoldable pub insert_active_step : Env → Schedule → ℕ → ℕ → List ℕ → Schedule × Bool
insert_active_step env s eb a next =
    let (won, s') = block_supersede env s eb a in
    if won
    then (supersede_active env s' eb a next, false)
    else if (s'.block eb).der == 0
    then (device_response env (set_status s' eb superseded_status) eb event_superseded, true)
    else (s', false)

unfoldable pub insert_active_loop : Env → ℕ → List ℕ → Schedule → Schedule × Bool
insert_active_loop env eb [] s = (s, false)
insert_active_loop env eb (a ∷ next) s =
    let (s', returns) = insert_active_step env s eb a next in
    let rest = insert_active_loop env eb next s' in if returns then (s', true) else rest

-- The switch on the status that the server reports.
unfoldable pub start_active : Env → Schedule → ℕ → Schedule
start_active env s eb =
    let status = (env.event eb).current_status in
    if status == scheduled_status
    then set_status (if (env.event eb).is_subscribed then s else emit s (update eb)) eb
        active_wait_status
    else if status == active_status
    then activate_block env s eb
    else s

unfoldable pub insert_active : Env → Schedule → ℕ → Schedule
insert_active env s eb =
    let s' = load_der env s eb in
    let (s'', returned) = insert_active_loop env eb s'.active s' in
    let s''' = start_active env s'' eb in
    if returned
    then s''
    else record s''' { active = insert_sorted (compare_end s''') s'''.active eb }
