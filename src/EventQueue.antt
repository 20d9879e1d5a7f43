-- ===== src/EventQueue.antt =====
-- event.c and queue.c: the timed event queue of the client.
-- Events for time 0 stand in the immediate queue, the others in a list sorted by time. An event is
-- its data pointer, type and time. A queue is the sequence of its links from `first` on; `last`, the
-- pointer to the last of them, is not stored beside it.
use Prim.Native.Nat.{Ordering}
use epri_client.Prelude.{
  ℕ, zero, suc, ◌+◌, ◌-◌, ◌≤◌, Bool, true, false, not, Option, none, some, List, [], ◌∷◌, ◌++◌, ltb,
  leb, ◌==◌, if◌then◌else◌,
}
use epri_client.LinkedList.{insert_sorted}
use epri_client.Words.{int_compare}
pub mod Order

pub record Event : Type 0 where
  pub item : ℕ
  pub type : ℕ
  pub time : ℕ

-- `queue_add` behind the last link.
unfoldable pub queue_add {ℓ} : {A : Type ℓ} → List A → A → List A
queue_add q item = q ++ item ∷ []

unfoldable pub queue_peek {ℓ} : {A : Type ℓ} → List A → Option A
queue_peek [] = none
queue_peek (x ∷ rest) = some x

-- The item taken, and the queue without it.
unfoldable pub queue_remove {ℓ} : {A : Type ℓ} → List A → Option A × List A
queue_remove [] = (none, [])
queue_remove (x ∷ rest) = (some x, rest)

pub record EventState : Type 0 where
  pub cur_event : List Event
  pub im_event : List Event
  pub timer : ℕ

unfoldable pub event_compare : Event → Event → Ordering
unfolding int_compare
event_compare x y = int_compare x.time y.time

unfoldable pub insert_event : EventState → ℕ → ℕ → ℕ → EventState
insert_event s item type time =
    let e : Event = record { item = item; type = type; time = time } in
    if time == 0
    then record s { im_event = queue_add s.im_event e }
    else record s { cur_event = insert_sorted event_compare s.cur_event e }

unfoldable pub remove_by_data : List Event → ℕ → List Event
remove_by_data [] item = []
remove_by_data (e ∷ rest) item =
    let more = remove_by_data rest item in if e.item == item then more else e ∷ more

unfoldable pub remove_event : EventState → ℕ → EventState
remove_event s item = record s {
  cur_event = remove_by_data s.cur_event item;
  im_event = remove_by_data s.im_event item;
}

-- The event that is due at `now`, if any. `timer` is the time set by `set_timer`, 0 for off.
unfoldable pub next_timed : EventState → ℕ → List Event → Option Event × EventState
next_timed s now [] = (none, record s { timer = 0 })
next_timed s now (e ∷ rest) =
    if leb e.time now
    then (some e, record s { cur_event = rest })
    else (none, record s { timer = e.time - now })

unfoldable pub next_immediate : EventState → ℕ → List Event → Option Event × EventState
unfolding next_timed
next_immediate s now (e ∷ rest) = (some e, record s { im_event = rest })
next_immediate s now [] = next_timed s now s.cur_event

unfoldable pub next_event : EventState → ℕ → Option Event × EventState
unfolding next_immediate
next_event s now = next_immediate s now s.im_event
