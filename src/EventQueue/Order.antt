-- ===== src/EventQueue/Order.antt =====
-- The order in which events leave the queue, and what `remove_event` takes out.

use epri_client.Prelude.{
  ℕ, ◌+◌, ◌^◌, ◌≤◌, ◌<◌, ◌≡◌, refl, inl, inr, ◌⊎◌, suc, arith, false, Option, none, some, List, [],
  ◌∷◌, All, ltb, leb, ◌==◌, Bool-cases, ◌⊎◌, leb→le, leb-false→lt,
}
use epri_client.LinkedList.{insert_sorted, is_gt}
use epri_client.Words.{IsClose, int_compare, int_compare-compare}
use epri_client.EventQueue.{
  Event, EventState, event_compare, insert_event, remove_by_data, remove_event, next_timed,
  next_immediate, next_event, queue_add,
}

-- Sorted by time.
abbrev pub IsTimed : List Event → Type 0
IsTimed [] = Unit
IsTimed (x ∷ xs) = All (λ y. x.time ≤ y.time) xs × IsTimed xs

gt_of_close : (e x : Event) → IsClose e.time x.time → is_gt (event_compare e x) ≡ ltb x.time e.time
unfolding event_compare
gt_of_close e x c = ground (arith, int_compare-compare e.time x.time c)

insert-All :
    (t : ℕ) (xs : List Event) (e : Event)
    → t ≤ e.time
    → All (λ y. t ≤ y.time) xs
    → All (λ y. t ≤ y.time) (insert_sorted event_compare xs e)
unfolding insert_sorted
insert-All t [] e h a = (h, tt)
insert-All t (x ∷ xs) e h (p, a) = elim (Bool-cases (is_gt (event_compare e x))) [
  | inl above ↦ rw above (p, insert-All t xs e h a)
  | inr below ↦ rw below (h, (p, a))
]

All-le : (s t : ℕ) (xs : List Event) → s ≤ t → All (λ y. t ≤ y.time) xs → All (λ y. s ≤ y.time) xs
All-le s t [] h a = tt
All-le s t (x ∷ xs) h (p, a) = (omega arith, All-le s t xs h a)

insert-IsTimed :
    (xs : List Event) (e : Event)
    → All (λ x. IsClose e.time x.time) xs
    → IsTimed xs
    → IsTimed (insert_sorted event_compare xs e)
unfolding insert_sorted
insert-IsTimed [] e c s = (tt, tt)
insert-IsTimed (x ∷ xs) e (cx, c) (least, s) =
    let test = gt_of_close e x cx in
    elim (Bool-cases (is_gt (event_compare e x))) [
      | inl above ↦ rw above (insert-All x.time xs e (ground arith) least, insert-IsTimed xs e c s)
      | inr below ↦
          let le : e.time ≤ x.time = ground arith in
          rw below ((le, All-le e.time x.time xs le least), (least, s))
    ]

-- Inserting an event keeps the timed events sorted by time, if its time is within 2 ^ 31 seconds of
-- theirs.
pub insert_event-IsTimed :
    (s : EventState) (item type time : ℕ)
    → All (λ x. IsClose time x.time) s.cur_event
    → IsTimed s.cur_event
    → IsTimed (insert_event s item type time).cur_event
unfolding insert_event
insert_event-IsTimed s item type time c h = elim (Bool-cases (time == 0)) [
  | inl now ↦ rw now h
  | inr later ↦
      rw later (insert-IsTimed s.cur_event (record { item = item; type = type; time = time }) c h)
]

far_is_not_above : (t u : ℕ) → t + 2 ^ 31 ≤ u → u < t + 2 ^ 32 → is_gt (int_compare u t) ≡ false
unfolding int_compare
far_is_not_above t u lo hi = ground arith

-- Without the premise the order is lost: an event 2 ^ 31 seconds or more, but less than 2 ^ 32,
-- behind the first one is put in front of it.
insert_event_far :
    (s : EventState) (e : Event) (rest : List Event) (item type time : ℕ)
    → s.cur_event ≡ e ∷ rest
    → e.time + 2 ^ 31 ≤ time
    → time < e.time + 2 ^ 32
    → (insert_event s item type time).cur_event
      ≡ record { item = item; type = type; time = time } ∷ e ∷ rest
unfolding insert_event insert_sorted event_compare
insert_event_far s e rest item type time q lo hi =
    let late : (time == 0) ≡ false = ground arith in
    rw (late, q, far_is_not_above e.time time lo hi) refl

-- What `next_event` may answer, the immediate events first and in the order of their insertion.
abbrev pub Answer : EventState → ℕ → Option Event × EventState → Type 0
Answer s now (some e, t) =
    ((s.im_event ≡ e ∷ t.im_event) × (t.cur_event ≡ s.cur_event))
    ⊎ ((s.im_event ≡ [])
        × (s.cur_event ≡ e ∷ t.cur_event)
        × (e.time ≤ now)
        × All (λ y. e.time ≤ y.time) t.cur_event)
Answer s now (none, t) =
    (s.im_event ≡ []) × (t.cur_event ≡ s.cur_event) × All (λ y. now < y.time) s.cur_event

next_timed-Answer :
    (s : EventState) (now : ℕ) (cur : List Event)
    → s.im_event ≡ []
    → s.cur_event ≡ cur
    → IsTimed cur
    → Answer s now (next_timed s now cur)
unfolding next_timed
next_timed-Answer s now [] i c h = (i, refl, rw c tt)
next_timed-Answer s now (e ∷ rest) i c (least, h) = elim (Bool-cases (leb e.time now)) [
  | inl due ↦ rw due (inr (i, c, leb→le _ _ due, least))
  | inr early ↦
      let late : now < e.time = leb-false→lt _ _ early in
      rw early (i, refl, rw c (late, All-le (suc now) e.time rest late least))
]

next_immediate-Answer :
    (s : EventState) (now : ℕ) (im : List Event)
    → s.im_event ≡ im
    → IsTimed s.cur_event
    → Answer s now (next_immediate s now im)
unfolding next_immediate
next_immediate-Answer s now [] i h = next_timed-Answer s now s.cur_event i refl h
next_immediate-Answer s now (e ∷ rest) i h = inl (i, refl)

-- `next_event` takes the oldest immediate event if there is one, and else a timed event that is due
-- and earliest. It answers that there is none only if no immediate event waits and every timed
-- event lies in the future. The timed events are sorted by time.
pub next_event-Answer :
    (s : EventState) (now : ℕ) → IsTimed s.cur_event → Answer s now (next_event s now)
unfolding next_event
next_event-Answer s now h = next_immediate-Answer s now s.im_event refl h

remove-insert_sorted :
    (xs : List Event) (e : Event)
    → remove_by_data (insert_sorted event_compare xs e) e.item ≡ remove_by_data xs e.item
unfolding remove_by_data insert_sorted
remove-insert_sorted [] e = ground arith
remove-insert_sorted (x ∷ xs) e = ground (arith, remove-insert_sorted xs e)

remove-queue_add :
    (xs : List Event) (e : Event)
    → remove_by_data (queue_add xs e) e.item ≡ remove_by_data xs e.item
unfolding remove_by_data queue_add
remove-queue_add [] e = ground arith
remove-queue_add (x ∷ xs) e = ground (arith, remove-queue_add xs e)

-- `remove_event` takes back whatever was inserted for the same data, immediate or timed: the queue
-- is as if the event had not been inserted.
pub remove_event-insert_event :
    (s : EventState) (item type time : ℕ)
    → remove_event (insert_event s item type time) item ≡ remove_event s item
unfolding insert_event remove_event
remove_event-insert_event s item type time =
    let e : Event = record { item = item; type = type; time = time } in
    elim (Bool-cases (time == 0)) [
      | inl now ↦ rw now (rw (remove-queue_add s.im_event e))
      | inr later ↦ rw later (rw (remove-insert_sorted s.cur_event e))
    ]
