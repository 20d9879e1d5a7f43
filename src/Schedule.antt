-- ===== src/Schedule.antt =====
-- schedule.c: the schedule of the events of one function set of an EndDevice.
-- A block is named by the mRID of its event, which is the key of the hash table `blocks`; the store
-- `block` holds the EventBlock behind each name, and the queues are lists of names. Times are
-- seconds since 1970, as natural numbers. What a handler asks of other modules is appended to
-- `out`, the newest first: it is the order of calls that the client observes.
use Prim.Native.Nat.{Ordering}
use epri_client.Prelude.{
  ℕ, zero, suc, ◌+◌, ◌-◌, ◌≤◌, ◌<◌, ◌≡◌, Bool, true, false, not, ◌&&◌, ◌||◌, List, [], ◌∷◌, ltb,
  leb, ◌==◌, in_range, if◌then◌else◌, bit_and,
}
use epri_client.Prelude.Int.{ℤ, pos, negsuc}
pub mod Controls
pub mod Disjoint
pub mod Expiry
pub mod Losses
pub mod Insert
pub mod Update
use epri_client.Words.{int_compare}

-- enum EventStatus; a block and an event hold it as a byte.
abbrev pub scheduled_status : ℕ
scheduled_status = 0

abbrev pub active_status : ℕ
active_status = 1

abbrev pub canceled_status : ℕ
canceled_status = 2

abbrev pub canceled_random_status : ℕ
canceled_random_status = 3

abbrev pub superseded_status : ℕ
superseded_status = 4

abbrev pub completed_status : ℕ
completed_status = 6

abbrev pub active_wait_status : ℕ
active_wait_status = 7

abbrev pub schedule_superseded_status : ℕ
schedule_superseded_status = 8

-- The members of enum ResponseType that the schedule sends.
pub data Response : Type 0 where
  event_received event_started event_completed event_canceled event_superseded event_expired :
      Response

-- What is read of an event and of its stub. `der_base` are the flags of DERControlBase.
pub record SeEvent : Type 0 where
  pub creation_time : ℕ
  pub start : ℕ
  pub duration : ℕ
  pub randomize_start : ℤ
  pub randomize_duration : ℤ
  pub current_status : ℕ
  pub response_required : ℕ
  pub is_der_control : Bool
  pub is_randomizable : Bool
  pub is_subscribed : Bool
  pub der_base : ℕ

pub record EventBlock : Type 0 where
  pub status : ℕ
  pub primacy : ℕ
  pub der : ℕ
  pub start : ℕ
  pub end : ℕ

-- The calls that the schedule makes: a response to the server, `insert_event` of a block with the
-- time 0, `remove_event`, `poll_resource` with the rate that was set, and `update_resource`.
pub data Effect : Type 0 where
  respond : ℕ → Response → Effect
  event_start event_end : ℕ → Effect
  remove_block_event : ℕ → Effect
  poll : ℕ → ℕ → Effect
  update : ℕ → Effect
  remove_schedule_event : Effect
  schedule_update : ℕ → Effect
  retry_update : ℕ → ℕ → Effect

pub record Schedule : Type 0 where
  pub next : ℕ
  pub known : ℕ → Bool
  pub block : ℕ → EventBlock
  pub scheduled : List ℕ
  pub active : List ℕ
  pub superseded : List ℕ
  pub out : List Effect

-- The events, the time that `se_time` returns throughout a handler, and the global `dut_strategy`.
pub record Env : Type 0 where
  pub event : ℕ → SeEvent
  pub time : ℕ
  pub dut_strategy : ℕ
  pub active_poll_rate : ℕ

abbrev pub update_at {ℓ} : {A : Type ℓ} → (ℕ → A) → ℕ → A → ℕ → A
update_at f k v j = if j == k then v else f j

abbrev pub put_block : Schedule → ℕ → EventBlock → Schedule
put_block s id b = record s { block = update_at s.block id b }

abbrev pub emit : Schedule → Effect → Schedule
emit s e = record s { out = e ∷ s.out }

abbrev pub set_status : Schedule → ℕ → ℕ → Schedule
set_status s id status = put_block s id (record (s.block id) { status = status })

-- The member of enum DUTStrategy that suppresses the response, or 0.
unfoldable pub skip_strategy : Response → ℕ
skip_strategy event_received = 1
skip_strategy event_started = 2
skip_strategy event_completed = 3
skip_strategy event_canceled = 4
skip_strategy event_superseded = 5
skip_strategy event_expired = 0

abbrev pub is_received : Response → Bool
is_received event_received = true
is_received _ = false

-- Bit 0 of `responseRequired` asks for EventReceived, bit 1 for every response.
unfoldable pub device_response : Env → Schedule → ℕ → Response → Schedule
unfolding skip_strategy
device_response env s id response =
    let strategy = skip_strategy response in
    let required = (env.event id).response_required in
    if not (strategy == 0) && env.dut_strategy == strategy
    then s
    else if (is_received response && not (bit_and required 1 == 0)) || not (bit_and required 2 == 0)
    then emit s (respond id response)
    else s

-- `b & ~a` on 32 bits.
unfoldable pub clear_bits : ℕ → ℕ → ℕ
clear_bits b a = bit_and b (0xffff_ffff - a)

abbrev pub set_der : Schedule → ℕ → ℕ → Schedule
set_der s id der = put_block s id (record (s.block id) { der = der })

-- A block of lower primacy prevails, and of the same primacy the one that was created later.
unfoldable pub prevails : Env → Schedule → ℕ → ℕ → Bool
prevails env s a b =
    let p = (s.block a).primacy in
    let q = (s.block b).primacy in
    (p == q && ltb (env.event b).creation_time (env.event a).creation_time) || ltb p q

-- Whether block `a` supersedes block `b`. The one of the two that loses keeps the controls that
-- the other has not.
unfoldable pub block_supersede : Env → Schedule → ℕ → ℕ → Bool × Schedule
unfolding clear_bits
block_supersede env s a b =
    let rest = clear_bits (s.block b).der (s.block a).der in
    if prevails env s a b
    then (if (s.block a).der == 0 then (true, s) else (rest == 0, set_der s b rest))
    else (false, set_der s a (clear_bits (s.block a).der (s.block b).der))

-- `t + offset`, for a sum that is not negative.
abbrev pub add_offset : ℕ → ℤ → ℕ
add_offset t (pos n) = t + n
add_offset t (negsuc n) = t - suc n

-- `start_offset` and `duration_offset` are the results of `randomize_start` and
-- `randomize_duration`, which call `rand`.
unfoldable pub new_block : SeEvent → ℤ → ℤ → ℕ → EventBlock
new_block ev start_offset duration_offset primacy =
    let start = add_offset ev.start (if ev.is_randomizable then start_offset else pos 0) in
    record {
      status = 0;
      primacy = primacy;
      der = 0;
      start = start;
      end =
          add_offset (start + ev.duration) (if ev.is_randomizable then duration_offset else pos 0);
    }

unfoldable pub compare_start : Schedule → ℕ → ℕ → Ordering
unfolding int_compare
compare_start s a b = int_compare (s.block a).start (s.block b).start

unfoldable pub compare_end : Schedule → ℕ → ℕ → Ordering
unfolding int_compare
compare_end s a b = int_compare (s.block a).end (s.block b).end
