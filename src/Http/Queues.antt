-- ===== src/Http/Queues.antt =====
-- http.c: what is sent on a connection, and in which order.
use epri_client.Prelude.{
  ℕ, zero, suc, ◌≤◌, ◌≡◌, refl, sym, ◌∙◌, ap, arith, ◌&&◌, Bool, true, false, Option, none, some,
  List, [], ◌∷◌, ◌++◌, append-nil, append_assoc, All, length, take, if◌then◌else◌, lt→ltb,
}
use mathlib.Core.Path.{subst}
use epri_client.Util.{Bytes}
use epri_client.EventQueue.{queue_add}
use epri_client.Http.{
  Network, HttpConnection, conn_write, flush_loop, is_empty, http_flush, http_write, conn_close,
  wrote_some, suc, ltb,
}

-- The bytes of the messages of a queue.
abbrev pub bytes_of : List Bytes → Bytes
bytes_of [] = []
bytes_of (s ∷ queue) = s ++ bytes_of queue

bytes_of-append :
    (queue : List Bytes) (s : Bytes) → bytes_of (queue ++ s ∷ []) ≡ bytes_of queue ++ s
bytes_of-append [] s = append-nil s
bytes_of-append (q ∷ queue) s =
    ap (λ (l : Bytes). q ++ l) (bytes_of-append queue s) ∙ sym (append_assoc q (bytes_of queue) s)

-- What the network took, and what waits behind it.
abbrev pub all_sent : HttpConnection → Bytes
all_sent h = h.network.sent ++ bytes_of h.send

-- An answer that is a failure, or has room for every message of at most `limit` bytes.
abbrev pub TakesWhole : ℕ → Option ℕ → Type 0
TakesWhole limit none = Unit
TakesWhole limit (some k) = limit ≤ k

take_whole : (s : Bytes) (k : ℕ) → length s ≤ k → take k s ≡ s
take_whole [] zero h = refl
take_whole [] (suc k) h = refl
take_whole (c ∷ s) zero h = absurd (omega arith)
take_whole (c ∷ s) (suc k) h = ap (λ (l : Bytes). c ∷ l) (take_whole s k (omega arith))

module _ (limit : ℕ) where
  abbrev Takes : Network → Type 0
  Takes n = All (TakesWhole limit) n.accepts

  -- What an answer of `conn_write` means for the data that was sent.
  abbrev WriteLaw : Network → Bytes → Option ℕ × Network → Type 0
  WriteLaw n s (none, n') = (n'.sent ≡ n.sent) × Takes n'
  WriteLaw n s (some k, n') = (n'.sent ≡ n.sent ++ s) × (k ≡ length s) × Takes n'

  conn_write-law :
      (n : Network) (s : Bytes) → length s ≤ limit → Takes n → WriteLaw n s (conn_write n s)
  unfolding conn_write
  conn_write-law n s fits takes = split n.accepts refl takes
    where
      split :
          (l : List (Option ℕ))
          → n.accepts ≡ l
          → All (TakesWhole limit) l
          → WriteLaw n s (conn_write n s)
      split [] e t = rw e (refl, tt)
      split (none ∷ l) e (a, t) = rw e (refl, t)
      split (some k ∷ l) e (a, t) =
          let whole : take k s ≡ s = take_whole s k (omega arith) in rw (e, whole) (refl, refl, t)

  -- What the network has and what waits, for a flush.
  abbrev Flushed : Network → List Bytes → List Bytes × Network → Type 0
  Flushed n queue x =
      (x.1.sent ++ bytes_of x.0 ≡ n.sent ++ bytes_of queue)
      × Takes x.1
      × All (λ m. length m ≤ limit) x.0

  flush_behind :
      (n : Network) (s : Bytes) (queue : List Bytes) (x : Option ℕ × Network)
      → length s ≤ limit
      → All (λ m. length m ≤ limit) queue
      → WriteLaw n s x
      → ((n' : Network) → Takes n' → Flushed n' queue (flush_loop queue n'))
      → Flushed n (s ∷ queue) (if wrote_some x.0 then flush_loop queue x.1 else (s ∷ queue, x.1))
  flush_behind n s queue (none, n') fits all (e, t) later =
      (ap (λ (l : Bytes). l ++ bytes_of (s ∷ queue)) e, t, (fits, all))
  flush_behind n [] queue (some zero, n') fits all (e, k, t) later =
      (ap (λ (l : Bytes). l ++ bytes_of queue) (e ∙ append-nil n.sent), t, (fits, all))
  flush_behind n [] queue (some (suc k), n') fits all (e, k', t) later = absurd (omega arith)
  flush_behind n (c ∷ s) queue (some zero, n') fits all (e, k', t) later = absurd (omega arith)
  flush_behind n (c ∷ s) queue (some (suc k), n') fits all (e, k', t) later =
      let (order, takes, rest) = later n' t in
      let positive : ltb 0 (suc k) ≡ true = lt→ltb 0 (suc k) (omega arith) in
      rw positive (
        order
            ∙ ap (λ (l : Bytes). l ++ bytes_of queue) e
            ∙ append_assoc n.sent (c ∷ s) (bytes_of queue),
        takes,
        rest,
      )

  flush_loop-Flushed :
      (queue : List Bytes) (n : Network)
      → All (λ m. length m ≤ limit) queue
      → Takes n
      → Flushed n queue (flush_loop queue n)
  unfolding flush_loop
  flush_loop-Flushed [] n fits t = (refl, t, fits)
  flush_loop-Flushed (s ∷ queue) n (fits, all) t =
      flush_behind n s queue (conn_write n s) fits all (conn_write-law n s fits t)
        λ n' t'. flush_loop-Flushed queue n' all t'

  -- The network refuses a message or takes the whole of it, and no message that waits is longer than
  -- what it takes.
  pub record IsSending (h : HttpConnection) : Type 0 where
    pub takes : Takes h.network
    pub fits : All (λ m. length m ≤ limit) h.send

  closed_network :
      (b : Bool) (n : Network)
      → ((if b then conn_close n else n).sent ≡ n.sent)
        × ((if b then conn_close n else n).accepts ≡ n.accepts)
  closed_network true n = (refl, refl)
  closed_network false n = (refl, refl)

  -- A step sends or keeps the bytes `gained` behind all others, and leaves a connection that sends.
  abbrev pub Sends : HttpConnection → Bytes → HttpConnection → Type 0
  Sends h gained h' = IsSending h' × (all_sent h' ≡ all_sent h ++ gained)

  http_flush-Sends : (h : HttpConnection) → IsSending h → Sends h [] (http_flush h)
  unfolding http_flush
  http_flush-Sends h sending =
      let (order, takes, fits) = flush_loop-Flushed h.send h.network sending.fits sending.takes in
      let (sent, accepts) =
        closed_network (is_empty (flush_loop h.send h.network).0 && h.close)
          (flush_loop h.send h.network).1 in
      (
        record { takes = rw accepts takes; fits = fits },
        ap (λ (l : Bytes). l ++ bytes_of (flush_loop h.send h.network).0) sent
            ∙ order
            ∙ sym (append-nil (all_sent h)),
      )

  All-queue_add :
      (queue : List Bytes) (s : Bytes)
      → All (λ m. length m ≤ limit) queue
      → length s ≤ limit
      → All (λ m. length m ≤ limit) (queue_add queue s)
  unfolding queue_add
  All-queue_add [] s h k = (k, tt)
  All-queue_add (q ∷ queue) s (a, h) k = (a, All-queue_add queue s h k)

  write_split :
      (h : HttpConnection) (s : Bytes) (queue : List Bytes) (x : Option ℕ × Network)
      → h.send ≡ queue
      → conn_write h.network s ≡ x
      → length s ≤ limit
      → IsSending h
      → WriteLaw h.network s x
      → Sends h s (http_write h s)
  unfolding http_write queue_add
  write_split h s (q ∷ queue) x e ex fits sending law =
      let waiting : All (λ m. length m ≤ limit) (q ∷ queue) =
        subst (λ (l : List Bytes). All (λ m. length m ≤ limit) l) e sending.fits in
      let all = All-queue_add (q ∷ queue) s waiting fits in
      rw e (
        record { takes = sending.takes; fits = all },
        ap (λ (l : Bytes). h.network.sent ++ l) (bytes_of-append (q ∷ queue) s)
            ∙ sym (append_assoc h.network.sent (bytes_of (q ∷ queue)) s),
      )
  write_split h s [] (some k, n') e ex fits sending (sent, whole, takes) =
      rw (e, ex)
        (
          record { takes = takes; fits = tt },
          append-nil n'.sent ∙ sent ∙ ap (λ (l : Bytes). l ++ s) (sym (append-nil h.network.sent)),
        )
  write_split h s [] (none, n') e ex fits sending (sent, takes) =
      rw (e, ex)
        (
          record { takes = takes; fits = (fits, tt) },
          ap (λ (l : Bytes). l ++ (s ++ [])) sent
              ∙ ap (λ (l : Bytes). h.network.sent ++ l) (append-nil s)
              ∙ ap (λ (l : Bytes). l ++ s) (sym (append-nil h.network.sent)),
        )

  -- While the network answers every write with a failure or has room for `limit` bytes, and no message
  -- is longer than that, messages reach it in the order in which they are written, none twice and
  -- none left out: the bytes that were sent and those that wait, taken together, gain the new message
  -- at their end when one is written, and stay as they are when the queue is flushed; both leave a
  -- connection for which this holds again.
  pub http_write-http_flush :
      (h : HttpConnection) (s : Bytes)
      → IsSending h
      → length s ≤ limit
      → Sends h s (http_write h s) × Sends h [] (http_flush h)
  http_write-http_flush h s sending fits = (
    write_split h s h.send (conn_write h.network s) refl refl fits sending
        (conn_write-law h.network s fits sending.takes),
    http_flush-Sends h sending,
  )
