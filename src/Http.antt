-- ===== src/Http.antt =====
-- http.c: the state of an HTTP connection, its queues, and the reception of messages.
-- The buffer is the list of the bytes that were received and not yet given up; `at` is `data - buffer`.
-- The connection below is a list of what it will deliver: an answer of `conn_read` is some bytes or none,
-- and one of `conn_write` the length that was written, or `none` for the -1 of a failure. `request_target` and `parse_host` (uri.c) are parameters: the
-- target, and the rest behind the host. The NULs that the code writes behind tokens are left out.
use epri_client.Prelude.{
  ℕ, zero, suc, ◌+◌, ◌-◌, ◌*◌, ◌^◌, Bool, true, false, not, ◌&&◌, ◌||◌, Option, none, some, List,
  [], ◌∷◌, ◌++◌, ltb, leb, ◌==◌, in_range, if◌then◌else◌, length, take, drop,
}
use epri_client.Util.{
  Bytes, streq, string_index, to_lower, Number, number_read, no_digits, signed_overflow, number,
}
use epri_client.EventQueue.{queue_add, queue_remove}
use epri_client.HttpParse.{token, token_sp, token_colon, ows}
pub mod Answers
pub mod Lines
pub mod Queues
pub mod Receive

pub data HttpState : Type 0 where
  http_start http_header http_data_state http_complete_state http_closed : HttpState

pub record HttpRequest : Type 0 where
  pub method : ℕ
  pub uri : Bytes
  pub context : Option ℕ

-- What the network gives and takes: the chunks that `conn_read` finds, whether the peer closed, and the
-- answers of `conn_write`, each a failure or the number of bytes there is room for; `sent` is what was
-- written.
pub record Network : Type 0 where
  pub chunks : List Bytes
  pub is_closed : Bool
  pub accepts : List (Option ℕ)
  pub sent : Bytes

abbrev pub buffer_size : ℕ
buffer_size = 2048

-- The flags are fields, and of the set `header` the one that is asked for: whether there was a
-- Content-Length.
pub record HttpConnection : Type 0 where
  pub buffer : Bytes
  pub at : ℕ
  pub end : ℕ
  pub content_length : Option ℕ
  pub state : HttpState
  pub method : ℕ
  pub request_method : ℕ
  pub body : Bool
  pub close : Bool
  pub client : Bool
  pub status : ℕ
  pub error : ℕ
  pub has_length : Bool
  pub context : Option ℕ
  pub content_type : Option Bytes
  pub media_range : Option Bytes
  pub location : Option Bytes
  pub send : List Bytes
  pub request : List HttpRequest
  pub network : Network

abbrev pub http_response : ℕ
http_response = 6

abbrev pub http_none : ℕ
http_none = 7

abbrev pub http_error_code : ℕ
http_error_code = 8

abbrev pub version : Bytes
version = b'H' ∷ b'T' ∷ b'T' ∷ b'P' ∷ b'/' ∷ b'1' ∷ b'.' ∷ b'1' ∷ []

-- `conn_write`: the length that was written, which may be a part of the data or nothing.
unfoldable pub conn_write : Network → Bytes → Option ℕ × Network
conn_write n s = answered n.accepts
  where
    answered : List (Option ℕ) → Option ℕ × Network
    answered [] = (none, n)
    answered (none ∷ more) = (none, record n { accepts = more })
    answered (some k ∷ more) =
        (some (length (take k s)), record n { accepts = more; sent = n.sent ++ take k s })

-- `conn_write (...) < 0`.
abbrev pub write_failed : Option ℕ → Bool
write_failed none = true
write_failed (some k) = false

-- `conn_write (...) > 0`.
abbrev pub wrote_some : Option ℕ → Bool
wrote_some none = false
wrote_some (some k) = ltb 0 k

-- The loop of `http_flush`: what is left of the queue, and the network.
unfoldable pub flush_loop : List Bytes → Network → List Bytes × Network
flush_loop [] n = ([], n)
flush_loop (s ∷ queue) n =
    let (written, n') = conn_write n s in
    let more = flush_loop queue n' in if wrote_some written then more else (s ∷ queue, n')

abbrev pub is_empty {ℓ} : {A : Type ℓ} → List A → Bool
is_empty [] = true
is_empty (_ ∷ _) = false

abbrev pub conn_close : Network → Network
conn_close n = record n { is_closed = true }

unfoldable pub http_flush : HttpConnection → HttpConnection
http_flush h =
    let (queue, n) = flush_loop h.send h.network in
    record h { send = queue; network = if is_empty queue && h.close then conn_close n else n }

unfoldable pub http_write : HttpConnection → Bytes → HttpConnection
http_write h s =
    let (written, n) = conn_write h.network s in
    let queued = record h { send = queue_add h.send s } in
    if not (is_empty h.send)
    then queued
    else if write_failed written
    then record queued { network = n }
    else record h { network = n }

unfoldable pub queue_request : HttpConnection → ℕ → Bytes → HttpConnection
queue_request c method uri = record c {
  request = queue_add c.request (record { method = method; uri = uri; context = none });
}

abbrev pub set_last : List HttpRequest → ℕ → List HttpRequest
set_last [] context = []
set_last (r ∷ []) context = record r { context = some context } ∷ []
set_last (r ∷ r' ∷ rest) context = r ∷ set_last (r' ∷ rest) context

unfoldable pub set_request_context : HttpConnection → ℕ → HttpConnection
set_request_context c context = record c { request = set_last c.request context }

unfoldable pub dequeue_request : HttpConnection → Option HttpRequest × HttpConnection
dequeue_request c = let (r, rest) = queue_remove c.request in (r, record c { request = rest })

-- The requests that had no response yet are returned.
unfoldable pub http_queued : HttpConnection → List HttpRequest × HttpConnection
http_queued h = (
  h.request,
  record h { send = []; request = []; state = http_closed; network = conn_close h.network },
)

unfoldable pub http_close : HttpConnection → HttpConnection
http_close h = (http_queued h).1

-- The text of `http_respond` has the date, so that it is a parameter.
unfoldable pub http_error : (ℕ → Bytes) → HttpConnection → ℕ → HttpConnection
http_error respond h status = http_close (http_write h (respond status))

abbrev pub is_closed : HttpState → Bool
is_closed http_closed = true
is_closed _ = false

unfoldable pub http_complete : HttpConnection → Bool
http_complete c = is_closed c.state || leb c.end (length c.buffer)

-- On a pointer `n` bytes behind the start of the buffer. A pointer behind what was received is a copy of
-- a negative length in C, and an empty buffer here; the end of a message is not in front of it.
unfoldable pub http_rebuffer : HttpConnection → ℕ → HttpConnection
http_rebuffer c n =
    if n == 0
    then c
    else record c { end = if c.end == 0 then 0 else c.end - n; buffer = drop n c.buffer; at = 0 }

-- `conn_read` of at most `room` bytes; an empty chunk is an answer of none.
unfoldable pub conn_read : List Bytes → ℕ → Bytes × List Bytes
conn_read [] room = ([], [])
conn_read ([] ∷ more) room = ([], more)
conn_read ((b ∷ c) ∷ more) room =
    if ltb room (length (b ∷ c))
    then (take room (b ∷ c), drop room (b ∷ c) ∷ more)
    else (b ∷ c, more)

unfoldable pub http_read : HttpConnection → ℕ × HttpConnection
http_read h =
    let (s, chunks) = conn_read h.network.chunks (buffer_size - length h.buffer - 1) in
    (
      length s,
      record h { buffer = h.buffer ++ s; network = record (h.network) { chunks = chunks } },
    )

abbrev pub buffer_full : HttpConnection → Bool
buffer_full h = length h.buffer + 1 == buffer_size

-- The loop of `http_data`, which reads until the message is there, the buffer is full, or no more
-- comes; a chunk for each round.
unfoldable pub data_loop : List Bytes → HttpConnection → ℕ × HttpConnection
data_loop [] c =
    if leb c.end (length c.buffer)
    then (c.end, record c { state = http_complete_state })
    else (length c.buffer, c)
data_loop (s ∷ more) c =
    let (n, c') = http_read c in
    let later = data_loop more c' in
    if leb c.end (length c.buffer)
    then (c.end, record c { state = http_complete_state })
    else if buffer_full c
    then (length c.buffer, c)
    else if n == 0
    then (length c'.buffer, c')
    else later

-- A message that the closing of the connection ends.
unfoldable pub closing_data : HttpConnection → ℕ × HttpConnection
closing_data c =
    let ended = if c.network.is_closed then record c { state = http_complete_state } else c in
    let (n, c') = http_read ended in (length c'.buffer, c')

-- The length of the content that is there, in the state HTTP_DATA; it stands at `at`.
unfoldable pub content_there : HttpConnection → ℕ × HttpConnection
content_there c =
    let (n, c') = if c.close then closing_data c else data_loop c.network.chunks c in
    (n - c'.at, c')

unfoldable pub http_data : HttpConnection → Option (ℕ × HttpConnection)
http_data c = in_data c.state
  where
    in_data : HttpState → Option (ℕ × HttpConnection)
    in_data http_data_state = some (content_there c)
    in_data _ = none
