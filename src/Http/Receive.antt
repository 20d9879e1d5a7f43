-- ===== src/Http/Receive.antt =====
-- http.c: lines, header fields and messages, as `http_receive` takes them from the buffer.
-- A line has no NUL; a text that has one is not modelled. A round of the loop of `http_receive` is
-- `receive_round`.
use epri_client.Prelude.{
  ℕ, zero, suc, ◌+◌, ◌-◌, Bool, true, false, not, ◌&&◌, ◌||◌, Option, none, some, List, [], ◌∷◌,
  ◌++◌, ltb, leb, ◌==◌, in_range, if◌then◌else◌, length, take, drop,
}
use epri_client.Util.{
  Bytes, streq, string_index, to_lower, Number, number_read, no_digits, signed_overflow, number,
}
use epri_client.HttpParse.{token, token_sp, token_colon, ows, hws}
use epri_client.Http.{
  HttpState, http_start, http_header, http_data_state, http_complete_state, http_closed,
  HttpRequest, HttpConnection, buffer_size, http_response, http_none, http_error_code, version,
  dequeue_request, http_close, http_error, http_rebuffer,
}

-- The place of the first CR LF.
unfoldable pub line_length : Bytes → Option ℕ
line_length [] = none
line_length (c ∷ []) = none
line_length (c ∷ d ∷ rest) =
    let later : Option ℕ = elim (line_length (d ∷ rest)) [ none ↦ none | some n ↦ some (n + 1) ] in
    if c == b'\r' && d == b'\n' then some 0 else later

abbrev pub after : ℕ → Option ℕ → Option ℕ
after n none = none
after n (some k) = some (n + k)

-- What `next_line` finds: the length of the line, what was read for it, and the chunks that are left.
pub record Line : Type 0 where
  pub found : Option ℕ
  pub read : Bytes
  pub chunks : List Bytes

abbrev pub read_before : Bytes → Line → Line
read_before s l = record l { read = s ++ l.read }

-- The loop of `next_line`: `fresh` is what it has not yet looked at, behind `seen` bytes, and `room` is
-- what the buffer can still take.
unfoldable pub line_loop : ℕ → Bytes → ℕ → List Bytes → Line
line_loop seen fresh room [] = record {
  found = after seen (line_length fresh);
  read = [];
  chunks = [];
}
line_loop seen fresh room (c ∷ more) =
    let here = length fresh + seen in
    let part = take room c in
    let whole = read_before c (line_loop here c (room - length c) more) in
    elim (line_length fresh) [
      | some k ↦ record { found = some (seen + k); read = []; chunks = c ∷ more }
      | none ↦
          if length c == 0
          then record { found = none; read = []; chunks = more }
          else if ltb room (length c)
          then record {
            found = after here (line_length part);
            read = part;
            chunks = drop room c ∷ more;
          }
          else whole
    ]

unfoldable pub find_line : HttpConnection → Line
find_line h = line_loop 0 (drop h.at h.buffer) (buffer_size - length h.buffer - 1) h.network.chunks

unfoldable pub received : HttpConnection → Line → HttpConnection
received h l = record h {
  buffer = h.buffer ++ l.read;
  network = record (h.network) { chunks = l.chunks };
}

-- The line and the place of the next one.
unfoldable pub next_line : HttpConnection → Option (Bytes × ℕ) × HttpConnection
next_line h =
    let l = find_line h in
    let h' = received h l in
    (elim l.found [ none ↦ none | some k ↦ some (take k (drop h.at h'.buffer), h.at + k + 2) ], h')

-- A round comes to another one, or to what `http_receive` returns.
pub data HttpRound : Type 0 where
  continue_at : HttpConnection → HttpRound
  received_message : ℕ → HttpConnection → HttpRound

abbrev pub close_connection : HttpConnection → HttpRound
close_connection c = received_message http_none (http_close c)

-- The three digits of a status line; a number that overflows is none.
unfoldable pub status_number : Number → Option ℕ
status_number (number_read n rest) = if leb n 999 then some n else none
status_number _ = none

unfoldable pub status_code : Option (Bytes × Bytes) → Option ℕ
status_code none = none
status_code (some (text, reason)) = status_number (number text)

unfoldable pub status_line : Bytes → Option ℕ
status_line line = elim (token_sp line) [
  | none ↦ none
  | some (text, rest) ↦ if streq text version then status_code (token_sp rest) else none
]

abbrev pub http_methods : List Bytes
http_methods =
    (b'G' ∷ b'E' ∷ b'T' ∷ [])
    ∷ (b'P' ∷ b'U' ∷ b'T' ∷ [])
    ∷ (b'P' ∷ b'O' ∷ b'S' ∷ b'T' ∷ [])
    ∷ (b'D' ∷ b'E' ∷ b'L' ∷ b'E' ∷ b'T' ∷ b'E' ∷ [])
    ∷ (b'H' ∷ b'E' ∷ b'A' ∷ b'D' ∷ [])
    ∷ []

-- The method and the target of a request line.
unfoldable pub request_line : Bytes → Option (Bytes × Bytes)
request_line line = elim (token_sp line) [
  | none ↦ none
  | some (method, rest) ↦ elim (token_sp rest) [
    | none ↦ none
    | some (target, last) ↦ if streq last version then some (method, target) else none
  ]
]

-- The fields that a message starts with.
abbrev pub start_message : HttpConnection → HttpConnection
start_message c = record c {
  close = false;
  end = 0;
  has_length = false;
  error = 0;
  content_type = none;
  media_range = none;
  body = true;
  content_length = none;
}

abbrev pub header_names : List Bytes
header_names =
    (b'h' ∷ b'o' ∷ b's' ∷ b't' ∷ [])
    ∷ (b'a' ∷ b'c' ∷ b'c' ∷ b'e' ∷ b'p' ∷ b't' ∷ [])
    ∷ (b'c' ∷ b'o' ∷ b'n' ∷ b't' ∷ b'e' ∷ b'n' ∷ b't' ∷ b'-' ∷ b't' ∷ b'y' ∷ b'p' ∷ b'e' ∷ [])
    ∷ (b'c' ∷ b'o' ∷ b'n' ∷ b't' ∷ b'e' ∷ b'n' ∷ b't' ∷ b'-' ∷ b'l' ∷ b'e' ∷ b'n' ∷ b'g' ∷ b't'
        ∷ b'h' ∷ [])
    ∷ (b'c' ∷ b'o' ∷ b'n' ∷ b'n' ∷ b'e' ∷ b'c' ∷ b't' ∷ b'i' ∷ b'o' ∷ b'n' ∷ [])
    ∷ (b'l' ∷ b'o' ∷ b'c' ∷ b'a' ∷ b't' ∷ b'i' ∷ b'o' ∷ b'n' ∷ [])
    ∷ []

-- Content-Length: a number that overflows is refused here, and is undefined in C.
unfoldable pub length_field : HttpConnection → Number → HttpConnection
length_field c (number_read n rest) =
    let counted = record c { end = n; has_length = true } in
    if length (ows rest) == 0
    then record counted { content_length = some n }
    else record counted { error = 400 }
length_field c no_digits = record c { error = 400; has_length = true }
length_field c signed_overflow = record c { error = 400; has_length = true }

unfoldable pub connection_field : HttpConnection → Option (Bytes × Bytes) → HttpConnection
connection_field c none = c
connection_field c (some (text, rest)) = record c {
  close = streq (to_lower text) (b'c' ∷ b'l' ∷ b'o' ∷ b's' ∷ b'e' ∷ []);
}

abbrev pub is_response : HttpConnection → Bool
is_response c = c.method == http_response

-- A response or a request without a body.
unfoldable pub has_no_body : HttpConnection → Bool
has_no_body c =
    (is_response c
      && (c.has_length && c.end == 0
          || in_range c.status 100 199
          || c.status == 204
          || c.status == 304))
    || (not (is_response c) && c.end == 0)

-- The parameters: whether a target is one, what `parse_host` leaves of a field, and the text of an error
-- response.
module _ (request_target : Bytes → Bool) (parse_host : Bytes → Bytes) (respond : ℕ → Bytes) where
  unfoldable pub answered_request : HttpConnection → ℕ → Option HttpRequest → HttpRound
  answered_request c next none = close_connection c
  answered_request c next (some r) =
      if request_target r.uri
      then continue_at (record c {
        context = r.context;
        method = http_response;
        request_method = r.method;
        state = http_header;
        at = next;
      })
      else close_connection c

  -- The status line of a response, which answers the oldest request.
  unfoldable pub response_start : HttpConnection → ℕ → Option ℕ → HttpRound
  response_start c next none = close_connection c
  response_start c next (some status) =
      let (r, c') = dequeue_request (record c { status = status }) in answered_request c' next r

  unfoldable pub request_start : HttpConnection → ℕ → Option (Bytes × Bytes) → HttpRound
  request_start c next none = received_message http_error_code (http_error respond c 400)
  request_start c next (some (method, target)) =
      let m = string_index method http_methods in
      if request_target target
      then continue_at (record c { request_method = m; method = m; state = http_header; at = next })
      else received_message http_error_code (http_error respond c 400)

  unfoldable pub start_round : HttpConnection → Bytes → ℕ → HttpRound
  start_round c [] next = continue_at (record c { at = next })
  start_round c (b ∷ line) next =
      let m = start_message c in
      if c.client
      then response_start m next (status_line (b ∷ line))
      else request_start m next (request_line (b ∷ line))

  unfoldable pub end_of_headers : HttpConnection → ℕ → HttpRound
  end_of_headers c next =
      let bare = record c { body = false; state = http_complete_state } in
      let closed = if c.end == 0 then true else c.close in
      let whole =
        if has_no_body c then bare else record c { state = http_data_state; close = closed } in
      if not (c.error == 0)
      then (if is_response c
          then close_connection c
          else received_message http_error_code (http_error respond c c.error))
      else received_message c.method (record whole { end = c.end + next; at = next })

  unfoldable pub header_field : HttpConnection → Option (Bytes × Bytes) → HttpConnection
  header_field c none = record c { error = 400 }
  header_field c (some (header, value)) =
      let i = string_index (to_lower header) header_names in
      let host = if length (ows (parse_host value)) == 0 then c else record c { error = 400 } in
      if i == 0
      then host
      else if i == 1
      then record c { media_range = some value }
      else if i == 2
      then record c { content_type = some value }
      else if i == 3
      then length_field c (number value)
      else if i == 4
      then connection_field c (token value)
      else if i == 5
      then record c { location = some value }
      else c

  unfoldable pub header_round : HttpConnection → Bytes → ℕ → HttpRound
  header_round c [] next = end_of_headers c next
  header_round c (b ∷ line) next =
      let c' =
        if hws b then record c { error = 400 } else header_field c (token_colon (b ∷ line)) in
      continue_at (record c' { at = next })

  unfoldable pub with_line :
      (HttpConnection → Bytes → ℕ → HttpRound) → Option (Bytes × ℕ) × HttpConnection → HttpRound
  with_line f (none, c) = received_message http_none c
  with_line f (some (line, next), c) = f c line next

  unfoldable pub complete_round : HttpConnection → HttpRound
  complete_round c =
      if c.close
      then received_message http_none (record c { state = http_closed })
      else continue_at (record (http_rebuffer c c.end) { state = http_start })

  unfoldable pub receive_in : HttpState → HttpConnection → HttpRound
  receive_in http_start c = with_line start_round (next_line c)
  receive_in http_header c = with_line header_round (next_line c)
  receive_in http_data_state c = received_message c.method c
  receive_in http_complete_state c = complete_round c
  receive_in http_closed c = received_message http_none c

  unfoldable pub receive_round : HttpConnection → HttpRound
  receive_round c = receive_in c.state c

  -- The loop; `none` is fuel used up.
  unfoldable pub http_receive : ℕ → HttpConnection → Option (ℕ × HttpConnection)
  http_receive zero c = none
  http_receive (suc rounds) c = elim (receive_round c) [
    | continue_at c' ↦ http_receive rounds c'
    | received_message code c' ↦ some (code, c')
  ]
