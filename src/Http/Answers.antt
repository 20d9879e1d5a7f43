-- ===== src/Http/Answers.antt =====
-- http.c: which request a response is given to.
use epri_client.Prelude.{
  ℕ, ◌≡◌, refl, sym, ◌∙◌, ◌⊎◌, inl, inr, Bool, true, false, Option, none, some, List, [], ◌∷◌,
  Bool-cases, if◌then◌else◌, ◌==◌, arith,
}
use mathlib.Core.Path.{subst}
use epri_client.Util.{Bytes, Number, number, number_read, no_digits, signed_overflow}
use epri_client.HttpParse.{token, hws, token_colon}
use epri_client.EventQueue.{queue_remove}
use epri_client.Http.{
  http_response, HttpRequest, HttpConnection, HttpState, http_start, http_header, http_data_state,
  http_complete_state, http_closed, http_close, http_queued, http_error, http_rebuffer,
  dequeue_request, http_error_code,
}
use epri_client.Http.Receive.{
  HttpRound, continue_at, received_message, receive_round, receive_in, start_round, header_round,
  with_line, next_line, received, complete_round, response_start, answered_request, header_field,
  length_field, connection_field, end_of_headers, start_message, status_line, has_no_body,
  is_response, close_connection, request_start, request_line,
}

-- No response begins: the requests that wait stay, and so do the context and the method of the request
-- that is being answered.
abbrev pub Kept : HttpConnection → HttpConnection → Type 0
Kept c c' =
    (c'.request ≡ c.request)
    × (c'.context ≡ c.context)
    × (c'.request_method ≡ c.request_method)
    × (c'.client ≡ c.client)

-- The connection is closed, and no request waits on it any more.
abbrev pub IsCut : HttpConnection → Type 0
IsCut c' = (c'.request ≡ []) × (c'.state ≡ http_closed) × (c'.network.is_closed ≡ true)

-- A response begins: the oldest request is taken from the queue, and the connection gets its context and
-- its method.
abbrev pub IsAnswer : HttpConnection → HttpConnection → Type 0
IsAnswer c c' =
    (r : HttpRequest) × (c.request ≡ r ∷ c'.request)
    × (c'.context ≡ r.context)
    × (c'.request_method ≡ r.method)
    × (c'.method ≡ http_response)
    × (c'.state ≡ http_header)

-- What a round does with the requests that wait for a response, by the state it begins in.
abbrev pub Answers : HttpState → HttpConnection → HttpRound → Type 0
Answers http_start c (continue_at c') = (Kept c c' × (c'.state ≡ http_start)) ⊎ IsAnswer c c'
Answers http_start c (received_message code c') = (Kept c c' × (c'.state ≡ http_start)) ⊎ IsCut c'
Answers _ c (continue_at c') = Kept c c'
Answers _ c (received_message code c') = Kept c c' ⊎ IsCut c'

if-Answers :
    (b : Bool) (s : HttpState) (c : HttpConnection) (x y : HttpRound)
    → Answers s c x
    → Answers s c y
    → Answers s c (if b then x else y)
if-Answers true s c x y h k = h
if-Answers false s c x y h k = k

if-Kept : (b : Bool) (c x y : HttpConnection) → Kept c x → Kept c y → Kept c (if b then x else y)
if-Kept true c x y h k = h
if-Kept false c x y h k = k

rebuffer-Kept : (c : HttpConnection) (n : ℕ) → Kept c (http_rebuffer c n)
unfolding http_rebuffer
rebuffer-Kept c n = (ground arith, ground arith, ground arith, ground arith)

length_field-Kept : (c : HttpConnection) (n : Number) → Kept c (length_field c n)
unfolding length_field
length_field-Kept c (number_read n rest) = (ground arith, ground arith, ground arith, ground arith)
length_field-Kept c no_digits = (refl, refl, refl, refl)
length_field-Kept c signed_overflow = (refl, refl, refl, refl)

connection_field-Kept :
    (c : HttpConnection) (o : Option (Bytes × Bytes)) → Kept c (connection_field c o)
unfolding connection_field
connection_field-Kept c none = (refl, refl, refl, refl)
connection_field-Kept c (some (text, rest)) = (refl, refl, refl, refl)

module _ (request_target : Bytes → Bool) (parse_host : Bytes → Bytes) (respond : ℕ → Bytes) where
  header_field-Kept :
      (c : HttpConnection) (o : Option (Bytes × Bytes))
      → Kept c (header_field request_target parse_host respond c o)
  unfolding header_field
  header_field-Kept c none = (refl, refl, refl, refl)
  header_field-Kept c (some (header, value)) =
      let (a, b, e, f) = length_field-Kept c (number value) in
      let (a', b', e', f') = connection_field-Kept c (token value) in
      (ground (arith, a, a'), ground (arith, b, b'), ground (arith, e, e'), ground (arith, f, f'))

  header_round-Answers :
      (c : HttpConnection) (line : Bytes) (next : ℕ)
      → Answers http_header c (header_round request_target parse_host respond c line next)
  unfolding header_round end_of_headers http_error http_close http_queued
  header_round-Answers c [] next = elim (Bool-cases (c.error == 0)) [
    | inl fine ↦ rw fine (
        inl (
          if-Kept (has_no_body c) c (record c { body = false; state = http_complete_state })
            (record c { state = http_data_state; close = if c.end == 0 then true else c.close })
            (refl, refl, refl, refl) (refl, refl, refl, refl)))
    | inr wrong ↦ rw wrong (
        if-Answers (is_response c) http_header c (close_connection c)
          (received_message http_error_code (http_error respond c c.error)) (inr (refl, refl, refl))
          (inr (refl, refl, refl)))
  ]
  header_round-Answers c (b ∷ line) next =
      if-Kept (hws b) c (record c { error = 400 }) _ (refl, refl, refl, refl)
        (header_field-Kept c (token_colon (b ∷ line)))

  answered_request-Answers :
      (c c' : HttpConnection) (next : ℕ) (r : HttpRequest)
      → c.request ≡ r ∷ c'.request
      → Answers http_start c (answered_request request_target parse_host respond c' next (some r))
  unfolding answered_request http_close http_queued
  answered_request-Answers c c' next r e =
      if-Answers (request_target r.uri) http_start c _ _ (inr (r, e, refl, refl, refl, refl))
        (inr (refl, refl, refl))

  dequeued-Answers :
      (c c' : HttpConnection) (next : ℕ) (queue : List HttpRequest)
      → c.request ≡ queue
      → Answers http_start c (
          answered_request request_target parse_host respond
            (record c' { request = (queue_remove queue).1 })
            next
            (queue_remove queue).0)
  unfolding queue_remove answered_request http_close http_queued
  dequeued-Answers c c' next [] e = inr (refl, refl, refl)
  dequeued-Answers c c' next (r ∷ rest) e =
      answered_request-Answers c (record c' { request = rest }) next r e

  response_start-Answers :
      (c c' : HttpConnection) (next : ℕ) (status : Option ℕ)
      → c'.request ≡ c.request
      → Answers http_start c (response_start request_target parse_host respond c' next status)
  unfolding response_start http_close http_queued dequeue_request
  response_start-Answers c c' next none e = inr (refl, refl, refl)
  response_start-Answers c c' next (some status) e =
      dequeued-Answers c (record c' { status = status }) next c'.request (sym e)

  start_round-Answers :
      (c c' : HttpConnection) (line : Bytes) (next : ℕ)
      → Kept c c'
      → c'.client ≡ true
      → c'.state ≡ http_start
      → Answers http_start c (start_round request_target parse_host respond c' line next)
  unfolding start_round
  start_round-Answers c c' [] next kept client e = inl (kept, e)
  start_round-Answers c c' (b ∷ line) next kept client e =
      subst
        (λ (client : Bool). Answers http_start c (
          if client
          then response_start request_target parse_host respond (start_message c') next
              (status_line (b ∷ line))
          else request_start request_target parse_host respond (start_message c') next
              (request_line (b ∷ line))))
        (sym client)
        (response_start-Answers c (start_message c') next (status_line (b ∷ line)) kept.0)

  with_start-Answers :
      (c : HttpConnection) (x : Option (Bytes × ℕ) × HttpConnection)
      → Kept c x.1
      → x.1.client ≡ true
      → x.1.state ≡ http_start
      → Answers http_start c (
          with_line request_target parse_host respond
            (start_round request_target parse_host respond)
            x)
  unfolding with_line
  with_start-Answers c (none, c') kept client e = inl (kept, e)
  with_start-Answers c (some (line, next), c') kept client e =
      start_round-Answers c c' line next kept client e

  behind_line :
      (c c' : HttpConnection) (x : HttpRound)
      → Kept c c'
      → Answers http_header c' x
      → Answers http_header c x
  behind_line c c' (continue_at d) (a, b, e, f) (a', b', e', f') = (a' ∙ a, b' ∙ b, e' ∙ e, f' ∙ f)
  behind_line c c' (received_message code d) (a, b, e, f) (inl (a', b', e', f')) =
      inl (a' ∙ a, b' ∙ b, e' ∙ e, f' ∙ f)
  behind_line c c' (received_message code d) k (inr cut) = inr cut

  with_header-Answers :
      (c : HttpConnection) (x : Option (Bytes × ℕ) × HttpConnection)
      → Kept c x.1
      → Answers http_header c (
          with_line request_target parse_host respond
            (header_round request_target parse_host respond)
            x)
  unfolding with_line
  with_header-Answers c (none, c') kept = inl kept
  with_header-Answers c (some (line, next), c') kept =
      behind_line c c' (header_round request_target parse_host respond c' line next) kept
        (header_round-Answers c' line next)

  receive_in-Answers :
      (state : HttpState) (c : HttpConnection)
      → c.client ≡ true
      → c.state ≡ state
      → Answers state c (receive_in request_target parse_host respond state c)
  unfolding receive_in next_line received complete_round
  receive_in-Answers http_start c client e =
      with_start-Answers c (next_line c) (refl, refl, refl, refl) client e
  receive_in-Answers http_header c client e =
      with_header-Answers c (next_line c) (refl, refl, refl, refl)
  receive_in-Answers http_data_state c client e = inl (refl, refl, refl, refl)
  receive_in-Answers http_complete_state c client e =
      if-Answers c.close http_complete_state c _ _ (inl (refl, refl, refl, refl))
        (rebuffer-Kept c c.end)
  receive_in-Answers http_closed c client e = inl (refl, refl, refl, refl)

  -- On the connection of a client, a round of `http_receive` that begins in the state HTTP_START either
  -- stays in this state with the requests, the context and the method as they were, or takes the
  -- oldest request out of the queue, gives its context and method to the connection and goes on to the
  -- headers, or closes the connection, and then no request waits. In every other state a round that
  -- goes on keeps the requests, the context and the method, and one that returns keeps them or has
  -- closed the connection.
  pub receive_round-Answers :
      (c : HttpConnection)
      → c.client ≡ true
      → Answers c.state c (receive_round request_target parse_host respond c)
  unfolding receive_round
  receive_round-Answers c client = receive_in-Answers c.state c client refl
