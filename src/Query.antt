-- ===== src/Query.antt =====
-- query.c: the query string of a request for a list resource.
-- The text is the list of the bytes from the pointer to the end of the buffer, its NUL among them;
-- a read behind the list is the result `overrun`.
use epri_client.Prelude.{
  ℕ, ◌+◌, ◌-◌, ◌*◌, ◌%◌, ◌^◌, Bool, true, false, Option, none, some, List, [], ◌∷◌, ltb, ◌==◌,
  if◌then◌else◌,
}
use epri_client.Util.{Bytes, digit}
pub mod Parse

pub record Query : Type 0 where
  pub after : ℕ
  pub start : ℕ
  pub limit : ℕ

-- A return of 1 with the query, a return of 0, a read behind the buffer, or an overflow of the
-- signed number, which C leaves undefined.
pub data Result : Type 0 where
  accepted : Query → Result
  refused : Result
  overrun : Result
  signed_overflow : Result

-- The states 0 to 4 of the machine.
pub data State : Type 0 where
  start_or_end name equals first_digit more_digits : State

-- The switch on the name: the query with the value, cut to the width of the field.
unfoldable pub assign : Query → ℕ → ℕ → Option Query
assign q p x =
    if p == b'a'
    then some (record q { after = x })
    else if p == b'l'
    then some (record q { limit = x % 2 ^ 8 })
    else if p == b's'
    then some (record q { start = x % 2 ^ 16 })
    else none

-- At the end of a parameter: go on, or refuse it.
abbrev pub assigned : Option Query → (Query → Result) → Result
assigned none go_on = refused
assigned (some q) go_on = go_on q

-- The rounds of the loop, with the query so far, the name and the number. At a NUL the state 4 goes
-- on to the state 5, which returns.
unfoldable pub query_loop : State → Query → ℕ → ℕ → Bytes → Result
query_loop _ q p x [] = overrun
query_loop start_or_end q p x (c ∷ rest) =
    let next = query_loop equals q c x rest in if c == 0 then accepted q else next
query_loop name q p x (c ∷ rest) = query_loop equals q c x rest
query_loop equals q p x (c ∷ rest) =
    let next = query_loop first_digit q p x rest in if c == b'=' then next else refused
query_loop first_digit q p x (c ∷ rest) =
    let next = query_loop more_digits q p (c - b'0') rest in if digit c then next else refused
query_loop more_digits q p x (c ∷ rest) =
    let x' = x * 10 + (c - b'0') in
    let next = query_loop more_digits q p x' rest in
    let parameter = assigned (assign q p x) (λ q'. query_loop name q' p x rest) in
    if c == b'&'
    then parameter
    else if c == 0
    then assigned (assign q p x) accepted
    else if digit c
    then (if ltb x' (2 ^ 63) then next else signed_overflow)
    else refused

-- A request with no query leaves the fields as they are.
unfoldable pub parse_query : Query → Option Bytes → Result
parse_query q none = accepted q
parse_query q (some text) =
    query_loop start_or_end (record { after = 0; start = 0; limit = 1 }) 0 0 text
