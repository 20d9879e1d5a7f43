-- ===== src/Uri.antt =====
-- uri.c: URIs, and hex4 of address.c.
-- The code decodes a URI in its buffer, so that a part of it is a list of its own here, up to the first
-- NUL. An address is a number; parse_address, which needs the sockets' types, is a parameter.
use epri_client.Prelude.{
  ℕ, zero, suc, ◌+◌, ◌-◌, ◌*◌, Bool, true, false, not, ◌&&◌, ◌||◌, Option, none, some, List, [],
  ◌∷◌, ◌++◌, ltb, ◌==◌, in_range, if◌then◌else◌, length, is_some,
}
use epri_client.Util.{
  Bytes, alpha, digit, ws, streq, Number, number_read, no_digits, signed_overflow, number,
}
use epri_client.Exi.Strings.{c_string}
pub mod Host
pub mod Path

pub record Uri : Type 0 where
  pub scheme : Option Bytes
  pub name : Option Bytes
  pub path : Option Bytes
  pub query : Option Bytes
  pub host : Option ℕ
  pub port : ℕ

unfoldable pub hex4 : ℕ → Option ℕ
hex4 c =
    if in_range c b'0' b'9'
    then some (c - b'0')
    else if in_range c b'a' b'f'
    then some (c - b'a' + 10)
    else if in_range c b'A' b'F'
    then some (c - b'A' + 10)
    else none

unfoldable pub plain : ℕ → Bool
plain c =
    alpha c
    || in_range c b'&' b';'
    || c == b'='
    || c == b'!'
    || c == b'$'
    || c == b'@'
    || c == b'_'
    || c == b'~'

abbrev pub two_digits : Option ℕ → Option ℕ → Bytes → Option (ℕ × Bytes)
two_digits (some x) (some y) rest = some (x * 16 + y, rest)
two_digits _ _ rest = none

unfoldable pub escaped : Bytes → Option (ℕ × Bytes)
escaped (a ∷ b ∷ rest) = two_digits (hex4 a) (hex4 b) rest
escaped _ = none

-- The character and what is behind it.
unfoldable pub pchar : Bytes → Option (ℕ × Bytes)
pchar [] = none
pchar (c ∷ rest) = if plain c then some (c, rest) else if c == b'%' then escaped rest else none

-- The loop of `parse_host`, with the bytes of the last character that are still to pass over: the name
-- and what is behind it.
unfoldable pub name_loop : ℕ → Bytes → Bytes → Bytes × Bytes
name_loop skip name [] = (name, [])
name_loop (suc skip) name (c ∷ rest) = name_loop skip name rest
name_loop zero name (c ∷ rest) =
    let decoded : Bytes × Bytes = elim (pchar (c ∷ rest)) [
      | none ↦ (name, c ∷ rest)
      | some (x, next) ↦ name_loop (length rest - length next) (name ++ x ∷ []) rest
    ] in
    if c == b'@' || c == b':' then (name, c ∷ rest) else decoded

abbrev pub with_name : Uri → Bytes → Uri
with_name u [] = u
with_name u (c ∷ name) = record u { name = some (c_string (c ∷ name)) }

unfoldable pub port_number : Uri → Number → Option (Uri × Bytes)
port_number u (number_read n rest) = some (record u { port = n }, rest)
port_number u no_digits = none
port_number u signed_overflow = none

-- `number_q`; `none` is a number that overflows.
unfoldable pub port_text : Uri → Bytes → Option (Uri × Bytes)
port_text u [] = some (u, [])
port_text u (c ∷ rest) = if digit c then port_number u (number (c ∷ rest)) else some (u, c ∷ rest)

unfoldable pub parse_port : Uri × Bytes → Option (Uri × Bytes)
parse_port (u, []) = some (u, [])
parse_port (u, c ∷ rest) = if c == b':' then port_text u rest else some (u, c ∷ rest)

-- What the loops of the path and of the query come to: the decoded text and what is behind it.
unfoldable pub query_loop : ℕ → Bytes → Bytes → Option (Bytes × Bytes)
query_loop skip query [] = some (query, [])
query_loop (suc skip) query (c ∷ rest) = query_loop skip query rest
query_loop zero query (c ∷ rest) =
    let same = query_loop 0 (query ++ c ∷ []) rest in
    let decoded : Option (Bytes × Bytes) = elim (pchar (c ∷ rest)) [
      | none ↦ none
      | some (x, next) ↦ query_loop (length rest - length next) (query ++ x ∷ []) rest
    ] in
    if c == b'/' || c == b'?' then same else if ws c then some (query, c ∷ rest) else decoded

unfoldable pub with_query : Uri → Bytes → Option (Bytes × Bytes) → Option (Uri × Bytes)
with_query u path none = none
with_query u path (some (query, rest)) =
    some (record u { path = some (c_string path); query = some (c_string query) }, rest)

-- The states 5 to 7.
unfoldable pub path_loop : Uri → ℕ → Bytes → Bytes → Option (Uri × Bytes)
path_loop u skip path [] = some (record u { path = some (c_string path) }, [])
path_loop u (suc skip) path (c ∷ rest) = path_loop u skip path rest
path_loop u zero path (c ∷ rest) =
    let same = path_loop u 0 (path ++ c ∷ []) rest in
    let decoded : Option (Uri × Bytes) = elim (pchar (c ∷ rest)) [
      | none ↦ none
      | some (x, next) ↦ path_loop u (length rest - length next) (path ++ x ∷ []) rest
    ] in
    if c == b'/'
    then same
    else if c == b'?'
    then with_query u path (query_loop 0 [] rest)
    else if ws c
    then some (record u { path = some (c_string path) }, c ∷ rest)
    else decoded

abbrev http_name : Bytes
http_name = b'h' ∷ b't' ∷ b't' ∷ b'p' ∷ []

abbrev https_name : Bytes
https_name = b'h' ∷ b't' ∷ b't' ∷ b'p' ∷ b's' ∷ []

unfoldable pub with_scheme : Uri → Bytes → Uri
with_scheme u s =
    let port = if streq s http_name then 80 else if streq s https_name then 443 else u.port in
    record u { scheme = some s; port = port }

module _ (parse_address : ℕ → Bytes → Option (ℕ × Bytes)) where
  unfoldable pub parse_host : Uri → Bytes → Option (Uri × Bytes)
  parse_host u text = elim (parse_address u.port text) [
    | some (address, rest) ↦ parse_port (record u { host = some address }, rest)
    | none ↦ let (name, rest) = name_loop 0 [] text in parse_port (with_name u name, rest)
  ]

  unfoldable pub path_behind : Option (Uri × Bytes) → Option (Uri × Bytes)
  path_behind none = none
  path_behind (some (u, rest)) = path_loop u 0 [] rest

  -- State 3, behind one `/`.
  unfoldable pub authority : Uri → Bytes → Option (Uri × Bytes)
  authority u [] = path_loop u 0 [] (b'/' ∷ [])
  authority u (c ∷ rest) =
      if c == b'/' then path_behind (parse_host u rest) else path_loop u 0 [] (b'/' ∷ c ∷ rest)

  -- State 2, behind the scheme.
  unfoldable pub hier_part : Uri → Bytes → Option (Uri × Bytes)
  hier_part u [] = path_loop u 0 [] []
  hier_part u (c ∷ rest) = if c == b'/' then authority u rest else path_loop u 0 [] (c ∷ rest)

  -- State 1.
  unfoldable pub scheme_loop : Uri → Bytes → Bytes → Option (Uri × Bytes)
  scheme_loop u s [] = none
  scheme_loop u s (c ∷ rest) =
      let more = scheme_loop u (s ++ c ∷ []) rest in
      if c == b':'
      then hier_part (with_scheme u s) rest
      else if alpha c || digit c || c == b'+' || c == b'-' || c == b'.'
      then more
      else none

  -- From the state 0 on.
  unfoldable pub parse_reference : Uri → Bytes → Option (Uri × Bytes)
  parse_reference u [] = none
  parse_reference u (c ∷ rest) =
      if c == b'/'
      then (if is_some u.scheme then authority u rest else none)
      else if alpha c
      then scheme_loop u (c ∷ []) rest
      else none

  abbrev cleared : Uri → Uri
  cleared u = record u { name = none; path = none; query = none; host = none }

  -- In the state 0, or in the state 5 where it is known that a path comes.
  unfoldable pub parse_uri : Uri → Bool → Bytes → Option (Uri × Bytes)
  parse_uri u at_path text =
      if at_path then path_loop (cleared u) 0 [] text else parse_reference (cleared u) text

  unfoldable pub uri_parse : Uri → Bytes → ℕ → Bool
  uri_parse u href n = if ltb n (length href) then false else is_some (parse_uri u false href)

  -- http_parse.c: the target of a request, of at most 255 bytes.
  unfoldable pub request_target : Uri → Bytes → Option Uri
  request_target u text =
      let parsed = parse_uri u (starts_path text) text in
      if ltb 255 (length text) then none else uri_of parsed
    where
      starts_path : Bytes → Bool
      starts_path [] = false
      starts_path (c ∷ rest) = c == b'/'

      uri_of : Option (Uri × Bytes) → Option Uri
      uri_of none = none
      uri_of (some (v, rest)) = some v
