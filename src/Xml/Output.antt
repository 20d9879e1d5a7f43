-- ===== src/Xml/Output.antt =====
-- xml_output.c: the driver `xml_output` for output.c.
-- `XmlWriter` has the bytes from `buffer` to `ptr`, the size of the buffer, and the fields of the output
-- that only xml_output.c uses. `first` stands in the output itself.
use epri_client.Prelude.{
  ℕ, zero, suc, ◌+◌, ◌-◌, ◌*◌, ◌/◌, ◌%◌, ◌^◌, Bool, true, false, not, ◌&&◌, ◌||◌, Option, none,
  some, [], ◌∷◌, ◌++◌, ltb, leb, ◌==◌, if◌then◌else◌, bit_and, bit_xor, length, get_or, replicate,
  take,
}
use epri_client.Prelude.Int.{ℤ, pos, negsuc}
use epri_client.Util.{Bytes}
use epri_client.Utf8.{Decoded, char, utf8_char}
use epri_client.Schema.{
  Schema, entry, se_name, is_simple, st_simple, xs_string, xs_boolean, xs_hex_binary, xs_any_uri,
}
use epri_client.Parser.{Pointer, Value, Memory, as_number, declared}
use epri_client.Exi.Output.{as_text, as_integer}
use epri_client.Output.{
  Output, OutputDriver, OutputEvent, ee_event, at_event, se_simple, se_complex,
}

pub record XmlWriter : Type 0 where
  pub bytes : Bytes
  pub size : ℕ
  pub is_open : Bool
  pub indent : ℕ

abbrev pub with_bytes : XmlWriter → Bytes → XmlWriter
with_bytes w s = record w { bytes = s }

-- `end - ptr`
abbrev pub room : XmlWriter → ℕ
room w = w.size - length w.bytes

unfoldable pub output_char : XmlWriter → ℕ → Bool × XmlWriter
output_char w c =
    if ltb (length w.bytes + 1) w.size then (true, with_bytes w (w.bytes ++ c ∷ [])) else (false, w)

-- What is written for a character, whose bytes are `own`.
unfoldable pub escape : ℕ → Bytes → Bytes
escape c own =
    if c == b'<'
    then b'&' ∷ b'l' ∷ b't' ∷ b';' ∷ []
    else if c == b'>'
    then b'&' ∷ b'g' ∷ b't' ∷ b';' ∷ []
    else if c == b'&'
    then b'&' ∷ b'a' ∷ b'm' ∷ b'p' ∷ b';' ∷ []
    else if c == 34
    then b'&' ∷ b'q' ∷ b'u' ∷ b'o' ∷ b't' ∷ b';' ∷ []
    else own

-- What `output_escaped` comes to: the bytes, too many of them, or a step from the null pointer that
-- `utf8_char` gives.
pub data Escaped : Type 0 where
  escaped : Bytes → Escaped
  no_room no_character : Escaped

abbrev pub put_before : Bytes → Escaped → Escaped
put_before s (escaped more) = escaped (s ++ more)
put_before s no_room = no_room
put_before s no_character = no_character

abbrev pub char_answer : Decoded → Option (ℕ × Bytes)
char_answer (char c rest) = some (c, rest)
char_answer _ = none

-- The loop, with the bytes of the last character that are still to pass over and the room that is left.
unfoldable pub escape_loop : ℕ → ℕ → Bytes → Escaped
escape_loop skip left [] = escaped []
escape_loop (suc skip) left (c ∷ rest) = escape_loop skip left rest
escape_loop zero left (c ∷ rest) = elim (char_answer (utf8_char (c ∷ rest))) [
  | none ↦ no_character
  | some (code, next) ↦
      let skip = length rest - length next in
      let s = escape code (take (suc skip) (c ∷ rest)) in
      let more = escape_loop skip (left - length s) rest in
      if ltb (length s) left then put_before s more else no_room
]

unfoldable pub escaped_answer : XmlWriter → Escaped → Bool × XmlWriter
escaped_answer w (escaped s) = (true, with_bytes w (w.bytes ++ s))
escaped_answer w no_room = (false, w)
escaped_answer w no_character = (false, w)

-- On a string that is there; what C leaves undefined is a failure here.
unfoldable pub output_escaped : XmlWriter → Bytes → Bool × XmlWriter
output_escaped w s = escaped_answer w (escape_loop 0 (room w) s)

unfoldable pub hex_char : ℕ → ℕ
hex_char x = if ltb x 10 then b'0' + x else b'a' + (x - 10)

unfoldable pub hex_text : Bytes → Bytes
hex_text [] = []
hex_text (x ∷ value) = hex_char (x / 2 ^ 4) ∷ hex_char (bit_and x 0xf) ∷ hex_text value

-- The bytes without the zeros at the front, but the last byte stays.
unfoldable pub significant : Bytes → Bytes
significant [] = []
significant (x ∷ []) = x ∷ []
significant (x ∷ y ∷ value) =
    let rest = significant (y ∷ value) in if x == 0 then rest else x ∷ y ∷ value

unfoldable pub output_hex : XmlWriter → Bytes → Bool × XmlWriter
output_hex w value =
    let s = significant value in
    if leb (room w) (length s * 2) then (false, w) else (true, with_bytes w (w.bytes ++ hex_text s))

-- The digits of a number, with a round for each digit.
unfoldable pub digits : ℕ → ℕ → Bytes → Bytes
digits zero n more = more
digits (suc rounds) n more =
    let longer = digits rounds (n / 10) ((b'0' + n % 10) ∷ more) in
    if n / 10 == 0 then (b'0' + n % 10) ∷ more else longer

-- What `%d` and `%u` of libc give for a number of at most 64 bits, by their documentation.
unfoldable pub print_number : ℤ → Bytes
print_number (pos n) = digits 20 n []
print_number (negsuc n) = b'-' ∷ digits 20 (n + 1) []

-- `output_string`, on the text that the format gives; the number of its bytes is returned.
unfoldable pub output_string : XmlWriter → Bytes → Bool × XmlWriter
output_string w s =
    if ltb (length s) (room w)
    then (not (length s == 0), with_bytes w (w.bytes ++ s))
    else (false, w)

unfoldable pub output_of_kind : XmlWriter → ℕ → Value → ℕ → ℕ → Bool × XmlWriter
output_of_kind w flag v kind n =
    let yes = b't' ∷ b'r' ∷ b'u' ∷ b'e' ∷ [] in
    let no = b'f' ∷ b'a' ∷ b'l' ∷ b's' ∷ b'e' ∷ [] in
    if kind == xs_string || kind == xs_any_uri
    then output_escaped w (as_text v)
    else if kind == xs_boolean
    then output_string w (if as_number v / 2 ^ flag % 2 == 1 then yes else no)
    else if kind == xs_hex_binary
    then output_hex w (as_text v)
    else if leb 5 kind && leb kind 12
    then output_string w (print_number (as_integer v))
    else (false, w)

unfoldable pub output_value : Schema → Memory → Output XmlWriter → Pointer → Bool × XmlWriter
output_value schema m o at =
    let xs = bit_xor (entry schema o.se).type st_simple in
    output_of_kind o.writer o.flag (m.cell at) (bit_and xs 0xf) (xs / 2 ^ 4)

-- `&&` of two functions, the second on what the first left.
abbrev pub and_then : Bool × XmlWriter → (XmlWriter → Bool × XmlWriter) → Bool × XmlWriter
and_then (true, w) f = f w
and_then (false, w) f = (false, w)

-- The buffer is left as it was where a part does not fit.
abbrev pub or_restore : XmlWriter → Bool × XmlWriter → Bool × XmlWriter
or_restore w (true, w') = (true, w')
or_restore w (false, w') = (false, with_bytes w' w.bytes)

abbrev pub with_writer : Output XmlWriter → XmlWriter → Output XmlWriter
with_writer o w = record o { writer = w }

-- On a value that is there.
unfoldable pub output_quoted : Schema → Memory → Output XmlWriter → Pointer → Bool × XmlWriter
output_quoted schema m o at = or_restore o.writer (
    and_then (and_then (output_char o.writer 34) λ w. output_value schema m (with_writer o w) at)
      λ w. output_char w 34)

unfoldable pub output_break : XmlWriter → Bool → Bytes → Bool × XmlWriter
output_break w first s =
    let line = with_bytes w (w.bytes ++ b'\n' ∷ replicate w.indent b' ') in
    if first
    then output_string w s
    else if leb w.size (length w.bytes + w.indent + 1)
    then (false, w)
    else or_restore w (output_string line s)

-- The text of an end tag: `</name>`.
abbrev end_text : Bytes → Bytes
end_text name = b'<' ∷ b'/' ∷ (name ++ b'>' ∷ [])

-- The name of an attribute: ` name=`.
abbrev attribute_text : Bytes → Bytes
attribute_text name = b' ' ∷ (name ++ b'=' ∷ [])

abbrev namespace_text : Bytes → Bytes
namespace_text ns = b' ' ∷ b'x' ∷ b'm' ∷ b'l' ∷ b'n' ∷ b's' ∷ b'=' ∷ 34 ∷ (ns ++ 34 ∷ [])

abbrev type_text : Bytes → Bytes
type_text type =
    b' ' ∷ b'x' ∷ b's' ∷ b'i' ∷ b':' ∷ b't' ∷ b'y' ∷ b'p' ∷ b'e' ∷ b'=' ∷ 34 ∷ (type ++ 34 ∷ [])

-- `event & 2`: SE_SIMPLE is 2 and SE_COMPLEX is 3.
abbrev pub starts_element : OutputEvent → Bool
starts_element se_simple = true
starts_element se_complex = true
starts_element _ = false

-- The end of an element.
unfoldable pub output_end : Output XmlWriter → Bool → Bytes → Bool × Output XmlWriter
output_end o simple name =
    let w = o.writer in
    let (closed, w') = output_string w (b'/' ∷ b'>' ∷ []) in
    let (ended, w'') = output_string w (end_text name) in
    let inner = record w { indent = w.indent - 2 } in
    let (broken, below) = output_break inner o.first (end_text name) in
    let shut = record w' { is_open = false; indent = w.indent - 2 } in
    if w.is_open
    then (if closed then (true, with_writer o shut) else (false, o))
    else if simple
    then (ended, with_writer o w'')
    else if broken
    then (true, with_writer o below)
    else (false, with_writer o (record below { indent = w.indent }))

abbrev pub opened : Output XmlWriter → XmlWriter → Output XmlWriter
opened o w = record o { first = false; writer = record w { is_open = true; indent = w.indent + 2 } }

-- The start of a complex element, the first one with the namespace.
unfoldable pub output_start : Schema → Output XmlWriter → Bytes → Bool × Output XmlWriter
output_start schema o name =
    let (begun, w) = output_break o.writer o.first (b'<' ∷ name) in
    let (named, w') = output_string w (namespace_text schema.namespace) in
    if not begun
    then (false, with_writer o w)
    else if not o.first
    then (true, opened o w)
    else if named
    then (true, opened o w')
    else (false, with_writer o w)

unfoldable pub event_body : Schema → Output XmlWriter → ℕ → OutputEvent → Bool × Output XmlWriter
event_body schema o se ee_event =
    output_end o (is_simple (entry schema se).type) (se_name schema se)
event_body schema o se at_event =
    let (fits, w) = output_string o.writer (attribute_text (se_name schema se)) in
    (fits, with_writer o w)
event_body schema o se se_simple =
    let (fits, w) = output_break o.writer o.first (b'<' ∷ (se_name schema se ++ b'>' ∷ [])) in
    (fits, with_writer o w)
event_body schema o se se_complex = output_start schema o (se_name schema se)

unfoldable pub output_event : Schema → Output XmlWriter → ℕ → OutputEvent → Bool × Output XmlWriter
output_event schema o se event =
    let (closed, w) = output_char o.writer b'>' in
    let behind = event_body schema (with_writer o (record w { is_open = false })) se event in
    if not (starts_element event && o.writer.is_open)
    then event_body schema o se event
    else if closed
    then behind
    else (false, o)

unfoldable pub output_xsi_type : Schema → Memory → Output XmlWriter → Bool × Output XmlWriter
output_xsi_type schema m o =
    let id = get_or schema.ids (declared (m.cell o.st) - schema.length) 0 in
    let (fits, w) = output_string o.writer (type_text (get_or schema.names id [])) in
    (fits, with_writer o w)

unfoldable pub output_done : Output XmlWriter → Output XmlWriter
output_done o = let (fits, w) = output_char o.writer b'\n' in with_writer o w

abbrev pub answered : Output XmlWriter → Bool × XmlWriter → Bool × Output XmlWriter
answered o (fits, w) = (fits, with_writer o w)

-- The driver. XML has no bits, so that no byte is left incomplete.
unfoldable pub xml_output : Schema → Memory → OutputDriver XmlWriter
xml_output schema m = record {
  event = output_event schema;
  write_xsi_type = output_xsi_type schema m;
  attr_value = λ o at. answered o (output_quoted schema m o at);
  value = λ o at. answered o (output_value schema m o at);
  done = output_done;
  written = λ w. length w.bytes;
  complete_byte = λ w. w;
  rewind = λ w. with_bytes w [];
}

unfoldable pub output_init : ℕ → XmlWriter
output_init size = record { bytes = []; size = size; is_open = false; indent = 0 }
