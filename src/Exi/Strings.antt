-- ===== src/Exi/Strings.antt =====
-- The strings of exi_parse.c, on a parser that may be stopped and resumed.
-- `ExiReader` has the fields of the parser that only exi_parse.c uses. A function of the source answers
-- 1 or 0, and 0 is either that more bytes are needed or that the document is refused.
use epri_client.Prelude.{
  ℕ, zero, suc, ◌+◌, ◌-◌, Bool, not, ◌&&◌, Option, none, some, List, [], ◌∷◌, ◌++◌, ltb, leb, ◌==◌,
  if◌then◌else◌, bit_and, length, get_or,
}
use epri_client.Util.{Bytes, bit_count}
use epri_client.Utf8.{utf8_encode}
use epri_client.StringTable.{StringTable, find_table, new_string_table, add_string}
use epri_client.Exi.{
  Reader, parse_byte, parse_bit, parse_bits, ParsedUint, uint, more_needed, invalid,
  undefined_shift, parse_uint_loop,
}

pub record ExiReader : Type 0 where
  pub stream : Reader
  pub ux : ℕ
  pub ux_n : ℕ
  pub exi_state : ℕ
  pub sign : ℕ
  pub ch : ℕ
  pub token : ℕ
  pub n : ℕ
  pub need_token : Bool
  pub global : List StringTable
  pub local : List StringTable

-- What a function comes to: a result, more bytes are needed, the document is refused, or something
-- that C leaves undefined.
pub data Parsed (A : Type 0) : Type 0 where
  parsed : A → ExiReader → Parsed A
  waiting : ExiReader → Parsed A
  refused : ExiReader → Parsed A
  undefined : Parsed A

-- `ok_v (..., 0);` and what follows.
abbrev pub and_then : {A B : Type 0} → Parsed A → (A → ExiReader → Parsed B) → Parsed B
and_then (parsed a r) f = f a r
and_then (waiting r) f = waiting r
and_then (refused r) f = refused r
and_then undefined f = undefined

abbrev pub with_state : ExiReader → ℕ → ExiReader
with_state r n = record r { exi_state = n }

unfoldable pub uint_answer : ExiReader → ParsedUint → Parsed ℕ
uint_answer r (uint x stream) = parsed x (record r { stream = stream; ux = x; ux_n = 0 })
uint_answer r (more_needed x n stream) = waiting (record r { stream = stream; ux = x; ux_n = n })
uint_answer r invalid = refused r
uint_answer r undefined_shift = undefined

-- `parse_uint`, which goes on with the groups that it has read.
unfoldable pub resume_uint : ExiReader → Parsed ℕ
resume_uint r = uint_answer r (parse_uint_loop 11 r.stream (if r.ux_n == 0 then 0 else r.ux) r.ux_n)

unfoldable pub stream_answer : ExiReader → Option (ℕ × Reader) → Parsed ℕ
stream_answer r none = waiting r
stream_answer r (some (x, stream)) = parsed x (record r { stream = stream })

unfoldable pub read_bit : ExiReader → Parsed ℕ
read_bit r = stream_answer r (parse_bit r.stream)

-- A field of the width that a number needs.
unfoldable pub read_bits : ExiReader → Option ℕ → Parsed ℕ
read_bits r none = undefined
read_bits r (some n) = stream_answer r (parse_bits r.stream n)

-- A character of an EXI string: the number of its bytes and the last one, or too many, or no more.
pub data Scanned : Type 0 where
  scanned : ℕ → ℕ → Reader → Scanned
  too_long too_short : Scanned

-- The loop; the fourth byte is one too many.
unfoldable pub scan_loop : ℕ → Reader → ℕ → Scanned
scan_loop zero r m = too_long
scan_loop (suc left) r m = elim (parse_byte r) [
  | none ↦ too_short
  | some (b, r') ↦
      let more = scan_loop left r' (m + 1) in
      if left == 0 then too_long else if bit_and b 0x80 == 0 then scanned (m + 1) b r' else more
]

-- The bytes in UTF-8 of a character of `m` bytes in EXI.
unfoldable pub utf8_bytes : ℕ → ℕ → ℕ
utf8_bytes m b =
    if (m == 2 && not (bit_and b 0x70 == 0))
    then 3
    else if (m == 3 && not (bit_and b 0x7c == 0))
    then 4
    else m

-- What `exi_utf8_length` adds up for the characters, or why it returns 0.
pub data TextLength : Type 0 where
  text_length : ℕ → TextLength
  text_too_long text_too_short : TextLength

unfoldable pub exi_utf8_length : ℕ → Reader → ℕ → TextLength
exi_utf8_length zero r total = text_length total
exi_utf8_length (suc n) r total = elim (scan_loop 4 r 0) [
  | scanned m b r' ↦ exi_utf8_length n r' (total + utf8_bytes m b)
  | too_long ↦ text_too_long
  | too_short ↦ text_too_short
]

-- The reader behind `parse_uint`, whatever it answered; `none` where C leaves that undefined.
unfoldable pub reader_after : Parsed ℕ → Option ExiReader
reader_after (parsed x r) = some r
reader_after (waiting r) = some r
reader_after (refused r) = some r
reader_after undefined = none

-- The characters, their number being known; `none` where `utf8_encode` refuses one of them, and the
-- text goes on at a null pointer.
unfoldable pub parse_literal : ℕ → ExiReader → Bytes → Option (Bytes × ExiReader)
parse_literal zero r text = some (text, r)
parse_literal (suc n) r text = elim (reader_after (resume_uint r)) [
  | none ↦ none
  | some r' ↦ elim (utf8_encode r'.ux) [
    | none ↦ none
    | some encoded ↦ parse_literal n r' (text ++ encoded)
  ]
]

-- The bytes up to the first NUL.
unfoldable pub c_string : Bytes → Bytes
c_string [] = []
c_string (c ∷ rest) = let more = c_string rest in if c == 0 then [] else c ∷ more

-- The string of a compact identifier, if it fits in the container of `n` bytes, 0 being none.
unfoldable pub fitted : ExiReader → Bytes → ℕ → Parsed Bytes
fitted r s n = if n == 0 then parsed s r else if leb (length s + 1) n then parsed s r else refused r

unfoldable pub compact_id_in : ExiReader → List Bytes → ℕ → Parsed Bytes
compact_id_in r [] n = refused r
compact_id_in r (s ∷ strings) n = and_then (read_bits r (bit_count (length strings))) λ id r'.
    if ltb id (length strings + 1) then fitted r' (get_or (s ∷ strings) id []) n else refused r'

unfoldable pub parse_compact_id : ExiReader → Option StringTable → ℕ → Parsed Bytes
parse_compact_id r none n = refused r
parse_compact_id r (some t) n = compact_id_in r t.strings n

-- The local table of the name, made where there is none.
abbrev pub with_table : List StringTable → ℕ → Option StringTable → List StringTable
with_table tables name none = new_string_table tables name 8
with_table tables name (some t) = tables

unfoldable pub add_literal : ExiReader → ℕ → Bytes → ExiReader
add_literal r name s =
    let local = with_table r.local name (find_table r.local name) in
    record r { local = add_string local name s; global = add_string r.global 0 s }

-- A literal that is there as a whole: its text, which enters both tables.
unfoldable pub literal_text : ExiReader → ℕ → Option (Bytes × ExiReader) → Parsed Bytes
literal_text r name none = undefined
literal_text r name (some (text, r')) = parsed (c_string text) (add_literal r' name (c_string text))

-- A length of 0 is taken for a literal that is not yet there.
unfoldable pub literal_answer : ExiReader → ℕ → ℕ → ℕ → TextLength → Parsed Bytes
literal_answer r name n count text_too_long = refused r
literal_answer r name n count text_too_short = waiting r
literal_answer r name n count (text_length m) =
    let text = literal_text r name (parse_literal count r []) in
    if m == 0 then waiting r else if not (n == 0) && leb n m then refused r else text

unfoldable pub string_value : ExiReader → ℕ → ℕ → Parsed Bytes
string_value r name n =
    let count = r.ux - 2 in
    let literal = literal_answer r name n count (exi_utf8_length count r.stream 0) in
    if r.ux == 0
    then parse_compact_id r (find_table r.local name) n
    else if r.ux == 1
    then parse_compact_id r (find_table r.global 0) n
    else literal

-- The value, then `exi_state = 0`.
unfoldable pub from_string_state : ExiReader → ℕ → ℕ → Parsed Bytes
from_string_state r name n = and_then (string_value r name n) λ s r'. parsed s (with_state r' 0)

unfoldable pub exi_parse_string : ExiReader → ℕ → ℕ → Parsed Bytes
exi_parse_string r name n =
    if r.exi_state == 0
    then and_then (resume_uint r) (λ x r'. from_string_state (with_state r' 1) name n)
    else from_string_state r name n
