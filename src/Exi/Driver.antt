-- ===== src/Exi/Driver.antt =====
-- exi_parse.c: the driver `exi_parser` for parse.c.
use epri_client.Prelude.{
  ℕ, zero, suc, ◌+◌, ◌-◌, ◌/◌, ◌^◌, ◌%◌, Bool, true, false, ◌&&◌, ◌||◌, Option, none, some, List,
  [], ◌∷◌, ◌++◌, ltb, leb, ◌==◌, if◌then◌else◌, bit_and, bit_xor, length, get_or,
}
use epri_client.Prelude.Int.{ℤ, pos, negsuc}
use epri_client.Util.{Bytes, bit_count, streq}
use epri_client.Schema.{
  SchemaEntry, Schema, entry, st_simple, xs_string, xs_boolean, xs_hex_binary, xs_any_uri,
}
use epri_client.StringTable.{new_string_table}
use epri_client.Exi.{Reader, reader, peek, tail}
use epri_client.Exi.Values.{parse_binary_data, negative}
use epri_client.Exi.Strings.{
  ExiReader, Parsed, parsed, waiting, refused, undefined, and_then, with_state, resume_uint,
  read_bit, read_bits, reader_after, parse_literal, c_string, exi_parse_string,
}
use epri_client.Parser.{
  Pointer, Value, Memory, Parser, XsiType, ParserDriver, number, text, store, set_count,
  parse_invalid, parse_element, parse_end, sequence_end, no_answer, declared_type, xsi_type,
}

-- A number as an unsigned or a signed one of `w` bits.
abbrev pub unsigned : ℕ → ℕ → Value
unsigned w n = number (pos (n % 2 ^ w))

abbrev pub from_complement : ℕ → ℕ → ℤ
from_complement w n = if ltb n (2 ^ (w - 1)) then pos n else negative (2 ^ w - n)

abbrev pub signed : ℕ → ℤ → Value
signed w (pos n) = number (from_complement w (n % 2 ^ w))
signed w (negsuc n) = number (from_complement w (2 ^ w - 1 - n % 2 ^ w))

unfoldable pub read_magnitude : ExiReader → Parsed ℤ
read_magnitude r =
    and_then (resume_uint r)
      λ x r'. parsed (if r'.sign == 0 then pos x else negative x) (with_state r' 0)

-- `parse_integer`, from the state that it stopped in.
unfoldable pub resume_integer : ExiReader → Parsed ℤ
resume_integer r =
    if r.exi_state == 0
    then and_then (read_bit r)
        (λ sign r'. read_magnitude (record r' { sign = sign; exi_state = 1 }))
    else read_magnitude r

unfoldable pub binary_data : ExiReader → Option (Bytes × Reader) → Parsed Bytes
binary_data r none = waiting r
binary_data r (some (bytes, stream)) = parsed bytes (record r { stream = stream; exi_state = 0 })

-- `parse_binary`: the data, which is put at the end of the container of `n` bytes.
unfoldable pub resume_binary : ExiReader → ℕ → Parsed Bytes
resume_binary r n =
    if r.exi_state == 0
    then and_then (resume_uint r) (λ x r'.
      if ltb n x
      then refused (with_state r' 1)
      else binary_data (with_state r' 1) (parse_binary_data x r'.stream))
    else binary_data r (parse_binary_data r.ux r.stream)

unfoldable pub zeros : ℕ → Bytes
zeros zero = []
zeros (suc n) = 0 ∷ zeros n

abbrev pub put : {A : Type 0} → Memory → Pointer → (A → Value) → Parsed A → Parsed Memory
put m at f x = and_then x (λ v r. parsed (store m at (f v)) r)

-- `exi_parse_value` by the kind of the type, `n` being its length: the value is stored at `at`.
unfoldable pub value_of_kind : Memory → Pointer → ℕ → ExiReader → ℕ → ℕ → ℕ → Parsed Memory
value_of_kind m at flag r name kind n =
    if kind == xs_string
    then put m at text (exi_parse_string r name n)
    else if kind == xs_boolean
    then and_then (read_bit r) (λ bit r'. parsed (set_count m at bit flag) r')
    else if kind == xs_hex_binary
    then put m at (λ b. text (zeros (n - length b) ++ b)) (resume_binary r n)
    else if kind == xs_any_uri
    then put m at text (exi_parse_string r name 0)
    else if kind == 5
    then put m at (signed 64) (resume_integer r)
    else if kind == 6
    then put m at (signed 32) (resume_integer r)
    else if kind == 7
    then put m at (signed 16) (resume_integer r)
    else if kind == 8
    then put m at (λ x. if ltb x 128 then number (negative (128 - x)) else number (pos (x - 128)))
        (read_bits r (some 8))
    else if kind == 9
    then put m at (unsigned 64) (resume_uint r)
    else if kind == 10
    then put m at (unsigned 32) (resume_uint r)
    else if kind == 11
    then put m at (unsigned 16) (resume_uint r)
    else if kind == 12
    then put m at (unsigned 8) (read_bits r (some 8))
    else waiting r

unfoldable pub exi_parse_value : Memory → Pointer → ℕ → ExiReader → ℕ → ℕ → Parsed Memory
exi_parse_value m at flag r name type =
    let xs = bit_xor type st_simple in value_of_kind m at flag r name (bit_and xs 0xf) (xs / 2 ^ 4)

abbrev pub with_ch : ExiReader → ℕ → ExiReader
with_ch r n = record r { ch = n }

unfoldable pub content : Memory → Pointer → ℕ → ExiReader → ℕ → ℕ → Parsed Memory
content m at flag r name type =
    and_then (exi_parse_value m at flag r name type) (λ m' r'. parsed m' (with_ch r' 0))

unfoldable pub empty_content : Memory → ExiReader → Parsed Memory
empty_content m r =
    and_then (read_bits r (some 3))
      λ n r'. if n == 0 then parsed m (record r' { ch = 0; need_token = false }) else refused r'

unfoldable pub exi_parse_simple : Memory → Pointer → ℕ → ExiReader → ℕ → ℕ → Parsed Memory
exi_parse_simple m at flag r name type =
    if r.ch == 0
    then and_then (read_bit r) (λ bit r'.
      if bit == 0
      then content m at flag (with_ch r' 1) name type
      else empty_content m (with_ch r' 2))
    else if r.ch == 1
    then content m at flag r name type
    else if r.ch == 2
    then empty_content m r
    else waiting r

abbrev pub exi_tag : List ℕ
exi_tag = b'$' ∷ b'E' ∷ b'X' ∷ b'I' ∷ []

abbrev pub skip_tag : List ℕ → List ℕ
skip_tag (a ∷ b ∷ c ∷ d ∷ rest) =
    if streq (a ∷ b ∷ c ∷ d ∷ []) exi_tag then rest else a ∷ b ∷ c ∷ d ∷ rest
skip_tag bytes = bytes

-- The schema id, its length being known: 64 bytes hold it, and the last byte is the NUL.
unfoldable pub schema_id_answer : Schema → ℕ → ℕ → Option (Bytes × ExiReader) → Parsed ℕ
schema_id_answer schema x n none = undefined
schema_id_answer schema x n (some (id, r)) =
    let closed = read_bit r in
    if ltb 64 (length id + 1)
    then undefined
    else if x == 0xc && streq (c_string id) schema.schema_id
    then end_bit closed
    else refused r
  where
    end_bit : Parsed ℕ → Parsed ℕ
    end_bit (waiting r') = parsed n r'
    end_bit other = other

abbrev pub with_bytes : ExiReader → List ℕ → ExiReader
with_bytes r bytes = record r { stream = reader bytes r.stream.bit }

-- The options document, behind the first byte. A length of 1 is taken as -1 characters.
unfoldable pub options_answer : Schema → ℕ → Option ExiReader → Parsed ℕ
options_answer schema x none = undefined
options_answer schema x (some r) =
    let id = schema_id_answer schema x (r.ux - 2) (parse_literal (r.ux - 2) r []) in
    if r.ux == 0 || leb 64 r.ux then refused r else if r.ux == 1 then undefined else id

unfoldable pub options : Schema → Parsed ℕ → Parsed ℕ
options schema (parsed x r) = options_answer schema x (reader_after (resume_uint r))
options schema other = undefined

-- The result is what the function returns, 0 being that the header is not there or not the one of the
-- schema. Less than the bytes of the tag is taken as no tag.
unfoldable pub exi_parse_header : Schema → ExiReader → Parsed ℕ
exi_parse_header schema r =
    let r' = with_bytes r (skip_tag r.stream.ptr) in
    let behind = with_bytes r' (tail r'.stream.ptr) in
    if ltb (length r'.stream.ptr) 5
    then waiting r'
    else if peek r'.stream.ptr == 0xa0
    then options schema (read_bits behind (some 6))
    else refused behind

-- The header and the number of the global element.
unfoldable pub exi_parse_start : Schema → ExiReader → Parsed ℕ
exi_parse_start schema r = and_then (exi_parse_header schema r) λ ok r'.
    if ok == 0
    then waiting r'
    else and_then (read_bits r' (bit_count schema.length)) (λ type r''.
      if ltb type schema.length
      then parsed type (record r'' { need_token = true })
      else refused r'')

unfoldable pub exi_event : ExiReader → SchemaEntry → ℕ → Parsed ℕ
exi_event r e count =
    let n = if e.n == 0 then 1 else if ltb count e.min then 1 else e.n in
    if r.need_token
    then and_then (read_bits (record r { n = n }) (bit_count n))
        (λ token r'. parsed token (record r' { token = token; need_token = false }))
    else parsed r.token r

-- The entry of the next event, and whether it is an element, or the end of one.
unfoldable pub exi_parse_next : Schema → ExiReader → ℕ → Parsed (ℕ × Bool)
exi_parse_next schema r se =
    if (entry schema se).n == 0
    then parsed (se, false) r
    else and_then (exi_event r (entry schema se) 0) (λ token r'.
      if leb r'.n token
      then refused r'
      else if (entry schema (se + token)).n == 0
      then parsed (se + token, false) r'
      else parsed (se + token, true) (record r' { need_token = true }))

-- The local name of the type, in the state 4 of `exi_xsi_type`.
unfoldable pub type_name : Schema → ExiReader → Parsed ℕ
type_name schema r = and_then (read_bits r (bit_count schema.count)) λ id r'.
    let type = get_or schema.types id 0 in
    if leb schema.count id || type == 0 then refused r' else parsed type (with_state r' 0)

unfoldable pub name_id : Schema → ExiReader → Parsed ℕ
name_id schema r =
    and_then (resume_uint r)
      λ x r'. if x == 0 then type_name schema (with_state r' 4) else refused r'

unfoldable pub type_uri : Schema → ExiReader → Parsed ℕ
type_uri schema r =
    and_then (read_bits r (some 3))
      λ n r'. if n == 5 then name_id schema (with_state r' 3) else refused r'

unfoldable pub type_attribute : Schema → ExiReader → Parsed ℕ
type_attribute schema r =
    and_then (read_bits r (some 3))
      λ n r'. if n == 0 then type_uri schema (with_state r' 2) else refused r'

-- 0 stands for -1, that the element has no `xsi:type`; no type is 0.
unfoldable pub type_event : Schema → ExiReader → ℕ → Parsed ℕ
type_event schema r se = and_then (exi_event r (entry schema se) 0) λ token r'.
    if token == r'.n
    then type_attribute schema (with_state r' 1)
    else if ltb r'.n token
    then refused r'
    else parsed 0 r'

unfoldable pub exi_xsi_type : Schema → ExiReader → ℕ → Parsed ℕ
exi_xsi_type schema r se =
    if r.exi_state == 0
    then type_event schema r se
    else if r.exi_state == 1
    then type_attribute schema r
    else if r.exi_state == 2
    then type_uri schema r
    else if r.exi_state == 3
    then name_id schema r
    else if r.exi_state == 4
    then type_name schema r
    else refused r

unfoldable pub exi_parse_end : ExiReader → Parsed ℕ
exi_parse_end r =
    if r.need_token
    then and_then (read_bit r) (λ bit r'. if bit == 0 then parsed 1 r' else refused r')
    else parsed 1 (record r { need_token = true })

-- Whether another element of the sequence follows.
unfoldable pub exi_parse_sequence : ExiReader → SchemaEntry → ℕ → Parsed Bool
exi_parse_sequence r e count = and_then (exi_event r e count) λ token r'.
    if token == 0
    then parsed true (record r' { need_token = true })
    else parsed false (record r' { token = token - 1 })

-- The answer of a function to the parser. What C leaves undefined is a refusal here.
unfoldable pub answer :
    {A : Type 0}
    → Parser ExiReader
    → Parsed A
    → (A → Parser ExiReader → Parser ExiReader)
    → Bool × Parser ExiReader
answer p (parsed a r) f = (true, f a (record p { reader = r }))
answer p (waiting r) f = (false, record p { reader = r })
answer p (refused r) f = (false, record p { reader = r; state = parse_invalid })
answer p undefined f = (false, record p { state = parse_invalid })

unfoldable pub xsi_type_of : Parser ExiReader → Parsed ℕ → XsiType × Parser ExiReader
xsi_type_of p (parsed type r) =
    (if type == 0 then declared_type else xsi_type type, record p { reader = r })
xsi_type_of p (waiting r) = (no_answer, record p { reader = r })
xsi_type_of p (refused r) = (no_answer, record p { reader = r; state = parse_invalid })
xsi_type_of p undefined = (no_answer, record p { state = parse_invalid })

-- The parser asks in the state PARSE_SEQUENCE, so that `state++` is the end of the sequence.
unfoldable pub sequence_of : Parser ExiReader → Parsed Bool → Bool × Parser ExiReader
sequence_of p (parsed true r) = (true, record p { reader = r })
sequence_of p (parsed false r) = (false, record p { reader = r; state = sequence_end })
sequence_of p (waiting r) = (false, record p { reader = r })
sequence_of p (refused r) = (false, record p { reader = r; state = parse_invalid })
sequence_of p undefined = (false, record p { state = parse_invalid })

-- The driver. `table_name` is the pointer to the name of an entry, by which its string table is
-- known; `exi_parse_done` only frees the tables.
unfoldable pub exi_parser : Schema → (ℕ → ℕ) → ParserDriver ExiReader
exi_parser schema table_name = record {
  start = λ p.
      answer p (exi_parse_start schema p.reader) (λ type q. record q { type = type; se = type });
  next = λ p.
      answer p (exi_parse_next schema p.reader p.se) (λ found q. record q {
        se = found.0;
        state = if found.1 then parse_element else parse_end;
      });
  read_xsi_type = λ p. xsi_type_of p (exi_xsi_type schema p.reader p.se);
  end = λ p se. answer p (exi_parse_end p.reader) (λ one q. q);
  sequence = λ p t. sequence_of p (exi_parse_sequence p.reader (entry schema t.se) t.count);
  attr_value = λ p at.
      answer p
        (exi_parse_value p.memory at p.flag p.reader (table_name p.se) (entry schema p.se).type)
        (λ m q. record q { memory = m });
  value = λ p at.
      answer p
        (exi_parse_simple p.memory at p.flag p.reader (table_name p.se) (entry schema p.se).type)
        (λ m q. record q { memory = m });
  done = λ p. p;
}

unfoldable pub exi_rebuffer : ExiReader → List ℕ → ExiReader
exi_rebuffer r bytes = with_bytes r bytes

unfoldable pub exi_parse_init : List ℕ → ExiReader
exi_parse_init bytes = record {
  stream = reader bytes 0;
  ux = 0;
  ux_n = 0;
  exi_state = 0;
  sign = 0;
  ch = 0;
  token = 0;
  n = 0;
  need_token = false;
  global = new_string_table [] 0 32;
  local = [];
}
