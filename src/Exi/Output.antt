-- ===== src/Exi/Output.antt =====
-- exi_output.c: strings, values, events and the header.
-- `ExiWriter` has the fields of the output that only exi_output.c uses; `size` is the size of the
-- buffer. `none` is a read behind a string whose last character is not complete.
use epri_client.Prelude.{
  ℕ, zero, suc, ◌+◌, ◌-◌, ◌/◌, ◌^◌, ◌%◌, Bool, true, false, ◌&&◌, ◌||◌, Option, none, some, List,
  [], ◌∷◌, ◌++◌, ltb, leb, ◌==◌, if◌then◌else◌, bit_and, bit_xor, length, get_or,
}
use epri_client.Prelude.Int.{ℤ, pos, negsuc}
use epri_client.Util.{Bytes, bit_count}
use epri_client.Utf8.{char, utf8_char, utf8_length}
use epri_client.StringTable.{StringTable, find_table, find_string, add_string}
use epri_client.Schema.{Schema, st_simple, xs_string, xs_boolean, xs_hex_binary, xs_any_uri}
use epri_client.Exi.{Writer, output_byte, output_uint, output_bit}
use epri_client.Exi.Values.{output_bits, output_integer, output_binary}
use epri_client.Exi.Strings.{with_table}
use epri_client.Parser.{Value, number, text, as_number}
use epri_client.Output.{OutputEvent, ee_event}

pub record ExiWriter : Type 0 where
  pub stream : Writer
  pub size : ℕ
  pub global : List StringTable
  pub local : List StringTable

abbrev pub with_stream : ExiWriter → Writer → ExiWriter
with_stream o w = record o { stream = w }

abbrev pub room : ExiWriter → ℕ
room o = o.size - length o.stream.bytes

-- The characters up to the NUL, or up to the first that `utf8_char` rejects; each takes a byte at
-- least, so that a round for each byte is enough.
unfoldable pub output_chars : ℕ → Writer → Bytes → Writer
output_chars zero w s = w
output_chars (suc rounds) w [] = w
output_chars (suc rounds) w (c ∷ s) = elim (utf8_char (c ∷ s)) [
  | char code rest ↦ output_chars rounds (output_uint w code) rest
  | _ ↦ w
]

unfoldable pub exi_output_literal : Writer → Bytes → Option Writer
exi_output_literal w s = elim (utf8_length (s ++ 0 ∷ [])) [
  | none ↦ none
  | some n ↦ some (output_chars (length s) (output_uint w (n + 2)) s)
]

-- The compact identifier `i` in a table of `count` strings, behind the number of the part.
unfoldable pub output_compact_id : ExiWriter → ℕ → ℕ → ℕ → Option ExiWriter
output_compact_id o part i count = elim (bit_count (count - 1)) [
  | none ↦ none
  | some bits ↦
      let w = output_uint o.stream part in
      some (with_stream o (if bits == 0 then w else output_bits w i bits))
]

abbrev pub strings_of : Option StringTable → List Bytes
strings_of none = []
strings_of (some t) = t.strings

-- A string that the global table does not have, which it enters.
unfoldable pub output_new : ExiWriter → Bytes → Option ExiWriter
output_new o s = elim (exi_output_literal o.stream s) [
  | none ↦ none
  | some w ↦ some (record o { global = add_string o.global 0 s; stream = w })
]

unfoldable pub output_global : ExiWriter → Bytes → Option ℕ → Option ExiWriter
output_global o s none = output_new o s
output_global o s (some i) = output_compact_id o 1 i (length (strings_of (find_table o.global 0)))

-- A string that the local table does not have enters it, also where the global table has it.
unfoldable pub output_local : ExiWriter → ℕ → Bytes → Option ℕ → Option ExiWriter
output_local o name s (some i) =
    output_compact_id o 0 i (length (strings_of (find_table o.local name)))
output_local o name s none =
    let local = with_table o.local name (find_table o.local name) in
    let entered = record o { local = add_string local name s } in
    output_global entered s (find_string (strings_of (find_table o.global 0)) s)

unfoldable pub exi_output_string : ExiWriter → ℕ → Bytes → Option ExiWriter
exi_output_string o name s =
    output_local o name s (find_string (strings_of (find_table o.local name)) s)

abbrev pub as_text : Value → Bytes
as_text (text s) = s
as_text _ = []

abbrev pub as_integer : Value → ℤ
as_integer (number z) = z
as_integer _ = pos 0

-- A byte with a sign, plus 128, on the eight bits that are written.
abbrev pub biased : ℤ → ℕ
biased (pos n) = n + 128
biased (negsuc n) = 127 - n

abbrev pub written_string : Option ExiWriter → Option (Bool × ExiWriter)
written_string none = none
written_string (some o) = some (true, o)

unfoldable pub output_of_kind : ExiWriter → ℕ → ℕ → Value → ℕ → ℕ → Option (Bool × ExiWriter)
output_of_kind o name flag v kind n =
    let done : Writer → Option (Bool × ExiWriter) = λ w. some (true, with_stream o w) in
    let (fits, w) = output_binary o.size o.stream (as_text v) in
    if kind == xs_string || kind == xs_any_uri
    then written_string (exi_output_string o name (as_text v))
    else if kind == xs_boolean
    then done (output_bit o.stream (as_number v / 2 ^ flag % 2))
    else if kind == xs_hex_binary
    then some (fits, with_stream o w)
    else if kind == 5 || kind == 6 || kind == 7
    then done (output_integer o.stream (as_integer v))
    else if kind == 8
    then done (output_bits o.stream (biased (as_integer v)) 8)
    else if kind == 9 || kind == 10 || kind == 11
    then done (output_uint o.stream (as_number v))
    else if kind == 12
    then done (output_bits o.stream (as_number v) 8)
    else some (true, o)

unfoldable pub exi_output_value : ExiWriter → ℕ → ℕ → Value → ℕ → Option (Bool × ExiWriter)
exi_output_value o name flag v type =
    let xs = bit_xor type st_simple in
    if ltb (room o) 10
    then some (false, o)
    else output_of_kind o name flag v (bit_and xs 0xf) (xs / 2 ^ 4)

abbrev pub is_empty_text : Value → Bool
is_empty_text v = length (as_text v) == 0

-- An empty string is written as the end of the element.
unfoldable pub exi_output_simple : ExiWriter → ℕ → ℕ → Value → ℕ → Option (Bool × ExiWriter)
exi_output_simple o name flag v type =
    let kind = bit_and (bit_xor type st_simple) 0xf in
    if (kind == xs_string || kind == xs_any_uri) && is_empty_text v
    then some (true, with_stream o (output_bits o.stream 4 3))
    else exi_output_value (with_stream o (output_bit o.stream 0)) name flag v type

abbrev pub is_end : OutputEvent → Bool
is_end ee_event = true
is_end _ = false

-- The code of an event among `n`; the caller's `n` and `code` are 0 behind it.
unfoldable pub exi_output_event : ExiWriter → OutputEvent → ℕ → ℕ → Option (Bool × ExiWriter)
exi_output_event o event n code =
    let bits = if is_end event && n == 0 then some 1 else bit_count n in
    elim bits [
      | none ↦ none
      | some width ↦
          if leb 3 (room o)
          then some (true, with_stream o (output_bits o.stream code width))
          else some (false, o)
    ]

-- The attribute `xsi:type` for the local name `id` of a schema of `count` names.
unfoldable pub output_type_name : Writer → ℕ → ℕ → ℕ → ℕ → Writer
output_type_name w n width id bits =
    let coded = output_bits (output_bits (output_bits w n width) 0 3) 5 3 in
    output_bits (output_byte coded 0) id bits

unfoldable pub exi_output_xsi_type : Schema → ExiWriter → ℕ → ℕ → Option (Bool × ExiWriter)
exi_output_xsi_type schema o type n = elim (bit_count n) [
  | none ↦ none
  | some width ↦ elim (bit_count schema.count) [
    | none ↦ none
    | some bits ↦
        let id = get_or schema.ids (type - schema.length) 0 in
        if ltb ((width + 3 + 3 + 8 + bits) / 2 ^ 3) (room o)
        then some (true, with_stream o (output_type_name o.stream n width id bits))
        else some (false, o)
  ]
]

-- The buffer is cleared, which the model of the writer takes for granted.
unfoldable pub exi_output_header : Schema → Writer → Option Writer
exi_output_header schema w =
    elim (exi_output_literal (output_bits (output_byte w 0xa0) 0xc 6) schema.schema_id) [
      | none ↦ none
      | some w' ↦ some (output_bits w' 1 1)
    ]
