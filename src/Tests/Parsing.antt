-- ===== src/Tests/Parsing.antt =====
-- Runs of schema.c, parse.c, output.c and the EXI parser.
use epri_client.Prelude.{ℕ, zero, suc, ◌-◌, ◌<◌, ◌≡◌, refl, arith, Bool, some, [], ◌∷◌, length, inl}
use epri_client.Util.{Bytes}
use epri_client.Schema.{SchemaEntry, Schema, null_entry, entry, type_is_a}
use epri_client.Schema.Derives.{IsRanked, Answers, base_type, type_is_a-Answers}
use epri_client.Parser.{
  Pointer, empty, Memory, StackItem, Parser, parse_end, as_number, set_count, parse_round,
}
use epri_client.Parser.Stack.{RoundKeeps, parse_round-IsParser}
use epri_client.Output.{flag_count, flag_width_loop}
use epri_client.Output.Counts.{flag_count-set_count}
use epri_client.Exi.{reader, parse_uint_loop, parse_byte, parse_byte_at}
use epri_client.Utf8.{utf8_encode}
use epri_client.Exi.Strings.{
  ExiReader, exi_parse_string, resume_uint, uint_answer, from_string_state, string_value,
  literal_answer, exi_utf8_length, scan_loop, utf8_bytes, literal_text, parse_literal, reader_after,
  c_string, add_literal,
}
use epri_client.Exi.Driver.{exi_parser, exi_parse_init}
use epri_client.Exi.Laws.{exi_parser-IsDriver}
use epri_client.Exi.Room.{exi_parse_string-Fits}
use epri_client.StringTable.{StringTable, add_string, new_string_table, find_table, append_string}

-- The type 1 has no base, the type 2 is derived from it, and the type 3 from 2; the index of a base is
-- the field `type` of the entry.
abbrev derived_from : ℕ → SchemaEntry
derived_from base = record null_entry { type = base; offset = 8 }

abbrev types : Schema
types = record {
  namespace = [];
  schema_id = b'S' ∷ b'1' ∷ [];
  length = 1;
  count = 3;
  names = [];
  types = [];
  entries = null_entry ∷ derived_from 0 ∷ derived_from 1 ∷ derived_from 2 ∷ [];
  elements = [];
  ids = [];
}

abbrev by_index : ℕ → ℕ
by_index n = n

types-IsRanked : IsRanked types by_index
types-IsRanked zero ne = absurd (ne refl)
types-IsRanked (suc zero) ne = omega arith
types-IsRanked (suc (suc zero)) ne = omega arith
types-IsRanked (suc (suc (suc zero))) ne = omega arith
types-IsRanked (suc (suc (suc (suc n)))) ne = omega arith

type_is_a-Answers_example :
    (answer : Bool) × (type_is_a 4 types 3 1 ≡ some answer)
    × Answers types (entry types 3).type (base_type types 1) answer
type_is_a-Answers_example = type_is_a-Answers types by_index 4 3 1 types-IsRanked refl (omega arith)

abbrev pub origin : Pointer
origin = record { block = 1; offset = 0 }

abbrev pub blank_memory : Memory
blank_memory = record { next = 2; size = λ n. 16; cell = λ p. empty }

abbrev pub one_item : StackItem
one_item = record {
  se = 1;
  base = origin;
  place = origin;
  queue = [];
  size = 8;
  count = 0;
  diff = 0;
}

abbrev names : ℕ → ℕ
names n = n

-- At the end of an element, on a stream of one byte.
abbrev inside : Parser ExiReader
inside = record {
  obj = origin;
  type = 0;
  stack = one_item ∷ [];
  se = 1;
  base = origin;
  st = origin;
  flag = 0;
  state = parse_end;
  memory = blank_memory;
  reader = exi_parse_init (0x40 ∷ []);
}

parse_round-IsParser_example : RoundKeeps (parse_round types 4 (exi_parser types names) inside)
parse_round-IsParser_example =
    parse_round-IsParser types 4 (exi_parser types names) (exi_parser-IsDriver types names) inside
      (record { bound = omega arith; top = λ s. refl })

flag_count-set_count_example :
    flag_count (as_number ((set_count blank_memory origin (3 - 1) 5).cell origin)) 5 1 4 ≡ 3
unfolding flag_width_loop
flag_count-set_count_example =
    flag_count-set_count blank_memory origin 5 1 4 3 (omega arith) (omega arith) (omega arith)
      (omega arith) refl

-- The literal "S1": its length and 2, and its characters.
abbrev literal : ExiReader
literal = exi_parse_init (4 ∷ b'S' ∷ b'1' ∷ [])

abbrev string_table : ℕ → ℕ → StringTable
string_table name size = record { length = size; name = name; strings = (b'S' ∷ b'1' ∷ []) ∷ [] }

abbrev behind_literal : ExiReader
behind_literal = record literal {
  stream = reader [] 0;
  ux = b'1';
  global = string_table 0 32 ∷ [];
  local = string_table 3 8 ∷ [];
}

abbrev s1 : Bytes
s1 = b'S' ∷ b'1' ∷ []

exi_parse_string-Fits_example : length s1 < 8
unfolding exi_parse_string resume_uint uint_answer from_string_state string_value literal_answer
    exi_utf8_length scan_loop utf8_bytes literal_text parse_literal reader_after c_string
    add_literal exi_parse_init parse_uint_loop parse_byte parse_byte_at utf8_encode add_string
    new_string_table find_table append_string
exi_parse_string-Fits_example =
    exi_parse_string-Fits literal 3 8 s1 behind_literal (omega arith) (inl refl) refl
