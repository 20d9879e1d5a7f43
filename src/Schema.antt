-- ===== src/Schema.antt =====
-- schema.c: the schema tables and what is asked of them.
-- A pointer to a schema entry is its index in `entries`; the unions `offset`/`size` and `type`/`index`
-- of an entry are one field each. An index that is not in the table gives an entry of zeros.
use epri_client.Prelude.{
  ℕ, zero, suc, ◌+◌, ◌-◌, ◌*◌, ◌/◌, ◌%◌, ◌^◌, Bool, true, false, Option, none, some, List, [], ◌∷◌,
  ltb, ◌==◌, if◌then◌else◌, bit_and, bit_xor, get_or, ◌||◌,
}
use epri_client.Util.{Bytes}
pub mod Derives

-- enum XsType
abbrev pub xs_string : ℕ
xs_string = 1

abbrev pub xs_boolean : ℕ
xs_boolean = 2

abbrev pub xs_hex_binary : ℕ
xs_hex_binary = 3

abbrev pub xs_any_uri : ℕ
xs_any_uri = 4

abbrev pub st_simple : ℕ
st_simple = 0x8000

pub record SchemaEntry : Type 0 where
  pub offset : ℕ
  pub type : ℕ
  pub min : ℕ
  pub max : ℕ
  pub n : ℕ
  pub bit : ℕ
  pub st : Bool
  pub attribute : Bool
  pub unbounded : Bool

pub record Schema : Type 0 where
  pub namespace : Bytes
  pub schema_id : Bytes
  pub length : ℕ
  pub count : ℕ
  pub names : List Bytes
  pub types : List ℕ
  pub entries : List SchemaEntry
  pub elements : List Bytes
  pub ids : List ℕ

abbrev pub null_entry : SchemaEntry
null_entry = record {
  offset = 0;
  type = 0;
  min = 0;
  max = 0;
  n = 0;
  bit = 0;
  st = false;
  attribute = false;
  unbounded = false;
}

abbrev pub entry : Schema → ℕ → SchemaEntry
entry schema i = get_or schema.entries i null_entry

abbrev pub is_simple : ℕ → Bool
is_simple type = if bit_and type st_simple == 0 then false else true

unfoldable pub is_pointer : ℕ → Bool
is_pointer type =
    let xs = bit_xor type st_simple in
    if xs == xs_string then true else if xs == xs_any_uri then true else false

-- The loop over the derivations; `none` is fuel used up.
unfoldable pub is_a_loop : ℕ → Schema → ℕ → ℕ → Option Bool
is_a_loop zero schema base index = none
is_a_loop (suc fuel) schema base index =
    let rest = is_a_loop fuel schema base (entry schema index).type in
    if index == 0 then some false else if index == base then some true else rest

unfoldable pub se_is_a : ℕ → Schema → SchemaEntry → ℕ → Option Bool
se_is_a fuel schema se base =
    let base' = if ltb base schema.length then (entry schema base).type else base in
    if is_simple se.type then some false else is_a_loop fuel schema base' se.type

unfoldable pub type_is_a : ℕ → Schema → ℕ → ℕ → Option Bool
type_is_a fuel schema type base = se_is_a fuel schema (entry schema type) base

unfoldable pub se_name : Schema → ℕ → Bytes
se_name schema index =
    if ltb index schema.length
    then get_or schema.elements index []
    else get_or schema.names (get_or schema.ids (index - schema.length) 0) []

-- The size of a value of a simple type, on a target with pointers of 8 bytes.
unfoldable pub simple_size : ℕ → ℕ → ℕ
simple_size xs n =
    if xs == xs_string
    then (if n == 0 then 8 else n)
    else if xs == xs_boolean
    then 0
    else if xs == xs_hex_binary
    then n
    else if xs == xs_any_uri || xs == 5 || xs == 9
    then 8
    else if xs == 6 || xs == 10
    then 4
    else if xs == 7 || xs == 11
    then 2
    else if xs == 8 || xs == 12
    then 1
    else 0

-- A global element has the size of its type; `none` is a chain of elements that does not end.
unfoldable pub object_size : ℕ → Schema → ℕ → Option ℕ
object_size zero schema type = none
object_size (suc fuel) schema type =
    let of_element = object_size fuel schema (entry schema type).type in
    if is_simple type
    then some (simple_size (bit_and (bit_xor type st_simple) 0xf) (bit_xor type st_simple / 2 ^ 4))
    else if ltb type schema.length
    then of_element
    else some (entry schema type).offset
