-- ===== src/StringTable.antt =====
-- string_table.c: the string tables of an EXI document.
-- The tables stand in the list from the head on, and a table is known by its name. The strings are
-- the ones below `index`. A table has no address here: that `realloc` moves a
-- full table, and the links that `add_string` sets again behind it, are not modelled.
use epri_client.Prelude.{
  ℕ, zero, suc, ◌+◌, ◌*◌, Bool, true, false, Option, none, some, List, [], ◌∷◌, ◌++◌, ◌==◌,
  if◌then◌else◌,
}
use epri_client.Prelude.{length}
use epri_client.Util.{Bytes, streq}
pub mod Lookup

pub record StringTable : Type 0 where
  pub length : ℕ
  pub name : ℕ
  pub strings : List Bytes

unfoldable pub find_table : List StringTable → ℕ → Option StringTable
find_table [] name = none
find_table (t ∷ rest) name =
    let later = find_table rest name in if t.name == name then some t else later

abbrev pub next_index : Option ℕ → Option ℕ
next_index none = none
next_index (some i) = some (suc i)

-- `none` for the result -1.
unfoldable pub find_string : List Bytes → Bytes → Option ℕ
find_string [] s = none
find_string (t ∷ rest) s =
    let later = next_index (find_string rest s) in if streq s t then some 0 else later

unfoldable pub new_string_table : List StringTable → ℕ → ℕ → List StringTable
new_string_table tables name length = record { length = length; name = name; strings = [] } ∷ tables

-- A full table grows to twice its length first.
unfoldable pub append_string : StringTable → Bytes → StringTable
append_string t s = record {
  length = if length t.strings == t.length then t.length * 2 else t.length;
  name = t.name;
  strings = t.strings ++ s ∷ [];
}

-- On the table of this name, which `t` points to in C.
unfoldable pub add_string : List StringTable → ℕ → Bytes → List StringTable
add_string [] name s = []
add_string (t ∷ rest) name s =
    let later = add_string rest name s in
    if t.name == name then append_string t s ∷ rest else t ∷ later
