-- ===== src/Named.antt =====
-- named.c: lists of named objects.
-- A list is the sequence of its objects; an object without a name has no name here.
use epri_client.Prelude.{
  ℕ, zero, suc, ◌+◌, Bool, true, false, Option, none, some, List, [], ◌∷◌, ltb, if◌then◌else◌,
}
use epri_client.Util.{Bytes, streq}
use epri_client.StringTable.{next_index}
pub mod Lookup

pub record Named : Type 0 where
  pub name : Option Bytes
  pub object : ℕ

abbrev pub has_name : Named → Bytes → Bool
has_name n name = elim n.name [ none ↦ false | some s ↦ streq s name ]

unfoldable pub find_by_name : List Named → Bytes → Option Named
find_by_name [] name = none
find_by_name (n ∷ rest) name =
    let later = find_by_name rest name in if has_name n name then some n else later

abbrev pub found_or_new : List Named → Bytes → ℕ → Option Named → Named × List Named
found_or_new l name fresh (some n) = (n, l)
found_or_new l name fresh none =
    let n : Named = record { name = some name; object = fresh } in (n, n ∷ l)

-- The object is the one of the name, or a new one at the head, `fresh` being what `calloc` gives.
unfoldable pub get_by_name : List Named → Bytes → ℕ → Named × List Named
get_by_name l name fresh = found_or_new l name fresh (find_by_name l name)

unfoldable pub named_insert : List Named → Bytes → ℕ → List Named
named_insert l name object = record { name = some name; object = object } ∷ l

-- `strcmp (s, t) > 0`
unfoldable pub comes_after : Bytes → Bytes → Bool
comes_after [] t = false
comes_after (x ∷ s) [] = true
comes_after (x ∷ s) (y ∷ t) =
    let rest = comes_after s t in if ltb y x then true else if ltb x y then false else rest

-- `none` is a comparison with an object that has no name.
abbrev pub in_front : Named → Option (List Named) → Option (List Named)
in_front l none = none
in_front l (some rest) = some (l ∷ rest)

unfoldable pub insert_named : Named → Bytes → List Named → Option (List Named)
insert_named n name [] = some (n ∷ [])
insert_named n name (l ∷ rest) =
    let further = in_front l (insert_named n name rest) in
    elim l.name [
      | none ↦ none
      | some s ↦ if comes_after name s then further else some (n ∷ l ∷ rest)
    ]

unfoldable pub named_insert_sorted : List Named → Bytes → ℕ → Option (List Named)
named_insert_sorted head name object =
    insert_named (record { name = some name; object = object }) name head

-- `none` for the result -1.
unfoldable pub find_index_by_name : List Named → Bytes → Option ℕ
find_index_by_name [] name = none
find_index_by_name (n ∷ rest) name =
    let later = next_index (find_index_by_name rest name) in
    if has_name n name then some 0 else later
