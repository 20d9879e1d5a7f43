-- ===== src/Hash.antt =====
-- hash.c: the sparse hash table.
-- Entries and keys are named by numbers. `slot` holds the elements of a group, `none` for a deleted
-- one, and is empty where the pointer is NULL; the mark of `hash_find`, the fields `g` and `i`, is
-- the number of the group and the position in it. The functions `hash`, `compare` and `get_key` of a
-- table are parameters; `compare` is true for keys that compare as 0.
use epri_client.Prelude.{
  ℕ, zero, suc, ◌+◌, ◌-◌, ◌*◌, ◌/◌, ◌%◌, ◌^◌, Bool, true, false, ◌||◌, Option, none, some, List, [],
  ◌∷◌, ◌++◌, ltb, ◌==◌, if◌then◌else◌, bit_and, bit_or, bit_xor, take, drop, get_or,
}
use epri_client.Util.{Bytes}

pub record SparseGroup : Type 0 where
  pub slot : List (Option ℕ)
  pub bits : ℕ

abbrev pub no_group : SparseGroup
no_group = record { slot = []; bits = 0 }

unfoldable pub popcount64 : ℕ → ℕ
popcount64 x =
    let a = (x + 2 ^ 64 - bit_and (x / 2) 0x5555555555555555) % 2 ^ 64 in
    let b = (bit_and a 0x3333333333333333 + bit_and (a / 4) 0x3333333333333333) % 2 ^ 64 in
    let c = bit_and ((b + b / 16) % 2 ^ 64) 0x0f0f0f0f0f0f0f0f in
    c * 0x0101010101010101 % 2 ^ 64 / 2 ^ 56

unfoldable pub bit_rank : ℕ → ℕ → ℕ
bit_rank bits i = if i == 0 then 0 else popcount64 (bits * 2 ^ (64 - i) % 2 ^ 64)

-- The element goes to its rank, behind which the others move up; the count grows and the bit is set.
unfoldable pub sg_insert : SparseGroup → ℕ → ℕ → SparseGroup
sg_insert g i item =
    let s = bit_rank g.bits i in
    record {
      slot = take s g.slot ++ some item ∷ drop s g.slot;
      bits = bit_or ((g.bits + 2 ^ 58) % 2 ^ 64) (2 ^ i);
    }

unfoldable pub sg_empty : SparseGroup → ℕ → Bool
sg_empty g i = bit_and g.bits (2 ^ i) == 0

pub record HashTable : Type 0 where
  pub mark : Option (ℕ × ℕ)
  pub items : ℕ
  pub min : ℕ
  pub max : ℕ
  pub size : ℕ
  pub table : List SparseGroup

abbrev pub groups_of : ℕ → List SparseGroup
groups_of zero = []
groups_of (suc n) = no_group ∷ groups_of n

-- `hash_init`, with the mark that the table had.
unfoldable pub hash_init : Option (ℕ × ℕ) → ℕ → HashTable
hash_init mark size = record {
  mark = mark;
  items = 0;
  min = size * 40 / 100;
  max = size * 80 / 100;
  size = size;
  table = groups_of ((size + 57) / 58);
}

-- Where the key is, that it is not there, or that the fuel is used up.
pub data Found : Type 0 where
  found_at : ℕ → ℕ → Found
  absent : Found
  endless : Found

abbrev pub set_group : List SparseGroup → ℕ → SparseGroup → List SparseGroup
set_group [] n g = []
set_group (h ∷ rest) zero g = g ∷ rest
set_group (h ∷ rest) (suc n) g = h ∷ set_group rest n g

abbrev pub set_slot : List (Option ℕ) → ℕ → Option ℕ → List (Option ℕ)
set_slot [] n e = []
set_slot (h ∷ rest) zero e = e ∷ rest
set_slot (h ∷ rest) (suc n) e = h ∷ set_slot rest n e

abbrev pub is_empty : List (Option ℕ) → Bool
is_empty [] = true
is_empty _ = false

-- `if (!ht->g) hash_mark (ht, g, i)`
abbrev pub first_mark : Option (ℕ × ℕ) → ℕ × ℕ → Option (ℕ × ℕ)
first_mark none here = some here
first_mark (some m) here = some m

-- `*e = item` for the element `e` at the place.
unfoldable pub put_element : HashTable → ℕ → ℕ → Option ℕ → HashTable
put_element ht n s e =
    let g = get_or ht.table n no_group in
    record ht { table = set_group ht.table n (record g { slot = set_slot g.slot s e }) }

-- The elements in the order of `hash_iterate`.
unfoldable pub entries_in : List (Option ℕ) → List ℕ
entries_in [] = []
entries_in (none ∷ rest) = entries_in rest
entries_in (some x ∷ rest) = x ∷ entries_in rest

unfoldable pub entries : List SparseGroup → List ℕ
entries [] = []
entries (g ∷ rest) = entries_in g.slot ++ entries rest

module _ (hash : ℕ → ℕ) (compare : ℕ → ℕ → Bool) (get_key : ℕ → ℕ) where
  -- The probes, with the mark so far. As many rounds as the table has places are given.
  unfoldable pub hash_find_loop :
      ℕ → HashTable → ℕ → ℕ → ℕ → Option (ℕ × ℕ) → Found × Option (ℕ × ℕ)
  hash_find_loop zero ht key index probes mark = (endless, mark)
  hash_find_loop (suc fuel) ht key index probes mark =
      let n = index / 58 in
      let i = index % 58 in
      let g = get_or ht.table n no_group in
      let s = bit_rank g.bits i in
      let next = bit_and (index + (probes + 1)) (ht.size - 1) in
      let go_on = hash_find_loop fuel ht key next (probes + 1) in
      if is_empty g.slot || sg_empty g i
      then (absent, first_mark mark (n, i))
      else elim (get_or g.slot s none) [
        | some x ↦ if compare key (get_key x) then (found_at n s, mark) else go_on mark
        | none ↦ go_on (first_mark mark (n, i))
      ]

  unfoldable pub hash_find : HashTable → ℕ → Found × Option (ℕ × ℕ)
  hash_find ht key = hash_find_loop ht.size ht key (bit_and (hash key) (ht.size - 1)) 0 none

  unfoldable pub hash_get : HashTable → ℕ → Option ℕ
  hash_get ht key = elim (hash_find ht key).0 [
    | found_at n s ↦ get_or (get_or ht.table n no_group).slot s none
    | absent ↦ none
    | endless ↦ none
  ]

  -- `hash_insert` at the mark, then `ht->items++`.
  unfoldable pub hash_insert : HashTable → ℕ → Option HashTable
  hash_insert ht item = elim ht.mark [
    | none ↦ none
    | some m ↦
        let g = sg_insert (get_or ht.table m.0 no_group) m.1 item in
        some (record ht { table = set_group ht.table m.0 g; items = ht.items + 1 })
  ]

  abbrev pub put_all : (HashTable → ℕ → Option HashTable) → HashTable → List ℕ → Option HashTable
  put_all put ht [] = some ht
  put_all put ht (x ∷ rest) = elim (put ht x) [ none ↦ none | some ht' ↦ put_all put ht' rest ]

  unfoldable pub hash_resize : (HashTable → ℕ → Option HashTable) → HashTable → ℕ → Option HashTable
  hash_resize put ht size = put_all put (hash_init ht.mark size) (entries ht.table)

  -- The fuel bounds the resizes within a resize. `none` is a call that does not end, or an insertion
  -- without a mark.
  unfoldable pub hash_put : ℕ → HashTable → ℕ → Option HashTable
  hash_put zero ht item = none
  hash_put (suc fuel) ht item =
      let (found, mark) = hash_find ht (get_key item) in
      let marked = record ht { mark = mark } in
      let grown = hash_resize (hash_put fuel) marked (ht.size * 2) in
      elim found [
        | found_at n s ↦ some (put_element marked n s (some item))
        | absent ↦
            if ht.items == ht.max
            then elim grown [ none ↦ none | some ht' ↦ hash_insert ht' item ]
            else hash_insert marked item
        | endless ↦ none
      ]

  -- The item taken out, and the table. `items` stays at 0 where the counter would go below.
  unfoldable pub hash_delete : ℕ → HashTable → ℕ → Option (Option ℕ × HashTable)
  hash_delete fuel ht key =
      let (found, mark) = hash_find ht key in
      let marked = record ht { mark = mark } in
      elim found [
        | found_at n s ↦
            let item = get_or (get_or ht.table n no_group).slot s none in
            let cleared = put_element marked n s none in
            let fewer = λ (t : HashTable). record t { items = t.items - 1 } in
            if ht.items == ht.min
            then elim (hash_resize (hash_put fuel) cleared (ht.size / 2)) [
              | none ↦ none
              | some t ↦ some (item, fewer t)
            ]
            else some (item, fewer cleared)
        | absent ↦ some (none, marked)
        | endless ↦ none
      ]

-- A `char` of the string as a number of 64 bits, with its sign.
abbrev pub sign_extend : ℕ → ℕ
sign_extend c = if ltb c 128 then c else c + 2 ^ 64 - 256

-- The loop, on an `unsigned long` of 64 bits.
unfoldable pub hash_bytes : ℕ → Bytes → ℕ
hash_bytes h [] = h
hash_bytes h (c ∷ rest) = hash_bytes ((h * 2 ^ 5 % 2 ^ 64 + h + sign_extend c) % 2 ^ 64) rest

-- The low 32 bits are the `int` that is returned.
unfoldable pub string_hash : Bytes → ℕ
string_hash s = hash_bytes 5381 s % 2 ^ 32

unfoldable pub int128_hash : Bytes → ℕ
int128_hash key = hash_bytes 5381 (take 16 key) % 2 ^ 32

unfoldable pub int64_hash : ℕ → ℕ
int64_hash key =
    let a = (2 ^ 64 - 1 - key + key * 2 ^ 21) % 2 ^ 64 in
    let b = bit_xor a (a / 2 ^ 24) in
    let c = (b + b * 2 ^ 3 + b * 2 ^ 8) % 2 ^ 64 in
    let d = bit_xor c (c / 2 ^ 14) in
    let e = (d + d * 2 ^ 2 + d * 2 ^ 4) % 2 ^ 64 in
    let f = bit_xor e (e / 2 ^ 28) in (f + f * 2 ^ 31) % 2 ^ 64 % 2 ^ 32
