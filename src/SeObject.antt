-- ===== src/SeObject.antt =====
-- se_object.c: the order of the objects in the lists of IEEE 2030.5.
-- A `Field` is what an object holds at an offset: a number, or bytes. For a key of the type
-- XS_ANY_URI the bytes are those of the pointer that stands in the object, up to the first NUL.
use epri_client.Prelude.{
  ℕ, zero, suc, ◌+◌, ◌-◌, ◌/◌, ◌%◌, ◌^◌, Bool, true, false, Option, none, some, List, [], ◌∷◌, ltb,
  ◌==◌, ◌||◌, if◌then◌else◌, get_or, bit_and,
}
use epri_client.Prelude.Int.{ℤ, pos, negsuc, pos_part, neg_part, sub_ℕ}
use epri_client.Util.{Bytes, streq}
use epri_client.Named.{comes_after}
use epri_client.Exi.Driver.{from_complement}
pub mod Order

pub data Field : Type 0 where
  number : ℤ → Field
  bytes : Bytes → Field

abbrev pub Object : Type 0
Object = ℕ → Field

-- The type is negative where the order is the descending one.
pub record Key : Type 0 where
  pub offset : ℕ
  pub type : ℤ

pub record ListInfo : Type 0 where
  pub id : ℕ
  pub base : ℕ
  pub offset : ℕ
  pub type : ℕ
  pub key : List Key

-- `bsearch` in the table, which is sorted by `id`.
unfoldable pub find_list_info : List ListInfo → ℕ → Option ListInfo
find_list_info [] type = none
find_list_info (info ∷ rest) type =
    let later = find_list_info rest type in if info.id == type then some info else later

-- The bytes below `n`, from the last to the first.
unfoldable pub compare_binary : Bytes → Bytes → ℕ → ℤ
compare_binary a b zero = pos 0
compare_binary a b (suc n) =
    let rest = compare_binary a b n in
    if ltb (get_or a n 0) (get_or b n 0)
    then negsuc 0
    else if ltb (get_or b n 0) (get_or a n 0)
    then pos 1
    else rest

-- A difference as an `int`, which keeps the low 32 bits of it.
abbrev pub as_int : ℤ → ℤ
as_int (pos n) = from_complement 32 (n % 2 ^ 32)
as_int (negsuc n) = from_complement 32 (2 ^ 32 - 1 - n % 2 ^ 32)

unfoldable pub compare_uint : ℕ → ℕ → ℤ
compare_uint a b = if ltb a b then negsuc 0 else as_int (pos (a - b))

abbrev pub difference : ℤ → ℤ → ℤ
difference x y = sub_ℕ (pos_part x + neg_part y) (neg_part x + pos_part y)

-- `strcmp`, of which only the sign is documented.
abbrev pub strcmp : Bytes → Bytes → ℤ
strcmp s t = if comes_after s t then pos 1 else if streq s t then pos 0 else negsuc 0

abbrev pub field_bytes : Field → Bytes
field_bytes (bytes s) = s
field_bytes _ = []

abbrev pub field_number : Field → ℤ
field_number (number z) = z
field_number _ = pos 0

unfoldable pub compare_field : ℕ → ℕ → Field → Field → ℤ
compare_field type n a b =
    if type == 1 || type == 4
    then strcmp (field_bytes a) (field_bytes b)
    else if type == 3
    then compare_binary (field_bytes a) (field_bytes b) n
    else if type == 5 || type == 6 || type == 7 || type == 8
    then as_int (difference (field_number a) (field_number b))
    else if type == 9 || type == 10 || type == 11 || type == 12
    then compare_uint (pos_part (field_number a)) (pos_part (field_number b))
    else negsuc 0

unfoldable pub compare_typed : ℕ → ℕ → Object → Object → ℤ
compare_typed offset type a b =
    compare_field (bit_and type 0xf) (type / 2 ^ 4) (a offset) (b offset)

unfoldable pub compare_key : Object → Object → Key → ℤ
compare_key a b key = elim key.type [
  | pos type ↦ compare_typed key.offset type a b
  | negsuc n ↦ compare_typed key.offset (suc n) b a
]

abbrev pub is_end_key : Key → Bool
is_end_key key = elim key.type [ pos n ↦ n == 0 | negsuc n ↦ false ]

abbrev pub is_equal : ℤ → Bool
is_equal (pos n) = n == 0
is_equal (negsuc n) = false

-- The loop over the keys that are left, three at most; `ret` is the last result.
unfoldable pub compare_keys_loop : ℕ → Object → Object → List Key → ℤ → ℤ
compare_keys_loop zero a b keys ret = ret
compare_keys_loop (suc left) a b [] ret = ret
compare_keys_loop (suc left) a b (key ∷ keys) ret =
    let next = compare_key a b key in
    let rest = compare_keys_loop left a b keys next in
    if is_end_key key then ret else if is_equal next then rest else next

-- Without a key the result is not initialised, and `none`.
unfoldable pub compare_keys : Object → Object → ListInfo → Option ℤ
compare_keys a b info = elim info.key [
  | [] ↦ none
  | key ∷ keys ↦
      if is_end_key key then none else some (compare_keys_loop 3 a b (key ∷ keys) (pos 0))
]

abbrev pub is_positive : ℤ → Bool
is_positive (pos n) = if n == 0 then false else true
is_positive (negsuc n) = false

-- The object goes in front of the first that it does not come after.
unfoldable pub insert_se_object : List Object → Object → ListInfo → Option (List Object)
insert_se_object [] n info = some (n ∷ [])
insert_se_object (l ∷ rest) n info =
    let further = insert_se_object rest n info in
    elim (compare_keys n l info) [
      | none ↦ none
      | some c ↦
          if is_positive c
          then elim further [ none ↦ none | some tail ↦ some (l ∷ tail) ]
          else some (n ∷ l ∷ rest)
    ]
