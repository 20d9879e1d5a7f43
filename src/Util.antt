-- ===== src/Util.antt =====
-- util.c: number parsing and small string helpers.
-- A `char *` into a string is the list of the bytes up to its NUL, which is left out; reading at
-- the end of the list gives the NUL.
use epri_client.Prelude.{
  ℕ, zero, suc, ◌+◌, ◌-◌, ◌*◌, ◌/◌, ◌%◌, ◌^◌, Bool, true, false, ◌&&◌, ◌||◌, Option, none, some,
  List, [], ◌∷◌, map, ltb, leb, ◌==◌, in_range, if◌then◌else◌,
}
pub mod Numbers

abbrev pub Bytes : Type 0
Bytes = List ℕ

abbrev pub digit : ℕ → Bool
digit c = in_range c b'0' b'9'

abbrev pub alpha : ℕ → Bool
alpha c = in_range c b'a' b'z' || in_range c b'A' b'Z'

abbrev pub ws : ℕ → Bool
ws c = c == b'\n' || c == b' ' || c == b'\t' || c == b'\r'

unfoldable pub streq : Bytes → Bytes → Bool
streq [] [] = true
streq [] (y ∷ b) = false
streq (x ∷ a) [] = false
streq (x ∷ a) (y ∷ b) = let rest = streq a b in if x == y then rest else false

-- On a `uint32_t`; 32 rounds are enough, and `none` would be a round too many.
unfoldable pub bit_count_loop : ℕ → ℕ → ℕ → Option ℕ
bit_count_loop zero x n = if x == 0 then some n else none
bit_count_loop (suc fuel) x n =
    let rest = bit_count_loop fuel (x / 2) (n + 1) in if x == 0 then some n else rest

unfoldable pub bit_count : ℕ → Option ℕ
bit_count x = bit_count_loop 32 x 0

-- The position of the first equal string, or the number of the strings.
unfoldable pub string_index : Bytes → List Bytes → ℕ
string_index s [] = 0
string_index s (t ∷ rest) = let later = string_index s rest in if streq s t then 0 else suc later

unfoldable pub trim : Bytes → Bytes
trim [] = []
trim (c ∷ rest) = let more = trim rest in if ws c then more else c ∷ rest

-- `tolower` of libc in the C locale, by its documentation.
abbrev tolower : ℕ → ℕ
tolower c = if in_range c b'A' b'Z' then c + 32 else c

unfoldable pub to_lower : Bytes → Bytes
to_lower s = map tolower s

-- The number read and the rest of the data, `NULL`, or a signed overflow, which C leaves undefined.
pub data Number : Type 0 where
  number_read : ℕ → Bytes → Number
  no_digits : Number
  signed_overflow : Number

abbrev pub read_end : ℕ → ℕ → Bytes → Number
read_end y n rest = if n == 0 then no_digits else number_read y rest

-- The loop of `number`, with the value and the count of the digits so far.
unfoldable pub number_loop : ℕ → ℕ → Bytes → Number
number_loop y n [] = read_end y n []
number_loop y n (c ∷ rest) =
    let more = number_loop (y * 10 + (c - b'0')) (n + 1) rest in
    if digit c
    then (if ltb (y * 10 + (c - b'0')) (2 ^ 31) then more else signed_overflow)
    else read_end y n (c ∷ rest)

unfoldable pub number : Bytes → Number
number text = number_loop 0 0 text

-- The loop of `number64`, on a `uint64_t`.
unfoldable pub number64_loop : ℕ → ℕ → Bytes → Number
number64_loop y n [] = read_end y n []
number64_loop y n (c ∷ rest) =
    let more = number64_loop ((y * 10 + (c - b'0')) % 2 ^ 64) (n + 1) rest in
    if digit c then more else read_end y n (c ∷ rest)

unfoldable pub number64 : Bytes → Number
number64 text = number64_loop 0 0 text
