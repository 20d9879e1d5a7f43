-- ===== src/Utf8.antt =====
-- utf8.c: decoding one character, encoding one, and counting the characters of a string.
-- A `char *` is the list of the bytes from it to the end of its buffer. A string's NUL is one of
-- these bytes, and a read behind the buffer is the outcome `overrun`.
use epri_client.Prelude.{
  ℕ, zero, suc, ◌+◌, ◌*◌, ◌/◌, ◌^◌, Bool, Option, none, some, List, [], ◌∷◌, ◌++◌, ltb, leb, ◌==◌,
  if◌then◌else◌, bit_and, bit_or, bit_xor, get_or,
}
pub mod Decode
pub mod Encode
pub mod Length

abbrev pub Bytes : Type 0
Bytes = List ℕ

abbrev pub utf_reject : ℕ
utf_reject = 99

-- The classes of the bytes c0 to ff, and from index 64 on the transitions of the states.
abbrev pub utf_table : List ℕ
utf_table =
    1 ∷ 1 ∷ 2 ∷ 2 ∷ 2 ∷ 2 ∷ 2 ∷ 2 ∷ 2 ∷ 2 ∷ 2 ∷ 2 ∷ 2 ∷ 2 ∷ 2 ∷ 2 ∷ 2 ∷ 2 ∷ 2 ∷ 2 ∷ 2 ∷ 2 ∷ 2 ∷ 2
    ∷ 2 ∷ 2 ∷ 2 ∷ 2 ∷ 2 ∷ 2 ∷ 2 ∷ 2 ∷ 7 ∷ 3 ∷ 3 ∷ 3 ∷ 3 ∷ 3 ∷ 3 ∷ 3 ∷ 3 ∷ 3 ∷ 3 ∷ 3 ∷ 3 ∷ 4 ∷ 3 ∷ 3
    ∷ 8 ∷ 6 ∷ 6 ∷ 6 ∷ 5 ∷ 1 ∷ 1 ∷ 1 ∷ 1 ∷ 1 ∷ 1 ∷ 1 ∷ 1 ∷ 1 ∷ 1 ∷ 1 ∷ 99 ∷ 99 ∷ 9 ∷ 13 ∷ 17 ∷ 21
    ∷ 25 ∷ 29 ∷ 33 ∷ 0 ∷ 0 ∷ 0 ∷ 0 ∷ 9 ∷ 9 ∷ 9 ∷ 9 ∷ 9 ∷ 9 ∷ 99 ∷ 99 ∷ 17 ∷ 99 ∷ 99 ∷ 99 ∷ 17 ∷ 17
    ∷ 17 ∷ 17 ∷ 99 ∷ 99 ∷ 9 ∷ 9 ∷ 99 ∷ 17 ∷ 17 ∷ 17 ∷ []

-- `utf_table[i]`, with every index that the code uses inside the table.
unfoldable pub utf_entry : ℕ → ℕ
utf_entry i = get_or utf_table i 99

-- What `utf8_char` does: the character and the rest of the data, `NULL`, or a read too far.
pub data Decoded : Type 0 where
  char : ℕ → Bytes → Decoded
  reject : Decoded
  overrun : Decoded

-- `if (state == UTF_REJECT) return NULL`
abbrev pub enter : ℕ → ℕ → Option (ℕ × ℕ)
enter code state = if state == utf_reject then none else some (code, state)

-- The body of the loop for a byte from 80 on: the new code and state, or `NULL`.
unfoldable pub utf8_step : ℕ → ℕ → ℕ → Option (ℕ × ℕ)
utf8_step c code state =
    if state == 0
    then (if bit_and c 0x40 == 0
        then none
        else let type = utf_entry (bit_xor c 0xc0) in
          enter (bit_and (0xff / 2 ^ type) c) (utf_entry (64 + type)))
    else if bit_and c 0x40 == 0
    then (let type = bit_and (c / 2 ^ 4) 3 in
        enter (bit_or (bit_and c 0x3f) (code * 2 ^ 6)) (utf_entry (64 + state + type)))
    else none

-- The do-while loop.
unfoldable pub utf8_loop : Bytes → ℕ → ℕ → Decoded
utf8_loop [] code state = overrun
utf8_loop (c ∷ rest) code state =
    if ltb c 128
    then (if state == 0 then char c rest else reject)
    else elim (utf8_step c code state) [
      | none ↦ reject
      | some (code', state') ↦
          let more = utf8_loop rest code' state' in if state' == 0 then char code' rest else more
    ]

unfoldable pub utf8_char : Bytes → Decoded
utf8_char bytes = utf8_loop bytes 0 0

abbrev byte_1 : ℕ → Bytes
byte_1 code = bit_or 0x80 (bit_and code 0x3f) ∷ []

abbrev byte_2 : ℕ → Bytes
byte_2 code = bit_or 0x80 (bit_and (code / 2 ^ 6) 0x3f) ∷ byte_1 code

-- The bytes that `utf8_encode` writes, or `none` where it returns `NULL`.
unfoldable pub utf8_encode : ℕ → Option Bytes
utf8_encode code =
    if leb code 0x7f
    then some (code ∷ [])
    else if leb code 0x7ff
    then some (bit_or 0xc0 (code / 2 ^ 6) ∷ byte_1 code)
    else if leb code 0xffff
    then some (bit_or 0xe0 (code / 2 ^ 12) ∷ byte_2 code)
    else if leb code 0x1ffff
    then some
        (bit_or 0xe0 (code / 2 ^ 18) ∷ bit_or 0x80 (bit_and (code / 2 ^ 12) 0x3f) ∷ byte_2 code)
    else none

-- How many bytes behind a lead byte are passed over.
pub utf8_skip : ℕ → ℕ
utf8_skip c =
    if bit_and c 0x80 == 0
    then 0
    else if bit_and c 0x20 == 0
    then 1
    else if bit_and c 0x10 == 0
    then 2
    else 3

-- The loop of `utf8_length`, with the bytes still to pass over. `none` is a read behind the buffer.
pub utf8_count : ℕ → Bytes → Option ℕ
utf8_count skip [] = none
utf8_count (suc skip) (c ∷ rest) = utf8_count skip rest
utf8_count zero (c ∷ rest) =
    let more = utf8_count (utf8_skip c) rest in
    if c == 0 then some 0 else elim more [ none ↦ none | some n ↦ some (suc n) ]

pub utf8_length : Bytes → Option ℕ
utf8_length bytes = utf8_count 0 bytes
