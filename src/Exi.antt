-- ===== src/Exi.antt =====
-- exi_parse.c and exi_output.c: the bit stream of an EXI document and the numbers in it.
-- The reader holds the bytes from `ptr` to `end` and the bit offset; the writer holds the bytes in
-- front of `ptr`, the byte at `ptr`, and the bit offset. The bytes behind the writer's `ptr` are 0,
-- as `exi_output_header` clears the buffer.
use epri_client.Prelude.{
  ℕ, zero, suc, ◌+◌, ◌-◌, ◌*◌, ◌/◌, ◌%◌, ◌^◌, Bool, true, false, not, ◌&&◌, Option, none, some,
  List, [], ◌∷◌, ◌++◌, ltb, leb, ◌==◌, if◌then◌else◌, bit_and, bit_or, length,
}
pub mod Streams
pub mod Values
pub mod Strings
pub mod Output
pub mod Literals
pub mod Room
pub mod Driver
pub mod Laws
pub mod Groups
pub mod Integers

pub record Reader : Type 0 where
  pub ptr : List ℕ
  pub bit : ℕ

pub record Writer : Type 0 where
  pub bytes : List ℕ
  pub cur : ℕ
  pub bit : ℕ

abbrev pub reader : List ℕ → ℕ → Reader
reader ptr bit = record { ptr = ptr; bit = bit }

abbrev pub writer : List ℕ → ℕ → ℕ → Writer
writer bytes cur bit = record { bytes = bytes; cur = cur; bit = bit }

-- `*ptr`, where the code reads it before it knows that it may.
abbrev pub peek : List ℕ → ℕ
peek [] = 0
peek (c ∷ _) = c

abbrev pub tail : List ℕ → List ℕ
tail [] = []
tail (_ ∷ rest) = rest

-- A byte at any bit offset, or `none` where the stream does not hold enough bytes.
unfoldable pub parse_byte_at : List ℕ → ℕ → Option (ℕ × Reader)
parse_byte_at [] bit = none
parse_byte_at (c ∷ []) bit = if bit == 0 then some (c, reader [] bit) else none
parse_byte_at (c ∷ d ∷ rest) bit =
    if bit == 0
    then some (c, reader (d ∷ rest) bit)
    else some (bit_or (c * 2 ^ bit % 256) (d / 2 ^ (8 - bit)), reader (d ∷ rest) bit)

unfoldable pub parse_byte : Reader → Option (ℕ × Reader)
unfolding parse_byte_at
parse_byte r = parse_byte_at r.ptr r.bit

unfoldable pub parse_bit_at : List ℕ → ℕ → Option (ℕ × Reader)
parse_bit_at [] bit = none
parse_bit_at (c ∷ rest) bit = some (
  bit_and (c / 2 ^ (7 - bit)) 1,
  if bit_and (bit + 1) 8 == 0 then reader (c ∷ rest) (bit + 1) else reader rest 0,
)

unfoldable pub parse_bit : Reader → Option (ℕ × Reader)
unfolding parse_bit_at
parse_bit r = parse_bit_at r.ptr r.bit

-- The bytes behind the first one joined to a `uint32_t`, and the bytes from the last one on.
unfoldable pub fetch : ℕ → ℕ → List ℕ → ℕ × List ℕ
fetch zero bits ptr = (bits, ptr)
fetch (suc n) bits ptr = fetch n (bit_or (bits * 2 ^ 8 % 2 ^ 32) (peek (tail ptr))) (tail ptr)

-- The low `n` bits, for `& ~(-1 << n)`.
abbrev pub low_bits : ℕ → ℕ → ℕ
low_bits n x = x % 2 ^ n

unfoldable pub parse_bits : Reader → ℕ → Option (ℕ × Reader)
unfolding fetch
parse_bits r n =
    let total = r.bit + n in
    let bytes = total / 2 ^ 3 in
    let bit = bit_and total 7 in
    let (bits, ptr) = fetch bytes (peek r.ptr) r.ptr in
    if ltb (length r.ptr) (if bit == 0 then bytes else bytes + 1)
    then none
    else some (low_bits n (bits / 2 ^ (8 - bit)), reader ptr bit)

-- What `parse_uint` comes to: a number, no more bytes after `ux_n` bits, too many bytes, or a shift
-- of an `int` that C leaves undefined.
pub data ParsedUint : Type 0 where
  uint : ℕ → Reader → ParsedUint
  more_needed : ℕ → ℕ → Reader → ParsedUint
  invalid : ParsedUint
  undefined_shift : ParsedUint

-- `(b & 0x7f) << ux_n` on an `int` of 32 bits.
abbrev pub shift_is_defined : ℕ → ℕ → Bool
shift_is_defined group ux_n = ltb ux_n 32 && ltb (group * 2 ^ ux_n) (2 ^ 31)

-- The loop; 11 rounds are enough, since the 11th sees `ux_n == 70`.
unfoldable pub parse_uint_loop : ℕ → Reader → ℕ → ℕ → ParsedUint
parse_uint_loop zero r ux ux_n = invalid
parse_uint_loop (suc fuel) r ux ux_n = if ux_n == 70 then invalid else elim (parse_byte r) [
  | none ↦ more_needed ux ux_n r
  | some (b, r') ↦
      let group = bit_and b 0x7f in
      let ux' = bit_or ux (group * 2 ^ ux_n) in
      let more = parse_uint_loop fuel r' ux' (ux_n + 7) in
      if not (shift_is_defined group ux_n)
      then undefined_shift
      else if bit_and b 0x80 == 0
      then uint ux' r'
      else more
]

unfoldable pub parse_uint : Reader → ParsedUint
parse_uint r = parse_uint_loop 11 r 0 0

unfoldable pub output_byte : Writer → ℕ → Writer
output_byte w b =
    if w.bit == 0
    then writer (w.bytes ++ b ∷ []) 0 0
    else writer (w.bytes ++ bit_or w.cur (b / 2 ^ w.bit) ∷ []) (b * 2 ^ (8 - w.bit) % 256) w.bit

-- The loop; 10 rounds are enough for 64 bits.
unfoldable pub output_uint_loop : ℕ → Writer → ℕ → Writer
output_uint_loop zero w x = w
output_uint_loop (suc fuel) w x =
    let group = bit_and x 0x7f in
    let last = x / 2 ^ 7 == 0 in
    let w' = output_byte w (if last then group else bit_or group 0x80) in
    let more = output_uint_loop fuel w' (x / 2 ^ 7) in if last then w' else more

unfoldable pub output_uint : Writer → ℕ → Writer
output_uint w x = output_uint_loop 10 w x

unfoldable pub output_bit : Writer → ℕ → Writer
output_bit w bit =
    if w.bit == 7
    then writer (w.bytes ++ bit_or w.cur bit ∷ []) 0 0
    else writer w.bytes (bit_or w.cur (bit * 2 ^ (7 - w.bit))) (w.bit + 1)

-- The bytes of the stream, once the last byte is complete.
abbrev pub finish : Writer → List ℕ
finish w = if w.bit == 0 then w.bytes else w.bytes ++ w.cur ∷ []
