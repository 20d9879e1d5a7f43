-- ===== src/Exi/Values.antt =====
-- Bit fields, signed numbers and binary data of exi_parse.c and exi_output.c.
use epri_client.Prelude.{
  ℕ, zero, suc, ◌+◌, ◌-◌, ◌*◌, ◌/◌, ◌%◌, ◌^◌, Bool, true, false, Option, none, some, List, [], ◌∷◌,
  ◌++◌, ltb, ◌==◌, if◌then◌else◌, bit_and, bit_or, length,
}
use epri_client.Prelude.Int.{ℤ, pos, negsuc}
use epri_client.Exi.{
  Reader, Writer, writer, parse_bit, parse_byte, parse_uint, ParsedUint, uint, more_needed, invalid,
  undefined_shift, output_bit, output_byte, output_uint,
}

-- The bytes in front of the last one, from the last to the first.
unfoldable pub fill_bytes : ℕ → ℕ → List ℕ → List ℕ
fill_bytes zero bits filled = filled
fill_bytes (suc i) bits filled = fill_bytes i (bits / 2 ^ 8) (bits % 2 ^ 8 ∷ filled)

-- The first byte joins what the writer holds; the last one is its new byte.
unfoldable pub place_bytes : Writer → ℕ → ℕ → List ℕ → Writer
place_bytes w m last [] = writer w.bytes (bit_or w.cur last) m
place_bytes w m last (x ∷ filled) = writer (w.bytes ++ bit_or w.cur x ∷ filled) last m

unfoldable pub output_bits : Writer → ℕ → ℕ → Writer
output_bits w bits n =
    let m = bit_and (w.bit + n) 7 in
    let i = (w.bit + n) / 2 ^ 3 in
    if m == 0
    then place_bytes w 0 0 (fill_bytes i bits [])
    else place_bytes w m (bits * 2 ^ (8 - m) % 2 ^ 8) (fill_bytes i (bits / 2 ^ m) [])

unfoldable pub output_integer : Writer → ℤ → Writer
output_integer w (pos n) = output_uint (output_bit w 0) n
output_integer w (negsuc n) = output_uint (output_bit w 1) (suc n)

-- Zeros in front of another byte are left out.
unfoldable pub skip_zeros : List ℕ → List ℕ
skip_zeros [] = []
skip_zeros (c ∷ []) = c ∷ []
skip_zeros (c ∷ d ∷ rest) =
    let fewer = skip_zeros (d ∷ rest) in if c == 0 then fewer else c ∷ d ∷ rest

unfoldable pub output_bytes : Writer → List ℕ → Writer
output_bytes w [] = w
output_bytes w (c ∷ rest) = output_bytes (output_byte w c) rest

-- `size` is the size of the buffer; the result is whether the data fitted.
unfoldable pub output_binary : ℕ → Writer → List ℕ → Bool × Writer
output_binary size w data_bytes =
    let kept = skip_zeros data_bytes in
    let w' = output_uint w (length kept) in
    if ltb size (length w'.bytes + length kept + 1)
    then (false, w')
    else (true, output_bytes w' kept)

-- A signed number from the state 0 on, or from the state 1 on with the sign that was read.
pub data ParsedInteger : Type 0 where
  integer : ℤ → Reader → ParsedInteger
  no_sign : ParsedInteger
  no_number : ℕ → ParsedUint → ParsedInteger

-- `-x` of a number.
abbrev pub negative : ℕ → ℤ
negative zero = pos 0
negative (suc n) = negsuc n

unfoldable pub parse_magnitude : ℕ → Reader → ParsedInteger
parse_magnitude sign r = elim (parse_uint r) [
  | uint x r' ↦ integer (if sign == 0 then pos x else negative x) r'
  | more_needed ux n r' ↦ no_number sign (more_needed ux n r')
  | invalid ↦ no_number sign invalid
  | undefined_shift ↦ no_number sign undefined_shift
]

unfoldable pub parse_integer : Reader → ParsedInteger
parse_integer r = elim (parse_bit r) [ none ↦ no_sign | some (sign, r') ↦ parse_magnitude sign r' ]

-- The bytes in their order, as many as were asked for.
unfoldable pub parse_bytes : ℕ → Reader → Option (List ℕ × Reader)
parse_bytes zero r = some ([], r)
parse_bytes (suc m) r = elim (parse_byte r) [
  | none ↦ none
  | some (b, r') ↦ elim (parse_bytes m r') [ none ↦ none | some (more, r'') ↦ some (b ∷ more, r'') ]
]

-- The state 1 of `parse_binary`: the data, once all of it is there.
unfoldable pub parse_binary_data : ℕ → Reader → Option (List ℕ × Reader)
parse_binary_data ux r =
    let needed = if r.bit == 0 then ux else ux + 1 in
    if ltb (length r.ptr) needed then none else parse_bytes ux r
