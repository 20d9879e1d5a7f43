-- ===== src/Xml/Simple.antt =====
-- xml_parse.c: the values of simple types in a text.
use epri_client.Prelude.{
  ℕ, zero, suc, ◌+◌, ◌-◌, ◌*◌, ◌^◌, Bool, true, false, not, ◌&&◌, ◌||◌, Option, none, some, [], ◌∷◌,
  ◌++◌, ltb, ◌==◌, if◌then◌else◌, length,
}
use epri_client.Prelude.Int.{pos}
use epri_client.Util.{Bytes, streq, trim, Number, number_read, no_digits, signed_overflow, number64}
use epri_client.Schema.{xs_string, xs_boolean, xs_hex_binary, xs_any_uri}
use epri_client.Exi.Values.{negative}
use epri_client.Exi.Driver.{unsigned, signed, zeros}
use epri_client.Parser.{Pointer, Memory, text, store, set_count}
use epri_client.Xml.{hex_digit}

-- The integer; more text behind it; a read at the null pointer that `number64` gives where there are no
-- digits; or `*y *= sign` of the least number of 64 bits, which C leaves undefined.
pub data IntText : Type 0 where
  int_read : ℕ → IntText
  not_only null_read negation_overflow : IntText

unfoldable pub only_number : Number → IntText
only_number (number_read x rest) = if length (trim rest) == 0 then int_read x else not_only
only_number no_digits = null_read
only_number signed_overflow = null_read

unfoldable pub unsigned_int : Bytes → IntText
unsigned_int s = only_number (number64 s)

-- `*y *= sign` for the sign -1: `*y` has the bits of the number, so that 2^63 stands for the least number.
abbrev pub negated : IntText → IntText
negated (int_read x) = if x == 2 ^ 63 then negation_overflow else int_read x
negated y = y

-- The sign and the number without it.
unfoldable pub signed_int : Bytes → Bool × IntText
signed_int [] = (false, unsigned_int [])
signed_int (c ∷ rest) =
    if c == b'-' then (true, negated (unsigned_int rest)) else (false, unsigned_int (c ∷ rest))

-- The loop of `parse_hex`: the bytes and the text behind them.
unfoldable pub hex_bytes : ℕ → Bytes → Option (Bytes × Bytes)
hex_bytes n [] = some ([], [])
hex_bytes n (d ∷ []) = if hex_digit d == 0 then some ([], d ∷ []) else none
hex_bytes zero (d ∷ e ∷ rest) = if hex_digit d == 0 then some ([], d ∷ e ∷ rest) else none
hex_bytes (suc n) (d ∷ e ∷ rest) =
    let x = (d - hex_digit d) * 16 + (e - hex_digit e) in
    let more : Option (Bytes × Bytes) = elim (hex_bytes n rest) [
      | none ↦ none
      | some (bytes, end) ↦ some (x ∷ bytes, end)
    ] in
    if hex_digit d == 0 then some ([], d ∷ e ∷ rest) else if hex_digit e == 0 then none else more

unfoldable pub hex_value : ℕ → Option (Bytes × Bytes) → Option Bytes
hex_value n none = none
hex_value n (some (bytes, end)) =
    if length bytes == 0 || not (length (trim end) == 0)
    then none
    else some (zeros (n - length bytes) ++ bytes)

-- The container of `n` bytes, with the number at its end.
unfoldable pub parse_hex : ℕ → Bytes → Option Bytes
parse_hex n s = hex_value n (hex_bytes n s)

-- What `parse_value` comes to: the memory, 0, an invalid document, or a read at a null pointer.
pub data ValueText : Type 0 where
  value_read : Memory → ValueText
  no_value invalid_value undefined_value : ValueText

unfoldable pub pack_unsigned : Memory → Pointer → ℕ → IntText → ValueText
pack_unsigned m at w (int_read x) = value_read (store m at (unsigned w x))
pack_unsigned m at w not_only = no_value
pack_unsigned m at w null_read = undefined_value
pack_unsigned m at w negation_overflow = undefined_value

unfoldable pub pack_signed : Memory → Pointer → ℕ → Bool × IntText → ValueText
pack_signed m at w (true, int_read x) = value_read (store m at (signed w (negative x)))
pack_signed m at w (false, int_read x) = value_read (store m at (signed w (pos x)))
pack_signed m at w (_, not_only) = no_value
pack_signed m at w (_, null_read) = undefined_value
pack_signed m at w (_, negation_overflow) = undefined_value

abbrev pub true_text : Bytes
true_text = b't' ∷ b'r' ∷ b'u' ∷ b'e' ∷ []

abbrev pub false_text : Bytes
false_text = b'f' ∷ b'a' ∷ b'l' ∷ b's' ∷ b'e' ∷ []

unfoldable pub parse_boolean : Memory → Pointer → ℕ → Bytes → ValueText
parse_boolean m at flag s =
    if streq s true_text || streq s (b'1' ∷ [])
    then value_read (set_count m at 1 flag)
    else if streq s false_text || streq s (b'0' ∷ [])
    then value_read m
    else invalid_value

unfoldable pub stored_hex : Memory → Pointer → Option Bytes → ValueText
stored_hex m at none = no_value
stored_hex m at (some b) = value_read (store m at (text b))

-- By the kind of the type, `n` being its length; a number outside the type wraps around.
unfoldable pub text_of_kind : Memory → Pointer → ℕ → Bytes → ℕ → ℕ → ValueText
text_of_kind m at flag s kind n =
    if kind == xs_string
    then (if not (n == 0) && ltb (n - 1) (length s)
        then no_value
        else value_read (store m at (text s)))
    else if kind == xs_boolean
    then parse_boolean m at flag s
    else if kind == xs_hex_binary
    then stored_hex m at (parse_hex n s)
    else if kind == xs_any_uri
    then value_read (store m at (text s))
    else if kind == 5
    then pack_signed m at 64 (signed_int s)
    else if kind == 6
    then pack_signed m at 32 (signed_int s)
    else if kind == 7
    then pack_signed m at 16 (signed_int s)
    else if kind == 8
    then pack_signed m at 8 (signed_int s)
    else if kind == 9
    then pack_unsigned m at 64 (unsigned_int s)
    else if kind == 10
    then pack_unsigned m at 32 (unsigned_int s)
    else if kind == 11
    then pack_unsigned m at 16 (unsigned_int s)
    else if kind == 12
    then pack_unsigned m at 8 (unsigned_int s)
    else no_value
