-- ===== src/Xml.antt =====
-- xml_token.c: the characters, names, references and attributes of XML.
-- A `char *` is the list of the bytes up to the NUL, which is left out. The code decodes a text in its
-- buffer, behind the place that it reads, so that a decoded text is a list of its own here.
use epri_client.Prelude.{
  ℕ, zero, suc, ◌+◌, ◌-◌, ◌*◌, ◌%◌, ◌^◌, Bool, true, false, not, ◌&&◌, ◌||◌, Option, none, some,
  List, [], ◌∷◌, ◌++◌, ltb, ◌==◌, in_range, if◌then◌else◌, length, get_or, take, set,
}
use epri_client.Util.{
  Bytes, digit, alpha, ws, streq, trim, string_index, Number, number_read, no_digits,
  signed_overflow, read_end, number,
}
use epri_client.Utf8.{Decoded, char, utf8_char, utf8_encode}
use epri_client.Exi.Strings.{c_string}
pub mod Endless
pub mod Laws
pub mod Output
pub mod Parse
pub mod RoundTrip
pub mod Signed
pub mod Simple
pub mod Token
pub mod Values

abbrev pub max_attribute : ℕ
max_attribute = 16

unfoldable pub attr_value : List (Bytes × Bytes) → Bytes → Option Bytes
attr_value [] name = none
attr_value ((n, v) ∷ rest) name =
    let later = attr_value rest name in if streq n name then some v else later

unfoldable pub name_start : ℕ → Bool
name_start c =
    alpha c
    || c == b':'
    || c == b'_'
    || in_range c 0xc0 0xd6
    || in_range c 0xd8 0xf6
    || in_range c 0xf8 0x2ff
    || in_range c 0x370 0x37d
    || in_range c 0x37f 0x1fff
    || in_range c 0x200c 0x200d
    || in_range c 0x2070 0x218f
    || in_range c 0x2c00 0x2fef
    || in_range c 0x3001 0xd7ff
    || in_range c 0xf900 0xfdcf
    || in_range c 0xfdf0 0xfffd
    || in_range c 0x10000 0xeffff

unfoldable pub name_char : ℕ → Bool
name_char c =
    c == b'-'
    || c == b'.'
    || digit c
    || name_start c
    || c == 0xb7
    || in_range c 0x300 0x36f
    || in_range c 0x203f 0x2040

-- `utf8_char` on a string, at whose end it reads the NUL.
unfoldable pub decoded_char : Decoded → Option (ℕ × Bytes)
decoded_char (char c rest) = some (c, rest)
decoded_char _ = none

abbrev pub next_char : Bytes → Option (ℕ × Bytes)
next_char [] = some (0, [])
next_char (c ∷ rest) = decoded_char (utf8_char (c ∷ rest))

-- The loop of `xml_name`, with the bytes of the last character that are still to pass over.
unfoldable pub name_loop : ℕ → Bool → Bytes → Option Bytes
name_loop skip first [] = if first then none else some []
name_loop (suc skip) first (c ∷ rest) = name_loop skip first rest
name_loop zero first (c ∷ rest) = elim (next_char (c ∷ rest)) [
  | none ↦ none
  | some (code, next) ↦
      let more = name_loop (length rest - length next) false rest in
      if first
      then (if name_start code then more else none)
      else if name_char code
      then more
      else some (c ∷ rest)
]

-- The text behind the name.
unfoldable pub xml_name : Bytes → Option Bytes
xml_name input = name_loop 0 true input

-- The bytes from `data` to `end`.
abbrev pub between : Bytes → Bytes → Bytes
between input end = take (length input - length end) input

unfoldable pub xml_char : ℕ → Bool
xml_char c =
    ws c || in_range c 0x20 0xd7ff || in_range c 0xe000 0xfffd || in_range c 0x10000 0x10ffff

-- What is taken from a digit to get its value, or 0.
unfoldable pub hex_digit : ℕ → ℕ
hex_digit c =
    if digit c
    then b'0'
    else if in_range c b'a' b'f'
    then b'a' - 10
    else if in_range c b'A' b'F'
    then b'A' - 10
    else 0

unfoldable pub hex_loop : ℕ → ℕ → Bytes → Number
hex_loop y n [] = read_end y n []
hex_loop y n (d ∷ rest) =
    let c = hex_digit d in
    let x = y * 16 + (d - c) in
    let more = hex_loop x (n + 1) rest in
    if c == 0 then read_end y n (d ∷ rest) else if ltb x (2 ^ 31) then more else signed_overflow

unfoldable pub hex_number : Bytes → Number
hex_number input = hex_loop 0 0 input

-- `strchr`: what is in front of the character, and what is behind it.
unfoldable pub cut_at : ℕ → Bytes → Option (Bytes × Bytes)
cut_at c [] = none
cut_at c (x ∷ rest) =
    let later = cut_at c rest in
    if x == c
    then some ([], rest)
    else elim later [ none ↦ none | some (before, after) ↦ some (x ∷ before, after) ]

-- The bytes that a reference stands for and the text behind it; `NULL`; or a text that goes on at a null
-- pointer or with a number that overflowed.
pub data Reference : Type 0 where
  reference : Bytes → Bytes → Reference
  bad_reference no_text : Reference

abbrev refs : List Bytes
refs =
    (b'a' ∷ b'm' ∷ b'p' ∷ [])
    ∷ (b'l' ∷ b't' ∷ [])
    ∷ (b'g' ∷ b't' ∷ [])
    ∷ (b'q' ∷ b'u' ∷ b'o' ∷ b't' ∷ [])
    ∷ (b'a' ∷ b'p' ∷ b'o' ∷ b's' ∷ [])
    ∷ []

abbrev entity : List ℕ
entity = b'&' ∷ b'<' ∷ b'>' ∷ 34 ∷ 39 ∷ []

unfoldable pub encoded_reference : Option Bytes → Bytes → Reference
encoded_reference none end = no_text
encoded_reference (some bytes) end = reference bytes end

unfoldable pub char_reference : Number → Bytes → Reference
char_reference (number_read code []) end = encoded_reference (utf8_encode code) end
char_reference (number_read code (c ∷ rest)) end = bad_reference
char_reference no_digits end = bad_reference
char_reference signed_overflow end = no_text

unfoldable pub entity_reference : Bytes → Bytes → Reference
entity_reference name end =
    let i = string_index name refs in
    if ltb i 5 then reference (get_or entity i 0 ∷ []) end else bad_reference

abbrev pub number_of : Bytes → Number
number_of [] = number []
number_of (c ∷ rest) = if c == b'x' then hex_number rest else number (c ∷ rest)

unfoldable pub named_reference : Bytes → Bytes → Reference
named_reference [] end = entity_reference [] end
named_reference (c ∷ rest) end =
    if c == b'#' then char_reference (number_of rest) end else entity_reference (c ∷ rest) end

unfoldable pub xml_reference : Bytes → Reference
xml_reference input = elim (cut_at b';' input) [
  | none ↦ bad_reference
  | some (name, end) ↦ named_reference name end
]

-- `strncmp` with the length of the first text.
unfoldable pub has_prefix : Bytes → Bytes → Bool
has_prefix [] input = true
has_prefix (c ∷ prefix) [] = false
has_prefix (c ∷ prefix) (x ∷ input) =
    let more = has_prefix prefix input in if c == x then more else false

-- What is in front of the mark, and what is `n` bytes behind its first byte.
unfoldable pub token_end : Bytes → Bytes → Option (Bytes × Bytes)
token_end mark [] = none
token_end mark (c ∷ rest) =
    let later = token_end mark rest in
    if has_prefix mark (c ∷ rest)
    then some ([], behind (length mark) (c ∷ rest))
    else elim later [ none ↦ none | some (before, after) ↦ some (c ∷ before, after) ]
  where
    behind : ℕ → Bytes → Bytes
    behind zero input = input
    behind (suc n) [] = []
    behind (suc n) (x ∷ input) = behind n input

-- The value of an attribute and the text behind the quote.
pub data AttValue : Type 0 where
  att_read : Bytes → Bytes → AttValue
  bad_value no_value_text : AttValue

-- The loop of `att_value`, with the bytes of a reference that are still to pass over. Behind the bytes
-- of a reference the code writes its `&`.
unfoldable pub att_loop : ℕ → ℕ → Bytes → Bytes → AttValue
att_loop q skip value [] = bad_value
att_loop q (suc skip) value (c ∷ input) = att_loop q skip value input
att_loop q zero value (c ∷ input) =
    let plain = att_loop q 0 (value ++ c ∷ []) input in
    let referred : AttValue = elim (xml_reference input) [
      | bad_reference ↦ bad_value
      | no_text ↦ no_value_text
      | reference written next ↦
          att_loop q (length input - length next) (value ++ written ++ c ∷ []) input
    ] in
    if c == b'<'
    then bad_value
    else if c == b'&'
    then referred
    else if c == q
    then att_read (c_string value) input
    else plain

unfoldable pub att_value : Bytes → AttValue
att_value [] = bad_value
att_value (q ∷ value) = if q == 34 || q == 39 then att_loop q 0 [] value else bad_value

unfoldable pub xml_eq : Bytes → Option Bytes
xml_eq input = after_eq (trim input)
  where
    after_eq : Bytes → Option Bytes
    after_eq [] = none
    after_eq (c ∷ rest) = if c == b'=' then some (trim rest) else none

-- The attributes and the text behind them, `NULL`, or what C leaves undefined.
pub data Attributes : Type 0 where
  attributes : List (Bytes × Bytes) → Bytes → Attributes
  bad_attributes no_attribute_text : Attributes

-- `attr[i]` and `attr[i+1]`; the array is filled from its first item on.
abbrev pub put_attr : List (Bytes × Bytes) → ℕ → Bytes × Bytes → List (Bytes × Bytes)
put_attr attr i a = if ltb i (length attr) then set attr i a else attr ++ a ∷ []

unfoldable pub attribute_value : Option Bytes → AttValue
attribute_value none = bad_value
attribute_value (some value) = att_value value

-- The loop of `xml_attributes`; `i` counts pairs.
unfoldable pub attributes_loop : ℕ → List (Bytes × Bytes) → ℕ → Bytes → Attributes
attributes_loop skip attr i [] = attributes attr []
attributes_loop (suc skip) attr i (c ∷ rest) = attributes_loop skip attr i rest
attributes_loop zero attr i (c ∷ rest) = elim (xml_name (c ∷ rest)) [
  | none ↦ attributes attr (c ∷ rest)
  | some end ↦ elim (attribute_value (xml_eq end)) [
    | bad_value ↦ bad_attributes
    | no_value_text ↦ no_attribute_text
    | att_read value next ↦
        attributes_loop (length rest - length (trim next))
          (put_attr attr i (between (c ∷ rest) end, value)) ((i + 1) % max_attribute) rest
  ]
]

unfoldable pub xml_attributes : Bytes → Attributes
xml_attributes input = attributes_loop 0 [] 0 (trim input)
