-- ===== src/Exi/Room.antt =====
-- A string that exi_parse.c stores in a container of a fixed size fits in it with its NUL.
use epri_client.Prelude.{
  ℕ, ◌+◌, ◌-◌, ◌<◌, ◌≤◌, ◌≡◌, ◌≢◌, refl, sym, ap, arith, Bool, true, false, not, ◌&&◌, Option, none,
  some, List, [], ◌∷◌, ltb, leb, ◌==◌, if◌then◌else◌, length, inl, inr, get_or, ◌⊎◌,
}
use epri_client.Util.{Bytes, bit_count}
use epri_client.StringTable.{StringTable, find_table}
use epri_client.Exi.{ParsedUint, uint, more_needed, invalid, undefined_shift}
use epri_client.Exi.Strings.{
  ExiReader, Parsed, parsed, waiting, refused, undefined, and_then, with_state, uint_answer,
  resume_uint, TextLength, text_length, text_too_long, text_too_short, exi_utf8_length,
  parse_literal, c_string, fitted, compact_id_in, parse_compact_id, literal_text, literal_answer,
  string_value, from_string_state, exi_parse_string, add_literal, read_bits,
}
use epri_client.Exi.Literals.{length-parse_literal}

and_then-parsed :
    {A B : Type 0} (x : Parsed A) (f : A → ExiReader → Parsed B) (b : B) (r : ExiReader)
    → and_then x f ≡ parsed b r
    → (a : A) × (s : ExiReader) × (x ≡ parsed a s) × (f a s ≡ parsed b r)
and_then-parsed (parsed a s) f b r e = (a, s, refl, e)
and_then-parsed (waiting s) f b r e = cc
and_then-parsed (refused s) f b r e = cc
and_then-parsed undefined f b r e = cc

length-c_string : (s : Bytes) → length (c_string s) ≤ length s
unfolding c_string
length-c_string [] = omega arith
length-c_string (c ∷ rest) = ground (arith, length-c_string rest)

-- The result of a function that reads a string for a container of `n` bytes.
abbrev Fits : ℕ → Parsed Bytes → Type 0
Fits n x = (s : Bytes) (r : ExiReader) → x ≡ parsed s r → length s < n

if_cases :
    {A : Type 0} (b : Bool) (x y z : Parsed A)
    → (if b then x else y) ≡ z
    → ((b ≡ true) × (x ≡ z)) ⊎ ((b ≡ false) × (y ≡ z))
if_cases true x y z e = inl (refl, e)
if_cases false x y z e = inr (refl, e)

parsed-value : {A : Type 0} (a b : A) (r s : ExiReader) → parsed a r ≡ parsed b s → a ≡ b
parsed-value a b r s e = cc

parsed-reader : {A : Type 0} (a b : A) (r s : ExiReader) → parsed a r ≡ parsed b s → r ≡ s
parsed-reader a b r s e = cc

fitted-Fits : (r : ExiReader) (s : Bytes) (n : ℕ) → n ≢ 0 → Fits n (fitted r s n)
unfolding fitted
fitted-Fits r s n ne t r' e = elim (if_cases (n == 0) _ _ _ e) [
  | inl (h, _) ↦ ground arith
  | inr (h, f) ↦ elim (if_cases (leb (length s + 1) n) _ _ _ f) [
    | inl (fits, g) ↦ let same : s ≡ t = parsed-value s t r r' g in rw (sym same) (ground arith)
    | inr (over, g) ↦ cc
  ]
]

compact_id_in-Fits :
    (r : ExiReader) (strings : List Bytes) (n : ℕ) → n ≢ 0 → Fits n (compact_id_in r strings n)
unfolding compact_id_in
compact_id_in-Fits r [] n ne t r' e = cc
compact_id_in-Fits r (s ∷ strings) n ne t r' e =
    let (id, r₁, read, rest) =
      and_then-parsed (read_bits r (bit_count (length strings))) _ t r' e in
    elim (if_cases (ltb id (length strings + 1)) _ _ _ rest) [
      | inl (h, f) ↦ fitted-Fits r₁ (get_or (s ∷ strings) id []) n ne t r' f
      | inr (h, f) ↦ cc
    ]

parse_compact_id-Fits :
    (r : ExiReader) (table : Option StringTable) (n : ℕ)
    → n ≢ 0
    → Fits n (parse_compact_id r table n)
unfolding parse_compact_id
parse_compact_id-Fits r none n ne t r' e = cc
parse_compact_id-Fits r (some table) n ne t r' e = compact_id_in-Fits r table.strings n ne t r' e

-- A literal that is stored is below the length that `exi_utf8_length` found.
literal_text-Fits :
    (r : ExiReader) (name m n : ℕ) (x : Option (Bytes × ExiReader))
    → m < n
    → ((text : Bytes) (s : ExiReader) → x ≡ some (text, s) → length text ≤ m)
    → Fits n (literal_text r name x)
unfolding literal_text
literal_text-Fits r name m n none small bound t r' e = cc
literal_text-Fits r name m n (some (text, s)) small bound t r' e =
    let same = parsed-value (c_string text) t (add_literal s name (c_string text)) r' e in
    rw (sym same) (omega (arith, length-c_string text, bound text s refl))

literal_answer-Fits :
    (r : ExiReader) (name n count : ℕ) (x : TextLength)
    → n ≢ 0
    → r.ux_n ≡ 0
    → exi_utf8_length count r.stream 0 ≡ x
    → Fits n (literal_answer r name n count x)
unfolding literal_answer
literal_answer-Fits r name n count text_too_long ne fresh h t r' e = cc
literal_answer-Fits r name n count text_too_short ne fresh h t r' e = cc
literal_answer-Fits r name n count (text_length m) ne fresh h t r' e =
    elim (if_cases (m == 0) _ _ _ e) [
      | inl (none_left, f) ↦ cc
      | inr (some_left, f) ↦ elim (if_cases (not (n == 0) && leb n m) _ _ _ f) [
        | inl (over, g) ↦ cc
        | inr (under, g) ↦
            literal_text-Fits r name m n (parse_literal count r []) (ground arith)
              (λ text s. length-parse_literal count 0 m r [] text s fresh h (omega arith)) t r' g
      ]
    ]

string_value-Fits :
    (r : ExiReader) (name n : ℕ) → n ≢ 0 → r.ux_n ≡ 0 → Fits n (string_value r name n)
unfolding string_value
string_value-Fits r name n ne fresh t r' e = elim (if_cases (r.ux == 0) _ _ _ e) [
  | inl (at_local, f) ↦ parse_compact_id-Fits r (find_table r.local name) n ne t r' f
  | inr (other, f) ↦ elim (if_cases (r.ux == 1) _ _ _ f) [
    | inl (at_global, g) ↦ parse_compact_id-Fits r (find_table r.global 0) n ne t r' g
    | inr (literal, g) ↦ literal_answer-Fits r name n (r.ux - 2) _ ne fresh refl t r' g
  ]
]

from_string_state-Fits :
    (r : ExiReader) (name n : ℕ) → n ≢ 0 → r.ux_n ≡ 0 → Fits n (from_string_state r name n)
unfolding from_string_state
from_string_state-Fits r name n ne fresh t r' e =
    let (s, r₁, value, rest) = and_then-parsed (string_value r name n) _ t r' e in
    let same = parsed-value s t (with_state r₁ 0) r' rest in
    rw (sym same) (string_value-Fits r name n ne fresh s r₁ value)

uint_answer-fresh :
    (r : ExiReader) (u : ParsedUint) (x : ℕ) (s : ExiReader)
    → uint_answer r u ≡ parsed x s
    → s.ux_n ≡ 0
unfolding uint_answer
uint_answer-fresh r (uint y stream) x s e =
    sym (ap (λ v. v.ux_n) (parsed-reader y x (record r { stream = stream; ux = y; ux_n = 0 }) s e))
uint_answer-fresh r (more_needed y n stream) x s e = cc
uint_answer-fresh r invalid x s e = cc
uint_answer-fresh r undefined_shift x s e = cc

late : (r : ExiReader) → (r.exi_state ≡ 0) ⊎ (r.ux_n ≡ 0) → (r.exi_state == 0) ≡ false → r.ux_n ≡ 0
late r (inl e) h = ground arith
late r (inr e) h = e

-- A string that `exi_parse_string` reads for a container of `n` bytes, literal or from a table, is
-- shorter than `n`, so that it fits with its NUL, if `n` is not 0 and the parser is at the beginning
-- of the string or not within a number.
pub exi_parse_string-Fits :
    (r : ExiReader) (name n : ℕ) (s : Bytes) (r' : ExiReader)
    → n ≢ 0
    → (r.exi_state ≡ 0) ⊎ (r.ux_n ≡ 0)
    → exi_parse_string r name n ≡ parsed s r'
    → length s < n
unfolding exi_parse_string resume_uint
exi_parse_string-Fits r name n s r' ne fresh e = elim (if_cases (r.exi_state == 0) _ _ _ e) [
  | inl (first, f) ↦
      let (x, r₁, read, rest) = and_then-parsed (resume_uint r) _ s r' f in
      from_string_state-Fits (with_state r₁ 1) name n ne (uint_answer-fresh r _ x r₁ read) s r' rest
  | inr (later, f) ↦ from_string_state-Fits r name n ne (late r fresh later) s r' f
]
