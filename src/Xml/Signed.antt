-- ===== src/Xml/Signed.antt =====
-- The numbers of the types with a sign, as xml_output.c writes them and xml_parse.c reads them.
use epri_client.Prelude.{
  ℕ, zero, suc, ◌+◌, ◌-◌, ◌*◌, ◌/◌, ◌%◌, ◌^◌, ◌≤◌, ◌<◌, ◌≡◌, refl, ◌∙◌, Bool, true, false, [], ◌∷◌,
  ◌++◌, ltb, ◌==◌, length, arith, inl, inr, Bool-cases, lt→ltb, if◌then◌else◌,
}
use native.Mathlib.Nat.{pow-suc, mod-eq_of_lt}
use epri_client.Prelude.Int.{ℤ, pos, negsuc}
use epri_client.Util.{Bytes, digit}
use epri_client.Exi.Driver.{signed}
use epri_client.Parser.{Pointer, Memory, number, store}
use epri_client.Xml.Output.{
  digits, print_number, XmlWriter, room, with_bytes, output_of_kind, output_string,
}
use epri_client.Xml.Simple.{unsigned_int, signed_int, pack_signed, value_read, text_of_kind}
use epri_client.Xml.Values.{last_digit, next_digit, unsigned_int-print_number}

starts_digit : Bytes → Bool
starts_digit [] = false
starts_digit (c ∷ rest) = digit c

first_digit : (n : ℕ) → digit (b'0' + n % 10) ≡ true
first_digit n = ground arith

digits-starts_digit :
    (rounds n : ℕ) (more : Bytes)
    → starts_digit more ≡ true
    → starts_digit (digits rounds n more) ≡ true
unfolding starts_digit digits
digits-starts_digit zero n more h = h
digits-starts_digit (suc rounds) n more h = elim (Bool-cases (n / 10 == 0)) [
  | inl e ↦ rw e (first_digit n)
  | inr e ↦ rw e (digits-starts_digit rounds (n / 10) _ (first_digit n))
]

digits-some : (rounds n : ℕ) → starts_digit (digits (suc rounds) n []) ≡ true
unfolding starts_digit
digits-some rounds n = elim (Bool-cases (n / 10 == 0)) [
  | inl e ↦ rw (last_digit rounds n [] e) (first_digit n)
  | inr e ↦ rw (next_digit rounds n [] e) (digits-starts_digit rounds (n / 10) _ (first_digit n))
]

signed_int-digit : (s : Bytes) → starts_digit s ≡ true → signed_int s ≡ (false, unsigned_int s)
unfolding signed_int starts_digit
signed_int-digit [] h = cc
signed_int-digit (c ∷ rest) h = let ne : (c == b'-') ≡ false = ground arith in rw ne refl

-- A number of `w + 1` bits with a sign.
abbrev pub FitsIn : ℕ → ℤ → Type 0
FitsIn w (pos n) = n < 2 ^ w
FitsIn w (negsuc n) = n < 2 ^ w

complement : (w : ℕ) (z : ℤ) → FitsIn w z → signed (suc w) z ≡ number z
complement w (pos n) h =
    let double = pow-suc 2 w in
    let small : n % 2 ^ suc w ≡ n = mod-eq_of_lt (omega (arith, double)) in
    let half : suc w - 1 ≡ w = omega arith in rw (half, small, lt→ltb _ _ h) refl
complement w (negsuc n) h =
    let double = pow-suc 2 w in
    let small : n % 2 ^ suc w ≡ n = mod-eq_of_lt (omega (arith, double)) in
    let half : suc w - 1 ≡ w = omega arith in
    let test : ltb (2 ^ suc w - 1 - n) (2 ^ w) ≡ false = high (2 ^ suc w) (2 ^ w) double h in
    let back : 2 ^ suc w - (2 ^ suc w - 1 - n) ≡ suc n = omega (arith, double) in
    rw (half, small, test, back) refl
  where
    high : (p q : ℕ) → p ≡ q * 2 → n < q → ltb (p - 1 - n) q ≡ false
    high p q e h = ground arith

-- `*y *= -1` leaves a number of at most 64 bits.
abbrev pub IsNegatable : ℤ → Type 0
IsNegatable (pos n) = Unit
IsNegatable (negsuc n) = n + 1 < 2 ^ 63

pack_signed-print_number :
    (m : Memory) (at : Pointer) (w : ℕ) (z : ℤ)
    → 2 ^ w ≤ 2 ^ 63
    → FitsIn w z
    → IsNegatable z
    → pack_signed m at (suc w) (signed_int (print_number z)) ≡ value_read (store m at (number z))
unfolding pack_signed signed_int print_number
pack_signed-print_number m at w (pos n) le h ok =
    rw
      (
        signed_int-digit (digits 20 n []) (digits-some 19 n),
        unsigned_int-print_number n (omega arith),
        complement w (pos n) h,
      )
      refl
pack_signed-print_number m at w (negsuc n) le h ok =
    let next : n + 1 ≡ suc n = omega arith in
    let least : (suc n == 2 ^ 63) ≡ false = ground arith in
    rw (next, unsigned_int-print_number (suc n) (omega arith), least, complement w (negsuc n) h)
      refl

-- The bits of the kinds 5 to 8, without the one of the sign.
unfoldable pub value_bits : ℕ → ℕ
value_bits kind = if kind == 5 then 63 else if kind == 6 then 31 else if kind == 7 then 15 else 7

by_kind : (P : ℕ → Type 0) → P 5 → P 6 → P 7 → P 8 → (kind : ℕ) → 5 ≤ kind → kind ≤ 8 → P kind
by_kind P a b c d zero low high = absurd (omega arith)
by_kind P a b c d (suc zero) low high = absurd (omega arith)
by_kind P a b c d (suc (suc zero)) low high = absurd (omega arith)
by_kind P a b c d (suc (suc (suc zero))) low high = absurd (omega arith)
by_kind P a b c d (suc (suc (suc (suc zero)))) low high = absurd (omega arith)
by_kind P a b c d (suc (suc (suc (suc (suc zero))))) low high = a
by_kind P a b c d (suc (suc (suc (suc (suc (suc zero)))))) low high = b
by_kind P a b c d (suc (suc (suc (suc (suc (suc (suc zero))))))) low high = c
by_kind P a b c d (suc (suc (suc (suc (suc (suc (suc (suc zero)))))))) low high = d
by_kind P a b c d (suc (suc (suc (suc (suc (suc (suc (suc (suc k))))))))) low high =
    absurd (omega arith)

-- What `output_value` and `parse_value` do with a number of a type with a sign.
abbrev IsSigned : ℕ → Type 0
IsSigned kind =
    (w : XmlWriter) (m : Memory) (at : Pointer) (flag n : ℕ) (z : ℤ)
    → FitsIn (value_bits kind) z
    → IsNegatable z
    → (output_of_kind w flag (number z) kind n ≡ output_string w (print_number z))
      × (text_of_kind m at flag (print_number z) kind n ≡ value_read (store m at (number z)))

IsSigned-kinds : (kind : ℕ) → 5 ≤ kind → kind ≤ 8 → IsSigned kind
unfolding value_bits text_of_kind output_of_kind
IsSigned-kinds =
    by_kind IsSigned
      (λ w m at flag n z h ok. (refl, pack_signed-print_number m at 63 z (omega arith) h ok))
      (λ w m at flag n z h ok. (refl, pack_signed-print_number m at 31 z (omega arith) h ok))
      (λ w m at flag n z h ok. (refl, pack_signed-print_number m at 15 z (omega arith) h ok))
      (λ w m at flag n z h ok. (refl, pack_signed-print_number m at 7 z (omega arith) h ok))

digits_longer : (rounds n : ℕ) (more : Bytes) → length more ≤ length (digits rounds n more)
unfolding digits
digits_longer zero n more = omega arith
digits_longer (suc rounds) n more =
    ground (arith, digits_longer rounds (n / 10) ((b'0' + n % 10) ∷ more))

digits_there : (rounds n : ℕ) → 1 ≤ length (digits (suc rounds) n [])
digits_there rounds n = elim (Bool-cases (n / 10 == 0)) [
  | inl e ↦ rw (last_digit rounds n [] e) (omega arith)
  | inr e ↦ rw (next_digit rounds n [] e) (digits_longer rounds (n / 10) ((b'0' + n % 10) ∷ []))
]

not_zero : (k : ℕ) → 1 ≤ k → (k == 0) ≡ false
not_zero k h = ground arith

print_number-some : (z : ℤ) → (length (print_number z) == 0) ≡ false
unfolding print_number
print_number-some (pos n) = not_zero _ (digits_there 19 n)
print_number-some (negsuc n) = not_zero (length (b'-' ∷ digits 20 (n + 1) [])) (omega arith)

-- A number of one of the types with a sign, Int64 to Int8, that `output_value` writes is stored by
-- `parse_value` as it was, if the number is one of the type and not the least one of 64 bits, and the
-- buffer has room for it.
pub text_of_kind-output_of_kind :
    (w : XmlWriter) (m : Memory) (at : Pointer) (flag n kind : ℕ) (z : ℤ)
    → 5 ≤ kind
    → kind ≤ 8
    → FitsIn (value_bits kind) z
    → IsNegatable z
    → length (print_number z) < room w
    → (s : Bytes) × (output_of_kind w flag (number z) kind n ≡ (true, with_bytes w (w.bytes ++ s)))
      × (text_of_kind m at flag s kind n ≡ value_read (store m at (number z)))
unfolding output_string
text_of_kind-output_of_kind w m at flag n kind z low high h ok fits =
    let (written, read) = IsSigned-kinds kind low high w m at flag n z h ok in
    let roomy : ltb (length (print_number z)) (room w) ≡ true = lt→ltb _ _ fits in
    (print_number z, written ∙ rw (roomy, print_number-some z) refl, read)
