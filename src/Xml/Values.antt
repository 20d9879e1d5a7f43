-- ===== src/Xml/Values.antt =====
-- The values that xml_output.c writes are read back by xml_parse.c.
use epri_client.Prelude.{
  ℕ, zero, suc, ◌+◌, ◌-◌, ◌*◌, ◌/◌, ◌%◌, ◌^◌, ◌≤◌, ◌<◌, ◌≡◌, refl, sym, ◌∙◌, ap, ◌&&◌, not, Bool,
  true, false, some, [], ◌∷◌, ◌++◌, ◌==◌, All, length, arith, inl, inr, Bool-cases, leb, ==_iff,
  bit_and,
}
use native.Mathlib.Nat.{pow-suc}
use epri_client.Prelude.Int.{pos}
use mathlib.Core.Path.{ap₂}
use epri_client.Prelude.Bits.{bit_and_digit, bit_and_three, each_below, each_below_sound}
use epri_client.Util.{Bytes, digit, trim, read_end, number64_loop, number64}
use epri_client.Exi.Driver.{zeros}
use epri_client.Xml.{hex_digit}
use epri_client.Xml.Output.{
  digits, print_number, hex_char, hex_text, significant, XmlWriter, room, with_bytes, output_hex,
}
use epri_client.Xml.Simple.{int_read, unsigned_int, only_number, hex_bytes, hex_value, parse_hex}

read_digit :
    (y k d : ℕ) (more : Bytes)
    → d < 10
    → number64_loop y k ((b'0' + d) ∷ more) ≡ number64_loop ((y * 10 + d) % 2 ^ 64) (suc k) more
unfolding number64_loop
read_digit y k d more h =
    let is_digit : digit (b'0' + d) ≡ true = ground arith in
    let value : b'0' + d - b'0' ≡ d = omega arith in
    let count : k + 1 ≡ suc k = omega arith in rw (is_digit, value, count) refl

pub last_digit :
    (rounds n : ℕ) (more : Bytes)
    → (n / 10 == 0) ≡ true
    → digits (suc rounds) n more ≡ (b'0' + n % 10) ∷ more
unfolding digits
last_digit rounds n more e = rw e refl

pub next_digit :
    (rounds n : ℕ) (more : Bytes)
    → (n / 10 == 0) ≡ false
    → digits (suc rounds) n more ≡ digits rounds (n / 10) ((b'0' + n % 10) ∷ more)
unfolding digits
next_digit rounds n more e = rw e refl

-- The digits of a number, whatever stands behind them.
number64_loop-digits :
    (rounds n : ℕ) (more : Bytes)
    → n < 2 ^ 64
    → n < 10 ^ suc rounds
    → (k : ℕ) × (number64_loop 0 0 (digits (suc rounds) n more) ≡ number64_loop n (suc k) more)
number64_loop-digits zero n more fits h =
    (0, rw (last_digit 0 n more (ground arith)) (one_digit n more (omega arith)))
  where
    one_digit :
        (n : ℕ) (more : Bytes)
        → n < 10
        → number64_loop 0 0 ((b'0' + n % 10) ∷ more) ≡ number64_loop n 1 more
    one_digit n more h =
        read_digit 0 0 (n % 10) more (omega arith)
        ∙ ap (λ (x : ℕ). number64_loop x 1 more) (omega arith)
number64_loop-digits (suc rounds) n more fits h = elim (Bool-cases (n / 10 == 0)) [
  | inl e ↦ (
    0,
    rw (last_digit (suc rounds) n more e) (
        read_digit 0 0 (n % 10) more (omega arith)
        ∙ ap (λ (x : ℕ). number64_loop x 1 more) (ground arith)),
  )
  | inr e ↦
      let (k, read) =
        number64_loop-digits rounds (n / 10) ((b'0' + n % 10) ∷ more) (omega arith)
          (omega (arith, pow-suc 10 (suc rounds))) in
      (
        suc k,
        rw (next_digit (suc rounds) n more e) (
            read
            ∙ read_digit (n / 10) (suc k) (n % 10) more (omega arith)
            ∙ ap (λ (x : ℕ). number64_loop x (suc (suc k)) more) (omega arith)),
      )
]

read_end_some : (n k : ℕ) → only_number (read_end n (suc k) []) ≡ int_read n
unfolding only_number trim
read_end_some n k = ground arith

-- A number of at most 64 bits, which `%u` writes, is the one that `unsigned_int` reads.
pub unsigned_int-print_number :
    (n : ℕ) → n < 2 ^ 64 → unsigned_int (print_number (pos n)) ≡ int_read n
unfolding unsigned_int print_number number64 number64_loop
unsigned_int-print_number n fits =
    let (k, read) = number64_loop-digits 19 n [] fits (omega arith) in
    ap only_number read ∙ read_end_some n k

abbrev is_hex : ℕ → Bool
is_hex x = not (hex_digit (hex_char x) == 0) && hex_char x - hex_digit (hex_char x) == x

hex_table : each_below 16 is_hex ≡ true
unfolding each_below hex_digit hex_char
hex_table = refl

hex_known :
    (x : ℕ)
    → x < 16
    → ((hex_digit (hex_char x) == 0) ≡ false) × (hex_char x - hex_digit (hex_char x) ≡ x)
hex_known x h = let t = each_below_sound 16 is_hex x hex_table h in ground arith

abbrev pub IsByte : ℕ → Type 0
IsByte x = x < 256

low_bits : (x : ℕ) → bit_and x 0xf ≡ x % 16
low_bits x = omega (arith, bit_and_digit x 0xf, bit_and_digit (x / 2) 7, bit_and_three (x / 2 / 2))

-- The digits of the bytes, in a container that holds them.
hex_bytes-hex_text :
    (n : ℕ) (s : Bytes) → All IsByte s → length s ≤ n → hex_bytes n (hex_text s) ≡ some (s, [])
unfolding hex_bytes hex_text
hex_bytes-hex_text n [] h fits = refl
hex_bytes-hex_text zero (x ∷ s) h fits = absurd (omega arith)
hex_bytes-hex_text (suc n) (x ∷ s) (hx, h) fits =
    let (ne, e) = hex_known (x / 2 ^ 4) (omega arith) in
    let (ne', e') = hex_known (x % 16) (omega arith) in
    let byte : x / 2 ^ 4 * 16 + x % 16 ≡ x = omega arith in
    rw (low_bits x, ne, ne', hex_bytes-hex_text n s h (omega arith), low_bits x, e, e', byte) refl

zeros_none : (n : ℕ) (s : Bytes) → zeros (n - n) ++ s ≡ s
unfolding zeros
zeros_none n s = let none_left : n - n ≡ 0 = omega arith in rw none_left refl

zeros_one_more : (n k : ℕ) (s : Bytes) → k ≤ n → zeros (suc n - k) ++ s ≡ 0 ∷ zeros (n - k) ++ s
unfolding zeros
zeros_one_more n k s h = let more : suc n - k ≡ suc (n - k) = omega arith in rw more refl

abbrev Padded : ℕ → Bytes → Bytes → Type 0
Padded n v s =
    (length s ≤ n) × (zeros (n - length s) ++ s ≡ v) × ((length s == 0) ≡ false) × All IsByte s

-- The bytes without the zeros at the front, and the zeros.
significant-Padded :
    (x : ℕ) (v : Bytes) → All IsByte (x ∷ v) → Padded (suc (length v)) (x ∷ v) (significant (x ∷ v))
unfolding significant
significant-Padded x [] h = (omega arith, zeros_none 1 (x ∷ []), refl, h)
significant-Padded x (y ∷ v) (hx, h) = elim (Bool-cases (x == 0)) [
  | inl e ↦
      let (le, padded, some_left, all) = significant-Padded y v h in
      let same : 0 ≡ x = sym ((==_iff x 0).0 e) in
      rw e (
        omega arith,
        zeros_one_more (suc (length v)) _ _ le ∙ ap₂ (λ (a : ℕ) (l : Bytes). a ∷ l) same padded,
        some_left,
        all,
      )
  | inr e ↦ rw e (omega arith, zeros_none (suc (suc (length v))) (x ∷ y ∷ v), ground arith, (hx, h))
]

-- Bytes that `output_hex` writes are the bytes that `parse_hex` reads into a container of their number,
-- with the zeros at the front, which are not written.
pub parse_hex-output_hex :
    (w : XmlWriter) (x : ℕ) (v : Bytes)
    → All IsByte (x ∷ v)
    → 2 * length (x ∷ v) < room w
    → (s : Bytes) × (output_hex w (x ∷ v) ≡ (true, with_bytes w (w.bytes ++ s)))
      × (parse_hex (length (x ∷ v)) s ≡ some (x ∷ v))
unfolding output_hex parse_hex hex_value trim
parse_hex-output_hex w x v h fits =
    let (le, padded, some_left, all) = significant-Padded x v h in
    let s = significant (x ∷ v) in
    let roomy : leb (room w) (length s * 2) ≡ false =
      le-room (length s) (suc (length v)) (room w) le fits in
    (
      hex_text s,
      rw roomy refl,
      rw (hex_bytes-hex_text (suc (length v)) s all le, some_left, padded) refl,
    )
  where
    le-room : (k n r : ℕ) → k ≤ n → 2 * n < r → leb r (k * 2) ≡ false
    le-room k n r le fits = ground arith
