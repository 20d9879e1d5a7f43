-- ===== src/Exi/Groups.antt =====
-- The rounds of `parse_uint` and `output_uint`, one group of seven bits each.
use mathlib.Core.Path.{ap₂}
use native.Mathlib.Nat.{pow-suc}
use epri_client.Prelude.{
  ℕ, zero, suc, ◌+◌, ◌*◌, ◌/◌, ◌%◌, ◌^◌, ◌≤◌, ◌<◌, ◌≡◌, ◌==◌, if◌then◌else◌, true, false, some,
  arith, refl, ap, ◌∙◌, bit_and, bit_or,
}
use epri_client.Prelude.Bits.{bit_and_digit, bit_and-zero, bit_and_seven, bit_or_low_high}
use epri_client.Exi.{
  Reader, Writer, parse_byte, parse_uint_loop, uint, undefined_shift, output_byte, output_uint_loop,
  invalid, shift_is_defined, not,
}

bit_and-double : (a m : ℕ) → bit_and a (2 * m) ≡ 2 * bit_and (a / 2) m
bit_and-double a m =
    let half : 2 * m / 2 ≡ m = omega arith in bit_and_digit a (2 * m) ∙ rw half (omega arith)

bit_and_one : (a : ℕ) → bit_and a 1 ≡ a % 2
bit_and_one a = omega (arith, bit_and_digit a 1, bit_and-zero (a / 2))

bit_and_eight : (a : ℕ) → bit_and a 8 ≡ a / 8 % 2 * 8
bit_and_eight a = omega (
  arith,
  bit_and-double a 4,
  bit_and-double (a / 2) 2,
  bit_and-double (a / 2 / 2) 1,
  bit_and_one (a / 2 / 2 / 2),
)

-- The continuation mark.
pub bit_and_mark : (a : ℕ) → bit_and a 0x80 ≡ a / 128 % 2 * 128
bit_and_mark a = omega (
  arith,
  bit_and-double a 0x40,
  bit_and-double (a / 2) 0x20,
  bit_and-double (a / 2 / 2) 0x10,
  bit_and-double (a / 2 / 2 / 2) 8,
  bit_and_eight (a / 2 / 2 / 2 / 2),
)

marked : (g : ℕ) → g < 128 → bit_or g 0x80 ≡ g + 128
marked g h = omega (arith, bit_or_low_high 7 1 g h)

unfold_round :
    (rounds n ux b : ℕ) (r r' : Reader)
    → parse_byte r ≡ some (b, r')
    → parse_uint_loop (suc rounds) r ux n ≡ (
        if n == 70
        then invalid
        else if not (shift_is_defined (bit_and b 0x7f) n)
        then undefined_shift
        else if bit_and b 0x80 == 0
        then uint (bit_or ux (bit_and b 0x7f * 2 ^ n)) r'
        else parse_uint_loop rounds r' (bit_or ux (bit_and b 0x7f * 2 ^ n)) (n + 7))
unfolding parse_uint_loop
unfold_round rounds n ux b r r' e = rw e refl

-- A round of the reader at a group whose shift fits in an `int`.
pub read_round :
    (rounds n ux b : ℕ) (r r' : Reader)
    → parse_byte r ≡ some (b, r')
    → n < 32
    → b % 128 * 2 ^ n < 2 ^ 31
    → ux < 2 ^ n
    → parse_uint_loop (suc rounds) r ux n ≡ (
        if b / 128 % 2 * 128 == 0
        then uint (ux + b % 128 * 2 ^ n) r'
        else parse_uint_loop rounds r' (ux + b % 128 * 2 ^ n) (n + 7))
read_round rounds n ux b r r' e hn small hu =
    let early : (n == 70) ≡ false = ground arith in
    let fits : shift_is_defined (b % 128) n ≡ true = ground arith in
    unfold_round rounds n ux b r r' e
    ∙ rw (early, bit_and_seven b, bit_and_mark b, fits, bit_or_low_high n (b % 128) ux hu)
        (ap₂
          (λ (v v' : ℕ).
            if b / 128 % 2 * 128 == 0 then uint v r' else parse_uint_loop rounds r' v' (n + 7))
          (omega arith) (omega arith))

pub read_last :
    (rounds n ux g : ℕ) (r r' : Reader)
    → parse_byte r ≡ some (g, r')
    → g < 128
    → n < 32
    → g * 2 ^ n < 2 ^ 31
    → ux < 2 ^ n
    → parse_uint_loop (suc rounds) r ux n ≡ uint (ux + g * 2 ^ n) r'
read_last rounds n ux g r r' e hg hn small hu =
    let low : g % 128 ≡ g = omega arith in
    let clear : (g / 128 % 2 * 128 == 0) ≡ true = ground arith in
    read_round rounds n ux g r r' e hn (rw low small) hu ∙ rw (clear, low) refl

pub read_more :
    (rounds n ux g : ℕ) (r r' : Reader)
    → parse_byte r ≡ some (g + 128, r')
    → g < 128
    → n < 32
    → g * 2 ^ n < 2 ^ 31
    → ux < 2 ^ n
    → parse_uint_loop (suc rounds) r ux n ≡ parse_uint_loop rounds r' (ux + g * 2 ^ n) (n + 7)
read_more rounds n ux g r r' e hg hn small hu =
    let low : (g + 128) % 128 ≡ g = omega arith in
    let set : ((g + 128) / 128 % 2 * 128 == 0) ≡ false = ground arith in
    read_round rounds n ux (g + 128) r r' e hn (rw low small) hu ∙ rw (set, low) refl

pub split_group : (x t : ℕ) → x * t ≡ x % 128 * t + x / 128 * (128 * t)
split_group x t = omega (arith, ap (λ (v : ℕ). v * t) (div_mod x))
  where
    div_mod : (y : ℕ) → y ≡ y % 128 + y / 128 * 128
    div_mod y = omega arith

pub small_shift : (k x : ℕ) → k ≤ 4 → 128 ≤ x → x * 2 ^ (7 * k) < 2 ^ 31 → k ≤ 3
small_shift zero x h big fits = omega arith
small_shift (suc zero) x h big fits = omega arith
small_shift (suc (suc zero)) x h big fits = omega arith
small_shift (suc (suc (suc zero))) x h big fits = omega arith
small_shift (suc (suc (suc (suc zero)))) x h big fits = omega arith
small_shift (suc (suc (suc (suc (suc n))))) x h big fits = absurd (omega arith)

pub next_power : (k : ℕ) → 2 ^ (7 * suc k) ≡ 128 * 2 ^ (7 * k)
next_power k = ap (λ (n : ℕ). 2 ^ n) seven_more ∙ seven (7 * k)
  where
    seven_more : 7 * suc k ≡ suc (suc (suc (suc (suc (suc (suc (7 * k)))))))
    seven_more = omega arith

    seven : (n : ℕ) → 2 ^ suc (suc (suc (suc (suc (suc (suc n)))))) ≡ 128 * 2 ^ n
    seven n = omega (
      arith,
      pow-suc 2 n,
      pow-suc 2 (suc n),
      pow-suc 2 (suc (suc n)),
      pow-suc 2 (suc (suc (suc n))),
      pow-suc 2 (suc (suc (suc (suc n)))),
      pow-suc 2 (suc (suc (suc (suc (suc n))))),
      pow-suc 2 (suc (suc (suc (suc (suc (suc n)))))),
    )

-- A round of the writer.
pub write_last :
    (fuel : ℕ) (w : Writer) (x : ℕ) → x < 128 → output_uint_loop (suc fuel) w x ≡ output_byte w x
unfolding output_uint_loop
write_last fuel w x h =
    let last : (x / 2 ^ 7 == 0) ≡ true = ground arith in
    rw (last, bit_and_seven x) (ap (output_byte w) (omega arith))

pub write_more :
    (fuel : ℕ) (w : Writer) (x : ℕ)
    → 128 ≤ x
    → output_uint_loop (suc fuel) w x
      ≡ output_uint_loop fuel (output_byte w (x % 128 + 128)) (x / 128)
unfolding output_uint_loop
write_more fuel w x h =
    let more : (x / 2 ^ 7 == 0) ≡ false = ground arith in
    rw (more, bit_and_seven x, marked (x % 128) (omega arith)) refl
