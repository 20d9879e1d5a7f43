-- ===== src/Prelude/Bits.antt =====
-- Facts about `bit_or` at variables, from the recursion on digits that the native operation stands
-- for, and checks of every value in a small range.
use Prim.Native.Nat.{
  ℕ, zero, suc, ◌+◌, ◌*◌, ◌/◌, ◌%◌, ◌^◌, ◌≤◌, ◌<◌, min, max, bit_and, bit_or, digits, bitwise,
  bit_and-bitwise, bit_or-bitwise,
}
use mathlib.Core.Path.{◌≡◌, refl, ap}
use mathlib.Core.Bool.{Bool, true, ◌&&◌}
use native.Mathlib.Omega.{arith}
use native.Mathlib.Nat.{pow-suc}

-- The test holds for each number below the bound.
unfoldable pub each_below : ℕ → (ℕ → Bool) → Bool
each_below zero test = true
each_below (suc bound) test = each_below bound test && test bound

pub each_below_sound :
    (bound : ℕ) (test : ℕ → Bool) (i : ℕ) → each_below bound test ≡ true → i < bound → test i ≡ true
unfolding each_below
each_below_sound (suc bound) test i all small = ground (arith, each_below_sound bound test i)
each_below_sound zero test i all small = absurd (omega arith)

-- Fuel from the first operand on gives the same digits as more fuel, whatever the amount.
module _ (z : ℕ → ℕ) (f : ℕ → ℕ → ℕ) where
  enough :
      (a b more least : ℕ) → a ≤ least → least ≤ more → digits z f least a b ≡ digits z f more a b
  enough zero b zero zero small le = refl
  enough zero b (suc more) zero small le = refl
  enough zero b (suc more) (suc least) small le = refl
  enough (suc a) b (suc more) (suc least) small le =
      omega (arith, enough (suc a / 2) (b / 2) more least (omega arith) (omega arith))
  enough zero b zero (suc least) small le = absurd (omega arith)
  enough (suc a) b more zero small le = absurd (omega arith)
  enough (suc a) b zero (suc least) small le = absurd (omega arith)

  bitwise_digit :
      (a b : ℕ)
      → bitwise z f (suc a) b ≡ bitwise z f (suc a / 2) (b / 2) * 2 + f (suc a % 2) (b % 2)
  bitwise_digit a b =
      let same = enough (suc a / 2) (b / 2) a (suc a / 2) (omega arith) (omega arith) in
      omega (arith, same)

zero-bit_or : (b : ℕ) → bit_or 0 b ≡ b
zero-bit_or b = bit_or-bitwise 0 b

pub bit_or_digit : (a b : ℕ) → bit_or a b ≡ bit_or (a / 2) (b / 2) * 2 + max (a % 2) (b % 2)
bit_or_digit zero b = omega (arith, zero-bit_or b, zero-bit_or (b / 2))
bit_or_digit (suc a) b = simp bit_or-bitwise (bitwise_digit (λ d. d) max a b)

pub zero-bit_and : (b : ℕ) → bit_and 0 b ≡ 0
zero-bit_and b = bit_and-bitwise 0 b

pub bit_and_digit : (a b : ℕ) → bit_and a b ≡ bit_and (a / 2) (b / 2) * 2 + min (a % 2) (b % 2)
bit_and_digit zero b = omega (arith, zero-bit_and b, zero-bit_and (b / 2))
bit_and_digit (suc a) b = simp bit_and-bitwise (bitwise_digit (λ d. 0) min a b)

bit_and-zero_below : (n a : ℕ) → a ≤ n → bit_and a 0 ≡ 0
bit_and-zero_below n zero h = zero-bit_and 0
bit_and-zero_below zero (suc a) h = absurd (omega arith)
bit_and-zero_below (suc n) (suc a) h =
    omega (arith, bit_and_digit (suc a) 0, bit_and-zero_below n (suc a / 2) (omega arith))

pub bit_and-zero : (a : ℕ) → bit_and a 0 ≡ 0
bit_and-zero a = bit_and-zero_below a a (omega arith)

pub bit_and_three : (a : ℕ) → bit_and a 3 ≡ a % 4
bit_and_three a =
    omega (arith, bit_and_digit a 3, bit_and_digit (a / 2) 1, bit_and-zero (a / 2 / 2))

-- `a & 0x3f` and `a & 0x7f`.
pub bit_and_six : (a : ℕ) → bit_and a 0x3f ≡ a % 64
bit_and_six a = omega (
  arith,
  bit_and_digit a 0x3f,
  bit_and_digit (a / 2) 0x1f,
  bit_and_digit (a / 2 / 2) 0xf,
  bit_and_digit (a / 2 / 2 / 2) 7,
  bit_and_three (a / 2 / 2 / 2 / 2),
)

pub bit_and_seven : (a : ℕ) → bit_and a 0x7f ≡ a % 128
bit_and_seven a = omega (arith, bit_and_digit a 0x7f, bit_and_six (a / 2))

bit_or-zero_below : (n a : ℕ) → a ≤ n → bit_or a 0 ≡ a
bit_or-zero_below n zero h = zero-bit_or 0
bit_or-zero_below zero (suc a) h = absurd (omega arith)
bit_or-zero_below (suc n) (suc a) h =
    omega (arith, bit_or_digit (suc a) 0, bit_or-zero_below n (suc a / 2) (omega arith))

pub bit_or-zero : (a : ℕ) → bit_or a 0 ≡ a
bit_or-zero a = bit_or-zero_below a a (omega arith)

double_shift : (q k : ℕ) → q * 2 ^ suc k ≡ 2 * (q * 2 ^ k)
double_shift q k = omega (arith, ap (λ (t : ℕ). q * t) (pow-suc 2 k))

-- `r | (q << k)` is a sum when `r` fits in `k` bits.
pub bit_or_low_high : (k q r : ℕ) → r < 2 ^ k → bit_or r (q * 2 ^ k) ≡ q * 2 ^ k + r
bit_or_low_high zero q r h = ground (arith, zero-bit_or q)
bit_or_low_high (suc k) q r h = ground (
  arith,
  bit_or_digit r (q * 2 ^ suc k),
  double_shift q k,
  bit_or_low_high k q (r / 2) (omega (arith, pow-suc 2 k)),
)

pub bit_or_high_low : (k q r : ℕ) → r < 2 ^ k → bit_or (q * 2 ^ k) r ≡ q * 2 ^ k + r
bit_or_high_low zero q r h = ground (arith, bit_or-zero q)
bit_or_high_low (suc k) q r h = ground (
  arith,
  bit_or_digit (q * 2 ^ suc k) r,
  double_shift q k,
  bit_or_high_low k q (r / 2) (omega (arith, pow-suc 2 k)),
)
