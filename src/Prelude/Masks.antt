-- ===== src/Prelude/Masks.antt =====
-- Laws of `bit_and` at variables: disjoint masks and the complement on 32 bits.
use Prim.Native.Nat.{ℕ, zero, suc, ◌-◌, ◌/◌, ◌^◌, ◌≤◌, ◌<◌, bit_and}
use mathlib.Core.Path.{◌≡◌, sym, ap, ◌∙◌}
use native.Mathlib.Omega.{arith}
use native.Mathlib.Nat.{pow-suc}
use epri_client.Prelude.Bits.{bit_and_digit, zero-bit_and, bit_and-zero}

comm_below : (n a b : ℕ) → a ≤ n → bit_and a b ≡ bit_and b a
comm_below n zero b h = zero-bit_and b ∙ sym (bit_and-zero b)
comm_below zero (suc a) b h = absurd (omega arith)
comm_below (suc n) (suc a) b h = omega (
  arith,
  bit_and_digit (suc a) b,
  bit_and_digit b (suc a),
  comm_below n (suc a / 2) (b / 2) (omega arith),
)

pub bit_and_comm : (a b : ℕ) → bit_and a b ≡ bit_and b a
bit_and_comm a b = comm_below a a b (omega arith)

le_below : (n a b : ℕ) → a ≤ n → bit_and a b ≤ a
le_below n zero b h = omega (arith, zero-bit_and b)
le_below zero (suc a) b h = absurd (omega arith)
le_below (suc n) (suc a) b h =
    omega (arith, bit_and_digit (suc a) b, le_below n (suc a / 2) (b / 2) (omega arith))

pub bit_and-le : (a b : ℕ) → bit_and a b ≤ a
bit_and-le a b = le_below a a b (omega arith)

half_and : (a b : ℕ) → bit_and a b / 2 ≡ bit_and (a / 2) (b / 2)
half_and a b = omega (arith, bit_and_digit a b)

-- Masking one of two disjoint masks keeps them disjoint.
disjoint_below : (n a b m : ℕ) → a ≤ n → bit_and a b ≡ 0 → bit_and (bit_and a m) b ≡ 0
disjoint_below n zero b m h e = rw zero-bit_and (zero-bit_and b)
disjoint_below zero (suc a) b m h e = absurd (omega arith)
disjoint_below (suc n) (suc a) b m h e = omega (
  arith,
  bit_and_digit (suc a) b,
  bit_and_digit (suc a) m,
  bit_and_digit (bit_and (suc a) m) b,
  ap (λ (t : ℕ). bit_and t (b / 2)) (half_and (suc a) m),
  disjoint_below n (suc a / 2) (b / 2) (m / 2) (omega arith)
      (omega (arith, bit_and_digit (suc a) b)),
)

pub bit_and_disjoint : (a b m : ℕ) → bit_and a b ≡ 0 → bit_and (bit_and a m) b ≡ 0
bit_and_disjoint a b m = disjoint_below a a b m (omega arith)

-- `b & ~a` has no bit of `a`, at every width.
complement_width : (k a b : ℕ) → a < 2 ^ k → bit_and (bit_and b (2 ^ k - 1 - a)) a ≡ 0
complement_width zero zero b h = bit_and-zero _
complement_width zero (suc a) b h = absurd (omega arith)
complement_width (suc k) a b h =
    let m = 2 ^ suc k - 1 - a in
    let half : m / 2 ≡ 2 ^ k - 1 - a / 2 = omega (arith, pow-suc 2 k) in
    omega (
      arith,
      pow-suc 2 k,
      bit_and_digit b m,
      bit_and_digit (bit_and b m) a,
      ap (λ (t : ℕ). bit_and t (a / 2)) (half_and b m),
      ap (λ (t : ℕ). bit_and (bit_and (b / 2) t) (a / 2)) half,
      complement_width k (a / 2) (b / 2) (omega (arith, pow-suc 2 k)),
    )

pub bit_and_complement : (a b : ℕ) → a ≤ 0xffff_ffff → bit_and (bit_and b (0xffff_ffff - a)) a ≡ 0
bit_and_complement a b h = complement_width 32 a b (omega arith)
