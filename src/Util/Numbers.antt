-- ===== src/Util/Numbers.antt =====
-- What `number` and `number64` read, and the width that `bit_count` finds.
use mathlib.Core.Path.{ap₂}
use epri_client.Prelude.{
  lt→ltb, max, ℕ, zero, suc, ◌+◌, ◌-◌, ◌*◌, ◌/◌, ◌^◌, ◌≤◌, ◌<◌, ◌≡◌, refl, ◌∙◌, inl, inr, arith,
  true, false, some, [], ◌∷◌, ◌++◌, All, length, ◌==◌, Bool-cases, ap,
}
use native.Mathlib.Nat.{pow-suc, one-le-pow}
use epri_client.Util.{
  Bytes, digit, bit_count_loop, bit_count, number_read, no_digits, read_end, number_loop, number,
}

-- The value of decimal digits, by their positions.
abbrev pub decimal : Bytes → ℕ
decimal [] = 0
decimal (c ∷ rest) = (c - b'0') * 10 ^ length rest + decimal rest

abbrev pub IsDigit : ℕ → Type 0
IsDigit c = digit c ≡ true

-- The text does not go on with a digit.
abbrev pub Stops : Bytes → Type 0
Stops [] = Unit
Stops (c ∷ _) = digit c ≡ false

pub positions : (y d k : ℕ) → (y * 10 + d) * 10 ^ k ≡ y * 10 ^ suc k + d * 10 ^ k
positions y d k = omega (arith, ap (λ (t : ℕ). y * t) (pow-suc 10 k))

pub le_mul_pos : (a t : ℕ) → 1 ≤ t → a ≤ a * t
le_mul_pos a t h = grind arith

pub below : (y d k v limit : ℕ) → y * 10 ^ suc k + (d * 10 ^ k + v) < limit → y * 10 + d < limit
below y d k v limit h =
    omega (arith, positions y d k, le_mul_pos (y * 10 + d) (10 ^ k) (one-le-pow k 10 (omega arith)))

number_loop-decimal :
    (ds rest : Bytes) (y n : ℕ)
    → All IsDigit ds
    → Stops rest
    → y * 10 ^ length ds + decimal ds < 2 ^ 31
    → number_loop y n (ds ++ rest) ≡ read_end (y * 10 ^ length ds + decimal ds) (n + length ds) rest
unfolding number_loop
number_loop-decimal [] [] y n h stop fits = ground arith
number_loop-decimal [] (c ∷ rest) y n h stop fits = ground arith
number_loop-decimal (d ∷ ds) rest y n (hd, h) stop fits =
    let small = lt→ltb _ _ (below y (d - b'0') (length ds) (decimal ds) (2 ^ 31) fits) in
    let e = positions y (d - b'0') (length ds) in
    rw (hd, small)
      (number_loop-decimal ds rest (y * 10 + (d - b'0')) (n + 1) h stop (omega arith)
        ∙ ap₂ (λ v m. read_end v m rest) (omega arith) (omega arith))

read_some : (y n : ℕ) (rest : Bytes) → read_end y (suc n) rest ≡ number_read y rest
read_some y n rest = ground arith

-- `number` reads the decimal number that the digits at the front of a text write, if there is at
-- least one and the number is below 2 ^ 31, and leaves the text behind them.
pub number-decimal :
    (d : ℕ) (ds rest : Bytes)
    → All IsDigit (d ∷ ds)
    → Stops rest
    → decimal (d ∷ ds) < 2 ^ 31
    → number (d ∷ ds ++ rest) ≡ number_read (decimal (d ∷ ds)) rest
unfolding number
number-decimal d ds rest h stop fits =
    number_loop-decimal (d ∷ ds) rest 0 0 h stop (omega arith)
    ∙ ap₂ (λ v m. read_end v m rest) (omega arith) (omega arith)
    ∙ read_some (decimal (d ∷ ds)) (length ds) rest

-- A text that does not begin with a digit is no number.
number-no_digits : (rest : Bytes) → Stops rest → number rest ≡ no_digits
unfolding number number_loop
number-no_digits [] stop = refl
number-no_digits (c ∷ rest) stop = ground arith

doubled : (x p q : ℕ) → (x == 0) ≡ false → p ≤ max 1 (2 * (x / 2)) → q ≡ 2 * p → q ≤ max 1 (2 * x)
doubled x p q pos h e = let ne : 0 < x = ground arith in omega arith

bit_count_loop_lem :
    (fuel x n : ℕ)
    → x < 2 ^ fuel
    → (k : ℕ) × (bit_count_loop fuel x n ≡ some (n + k)) × (x < 2 ^ k) × (2 ^ k ≤ max 1 (2 * x))
unfolding bit_count_loop
bit_count_loop_lem zero x n h = (0, ground arith, h, ground arith)
bit_count_loop_lem (suc fuel) x n h = elim (Bool-cases (x == 0)) [
  | inl zero_left ↦ (0, ground arith, ground arith, ground arith)
  | inr more ↦
      let (k, e, lo, hi) =
        bit_count_loop_lem fuel (x / 2) (n + 1) (omega (arith, pow-suc 2 fuel)) in
      (
        suc k,
        rw (more, e) (ap some (omega arith)),
        omega (arith, pow-suc 2 k),
        doubled x (2 ^ k) (2 ^ suc k) more hi (omega (arith, pow-suc 2 k)),
      )
]

-- On a 32-bit number `bit_count` ends, and gives the least width that holds the number.
pub bit_count-width :
    (x : ℕ) → x < 2 ^ 32 → (k : ℕ) × (bit_count x ≡ some k) × (x < 2 ^ k) × (2 ^ k ≤ max 1 (2 * x))
unfolding bit_count
bit_count-width x h =
    let (k, e, lo, hi) = bit_count_loop_lem 32 x 0 h in (k, e ∙ ap some (omega arith), lo, hi)
