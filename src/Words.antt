-- ===== src/Words.antt =====
-- Comparison functions that return the difference of two 64-bit times as an `int`.
use Prim.Native.Nat.{Ordering, compare}
use epri_client.Prelude.{ℕ, ◌+◌, ◌-◌, ◌%◌, ◌^◌, ◌<◌, ◌≡◌, arith, ltb, ◌==◌, if◌then◌else◌}

-- The sign of `(int)(x - y)`: the low 32 bits of the difference, read as a signed number.
unfoldable pub int_compare : ℕ → ℕ → Ordering
int_compare x y =
    let d = (x + 2 ^ 32 - y % 2 ^ 32) % 2 ^ 32 in
    if d == 0 then Ordering.eq else if ltb d (2 ^ 31) then Ordering.gt else Ordering.lt

-- Two times are close if less than 2 ^ 31 seconds lie between them.
abbrev pub IsClose : ℕ → ℕ → Type 0
IsClose x y = (x < y + 2 ^ 31) × (y < x + 2 ^ 31)

-- The sign is that of the difference for close times.
pub int_compare-compare : (x y : ℕ) → IsClose x y → int_compare x y ≡ compare x y
unfolding int_compare
int_compare-compare x y h = ground arith
