-- ===== src/Output/Counts.antt =====
-- The counts of repeated elements, as the parser writes them and the output reads them.
use epri_client.Prelude.{
  ℕ, zero, suc, ◌+◌, ◌-◌, ◌*◌, ◌/◌, ◌%◌, ◌^◌, ◌<◌, ◌≤◌, ◌≡◌, refl, ◌∙◌, ap, arith, bit_or, ◌==◌,
  Bool-cases, inl, inr, true, sym,
}
use native.Mathlib.Nat.{
  pow-suc, one-le-pow, mul-div_left, mod-eq_of_lt, add-mul-mod_self_right, div-div-eq-div-mul,
  div-add-mod,
}
use epri_client.Prelude.Bits.{bit_or_digit, bit_or_high_low}
use epri_client.Parser.{Memory, Pointer, set_count, as_number, same_pointer}
use epri_client.Output.{flag_width_loop, flag_count}

div_pow_suc : (x k : ℕ) → x / 2 ^ suc k ≡ x / 2 / 2 ^ k
div_pow_suc x k =
    ap (λ (t : ℕ). x / t) (omega (arith, pow-suc 2 k)) ∙ sym (div-div-eq-div-mul x 2 (2 ^ k))

half_or : (a b : ℕ) → bit_or a b / 2 ≡ bit_or (a / 2) (b / 2)
half_or a b = omega (arith, bit_or_digit a b)

bit_or-div_pow : (k a b : ℕ) → bit_or a b / 2 ^ k ≡ bit_or (a / 2 ^ k) (b / 2 ^ k)
bit_or-div_pow zero a b = ground arith
bit_or-div_pow (suc k) a b =
    rw (div_pow_suc (bit_or a b) k, div_pow_suc a k, div_pow_suc b k, half_or)
      (bit_or-div_pow k (a / 2) (b / 2))

clear_or : (n a b : ℕ) → a % 2 ^ n ≡ 0 → b < 2 ^ n → bit_or a b % 2 ^ n ≡ b
clear_or n a b clear h =
    let split : a / 2 ^ n * 2 ^ n ≡ a = omega (arith, div-add-mod a (2 ^ n)) in
    let sum : bit_or a b ≡ b + a / 2 ^ n * 2 ^ n =
      omega (arith, ap (λ (t : ℕ). bit_or t b) split, bit_or_high_low n (a / 2 ^ n) b h) in
    rw sum (add-mul-mod_self_right b (a / 2 ^ n) (2 ^ n) ∙ mod-eq_of_lt h)

flag_width_lem :
    (fuel x n : ℕ)
    → x < 2 ^ suc fuel
    → (k : ℕ) × (flag_width_loop fuel x n ≡ n + k) × (x < 2 ^ suc k)
unfolding flag_width_loop
flag_width_lem zero x n h = (0, omega arith, h)
flag_width_lem (suc fuel) x n h = elim (Bool-cases (x / 2 == 0)) [
  | inl e ↦ (0, rw e (omega arith), ground arith)
  | inr e ↦
      let (k, run, fits) =
        flag_width_lem fuel (x / 2) (n + 1) (omega (arith, pow-suc 2 (suc fuel))) in
      (suc k, rw (e, run) (omega arith), omega (arith, pow-suc 2 (suc k)))
]

-- The field of a difference holds every count up to it.
fits_field : (diff : ℕ) → diff < 256 → diff < 2 ^ flag_width_loop 8 diff 1
fits_field diff h =
    let (k, run, width) = flag_width_lem 8 diff 1 (omega arith) in
    let run' : flag_width_loop 8 diff 1 ≡ suc k = omega (arith, run) in rw run' width

shifted_back : (x bit : ℕ) → x * 2 ^ bit / 2 ^ bit ≡ x
shifted_back x bit = mul-div_left x (one-le-pow bit 2 (omega arith))

set_count-cell :
    (m : Memory) (p : Pointer) (count bit : ℕ)
    → as_number ((set_count m p count bit).cell p)
      ≡ bit_or (as_number (m.cell p)) (count * 2 ^ bit % 2 ^ 32)
unfolding set_count
set_count-cell m p count bit = let same : same_pointer p p ≡ true = ground arith in rw same refl

-- A count that the parser sets in flags of 32 bits, where the bits of its field are clear, is the one
-- that the output reads there, for every count that the schema allows.
pub flag_count-set_count :
    (m : Memory) (p : Pointer) (bit min top count : ℕ)
    → top < 256
    → min ≤ count
    → count ≤ top
    → (count - min) * 2 ^ bit < 2 ^ 32
    → as_number (m.cell p) / 2 ^ bit % 2 ^ flag_width_loop 8 (top - min) 1 ≡ 0
    → flag_count (as_number ((set_count m p (count - min) bit).cell p)) bit min top ≡ count
unfolding flag_count
flag_count-set_count m p bit min top count byte low high fits clear =
    let F = as_number (m.cell p) in
    let x = count - min in
    let place : bit_or F (x * 2 ^ bit % 2 ^ 32) / 2 ^ bit ≡ bit_or (F / 2 ^ bit) x =
      rw (mod-eq_of_lt fits, bit_or-div_pow bit F (x * 2 ^ bit), shifted_back x bit) refl in
    let big = fits_field (top - min) (omega arith) in
    let fits' : x < 2 ^ flag_width_loop 8 (top - min) 1 = omega (arith, big) in
    let read = clear_or (flag_width_loop 8 (top - min) 1) (F / 2 ^ bit) x clear fits' in
    rw (set_count-cell m p x bit, place, read) (omega arith)
