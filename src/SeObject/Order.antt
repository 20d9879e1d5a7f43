-- ===== src/SeObject/Order.antt =====
-- Which unsigned keys the order of se_object.c tells apart.
use epri_client.Prelude.{
  ℕ, zero, suc, ◌-◌, ◌^◌, ◌%◌, ◌<◌, ◌≡◌, refl, arith, true, false, ◌&&◌, ltb, leb, ◌==◌, Bool-cases,
  inl, inr,
}
use epri_client.Exi.Values.{negative}
use epri_client.Exi.Driver.{from_complement}
use epri_client.SeObject.{compare_uint, is_positive, is_equal}

negative_sign :
    (k : ℕ) → 0 < k → (is_positive (negative k) ≡ false) × (is_equal (negative k) ≡ false)
negative_sign zero h = absurd (omega arith)
negative_sign (suc k) h = (refl, refl)

low_sign :
    (d : ℕ)
    → d < 2 ^ 32
    → (is_positive (from_complement 32 d) ≡ (ltb 0 d && ltb d (2 ^ 31)))
      × (is_equal (from_complement 32 d) ≡ (d == 0))
low_sign zero h = (refl, refl)
low_sign (suc d) h = elim (Bool-cases (ltb (suc d) (2 ^ 31))) [
  | inl e ↦ rw e (ground arith, ground arith)
  | inr e ↦
      let (not_positive, not_equal) = negative_sign (2 ^ 32 - suc d) (omega arith) in
      rw e (ground (arith, not_positive), ground (arith, not_equal))
]

-- A key comes after another one exactly if it is not less and the low 32 bits of the difference are
-- between 1 and 2 ^ 31 - 1, and it is equal exactly if it is not less and these bits are 0.
pub compare_uint-low_bits :
    (a b : ℕ)
    → (is_positive (compare_uint a b)
        ≡ (leb b a && (ltb 0 ((a - b) % 2 ^ 32) && ltb ((a - b) % 2 ^ 32) (2 ^ 31))))
      × (is_equal (compare_uint a b) ≡ (leb b a && ((a - b) % 2 ^ 32 == 0)))
unfolding compare_uint
compare_uint-low_bits a b = elim (Bool-cases (ltb a b)) [
  | inl e ↦ let less : leb b a ≡ false = ground arith in rw (e, less) (refl, refl)
  | inr e ↦
      let more : leb b a ≡ true = ground arith in
      rw (e, more) (low_sign ((a - b) % 2 ^ 32) (omega arith))
]
