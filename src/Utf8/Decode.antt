-- ===== src/Utf8/Decode.antt =====
-- The characters beyond ffff, in the encoding of RFC 3629, and what `utf8_char` can accept at all.
use epri_client.Prelude.{
  ℕ, ◌+◌, ◌*◌, ◌/◌, ◌%◌, ◌^◌, ◌≤◌, ◌<◌, ◌≡◌, refl, inl, inr, ◌∙◌, arith, true, false, ◌&&◌, some,
  none, [], ◌∷◌, ◌++◌, ltb, ◌==◌, if◌then◌else◌, bit_or, Bool-cases,
}
use epri_client.Prelude.Bits.{each_below, each_below_sound}
use epri_client.Utf8.{Bytes, char, reject, utf_entry, utf8_step, utf8_char}
use epri_client.Utf8.Encode.{
  enters, enters_sound, step_continue, loop_more, loop_reject, continue_high, last_byte,
}

-- The bytes of a code from 10000 to 10ffff (hexadecimal) by RFC 3629.
abbrev pub four_bytes : ℕ → Bytes
four_bytes code =
    (0xf0 + code / 2 ^ 18)
    ∷ bit_or 0x80 (code / 2 ^ 12 % 64)
    ∷ bit_or 0x80 (code / 2 ^ 6 % 64)
    ∷ bit_or 0x80 (code % 64)
    ∷ []

four_state : ℕ → ℕ
four_state x = if x == 0 then 33 else if x == 4 then 21 else 25

lead_four_table : each_below 5 (λ x. enters (utf8_step (0xf0 + x) 0 0) x (four_state x)) ≡ true
unfolding each_below utf8_step utf_entry four_state
lead_four_table = refl

lead_four : (x : ℕ) → x < 5 → utf8_step (0xf0 + x) 0 0 ≡ some (x, four_state x)
lead_four x h = enters_sound _ _ _ (each_below_sound 5 _ x lead_four_table h)

four_state_ne : (x : ℕ) → (four_state x == 0) ≡ false
unfolding four_state
four_state_ne x = ground arith

four_transitions :
    each_below 4 (λ q.
      utf_entry (81 + q) == (if ltb q 2 then 9 else 99)
      && utf_entry (85 + q) == (if q == 0 then 17 else 99)
      && utf_entry (89 + q) == 17
      && utf_entry (97 + q) == (if q == 0 then 99 else 17))
    ≡ true
unfolding each_below utf_entry
four_transitions = refl

-- The second byte leads to the state in which the third is read, from 90 behind f0 and up to 8f
-- behind f4.
four_second :
    (x y : ℕ)
    → x < 5
    → y < 64
    → (x ≡ 0 → 16 ≤ y)
    → (x ≡ 4 → y < 16)
    → utf8_step (bit_or 0x80 y) x (four_state x) ≡ some (x * 64 + y, 17)
unfolding four_state
four_second x y hx hy lo hi = ground (
  arith,
  step_continue y x (four_state x) hy,
  each_below_sound 4 _ (y / 16) four_transitions (omega arith),
)

four_third :
    (y code : ℕ)
    → y < 64
    → utf8_step (bit_or 0x80 y) code 17 ≡ (if ltb y 32 then some (code * 64 + y, 9) else none)
four_third y code hy = ground (
  arith,
  step_continue y code 17 hy refl,
  each_below_sound 4 _ (y / 16) four_transitions (omega arith),
)

-- A character from 10000 to 10ffff is decoded from its RFC 3629 bytes if bit 11 of its code is
-- clear, that is if the third byte is below a0, and is rejected if this bit is set.
pub utf8_char-four_bytes :
    (code : ℕ) (rest : Bytes)
    → 0x10000 ≤ code
    → code ≤ 0x10ffff
    → utf8_char (four_bytes code ++ rest)
      ≡ (if code / 2 ^ 11 % 2 == 0 then char code rest else reject)
unfolding utf8_char
utf8_char-four_bytes code rest lo hi =
    let x = code / 2 ^ 18 in
    let y = code / 2 ^ 12 % 64 in
    let z = code / 2 ^ 6 % 64 in
    loop_more _ _ 0 0 x (four_state x) (ground arith) (lead_four x (omega arith)) (four_state_ne x)
    ∙ loop_more _ _ x (four_state x) (x * 64 + y) 17 (continue_high y (omega arith))
        (four_second x y (omega arith) (omega arith) (omega arith) (omega arith)) refl
    ∙ elim (Bool-cases (ltb z 32)) [
      | inl good ↦
          loop_more _ _ (x * 64 + y) 17 ((x * 64 + y) * 64 + z) 9 (continue_high z (omega arith))
            (four_third z (x * 64 + y) (omega arith) ∙ rw good) refl
          ∙ last_byte (code % 64) _ rest (omega arith)
          ∙ ground arith
      | inr bad ↦
          loop_reject _ _ (x * 64 + y) 17 (continue_high z (omega arith))
            (four_third z (x * 64 + y) (omega arith) ∙ rw bad)
          ∙ ground arith
    ]
