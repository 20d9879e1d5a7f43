-- ===== src/Utf8/Length.antt =====
-- `utf8_length` counts the characters of what `utf8_encode` writes.
use epri_client.Prelude.{
  ◌/◌, ℕ, ◌≡◌, refl, true, Option, some, none, List, [], ◌∷◌, ◌++◌, ◌==◌, bit_or, ◌&&◌, suc, ltb,
  ◌<◌, All, ◌≤◌, arith, Bool-cases, length, leb, inl, Option-cases, inr, append_assoc, tests,
  le→leb, bit_and,
}
use epri_client.Prelude.Bits.{each_below, each_below_sound}
use epri_client.Utf8.{Bytes, utf8_skip, utf8_encode, utf8_count, utf8_length}

lead_one : each_below 128 (λ c. utf8_skip c == 0) ≡ true
unfolding each_below utf8_skip
lead_one = refl

lead_two : each_below 32 (λ x. utf8_skip (bit_or 0xc0 x) == 1 && ltb 0 (bit_or 0xc0 x)) ≡ true
unfolding each_below utf8_skip
lead_two = refl

lead_three : each_below 16 (λ x. utf8_skip (bit_or 0xe0 x) == 2 && ltb 0 (bit_or 0xe0 x)) ≡ true
unfolding each_below utf8_skip
lead_three = refl

-- One character more than in the rest.
abbrev counted : Option ℕ → Option ℕ
counted none = none
counted (some n) = some (suc n)

count_lead :
    (c k : ℕ) (rest : Bytes)
    → utf8_skip c ≡ k
    → 0 < c
    → utf8_count 0 (c ∷ rest) ≡ counted (utf8_count k rest)
unfolding utf8_count
count_lead c k rest s h = ground arith

abbrev Counts : Option Bytes → Bytes → Type 0
Counts none rest = Unit {0}
Counts (some bytes) rest = utf8_count 0 (bytes ++ rest) ≡ counted (utf8_count 0 rest)

encode-Counts :
    (code : ℕ) (rest : Bytes) → 0 < code → code ≤ 0xffff → Counts (utf8_encode code) rest
unfolding utf8_encode utf8_count
encode-Counts code rest pos fits = elim (Bool-cases (leb code 0x7f)) [
  | inl one ↦
      let t = each_below_sound 128 (λ c. utf8_skip c == 0) code lead_one (omega tests) in
      rw one (ground (arith, count_lead code 0 rest))
  | inr more ↦ rw more (elim (Bool-cases (leb code 0x7ff)) [
    | inl two ↦
        let x = code / 64 in
        let t =
          each_below_sound 32 (λ x. utf8_skip (bit_or 0xc0 x) == 1 && ltb 0 (bit_or 0xc0 x)) x
            lead_two (omega tests) in
        rw two (
          count_lead (bit_or 0xc0 x) 1 (bit_or 0x80 (bit_and code 0x3f) ∷ rest) (ground arith)
            (ground arith))
    | inr more₂ ↦
        let x = code / 4096 in
        let t =
          each_below_sound 16 (λ x. utf8_skip (bit_or 0xe0 x) == 2 && ltb 0 (bit_or 0xe0 x)) x
            lead_three (omega tests) in
        rw (more₂, le→leb code 0xffff fits)
          (count_lead (bit_or 0xe0 x) 2
            (bit_or 0x80 (bit_and (code / 64) 0x3f) ∷ bit_or 0x80 (bit_and code 0x3f) ∷ rest)
            (ground arith) (ground arith))
  ])
]

count-encode :
    (code : ℕ) (bytes rest : Bytes)
    → 0 < code
    → code ≤ 0xffff
    → utf8_encode code ≡ some bytes
    → utf8_count 0 (bytes ++ rest) ≡ counted (utf8_count 0 rest)
count-encode code bytes rest pos fits e = rw e at (encode-Counts code rest pos fits)

-- The text that a list of codes is encoded to, without its NUL.
unfoldable pub encode_all : List ℕ → Option Bytes
encode_all [] = some []
encode_all (code ∷ codes) = elim (utf8_encode code) [
  | none ↦ none
  | some bytes ↦ elim (encode_all codes) [ none ↦ none | some more ↦ some (bytes ++ more) ]
]

-- A code that is not the NUL and that `utf8_encode` writes with the right lead byte.
abbrev pub InPlane : ℕ → Type 0
InPlane code = (0 < code) × (code ≤ 0xffff)

-- Of a string that was encoded code by code, from codes between 1 and ffff, and that ends with a
-- NUL, `utf8_length` is the number of the codes, whatever stands behind the NUL.
pub utf8_length-encode_all :
    (codes : List ℕ) (text rest : Bytes)
    → All InPlane codes
    → encode_all codes ≡ some text
    → utf8_length (text ++ 0 ∷ rest) ≡ some (length codes)
unfolding utf8_length encode_all
utf8_length-encode_all [] text rest h e = unfold utf8_count in ground arith
utf8_length-encode_all (code ∷ codes) text rest h e = elim (Option-cases (utf8_encode code)) [
  | inl no_bytes ↦ ground arith
  | inr (bytes, one) ↦ elim (Option-cases (encode_all codes)) [
    | inl no_text ↦ ground arith
    | inr (more, all) ↦ ground (
      arith,
      append_assoc bytes more (0 ∷ rest),
      count-encode code bytes (more ++ 0 ∷ rest),
      utf8_length-encode_all codes more rest h.1 all,
    )
  ]
]
