-- ===== src/Exi/Literals.antt =====
-- The room that exi_parse.c allocates for a string literal.
use epri_client.Prelude.{
  ℕ, zero, suc, ◌+◌, ◌-◌, ◌*◌, ◌/◌, ◌^◌, ◌%◌, ◌<◌, ◌≤◌, ◌≡◌, refl, sym, ◌∙◌, ap, arith, false, none,
  some, ◌++◌, ltb, ◌==◌, if◌then◌else◌, bit_and, length, length-append, Bool-cases, Option-cases,
  inl, inr, ◌⊎◌,
}
use native.Mathlib.Nat.{div-div-eq-div-mul}
use epri_client.Prelude.Bits.{bit_and_three, bit_and_digit}
use epri_client.Util.{Bytes}
use epri_client.Utf8.{utf8_encode}
use epri_client.Exi.{Reader, parse_byte, uint, parse_uint_loop}
use epri_client.Exi.Groups.{read_round, bit_and_mark}
use epri_client.Exi.Strings.{
  too_short, too_long, ExiReader, Scanned, scanned, scan_loop, utf8_bytes, exi_utf8_length,
  text_length, resume_uint, uint_answer, reader_after, parse_literal, text_too_long, text_too_short,
}

low_three : (b : ℕ) → bit_and b 7 ≡ b % 8
low_three b = omega (arith, bit_and_digit b 7, bit_and_three (b / 2))

low_four : (b : ℕ) → bit_and b 0xf ≡ b % 16
low_four b = omega (arith, bit_and_digit b 0xf, low_three (b / 2))

low_five : (b : ℕ) → bit_and b 0x1f ≡ b % 32
low_five b = omega (arith, bit_and_digit b 0x1f, low_four (b / 2))

mask_e : (b : ℕ) → bit_and b 0xe ≡ b / 2 % 8 * 2
mask_e b = omega (arith, bit_and_digit b 0xe, low_three (b / 2))

mask_38 : (b : ℕ) → bit_and b 0x38 ≡ b / 2 / 2 / 2 % 8 * 8
mask_38 b = omega (arith, bit_and_digit b 0x38, bit_and_digit (b / 2) 0x1c, mask_e (b / 2 / 2))

mask_70 : (b : ℕ) → bit_and b 0x70 ≡ b / 2 / 2 / 2 / 2 % 8 * 16
mask_70 b = omega (arith, bit_and_digit b 0x70, mask_38 (b / 2))

quarter : (b : ℕ) → b / 2 / 2 ≡ b / 4
quarter b = div-div-eq-div-mul b 2 2

sixteenth : (b : ℕ) → b / 2 / 2 / 2 / 2 ≡ b / 16
sixteenth b = quarter (b / 2 / 2) ∙ ap (λ (t : ℕ). t / 4) (quarter b) ∙ div-div-eq-div-mul b 4 4

-- The bits above the fourth and above the second of a group.
high_of_two : (b : ℕ) → bit_and b 0x70 ≡ b / 16 % 8 * 16
high_of_two b = mask_70 b ∙ ap (λ (t : ℕ). t % 8 * 16) (sixteenth b)

mask_3e : (b : ℕ) → bit_and b 0x3e ≡ b / 2 % 32 * 2
mask_3e b = omega (arith, bit_and_digit b 0x3e, low_five (b / 2))

mask_7c : (b : ℕ) → bit_and b 0x7c ≡ b / 2 / 2 % 32 * 4
mask_7c b = omega (arith, bit_and_digit b 0x7c, mask_3e (b / 2))

high_of_three : (b : ℕ) → bit_and b 0x7c ≡ b / 4 % 32 * 4
high_of_three b = mask_7c b ∙ ap (λ (t : ℕ). t % 32 * 4) (quarter b)

-- How many bytes a code takes at most.
abbrev byte_count : ℕ → ℕ
byte_count x = if ltb x 0x80 then 1 else if ltb x 0x800 then 2 else if ltb x 0x10000 then 3 else 4

length-utf8_encode : (x : ℕ) (text : Bytes) → utf8_encode x ≡ some text → length text ≤ byte_count x
unfolding utf8_encode
length-utf8_encode x text e = ground arith

-- A number of `m` groups, the last of which is `b`.
abbrev Below : ℕ → ℕ → ℕ → Type 0
Below m b x = x < (b % 128 + 1) * 2 ^ (7 * m - 7)

utf8_bytes-bound : (m b x : ℕ) → 1 ≤ m → m ≤ 3 → Below m b x → byte_count x ≤ utf8_bytes m b
unfolding utf8_bytes
utf8_bytes-bound zero b x low high h = absurd (omega arith)
utf8_bytes-bound (suc zero) b x low high h = ground arith
utf8_bytes-bound (suc (suc zero)) b x low high h = ground (arith, high_of_two b)
utf8_bytes-bound (suc (suc (suc zero))) b x low high h = ground (arith, high_of_three b)
utf8_bytes-bound (suc (suc (suc (suc m)))) b x low high h = absurd (omega arith)

-- The groups that were scanned are the ones that `parse_uint` reads.
abbrev Found : ℕ → Reader → ℕ → ℕ → ℕ → ℕ → Reader → Type 0
Found rounds r ux n m b r' =
    (x : ℕ) × (parse_uint_loop rounds r ux n ≡ uint x r') × (1 ≤ m) × (m ≤ 3) × Below m b x

scan_round :
    (left m b : ℕ) (r r' : Reader)
    → parse_byte r ≡ some (b, r')
    → scan_loop (suc (suc left)) r m
      ≡ (if b / 128 % 2 * 128 == 0 then scanned (m + 1) b r' else scan_loop (suc left) r' (m + 1))
unfolding scan_loop
scan_round left m b r r' e =
    let more_left : (suc left == 0) ≡ false = ground arith in
    rw (scan_loop, e, bit_and_mark b, more_left) refl

no_byte :
    (left m m' b : ℕ) (r r' : Reader)
    → parse_byte r ≡ none
    → ¬ (scan_loop left r m ≡ scanned m' b r')
unfolding scan_loop
no_byte zero m m' b r r' e h = cc
no_byte (suc left) m m' b r r' e h =
    let short : scan_loop (suc left) r m ≡ too_short = rw (scan_loop, e) refl in cc

shift_fits : (m n c : ℕ) → n ≡ 7 * m → m ≤ 2 → c % 128 * 2 ^ n < 2 ^ 31
shift_fits zero n c h k = let w : n ≡ 0 = omega arith in rw w (omega arith)
shift_fits (suc zero) n c h k = let w : n ≡ 7 = omega arith in rw w (omega arith)
shift_fits (suc (suc zero)) n c h k = let w : n ≡ 14 = omega arith in rw w (omega arith)
shift_fits (suc (suc (suc m))) n c h k = absurd (omega arith)

last_is_long : (r r' : Reader) (m b : ℕ) → ¬ (scan_loop 1 r 3 ≡ scanned m b r')
unfolding scan_loop
last_is_long r r' m b h = elim (Option-cases (parse_byte r)) [
  | inl e ↦ let short : scan_loop 1 r 3 ≡ too_short = rw (scan_loop, e) refl in cc
  | inr ((c, s), e) ↦ let long : scan_loop 1 r 3 ≡ too_long = rw (scan_loop, e) refl in cc
]

scan_step :
    (left m rounds n ux m' b : ℕ) (r r' : Reader)
    → n ≡ 7 * m
    → m ≤ 2
    → ux < 2 ^ n
    → scan_loop (suc (suc left)) r m ≡ scanned m' b r'
    → ((g : ℕ) (s : Reader)
        → g < 128
        → scan_loop (suc left) s (m + 1) ≡ scanned m' b r'
        → Found rounds s (ux + g * 2 ^ n) (n + 7) m' b r')
    → Found (suc rounds) r ux n m' b r'
scan_step left m rounds n ux m' b r r' hn hm hu run rest = elim (Option-cases (parse_byte r)) [
  | inl none_left ↦ absurd (no_byte (suc (suc left)) m m' b r r' none_left run)
  | inr ((c, s), e) ↦
      let fits = shift_fits m n c hn hm in
      let uints = read_round rounds n ux c r s e (omega arith) fits hu in
      let scan = scan_round left m c r s e in
      elim (Bool-cases (c / 128 % 2 * 128 == 0)) [
        | inl last ↦
            let scan' : scan_loop (suc (suc left)) r m ≡ scanned (m + 1) c s =
              scan ∙ rw last refl in
            let same_m : m + 1 ≡ m' = cc in
            let same_b : c ≡ b = cc in
            let same_r : s ≡ r' = cc in
            let width : 7 * m' - 7 ≡ n = omega arith in
            (
              ux + c % 128 * 2 ^ n,
              uints ∙ rw last (ap (λ v. uint (ux + c % 128 * 2 ^ n) v) same_r),
              omega arith,
              omega arith,
              rw (width, sym same_b) (omega arith),
            )
        | inr more ↦
            let (x, read, low, high, below) =
              rest (c % 128) s (omega arith) (sym (scan ∙ rw more refl) ∙ run) in
            (x, uints ∙ rw more read, low, high, below)
      ]
]

-- What is scanned as a character is a number that `parse_uint` reads.
scan-parse_uint :
    (m b : ℕ) (r r' : Reader) → scan_loop 4 r 0 ≡ scanned m b r' → Found 11 r 0 0 m b r'
scan-parse_uint m b r r' run =
    scan_step 2 0 10 0 0 m b r r' refl (omega arith) (omega arith) run second
  where
    third :
        (ux g : ℕ) (s : Reader)
        → ux < 2 ^ 7
        → g < 128
        → scan_loop 2 s 2 ≡ scanned m b r'
        → Found 9 s (ux + g * 2 ^ 7) 14 m b r'
    third ux g s hu hg found =
        scan_step 0 2 8 14 (ux + g * 2 ^ 7) m b s r' refl (omega arith) (omega arith) found
          λ g' s' hg' long. absurd (last_is_long s' r' m b long)

    second :
        (g : ℕ) (s : Reader)
        → g < 128
        → scan_loop 3 s 1 ≡ scanned m b r'
        → Found 10 s (0 + g * 2 ^ 0) 7 m b r'
    second g s hg found =
        scan_step 1 1 9 7 (0 + g * 2 ^ 0) m b s r' refl (omega arith) (omega arith) found
          λ g' s' hg'. third (0 + g * 2 ^ 0) g' s' (omega arith) hg'

resume_at_start :
    (r : ExiReader) (x : ℕ) (s : Reader)
    → r.ux_n ≡ 0
    → parse_uint_loop 11 r.stream 0 0 ≡ uint x s
    → reader_after (resume_uint r) ≡ some (record r { stream = s; ux = x; ux_n = 0 })
unfolding resume_uint reader_after uint_answer
resume_at_start r x s e run = rw (e, run) refl

Scanned-cases :
    (c : Scanned)
    → ((m : ℕ) × (b : ℕ) × (s : Reader) × (c ≡ scanned m b s)) ⊎ ((c ≡ too_long) ⊎ (c ≡ too_short))
Scanned-cases (scanned m b s) = inl (m, b, s, refl)
Scanned-cases too_long = inr (inl refl)
Scanned-cases too_short = inr (inr refl)

one_char :
    (n total k b : ℕ) (r : Reader) (s : Reader)
    → scan_loop 4 r 0 ≡ scanned k b s
    → exi_utf8_length (suc n) r total ≡ exi_utf8_length n s (total + utf8_bytes k b)
unfolding exi_utf8_length
one_char n total k b r s e = rw (exi_utf8_length, e) refl

not_all :
    (n total m : ℕ) (r : Reader)
    → (scan_loop 4 r 0 ≡ too_long) ⊎ (scan_loop 4 r 0 ≡ too_short)
    → ¬ (exi_utf8_length (suc n) r total ≡ text_length m)
unfolding exi_utf8_length
not_all n total m r (inl e) h =
    let none_left : exi_utf8_length (suc n) r total ≡ text_too_long =
      rw (exi_utf8_length, e) refl in
    cc
not_all n total m r (inr e) h =
    let none_left : exi_utf8_length (suc n) r total ≡ text_too_short =
      rw (exi_utf8_length, e) refl in
    cc

literal_char :
    (n : ℕ) (r r₁ : ExiReader) (text encoded : Bytes)
    → reader_after (resume_uint r) ≡ some r₁
    → utf8_encode r₁.ux ≡ some encoded
    → parse_literal (suc n) r text ≡ parse_literal n r₁ (text ++ encoded)
unfolding parse_literal
literal_char n r r₁ text encoded e f = rw (parse_literal, e, f) refl

literal_stops :
    (n : ℕ) (r r₁ : ExiReader) (text : Bytes)
    → reader_after (resume_uint r) ≡ some r₁
    → utf8_encode r₁.ux ≡ none
    → parse_literal (suc n) r text ≡ none
unfolding parse_literal
literal_stops n r r₁ text e f = rw (parse_literal, e, f) refl

-- The bytes that `parse_literal` writes for the characters at the reader, behind the ones that are
-- there, are no more than `exi_utf8_length` counts.
pub length-parse_literal :
    (n total m : ℕ) (r : ExiReader) (text text' : Bytes) (r' : ExiReader)
    → r.ux_n ≡ 0
    → exi_utf8_length n r.stream total ≡ text_length m
    → length text ≤ total
    → parse_literal n r text ≡ some (text', r')
    → length text' ≤ m
unfolding exi_utf8_length parse_literal
length-parse_literal zero total m r text text' r' fresh scan h run =
    let same_total : total ≡ m = cc in
    let same_text : text ≡ text' = cc in rw (sym same_total, sym same_text) h
length-parse_literal (suc n) total m r text text' r' fresh scan h run =
    elim (Scanned-cases (scan_loop 4 r.stream 0)) [
      | inr e ↦ absurd (not_all n total m r.stream e scan)
      | inl (k, b, s, e) ↦
          let (x, read, low, high, below) = scan-parse_uint k b r.stream s e in
          let r₁ : ExiReader = record r { stream = s; ux = x; ux_n = 0 } in
          let resumed = resume_at_start r x s fresh read in
          elim (Option-cases (utf8_encode x)) [
            | inl f ↦ let stops = literal_stops n r r₁ text resumed f in cc
            | inr (encoded, f) ↦
                let size = length-utf8_encode x encoded f in
                let bytes = utf8_bytes-bound k b x low high below in
                length-parse_literal n (total + utf8_bytes k b) m r₁ (text ++ encoded) text' r' refl
                  (sym (one_char n total k b r.stream s e) ∙ scan)
                  (omega (arith, length-append text encoded))
                  (sym (literal_char n r r₁ text encoded resumed f) ∙ run)
          ]
    ]
