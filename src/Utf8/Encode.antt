-- ===== src/Utf8/Encode.antt =====
-- What `utf8_char` makes of the bytes that `utf8_encode` writes.
use epri_client.Prelude.{
  ℕ, ◌+◌, not, in_range, ◌-◌, ◌*◌, ◌/◌, ◌%◌, ◌≤◌, ◌<◌, Bool, true, false, Option, none, some, ◌∷◌,
  ◌++◌, ◌&&◌, ◌≡◌, refl, inl, inr, arith, ltb, leb, ◌==◌, ◌∙◌, if◌then◌else◌, bit_and, bit_or,
  Bool-cases, tests,
}
use epri_client.Prelude.Bits.{each_below, each_below_sound, bit_or_low_high, bit_and_six}
use epri_client.Utf8.{
  Bytes, Decoded, char, reject, utf_entry, enter, utf8_step, utf8_loop, utf8_char, utf8_encode,
}

-- Whether a step enters `state` with `code`.
abbrev pub enters : Option (ℕ × ℕ) → ℕ → ℕ → Bool
enters none code state = false
enters (some (c, s)) code state = c == code && s == state

pub enters_sound :
    (o : Option (ℕ × ℕ)) (code state : ℕ) → enters o code state ≡ true → o ≡ some (code, state)
enters_sound none code state h = cc
enters_sound (some (c, s)) code state h = ground arith

-- The lead bytes c2 to df, and e0 to ef but ed.
two_byte_table : each_below 30 (λ x. enters (utf8_step (bit_or 0xc0 (x + 2)) 0 0) (x + 2) 9) ≡ true
unfolding each_below utf8_step utf_entry
two_byte_table = refl

three_byte_state : ℕ → ℕ
three_byte_state x = if x == 0 then 29 else if x == 13 then 17 else 13

three_byte_table :
    each_below 16 (λ x. enters (utf8_step (bit_or 0xe0 x) 0 0) x (three_byte_state x)) ≡ true
unfolding each_below utf8_step utf_entry three_byte_state
three_byte_table = refl

-- A continuation byte holds six bits, of which the upper two are its type.
abbrev continues : ℕ → Bool
continues y =
    let c = bit_or 0x80 y in
    bit_and c 0x40 == 0 && bit_and (c / 16) 3 == y / 16 && bit_and c 0x3f == y && leb 128 c

continues_table : each_below 64 continues ≡ true
unfolding each_below
continues_table = refl

pub step_continue :
    (y code state : ℕ)
    → y < 64
    → (state == 0) ≡ false
    → utf8_step (bit_or 0x80 y) code state ≡ enter (code * 64 + y) (utf_entry (64 + state + y / 16))
unfolding utf8_step
step_continue y code state h s =
    let t = each_below_sound 64 continues y continues_table h in
    rw s (ground (arith, bit_or_low_high 6 code y))

-- A round of the loop on a byte from 80 on.
pub loop_more :
    (c : ℕ) (rest : Bytes) (code state code' state' : ℕ)
    → ltb c 128 ≡ false
    → utf8_step c code state ≡ some (code', state')
    → (state' == 0) ≡ false
    → utf8_loop (c ∷ rest) code state ≡ utf8_loop rest code' state'
unfolding utf8_loop
loop_more c rest code state code' state' high s more = rw (high, s, more)

loop_last :
    (c : ℕ) (rest : Bytes) (code state code' : ℕ)
    → ltb c 128 ≡ false
    → utf8_step c code state ≡ some (code', 0)
    → utf8_loop (c ∷ rest) code state ≡ char code' rest
unfolding utf8_loop
loop_last c rest code state code' high s = rw (high, s)

pub loop_reject :
    (c : ℕ) (rest : Bytes) (code state : ℕ)
    → ltb c 128 ≡ false
    → utf8_step c code state ≡ none
    → utf8_loop (c ∷ rest) code state ≡ reject
unfolding utf8_loop
loop_reject c rest code state high s = rw (high, s)

pub continue_high : (y : ℕ) → y < 64 → ltb (bit_or 0x80 y) 128 ≡ false
continue_high y h = ground (arith, each_below_sound 64 continues y continues_table h)

-- The transitions on a continuation byte of type `q`.
transition_table :
    each_below 4 (λ q.
      utf_entry (73 + q) == 0
      && utf_entry (77 + q) == 9
      && utf_entry (81 + q) == (if ltb q 2 then 9 else 99)
      && utf_entry (93 + q) == (if ltb q 2 then 99 else 9))
    ≡ true
unfolding each_below utf_entry
transition_table = refl

-- The last continuation byte, after which any byte of the character is read.
pub last_byte :
    (y code : ℕ) (rest : Bytes)
    → y < 64
    → utf8_loop (bit_or 0x80 y ∷ rest) code 9 ≡ char (code * 64 + y) rest
last_byte y code rest h =
    loop_last (bit_or 0x80 y) rest code 9 (code * 64 + y) (continue_high y h) (
      step_continue y code 9 h refl
      ∙ ground (arith, each_below_sound 4 _ (y / 16) transition_table (omega arith)))

-- The second byte behind the lead byte `0xe0 + x`.
abbrev accepts : ℕ → ℕ → Bool
accepts x q = if x == 0 then leb 2 q else if x == 13 then ltb q 2 else true

second_step :
    (x y : ℕ)
    → x < 16
    → y < 64
    → utf8_step (bit_or 0x80 y) x (three_byte_state x)
      ≡ (if accepts x (y / 16) then some (x * 64 + y, 9) else none)
unfolding three_byte_state
second_step x y hx hy = ground (
  arith,
  step_continue y x (three_byte_state x) hy,
  each_below_sound 4 _ (y / 16) transition_table (omega arith),
)

lead_three : (x : ℕ) → x < 16 → utf8_step (bit_or 0xe0 x) 0 0 ≡ some (x, three_byte_state x)
lead_three x h = enters_sound _ _ _ (each_below_sound 16 _ x three_byte_table h)

lead_three_high : (x : ℕ) → x < 16 → ltb (bit_or 0xe0 x) 128 ≡ false
unfolding each_below
lead_three_high x h = ground (arith, each_below_sound 16 (λ x. leb 128 (bit_or 0xe0 x)) x refl h)

lead_state : (x : ℕ) → (three_byte_state x == 0) ≡ false
unfolding three_byte_state
lead_state x = ground arith

-- Three bytes: a lead byte and two continuation bytes.
three_bytes :
    (x y z : ℕ) (rest : Bytes)
    → x < 16
    → y < 64
    → z < 64
    → utf8_loop (bit_or 0xe0 x ∷ bit_or 0x80 y ∷ bit_or 0x80 z ∷ rest) 0 0
      ≡ (if accepts x (y / 16) then char ((x * 64 + y) * 64 + z) rest else reject)
three_bytes x y z rest hx hy hz =
    loop_more _ _ 0 0 x (three_byte_state x) (lead_three_high x hx) (lead_three x hx) (lead_state x)
    ∙ elim (Bool-cases (accepts x (y / 16))) [
      | inl good ↦ rw good (
          loop_more _ _ x (three_byte_state x) (x * 64 + y) 9 (continue_high y hy)
            (second_step x y hx hy ∙ rw good) refl
          ∙ last_byte z (x * 64 + y) rest hz)
      | inr bad ↦ rw bad (
          loop_reject _ _ x (three_byte_state x) (continue_high y hy)
            (second_step x y hx hy ∙ rw bad))
    ]

lead_two_high : (x : ℕ) → x < 32 → ltb (bit_or 0xc0 x) 128 ≡ false
unfolding each_below
lead_two_high x h = ground (arith, each_below_sound 32 (λ x. leb 128 (bit_or 0xc0 x)) x refl h)

lead_two_from : (x : ℕ) → x < 30 → utf8_step (bit_or 0xc0 (x + 2)) 0 0 ≡ some (x + 2, 9)
lead_two_from x h = enters_sound _ _ _ (each_below_sound 30 _ x two_byte_table h)

lead_two : (x : ℕ) → 2 ≤ x → x < 32 → utf8_step (bit_or 0xc0 x) 0 0 ≡ some (x, 9)
lead_two x lo hi =
    let back : x - 2 + 2 ≡ x = omega arith in rw back at (lead_two_from (x - 2) (omega arith))

-- Two bytes.
two_bytes :
    (x y : ℕ) (rest : Bytes)
    → 2 ≤ x
    → x < 32
    → y < 64
    → utf8_loop (bit_or 0xc0 x ∷ bit_or 0x80 y ∷ rest) 0 0 ≡ char (x * 64 + y) rest
two_bytes x y rest lo hi hy =
    loop_more _ _ 0 0 x 9 (lead_two_high x hi) (lead_two x lo hi) refl ∙ last_byte y x rest hy

-- The codes that survive: below 10000 (hexadecimal), and no surrogate.
abbrev pub kept : ℕ → Bool
kept code = leb code 0xffff && not (in_range code 0xd800 0xdfff)

-- Decoding the bytes, if there are any, gives `d`.
abbrev Decodes : Option Bytes → Bytes → Decoded → Type 0
Decodes none rest d = Unit {0}
Decodes (some bytes) rest d = utf8_char (bytes ++ rest) ≡ d

pub one_byte : (c : ℕ) (rest : Bytes) → c < 128 → utf8_loop (c ∷ rest) 0 0 ≡ char c rest
unfolding utf8_loop
one_byte c rest h = ground arith

pub utf8_char-one_byte : (c : ℕ) (rest : Bytes) → c < 128 → utf8_char (c ∷ rest) ≡ char c rest
unfolding utf8_char
utf8_char-one_byte c rest h = one_byte c rest h

encode-Decodes :
    (code : ℕ) (rest : Bytes)
    → Decodes (utf8_encode code) rest (if kept code then char code rest else reject)
unfolding utf8_char utf8_encode
encode-Decodes code rest = elim (Bool-cases (leb code 0x7f)) [
  | inl one ↦ rw one (ground (arith, one_byte code rest))
  | inr more ↦ rw more (elim (Bool-cases (leb code 0x7ff)) [
    | inl two ↦
        rw (two, bit_and_six code)
          (ground (arith, two_bytes (code / 64) (code % 64) rest (omega tests)))
    | inr more₂ ↦ rw more₂ (elim (Bool-cases (leb code 0xffff)) [
      | inl three ↦
          rw (three, bit_and_six (code / 64), bit_and_six code)
            (ground (arith, three_bytes (code / 4096) (code / 64 % 64) (code % 64) rest))
      | inr more₃ ↦ rw more₃ (elim (Bool-cases (leb code 0x1ffff)) [
        | inl four ↦
            rw (four, bit_and_six (code / 4096), bit_and_six (code / 64))
              (ground (
                arith,
                three_bytes (code / 262144) (code / 4096 % 64) (code / 64 % 64)
                    (bit_or 0x80 (bit_and code 0x3f) ∷ rest),
              ))
        | inr none_left ↦ rw none_left tt
      ])
    ])
  ])
]

-- Decoding what was encoded gives the code back, and leaves what stands behind it, for each code
-- below 10000 that is no surrogate. Any other code that `utf8_encode` accepts is rejected.
pub utf8_char-utf8_encode :
    (code : ℕ) (bytes rest : Bytes)
    → utf8_encode code ≡ some bytes
    → utf8_char (bytes ++ rest) ≡ (if kept code then char code rest else reject)
utf8_char-utf8_encode code bytes rest e = rw e at (encode-Decodes code rest)
