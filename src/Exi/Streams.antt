-- ===== src/Exi/Streams.antt =====
-- A reader finds at the place where a writer stood what the writer wrote there: single bits and
-- bytes, at each bit offset.
use epri_client.Prelude.{
  ℕ, zero, suc, ◌+◌, ◌-◌, ◌*◌, ◌/◌, ◌%◌, ◌^◌, ◌<◌, ◌≡◌, refl, ◌∙◌, inl, inr, arith, true, false,
  some, List, [], ◌∷◌, ◌++◌, ◌==◌, if◌then◌else◌, Bool-cases, ap, bit_or, sym,
}
use native.Mathlib.Nat.{div-add-mod}
use epri_client.Prelude.Bits.{bit_or_high_low}
use epri_client.Exi.{Reader, reader, Writer, parse_byte_at, parse_byte, output_byte}

-- The byte at the writer's place holds the bits that the writer has put there.
abbrev pub Top : ℕ → ℕ → List ℕ → Type 0
Top bit cur [] = bit ≡ 0
Top bit cur (x ∷ _) = (x < 256) × (x / 2 ^ (8 - bit) ≡ cur / 2 ^ (8 - bit))

-- The reader stands where the writer stood.
abbrev pub At : Writer → Reader → Type 0
At w r = (r.bit ≡ w.bit) × Top w.bit w.cur r.ptr

-- The writer's byte has no bits behind the offset.
pub record IsWriter (w : Writer) : Type 0 where
  pub offset : w.bit < 8
  pub byte : w.cur < 256
  pub clean : w.cur % 2 ^ (8 - w.bit) ≡ 0

-- `|` of a number with no low bits and a number of low bits is their sum.
bit_or_aligned : (k c r : ℕ) → c % 2 ^ k ≡ 0 → r < 2 ^ k → bit_or c r ≡ c + r
bit_or_aligned k c r clean h =
    let split : c / 2 ^ k * 2 ^ k ≡ c = omega (arith, div-add-mod c (2 ^ k)) in
    rw split at (bit_or_high_low k (c / 2 ^ k) r h)

-- A byte split at a bit offset comes together again.
rejoin :
    (k c b y : ℕ)
    → k < 8
    → 0 < k
    → c < 256
    → c % 2 ^ (8 - k) ≡ 0
    → b < 256
    → y < 256
    → y / 2 ^ (8 - k) ≡ b * 2 ^ (8 - k) % 256 / 2 ^ (8 - k)
    → bit_or (bit_or c (b / 2 ^ k) * 2 ^ k % 256) (y / 2 ^ (8 - k)) ≡ b
rejoin zero c b y h p hc clean hb hy top = absurd (omega arith)
rejoin (suc (suc (suc (suc (suc (suc (suc (suc n)))))))) c b y h p hc clean hb hy top =
    absurd (omega arith)
rejoin k c b y h p hc clean hb hy top = ground (
  arith,
  bit_or_aligned (8 - k) c (b / 2 ^ k),
  bit_or_aligned k ((c + b / 2 ^ k) * 2 ^ k % 256) (y / 2 ^ (8 - k)),
)

shifted_clean : (k b : ℕ) → k < 8 → b * 2 ^ (8 - k) % 256 % 2 ^ (8 - k) ≡ 0
shifted_clean zero b h = omega arith
shifted_clean (suc zero) b h = omega arith
shifted_clean (suc (suc zero)) b h = omega arith
shifted_clean (suc (suc (suc zero))) b h = omega arith
shifted_clean (suc (suc (suc (suc zero)))) b h = omega arith
shifted_clean (suc (suc (suc (suc (suc zero))))) b h = omega arith
shifted_clean (suc (suc (suc (suc (suc (suc zero)))))) b h = omega arith
shifted_clean (suc (suc (suc (suc (suc (suc (suc zero))))))) b h = omega arith
shifted_clean (suc (suc (suc (suc (suc (suc (suc (suc n)))))))) b h = absurd (omega arith)

-- The byte of the stream that is complete once `b` is written.
abbrev pub emitted : Writer → ℕ → ℕ
emitted w b = if w.bit == 0 then b else bit_or w.cur (b / 2 ^ w.bit)

pub bytes_emitted : (w : Writer) (b : ℕ) → (output_byte w b).bytes ≡ w.bytes ++ emitted w b ∷ []
unfolding output_byte
bytes_emitted w b = ground arith

pub bit_emitted : (w : Writer) (b : ℕ) → (output_byte w b).bit ≡ w.bit
unfolding output_byte
bit_emitted w b = ground arith

pub output_byte-IsWriter : (w : Writer) (b : ℕ) → IsWriter w → b < 256 → IsWriter (output_byte w b)
unfolding output_byte
output_byte-IsWriter w b h hb = elim (Bool-cases (w.bit == 0)) [
  | inl aligned ↦
      rw aligned (record { offset = omega arith; byte = omega arith; clean = ground arith })
  | inr inside ↦
      rw inside
        (record { offset = h.offset; byte = omega arith; clean = shifted_clean w.bit b h.offset })
]

-- A reader that stands behind the byte has the byte in front of it.
aligned_end :
    (w : Writer) (b : ℕ) (ptr : List ℕ)
    → (w.bit == 0) ≡ true
    → parse_byte_at (emitted w b ∷ ptr) w.bit ≡ some (b, reader ptr w.bit)
unfolding parse_byte_at
aligned_end w b [] e = rw e refl
aligned_end w b (c ∷ ptr) e = rw e refl

inside_end :
    (w : Writer) (b : ℕ) (ptr : List ℕ)
    → IsWriter w
    → b < 256
    → (w.bit == 0) ≡ false
    → Top w.bit (b * 2 ^ (8 - w.bit) % 256) ptr
    → parse_byte_at (emitted w b ∷ ptr) w.bit ≡ some (b, reader ptr w.bit)
unfolding parse_byte_at
inside_end w b [] h hb e top = ground arith
inside_end w b (y ∷ ptr) h hb e (hy, top) =
    let pos : 0 < w.bit = ground arith in
    rw (e, rejoin w.bit w.cur b y h.offset pos h.byte h.clean hb hy top) refl

parse_at_end :
    (w : Writer) (b : ℕ) (ptr : List ℕ)
    → IsWriter w
    → b < 256
    → Top (output_byte w b).bit (output_byte w b).cur ptr
    → parse_byte_at (emitted w b ∷ ptr) w.bit ≡ some (b, reader ptr w.bit)
unfolding output_byte parse_byte_at
parse_at_end w b ptr h hb top = elim (Bool-cases (w.bit == 0)) [
  | inl aligned ↦ aligned_end w b ptr aligned
  | inr inside ↦ inside_end w b ptr h hb inside (rw inside at top)
]

pub parse_byte-output_byte :
    (w : Writer) (b : ℕ) (r : Reader)
    → IsWriter w
    → b < 256
    → At (output_byte w b) r
    → parse_byte (reader (emitted w b ∷ r.ptr) w.bit) ≡ some (b, r)
unfolding parse_byte
parse_byte-output_byte w b r h hb (same, top) =
    parse_at_end w b r.ptr h hb top
    ∙ ap (λ k. some (b, reader r.ptr k)) (sym (same ∙ bit_emitted w b))

add_low :
    (k c b : ℕ)
    → k < 8
    → c < 256
    → c % 2 ^ (8 - k) ≡ 0
    → b < 256
    → (b / 2 ^ k < 2 ^ (8 - k))
      × (c + b / 2 ^ k < 256)
      × ((c + b / 2 ^ k) / 2 ^ (8 - k) ≡ c / 2 ^ (8 - k))
add_low zero c b h hc clean hb = (omega arith, omega arith, omega arith)
add_low (suc zero) c b h hc clean hb = (omega arith, omega arith, omega arith)
add_low (suc (suc zero)) c b h hc clean hb = (omega arith, omega arith, omega arith)
add_low (suc (suc (suc zero))) c b h hc clean hb = (omega arith, omega arith, omega arith)
add_low (suc (suc (suc (suc zero)))) c b h hc clean hb = (omega arith, omega arith, omega arith)
add_low (suc (suc (suc (suc (suc zero))))) c b h hc clean hb =
    (omega arith, omega arith, omega arith)
add_low (suc (suc (suc (suc (suc (suc zero)))))) c b h hc clean hb =
    (omega arith, omega arith, omega arith)
add_low (suc (suc (suc (suc (suc (suc (suc zero))))))) c b h hc clean hb =
    (omega arith, omega arith, omega arith)
add_low (suc (suc (suc (suc (suc (suc (suc (suc n)))))))) c b h hc clean hb = absurd (omega arith)

-- The byte that is complete holds the bits that were there before it.
pub emitted-Top :
    (w : Writer) (b : ℕ) (rest : List ℕ)
    → IsWriter w
    → b < 256
    → Top w.bit w.cur (emitted w b ∷ rest)
emitted-Top w b rest h hb =
    let (low, byte, same) = add_low w.bit w.cur b h.offset h.byte h.clean hb in
    elim (Bool-cases (w.bit == 0)) [
      | inl aligned ↦
          let zero_bit : w.bit ≡ 0 = ground arith in
          let empty : w.cur % 2 ^ 8 ≡ 0 = rw zero_bit at h.clean in rw zero_bit (hb, omega arith)
      | inr inside ↦
          rw (inside, bit_or_aligned (8 - w.bit) w.cur (b / 2 ^ w.bit) h.clean low) (byte, same)
    ]
