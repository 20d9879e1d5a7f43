-- ===== src/Exi/Integers.antt =====
-- What `parse_uint` reads of the number that `output_uint` writes.
use mathlib.Core.Path.{subst}
use epri_client.Prelude.{
  ℕ, zero, suc, ◌+◌, ◌*◌, ◌/◌, ◌%◌, ◌^◌, ◌≤◌, ◌<◌, ◌≡◌, List, [], ◌∷◌, ◌++◌, some, arith, refl, ap,
  ◌∙◌, append_assoc, Bool-cases, inl, inr,
}
use epri_client.Exi.{
  Reader, Writer, reader, parse_byte, parse_uint_loop, parse_uint, ParsedUint, uint, output_byte,
  output_uint_loop, output_uint, ltb,
}
use epri_client.Exi.Streams.{
  Top, emitted-Top, At, IsWriter, emitted, bytes_emitted, output_byte-IsWriter,
  parse_byte-output_byte,
}
use epri_client.Exi.Groups.{
  read_last, read_more, split_group, small_shift, next_power, write_last, write_more,
}

-- What a writer that came from `w` to `w'` has written is read as `expected`, from any reader that
-- stands behind it.
abbrev pub ReadAs : Writer → Writer → ℕ → ℕ → ℕ → (Reader → ParsedUint) → Type 0
ReadAs w w' rounds ux n expected =
    (em : List ℕ) × (w'.bytes ≡ w.bytes ++ em)
    × ((r : Reader)
        → At w' r
        → Top w.bit w.cur (em ++ r.ptr)
          × (parse_uint_loop rounds (reader (em ++ r.ptr) w.bit) ux n ≡ expected r))

-- A byte in front of what is read.
read_byte_first :
    (w : Writer) (b : ℕ) (w' : Writer) (rounds ux ux' n n' : ℕ) (expected : Reader → ParsedUint)
    → IsWriter w
    → b < 256
    → ((r r' : Reader)
        → parse_byte r ≡ some (b, r')
        → parse_uint_loop (suc rounds) r ux n ≡ parse_uint_loop rounds r' ux' n')
    → ReadAs (output_byte w b) w' rounds ux' n' expected
    → ReadAs w w' (suc rounds) ux n expected
read_byte_first w b w' rounds ux ux' n n' expected h hb round (em, e, read) =
    let w₁ = output_byte w b in
    (
      emitted w b ∷ em,
      e ∙ ap (λ l. l ++ em) (bytes_emitted w b) ∙ append_assoc w.bytes (emitted w b ∷ []) em,
      λ r at_end.
          let (top, rest) = read r at_end in
          let r' = reader (em ++ r.ptr) w₁.bit in
          (
            emitted-Top w b (em ++ r.ptr) h hb,
            round _ r' (parse_byte-output_byte w b r' h hb (refl, top)) ∙ rest,
          ),
    )

-- The last byte.
read_byte_last :
    (w : Writer) (b rounds ux n : ℕ) (expected : Reader → ParsedUint)
    → IsWriter w
    → b < 256
    → ((r r' : Reader) → parse_byte r ≡ some (b, r') → parse_uint_loop rounds r ux n ≡ expected r')
    → ReadAs w (output_byte w b) rounds ux n expected
read_byte_last w b rounds ux n expected h hb round = (
  emitted w b ∷ [],
  bytes_emitted w b,
  λ r at_end. (emitted-Top w b r.ptr h hb, round _ r (parse_byte-output_byte w b r h hb at_end)),
)

last_read :
    (fuel rounds k : ℕ) (w : Writer) (x ux : ℕ)
    → IsWriter w
    → x < 128
    → k ≤ 4
    → ux < 2 ^ (7 * k)
    → x * 2 ^ (7 * k) < 2 ^ 31
    → ReadAs w
        (output_uint_loop (suc fuel) w x)
        (suc rounds)
        ux
        (7 * k)
        (uint (ux + x * 2 ^ (7 * k)))
last_read fuel rounds k w x ux h small hk hu fits = rw (write_last fuel w x small) (
    read_byte_last w x (suc rounds) ux (7 * k) _ h (omega arith)
      (λ r r' e. read_last rounds (7 * k) ux x r r' e small (omega arith) fits hu))

few_rounds : (k x : ℕ) → k ≤ 4 → 4 ≤ k → x * 2 ^ (7 * k) < 2 ^ 31 → x < 128
few_rounds k x hk hr fits = elim (Bool-cases (ltb x 128)) [
  | inl small ↦ ground arith
  | inr large ↦ absurd (omega (arith, small_shift k x hk (ground arith) fits))
]

rest_value :
    (k x ux : ℕ) → ux + x % 128 * 2 ^ (7 * k) + x / 128 * 2 ^ (7 * suc k) ≡ ux + x * 2 ^ (7 * k)
rest_value k x ux = rw (next_power k) (omega (arith, split_group x (2 ^ (7 * k))))

rest_fits : (k x : ℕ) → x * 2 ^ (7 * k) < 2 ^ 31 → x / 128 * 2 ^ (7 * suc k) < 2 ^ 31
rest_fits k x fits = omega (arith, rest_value k x 0)

group_below : (g t : ℕ) → g < 128 → g * t + t ≤ 128 * t
group_below g t h = grind arith

rest_bound : (k x ux : ℕ) → ux < 2 ^ (7 * k) → ux + x % 128 * 2 ^ (7 * k) < 2 ^ (7 * suc k)
rest_bound k x ux hu =
    rw (next_power k) (omega (arith, group_below (x % 128) (2 ^ (7 * k)) (omega arith)))

group_le : (x t : ℕ) → x % 128 * t ≤ x * t
group_le x t = omega (arith, split_group x t)

-- A group with a mark in front of what is read.
read_group_first :
    (fuel rounds k : ℕ) (w : Writer) (x ux : ℕ) (expected : Reader → ParsedUint)
    → IsWriter w
    → 128 ≤ x
    → k ≤ 4
    → ux < 2 ^ (7 * k)
    → x % 128 * 2 ^ (7 * k) < 2 ^ 31
    → ReadAs
        (output_byte w (x % 128 + 128))
        (output_uint_loop fuel (output_byte w (x % 128 + 128)) (x / 128))
        rounds
        (ux + x % 128 * 2 ^ (7 * k))
        (7 * suc k)
        expected
    → ReadAs w (output_uint_loop (suc fuel) w x) (suc rounds) ux (7 * k) expected
read_group_first fuel rounds k w x ux expected h big hk hu fits rest =
    let mark_fits : x % 128 + 128 < 256 = omega arith in
    rw (write_more fuel w x big) (
      read_byte_first w (x % 128 + 128) _ rounds ux _ (7 * k) (7 * suc k) expected h mark_fits
        (λ r r' e.
          read_more rounds (7 * k) ux (x % 128) r r' e (omega arith) (omega arith) fits hu
          ∙ ap (λ (n : ℕ). parse_uint_loop rounds r' (ux + x % 128 * 2 ^ (7 * k)) n) (omega arith))
        rest)

uint_read :
    (fuel rounds k : ℕ) (w : Writer) (x ux : ℕ)
    → IsWriter w
    → x < 2 ^ (7 * suc fuel)
    → k ≤ 4
    → 4 ≤ rounds + k
    → ux < 2 ^ (7 * k)
    → x * 2 ^ (7 * k) < 2 ^ 31
    → ReadAs w
        (output_uint_loop (suc fuel) w x)
        (suc rounds)
        ux
        (7 * k)
        (uint (ux + x * 2 ^ (7 * k)))
uint_read zero rounds k w x ux h hx hk hr hu fits = last_read 0 rounds k w x ux h hx hk hu fits
uint_read (suc fuel) zero k w x ux h hx hk hr hu fits =
    let small : x < 128 = few_rounds k x hk (omega arith) fits in
    last_read (suc fuel) 0 k w x ux h small hk hu fits
uint_read (suc fuel) (suc rounds) k w x ux h hx hk hr hu fits = elim (Bool-cases (ltb x 128)) [
  | inl small ↦ last_read (suc fuel) (suc rounds) k w x ux h (ground arith) hk hu fits
  | inr large ↦
      let big : 128 ≤ x = ground arith in
      let hk' = small_shift k x hk big fits in
      let mark_fits : x % 128 + 128 < 256 = omega arith in
      read_group_first (suc fuel) (suc rounds) k w x ux _ h big hk hu
        (omega (arith, group_le x (2 ^ (7 * k))))
        (rw (rest_value k x ux) at (
          uint_read fuel rounds (suc k) (output_byte w (x % 128 + 128)) (x / 128)
            (ux + x % 128 * 2 ^ (7 * k)) (output_byte-IsWriter w _ h mark_fits)
            (omega (arith, next_power (suc fuel))) (omega arith) (omega arith)
            (rest_bound k x ux hu) (rest_fits k x fits)))
]

-- A number below 2 ^ 31 that `output_uint` writes, at any bit offset, is read back by `parse_uint`,
-- which leaves the reader behind it. `em` are the bytes that the writer completes.
pub parse_uint-output_uint :
    (w : Writer) (x : ℕ)
    → IsWriter w
    → x < 2 ^ 31
    → (em : List ℕ) × ((output_uint w x).bytes ≡ w.bytes ++ em)
      × ((r : Reader)
          → At (output_uint w x) r
          → Top w.bit w.cur (em ++ r.ptr) × (parse_uint (reader (em ++ r.ptr) w.bit) ≡ uint x r))
unfolding output_uint parse_uint
parse_uint-output_uint w x h hx =
    let read =
      uint_read 9 10 0 w x 0 h (omega arith) (omega arith) (omega arith) (omega arith)
        (omega arith) in
    subst (λ (v : ℕ). ReadAs w (output_uint_loop 10 w x) 11 0 0 (uint v)) (omega arith) read
