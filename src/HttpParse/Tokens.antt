-- ===== src/HttpParse/Tokens.antt =====
-- What the token functions take from a header field.
use epri_client.Prelude.{
  ℕ, zero, suc, ◌+◌, ◌-◌, ◌*◌, ◌^◌, ◌≤◌, ◌≡◌, refl, ap, ◌∙◌, arith, true, false, Option, none, some,
  [], ◌∷◌, ◌++◌, All, length, ◌==◌, if◌then◌else◌,
}
use mathlib.Core.Path.{ap₂}
use epri_client.Util.{Bytes}
use epri_client.Util.Numbers.{decimal, IsDigit, Stops, positions}
use epri_client.HttpParse.{hws, ows, token_sp, token_colon, fraction, qvalue, qvalue_rest, not}

-- A header line `name: value` is split at its first colon, and the white space in front of the value
-- is left out.
token_colon_first :
    (name rest : Bytes)
    → All (λ c. (c == b':') ≡ false) name
    → token_colon (name ++ b':' ∷ rest) ≡ some (name, ows rest)
unfolding token_colon
token_colon_first [] rest h = refl
token_colon_first (c ∷ name) rest (hc, h) = rw (hc, token_colon_first name rest h) refl

-- A request line is split at its first space or tab, and the white space that follows is left out.
token_sp_first :
    (word : Bytes) (space : ℕ) (rest : Bytes)
    → All (λ c. hws c ≡ false) word
    → hws space ≡ true
    → token_sp (word ++ space ∷ rest) ≡ some (word, ows rest)
unfolding token_sp
token_sp_first [] space rest h hs = rw hs refl
token_sp_first (c ∷ word) space rest (hc, h) hs = rw (hc, token_sp_first word space rest h hs) refl

f_scale : (f n : ℕ) → f * 10 ^ n ≡ (f * 1 + 0) * 10 ^ (n - 0)
f_scale f n = ap₂ (λ (v m : ℕ). v * 10 ^ m) (omega arith) (omega arith)

fraction-decimal :
    (ds rest : Bytes) (n f : ℕ)
    → All IsDigit ds
    → Stops rest
    → length ds ≤ n
    → fraction n f (ds ++ rest) ≡ ((f * 10 ^ length ds + decimal ds) * 10 ^ (n - length ds), rest)
unfolding fraction
fraction-decimal [] [] n f h stop fits = ap (λ (v : ℕ). (v, [])) (f_scale f n)
fraction-decimal [] (c ∷ rest) zero f h stop fits = ap (λ (v : ℕ). (v, c ∷ rest)) (omega arith)
fraction-decimal [] (c ∷ rest) (suc n) f h stop fits =
    rw stop (ap (λ (v : ℕ). (v, c ∷ rest)) (f_scale f (suc n)))
fraction-decimal (d ∷ ds) rest zero f h stop fits = absurd (omega arith)
fraction-decimal (d ∷ ds) rest (suc n) f (hd, h) stop fits = rw hd (
    fraction-decimal ds rest n (f * 10 + (d - b'0')) h stop (omega arith)
    ∙ ap (λ (v : ℕ). (v, rest))
        (ap₂ (λ (v m : ℕ). v * 10 ^ m) (omega (arith, positions f (d - b'0') (length ds)))
          (omega arith)))

one_thousand :
    (v : ℕ) (rest : Bytes)
    → if◌then◌else◌ {A = Option (ℕ × Bytes)} (not (v == 0)) none (some (1000 + v, rest))
      ≡ if◌then◌else◌ {A = Option (ℕ × Bytes)} (v == 0) (some (1000, rest)) none
one_thousand zero rest = refl
one_thousand (suc v) rest = ground arith

-- A quality with one to three or no decimals is read in thousandths and what follows it is left; a
-- quality that begins with 1 is refused unless its decimals are 0.
pub qvalue-decimal :
    (ds rest : Bytes)
    → All IsDigit ds
    → Stops rest
    → length ds ≤ 3
    → (qvalue (b'0' ∷ b'.' ∷ (ds ++ rest)) ≡ some (decimal ds * 10 ^ (3 - length ds), rest))
      × (qvalue (b'1' ∷ b'.' ∷ (ds ++ rest))
          ≡ (if decimal ds * 10 ^ (3 - length ds) == 0 then some (1000, rest) else none))
unfolding qvalue qvalue_rest
qvalue-decimal ds rest h stop fits =
    let e : fraction 3 0 (ds ++ rest) ≡ (decimal ds * 10 ^ (3 - length ds), rest) =
      fraction-decimal ds rest 3 0 h stop fits
      ∙ ap (λ (v : ℕ). (v * 10 ^ (3 - length ds), rest)) (omega arith) in
    (
      rw e (ap (λ (v : ℕ). some (v, rest)) (omega arith)),
      rw e (one_thousand (decimal ds * 10 ^ (3 - length ds)) rest),
    )
