-- ===== src/Http/Lines.antt =====
-- Where `next_line` finds the end of a line does not depend on how the text comes in.
use epri_client.Prelude.{
  ℕ, suc, ◌+◌, ◌-◌, ◌≤◌, ◌≡◌, refl, sym, ◌∙◌, ap, arith, ◌&&◌, Bool, false, Option, none, some,
  List, [], ◌∷◌, ◌++◌, length, append-nil, length-append, Bool-cases, inl, inr, ltb, ◌==◌,
  Option-cases,
}
use epri_client.Util.{Bytes}
use epri_client.Http.Receive.{line_length, after, line_loop}

abbrev pub ends_in_cr : Bytes → Bool
ends_in_cr [] = false
ends_in_cr (c ∷ []) = c == b'\r'
ends_in_cr (_ ∷ c ∷ rest) = ends_in_cr (c ∷ rest)

abbrev pub concat : List Bytes → Bytes
concat [] = []
concat (c ∷ more) = c ++ concat more

-- No chunk is empty, and none begins behind a CR.
abbrev pub IsUnsplit : Bytes → List Bytes → Type 0
IsUnsplit fresh [] = Unit
IsUnsplit fresh (c ∷ more) =
    (ends_in_cr fresh ≡ false) × ((length c == 0) ≡ false) × IsUnsplit c more

line_length-found : (a b : Bytes) (k : ℕ) → line_length a ≡ some k → line_length (a ++ b) ≡ some k
unfolding line_length
line_length-found [] b k e = cc
line_length-found (c ∷ []) b k e = cc
line_length-found (c ∷ d ∷ a) b k e = elim (Bool-cases (c == b'\r' && d == b'\n')) [
  | inl h ↦ rw h (rw h at e)
  | inr h ↦ elim (Option-cases (line_length (d ∷ a))) [
    | inl n ↦ absurd (cc (rw (h, n) at e))
    | inr (j, s) ↦ rw (h, line_length-found (d ∷ a) b j s) (rw (h, s) at e)
  ]
]

next_place :
    (n : ℕ) (o : Option ℕ)
    → (elim (after n o) [ none ↦ none | some k ↦ some (k + 1) ]) ≡ after (suc n) o
next_place n none = refl
next_place n (some k) = ap some (omega arith)

none_behind : (o : Option ℕ) → (elim o [ none ↦ none | some n ↦ some (n + 1) ]) ≡ none → o ≡ none
none_behind none e = refl
none_behind (some n) e = cc

line_length-behind :
    (a b : Bytes)
    → line_length a ≡ none
    → ends_in_cr a ≡ false
    → line_length (a ++ b) ≡ after (length a) (line_length b)
unfolding line_length
line_length-behind [] b e h = after_zero (line_length b)
  where
    after_zero : (o : Option ℕ) → o ≡ after 0 o
    after_zero none = refl
    after_zero (some n) = ap some (omega arith)
line_length-behind (c ∷ []) b e h = one b
  where
    later_one : (o : Option ℕ) → (elim o [ none ↦ none | some n ↦ some (n + 1) ]) ≡ after 1 o
    later_one none = refl
    later_one (some n) = ap some (omega arith)

    one : (b : Bytes) → line_length (c ∷ b) ≡ after 1 (line_length b)
    one [] = refl
    one (d ∷ b) = rw h (later_one (line_length (d ∷ b)))
line_length-behind (c ∷ d ∷ a) b e h = elim (Bool-cases (c == b'\r' && d == b'\n')) [
  | inl t ↦ absurd (cc (rw t at e))
  | inr t ↦
      let rest_none : line_length (d ∷ a) ≡ none = none_behind _ (rw t at e) in
      rw (t, line_length-behind (d ∷ a) b rest_none h) (next_place (suc (length a)) (line_length b))
]

after_after : (m n : ℕ) (o : Option ℕ) → after m (after n o) ≡ after (n + m) o
after_after m n none = refl
after_after m n (some k) = ap some (omega arith)

-- The end of a line that `next_line` finds is that of the whole text, whatever chunks the text comes
-- in, if no chunk is empty, none begins behind a CR, and the buffer holds the text.
pub line_loop-concat :
    (chunks : List Bytes) (seen room : ℕ) (fresh : Bytes)
    → IsUnsplit fresh chunks
    → length (concat chunks) ≤ room
    → (line_loop seen fresh room chunks).found ≡ after seen (line_length (fresh ++ concat chunks))
unfolding line_loop
line_loop-concat [] seen room fresh h fits =
    ap (λ (l : Bytes). after seen (line_length l)) (sym (append-nil fresh))
line_loop-concat (c ∷ more) seen room fresh (cr, some_left, h) fits =
    let long = length-append c (concat more) in
    let roomy : ltb room (length c) ≡ false = ground arith in
    elim (Option-cases (line_length fresh)) [
      | inl e ↦
          rw (line_loop, e, some_left, roomy, line_length-behind fresh (c ++ concat more) e cr)
            (line_loop-concat more (length fresh + seen) (room - length c) c h (omega arith)
              ∙ sym (after_after seen (length fresh) (line_length (c ++ concat more))))
      | inr (k, e) ↦ rw (line_loop, e, line_length-found fresh (c ++ concat more) k e) refl
    ]
