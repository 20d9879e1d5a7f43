-- ===== src/Query/Parse.antt =====
-- Which query strings are accepted, and what a trailing `&` does.
use epri_client.Prelude.{
  ℕ, ◌+◌, ◌-◌, ◌*◌, ◌^◌, ◌<◌, ◌≡◌, refl, ◌∙◌, arith, true, some, List, [], ◌∷◌, ◌++◌, All, length,
  ltb, lt→ltb, ap, ◌≢◌,
}
use mathlib.Core.Path.{fun_ext}
use epri_client.Util.{Bytes, digit}
use epri_client.Util.Numbers.{decimal, IsDigit, positions, below}
use epri_client.Query.{
  Query, Result, accepted, overrun, start_or_end, name, more_digits, assign, assigned, query_loop,
  parse_query,
}

-- A parameter: the byte of its name, its first digit and the other digits.
pub record Parameter : Type 0 where
  pub name : ℕ
  pub first : ℕ
  pub rest : Bytes

abbrev pub value_of : Parameter → ℕ
value_of r = decimal (r.first ∷ r.rest)

-- The digits are digits and write a number below 2 ^ 63.
abbrev pub IsParameter : Parameter → Type 0
IsParameter r = All IsDigit (r.first ∷ r.rest) × (value_of r < 2 ^ 63)

abbrev pub render : Parameter → Bytes → Bytes
render r rest = r.name ∷ b'=' ∷ r.first ∷ (r.rest ++ rest)

-- The other parameters, each behind an `&`, and what follows them.
abbrev pub render_more : List Parameter → Bytes → Bytes
render_more [] rest = rest
render_more (r ∷ more) rest = b'&' ∷ render r (render_more more rest)

-- The assignments in their order; a name other than a, l and s refuses the query.
abbrev pub assign_all : Query → Parameter → List Parameter → Result
assign_all q r [] = assigned (assign q r.name (value_of r)) accepted
assign_all q r (r' ∷ more) = assigned (assign q r.name (value_of r)) (λ q'. assign_all q' r' more)

digit_step :
    (d : ℕ) (rest : Bytes) (q : Query) (p x : ℕ)
    → digit d ≡ true
    → ltb (x * 10 + (d - b'0')) (2 ^ 63) ≡ true
    → query_loop more_digits q p x (d ∷ rest)
      ≡ query_loop more_digits q p (x * 10 + (d - b'0')) rest
unfolding query_loop
digit_step d rest q p x hd small = ground arith

-- The loop over the digits stops in front of the first byte that is none.
digits-decimal :
    (ds rest : Bytes) (q : Query) (p x : ℕ)
    → All IsDigit ds
    → x * 10 ^ length ds + decimal ds < 2 ^ 63
    → query_loop more_digits q p x (ds ++ rest)
      ≡ query_loop more_digits q p (x * 10 ^ length ds + decimal ds) rest
digits-decimal [] rest q p x h fits = ap (λ v. query_loop more_digits q p v rest) (omega arith)
digits-decimal (d ∷ ds) rest q p x (hd, h) fits =
    let small = lt→ltb _ _ (below x (d - b'0') (length ds) (decimal ds) (2 ^ 63) fits) in
    let e = positions x (d - b'0') (length ds) in
    digit_step d (ds ++ rest) q p x hd small
    ∙ digits-decimal ds rest q p (x * 10 + (d - b'0')) h (omega arith)
    ∙ ap (λ v. query_loop more_digits q p v rest) (omega arith)

-- One parameter, from the state in which its name is read.
parameter_read :
    (r : Parameter) (rest : Bytes) (q : Query) (p x : ℕ)
    → IsParameter r
    → query_loop name q p x (render r rest) ≡ query_loop more_digits q r.name (value_of r) rest
unfolding query_loop
parameter_read r rest q p x ((first, more), fits) =
    rw first (digits-decimal r.rest rest q r.name (r.first - b'0') more fits)

ampersand :
    (x : ℕ) (rest : Bytes) (q : Query) (p : ℕ)
    → query_loop more_digits q p x (b'&' ∷ rest)
      ≡ assigned (assign q p x) (λ q'. query_loop name q' p x rest)
unfolding query_loop
ampersand x rest q p = refl

start_read :
    (r : Parameter) (rest : Bytes) (q : Query)
    → r.name ≢ 0
    → query_loop start_or_end q 0 0 (render r rest) ≡ query_loop name q 0 0 (render r rest)
unfolding query_loop
start_read r rest q ne = ground arith

-- The parameters behind the first one, down to the NUL.
more_read :
    (r : Parameter) (more : List Parameter) (q : Query) (x : ℕ)
    → All IsParameter more
    → query_loop more_digits q r.name (value_of r) (render_more more (0 ∷ [])) ≡ assign_all q r more
more_read r [] q x h = unfold query_loop in refl
more_read r (r' ∷ more) q x (h', h) =
    ampersand (value_of r) (render r' (render_more more (0 ∷ []))) q r.name
    ∙ ap (assigned (assign q r.name (value_of r))) (
        fun_ext λ q'.
          parameter_read r' (render_more more (0 ∷ [])) q' r.name (value_of r) h'
          ∙ more_read r' more q' (value_of r') h)

-- A query of one or more parameters is accepted with the values assigned in their order, each cut
-- to the width of its field, or refused at the first name that is not a, l or s.
pub parse_query-assign_all :
    (old : Query) (r : Parameter) (more : List Parameter)
    → r.name ≢ 0
    → IsParameter r
    → All IsParameter more
    → parse_query old (some (render r (render_more more (0 ∷ []))))
      ≡ assign_all (record { after = 0; start = 0; limit = 1 }) r more
unfolding parse_query
parse_query-assign_all old r more ne h hs =
    start_read r (render_more more (0 ∷ [])) _ ne
    ∙ parameter_read r (render_more more (0 ∷ [])) _ 0 0 h
    ∙ more_read r more _ (value_of r) hs

-- A query that ends in `&` behind a good parameter makes the parser read behind the NUL.
parse_query_trailing :
    (old q : Query) (r : Parameter)
    → r.name ≢ 0
    → IsParameter r
    → assign (record { after = 0; start = 0; limit = 1 }) r.name (value_of r) ≡ some q
    → parse_query old (some (render r (b'&' ∷ 0 ∷ []))) ≡ overrun
unfolding parse_query
parse_query_trailing old q r ne h e =
    start_read r (b'&' ∷ 0 ∷ []) _ ne
    ∙ parameter_read r (b'&' ∷ 0 ∷ []) _ 0 0 h
    ∙ ampersand (value_of r) (0 ∷ []) _ r.name
    ∙ rw e (unfold query_loop in refl)
