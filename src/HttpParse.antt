-- ===== src/HttpParse.antt =====
-- http_parse.c: the tokens of HTTP header fields.
-- A `char *` is the list of the bytes up to its NUL, which is left out; reading at the end of the
-- list gives the NUL. The NUL that the code writes behind a token stands for the end of the token
-- in the result. A `char` is signed, so that a byte from 80 on is a negative number.
use epri_client.Prelude.{
  ℕ, zero, suc, ◌+◌, ◌-◌, ◌*◌, ◌^◌, Bool, true, false, not, ◌&&◌, ◌||◌, Option, none, some, List,
  [], ◌∷◌, ltb, ◌==◌, in_range, if◌then◌else◌,
}
use epri_client.Util.{Bytes, digit}
pub mod MediaRange
pub mod Tokens

unfoldable pub tchar : ℕ → Bool
tchar c =
    in_range c b'A' b'Z'
    || in_range c b'^' b'z'
    || in_range c b'0' b'9'
    || c == b'!'
    || in_range c b'#' 39
    || in_range c b'*' b'+'
    || in_range c b'-' b'.'
    || c == b'|'
    || c == b'~'

-- The loop of `token`: the token and what follows it.
unfoldable pub token_loop : Bytes → Bytes × Bytes
token_loop [] = ([], [])
token_loop (c ∷ rest) =
    let (more, after) = token_loop rest in if tchar c then (c ∷ more, after) else ([], c ∷ rest)

abbrev pub not_empty : Bytes × Bytes → Option (Bytes × Bytes)
not_empty ([], after) = none
not_empty (c ∷ t, after) = some (c ∷ t, after)

unfoldable pub token : Bytes → Option (Bytes × Bytes)
token text = not_empty (token_loop text)

abbrev pub hws : ℕ → Bool
hws c = c == b' ' || c == b'\t'

-- A value and the rest of the data, `NULL`, or a pointer behind the NUL.
pub data Value : Type 0 where
  value : Bytes → Bytes → Value
  refused : Value
  overrun : Value

-- What `quoted_string` makes of the text behind the opening quote. Its loop begins at this quote, for
-- which `data` stands, and takes the case '"' in its first round: the value is empty, and
-- `data + 1` is two behind the quote. The other cases of the loop are never reached.
abbrev pub quoted_string : Bytes → Value
quoted_string [] = overrun
quoted_string (c ∷ rest) = value [] rest

abbrev pub from_option : Option (Bytes × Bytes) → Value
from_option none = refused
from_option (some (t, rest)) = value t rest

unfoldable pub pvalue : Bytes → Value
pvalue [] = refused
pvalue (c ∷ rest) = if c == 34 then quoted_string rest else from_option (token (c ∷ rest))

-- The two loops behind the point: at most `n` digits, then a 0 for each that is missing.
unfoldable pub fraction : ℕ → ℕ → Bytes → ℕ × Bytes
fraction n f [] = (f * 10 ^ n, [])
fraction zero f (c ∷ rest) = (f, c ∷ rest)
fraction (suc n) f (c ∷ rest) =
    let more = fraction n (f * 10 + (c - b'0')) rest in
    if digit c then more else (f * 10 ^ suc n, c ∷ rest)

unfoldable pub qvalue_rest : ℕ → Bytes → Option (ℕ × Bytes)
qvalue_rest q [] = some (q, [])
qvalue_rest q (c ∷ rest) =
    let (f, after) = fraction 3 0 rest in
    if c == b'.'
    then (if q == 1000 && not (f == 0) then none else some (q + f, after))
    else some (q, c ∷ rest)

-- A quality in thousandths.
unfoldable pub qvalue : Bytes → Option (ℕ × Bytes)
qvalue [] = none
qvalue (c ∷ rest) =
    if c == b'0' then qvalue_rest 0 rest else if c == b'1' then qvalue_rest 1000 rest else none

unfoldable pub ows : Bytes → Bytes
ows [] = []
ows (c ∷ rest) = let more = ows rest in if hws c then more else c ∷ rest

abbrev pub cons_token : ℕ → Option (Bytes × Bytes) → Option (Bytes × Bytes)
cons_token c none = none
cons_token c (some (t, rest)) = some (c ∷ t, rest)

-- The text in front of the first space or tab, and what stands behind the white space.
unfoldable pub token_sp : Bytes → Option (Bytes × Bytes)
token_sp [] = none
token_sp (c ∷ rest) =
    let more = cons_token c (token_sp rest) in if hws c then some ([], ows rest) else more

unfoldable pub token_colon : Bytes → Option (Bytes × Bytes)
token_colon [] = none
token_colon (c ∷ rest) =
    let more = cons_token c (token_colon rest) in if c == b':' then some ([], ows rest) else more
