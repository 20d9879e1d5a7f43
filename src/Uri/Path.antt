-- ===== src/Uri/Path.antt =====
-- What parse_uri makes of a path and a query in percent-encoding.
use epri_client.Prelude.{
  ℕ, suc, ◌+◌, ◌-◌, ◌*◌, ◌/◌, ◌%◌, ◌<◌, ◌≡◌, refl, sym, ◌∙◌, ap, ◌&&◌, ◌||◌, not, Bool, true, false,
  Option, none, some, [], ◌∷◌, ◌++◌, ◌==◌, if◌then◌else◌, All, length, arith, inl, inr, Bool-cases,
  append_assoc, append-nil, ==_iff,
}
use epri_client.Prelude.Bits.{each_below, each_below_sound}
use epri_client.Util.{Bytes, ws}
use epri_client.Exi.Strings.{c_string}
use epri_client.Xml.Output.{hex_char}
use epri_client.Uri.{Uri, hex4, plain, escaped, pchar, query_loop, with_query, path_loop, parse_uri}

abbrev pub encode_char : ℕ → Bytes
encode_char c = if plain c then c ∷ [] else b'%' ∷ hex_char (c / 16) ∷ hex_char (c % 16) ∷ []

abbrev pub encode_text : Bytes → Bytes
encode_text [] = []
encode_text (c ∷ text) = encode_char c ++ encode_text text

-- A byte that is not the NUL.
pub record IsTextByte (c : ℕ) : Type 0 where
  pub bound : c < 256
  pub present : (c == 0) ≡ false

abbrev gives : Option ℕ → ℕ → Bool
gives none x = false
gives (some y) x = y == x

gives_sound : (o : Option ℕ) (x : ℕ) → gives o x ≡ true → o ≡ some x
gives_sound none x h = cc
gives_sound (some y) x h = ap some ((==_iff y x).0 h)

hex_table : each_below 16 (λ x. gives (hex4 (hex_char x)) x) ≡ true
unfolding each_below hex4 hex_char
hex_table = refl

hex4-hex_char : (x : ℕ) → x < 16 → hex4 (hex_char x) ≡ some x
hex4-hex_char x h = gives_sound _ x (each_below_sound 16 _ x hex_table h)

plain_table : each_below 256 (λ c. not (plain c) || (not (c == b'?') && not (ws c))) ≡ true
unfolding each_below plain
plain_table = refl

plain_apart : (c : ℕ) → c < 256 → plain c ≡ true → ((c == b'?') ≡ false) × (ws c ≡ false)
plain_apart c h e = split (c == b'?') (ws c) (rw e at (each_below_sound 256 _ c plain_table h))
  where
    split : (a b : Bool) → (not a && not b) ≡ true → (a ≡ false) × (b ≡ false)
    split true b h = cc
    split false true h = cc
    split false false h = (refl, refl)

pub pchar-plain : (c : ℕ) (rest : Bytes) → plain c ≡ true → pchar (c ∷ rest) ≡ some (c, rest)
unfolding pchar
pchar-plain c rest e = rw e refl

pchar-hex :
    (c : ℕ) (rest : Bytes)
    → c < 256
    → pchar (b'%' ∷ hex_char (c / 16) ∷ hex_char (c % 16) ∷ rest) ≡ some (c, rest)
unfolding pchar plain escaped
pchar-hex c rest h =
    let whole : c / 16 * 16 + c % 16 ≡ c = omega arith in
    rw (hex4-hex_char (c / 16) (omega arith), hex4-hex_char (c % 16) (omega arith), whole) refl

pub none_behind : (n : ℕ) → n - n ≡ 0
none_behind n = omega arith

two_behind : (n : ℕ) → suc (suc n) - n ≡ 2
two_behind n = omega arith

path_loop-encode :
    (u : Uri) (c : ℕ) (path rest : Bytes)
    → c < 256
    → path_loop u 0 path (encode_char c ++ rest) ≡ path_loop u 0 (path ++ c ∷ []) rest
unfolding path_loop
path_loop-encode u c path rest h = elim (Bool-cases (plain c)) [
  | inl e ↦
      let (mark, white) = plain_apart c h e in
      elim (Bool-cases (c == b'/')) [
        | inl slash ↦ rw (e, path_loop, slash) refl
        | inr other ↦
            rw (e, path_loop, other, mark, white, pchar-plain c rest e, none_behind (length rest))
              refl
      ]
  | inr e ↦ rw (e, path_loop, pchar-hex c rest h, two_behind (length rest)) refl
]

query_loop-encode :
    (c : ℕ) (query rest : Bytes)
    → c < 256
    → query_loop 0 query (encode_char c ++ rest) ≡ query_loop 0 (query ++ c ∷ []) rest
unfolding query_loop
query_loop-encode c query rest h = elim (Bool-cases (plain c)) [
  | inl e ↦
      let (mark, white) = plain_apart c h e in
      elim (Bool-cases (c == b'/')) [
        | inl slash ↦ rw (e, query_loop, slash) refl
        | inr other ↦
            rw (e, query_loop, other, mark, white, pchar-plain c rest e, none_behind (length rest))
              refl
      ]
  | inr e ↦ rw (e, query_loop, pchar-hex c rest h, two_behind (length rest)) refl
]

path_loop-encode_text :
    (u : Uri) (p path rest : Bytes)
    → All IsTextByte p
    → path_loop u 0 path (encode_text p ++ rest) ≡ path_loop u 0 (path ++ p) rest
path_loop-encode_text u [] path rest h =
    ap (λ (l : Bytes). path_loop u 0 l rest) (sym (append-nil path))
path_loop-encode_text u (c ∷ p) path rest (hc, h) =
    ap (λ (l : Bytes). path_loop u 0 path l) (append_assoc (encode_char c) (encode_text p) rest)
    ∙ path_loop-encode u c path (encode_text p ++ rest) hc.bound
    ∙ path_loop-encode_text u p (path ++ c ∷ []) rest h
    ∙ ap (λ (l : Bytes). path_loop u 0 l rest) (append_assoc path (c ∷ []) p)

query_loop-encode_text :
    (q query : Bytes)
    → All IsTextByte q
    → query_loop 0 query (encode_text q) ≡ some (query ++ q, [])
unfolding query_loop
query_loop-encode_text [] query h = ap (λ (l : Bytes). some (l, [])) (sym (append-nil query))
query_loop-encode_text (c ∷ q) query (hc, h) =
    query_loop-encode c query (encode_text q) hc.bound
    ∙ query_loop-encode_text q (query ++ c ∷ []) h
    ∙ ap (λ (l : Bytes). some (l, [])) (append_assoc query (c ∷ []) q)

c_string-whole : (s : Bytes) → All IsTextByte s → c_string s ≡ s
unfolding c_string
c_string-whole [] h = refl
c_string-whole (c ∷ s) (hc, h) = rw (hc.present, c_string-whole s h) refl

path_end :
    (u : Uri) (p q : Bytes)
    → All IsTextByte p
    → All IsTextByte q
    → path_loop u 0 p (b'?' ∷ encode_text q) ≡ some (record u { path = some p; query = some q }, [])
unfolding path_loop with_query
path_end u p q hp hq =
    rw (path_loop, query_loop-encode_text q [] hq, c_string-whole p hp, c_string-whole q hq) refl

-- A path and a query of bytes other than the NUL, each byte written as it is where `pchar` takes it and
-- as a percent sign with two hexadecimal digits elsewhere, are read back by `parse_uri`, which starts at
-- the path, whatever was in the URI before. The scheme and the port stay.
pub parse_uri-encode_text :
    (parse_address : ℕ → Bytes → Option (ℕ × Bytes)) (u : Uri) (p q : Bytes)
    → All IsTextByte p
    → All IsTextByte q
    → parse_uri parse_address u true (encode_text p ++ b'?' ∷ encode_text q)
      ≡ some (record u { name = none; host = none; path = some p; query = some q }, [])
unfolding parse_uri
parse_uri-encode_text parse_address u p q hp hq =
    let clear : Uri = record u { name = none; path = none; query = none; host = none } in
    path_loop-encode_text clear p [] (b'?' ∷ encode_text q) hp ∙ path_end clear p q hp hq
