-- ===== src/Xml/RoundTrip.antt =====
-- A text that `output_escaped` writes is read back by the tokenizer.
use epri_client.Prelude.{
  Option, ==_iff, ℕ, ◌-◌, ◌<◌, ◌≡◌, refl, sym, ◌∙◌, ap, true, false, none, some, List, [], ◌∷◌,
  ◌++◌, ◌==◌, All, length, take, length-append, append-nil, append_assoc, arith, inl, inr,
  Bool-cases, lt→ltb, leb,
}
use epri_client.Util.{Bytes, ws, string_index, streq}
use epri_client.Utf8.{Decoded, char, utf8_char, utf8_encode}
use epri_client.Utf8.Encode.{kept, utf8_char-one_byte, utf8_char-utf8_encode}
use epri_client.Xml.{
  xml_char, reference, cut_at, xml_reference, decoded_char, named_reference, entity_reference,
}
use epri_client.Xml.Token.{
  XmlParser, go, stop, text_step, first_step, token_step, tag_step, token_loop, xml_token, xml_text,
  xml_none, with_content, text_reference, char_text, encoded_text,
}
use epri_client.Xml.Output.{
  XmlWriter, with_bytes, room, escape, escaped, put_before, escape_loop, escaped_answer,
  output_escaped,
}

-- A character that `utf8_char` and the tokenizer take, and that is not the NUL.
pub record IsPlain (c : ℕ) : Type 0 where
  pub survives : kept c ≡ true
  pub taken : xml_char c ≡ true
  pub present : (c == 0) ≡ false

abbrev pub or_empty : Option Bytes → Bytes
or_empty none = []
or_empty (some bytes) = bytes

unfoldable pub bytes_of : ℕ → Bytes
bytes_of c = or_empty (utf8_encode c)

abbrev pub text_of : List ℕ → Bytes
text_of [] = []
text_of (c ∷ cs) = bytes_of c ++ text_of cs

abbrev pub escaped_text : List ℕ → Bytes
escaped_text [] = []
escaped_text (c ∷ cs) = escape c (bytes_of c) ++ escaped_text cs

-- At least one byte.
HasBytes : Option Bytes → Type 0
HasBytes none = ⊥
HasBytes (some []) = ⊥
HasBytes (some (b ∷ bs)) = Unit

encode-HasBytes : (c : ℕ) → kept c ≡ true → HasBytes (utf8_encode c)
unfolding utf8_encode HasBytes
encode-HasBytes c h = elim (Bool-cases (leb c 0x7f)) [
  | inl one ↦ rw one tt
  | inr more ↦ elim (Bool-cases (leb c 0x7ff)) [
    | inl two ↦ rw (more, two) tt
    | inr more₂ ↦ let below : leb c 0xffff ≡ true = ground arith in rw (more, more₂, below) tt
  ]
]

first_of : (o : Option Bytes) → HasBytes o → (b : ℕ) × (bs : Bytes) × (o ≡ some (b ∷ bs))
unfolding HasBytes
first_of none h = elim h [ ]
first_of (some []) h = elim h [ ]
first_of (some (b ∷ bs)) h = (b, bs, refl)

decode_plain :
    (c : ℕ) (bytes rest : Bytes)
    → IsPlain c
    → utf8_encode c ≡ some bytes
    → utf8_char (bytes ++ rest) ≡ char c rest
decode_plain c bytes rest h e = utf8_char-utf8_encode c bytes rest e ∙ rw h.survives refl

code_of : Decoded → ℕ
code_of (char c rest) = c
code_of _ = 0

-- A first byte below 80 is the character.
first_byte :
    (c b : ℕ) (bs rest : Bytes) → utf8_char (b ∷ bs ++ rest) ≡ char c rest → b < 128 → b ≡ c
unfolding code_of
first_byte c b bs rest e h = ap code_of (sym (utf8_char-one_byte b (bs ++ rest) h) ∙ e)

escape_skip : (a b : Bytes) (left : ℕ) → escape_loop (length a) left (a ++ b) ≡ escape_loop 0 left b
unfolding escape_loop
escape_skip [] b left = refl
escape_skip (x ∷ a) b left = escape_skip a b left

token_skip :
    (a b : Bytes) (p : XmlParser) (state : ℕ)
    → token_loop (length a) p state (a ++ b) ≡ token_loop 0 p state b
unfolding token_loop
token_skip [] b p state = refl
token_skip (x ∷ a) b p state = token_skip a b p state

passed : (a b : Bytes) → length (a ++ b) - length b ≡ length a
passed a b = omega (arith, length-append a b)

take-length : (a b : Bytes) → take (length a) (a ++ b) ≡ a
take-length [] b = refl
take-length (x ∷ a) b = ap (λ (l : Bytes). x ∷ l) (take-length a b)

bytes_of_lem : (c : ℕ) (bytes : Bytes) → utf8_encode c ≡ some bytes → bytes_of c ≡ bytes
unfolding bytes_of
bytes_of_lem c bytes e = ap or_empty e

abbrev Reads : XmlParser → ℕ → ℕ → Bytes → Bytes → Type 0
Reads p c x xs rest =
    (text_step p x (xs ++ rest) ≡ go (with_content p (p.content ++ bytes_of c)) 1 rest)
    × ((x == b'<') ≡ false)
    × (ws c ≡ false → ws x ≡ false)

-- A round of the tokenizer on a character that `output_escaped` leaves as it is.
step_own :
    (p : XmlParser) (c b : ℕ) (bs rest : Bytes)
    → IsPlain c
    → utf8_encode c ≡ some (b ∷ bs)
    → (c == b'<') ≡ false
    → (c == b'&') ≡ false
    → Reads p c b bs rest
unfolding text_step char_text encoded_text decoded_char
step_own p c b bs rest h e lt amp =
    let decoded = decode_plain c (b ∷ bs) rest h e in
    let same : b < 128 → b ≡ c = first_byte c b bs rest decoded in
    let lt' : (b == b'<') ≡ false = ground (arith, same) in
    let amp' : (b == b'&') ≡ false = ground (arith, same) in
    (rw (amp', lt', decoded, h.taken, e, bytes_of_lem c _ e) refl, lt', λ w. ground (arith, same))

abbrev Written : XmlParser → ℕ → Bytes → Type 0
Written p c rest = (x : ℕ) × (xs : Bytes) × (escape c (bytes_of c) ≡ x ∷ xs) × Reads p c x xs rest

-- A character that `output_escaped` writes as a reference.
step_named :
    (p : XmlParser) (k : ℕ) (xs before after rest : Bytes)
    → escape k (k ∷ []) ≡ b'&' ∷ xs
    → bytes_of k ≡ k ∷ []
    → cut_at b';' (xs ++ rest) ≡ some (before, after)
    → xml_reference (xs ++ rest) ≡ reference (k ∷ []) rest
    → Written p k rest
unfolding text_step text_reference
step_named p k xs before after rest w own cut ref =
    (b'&', xs, rw own w, (rw (cut, ref, own) refl, refl, λ ne. refl))

step_named_lt : (p : XmlParser) (rest : Bytes) → Written p b'<' rest
unfolding escape bytes_of utf8_encode cut_at xml_reference named_reference entity_reference
    string_index streq
step_named_lt p rest =
    step_named p b'<' (b'l' ∷ b't' ∷ b';' ∷ []) (b'l' ∷ b't' ∷ []) rest rest refl refl refl refl

step_named_gt : (p : XmlParser) (rest : Bytes) → Written p b'>' rest
unfolding escape bytes_of utf8_encode cut_at xml_reference named_reference entity_reference
    string_index streq
step_named_gt p rest =
    step_named p b'>' (b'g' ∷ b't' ∷ b';' ∷ []) (b'g' ∷ b't' ∷ []) rest rest refl refl refl refl

step_named_amp : (p : XmlParser) (rest : Bytes) → Written p b'&' rest
unfolding escape bytes_of utf8_encode cut_at xml_reference named_reference entity_reference
    string_index streq
step_named_amp p rest =
    step_named p b'&' (b'a' ∷ b'm' ∷ b'p' ∷ b';' ∷ []) (b'a' ∷ b'm' ∷ b'p' ∷ []) rest rest refl refl
      refl refl

step_named_quot : (p : XmlParser) (rest : Bytes) → Written p 34 rest
unfolding escape bytes_of utf8_encode cut_at xml_reference named_reference entity_reference
    string_index streq
step_named_quot p rest =
    step_named p 34 (b'q' ∷ b'u' ∷ b'o' ∷ b't' ∷ b';' ∷ []) (b'q' ∷ b'u' ∷ b'o' ∷ b't' ∷ []) rest
      rest refl refl refl refl

escape-own :
    (c : ℕ) (own : Bytes)
    → (c == b'<') ≡ false
    → (c == b'>') ≡ false
    → (c == b'&') ≡ false
    → (c == 34) ≡ false
    → escape c own ≡ own
unfolding escape
escape-own c own lt gt amp quot = rw (lt, gt, amp, quot) refl

-- What `output_escaped` writes for a character, read by a round of the tokenizer.
step_escaped : (p : XmlParser) (c : ℕ) (rest : Bytes) → IsPlain c → Written p c rest
step_escaped p c rest h = elim (Bool-cases (c == b'<')) [
  | inl e ↦ at_code b'<' e (step_named_lt p rest)
  | inr lt ↦ elim (Bool-cases (c == b'>')) [
    | inl e ↦ at_code b'>' e (step_named_gt p rest)
    | inr gt ↦ elim (Bool-cases (c == b'&')) [
      | inl e ↦ at_code b'&' e (step_named_amp p rest)
      | inr amp ↦ elim (Bool-cases (c == 34)) [
        | inl e ↦ at_code 34 e (step_named_quot p rest)
        | inr quot ↦ own lt gt amp quot
      ]
    ]
  ]
]
  where
    at_code : (k : ℕ) → (c == k) ≡ true → Written p k rest → Written p c rest
    at_code k e w = let same : c ≡ k = (==_iff c k).0 e in rw same w

    own :
        (c == b'<') ≡ false
        → (c == b'>') ≡ false
        → (c == b'&') ≡ false
        → (c == 34) ≡ false
        → Written p c rest
    own lt gt amp quot =
        let (b, bs, e) = first_of (utf8_encode c) (encode-HasBytes c h.survives) in
        (
          b,
          bs,
          escape-own c _ lt gt amp quot ∙ bytes_of_lem c _ e,
          step_own p c b bs rest h e lt amp,
        )

-- A round that goes on.
token_loop-go :
    (p q : XmlParser) (state state' x : ℕ) (rest next : Bytes)
    → token_step p state x rest ≡ go q state' next
    → token_loop 0 p state (x ∷ rest) ≡ token_loop (length rest - length next) q state' rest
unfolding token_loop
token_loop-go p q state state' x rest next e = rw (token_loop, e) refl

token_loop-passed :
    (p q : XmlParser) (state state' x : ℕ) (xs rest : Bytes)
    → token_step p state x (xs ++ rest) ≡ go q state' rest
    → token_loop 0 p state (x ∷ xs ++ rest) ≡ token_loop 0 q state' rest
token_loop-passed p q state state' x xs rest e =
    token_loop-go p q state state' x (xs ++ rest) rest e
    ∙ ap (λ (n : ℕ). token_loop n q state' (xs ++ rest)) (passed xs rest)
    ∙ token_skip xs rest q state'

text_round : (p : XmlParser) (x : ℕ) (rest : Bytes) → token_step p 1 x rest ≡ text_step p x rest
unfolding token_step
text_round p x rest = refl

-- The loop on what was written for a character.
token_loop-escape :
    (p : XmlParser) (c : ℕ) (rest : Bytes)
    → IsPlain c
    → token_loop 0 p 1 (escape c (bytes_of c) ++ rest)
      ≡ token_loop 0 (with_content p (p.content ++ bytes_of c)) 1 rest
token_loop-escape p c rest h =
    let (x, xs, e, (reads, lt, white)) = step_escaped p c rest h in
    ap (λ (l : Bytes). token_loop 0 p 1 (l ++ rest)) e
    ∙ token_loop-passed p _ 1 1 x xs rest (text_round p x (xs ++ rest) ∙ reads)

tag_round :
    (p : XmlParser) (c : ℕ) (rest : Bytes)
    → p.token ≡ xml_text
    → (c == b'!') ≡ false
    → token_step p 2 c rest
      ≡ stop xml_text (record p { state = 2; unread = c ∷ rest; token = xml_none })
unfolding token_step tag_step
tag_round p c rest t e = rw (e, t) refl

-- The end of a text.
token_loop-lt :
    (p : XmlParser) (c : ℕ) (rest : Bytes)
    → p.token ≡ xml_text
    → (c == b'!') ≡ false
    → token_loop 0 p 1 (b'<' ∷ c ∷ rest)
      ≡ some (xml_text, record p { state = 2; unread = c ∷ rest; token = xml_none })
unfolding token_loop token_step text_step tag_step
token_loop-lt p c rest t e =
    token_loop-passed p p 1 2 b'<' [] (c ∷ rest) refl ∙ rw (token_loop, tag_round p c rest t e) refl

token_loop-escaped_text :
    (p : XmlParser) (cs : List ℕ) (c : ℕ) (rest : Bytes)
    → All IsPlain cs
    → p.token ≡ xml_text
    → (c == b'!') ≡ false
    → token_loop 0 p 1 (escaped_text cs ++ b'<' ∷ c ∷ rest)
      ≡ some (
        xml_text,
        record p {
          state = 2;
          unread = c ∷ rest;
          token = xml_none;
          content = p.content ++ text_of cs;
        },
      )
token_loop-escaped_text p [] c rest h t e =
    token_loop-lt p c rest t e
    ∙ ap
        (λ s.
          some (xml_text, record p { state = 2; unread = c ∷ rest; token = xml_none; content = s }))
        (sym (append-nil p.content))
token_loop-escaped_text p (x ∷ cs) c rest (hx, h) t e =
    rw (append_assoc (escape x (bytes_of x)) (escaped_text cs) (b'<' ∷ c ∷ rest)) (
      token_loop-escape p x (escaped_text cs ++ b'<' ∷ c ∷ rest) hx
      ∙ token_loop-escaped_text (with_content p (p.content ++ bytes_of x)) cs c rest h t e
      ∙ ap
          (λ s.
            some
              (xml_text, record p { state = 2; unread = c ∷ rest; token = xml_none; content = s }))
          (append_assoc p.content (bytes_of x) (text_of cs)))

first_round :
    (p : XmlParser) (x : ℕ) (rest : Bytes)
    → (x == b'<') ≡ false
    → ws x ≡ false
    → token_step p 0 x rest ≡ text_step (record p { content = []; token = xml_text }) x rest
unfolding token_step first_step
first_round p x rest lt white = rw (lt, white) refl

-- The loop on a text that does not begin with white space, from the state between two tokens.
token_loop-first :
    (p : XmlParser) (c : ℕ) (rest : Bytes)
    → IsPlain c
    → ws c ≡ false
    → token_loop 0 p 0 (escape c (bytes_of c) ++ rest)
      ≡ token_loop 0 (record p { content = bytes_of c; token = xml_text }) 1 rest
token_loop-first p c rest h w =
    let q : XmlParser = record p { content = []; token = xml_text } in
    let (x, xs, e, (reads, lt, white)) = step_escaped q c rest h in
    ap (λ (l : Bytes). token_loop 0 p 0 (l ++ rest)) e
    ∙ token_loop-passed p _ 0 1 x xs rest (first_round p x (xs ++ rest) lt (white w) ∙ reads)

-- A round of the loop of `output_escaped`.
escape_round :
    (c b left : ℕ) (bs rest : Bytes)
    → utf8_char (b ∷ bs ++ rest) ≡ char c rest
    → length (escape c (b ∷ bs)) < left
    → escape_loop 0 left (b ∷ bs ++ rest)
      ≡ put_before (escape c (b ∷ bs)) (escape_loop 0 (left - length (escape c (b ∷ bs))) rest)
unfolding escape_loop
escape_round c b left bs rest decoded fits =
    rw (escape_loop, decoded, passed bs rest, take-length bs rest, lt→ltb _ _ fits)
      (ap (put_before (escape c (b ∷ bs)))
        (escape_skip bs rest (left - length (escape c (b ∷ bs)))))

-- The bytes that the loop writes.
escape_loop-text_of :
    (left : ℕ) (cs : List ℕ)
    → All IsPlain cs
    → length (escaped_text cs) < left
    → escape_loop 0 left (text_of cs) ≡ escaped (escaped_text cs)
unfolding escape_loop
escape_loop-text_of left [] h fits = refl
escape_loop-text_of left (c ∷ cs) (hc, h) fits =
    let (b, bs, e) = first_of (utf8_encode c) (encode-HasBytes c hc.survives) in
    let own = bytes_of_lem c (b ∷ bs) e in
    let long = length-append (escape c (b ∷ bs)) (escaped_text cs) in
    let fits' : length (escape c (b ∷ bs) ++ escaped_text cs) < left = rw own at fits in
    let left' = left - length (escape c (b ∷ bs)) in
    rw own (
      escape_round c b left bs (text_of cs) (decode_plain c (b ∷ bs) (text_of cs) hc e)
        (omega (arith, long))
      ∙ ap (put_before (escape c (b ∷ bs))) (escape_loop-text_of left' cs h (omega (arith, long))))

-- A text of characters that survive UTF-8 and that XML has, the first of them no white space, is
-- written whole where its escaped form fits, and the tokenizer that is given what was written, with a
-- tag behind it, answers with that text and stops at the tag.
pub xml_token-output_escaped :
    (w : XmlWriter) (p : XmlParser) (c d : ℕ) (cs : List ℕ) (rest : Bytes)
    → All IsPlain (c ∷ cs)
    → ws c ≡ false
    → (d == b'!') ≡ false
    → length (escaped_text (c ∷ cs)) < room w
    → (s : Bytes) × (output_escaped w (text_of (c ∷ cs)) ≡ (true, with_bytes w (w.bytes ++ s)))
      × (xml_token (record p { state = 0; unread = s ++ b'<' ∷ d ∷ rest })
          ≡ some (
            xml_text,
            record p { state = 2; unread = d ∷ rest; token = xml_none; content = text_of (c ∷ cs) },
          ))
unfolding output_escaped escaped_answer xml_token
xml_token-output_escaped w p c d cs rest (hc, h) white tag fits = (
  escaped_text (c ∷ cs),
  rw (escape_loop-text_of (room w) (c ∷ cs) (hc, h) fits) refl,
  rw (append_assoc (escape c (bytes_of c)) (escaped_text cs) (b'<' ∷ d ∷ rest)) (
      token_loop-first _ c (escaped_text cs ++ b'<' ∷ d ∷ rest) hc white
      ∙ token_loop-escaped_text _ cs d rest h refl tag),
)
