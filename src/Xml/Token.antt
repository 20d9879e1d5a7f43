-- ===== src/Xml/Token.antt =====
-- xml_token.c: the tokenizer, which stops where its buffer ends and goes on from there.
-- `content` is the text of the token so far; its end is the local `text` of `xml_token`. Where no text
-- was begun, `content` only marks what is kept of the buffer, and has no value here.
use epri_client.Prelude.{
  ℕ, zero, suc, ◌-◌, Bool, true, false, not, Option, none, some, List, [], ◌∷◌, ◌++◌, ◌==◌,
  if◌then◌else◌, length,
}
use epri_client.Util.{Bytes, ws, streq, trim}
use epri_client.Utf8.{utf8_encode}
use epri_client.Xml.{
  xml_name, between, next_char, xml_char, xml_reference, Reference, reference, bad_reference,
  no_text, token_end, cut_at, Attributes, attributes, bad_attributes, no_attribute_text,
  xml_attributes,
}

pub data TokenType : Type 0 where
  start_tag_token empty_tag end_tag_token xml_decl_token xml_pi_token xml_text xml_none : TokenType
  xml_incomplete xml_invalid : TokenType

abbrev pub is_text : TokenType → Bool
is_text xml_text = true
is_text _ = false

pub record XmlParser : Type 0 where
  pub name : Bytes
  pub content : Bytes
  pub unread : Bytes
  pub state : ℕ
  pub token : TokenType
  pub attr : List (Bytes × Bytes)

-- What a function of the tokenizer comes to: a result, a refusal, or what C leaves undefined.
pub data Scan (A : Type 0) : Type 0 where
  scanned : A → Scan A
  refused undefined : Scan A

abbrev pub with_content : XmlParser → Bytes → XmlParser
with_content p s = record p { content = s }

abbrev pub with_token : XmlParser → TokenType → XmlParser
with_token p t = record p { token = t }

-- `only (xml_attributes (...))`, where `only` reads at the pointer that it is given.
unfoldable pub declaration : XmlParser → Attributes → Scan XmlParser
declaration p (attributes attr rest) =
    if length (trim rest) == 0 then scanned (record p { attr = attr }) else refused
declaration p bad_attributes = undefined
declaration p no_attribute_text = undefined

-- Behind the name, which ends where white space follows it and else where the instruction ends.
unfoldable pub instruction : XmlParser → Bytes → Bytes → Scan XmlParser
instruction p input [] = scanned (record p { name = input; content = []; token = xml_pi_token })
instruction p input (c ∷ rest) =
    let name = between input (c ∷ rest) in
    let declared =
      declaration (record p { name = name; token = xml_decl_token }) (xml_attributes rest) in
    if not (ws c)
    then scanned (record p { name = input; content = []; token = xml_pi_token })
    else if streq name (b'x' ∷ b'm' ∷ b'l' ∷ [])
    then declared
    else scanned (record p { name = name; content = trim rest; token = xml_pi_token })

unfoldable pub xml_pi : XmlParser → Bytes → Scan XmlParser
xml_pi p input = elim (xml_name input) [ none ↦ refused | some rest ↦ instruction p input rest ]

-- `ok (*data == '>')`
unfoldable pub closed_tag : XmlParser → Bytes → Scan XmlParser
closed_tag p [] = refused
closed_tag p (c ∷ rest) = if c == b'>' then scanned (record p { unread = rest }) else refused

unfoldable pub start_end : XmlParser → Bytes → Scan XmlParser
start_end p [] = refused
start_end p (c ∷ rest) =
    if c == b'/' then closed_tag (with_token p empty_tag) rest else closed_tag p (c ∷ rest)

unfoldable pub tag_attributes : XmlParser → Attributes → Scan XmlParser
tag_attributes p (attributes attr rest) = start_end (record p { attr = attr }) rest
tag_attributes p bad_attributes = refused
tag_attributes p no_attribute_text = undefined

-- The attributes are those of the last tag where no white space follows the name.
unfoldable pub start_rest : XmlParser → Bytes → Scan XmlParser
start_rest p [] = refused
start_rest p (c ∷ rest) =
    let with_attributes = tag_attributes p (xml_attributes rest) in
    if ws c then with_attributes else start_end p (c ∷ rest)

unfoldable pub named_tag : XmlParser → Bool → Bytes → Scan XmlParser
named_tag p closing input = elim (xml_name input) [
  | none ↦ refused
  | some rest ↦
      let q = record p {
        name = between input rest;
        token = if closing then end_tag_token else start_tag_token;
      } in
      if closing then closed_tag q (trim rest) else start_rest q rest
]

unfoldable pub xml_tag : XmlParser → Bytes → Scan XmlParser
xml_tag p [] = refused
xml_tag p (c ∷ rest) = if c == b'/' then named_tag p true rest else named_tag p false (c ∷ rest)

-- A round of the loop of `xml_token`: another round, in a state and at a place, or the token.
pub data Step : Type 0 where
  go : XmlParser → ℕ → Bytes → Step
  stop : TokenType → XmlParser → Step
  undefined_step : Step

-- The label `incomplete`.
abbrev pub incomplete : XmlParser → ℕ → Bytes → Step
incomplete p state input = stop xml_incomplete (record p { state = state; unread = input })

abbrev pub invalid : XmlParser → Step
invalid p = stop xml_invalid p

unfoldable pub text_reference : XmlParser → Reference → Step
text_reference p (reference written next) = go (with_content p (p.content ++ written)) 1 next
text_reference p bad_reference = invalid p
text_reference p no_text = undefined_step

unfoldable pub encoded_text : XmlParser → Option Bytes → Bytes → Step
encoded_text p none next = undefined_step
encoded_text p (some written) next = go (with_content p (p.content ++ written)) 1 next

unfoldable pub char_text : XmlParser → Bytes → Option (ℕ × Bytes) → Step
char_text p input none = incomplete p 1 input
char_text p input (some (code, next)) =
    if xml_char code then encoded_text p (utf8_encode code) next else invalid p

-- State 1.
unfoldable pub text_step : XmlParser → ℕ → Bytes → Step
text_step p c rest =
    let semicolon : Step = elim (cut_at b';' rest) [
      | none ↦ incomplete p 1 (c ∷ rest)
      | some _ ↦ text_reference p (xml_reference rest)
    ] in
    if c == b'&'
    then semicolon
    else if c == b'<'
    then go p 2 rest
    else char_text p (c ∷ rest) (next_char (c ∷ rest))

unfoldable pub first_step : XmlParser → ℕ → Bytes → Step
first_step p c rest =
    if c == b'<'
    then go p 2 rest
    else if ws c
    then go p 0 (trim rest)
    else text_step (record p { content = []; token = xml_text }) c rest

unfoldable pub tag_answer : XmlParser → Scan XmlParser → Step
tag_answer p (scanned q) = stop q.token (record q { state = 0 })
tag_answer p refused = invalid p
tag_answer p undefined = undefined_step

-- State 2; a text ends in front of a tag.
unfoldable pub tag_step : XmlParser → ℕ → Bytes → Step
tag_step p c rest =
    let tag : Step = elim (cut_at b'>' rest) [
      | none ↦ incomplete p 2 (c ∷ rest)
      | some _ ↦ tag_answer p (xml_tag p (c ∷ rest))
    ] in
    if c == b'!'
    then go p 4 rest
    else if is_text p.token
    then stop xml_text (record p { state = 2; unread = c ∷ rest; token = xml_none })
    else if c == b'?'
    then go p 3 rest
    else tag

unfoldable pub pi_answer : XmlParser → Bytes → Scan XmlParser → Step
pi_answer p next (scanned q) = stop q.token (record q { unread = next })
pi_answer p next refused = invalid p
pi_answer p next undefined = undefined_step

-- State 3; the state in `p` stays the one that the tokenizer was called in.
unfoldable pub pi_step : XmlParser → Bytes → Step
pi_step p input = elim (token_end (b'?' ∷ b'>' ∷ []) input) [
  | none ↦ incomplete p 3 input
  | some (body, next) ↦ pi_answer p next (xml_pi p body)
]

-- A section is compared with `CDATA[` as a whole, so that only an empty one is taken, and it is put at
-- the end of a text that was begun.
unfoldable pub cdata_answer : XmlParser → Bytes → Option (Bytes × Bytes) → Step
cdata_answer p input none = incomplete p 4 input
cdata_answer p input (some (body, next)) =
    if not (streq body (b'C' ∷ b'D' ∷ b'A' ∷ b'T' ∷ b'A' ∷ b'[' ∷ []))
    then invalid p
    else if is_text p.token
    then go p 1 next
    else undefined_step

-- State 4.
unfoldable pub declaration_step : XmlParser → ℕ → Bytes → Step
declaration_step p c rest =
    let section = cdata_answer p (c ∷ rest) (token_end (b']' ∷ b']' ∷ b'>' ∷ []) rest) in
    if c == b'-' then go p 5 rest else if c == b'[' then section else invalid p

-- Whether the comment ends in `-`; the byte in front of an empty one is the `-` that began it.
abbrev pub ends_in_dash : Bytes → Bool
ends_in_dash [] = true
ends_in_dash (c ∷ []) = c == b'-'
ends_in_dash (_ ∷ c ∷ rest) = ends_in_dash (c ∷ rest)

-- State 6.
unfoldable pub comment_step : XmlParser → Bytes → Step
comment_step p input = elim (token_end (b'-' ∷ b'-' ∷ b'>' ∷ []) input) [
  | none ↦ incomplete p 6 input
  | some (body, next) ↦
      if ends_in_dash body then invalid p else go p (if is_text p.token then 1 else 0) next
]

unfoldable pub token_step : XmlParser → ℕ → ℕ → Bytes → Step
token_step p state c rest =
    if state == 0
    then first_step p c rest
    else if state == 1
    then text_step p c rest
    else if state == 2
    then tag_step p c rest
    else if state == 3
    then pi_step p (c ∷ rest)
    else if state == 4
    then declaration_step p c rest
    else if state == 5
    then (if c == b'-' then go p 6 rest else invalid p)
    else if state == 6
    then comment_step p (c ∷ rest)
    else go p state rest

-- The loop, with the bytes that the last round passed over; `none` is what C leaves undefined.
unfoldable pub token_loop : ℕ → XmlParser → ℕ → Bytes → Option (TokenType × XmlParser)
token_loop skip p state [] = some (xml_incomplete, record p { state = state; unread = [] })
token_loop (suc skip) p state (c ∷ rest) = token_loop skip p state rest
token_loop zero p state (c ∷ rest) = elim (token_step p state c rest) [
  | go q state' next ↦ token_loop (length rest - length next) q state' rest
  | stop t q ↦ some (t, q)
  | undefined_step ↦ none
]

unfoldable pub xml_token : XmlParser → Option (TokenType × XmlParser)
xml_token p = token_loop 0 p p.state p.unread

unfoldable pub xml_init : XmlParser → Bytes → XmlParser
xml_init p buffer = record p { content = []; unread = buffer; token = xml_none; state = 0 }
