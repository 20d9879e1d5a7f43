-- ===== src/Xml/Parse.antt =====
-- xml_parse.c: the driver `xml_parser` for parse.c.
-- `XmlReader` has the fields of the parser that only xml_parse.c uses, with the tokenizer; a null `ptr`
-- is the empty text. What C leaves undefined is a refusal for the driver.
use epri_client.Prelude.{
  ℕ, ◌+◌, ◌/◌, ◌^◌, Bool, true, false, not, ◌&&◌, Option, none, some, List, [], ◌∷◌, ltb, ◌==◌,
  if◌then◌else◌, bit_and, bit_xor, length, get_or, drop,
}
use epri_client.Util.{Bytes, streq, string_index}
use epri_client.Schema.{SchemaEntry, Schema, entry, se_name, is_simple, st_simple}
use epri_client.Parser.{
  Pointer, Parser, ParserState, StackItem, XsiType, ParserDriver, parse_element, parse_end,
  parse_sequence, sequence_end, parse_invalid, past_invalid, no_answer, declared_type, xsi_type,
}
use epri_client.Xml.{attr_value}
use epri_client.Xml.Simple.{
  ValueText, text_of_kind, value_read, no_value, invalid_value, undefined_value,
}
use epri_client.Xml.Token.{
  TokenType, XmlParser, start_tag_token, empty_tag, end_tag_token, xml_decl_token, xml_text,
  xml_incomplete, xml_invalid, xml_token, xml_init,
}

pub record XmlReader : Type 0 where
  pub xml : XmlParser
  pub ptr : Bytes
  pub token : TokenType
  pub need_token : Bool
  pub empty : Bool
  pub xml_decl : Bool

abbrev pub XmlDocument : Type 0
XmlDocument = Parser XmlReader

abbrev pub with_reader : XmlDocument → XmlReader → XmlDocument
with_reader p r = record p { reader = r }

abbrev pub refuse : XmlDocument → XmlDocument
refuse p = record p { state = parse_invalid }

abbrev pub need : XmlDocument → Bool → XmlDocument
need p b = with_reader p (record (p.reader) { need_token = b })

unfoldable pub token_answer : XmlDocument → Option (TokenType × XmlParser) → TokenType × XmlDocument
token_answer p none = (xml_invalid, refuse p)
token_answer p (some (xml_invalid, xml)) =
    (xml_invalid, refuse (with_reader p (record (p.reader) { xml = xml; token = xml_invalid })))
token_answer p (some (xml_incomplete, xml)) = (
  xml_incomplete,
  with_reader p (record (p.reader) { xml = xml; token = xml_incomplete; ptr = xml.content }),
)
token_answer p (some (t, xml)) =
    (t, with_reader p (record (p.reader) { xml = xml; token = t; need_token = false }))

unfoldable pub parse_token : XmlDocument → TokenType × XmlDocument
parse_token p =
    if p.reader.need_token then token_answer p (xml_token p.reader.xml) else (p.reader.token, p)

unfoldable pub text_answer : TokenType × XmlDocument → Bool × XmlDocument
text_answer (xml_text, p) =
    (true, with_reader p (record (p.reader) { ptr = p.reader.xml.content; need_token = true }))
text_answer (end_tag_token, p) = (true, with_reader p (record (p.reader) { ptr = [] }))
text_answer (_, p) = (false, p)

unfoldable pub parse_text : XmlDocument → Bool × XmlDocument
parse_text p = text_answer (parse_token p)

unfoldable pub value_answer : XmlDocument → ValueText → Bool × XmlDocument
value_answer p (value_read m) = (true, record p { memory = m })
value_answer p no_value = (false, p)
value_answer p invalid_value = (false, refuse p)
value_answer p undefined_value = (false, refuse p)

unfoldable pub parse_text_as : Schema → XmlDocument → Pointer → Bool × XmlDocument
parse_text_as schema p at =
    let xs = bit_xor (entry schema p.se).type st_simple in
    value_answer p (text_of_kind p.memory at p.flag p.reader.ptr (bit_and xs 0xf) (xs / 2 ^ 4))

unfoldable pub value_behind : Schema → Bool × XmlDocument → Pointer → Bool × XmlDocument
value_behind schema (true, p) at = parse_text_as schema p at
value_behind schema (false, p) at = (false, p)

unfoldable pub parse_text_value : Schema → XmlDocument → Pointer → Bool × XmlDocument
parse_text_value schema p at = value_behind schema (parse_text p) at

-- A tag that begins an element: it is taken where it has the name of the entry.
unfoldable pub opened : Schema → ℕ → XmlDocument → Bool → Bool × XmlDocument
opened schema se p is_empty =
    let taken = with_reader p (record (p.reader) { empty = is_empty; need_token = true }) in
    if p.reader.empty
    then (false, refuse p)
    else if not (streq (se_name schema se) p.reader.xml.name)
    then (false, p)
    else if is_empty && is_simple (entry schema se).type
    then (false, refuse taken)
    else (true, taken)

unfoldable pub start_answer : Schema → ℕ → TokenType × XmlDocument → Bool × XmlDocument
start_answer schema se (start_tag_token, p) = opened schema se p false
start_answer schema se (empty_tag, p) = opened schema se p true
start_answer schema se (end_tag_token, p) = (false, p)
start_answer schema se (xml_incomplete, p) = (false, p)
start_answer schema se (_, p) = (false, refuse p)

unfoldable pub start_tag : Schema → XmlDocument → ℕ → Bool × XmlDocument
start_tag schema p se = start_answer schema se (parse_token p)

unfoldable pub end_answer : Schema → ℕ → TokenType × XmlDocument → Bool × XmlDocument
end_answer schema se (end_tag_token, p) =
    if streq (se_name schema se) p.reader.xml.name then (true, need p true) else (false, p)
end_answer schema se (_, p) = (false, p)

unfoldable pub end_tag : Schema → XmlDocument → ℕ → Bool × XmlDocument
end_tag schema p se = end_answer schema se (parse_token p)

-- `bsearch` in a table that is sorted, with no name twice.
abbrev pub name_index : Bytes → List Bytes → Option ℕ
name_index name table =
    let i = string_index name table in if ltb i (length table) then some i else none

unfoldable pub local_name_index : Schema → Bytes → Option ℕ
local_name_index schema name = name_index name schema.names

unfoldable pub element_index : Schema → Bytes → Option ℕ
element_index schema name = name_index name schema.elements

unfoldable pub type_of_name : Schema → XmlDocument → Option ℕ → XsiType × XmlDocument
type_of_name schema p none = (no_answer, refuse p)
type_of_name schema p (some i) =
    let type = get_or schema.types i 0 in
    if type == 0 then (no_answer, refuse p) else (xsi_type type, p)

abbrev pub xsi_type_name : Bytes
xsi_type_name = b'x' ∷ b's' ∷ b'i' ∷ b':' ∷ b't' ∷ b'y' ∷ b'p' ∷ b'e' ∷ []

unfoldable pub xml_xsi_type : Schema → XmlDocument → XsiType × XmlDocument
xml_xsi_type schema p = elim (attr_value p.reader.xml.attr xsi_type_name) [
  | none ↦ (declared_type, p)
  | some name ↦ type_of_name schema p (local_name_index schema name)
]

-- The global element of a document.
unfoldable pub root_element : XmlDocument → Bool → Option ℕ → Bool × XmlDocument
root_element p is_empty none = (false, refuse p)
root_element p is_empty (some type) = (
  true,
  record p {
    type = type;
    se = type;
    reader = record (p.reader) { empty = is_empty; need_token = not is_empty };
  },
)

unfoldable pub root_answer : Schema → TokenType × XmlDocument → Bool × XmlDocument
root_answer schema (start_tag_token, p) =
    root_element p false (element_index schema p.reader.xml.name)
root_answer schema (empty_tag, p) = root_element p true (element_index schema p.reader.xml.name)
root_answer schema (xml_incomplete, p) = (false, p)
root_answer schema (_, p) = (false, refuse p)

-- The loop of `xml_start`, which goes on behind the first XML declaration only.
unfoldable pub document_answer : Schema → TokenType × XmlDocument → Bool × XmlDocument
document_answer schema (xml_decl_token, p) =
    let declared = with_reader p (record (p.reader) { xml_decl = true; need_token = true }) in
    let next = root_answer schema (parse_token declared) in
    if p.reader.xml_decl then (false, refuse p) else next
document_answer schema answer = root_answer schema answer

unfoldable pub xml_start : Schema → XmlDocument → Bool × XmlDocument
xml_start schema p = document_answer schema (parse_token (need p true))

-- A round of the loop of `xml_next`: what is returned, or the next entry.
pub data EntryStep : Type 0 where
  settled : Bool → XmlDocument → EntryStep
  skipped : XmlDocument → EntryStep

abbrev pub at_entry : XmlDocument → ℕ → ParserState → XmlDocument
at_entry p se state = record p { se = se; state = state }

unfoldable pub attribute_step : XmlDocument → ℕ → Option Bytes → EntryStep
attribute_step p se none = skipped (with_reader p (record (p.reader) { ptr = [] }))
attribute_step p se (some value) =
    settled true (at_entry (with_reader p (record (p.reader) { ptr = value })) se parse_element)

abbrev pub is_incomplete : TokenType → Bool
is_incomplete xml_incomplete = true
is_incomplete _ = false

abbrev pub is_invalid : ParserState → Bool
is_invalid parse_invalid = true
is_invalid _ = false

unfoldable pub element_step : ℕ → Bool × XmlDocument → EntryStep
element_step se (true, p) = settled true (at_entry p se parse_element)
element_step se (false, p) =
    if is_incomplete p.reader.token
    then settled false p
    else if is_invalid p.state
    then settled true (record p { se = se })
    else skipped p

unfoldable pub entry_step : Schema → XmlDocument → ℕ → SchemaEntry → EntryStep
entry_step schema p se e =
    let element = element_step se (start_tag schema p se) in
    if e.n == 0
    then settled true (at_entry p se parse_end)
    else if e.attribute
    then attribute_step p se (attr_value p.reader.xml.attr (se_name schema se))
    else if not p.reader.empty
    then element
    else if e.min == 0
    then skipped p
    else settled true (at_entry p se parse_invalid)

-- The loop from the entry `se` on, with the entries of the table from there on; it is entered in the
-- state PARSE_NEXT.
unfoldable pub next_entries : Schema → XmlDocument → ℕ → List SchemaEntry → Bool × XmlDocument
next_entries schema p se [] = (true, at_entry p se parse_end)
next_entries schema p se (e ∷ more) = elim (entry_step schema p se e) [
  | settled answer q ↦ (answer, q)
  | skipped q ↦ next_entries schema q (se + 1) more
]

unfoldable pub xml_next : Schema → XmlDocument → Bool × XmlDocument
xml_next schema p = next_entries schema p p.se (drop p.se schema.entries)

abbrev pub not_empty : XmlDocument → XmlDocument
not_empty p = with_reader p (record (p.reader) { empty = false })

unfoldable pub ended : Bool × XmlDocument → Bool × XmlDocument
ended (true, p) = (true, not_empty p)
ended (false, p) = (false, p)

unfoldable pub xml_end : Schema → XmlDocument → ℕ → Bool × XmlDocument
xml_end schema p se =
    let tagged = ended (end_tag schema p se) in
    if p.reader.empty then (true, not_empty p) else tagged

-- `token <= END_TAG`
abbrev pub is_tag : TokenType → Bool
is_tag start_tag_token = true
is_tag empty_tag = true
is_tag end_tag_token = true
is_tag _ = false

-- `state++`, from the state that the parser asks in or the one that `start_tag` left.
abbrev pub state_after : ParserState → ParserState
state_after parse_sequence = sequence_end
state_after parse_invalid = past_invalid
state_after state = state

unfoldable pub sequence_answer : Schema → StackItem → Bool × XmlDocument → Bool × XmlDocument
sequence_answer schema t (true, p) = (true, p)
sequence_answer schema t (false, p) =
    if not (is_tag p.reader.token)
    then (false, p)
    else if ltb t.count (entry schema t.se).min
    then (false, refuse p)
    else (false, record p { state = state_after p.state })

unfoldable pub xml_sequence : Schema → XmlDocument → StackItem → Bool × XmlDocument
xml_sequence schema p t = sequence_answer schema t (start_tag schema p t.se)

unfoldable pub parse_done : XmlDocument → XmlDocument
parse_done p = with_reader p (record (p.reader) { ptr = p.reader.xml.unread })

unfoldable pub xml_parser : Schema → ParserDriver XmlReader
xml_parser schema = record {
  start = xml_start schema;
  next = xml_next schema;
  read_xsi_type = xml_xsi_type schema;
  end = xml_end schema;
  sequence = xml_sequence schema;
  attr_value = parse_text_as schema;
  value = parse_text_value schema;
  done = parse_done;
}

unfoldable pub parse_init : XmlParser → Bytes → XmlReader
parse_init xml input = record {
  xml = xml_init xml input;
  ptr = [];
  token = start_tag_token;
  need_token = true;
  empty = false;
  xml_decl = false;
}
