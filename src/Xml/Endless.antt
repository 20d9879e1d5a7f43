-- ===== src/Xml/Endless.antt =====
-- What `state++` of xml_parse.c does behind the last state.
use epri_client.Prelude.{ℕ, zero, suc, ◌≡◌, refl, true, false, none, List, ◌∷◌, ltb, some}
use epri_client.Util.{streq}
use epri_client.Schema.{Schema, entry, se_name, is_simple}
use epri_client.Parser.{
  Parser, ParserDriver, StackItem, Round, again, parse_sequence, past_invalid, parse_round,
  parse_doc, state_round, sequence_round,
}
use epri_client.Xml.Token.{empty_tag, XmlParser, xml_token}
use epri_client.Xml.Parse.{
  XmlDocument, xml_parser, xml_sequence, start_tag, start_answer, opened, parse_token, token_answer,
}

module _ {R : Type 0} (schema : Schema) (fuel : ℕ) (d : ParserDriver R) where
  -- No case of the switch has the state, so that the loop goes on with the parser as it is.
  parse_doc-past_invalid :
      (rounds : ℕ) (p : Parser R)
      → parse_doc schema fuel d rounds (record p { state = past_invalid }) ≡ none
  unfolding parse_doc parse_round state_round
  parse_doc-past_invalid zero p = refl
  parse_doc-past_invalid (suc rounds) p = parse_doc-past_invalid rounds p

-- The parser stands behind an element of the sequence `t`, where the tokenizer finds an empty tag with
-- the name of this element, which has a simple type and was found as often as it must be.
pub record IsEmptyRepeat (schema : Schema) (p : XmlDocument) (t : StackItem) (rest : List StackItem)
    (xml : XmlParser) : Type 0 where
  pub asks : p.state ≡ parse_sequence
  pub top : p.stack ≡ t ∷ rest
  pub needs : p.reader.need_token ≡ true
  pub tag : xml_token p.reader.xml ≡ some (empty_tag, xml)
  pub outside : p.reader.empty ≡ false
  pub named : streq (se_name schema t.se) xml.name ≡ true
  pub simple : is_simple (entry schema t.se).type ≡ true
  pub enough : ltb t.count (entry schema t.se).min ≡ false

-- Behind an element of a simple type that was found as often as it must be, an empty tag of the same
-- name, as in `<x>1</x><x/>`, makes `parse_doc` loop for ever: no number of rounds ends it.
pub parse_doc-endless :
    (schema : Schema) (fuel rounds : ℕ) (p : XmlDocument) (t : StackItem) (rest : List StackItem)
    (xml : XmlParser)
    → IsEmptyRepeat schema p t rest xml
    → parse_doc schema fuel (xml_parser schema) rounds p ≡ none
unfolding parse_doc parse_round xml_parser xml_sequence start_tag start_answer opened parse_token
    token_answer state_round sequence_round epri_client.Parser.sequence_answer
    epri_client.Xml.Parse.sequence_answer
parse_doc-endless schema fuel zero p t rest xml h = refl
parse_doc-endless schema fuel (suc rounds) p t rest xml h =
    rw
      (
        parse_doc, h.asks, state_round, h.top, h.needs, h.tag, h.outside, h.named, h.simple,
        h.enough,
      )
      (parse_doc-past_invalid schema fuel _ rounds (record p {
        reader = record (p.reader) {
          xml = xml;
          token = empty_tag;
          empty = true;
          need_token = true;
        };
      }))
