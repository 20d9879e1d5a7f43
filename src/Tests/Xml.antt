-- ===== src/Tests/Xml.antt =====
-- Runs of the XML driver.
use epri_client.Prelude.{◌≡◌, refl, arith, true, false, none, some, [], ◌∷◌, ◌++◌}
use epri_client.Prelude.Int.{negsuc}
use epri_client.Util.{Bytes, streq, string_index}
use epri_client.Schema.{Schema, null_entry, se_name}
use epri_client.Parser.{Parser, parse_sequence, parse_doc, store, number}
use epri_client.Tests.Parsing.{origin, blank_memory, one_item}
use epri_client.Utf8.{utf8_encode, utf8_char, utf8_loop}
use epri_client.Exi.Strings.{c_string}
use epri_client.Xml.{
  xml_char, att_value, att_loop, att_read, xml_reference, named_reference, entity_reference, cut_at,
  xml_name, name_loop,
}
use epri_client.Xml.Token.{
  XmlParser, xml_text, xml_none, empty_tag, xml_token, token_loop, token_step, first_step, tag_step,
  xml_tag, named_tag,
}
use epri_client.Xml.Parse.{XmlReader, xml_parser}
use epri_client.Xml.Simple.{parse_hex, value_read, text_of_kind}
use epri_client.Xml.Endless.{IsEmptyRepeat, parse_doc-endless}
use epri_client.Xml.Output.{
  XmlWriter, with_bytes, escape, output_escaped, output_hex, print_number, digits, output_of_kind,
}
use epri_client.Xml.RoundTrip.{IsPlain, bytes_of, xml_token-output_escaped}
use epri_client.Xml.Signed.{text_of_kind-output_of_kind, value_bits}
use epri_client.Xml.Values.{parse_hex-output_hex}

abbrev idle : XmlParser
idle = record { name = []; content = []; unread = []; state = 0; token = xml_none; attr = [] }

abbrev blank : XmlWriter
blank = record { bytes = []; size = 64; is_open = false; indent = 0 }

a-IsPlain : IsPlain b'a'
unfolding xml_char
a-IsPlain = record { survives = refl; taken = refl; present = refl }

lt-IsPlain : IsPlain b'<'
unfolding xml_char
lt-IsPlain = record { survives = refl; taken = refl; present = refl }

xml_token-output_escaped_example :
    (s : Bytes) × (output_escaped blank (b'a' ∷ b'<' ∷ []) ≡ (true, with_bytes blank s))
    × (xml_token (record idle { state = 0; unread = s ++ b'<' ∷ b'/' ∷ [] })
        ≡ some (
          xml_text,
          record idle {
            state = 2;
            unread = b'/' ∷ [];
            token = xml_none;
            content = b'a' ∷ b'<' ∷ [];
          },
        ))
unfolding bytes_of utf8_encode escape
xml_token-output_escaped_example =
    xml_token-output_escaped blank idle b'a' b'/' (b'<' ∷ []) [] (a-IsPlain, (lt-IsPlain, tt)) refl
      refl (omega arith)

abbrev xml_schema : Schema
xml_schema = record {
  namespace = [];
  schema_id = [];
  length = 2;
  count = 0;
  names = [];
  types = [];
  entries = null_entry ∷ record null_entry { type = 0x8001; max = 4 } ∷ [];
  elements = (b'r' ∷ []) ∷ (b'x' ∷ []) ∷ [];
  ids = [];
}

-- The tokenizer in front of `<x/>`, and behind it.
abbrev before_x : XmlParser
before_x = record idle { unread = b'<' ∷ b'x' ∷ b'/' ∷ b'>' ∷ [] }

abbrev behind_x : XmlParser
behind_x = record idle { name = b'x' ∷ []; unread = []; token = empty_tag }

abbrev closed_x : XmlReader
closed_x = record {
  xml = before_x;
  ptr = [];
  token = xml_none;
  need_token = true;
  empty = false;
  xml_decl = false;
}

-- Behind a first element `x`, at the tag `<x/>`.
abbrev repeated : Parser XmlReader
repeated = record {
  obj = origin;
  type = 0;
  stack = one_item ∷ [];
  se = 1;
  base = origin;
  st = origin;
  flag = 0;
  state = parse_sequence;
  memory = blank_memory;
  reader = closed_x;
}

repeated-IsEmptyRepeat : IsEmptyRepeat xml_schema repeated one_item [] behind_x
unfolding streq se_name xml_token token_loop token_step first_step tag_step cut_at
    epri_client.Xml.Token.tag_answer xml_tag named_tag xml_name name_loop
    epri_client.Xml.decoded_char utf8_char utf8_loop epri_client.Xml.name_start
    epri_client.Xml.name_char epri_client.Xml.Token.start_rest epri_client.Xml.Token.start_end
    epri_client.Xml.Token.closed_tag
repeated-IsEmptyRepeat = record {
  asks = refl;
  top = refl;
  needs = refl;
  tag = refl;
  outside = refl;
  named = refl;
  simple = refl;
  enough = refl;
}

parse_doc-endless_example : parse_doc xml_schema 4 (xml_parser xml_schema) 1000 repeated ≡ none
parse_doc-endless_example =
    parse_doc-endless xml_schema 4 1000 repeated one_item [] behind_x repeated-IsEmptyRepeat

parse_hex-output_hex_example :
    (s : Bytes) × (output_hex blank (0 ∷ 0xa5 ∷ []) ≡ (true, with_bytes blank s))
    × (parse_hex 2 s ≡ some (0 ∷ 0xa5 ∷ []))
parse_hex-output_hex_example =
    parse_hex-output_hex blank 0 (0xa5 ∷ []) (omega arith, (omega arith, tt)) (omega arith)

text_of_kind-output_of_kind_example :
    (s : Bytes) × (output_of_kind blank 0 (number (negsuc 32767)) 7 0 ≡ (true, with_bytes blank s))
    × (text_of_kind blank_memory origin 0 s 7 0
        ≡ value_read (store blank_memory origin (number (negsuc 32767))))
unfolding value_bits print_number digits
text_of_kind-output_of_kind_example =
    text_of_kind-output_of_kind blank blank_memory origin 0 0 7 (negsuc 32767) (omega arith)
      (omega arith) (omega arith) (omega arith) (omega arith)

-- The `&` of a reference is written behind its character.
doubled_amp :
    att_value (39 ∷ b'x' ∷ b'&' ∷ b'l' ∷ b't' ∷ b';' ∷ b'y' ∷ 39 ∷ b'>' ∷ [])
    ≡ att_read (b'x' ∷ b'<' ∷ b'&' ∷ b'y' ∷ []) (b'>' ∷ [])
unfolding att_value att_loop xml_reference named_reference entity_reference cut_at string_index
    streq c_string
doubled_amp = refl
