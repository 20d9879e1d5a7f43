-- ===== src/Xml/Laws.antt =====
-- The driver of xml_parse.c follows what parse.c relies on.
use epri_client.Prelude.{
  ℕ, ◌+◌, not, ◌==◌, ltb, ◌∙◌, Bool, true, false, Option, none, some, List, [], ◌∷◌, ◌≡◌, refl,
  if◌then◌else◌,
}
use epri_client.Util.{Bytes, streq}
use epri_client.Schema.{SchemaEntry, Schema, entry, se_name}
use epri_client.Parser.{Pointer, StackItem, XsiType, declared_type}
use epri_client.Parser.Stack.{Keeps, IsDriver}
use epri_client.Xml.{attr_value}
use epri_client.Xml.Token.{
  TokenType, XmlParser, start_tag_token, empty_tag, end_tag_token, xml_decl_token, xml_pi_token,
  xml_text, xml_none, xml_incomplete, xml_invalid, xml_token,
}
use epri_client.Xml.Parse.{
  XmlDocument, need, token_answer, parse_token, text_answer, parse_text, value_answer,
  parse_text_as, value_behind, parse_text_value, opened, start_answer, start_tag, end_answer,
  end_tag, type_of_name, xml_xsi_type, root_element, root_answer, document_answer, xml_start,
  EntryStep, settled, skipped, attribute_step, is_incomplete, is_invalid, element_step, entry_step,
  next_entries, xml_next, ended, xml_end, is_tag, sequence_answer, xml_sequence, parse_done,
  xml_parser, local_name_index,
}
use epri_client.Xml.Simple.{ValueText, value_read, no_value, invalid_value, undefined_value}

-- One answer is kept by another that starts where the first ends.
Keeps-trans :
    {A B : Type 0} (p : XmlDocument) (x : A × XmlDocument) (y : B × XmlDocument)
    → Keeps p x
    → Keeps x.1 y
    → Keeps p y
Keeps-trans p (a, q) (b, r) (same, seq) (same', seq') = (same' ∙ same, λ s. seq (seq' s))

if-Keeps :
    {A : Type 0} (b : Bool) (p : XmlDocument) (x y : A × XmlDocument)
    → Keeps p x
    → Keeps p y
    → Keeps p (if b then x else y)
if-Keeps true p x y h k = h
if-Keeps false p x y h k = k

token_answer-Keeps :
    (p : XmlDocument) (x : Option (TokenType × XmlParser)) → Keeps p (token_answer p x)
unfolding token_answer
token_answer-Keeps p none = (refl, λ s. cc)
token_answer-Keeps p (some (start_tag_token, xml)) = (refl, λ s. s)
token_answer-Keeps p (some (empty_tag, xml)) = (refl, λ s. s)
token_answer-Keeps p (some (end_tag_token, xml)) = (refl, λ s. s)
token_answer-Keeps p (some (xml_decl_token, xml)) = (refl, λ s. s)
token_answer-Keeps p (some (xml_pi_token, xml)) = (refl, λ s. s)
token_answer-Keeps p (some (xml_text, xml)) = (refl, λ s. s)
token_answer-Keeps p (some (xml_none, xml)) = (refl, λ s. s)
token_answer-Keeps p (some (xml_incomplete, xml)) = (refl, λ s. s)
token_answer-Keeps p (some (xml_invalid, xml)) = (refl, λ s. cc)

parse_token-Keeps : (p : XmlDocument) → Keeps p (parse_token p)
unfolding parse_token
parse_token-Keeps p =
    if-Keeps p.reader.need_token p _ _ (token_answer-Keeps p (xml_token p.reader.xml))
      (refl, λ s. s)

text_answer-Keeps : (x : TokenType × XmlDocument) → Keeps x.1 (text_answer x)
unfolding text_answer
text_answer-Keeps (start_tag_token, p) = (refl, λ s. s)
text_answer-Keeps (empty_tag, p) = (refl, λ s. s)
text_answer-Keeps (end_tag_token, p) = (refl, λ s. s)
text_answer-Keeps (xml_decl_token, p) = (refl, λ s. s)
text_answer-Keeps (xml_pi_token, p) = (refl, λ s. s)
text_answer-Keeps (xml_text, p) = (refl, λ s. s)
text_answer-Keeps (xml_none, p) = (refl, λ s. s)
text_answer-Keeps (xml_incomplete, p) = (refl, λ s. s)
text_answer-Keeps (xml_invalid, p) = (refl, λ s. s)

value_answer-Keeps : (p : XmlDocument) (v : ValueText) → Keeps p (value_answer p v)
unfolding value_answer
value_answer-Keeps p (value_read m) = (refl, λ s. s)
value_answer-Keeps p no_value = (refl, λ s. s)
value_answer-Keeps p invalid_value = (refl, λ s. cc)
value_answer-Keeps p undefined_value = (refl, λ s. cc)

parse_text_as-Keeps :
    (schema : Schema) (p : XmlDocument) (at : Pointer) → Keeps p (parse_text_as schema p at)
unfolding parse_text_as
parse_text_as-Keeps schema p at = value_answer-Keeps p _

value_behind-Keeps :
    (schema : Schema) (x : Bool × XmlDocument) (at : Pointer) → Keeps x.1 (value_behind schema x at)
unfolding value_behind
value_behind-Keeps schema (true, p) at = parse_text_as-Keeps schema p at
value_behind-Keeps schema (false, p) at = (refl, λ s. s)

parse_text_value-Keeps :
    (schema : Schema) (p : XmlDocument) (at : Pointer) → Keeps p (parse_text_value schema p at)
unfolding parse_text_value parse_text
parse_text_value-Keeps schema p at =
    Keeps-trans p (parse_text p) (value_behind schema (parse_text p) at)
      (Keeps-trans p (parse_token p) (text_answer (parse_token p)) (parse_token-Keeps p)
        (text_answer-Keeps (parse_token p)))
      (value_behind-Keeps schema (parse_text p) at)

opened-Keeps :
    (schema : Schema) (se : ℕ) (p : XmlDocument) (is_empty : Bool)
    → Keeps p (opened schema se p is_empty)
unfolding opened
opened-Keeps schema se p is_empty =
    if-Keeps p.reader.empty p _ _ (refl, λ s. cc)
      (if-Keeps (not (streq (se_name schema se) p.reader.xml.name)) p _ _ (refl, λ s. s)
        (if-Keeps _ p _ _ (refl, λ s. cc) (refl, λ s. s)))

start_answer-Keeps :
    (schema : Schema) (se : ℕ) (x : TokenType × XmlDocument) → Keeps x.1 (start_answer schema se x)
unfolding start_answer
start_answer-Keeps schema se (start_tag_token, p) = opened-Keeps schema se p false
start_answer-Keeps schema se (empty_tag, p) = opened-Keeps schema se p true
start_answer-Keeps schema se (end_tag_token, p) = (refl, λ s. s)
start_answer-Keeps schema se (xml_decl_token, p) = (refl, λ s. cc)
start_answer-Keeps schema se (xml_pi_token, p) = (refl, λ s. cc)
start_answer-Keeps schema se (xml_text, p) = (refl, λ s. cc)
start_answer-Keeps schema se (xml_none, p) = (refl, λ s. cc)
start_answer-Keeps schema se (xml_incomplete, p) = (refl, λ s. s)
start_answer-Keeps schema se (xml_invalid, p) = (refl, λ s. cc)

pub start_tag-Keeps : (schema : Schema) (p : XmlDocument) (se : ℕ) → Keeps p (start_tag schema p se)
unfolding start_tag
start_tag-Keeps schema p se =
    Keeps-trans p (parse_token p) (start_answer schema se (parse_token p)) (parse_token-Keeps p)
      (start_answer-Keeps schema se (parse_token p))

end_answer-Keeps :
    (schema : Schema) (se : ℕ) (x : TokenType × XmlDocument) → Keeps x.1 (end_answer schema se x)
unfolding end_answer
end_answer-Keeps schema se (end_tag_token, p) =
    if-Keeps (streq (se_name schema se) p.reader.xml.name) p _ _ (refl, λ s. s) (refl, λ s. s)
end_answer-Keeps schema se (start_tag_token, p) = (refl, λ s. s)
end_answer-Keeps schema se (empty_tag, p) = (refl, λ s. s)
end_answer-Keeps schema se (xml_decl_token, p) = (refl, λ s. s)
end_answer-Keeps schema se (xml_pi_token, p) = (refl, λ s. s)
end_answer-Keeps schema se (xml_text, p) = (refl, λ s. s)
end_answer-Keeps schema se (xml_none, p) = (refl, λ s. s)
end_answer-Keeps schema se (xml_incomplete, p) = (refl, λ s. s)
end_answer-Keeps schema se (xml_invalid, p) = (refl, λ s. s)

ended-Keeps : (x : Bool × XmlDocument) → Keeps x.1 (ended x)
unfolding ended
ended-Keeps (true, p) = (refl, λ s. s)
ended-Keeps (false, p) = (refl, λ s. s)

xml_end-Keeps : (schema : Schema) (p : XmlDocument) (se : ℕ) → Keeps p (xml_end schema p se)
unfolding xml_end end_tag
xml_end-Keeps schema p se =
    if-Keeps p.reader.empty p _ _ (refl, λ s. s)
      (Keeps-trans p (end_tag schema p se) (ended (end_tag schema p se))
        (Keeps-trans p (parse_token p) (end_answer schema se (parse_token p)) (parse_token-Keeps p)
          (end_answer-Keeps schema se (parse_token p)))
        (ended-Keeps (end_tag schema p se)))

type_of_name-Keeps :
    (schema : Schema) (p : XmlDocument) (i : Option ℕ) → Keeps p (type_of_name schema p i)
unfolding type_of_name
type_of_name-Keeps schema p none = (refl, λ s. cc)
type_of_name-Keeps schema p (some i) = if-Keeps _ p _ _ (refl, λ s. cc) (refl, λ s. s)

xml_xsi_type-Keeps : (schema : Schema) (p : XmlDocument) → Keeps p (xml_xsi_type schema p)
unfolding xml_xsi_type
xml_xsi_type-Keeps schema p = split (attr_value p.reader.xml.attr _)
  where
    split :
        (o : Option Bytes)
        → Keeps {A = XsiType} p (elim o [
          | none ↦ (declared_type, p)
          | some name ↦ type_of_name schema p (local_name_index schema name)
        ])
    split none = (refl, λ s. s)
    split (some name) = type_of_name-Keeps schema p (local_name_index schema name)

root_element-Keeps :
    (p : XmlDocument) (is_empty : Bool) (i : Option ℕ) → Keeps p (root_element p is_empty i)
unfolding root_element
root_element-Keeps p is_empty none = (refl, λ s. cc)
root_element-Keeps p is_empty (some i) = (refl, λ s. s)

root_answer-Keeps :
    (schema : Schema) (x : TokenType × XmlDocument) → Keeps x.1 (root_answer schema x)
unfolding root_answer
root_answer-Keeps schema (start_tag_token, p) = root_element-Keeps p false _
root_answer-Keeps schema (empty_tag, p) = root_element-Keeps p true _
root_answer-Keeps schema (end_tag_token, p) = (refl, λ s. cc)
root_answer-Keeps schema (xml_decl_token, p) = (refl, λ s. cc)
root_answer-Keeps schema (xml_pi_token, p) = (refl, λ s. cc)
root_answer-Keeps schema (xml_text, p) = (refl, λ s. cc)
root_answer-Keeps schema (xml_none, p) = (refl, λ s. cc)
root_answer-Keeps schema (xml_incomplete, p) = (refl, λ s. s)
root_answer-Keeps schema (xml_invalid, p) = (refl, λ s. cc)

root_behind-Keeps :
    (schema : Schema) (p : XmlDocument) → Keeps p (root_answer schema (parse_token p))
root_behind-Keeps schema p =
    Keeps-trans p (parse_token p) (root_answer schema (parse_token p)) (parse_token-Keeps p)
      (root_answer-Keeps schema (parse_token p))

document_answer-Keeps :
    (schema : Schema) (x : TokenType × XmlDocument) → Keeps x.1 (document_answer schema x)
unfolding document_answer
document_answer-Keeps schema (xml_decl_token, p) =
    if-Keeps p.reader.xml_decl p _ _ (refl, λ s. cc)
      (root_behind-Keeps schema
        (record p { reader = record (p.reader) { xml_decl = true; need_token = true } }))
document_answer-Keeps schema (start_tag_token, p) = root_answer-Keeps schema (start_tag_token, p)
document_answer-Keeps schema (empty_tag, p) = root_answer-Keeps schema (empty_tag, p)
document_answer-Keeps schema (end_tag_token, p) = root_answer-Keeps schema (end_tag_token, p)
document_answer-Keeps schema (xml_pi_token, p) = root_answer-Keeps schema (xml_pi_token, p)
document_answer-Keeps schema (xml_text, p) = root_answer-Keeps schema (xml_text, p)
document_answer-Keeps schema (xml_none, p) = root_answer-Keeps schema (xml_none, p)
document_answer-Keeps schema (xml_incomplete, p) = root_answer-Keeps schema (xml_incomplete, p)
document_answer-Keeps schema (xml_invalid, p) = root_answer-Keeps schema (xml_invalid, p)

xml_start-Keeps : (schema : Schema) (p : XmlDocument) → Keeps p (xml_start schema p)
unfolding xml_start
xml_start-Keeps schema p =
    Keeps-trans p (parse_token (need p true)) (document_answer schema (parse_token (need p true)))
      (parse_token-Keeps (need p true)) (document_answer-Keeps schema (parse_token (need p true)))

-- What a round of the loop of `xml_next` leaves.
StepKeeps : XmlDocument → EntryStep → Type 0
StepKeeps p (settled b q) = Keeps p (b, q)
StepKeeps p (skipped q) = Keeps p (false, q)

if-StepKeeps :
    (b : Bool) (p : XmlDocument) (x y : EntryStep)
    → StepKeeps p x
    → StepKeeps p y
    → StepKeeps p (if b then x else y)
if-StepKeeps true p x y h k = h
if-StepKeeps false p x y h k = k

element_step-Keeps :
    (p : XmlDocument) (se : ℕ) (x : Bool × XmlDocument)
    → Keeps p x
    → StepKeeps p (element_step se x)
unfolding element_step StepKeeps
element_step-Keeps p se (true, q) (same, seq) = (same, λ s. cc)
element_step-Keeps p se (false, q) h =
    if-StepKeeps (is_incomplete q.reader.token) p _ _ h
      (if-StepKeeps (is_invalid q.state) p _ _ h h)

attribute_step-Keeps :
    (p : XmlDocument) (se : ℕ) (o : Option Bytes) → StepKeeps p (attribute_step p se o)
unfolding attribute_step StepKeeps
attribute_step-Keeps p se none = (refl, λ s. s)
attribute_step-Keeps p se (some v) = (refl, λ s. cc)

entry_step-Keeps :
    (schema : Schema) (p : XmlDocument) (se : ℕ) (e : SchemaEntry)
    → StepKeeps p (entry_step schema p se e)
unfolding entry_step StepKeeps
entry_step-Keeps schema p se e =
    if-StepKeeps (e.n == 0) p _ _ (refl, λ s. cc)
      (if-StepKeeps e.attribute p _ _ (attribute_step-Keeps p se _) (
        if-StepKeeps (not p.reader.empty) p _ _
          (element_step-Keeps p se (start_tag schema p se) (start_tag-Keeps schema p se))
          (if-StepKeeps (e.min == 0) p _ _ (refl, λ s. s) (refl, λ s. cc))))

step_behind-Keeps :
    (schema : Schema) (p : XmlDocument) (se : ℕ) (more : List SchemaEntry) (step : EntryStep)
    → StepKeeps p step
    → ((q : XmlDocument) → Keeps q (next_entries schema q (se + 1) more))
    → Keeps {A = Bool} p (elim step [
      | settled answer q ↦ (answer, q)
      | skipped q ↦ next_entries schema q (se + 1) more
    ])
unfolding StepKeeps
step_behind-Keeps schema p se more (settled answer q) h later = h
step_behind-Keeps schema p se more (skipped q) h later =
    Keeps-trans p (false, q) (next_entries schema q (se + 1) more) h (later q)

next_entries-Keeps :
    (schema : Schema) (p : XmlDocument) (se : ℕ) (entries : List SchemaEntry)
    → Keeps p (next_entries schema p se entries)
unfolding next_entries
next_entries-Keeps schema p se [] = (refl, λ s. cc)
next_entries-Keeps schema p se (e ∷ more) =
    step_behind-Keeps schema p se more (entry_step schema p se e) (entry_step-Keeps schema p se e)
      λ q. next_entries-Keeps schema q (se + 1) more

if-stack :
    (b : Bool) (stack : List StackItem) (x y : Bool × XmlDocument)
    → x.1.stack ≡ stack
    → y.1.stack ≡ stack
    → (if b then x else y).1.stack ≡ stack
if-stack true stack x y h k = h
if-stack false stack x y h k = k

sequence_answer-stack :
    (schema : Schema) (t : StackItem) (x : Bool × XmlDocument)
    → (sequence_answer schema t x).1.stack ≡ x.1.stack
unfolding sequence_answer
sequence_answer-stack schema t (true, p) = refl
sequence_answer-stack schema t (false, p) =
    if-stack (not (is_tag p.reader.token)) p.stack _ _ refl
      (if-stack (ltb t.count (entry schema t.se).min) p.stack _ _ refl refl)

-- The functions of the XML parser never change the stack of `parse_doc`, and none but the one for
-- sequences puts the parser in a state of a sequence, on any text and any schema.
xml_parser-IsDriver : (schema : Schema) → IsDriver (xml_parser schema)
unfolding xml_parser xml_next xml_sequence parse_done
xml_parser-IsDriver schema = record {
  start_keeps = λ p. xml_start-Keeps schema p;
  next_keeps = λ p. next_entries-Keeps schema p p.se _;
  xsi_type_keeps = λ p. xml_xsi_type-Keeps schema p;
  end_keeps = λ p se. xml_end-Keeps schema p se;
  sequence_keeps = λ p t rest e.
      sequence_answer-stack schema t (start_tag schema p t.se) ∙ (start_tag-Keeps schema p t.se).0;
  attr_value_keeps = λ p at. parse_text_as-Keeps schema p at;
  value_keeps = λ p at. parse_text_value-Keeps schema p at;
  done_keeps = λ p. refl;
}
