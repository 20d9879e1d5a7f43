-- ===== src/Exi/Laws.antt =====
-- The driver of exi_parse.c follows what parse.c relies on.
use epri_client.Prelude.{ℕ, Bool, true, false, ◌≡◌, refl, if◌then◌else◌}
use epri_client.Schema.{Schema, entry}
use epri_client.Parser.{Parser, parse_element, parse_end}
use epri_client.Parser.Stack.{in_sequence, Keeps, IsDriver}
use epri_client.Exi.Strings.{ExiReader, Parsed, parsed, waiting, refused, undefined}
use epri_client.Exi.Driver.{
  answer, xsi_type_of, sequence_of, exi_parser, exi_parse_start, exi_parse_next, exi_xsi_type,
  exi_parse_end, exi_parse_sequence, exi_parse_value, exi_parse_simple,
}

answer-Keeps :
    {A : Type 0} (p : Parser ExiReader) (x : Parsed A) (f : A → Parser ExiReader → Parser ExiReader)
    → ((a : A) (r : ExiReader) → Keeps p (true, f a (record p { reader = r })))
    → Keeps p (answer p x f)
unfolding answer
answer-Keeps p (parsed a r) f h = h a r
answer-Keeps p (waiting r) f h = (refl, λ s. s)
answer-Keeps p (refused r) f h = (refl, λ s. cc)
answer-Keeps p undefined f h = (refl, λ s. cc)

xsi_type_of-Keeps : (p : Parser ExiReader) (x : Parsed ℕ) → Keeps p (xsi_type_of p x)
unfolding xsi_type_of
xsi_type_of-Keeps p (parsed type r) = (refl, λ s. s)
xsi_type_of-Keeps p (waiting r) = (refl, λ s. s)
xsi_type_of-Keeps p (refused r) = (refl, λ s. cc)
xsi_type_of-Keeps p undefined = (refl, λ s. cc)

sequence_of-stack : (p : Parser ExiReader) (x : Parsed Bool) → (sequence_of p x).1.stack ≡ p.stack
unfolding sequence_of
sequence_of-stack p (parsed true r) = refl
sequence_of-stack p (parsed false r) = refl
sequence_of-stack p (waiting r) = refl
sequence_of-stack p (refused r) = refl
sequence_of-stack p undefined = refl

not_sequence : (element : Bool) → in_sequence (if element then parse_element else parse_end) ≡ false
not_sequence true = refl
not_sequence false = refl

-- The functions of the EXI parser never change the stack of `parse_doc`, and none but the one for
-- sequences puts the parser in a state of a sequence, on any stream and any schema.
pub exi_parser-IsDriver :
    (schema : Schema) (table_name : ℕ → ℕ) → IsDriver (exi_parser schema table_name)
unfolding exi_parser
exi_parser-IsDriver schema table_name = record {
  start_keeps = λ p. answer-Keeps p (exi_parse_start schema p.reader) _ (λ a r. (refl, λ s. s));
  next_keeps = λ p.
      answer-Keeps p (exi_parse_next schema p.reader p.se) _
        (λ a r. (refl, λ s. absurd (cc (not_sequence a.1, s))));
  xsi_type_keeps = λ p. xsi_type_of-Keeps p (exi_xsi_type schema p.reader p.se);
  end_keeps = λ p se. answer-Keeps p (exi_parse_end p.reader) _ (λ a r. (refl, λ s. s));
  sequence_keeps =
      λ p t rest e. sequence_of-stack p (exi_parse_sequence p.reader (entry schema t.se) t.count);
  attr_value_keeps = λ p at.
      answer-Keeps p
        (exi_parse_value p.memory at p.flag p.reader (table_name p.se) (entry schema p.se).type) _
        (λ a r. (refl, λ s. s));
  value_keeps = λ p at.
      answer-Keeps p
        (exi_parse_simple p.memory at p.flag p.reader (table_name p.se) (entry schema p.se).type) _
        (λ a r. (refl, λ s. s));
  done_keeps = λ p. refl;
}
