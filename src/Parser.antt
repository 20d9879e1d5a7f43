-- ===== src/Parser.antt =====
-- parse.c: the schema-driven parser, for any driver.
-- The objects that are built stand in blocks of memory; a pointer is a block and an offset in it, and
-- a memory maps each pointer to the value that is kept there. The stack is the list of its items, the
-- top first. A driver reads the document: its functions are those of `ParserDriver`, and the state of
-- its reader is a field of the parser.
use epri_client.Prelude.{
  ℕ, zero, suc, ◌+◌, ◌-◌, ◌*◌, ◌^◌, Bool, true, false, not, ◌&&◌, ◌||◌, Option, none, some, List,
  [], ◌∷◌, ◌++◌, ltb, ◌==◌, if◌then◌else◌, bit_or, length, ◌%◌,
}
use epri_client.Prelude.Int.{ℤ, pos, negsuc}
use epri_client.Util.{Bytes, bit_count}
use epri_client.Schema.{
  SchemaEntry, Schema, entry, is_simple, is_pointer, object_size, type_is_a, null_entry,
}
pub mod Stack

pub record Pointer : Type 0 where
  pub block : ℕ
  pub offset : ℕ

-- What is kept at a place: a number, a text of its own, the data of the links of a list, and a
-- SubstitutionType.
pub data Value : Type 0 where
  empty : Value
  number : ℤ → Value
  text : Bytes → Value
  links : List Pointer → Value
  substitution : ℕ → Option Pointer → Value

-- enum ParserState. `past_invalid` is the number behind the last, which `state++` of xml_parse.c can
-- give and no case of the switch has.
pub data ParserState : Type 0 where
  parse_start parse_element parse_next parse_attribute parse_xsi_type parse_value parse_end :
      ParserState
  parse_sequence sequence_end parse_invalid past_invalid : ParserState

-- `all` and `diff` are one union, and the parser uses `diff`. `place` is where the pointer to the
-- first link of an unbounded element is kept.
pub record StackItem : Type 0 where
  pub se : ℕ
  pub base : Pointer
  pub place : Pointer
  pub queue : List Pointer
  pub size : ℕ
  pub count : ℕ
  pub diff : ℕ

abbrev pub max_stack : ℕ
max_stack = 32

pub record Memory : Type 0 where
  pub next : ℕ
  pub size : ℕ → ℕ
  pub cell : Pointer → Value

pub record Parser (R : Type 0) : Type 0 where
  pub obj : Pointer
  pub type : ℕ
  pub stack : List StackItem
  pub se : ℕ
  pub base : Pointer
  pub st : Pointer
  pub flag : ℕ
  pub state : ParserState
  pub memory : Memory
  pub reader : R

-- The result of `parse_xsi_type`: more is needed or the document is wrong, no type is given, or a
-- type.
pub data XsiType : Type 0 where
  no_answer declared_type : XsiType
  xsi_type : ℕ → XsiType

pub record ParserDriver (R : Type 0) : Type 0 where
  pub start : Parser R → Bool × Parser R
  pub next : Parser R → Bool × Parser R
  pub read_xsi_type : Parser R → XsiType × Parser R
  pub end : Parser R → ℕ → Bool × Parser R
  pub sequence : Parser R → StackItem → Bool × Parser R
  pub attr_value : Parser R → Pointer → Bool × Parser R
  pub value : Parser R → Pointer → Bool × Parser R
  pub done : Parser R → Parser R

-- What a round of the loop comes to: another round, or the object that `parse_doc` returns.
pub data Round (R : Type 0) : Type 0 where
  again : Parser R → Round R
  returned : Option Pointer → Parser R → Round R

abbrev pub shift : Pointer → ℕ → Pointer
shift p n = record p { offset = p.offset + n }

abbrev pub same_pointer : Pointer → Pointer → Bool
same_pointer p q = p.block == q.block && p.offset == q.offset

abbrev pub store : Memory → Pointer → Value → Memory
store m p v = record m { cell = λ q. if same_pointer q p then v else m.cell q }

-- `calloc (1, size)`
abbrev pub calloc : Memory → ℕ → Pointer × Memory
calloc m n =
    let b = m.next in
    (
      record { block = b; offset = 0 },
      record m { next = b + 1; size = λ k. if k == b then n else m.size k },
    )

abbrev pub as_number : Value → ℕ
as_number (number (pos n)) = n
as_number _ = 0

abbrev pub as_links : Value → List Pointer
as_links (links l) = l
as_links _ = []

-- `*(uint32_t *)(flags) |= count << bit`
unfoldable pub set_count : Memory → Pointer → ℕ → ℕ → Memory
set_count m p count bit =
    store m p (number (pos (bit_or (as_number (m.cell p)) (count * 2 ^ bit % 2 ^ 32))))

abbrev pub size_or_zero : Option ℕ → ℕ
size_or_zero none = 0
size_or_zero (some n) = n

abbrev pub set_top : List StackItem → StackItem → List StackItem
set_top [] t = []
set_top (_ ∷ rest) t = t ∷ rest

abbrev pub invalid : {R : Type 0} → Parser R → Round R
invalid p = returned none (record p { state = parse_invalid })

-- `ok (...); break;`
abbrev pub unless_returned : {R : Type 0} → Bool × Parser R → (Parser R → Parser R) → Round R
unless_returned (true, p) f = again (f p)
unless_returned (false, p) f = returned none p

abbrev pub count_element : List StackItem → List StackItem
count_element [] = []
count_element (t ∷ rest) = record t { count = t.count + 1 } ∷ rest

abbrev pub is_sequence : ParserState → Bool
is_sequence parse_sequence = true
is_sequence _ = false

abbrev pub declared : Value → ℕ
declared (substitution type at) = type
declared _ = 0

module _ (schema : Schema) (fuel : ℕ) where
  abbrev pub size_of : ℕ → ℕ
  size_of type = size_or_zero (object_size fuel schema type)

  abbrev pub width : ℕ → ℕ
  width n = size_or_zero (bit_count n)

  -- `sizeof (SubstitutionType)` is 16.
  unfoldable pub push_element : List StackItem → ℕ → Pointer → Option (StackItem × List StackItem)
  push_element stack se base =
      let e = entry schema se in
      let t : StackItem = record {
        se = se;
        base = base;
        place = shift base e.offset;
        queue = [];
        size = if e.st then 16 else size_of e.type;
        count = 0;
        diff = 0;
      } in
      if length stack == max_stack then none else some (t, t ∷ stack)

module _ {R : Type 0} (schema : Schema) (fuel : ℕ) (d : ParserDriver R) where
  -- A new link behind the others of the element: its data, and the parser.
  unfoldable pub add_element : Parser R → StackItem → Pointer × StackItem × Parser R
  add_element p t =
      let (fresh, m) = calloc p.memory t.size in
      let t' = record t { queue = t.queue ++ fresh ∷ [] } in
      (
        fresh,
        t',
        record p { memory = store m t.place (links t'.queue); stack = set_top p.stack t' },
      )

  unfoldable pub start_round : Parser R → Round R
  start_round p = unless_returned (d.start p) λ q.
      let (obj, m) = calloc q.memory (size_of schema fuel q.type) in
      record q { stack = []; state = parse_element; obj = obj; base = obj; memory = m }

  -- From the label `parse_value` on.
  unfoldable pub value_round : Parser R → Round R
  value_round p =
      unless_returned (d.value (record p { state = parse_value }) p.base)
        λ q. record q { state = parse_end }

  unfoldable pub next_round : Parser R → Round R
  next_round p = unless_returned (d.next p) λ q. q

  -- From the label `parse_element` on, for the entry `se`.
  unfoldable pub enter_element : Parser R → ℕ → Round R
  enter_element p se =
      let e = entry schema se in
      let inner = record p { se = e.type + 1 } in
      let substituted = record inner {
        st = p.base;
        memory = store p.memory p.base (substitution e.type none);
        state = parse_xsi_type;
      } in
      if is_simple e.type
      then value_round p
      else if e.st
      then again substituted
      else next_round (record inner { state = parse_next })

  -- The element that was pushed, with its first link or its flags.
  unfoldable pub pushed_element : Parser R → StackItem → Round R
  pushed_element p t =
      let e = entry schema p.se in
      let diff = e.max - e.min in
      let (fresh, t', linked) = add_element p t in
      let counted = record p {
        base = t.place;
        stack = set_top p.stack (record t { diff = diff });
        flag =
            if not (diff == 0) && not (is_pointer e.type)
            then p.flag + width schema fuel diff
            else p.flag;
      } in
      if e.unbounded
      then enter_element (record linked { base = fresh }) p.se
      else enter_element counted p.se

  unfoldable pub attribute_round : Parser R → Round R
  attribute_round p =
      let e = entry schema p.se in
      let flagged = record p { memory = set_count p.memory p.base 1 p.flag; flag = p.flag + 1 } in
      let q = if e.min == 0 && not (is_pointer e.type) then flagged else p in
      again (record q { state = parse_attribute })

  unfoldable pub push_answer : Parser R → Option (StackItem × List StackItem) → Round R
  push_answer p none = invalid p
  push_answer p (some (t, stack)) = pushed_element (record p { stack = stack }) t

  unfoldable pub element_round : Parser R → Round R
  element_round p =
      let flagged = record p { flag = (entry schema p.se).bit } in
      if (entry schema p.se).attribute
      then attribute_round flagged
      else push_answer flagged (push_element schema fuel p.stack p.se p.base)

  -- `p->state--` leaves the state of attributes for PARSE_NEXT, the one before it.
  unfoldable pub attr_value_round : Parser R → Round R
  attr_value_round p =
      unless_returned (d.attr_value p (shift p.base (entry schema p.se).offset))
        λ q. record q { state = parse_next; se = q.se + 1 }

  unfoldable pub substitute : Parser R → ℕ → Parser R
  substitute p type =
      let (fresh, m) = calloc p.memory (size_of schema fuel type) in
      record p {
        base = fresh;
        memory = store m p.st (substitution (declared (p.memory.cell p.st)) (some fresh));
        state = parse_next;
      }

  abbrev pub is_derived : ℕ → ℕ → Bool
  is_derived type base = elim (type_is_a fuel schema type base) [ none ↦ false | some b ↦ b ]

  unfoldable pub xsi_type_answer : XsiType × Parser R → Round R
  xsi_type_answer (no_answer, p) = returned none p
  xsi_type_answer (declared_type, p) = again (substitute p (p.se - 1))
  xsi_type_answer (xsi_type type, p) =
      let retyped = record p {
        memory = store p.memory p.st (substitution type none);
        se = type + 1;
      } in
      if is_derived type (declared (p.memory.cell p.st))
      then again (substitute retyped type)
      else invalid p

  unfoldable pub end_round : Parser R → List StackItem → Round R
  end_round p [] = let q = d.done p in returned (some q.obj) (record q { state = parse_start })
  end_round p (t ∷ rest) =
      let e = entry schema t.se in
      unless_returned (d.end p t.se) λ q. record q {
        stack = count_element q.stack;
        state = if e.unbounded || ltb (t.count + 1) e.max then parse_sequence else sequence_end;
      }

  -- Another element of the sequence.
  unfoldable pub repeat_element : Parser R → StackItem → Round R
  repeat_element p t =
      let e = entry schema t.se in
      let (fresh, t', linked) = add_element p t in
      if e.unbounded
      then enter_element (record linked { base = fresh; flag = p.flag + 1 }) t.se
      else if ltb t.count e.max
      then enter_element (record p { base = shift p.base t.size; flag = p.flag + 1 }) t.se
      else invalid p

  unfoldable pub sequence_answer : Bool × Parser R → StackItem → Round R
  sequence_answer (true, p) t = repeat_element p t
  sequence_answer (false, p) t = if is_sequence p.state then returned none p else again p

  unfoldable pub sequence_round : Parser R → List StackItem → Round R
  sequence_round p [] = invalid p
  sequence_round p (t ∷ rest) = sequence_answer (d.sequence p t) t

  -- The element is popped, and its count is set where the schema keeps one.
  unfoldable pub sequence_end_round : Parser R → List StackItem → Round R
  sequence_end_round p [] = invalid p
  sequence_end_round p (t ∷ rest) =
      let e = entry schema t.se in
      again (record p {
        memory =
            if t.diff == 0 then p.memory else set_count p.memory t.base (t.count - e.min) e.bit;
        stack = rest;
        base = t.base;
        se = t.se + 1;
        state = parse_next;
      })

  unfoldable pub state_round : ParserState → Parser R → Round R
  state_round parse_start p = start_round p
  state_round parse_element p = element_round p
  state_round parse_next p = next_round p
  state_round parse_attribute p = attr_value_round p
  state_round parse_xsi_type p = xsi_type_answer (d.read_xsi_type p)
  state_round parse_value p = value_round p
  state_round parse_end p = end_round p p.stack
  state_round parse_sequence p = sequence_round p p.stack
  state_round sequence_end p = sequence_end_round p p.stack
  state_round parse_invalid p = returned none p
  state_round past_invalid p = again p

  unfoldable pub parse_round : Parser R → Round R
  parse_round p = state_round p.state p

  -- The loop; `none` is fuel used up.
  unfoldable pub parse_doc : ℕ → Parser R → Option (Option Pointer × Parser R)
  parse_doc zero p = none
  parse_doc (suc rounds) p = elim (parse_round p) [
    | again q ↦ parse_doc rounds q
    | returned obj q ↦ some (obj, q)
  ]
