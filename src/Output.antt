-- ===== src/Output.antt =====
-- output.c: the schema-driven output, for any driver.
-- The object that is written stands in the memory of Parser.antt, which the output reads only. The
-- buffer with its pointer and bit offset belongs to the driver's writer, and the stack holds its items
-- with the top first.
use epri_client.Prelude.{
  ℕ, zero, suc, ◌+◌, ◌-◌, ◌*◌, ◌/◌, ◌%◌, ◌^◌, Bool, true, false, not, ◌||◌, Option, none, some,
  List, [], ◌∷◌, ltb, leb, ◌==◌, if◌then◌else◌, length,
}
use epri_client.Parser.{
  Pointer, Value, Memory, StackItem, empty, substitution, as_number, as_links, shift, declared,
  push_element,
}
use epri_client.Schema.{SchemaEntry, Schema, entry, is_simple, is_pointer}
pub mod Counts

-- enum OutputState
pub data OutputState : Type 0 where
  output_start output_element output_xsi_type output_attribute output_attr_value output_simple :
      OutputState
  output_value output_end output_complex output_complete output_error : OutputState

-- enum OutputEvent
pub data OutputEvent : Type 0 where
  ee_event at_event se_simple se_complex : OutputEvent

-- `all` is the member of the item's union that the output uses.
pub record OutputItem : Type 0 where
  pub item : StackItem
  pub all : ℕ

pub record Output (W : Type 0) : Type 0 where
  pub se : ℕ
  pub stack : List OutputItem
  pub state : OutputState
  pub limit : ℕ
  pub base : Pointer
  pub n : ℕ
  pub code : ℕ
  pub flag : ℕ
  pub st : Pointer
  pub first : Bool
  pub writer : W

-- The functions of a driver, and what `output_doc` does to the buffer itself: `ptr - buffer`, the step
-- over a byte that is not complete, and `ptr = buffer`.
pub record OutputDriver (W : Type 0) : Type 0 where
  pub event : Output W → ℕ → OutputEvent → Bool × Output W
  pub write_xsi_type : Output W → Bool × Output W
  pub attr_value : Output W → Pointer → Bool × Output W
  pub value : Output W → Pointer → Bool × Output W
  pub done : Output W → Output W
  pub written : W → ℕ
  pub complete_byte : W → W
  pub rewind : W → W

-- What a round of the loop comes to.
pub data OutputRound (W : Type 0) : Type 0 where
  go_on : Output W → OutputRound W
  full : Output W → OutputRound W
  result : ℕ → Output W → OutputRound W

-- `while (diff >>= 1) n++`; the loop ends before the fuel, since `diff` has 8 bits.
unfoldable pub flag_width_loop : ℕ → ℕ → ℕ → ℕ
flag_width_loop zero diff n = n
flag_width_loop (suc fuel) diff n =
    let more = flag_width_loop fuel (diff / 2) (n + 1) in if diff / 2 == 0 then n else more

unfoldable pub flag_count : ℕ → ℕ → ℕ → ℕ → ℕ
flag_count flags bit min max =
    let n = flag_width_loop 8 (max - min) 1 in min + flags / 2 ^ bit % 2 ^ n

abbrev pub is_set : Value → Bool
is_set empty = false
is_set _ = true

-- The pointers that are set, from the first on.
unfoldable pub count_pointers : Memory → Pointer → ℕ → ℕ
count_pointers m p zero = 0
count_pointers m p (suc left) =
    let more = 1 + count_pointers m (shift p 8) left in if is_set (m.cell p) then more else 0

unfoldable pub output_count : Memory → Pointer → SchemaEntry → ℕ
output_count m base e =
    let pointers = count_pointers m (shift base e.offset) e.max in
    let flags = as_number (m.cell base) in
    let count = flag_count flags e.bit e.min e.max in
    if is_pointer e.type
    then (if leb e.min pointers then pointers else 0)
    else if ltb e.min e.max
    then (if e.max == 1 then flags / 2 ^ e.bit % 2 else if ltb e.max count then e.max else count)
    else e.min

-- The count of the item at a level, the bottom of the stack being level 0; `none` for a level above
-- the top, where C reads what an earlier element left there.
unfoldable pub count_at : List OutputItem → ℕ → Option ℕ
count_at [] level = none
count_at (t ∷ rest) level =
    let below = count_at rest level in if length rest == level then some t.item.count else below

unfoldable pub output_item_count : {W : Type 0} → Output W → ℕ → Option ℕ
output_item_count o level = count_at o.stack level

unfoldable pub set_output_limit : {W : Type 0} → Output W → ℕ → Output W
set_output_limit o limit = record o { limit = limit }

abbrev pub is_complete : OutputState → Bool
is_complete output_complete = true
is_complete _ = false

abbrev pub items : List OutputItem → List StackItem
items [] = []
items (t ∷ rest) = t.item ∷ items rest

abbrev pub least_count : SchemaEntry → ℕ
least_count e = if e.min == 0 then e.n else 1

abbrev pub fail : {W : Type 0} → Output W → OutputRound W
fail o = result 0 (record o { state = output_error })

-- `output_element:`
abbrev pub at_element : Bool → OutputState
at_element simple = if simple then output_simple else output_complex

-- The next state where the driver wrote what it was given, and `goto full` where it did not.
abbrev pub unless_full : {W : Type 0} → Bool × Output W → (Output W → Output W) → OutputRound W
unless_full (true, o) f = go_on (f o)
unless_full (false, o) f = full o

module _ {W : Type 0} (schema : Schema) (fuel : ℕ) (memory : Memory) (d : OutputDriver W) where
  -- `output_next:`
  unfoldable pub step_entry : Output W → Output W
  step_entry o =
      let e = entry schema (o.se + 1) in
      record o {
        se = o.se + 1;
        code = if o.n == 0 then o.code else o.code + 1;
        n = if o.n == 0 then least_count e else o.n;
        state = if e.n == 0 then output_end else output_element;
      }

  -- `element_next:`, with the item that is popped and the rest of the stack.
  unfoldable pub pop_item : Output W → OutputItem → List OutputItem → Output W
  pop_item o t rest = step_entry (record o { se = t.item.se; base = t.item.base; stack = rest })

  -- `element_skip:`
  unfoldable pub element_skip : Output W → OutputItem → List OutputItem → OutputRound W
  element_skip o t rest =
      if ltb t.item.count (entry schema t.item.se).min
      then fail (record o { stack = t ∷ rest })
      else go_on (pop_item o t rest)

  unfoldable pub start_output : Output W → Pointer → ℕ → OutputRound W
  start_output o base type =
      let begun = record o {
        se = type;
        code = type;
        n = schema.length;
        base = base;
        state = output_element;
        first = true;
      } in
      if leb schema.length type then result 0 o else go_on begun

  unfoldable pub attribute_output : Output W → OutputRound W
  attribute_output o =
      let e = entry schema o.se in
      if not (output_count memory o.base e == 0)
      then go_on (record o { state = output_attribute })
      else if not (e.min == 0)
      then fail o
      else go_on (step_entry o)

  -- The first of the links of an unbounded element.
  unfoldable pub enter_links : Output W → StackItem → List Pointer → OutputRound W
  enter_links o t [] = element_skip o (record { item = t; all = 0 }) o.stack
  enter_links o t (q ∷ rest) = go_on (record o {
    stack = record { item = record t { queue = q ∷ rest }; all = 0 } ∷ o.stack;
    base = q;
    state = at_element (is_simple (entry schema t.se).type);
  })

  unfoldable pub pushed_output : Output W → Option (StackItem × List StackItem) → OutputRound W
  pushed_output o none = result 0 o
  pushed_output o (some (t, pushed)) =
      let e = entry schema o.se in
      let all = output_count memory o.base e in
      if e.unbounded
      then enter_links o t (as_links (memory.cell t.place))
      else if all == 0
      then element_skip o (record { item = t; all = 0 }) o.stack
      else go_on (record o {
        stack = record { item = t; all = all } ∷ o.stack;
        base = t.place;
        state = at_element (is_simple e.type);
      })

  unfoldable pub element_output : Output W → OutputRound W
  element_output o =
      let flagged = record o { flag = (entry schema o.se).bit } in
      if (entry schema o.se).attribute
      then attribute_output flagged
      else pushed_output flagged (push_element schema fuel (items o.stack) o.se o.base)

  unfoldable pub xsi_type_output : Output W → OutputRound W
  xsi_type_output o = unless_full (d.write_xsi_type o) λ q.
      let se = declared (memory.cell q.st) + 1 in
      record q { se = se; n = least_count (entry schema se); state = output_element }

  unfoldable pub next_of : List Pointer → List Pointer
  next_of [] = []
  next_of (_ ∷ rest) = rest

  -- The next link of an unbounded element, behind the one that was written.
  unfoldable pub next_link : Output W → OutputItem → List OutputItem → List Pointer → OutputRound W
  next_link o t rest [] = element_skip o (record t { item = record t.item { queue = [] } }) rest
  next_link o t rest (q ∷ links) = go_on (record o {
    stack = record t { item = record t.item { queue = q ∷ links } } ∷ rest;
    base = q;
    flag = o.flag + 1;
    state = at_element (is_simple (entry schema t.item.se).type);
  })

  -- The item whose element was written once more.
  unfoldable pub element_end : Output W → OutputItem → List OutputItem → OutputRound W
  element_end o t rest =
      let e = entry schema t.item.se in
      let count = t.item.count + 1 in
      let t' = record t { item = record t.item { count = count } } in
      let counted = record o { n = if ltb count e.min then 1 else e.n; stack = t' ∷ rest } in
      if count == e.max || count == o.limit
      then go_on (pop_item o t' rest)
      else if e.unbounded
      then next_link counted t' rest (next_of t.item.queue)
      else if ltb count t.all
      then go_on (record counted {
        base = shift o.base t.item.size;
        flag = o.flag + 1;
        state = at_element (is_simple e.type);
      })
      else element_skip counted t' rest

  unfoldable pub end_answer : Bool × Output W → OutputItem → List OutputItem → OutputRound W
  end_answer (true, o) t rest = element_end o t rest
  end_answer (false, o) t rest = full o

  unfoldable pub end_output : Output W → List OutputItem → OutputRound W
  end_output o [] =
      let closed = d.done (record o { writer = d.complete_byte o.writer }) in
      result (d.written closed.writer) (record closed { state = output_complete })
  end_output o (t ∷ rest) = end_answer (d.event o t.item.se ee_event) t rest

  -- The element definition of a complex element, or of the type that is substituted for it.
  unfoldable pub substituted : Output W → Value → OutputRound W
  substituted o (substitution type (some object)) = go_on (record o {
    st = o.base;
    base = object;
    state = if type == 0 then output_element else output_xsi_type;
  })
  substituted o _ = fail (record o { st = o.base })

  unfoldable pub complex_answer : Bool × Output W → SchemaEntry → OutputRound W
  complex_answer (true, o) e =
      let inner = record o { se = e.type + 1; n = least_count (entry schema (e.type + 1)) } in
      if e.st
      then substituted inner (memory.cell o.base)
      else go_on (record inner { state = output_element })
  complex_answer (false, o) e = full o

  unfoldable pub complex_output : Output W → List OutputItem → OutputRound W
  complex_output o [] = fail o
  complex_output o (t ∷ rest) =
      complex_answer (d.event o t.item.se se_complex) (entry schema t.item.se)

  unfoldable pub output_round : OutputState → Output W → Pointer → ℕ → OutputRound W
  output_round output_start o base type = start_output o base type
  output_round output_element o base type = element_output o
  output_round output_xsi_type o base type = xsi_type_output o
  output_round output_attribute o base type =
      unless_full (d.event o o.se at_event) λ q. record q { state = output_attr_value }
  output_round output_attr_value o base type =
      unless_full (d.attr_value o (shift o.base (entry schema o.se).offset)) step_entry
  output_round output_simple o base type =
      unless_full (d.event o o.se se_simple) λ q. record q { state = output_value }
  output_round output_value o base type =
      unless_full (d.value o o.base) λ q. record q { state = output_end }
  output_round output_end o base type = end_output o o.stack
  output_round output_complex o base type = complex_output o o.stack
  output_round output_complete o base type =
      result 0 (record o { writer = d.rewind o.writer; state = output_start })
  output_round output_error o base type = result 0 o

  -- The loop; `none` is fuel used up. The result is the number of bytes in the buffer.
  unfoldable pub output_doc : ℕ → Output W → Pointer → ℕ → Option (ℕ × Output W)
  output_doc zero o base type = none
  output_doc (suc rounds) o base type = elim (output_round o.state o base type) [
    | go_on q ↦ output_doc rounds q base type
    | full q ↦ some (d.written q.writer, record q { writer = d.rewind q.writer })
    | result n q ↦ some (n, q)
  ]
