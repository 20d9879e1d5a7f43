-- ===== src/Parser/Stack.antt =====
-- The stack of the parser: it holds at most `max_stack` elements, and the states of a sequence find one.
use epri_client.Prelude.{
  ℕ, ◌≤◌, ◌≡◌, refl, ◌&&◌, not, arith, Bool, true, false, Option, none, some, List, [], ◌∷◌, ◌==◌,
  Bool-cases, inl, inr, length, ap,
}
use epri_client.Parser.{
  parse_start, parse_element, parse_next, parse_attribute, parse_xsi_type, parse_value, parse_end,
  parse_invalid, past_invalid, no_answer, declared_type, xsi_type, Pointer, ParserState,
  parse_sequence, sequence_end, StackItem, max_stack, Parser, XsiType, ParserDriver, Round, again,
  returned, push_element, set_top, count_element, parse_round, value_round, next_round,
  pushed_element, enter_element, unless_returned, parse_value, start_round, attr_value_round, shift,
  add_element, is_simple, parse_end, entry, parse_next, end_round, element_round, attribute_round,
  xsi_type_answer, repeat_element, substitute, xsi_type, ltb, sequence_answer, sequence_end_round,
  is_derived, push_answer, sequence_round, declared, is_sequence, parse_invalid, past_invalid,
  is_pointer, state_round,
}
use epri_client.Schema.{Schema}

abbrev pub in_sequence : ParserState → Bool
in_sequence parse_sequence = true
in_sequence sequence_end = true
in_sequence _ = false

abbrev pub occupied : List StackItem → Bool
occupied [] = false
occupied (_ ∷ _) = true

pub record IsStack (state : ParserState) (stack : List StackItem) : Type 0 where
  pub bound : length stack ≤ max_stack
  pub top : in_sequence state ≡ true → occupied stack ≡ true

abbrev pub IsParser : {R : Type 0} → Parser R → Type 0
IsParser p = IsStack p.state p.stack

abbrev pub Keeps : {A R : Type 0} → Parser R → A × Parser R → Type 0
Keeps p (_, q) = (q.stack ≡ p.stack) × (in_sequence q.state ≡ true → in_sequence p.state ≡ true)

-- What `parse_doc` relies on in a driver: no function of it changes the stack, and none but
-- `parse_sequence` leaves the parser in a state of a sequence where it was in none.
pub record IsDriver {R : Type 0} (d : ParserDriver R) : Type 0 where
  pub start_keeps : (p : Parser R) → Keeps p (d.start p)
  pub next_keeps : (p : Parser R) → Keeps p (d.next p)
  pub xsi_type_keeps : (p : Parser R) → Keeps p (d.read_xsi_type p)
  pub end_keeps : (p : Parser R) (se : ℕ) → Keeps p (d.end p se)
  pub sequence_keeps :
      (p : Parser R) (t : StackItem) (rest : List StackItem)
      → p.stack ≡ t ∷ rest
      → (d.sequence p t).1.stack ≡ p.stack
  pub attr_value_keeps : (p : Parser R) (at : Pointer) → Keeps p (d.attr_value p at)
  pub value_keeps : (p : Parser R) (at : Pointer) → Keeps p (d.value p at)
  pub done_keeps : (p : Parser R) → (d.done p).stack ≡ p.stack

-- The parser of a round keeps its stack.
abbrev pub RoundKeeps : {R : Type 0} → Round R → Type 0
RoundKeeps (again q) = IsParser q
RoundKeeps (returned obj q) = IsParser q

not_in_sequence :
    {state : ParserState} {stack : List StackItem}
    → length stack ≤ max_stack
    → in_sequence state ≡ false
    → IsStack state stack
not_in_sequence h e = record { bound = h; top = λ t. cc }

after :
    {A R : Type 0} (p : Parser R) (a : A) (q : Parser R) → IsParser p → Keeps p (a, q) → IsParser q
after p a q h (same, seq) = record { bound = rw same h.bound; top = λ t. rw same (h.top (seq t)) }

length-set_top : (t : StackItem) (stack : List StackItem) → length (set_top stack t) ≡ length stack
length-set_top t [] = refl
length-set_top t (x ∷ rest) = refl

length-count_element : (stack : List StackItem) → length (count_element stack) ≡ length stack
length-count_element [] = refl
length-count_element (x ∷ rest) = refl

occupied-count_element : (stack : List StackItem) → occupied (count_element stack) ≡ occupied stack
occupied-count_element [] = refl
occupied-count_element (x ∷ rest) = refl

unless_returned_lem :
    {R : Type 0} (x : Bool × Parser R) (f : Parser R → Parser R)
    → IsParser x.1
    → IsParser (f x.1)
    → RoundKeeps (unless_returned x f)
unless_returned_lem (true, q) f failed done = done
unless_returned_lem (false, q) f failed done = failed

moved :
    {A R : Type 0} (p : Parser R) (x : A × Parser R) (state : ParserState)
    → length p.stack ≤ max_stack
    → Keeps p x
    → in_sequence state ≡ false
    → IsStack state x.1.stack
moved p (a, q) state h (same, seq) e = not_in_sequence (rw same h) e

kept : {A R : Type 0} (p : Parser R) (x : A × Parser R) → IsParser p → Keeps p x → IsParser x.1
kept p (a, q) h k = after p a q h k

module _ {R : Type 0} (schema : Schema) (fuel : ℕ) (d : ParserDriver R) (law : IsDriver d) where
  start_round-Keeps : (p : Parser R) → IsParser p → RoundKeeps (start_round schema fuel d p)
  unfolding start_round
  start_round-Keeps p h =
      unless_returned_lem (d.start p) _ (kept p (d.start p) h (law.start_keeps p))
        (not_in_sequence (omega arith) refl)

  next_round-Keeps : (p : Parser R) → IsParser p → RoundKeeps (next_round schema fuel d p)
  unfolding next_round
  next_round-Keeps p h =
      let k = kept p (d.next p) h (law.next_keeps p) in unless_returned_lem (d.next p) _ k k

  attr_value_round-Keeps :
      (p : Parser R) → IsParser p → RoundKeeps (attr_value_round schema fuel d p)
  unfolding attr_value_round
  attr_value_round-Keeps p h =
      let at = shift p.base (entry schema p.se).offset in
      let x = d.attr_value p at in
      let k = law.attr_value_keeps p at in
      unless_returned_lem x _ (kept p x h k) (moved p x parse_next h.bound k refl)

  value_round-Keeps :
      (p : Parser R) → length p.stack ≤ max_stack → RoundKeeps (value_round schema fuel d p)
  unfolding value_round
  value_round-Keeps p h =
      let q = record p { state = parse_value } in
      let x = d.value q p.base in
      let k = law.value_keeps q p.base in
      unless_returned_lem x _ (kept q x (not_in_sequence h refl) k) (moved q x parse_end h k refl)

  enter_element-Keeps :
      (p : Parser R) (se : ℕ)
      → length p.stack ≤ max_stack
      → RoundKeeps (enter_element schema fuel d p se)
  unfolding enter_element
  enter_element-Keeps p se h = elim (Bool-cases (is_simple (entry schema se).type)) [
    | inl e ↦ rw e (value_round-Keeps p h)
    | inr e ↦ elim (Bool-cases (entry schema se).st) [
      | inl s ↦ rw (e, s) (not_in_sequence h refl)
      | inr s ↦ rw (e, s) (next_round-Keeps _ (not_in_sequence h refl))
    ]
  ]

  pushed_element-Keeps :
      (p : Parser R) (t : StackItem)
      → length p.stack ≤ max_stack
      → RoundKeeps (pushed_element schema fuel d p t)
  unfolding pushed_element add_element
  pushed_element-Keeps p t h = elim (Bool-cases (entry schema p.se).unbounded) [
    | inl e ↦ rw e (enter_element-Keeps _ p.se (rw (length-set_top _ p.stack) h))
    | inr e ↦ rw e (enter_element-Keeps _ p.se (rw (length-set_top _ p.stack) h))
  ]

  push_element-bound :
      (stack stack' : List StackItem) (se : ℕ) (base : Pointer) (t : StackItem)
      → length stack ≤ max_stack
      → push_element schema fuel stack se base ≡ some (t, stack')
      → length stack' ≤ max_stack
  unfolding push_element
  push_element-bound stack stack' se base t h e = ground arith

  attribute_round-Keeps :
      (p : Parser R) → length p.stack ≤ max_stack → RoundKeeps (attribute_round schema fuel d p)
  unfolding attribute_round
  attribute_round-Keeps p h =
      elim (Bool-cases
        ((entry schema p.se).min == 0 && not (is_pointer (entry schema p.se).type))) [
          | inl e ↦ rw e (not_in_sequence h refl)
          | inr e ↦ rw e (not_in_sequence h refl)
        ]

  push_answer-Keeps :
      (p : Parser R) (answer : Option (StackItem × List StackItem))
      → length p.stack ≤ max_stack
      → ((t : StackItem) (stack : List StackItem)
          → answer ≡ some (t, stack)
          → length stack ≤ max_stack)
      → RoundKeeps (push_answer schema fuel d p answer)
  unfolding push_answer
  push_answer-Keeps p none h bound = not_in_sequence h refl
  push_answer-Keeps p (some (t, stack)) h bound = pushed_element-Keeps _ t (bound t stack refl)

  element_round-Keeps :
      (p : Parser R) → length p.stack ≤ max_stack → RoundKeeps (element_round schema fuel d p)
  unfolding element_round
  element_round-Keeps p h = elim (Bool-cases (entry schema p.se).attribute) [
    | inl e ↦ rw e (attribute_round-Keeps _ h)
    | inr e ↦ rw e (
        push_answer-Keeps _ (push_element schema fuel p.stack p.se p.base) h
          λ t stack. push_element-bound p.stack stack p.se p.base t h)
  ]

  xsi_type_answer-Keeps :
      (p : Parser R) (x : XsiType × Parser R)
      → IsParser p
      → Keeps p x
      → RoundKeeps (xsi_type_answer schema fuel d x)
  unfolding xsi_type_answer substitute
  xsi_type_answer-Keeps p (no_answer, q) h k = kept p (no_answer, q) h k
  xsi_type_answer-Keeps p (declared_type, q) h k =
      moved p (declared_type, q) parse_next h.bound k refl
  xsi_type_answer-Keeps p (xsi_type type, q) h k =
      let derived = is_derived schema fuel d type (declared (q.memory.cell q.st)) in
      elim (Bool-cases derived) [
        | inl e ↦ rw e (moved p (xsi_type type, q) parse_next h.bound k refl)
        | inr e ↦ rw e (moved p (xsi_type type, q) parse_invalid h.bound k refl)
      ]

  end_round-Keeps :
      (p : Parser R) (stack : List StackItem)
      → p.stack ≡ stack
      → IsParser p
      → RoundKeeps (end_round schema fuel d p stack)
  unfolding end_round
  end_round-Keeps p [] e h = not_in_sequence (rw (law.done_keeps p) h.bound) refl
  end_round-Keeps p (t ∷ rest) e h =
      let x = d.end p t.se in
      let k = law.end_keeps p t.se in
      unless_returned_lem x _ (kept p x h k) (record {
        bound = rw (length-count_element x.1.stack, k.0) h.bound;
        top = λ s. rw (occupied-count_element x.1.stack, k.0, e) refl;
      })

  repeat_element-Keeps :
      (p : Parser R) (t : StackItem)
      → length p.stack ≤ max_stack
      → RoundKeeps (repeat_element schema fuel d p t)
  unfolding repeat_element add_element
  repeat_element-Keeps p t h = elim (Bool-cases (entry schema t.se).unbounded) [
    | inl e ↦ rw e (enter_element-Keeps _ t.se (rw (length-set_top _ p.stack) h))
    | inr e ↦ elim (Bool-cases (ltb t.count (entry schema t.se).max)) [
      | inl more ↦ rw (e, more) (enter_element-Keeps _ t.se h)
      | inr more ↦ rw (e, more) (not_in_sequence h refl)
    ]
  ]

  sequence_answer-Keeps :
      (x : Bool × Parser R) (t : StackItem)
      → IsParser x.1
      → RoundKeeps (sequence_answer schema fuel d x t)
  unfolding sequence_answer
  sequence_answer-Keeps (true, q) t h = repeat_element-Keeps q t h.bound
  sequence_answer-Keeps (false, q) t h = elim (Bool-cases (is_sequence q.state)) [
    | inl e ↦ rw e h
    | inr e ↦ rw e h
  ]

  sequence_round-Keeps :
      (p : Parser R) (stack : List StackItem)
      → p.stack ≡ stack
      → IsParser p
      → RoundKeeps (sequence_round schema fuel d p stack)
  unfolding sequence_round
  sequence_round-Keeps p [] e h = not_in_sequence h.bound refl
  sequence_round-Keeps p (t ∷ rest) e h =
      let same = law.sequence_keeps p t rest e in
      sequence_answer-Keeps (d.sequence p t) t
        (record { bound = rw same h.bound; top = λ s. rw (same, e) refl })

  sequence_end_round-Keeps :
      (p : Parser R) (stack : List StackItem)
      → p.stack ≡ stack
      → IsParser p
      → RoundKeeps (sequence_end_round schema fuel d p stack)
  unfolding sequence_end_round
  sequence_end_round-Keeps p [] e h = not_in_sequence h.bound refl
  sequence_end_round-Keeps p (t ∷ rest) e h =
      not_in_sequence (omega (arith, h.bound, ap (λ (l : List StackItem). length l) e)) refl

  state_round-Keeps :
      (state : ParserState) (p : Parser R)
      → p.state ≡ state
      → IsParser p
      → RoundKeeps (state_round schema fuel d state p)
  unfolding state_round
  state_round-Keeps parse_start p e h = start_round-Keeps p h
  state_round-Keeps parse_element p e h = element_round-Keeps p h.bound
  state_round-Keeps parse_next p e h = next_round-Keeps p h
  state_round-Keeps parse_attribute p e h = attr_value_round-Keeps p h
  state_round-Keeps parse_xsi_type p e h =
      xsi_type_answer-Keeps p (d.read_xsi_type p) h (law.xsi_type_keeps p)
  state_round-Keeps parse_value p e h = value_round-Keeps p h.bound
  state_round-Keeps parse_end p e h = end_round-Keeps p p.stack refl h
  state_round-Keeps parse_sequence p e h = sequence_round-Keeps p p.stack refl h
  state_round-Keeps sequence_end p e h = sequence_end_round-Keeps p p.stack refl h
  state_round-Keeps parse_invalid p e h = h
  state_round-Keeps past_invalid p e h = h

  -- Every round of `parse_doc`, on a driver that follows the laws, whatever state it starts in, leaves
  -- at most `max_stack` elements on the stack, and at least one in a state of a sequence.
  pub parse_round-IsParser : (p : Parser R) → IsParser p → RoundKeeps (parse_round schema fuel d p)
  unfolding parse_round
  parse_round-IsParser p h = state_round-Keeps p.state p refl h
