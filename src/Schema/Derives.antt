-- ===== src/Schema/Derives.antt =====
-- `type_is_a` decides the derivation of types.
use mathlib.Core.Path.{subst}
use epri_client.Prelude.{
  ℕ, zero, suc, ◌<◌, ◌≡◌, ◌≢◌, refl, arith, Bool, true, false, some, ltb, ◌==◌, if◌then◌else◌,
  Bool-cases, inl, inr,
}
use epri_client.Schema.{Schema, entry, is_simple, is_a_loop, se_is_a, type_is_a}

-- The types that a type is derived from, from the index of its base on: `Derives schema i base` if the
-- chain of bases that begins with `i` reaches `base` before its end.
pub data Derives (schema : Schema) : ℕ → ℕ → Type 0 where
  here : {i : ℕ} → i ≢ 0 → Derives schema i i
  there : {i base : ℕ} → i ≢ 0 → Derives schema (entry schema i).type base → Derives schema i base

-- The chains of bases end: the rank falls from each type to the base of it.
abbrev pub IsRanked : Schema → (ℕ → ℕ) → Type 0
IsRanked schema rank = (i : ℕ) → i ≢ 0 → rank (entry schema i).type < rank i

-- The answer is yes exactly for a type that is derived.
abbrev pub Answers : Schema → ℕ → ℕ → Bool → Type 0
Answers schema i base answer =
    (answer ≡ true → Derives schema i base) × (Derives schema i base → answer ≡ true)

no_base : (schema : Schema) (base : ℕ) {i : ℕ} → i ≡ 0 → ¬ Derives schema i base
no_base schema base e (here ne) = ne e
no_base schema base e (there ne d) = ne e

other_base :
    (schema : Schema) {i base : ℕ}
    → i ≢ base
    → Derives schema i base
    → Derives schema (entry schema i).type base
other_base schema ne (here h) = absurd (ne refl)
other_base schema ne (there h d) = d

pub is_a_loop-Answers :
    (fuel : ℕ) (schema : Schema) (rank : ℕ → ℕ) (base i : ℕ)
    → IsRanked schema rank
    → rank i < fuel
    → (answer : Bool) × (is_a_loop fuel schema base i ≡ some answer) × Answers schema i base answer
unfolding is_a_loop
is_a_loop-Answers zero schema rank base i r h = absurd (omega arith)
is_a_loop-Answers (suc fuel) schema rank base i r h = elim (Bool-cases (i == 0)) [
  | inl e ↦
      let none_left : i ≡ 0 = ground arith in
      (false, rw e refl, ((λ f. cc), λ d. absurd (no_base schema base none_left d)))
  | inr e ↦
      let ne : i ≢ 0 = ground arith in
      elim (Bool-cases (i == base)) [
        | inl same ↦
            let eq : i ≡ base = ground arith in
            (true, rw (e, same) refl, ((λ t. subst (Derives schema i) eq (here ne)), λ d. refl))
        | inr other ↦
            let differ : i ≢ base = ground arith in
            let (answer, run, (to, from)) =
              is_a_loop-Answers fuel schema rank base (entry schema i).type r
                (omega (arith, r i ne)) in
            (
              answer,
              rw (e, other) run,
              ((λ t. there ne (to t)), λ d. from (other_base schema differ d)),
            )
      ]
]

-- `se_is_a` compares with the type of a global element, and with any other base itself.
abbrev pub base_type : Schema → ℕ → ℕ
base_type schema base = if ltb base schema.length then (entry schema base).type else base

-- On a schema whose chains of bases end, `type_is_a` ends, and answers yes exactly for a complex type
-- with the base, or the type of the base where the base is a global element, among its bases.
pub type_is_a-Answers :
    (schema : Schema) (rank : ℕ → ℕ) (fuel type base : ℕ)
    → IsRanked schema rank
    → is_simple (entry schema type).type ≡ false
    → rank (entry schema type).type < fuel
    → (answer : Bool) × (type_is_a fuel schema type base ≡ some answer)
      × Answers schema (entry schema type).type (base_type schema base) answer
unfolding type_is_a se_is_a
type_is_a-Answers schema rank fuel type base r complex h =
    rw complex
      (is_a_loop-Answers fuel schema rank (base_type schema base) (entry schema type).type r h)
