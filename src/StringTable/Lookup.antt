-- ===== src/StringTable/Lookup.antt =====
-- What the string tables find again.
use epri_client.Prelude.{
  ℕ, zero, suc, ◌≡◌, refl, sym, ap, arith, true, none, some, List, [], ◌∷◌, ◌++◌, length, get_elem?,
  ◌==◌, Bool-cases, Option-cases, inl, inr,
}
use epri_client.Util.{Bytes, streq}
use epri_client.StringTable.{StringTable, find_string, append_string}

pub streq_same : (s : Bytes) → streq s s ≡ true
unfolding streq
streq_same [] = refl
streq_same (c ∷ s) = let e : (c == c) ≡ true = ground arith in rw (e, streq_same s) refl

pub streq_sound : (s t : Bytes) → streq s t ≡ true → s ≡ t
unfolding streq
streq_sound [] [] h = refl
streq_sound [] (y ∷ t) h = cc
streq_sound (x ∷ s) [] h = cc
streq_sound (x ∷ s) (y ∷ t) h = ground (arith, streq_sound s t)

-- The compact id of a string in a table stands for this string.
get-find_string :
    (strings : List Bytes) (s : Bytes) (i : ℕ)
    → find_string strings s ≡ some i
    → get_elem? strings i ≡ some s
unfolding find_string
get-find_string [] s i h = cc
get-find_string (t ∷ rest) s zero h = elim (Bool-cases (streq s t)) [
  | inl same ↦ ap some (sym (streq_sound s t same))
  | inr other ↦ ground arith
]
get-find_string (t ∷ rest) s (suc i) h = ground (arith, get-find_string rest s i)

find-append :
    (strings : List Bytes) (s : Bytes)
    → find_string strings s ≡ none
    → find_string (strings ++ s ∷ []) s ≡ some (length strings)
unfolding find_string
find-append [] s h = rw (streq_same s) refl
find-append (t ∷ rest) s h = elim (Bool-cases (streq s t)) [
  | inl same ↦ ground arith
  | inr other ↦ elim (Option-cases (find_string rest s)) [
    | inl absent ↦ rw (other, find-append rest s absent) refl
    | inr found ↦ ground arith
  ]
]

-- A string that is new to a table is found there under the next compact id once it is added.
find_string-append_string :
    (t : StringTable) (s : Bytes)
    → find_string t.strings s ≡ none
    → find_string (append_string t s).strings s ≡ some (length t.strings)
unfolding append_string
find_string-append_string t s h = find-append t.strings s h
