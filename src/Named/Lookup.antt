-- ===== src/Named/Lookup.antt =====
-- What is found by name in a list of named objects.
use epri_client.Prelude.{
  ℕ, ◌≡◌, ◌≢◌, refl, false, Option, none, some, List, ◌∷◌, Bool-cases, inl, inr,
}
use epri_client.Util.{Bytes, streq}
use epri_client.StringTable.Lookup.{streq_same, streq_sound}
use epri_client.Named.{Named, find_by_name, found_or_new, get_by_name}

-- What `get_by_name` promises for a list.
abbrev pub Got : List Named → Bytes → Named × List Named → Type 0
Got l name (n, l') =
    (find_by_name l' name ≡ some n)
    × ((other : Bytes) → name ≢ other → find_by_name l' other ≡ find_by_name l other)
    × ((fresh : ℕ) → get_by_name l' name fresh ≡ (n, l'))

other_name : (s t : Bytes) → s ≢ t → streq s t ≡ false
other_name s t ne = elim (Bool-cases (streq s t)) [
  | inl e ↦ absurd (ne (streq_sound s t e))
  | inr e ↦ e
]

found-Got :
    (l : List Named) (name : Bytes) (fresh : ℕ) (o : Option Named)
    → find_by_name l name ≡ o
    → Got l name (found_or_new l name fresh o)
unfolding get_by_name find_by_name
found-Got l name fresh (some n) e = (e, (λ other ne. refl), λ again. rw e refl)
found-Got l name fresh none e =
    let n : Named = record { name = some name; object = fresh } in
    let here : find_by_name (n ∷ l) name ≡ some n = rw (streq_same name) refl in
    (here, (λ other ne. rw (other_name name other ne) refl), λ again. rw here refl)

-- `get_by_name` gives an object that `find_by_name` then finds under the name; under every other name
-- the same is found as before, and asking for the name again changes nothing.
pub get_by_name-Got :
    (l : List Named) (name : Bytes) (fresh : ℕ) → Got l name (get_by_name l name fresh)
unfolding get_by_name
get_by_name-Got l name fresh = found-Got l name fresh (find_by_name l name) refl
