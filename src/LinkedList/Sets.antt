-- ===== src/LinkedList/Sets.antt =====
-- The lists of data pointers as sets, and what `list_dup` copies.
use epri_client.Prelude.{
  ℕ, ◌≡◌, refl, arith, false, not, ◌&&◌, ◌||◌, List, [], ◌∷◌, ◌==◌, inl, inr, Bool-cases,
}
use epri_client.LinkedList.{
  find_by_data, insert_unique, list_delete, list_subtract, list_intersect, list_union, list_dup,
  list_dup_loop,
}

-- No data pointer stands twice in the list.
abbrev pub Distinct : List ℕ → Type 0
Distinct [] = Unit
Distinct (x ∷ xs) = (find_by_data xs x ≡ false) × Distinct xs

find-insert_unique :
    (l : List ℕ) (x k : ℕ) → find_by_data (insert_unique l x) k ≡ (find_by_data l k || x == k)
unfolding insert_unique
find-insert_unique l x k = elim (Bool-cases (find_by_data l x)) [
  | inl old ↦ ground arith
  | inr new ↦ ground arith
]

insert_unique-Distinct : (l : List ℕ) (x : ℕ) → Distinct l → Distinct (insert_unique l x)
unfolding insert_unique
insert_unique-Distinct l x d = ground arith

-- The union of a list without repetitions and any list has none either, and holds the items of
-- both.
pub list_union_lem :
    (la lb : List ℕ)
    → Distinct la
    → Distinct (list_union la lb)
      × ((k : ℕ) → find_by_data (list_union la lb) k ≡ (find_by_data la k || find_by_data lb k))
unfolding list_union find_by_data
list_union_lem la [] d = (d, λ k. ground arith)
list_union_lem la (x ∷ lb) d =
    let (d', m) = list_union_lem (insert_unique la x) lb (insert_unique-Distinct la x d) in
    (d', λ k. ground (arith, m k, find-insert_unique la x k))

-- The intersection holds what both lists hold.
find-list_intersect :
    (la lb : List ℕ) (k : ℕ)
    → find_by_data (list_intersect la lb) k ≡ (find_by_data la k && find_by_data lb k)
unfolding list_intersect find_by_data
find-list_intersect [] lb k = refl
find-list_intersect (x ∷ la) lb k = ground (arith, find-list_intersect la lb k)

-- Deleting from a list without repetitions takes out exactly the item.
list_delete_lem :
    (l : List ℕ) (x : ℕ)
    → Distinct l
    → (k : ℕ) → find_by_data (list_delete l x) k ≡ (find_by_data l k && not (x == k))
unfolding list_delete find_by_data
list_delete_lem [] x d k = refl
list_delete_lem (y ∷ l) x d k = ground (arith, list_delete_lem l x d.1 k)

list_delete-Distinct : (l : List ℕ) (x : ℕ) → Distinct l → Distinct (list_delete l x)
unfolding list_delete find_by_data
list_delete-Distinct [] x d = d
list_delete-Distinct (y ∷ l) x d =
    ground (arith, list_delete_lem l x d.1 y, list_delete-Distinct l x d.1)

-- Of a list without repetitions, `list_subtract` leaves the items that the other list does not
-- hold, and again without repetitions.
list_subtract_lem :
    (la lb : List ℕ)
    → Distinct la
    → Distinct (list_subtract la lb)
      × ((k : ℕ)
          → find_by_data (list_subtract la lb) k ≡ (find_by_data la k && not (find_by_data lb k)))
unfolding list_subtract find_by_data
list_subtract_lem la [] d = (d, λ k. ground arith)
list_subtract_lem la (x ∷ lb) d =
    let (d', m) = list_subtract_lem (list_delete la x) lb (list_delete-Distinct la x d) in
    (d', λ k. ground (arith, m k, list_delete_lem la x d k))

-- The last item of a list that is not empty.
abbrev pub last : ℕ → List ℕ → ℕ
last x [] = x
last x (y ∷ rest) = last y rest

list_dup_loop-last :
    (head x : ℕ) (rest : List ℕ) → list_dup_loop head (x ∷ []) rest ≡ head ∷ last x rest ∷ []
unfolding list_dup_loop
list_dup_loop-last head x [] = refl
list_dup_loop-last head x (y ∷ rest) = list_dup_loop-last head y rest

-- Of a list of two or more items `list_dup` copies the first and the last item only.
list_dup-last : (x y : ℕ) (rest : List ℕ) → list_dup (x ∷ y ∷ rest) ≡ x ∷ last y rest ∷ []
unfolding list_dup list_dup_loop
list_dup-last x y rest = list_dup_loop-last x y rest
