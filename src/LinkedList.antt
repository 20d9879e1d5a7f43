-- ===== src/LinkedList.antt =====
-- list.c and list_util.c: linked lists.
-- A list is the sequence of its links from the head to NULL. Where a function looks at the data
-- pointers, the sequence holds these; where it relinks the links themselves, it holds the links.
-- A loop over the links is a recursion on the sequence. A comparison function is a parameter whose
-- result is the sign of the C result: `lt` below 0, `eq` for 0, `gt` above 0.
use Prim.Native.Nat.{Ordering}
use epri_client.Prelude.{
  ℕ, zero, suc, ◌+◌, Bool, true, false, not, Option, none, some, List, [], ◌∷◌, ◌++◌, ◌==◌, leb,
  if◌then◌else◌, length, is_some,
}
pub mod Sort
pub mod Sets

abbrev pub is_lt : Ordering → Bool
is_lt Ordering.lt = true
is_lt _ = false

abbrev pub is_gt : Ordering → Bool
is_gt Ordering.gt = true
is_gt _ = false

module _ {ℓ} {A : Type ℓ} where
  unfoldable pub list_insert : List A → A → List A
  list_insert l item = item ∷ l

  unfoldable pub list_length : List A → ℕ
  list_length l = length_loop 0 l
    where
      length_loop : ℕ → List A → ℕ
      length_loop n [] = n
      length_loop n (x ∷ rest) = length_loop (n + 1) rest

  -- The loop of `list_dup`, once `head` is set: `prev` stays at the first link, so each new link
  -- takes the place of the one before it.
  pub list_dup_loop : A → List A → List A → List A
  list_dup_loop head tail [] = head ∷ tail
  list_dup_loop head tail (x ∷ rest) = list_dup_loop head (x ∷ []) rest

  pub list_dup : List A → List A
  list_dup [] = []
  list_dup (x ∷ rest) = list_dup_loop x [] rest

  pub list_cat : List A → List A → List A
  list_cat [] lb = lb
  list_cat (x ∷ la) lb = x ∷ list_cat la lb

  pub list_reverse_loop : List A → List A → List A
  list_reverse_loop rev [] = rev
  list_reverse_loop rev (x ∷ rest) = list_reverse_loop (x ∷ rev) rest

  pub list_reverse : List A → List A
  list_reverse l = list_reverse_loop [] l

module _ {ℓ} {A : Type ℓ} (compare : A → A → Ordering) where
  -- The item goes in front of the first link that it does not compare above.
  unfoldable pub insert_sorted : List A → A → List A
  insert_sorted [] item = item ∷ []
  insert_sorted (x ∷ rest) item =
      let more = insert_sorted rest item in
      if is_gt (compare item x) then x ∷ more else item ∷ x ∷ rest

  -- The loop of `partition`, with the lists `a` and `*b` built so far.
  unfoldable pub partition : A → List A → List A → List A → List A × List A
  partition x [] a b = (a, b)
  partition x (y ∷ rest) a b =
      let below = is_lt (compare x y) in
      partition x rest (if below then a else y ∷ a) (if below then y ∷ b else b)

  -- On fuel; the length of the list is enough.
  unfoldable pub quick_sort_fuel : ℕ → List A → Option (List A)
  quick_sort_fuel fuel [] = some []
  quick_sort_fuel zero (x ∷ rest) = none
  quick_sort_fuel (suc fuel) (x ∷ []) = some (x ∷ [])
  quick_sort_fuel (suc fuel) (x ∷ y ∷ rest) =
      let (a, b) = partition x (y ∷ rest) [] [] in
      elim (quick_sort_fuel fuel a) [
        | none ↦ none
        | some a' ↦ elim (quick_sort_fuel fuel b) [
          | none ↦ none
          | some b' ↦ some (list_cat a' (x ∷ b'))
        ]
      ]

  unfoldable pub quick_sort : List A → Option (List A)
  unfolding quick_sort_fuel
  quick_sort l = quick_sort_fuel (length l) l

-- The functions on data pointers.
unfoldable pub find_by_data : List ℕ → ℕ → Bool
find_by_data [] item = false
find_by_data (x ∷ rest) item =
    let found = find_by_data rest item in if x == item then true else found

unfoldable pub insert_unique : List ℕ → ℕ → List ℕ
unfolding find_by_data list_insert
insert_unique l item = if find_by_data l item then l else list_insert l item

unfoldable pub list_delete : List ℕ → ℕ → List ℕ
list_delete [] item = []
list_delete (x ∷ rest) item =
    let more = list_delete rest item in if x == item then rest else x ∷ more

unfoldable pub list_subtract : List ℕ → List ℕ → List ℕ
list_subtract la [] = la
list_subtract la (x ∷ lb) = list_subtract (list_delete la x) lb

unfoldable pub list_intersect : List ℕ → List ℕ → List ℕ
list_intersect [] lb = []
list_intersect (x ∷ la) lb =
    let more = list_intersect la lb in if find_by_data lb x then x ∷ more else more

unfoldable pub list_union : List ℕ → List ℕ → List ℕ
list_union la [] = la
list_union la (x ∷ lb) = list_union (insert_unique la x) lb

-- Unlinks one link.
unfoldable pub list_remove : List ℕ → ℕ → List ℕ
list_remove [] link = []
list_remove (x ∷ rest) link =
    let more = list_remove rest link in if x == link then rest else x ∷ more
