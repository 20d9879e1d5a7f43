-- ===== src/Tests/Lists.antt =====
-- Runs of list.c, list_util.c and string_table.c.
use Prim.Native.Nat.{compare}
use mathlib.Core.List.{Perm}
use epri_client.Prelude.{ℕ, ◌≡◌, refl, arith, some, List, [], ◌∷◌, ◌||◌}
use epri_client.LinkedList.{quick_sort, list_union, find_by_data}
use epri_client.LinkedList.Sort.{Orders, IsSorted, quick_sort-IsSorted}
use epri_client.LinkedList.Sets.{Distinct, list_union_lem}

numbers-Orders : Orders compare
numbers-Orders = record { flip = λ x y h. ground arith; trans = λ x y z h k. ground arith }

quick_sort-IsSorted_example :
    (r : List ℕ) × (quick_sort compare (3 ∷ 1 ∷ 2 ∷ []) ≡ some r)
    × IsSorted compare r
    × Perm r (3 ∷ 1 ∷ 2 ∷ [])
quick_sort-IsSorted_example = quick_sort-IsSorted compare numbers-Orders (3 ∷ 1 ∷ 2 ∷ [])

one_two-Distinct : Distinct (1 ∷ 2 ∷ [])
unfolding find_by_data
one_two-Distinct = (refl, (refl, tt))

list_union_lem_example :
    Distinct (list_union (1 ∷ 2 ∷ []) (2 ∷ 3 ∷ []))
    × ((k : ℕ)
        → find_by_data (list_union (1 ∷ 2 ∷ []) (2 ∷ 3 ∷ [])) k
          ≡ (find_by_data (1 ∷ 2 ∷ []) k || find_by_data (2 ∷ 3 ∷ []) k))
list_union_lem_example = list_union_lem (1 ∷ 2 ∷ []) (2 ∷ 3 ∷ []) one_two-Distinct
