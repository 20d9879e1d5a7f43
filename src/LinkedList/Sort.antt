-- ===== src/LinkedList/Sort.antt =====
-- `insert_sorted` keeps a list sorted, and `quick_sort` sorts, for any comparison that orders.
use Prim.Native.Nat.{Ordering}
use mathlib.Core.List.{Perm, perm_middle}
use mathlib.Core.List.Perm
use mathlib.Core.Path.{subst}
use native.Mathlib.Nat.{le_refl}
use epri_client.Prelude.{
  ℕ, zero, suc, ◌+◌, ◌≤◌, ◌≡◌, refl, sym, inl, inr, arith, true, false, some, List, [], ◌∷◌, ◌++◌,
  All, length, Bool-cases, Option-cases, append_assoc, append-nil,
}
use epri_client.LinkedList.{
  is_lt, is_gt, insert_sorted, partition, quick_sort_fuel, quick_sort, list_cat,
}

-- The sign of the comparison orders the items.
pub record Orders {ℓ} {A : Type ℓ} (compare : A → A → Ordering) : Type ℓ where
  pub flip : (x y : A) → is_lt (compare x y) ≡ false → is_gt (compare y x) ≡ false
  pub trans :
      (x y z : A)
      → is_gt (compare x y) ≡ false
      → is_gt (compare y z) ≡ false
      → is_gt (compare x z) ≡ false

not_lt_of_gt : (o : Ordering) → is_gt o ≡ true → is_lt o ≡ false
not_lt_of_gt Ordering.gt h = refl
not_lt_of_gt Ordering.lt h = cc
not_lt_of_gt Ordering.eq h = cc

not_gt_of_lt : (o : Ordering) → is_lt o ≡ true → is_gt o ≡ false
not_gt_of_lt Ordering.lt h = refl
not_gt_of_lt Ordering.gt h = cc
not_gt_of_lt Ordering.eq h = cc

All-map {ℓ κ μ} :
    {A : Type ℓ} {P : A → Type κ} {Q : A → Type μ} (xs : List A)
    → ((x : A) → P x → Q x)
    → All P xs
    → All Q xs
All-map [] f h = tt
All-map (x ∷ xs) f (p, h) = (f x p, All-map xs f h)

list_cat-append {ℓ} : {A : Type ℓ} (xs ys : List A) → list_cat xs ys ≡ xs ++ ys
unfolding list_cat
list_cat-append [] ys = refl
list_cat-append (x ∷ xs) ys = rw (list_cat-append xs ys)

All-append {ℓ κ} :
    {A : Type ℓ} (P : A → Type κ) (xs ys : List A) → All P xs → All P ys → All P (xs ++ ys)
All-append P [] ys h k = k
All-append P (x ∷ xs) ys (p, h) k = (p, All-append P xs ys h k)

module _ {ℓ} {A : Type ℓ} (compare : A → A → Ordering) where
  -- `x` may stand before `y`.
  abbrev pub Before : A → A → Type 0
  Before x y = is_gt (compare x y) ≡ false

  abbrev pub IsSorted : List A → Type 0
  IsSorted [] = Unit
  IsSorted (x ∷ xs) = All (Before x) xs × IsSorted xs

  pub insert_sorted-All :
      (P : A → Type 0) (xs : List A) (item : A)
      → All P xs
      → P item
      → All P (insert_sorted compare xs item)
  unfolding insert_sorted
  insert_sorted-All P [] item h p = (p, tt)
  insert_sorted-All P (x ∷ xs) item (px, h) p = elim (Bool-cases (is_gt (compare item x))) [
    | inl above ↦ rw above (px, insert_sorted-All P xs item h p)
    | inr below ↦ rw below (p, (px, h))
  ]

  -- The result holds the items of the list and the new one.
  -- The result holds the item and the items of the list, whatever the comparison says.
  pub insert_sorted-perm :
      (xs : List A) (item : A) → Perm (insert_sorted compare xs item) (item ∷ xs)
  unfolding insert_sorted
  insert_sorted-perm [] item = Perm.refl _
  insert_sorted-perm (x ∷ xs) item = elim (Bool-cases (is_gt (compare item x))) [
    | inl above ↦
        rw above (Perm.trans (Perm.cons x (insert_sorted-perm xs item)) (Perm.swap item x xs))
    | inr below ↦ rw below (Perm.refl _)
  ]

  module _ (orders : Orders compare) where
    -- Inserting into a sorted list gives a sorted list.
    insert_sorted-IsSorted :
        (xs : List A) (item : A) → IsSorted xs → IsSorted (insert_sorted compare xs item)
    unfolding insert_sorted
    insert_sorted-IsSorted [] item s = (tt, tt)
    insert_sorted-IsSorted (x ∷ xs) item (least, s) = elim (Bool-cases (is_gt (compare item x))) [
      | inl above ↦ rw above (
        insert_sorted-All (Before x) xs item least (orders.flip item x (not_lt_of_gt _ above)),
        insert_sorted-IsSorted xs item s,
      )
      | inr below ↦
          rw below ((below, All-map xs (λ y b. orders.trans item x y below b) least), (least, s))
    ]

module _ {ℓ} {A : Type ℓ} (compare : A → A → Ordering) where
  -- Two sorted lists around an item that none of theirs passes.
  IsSorted-append :
      (orders : Orders compare) (x : A) (xs ys : List A)
      → IsSorted compare xs
      → IsSorted compare ys
      → All (λ y. Before compare y x) xs
      → All (Before compare x) ys
      → IsSorted compare (xs ++ x ∷ ys)
  IsSorted-append orders x [] ys sx sy hx hy = (hy, sy)
  IsSorted-append orders x (z ∷ xs) ys (least, sx) sy (hz, hx) hy = (
    All-append (Before compare z) xs (x ∷ ys) least
        (hz, All-map ys (λ y b. orders.trans z x y hz b) hy),
    IsSorted-append orders x xs ys sx sy hx hy,
  )

  partition_under :
      (x y : A) (l a b : List A)
      → is_lt (compare x y) ≡ true
      → partition compare x (y ∷ l) a b ≡ partition compare x l a (y ∷ b)
  unfolding partition
  partition_under x y l a b h = rw h

  partition_over :
      (x y : A) (l a b : List A)
      → is_lt (compare x y) ≡ false
      → partition compare x (y ∷ l) a b ≡ partition compare x l (y ∷ a) b
  unfolding partition
  partition_over x y l a b h = rw h

  partition-All :
      (P : A → Type 0) (x : A) (l a b : List A)
      → All P l
      → All P a
      → All P b
      → All P (partition compare x l a b).0 × All P (partition compare x l a b).1
  partition-All P x [] a b h ha hb = unfold partition in (ha, hb)
  partition-All P x (y ∷ l) a b (py, h) ha hb = elim (Bool-cases (is_lt (compare x y))) [
    | inl under ↦ rw (partition_under x y l a b under) (partition-All P x l a (y ∷ b) h ha (py, hb))
    | inr over ↦ rw (partition_over x y l a b over) (partition-All P x l (y ∷ a) b h (py, ha) hb)
  ]

  partition-Before :
      (orders : Orders compare) (x : A) (l a b : List A)
      → All (λ y. Before compare y x) a
      → All (Before compare x) b
      → All (λ y. Before compare y x) (partition compare x l a b).0
        × All (Before compare x) (partition compare x l a b).1
  partition-Before orders x [] a b ha hb = unfold partition in (ha, hb)
  partition-Before orders x (y ∷ l) a b ha hb = elim (Bool-cases (is_lt (compare x y))) [
    | inl under ↦
        rw (partition_under x y l a b under)
          (partition-Before orders x l a (y ∷ b) ha (not_gt_of_lt _ under, hb))
    | inr over ↦
        rw (partition_over x y l a b over)
          (partition-Before orders x l (y ∷ a) b (orders.flip x y over, ha) hb)
  ]

  partition-length :
      (x : A) (l a b : List A)
      → length (partition compare x l a b).0 + length (partition compare x l a b).1
        ≡ length l + length a + length b
  partition-length x [] a b = unfold partition in omega arith
  partition-length x (y ∷ l) a b = elim (Bool-cases (is_lt (compare x y))) [
    | inl under ↦
        rw (partition_under x y l a b under) (omega (arith, partition-length x l a (y ∷ b)))
    | inr over ↦ rw (partition_over x y l a b over) (omega (arith, partition-length x l (y ∷ a) b))
  ]

  partition-perm :
      (x : A) (l a b : List A)
      → Perm ((partition compare x l a b).0 ++ (partition compare x l a b).1) (l ++ (a ++ b))
  partition-perm x [] a b = unfold partition in Perm.refl _
  partition-perm x (y ∷ l) a b = elim (Bool-cases (is_lt (compare x y))) [
    | inl under ↦ rw (partition_under x y l a b under) (
        Perm.trans (partition-perm x l a (y ∷ b))
          (rw (← append_assoc l a (y ∷ b), ← append_assoc l a b) (perm_middle (l ++ a) b)))
    | inr over ↦
        rw (partition_over x y l a b over)
          (Perm.trans (partition-perm x l (y ∷ a) b) (perm_middle l (a ++ b)))
  ]

  -- A successful run is empty, a single item, or built from two smaller runs.
  quick_sort_fuel-All :
      (P : A → Type 0) (fuel : ℕ) (l : List A) (r : List A)
      → quick_sort_fuel compare fuel l ≡ some r
      → All P l
      → All P r
  unfolding quick_sort_fuel
  quick_sort_fuel-All P fuel [] r e h = let q : [] ≡ r = cc in subst (All P) q tt
  quick_sort_fuel-All P zero (x ∷ l) r e h = cc
  quick_sort_fuel-All P (suc fuel) (x ∷ []) r e h = let q : x ∷ [] ≡ r = cc in subst (All P) q h
  quick_sort_fuel-All P (suc fuel) (x ∷ y ∷ l) r e (px, h) =
      let parts = partition compare x (y ∷ l) [] [] in
      let (ha, hb) = partition-All P x (y ∷ l) [] [] h tt tt in
      elim (Option-cases (quick_sort_fuel compare fuel parts.0)) [
        | inl none_a ↦ absurd (ground arith)
        | inr (a', ea) ↦ elim (Option-cases (quick_sort_fuel compare fuel parts.1)) [
          | inl none_b ↦ absurd (ground arith)
          | inr (b', eb) ↦ subst (All P) (ground arith) (
              subst (All P) (sym (list_cat-append a' (x ∷ b'))) (
                All-append P a' (x ∷ b') (quick_sort_fuel-All P fuel parts.0 a' ea ha)
                  (px, quick_sort_fuel-All P fuel parts.1 b' eb hb)))
        ]
      ]

  quick_sort_step :
      (fuel : ℕ) (x y : A) (l a b : List A)
      → quick_sort_fuel compare fuel (partition compare x (y ∷ l) [] []).0 ≡ some a
      → quick_sort_fuel compare fuel (partition compare x (y ∷ l) [] []).1 ≡ some b
      → quick_sort_fuel compare (suc fuel) (x ∷ y ∷ l) ≡ some (a ++ x ∷ b)
  unfolding quick_sort_fuel
  quick_sort_step fuel x y l a b ea eb = rw (← list_cat-append a (x ∷ b)) (ground (arith, ea, eb))

  pub quick_sort_fuel-IsSorted :
      (orders : Orders compare) (fuel : ℕ) (l : List A)
      → length l ≤ fuel
      → (r : List A) × (quick_sort_fuel compare fuel l ≡ some r) × IsSorted compare r × Perm r l
  unfolding quick_sort_fuel
  quick_sort_fuel-IsSorted orders fuel [] h = ([], refl, tt, Perm.refl _)
  quick_sort_fuel-IsSorted orders zero (x ∷ l) h = absurd (omega arith)
  quick_sort_fuel-IsSorted orders (suc fuel) (x ∷ []) h = (x ∷ [], refl, (tt, tt), Perm.refl _)
  quick_sort_fuel-IsSorted orders (suc fuel) (x ∷ y ∷ l) h =
      let parts = partition compare x (y ∷ l) [] [] in
      let (ha, hb) = partition-Before orders x (y ∷ l) [] [] tt tt in
      let size = partition-length x (y ∷ l) [] [] in
      let (a', ea, sa, pa) = quick_sort_fuel-IsSorted orders fuel parts.0 (omega arith) in
      let (b', eb, sb, pb) = quick_sort_fuel-IsSorted orders fuel parts.1 (omega arith) in
      (
        a' ++ x ∷ b',
        quick_sort_step fuel x y l a' b' ea eb,
        IsSorted-append orders x a' b' sa sb (quick_sort_fuel-All _ fuel parts.0 a' ea ha)
            (quick_sort_fuel-All _ fuel parts.1 b' eb hb),
        Perm.trans (perm_middle a' b') (
            Perm.cons x
              (Perm.trans (Perm.append pa pb) (rw append-nil at (partition-perm x (y ∷ l) [] [])))),
      )

  -- `quick_sort` ends, and its result is sorted and holds the items of the list.
  pub quick_sort-IsSorted :
      (orders : Orders compare) (l : List A)
      → (r : List A) × (quick_sort compare l ≡ some r) × IsSorted compare r × Perm r l
  unfolding quick_sort
  quick_sort-IsSorted orders l = quick_sort_fuel-IsSorted orders (length l) l (le_refl _)
