-- ===== src/Rma/Order.antt =====
-- The sort of `sched_rma` as a function on lists: one inner loop brings the least key to its place.
use hellfireos.Base.{
  ℕ, zero, suc, ◌≤◌, ◌≡◌, refl, true, List, [], ◌∷◌, arith, length, ltb, if◌then◌else◌, Bool-cases,
  inl, inr,
}
use hellfireos.Base.Members.{has, count, SameItems, has-SameItems}

module _ (key : ℕ → ℕ) where
  abbrev pub lower : ℕ → ℕ → ℕ
  lower a b = if ltb (key b) (key a) then b else a

  abbrev pub higher : ℕ → ℕ → ℕ
  higher a b = if ltb (key b) (key a) then a else b

  -- The number with the least key, and the others in the order that the swaps leave.
  abbrev pub select : ℕ → List ℕ → ℕ × List ℕ
  select a [] = (a, [])
  select a (b ∷ bs) = let s = select (lower a b) bs in (s.0, higher a b ∷ s.1)

  abbrev pub selection_sort : ℕ → List ℕ → List ℕ
  selection_sort n [] = []
  selection_sort zero (a ∷ l) = a ∷ l
  selection_sort (suc n) (a ∷ l) = let s = select a l in s.0 ∷ selection_sort n s.1

  -- No number of the list has a smaller key.
  abbrev pub IsLeast : ℕ → List ℕ → Type 0
  IsLeast a l = (y : ℕ) → has y l ≡ true → key a ≤ key y

  abbrev pub IsSorted : List ℕ → Type 0
  IsSorted [] = Unit {0}
  IsSorted (x ∷ xs) = IsLeast x xs × IsSorted xs

  count-select :
      (a : ℕ) (bs : List ℕ) (z : ℕ) → count z ((select a bs).0 ∷ (select a bs).1) ≡ count z (a ∷ bs)
  count-select a [] z = refl
  count-select a (b ∷ bs) z = elim (Bool-cases (ltb (key b) (key a))) [
    | inl e ↦ rw e (omega (arith, count-select b bs z))
    | inr e ↦ rw e (omega (arith, count-select a bs z))
  ]

  select-le : (a : ℕ) (bs : List ℕ) → key (select a bs).0 ≤ key a
  select-le a [] = omega arith
  select-le a (b ∷ bs) = ground (arith, select-le (lower a b) bs)

  pub select-IsLeast : (a : ℕ) (bs : List ℕ) → IsLeast (select a bs).0 (select a bs).1
  select-IsLeast a [] y h = ground arith
  select-IsLeast a (b ∷ bs) y h =
      ground (arith, select-le (lower a b) bs, select-IsLeast (lower a b) bs y)

  pub length-select : (a : ℕ) (bs : List ℕ) → length (select a bs).1 ≡ length bs
  length-select a [] = refl
  length-select a (b ∷ bs) = omega (arith, length-select (lower a b) bs)

  pub selection_sort-SameItems : (n : ℕ) (l : List ℕ) → SameItems (selection_sort n l) l
  selection_sort-SameItems n [] z = refl
  selection_sort-SameItems zero (a ∷ l) z = refl
  selection_sort-SameItems (suc n) (a ∷ l) z =
      omega (arith, selection_sort-SameItems n (select a l).1 z, count-select a l z)

  pub selection_sort-IsSorted :
      (n : ℕ) (l : List ℕ) → length l ≤ suc n → IsSorted (selection_sort n l)
  selection_sort-IsSorted n [] h = tt
  selection_sort-IsSorted zero (a ∷ []) h = (λ y e. ground arith, tt)
  selection_sort-IsSorted zero (a ∷ b ∷ l) h = absurd (omega arith)
  selection_sort-IsSorted (suc n) (a ∷ l) h =
      let s = select a l in
      (
        λ y e.
            select-IsLeast a l y (
              rw (has-SameItems y (selection_sort n s.1) s.1 (selection_sort-SameItems n s.1)) at
                e),
        selection_sort-IsSorted n s.1 (omega (arith, length-select a l)),
      )

  pub length-selection_sort : (n : ℕ) (l : List ℕ) → length (selection_sort n l) ≡ length l
  length-selection_sort n [] = refl
  length-selection_sort zero (a ∷ l) = refl
  length-selection_sort (suc n) (a ∷ l) =
      omega (arith, length-selection_sort n (select a l).1, length-select a l)
