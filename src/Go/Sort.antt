-- ===== src/Go/Sort.antt =====
-- `sort.Slice`, as an insertion sort. Where `less` ranks no two elements equal the sorted order is
-- the only one; where it does, Go leaves their order open, and this one keeps it.
pub mod Order
pub mod Sorted
use mesh_monday.Base.{Bool, true, false, List, [], ◌∷◌}

module _ {ℓ} {A : Type ℓ} (less : A → A → Bool) where
  unfoldable pub insert : A → List A → List A
  insert x [] = x ∷ []
  insert x (y ∷ ys) = elim (less y x) [ true ↦ y ∷ insert x ys | false ↦ x ∷ y ∷ ys ]

  unfoldable pub sort_slice : List A → List A
  unfolding insert
  sort_slice [] = []
  sort_slice (x ∷ xs) = insert x (sort_slice xs)
