-- ===== src/Go/Sort/Sorted.antt =====
-- What a sort leaves stands in order.
use mesh_monday.Base.{◌≡◌, Bool, false, List, [], ◌∷◌, inl, inr, Bool-cases, All, All-map}
use mesh_monday.Go.Sort.{insert, sort_slice}
use mesh_monday.Go.Sort.Order.{All-perm, IsRanking, insert-perm}

-- No element is less than one before it.
abbrev pub IsSorted {ℓ} : {A : Type ℓ} → (A → A → Bool) → List A → Type 0
IsSorted less [] = Unit
IsSorted less (x ∷ xs) = All (λ y. less y x ≡ false) xs × IsSorted less xs

module _ {ℓ κ} {A : Type ℓ} {K : Type κ} (key : A → K) (less : A → A → Bool)
    (ranking : IsRanking key less) where
  above : (x y z : A) → less y x ≡ false → less z y ≡ false → less z x ≡ false
  above x y z e f = elim (Bool-cases (less z x)) [
    | inl g ↦ cc (e, ranking.between y x z g f)
    | inr g ↦ g
  ]

  insert-IsSorted : (x : A) (l : List A) → IsSorted less l → IsSorted less (insert less x l)
  unfolding insert
  insert-IsSorted x [] h = (tt, tt)
  insert-IsSorted x (y ∷ ys) (hy, h) = elim (Bool-cases (less y x)) [
    | inl e ↦
        rw (insert, e)
          (
            All-perm (λ z. less z y ≡ false) (insert-perm less x ys) (ranking.one_way y x e, hy),
            insert-IsSorted x ys h,
          )
    | inr e ↦ rw (insert, e) ((e, All-map (λ z f. above x y z e f) ys hy), (hy, h))
  ]

  pub sort_slice-IsSorted : (l : List A) → IsSorted less (sort_slice less l)
  unfolding sort_slice
  sort_slice-IsSorted [] = tt
  sort_slice-IsSorted (x ∷ xs) = insert-IsSorted x (sort_slice less xs) (sort_slice-IsSorted xs)
