-- ===== src/Go/Sort/Order.antt =====
-- The order that a sort leaves does not depend on the order that it was given.
use mathlib.Core.List.{Permᴰ}
use mathlib.Core.List.Permᴰ
use mesh_monday.Base.{
  ◌≡◌, refl, ap, sym, ◌∙◌, subst, ◌≢◌, inl, inr, Bool, true, false, ◌||◌, ap₂, any_of, arith,
  length, keep, ◌+◌, if◌then◌else◌, List, [], ◌∷◌, Bool-cases, All, Distinct,
}
use mesh_monday.Go.Sort.{insert, sort_slice}

-- What a permutation keeps.
module _ {ℓ κ} {A : Type ℓ} where
  pub All-perm : (P : A → Type κ) {l m : List A} → Permᴰ l m → All P l → All P m
  All-perm P Permᴰ.nil h = h
  All-perm P (Permᴰ.cons e d) (hx, h) = (subst P e hx, All-perm P d h)
  All-perm P (Permᴰ.swap e e') (hx, (hy, h)) = (subst P e' hy, (subst P e hx, h))
  All-perm P (Permᴰ.trans d d') h = All-perm P d' (All-perm P d h)

pub length-perm {ℓ} : {A : Type ℓ} {l m : List A} → Permᴰ l m → length l ≡ length m
length-perm Permᴰ.nil = refl
length-perm (Permᴰ.cons e d) = omega (arith, length-perm d)
length-perm (Permᴰ.swap e e') = omega arith
length-perm (Permᴰ.trans d d') = length-perm d ∙ length-perm d'

module _ {ℓ κ} {A : Type ℓ} {K : Type κ} (key : A → K) where
  Distinct-perm : {l m : List A} → Permᴰ l m → Distinct key l → Distinct key m
  Distinct-perm Permᴰ.nil h = h
  Distinct-perm (Permᴰ.cons {a = a} {l₂ = l₂} e d) (hx, h) =
      subst (λ z. Distinct key (z ∷ l₂)) e (All-perm (λ y. key a ≢ key y) d hx, Distinct-perm d h)
  Distinct-perm (Permᴰ.swap {b = b} {b' = b'} {l = l} e e') ((ne, hx), (hy, h)) =
      subst (λ z. Distinct key (z ∷ b' ∷ l)) e'
        (subst (λ z. Distinct key (b ∷ z ∷ l)) e ((λ q. ne (sym q), hy), (hx, h)))
  Distinct-perm (Permᴰ.trans d d') h = Distinct-perm d' (Distinct-perm d h)

or_swap : (a b c : Bool) → (a || (b || c)) ≡ (b || (a || c))
or_swap true true c = refl
or_swap true false c = refl
or_swap false true c = refl
or_swap false false c = refl

any_of-cons {ℓ} :
    {A : Type ℓ} (p : A → Bool) (x : A) (xs : List A) → any_of p (x ∷ xs) ≡ (p x || any_of p xs)
unfolding any_of
any_of-cons p x xs = ground arith

pub any_of-perm {ℓ} :
    {A : Type ℓ} (p : A → Bool) {l m : List A} → Permᴰ l m → any_of p l ≡ any_of p m
any_of-perm p Permᴰ.nil = refl
any_of-perm p (Permᴰ.cons e d) =
    rw (any_of-cons p, any_of-cons p) (ap₂ (λ a r. p a || r) e (any_of-perm p d))
any_of-perm p (Permᴰ.swap {a' = a'} {b' = b'} {l = l} e e') =
    rw (any_of-cons p, any_of-cons p, any_of-cons p, any_of-cons p)
      (ap₂ (λ a b. p a || (p b || any_of p l)) e e' ∙ or_swap (p b') (p a') (any_of p l))
any_of-perm p (Permᴰ.trans d d') = any_of-perm p d ∙ any_of-perm p d'

length-keep_cons {ℓ} :
    {A : Type ℓ} (p : A → Bool) (x : A) (xs : List A)
    → length (keep p (x ∷ xs)) ≡ (if p x then 1 else 0) + length (keep p xs)
unfolding keep
length-keep_cons p x xs = ground arith

-- As many elements pass a test in one order as in another.
pub length-keep_perm {ℓ} :
    {A : Type ℓ} (p : A → Bool) {l m : List A} → Permᴰ l m → length (keep p l) ≡ length (keep p m)
length-keep_perm p Permᴰ.nil = refl
length-keep_perm p (Permᴰ.cons {l₂ = l₂} e d) =
    rw (length-keep_cons p, length-keep_cons p)
      (ap₂ (λ a n. (if p a then 1 else 0) + n) e (length-keep_perm p d))
length-keep_perm p (Permᴰ.swap {a' = a'} {b' = b'} {l = l} e e') =
    rw (length-keep_cons p, length-keep_cons p, length-keep_cons p, length-keep_cons p)
      (ap₂ (λ a b. (if p a then 1 else 0) + ((if p b then 1 else 0) + length (keep p l))) e e'
        ∙ (omega arith))
length-keep_perm p (Permᴰ.trans d d') = length-keep_perm p d ∙ length-keep_perm p d'

-- A sort only rearranges.
module _ {ℓ} {A : Type ℓ} (less : A → A → Bool) where
  pub insert-perm : (x : A) (l : List A) → Permᴰ (x ∷ l) (insert less x l)
  unfolding insert
  insert-perm x [] = Permᴰ.refl (x ∷ [])
  insert-perm x (y ∷ ys) = elim (Bool-cases (less y x)) [
    | inl e ↦
        rw (insert, e) (Permᴰ.trans (Permᴰ.swap refl refl) (Permᴰ.cons refl (insert-perm x ys)))
    | inr e ↦ rw (insert, e) (Permᴰ.refl (x ∷ y ∷ ys))
  ]

  pub sort_slice_rearranges : (l : List A) → Permᴰ l (sort_slice less l)
  unfolding sort_slice
  sort_slice_rearranges [] = Permᴰ.nil
  sort_slice_rearranges (x ∷ xs) =
      Permᴰ.trans (Permᴰ.cons refl (sort_slice_rearranges xs)) (insert-perm x (sort_slice less xs))

-- `less` as `sort.Slice` wants it, which ranks any two elements that have different keys.
pub record IsRanking {ℓ κ} {A : Type ℓ} {K : Type κ} (key : A → K) (less : A → A → Bool)
    : Type (ℓ ⊔ κ) where
  pub one_way : (x y : A) → less x y ≡ true → less y x ≡ false
  pub total : (x y : A) → key x ≢ key y → less x y ≡ false → less y x ≡ true
  pub between : (x y z : A) → less z y ≡ true → less z x ≡ false → less x y ≡ true

module _ {ℓ κ} {A : Type ℓ} {K : Type κ} (key : A → K) (less : A → A → Bool)
    (ranking : IsRanking key less) where
  insert_behind :
      (x y : A) (ys : List A) → less y x ≡ true → insert less x (y ∷ ys) ≡ y ∷ insert less x ys
  unfolding insert
  insert_behind x y ys e = rw (insert, e) refl

  insert_before : (x y : A) (ys : List A) → less y x ≡ false → insert less x (y ∷ ys) ≡ x ∷ y ∷ ys
  unfolding insert
  insert_before x y ys e = rw (insert, e) refl

  insert_comm :
      (x y : A) (l : List A)
      → key x ≢ key y
      → insert less x (insert less y l) ≡ insert less y (insert less x l)
  unfolding insert
  insert_comm x y [] ne = elim (Bool-cases (less x y)) [
    | inl e ↦ rw (insert_behind y x [] e, insert_before x y [] (ranking.one_way x y e)) refl
    | inr e ↦ rw (insert_before y x [] e, insert_behind x y [] (ranking.total x y ne e)) refl
  ]
  insert_comm x y (z ∷ zs) ne = elim (Bool-cases (less z y)) [
    | inl e ↦ elim (Bool-cases (less z x)) [
      | inl f ↦
          rw
            (
              insert_behind y z zs e,
              insert_behind x z zs f,
              insert_behind x z _ f,
              insert_behind y z _ e,
            )
            (ap (◌∷◌ z) (insert_comm x y zs ne))
      | inr f ↦
          rw
            (
              insert_behind y z zs e,
              insert_before x z zs f,
              insert_before x z _ f,
              insert_behind y x _ (ranking.between x y z e f),
              insert_behind y z zs e,
            )
            refl
    ]
    | inr e ↦ elim (Bool-cases (less z x)) [
      | inl f ↦
          rw
            (
              insert_before y z zs e,
              insert_behind x z zs f,
              insert_before y z _ e,
              insert_behind x y _ (ranking.between y x z f e),
              insert_behind x z zs f,
            )
            refl
      | inr f ↦
          rw (insert_before y z zs e, insert_before x z zs f)
            (elim (Bool-cases (less x y)) [
              | inl g ↦
                  rw
                    (
                      insert_before x y _ (ranking.one_way x y g),
                      insert_behind y x _ g,
                      insert_before y z zs e,
                    )
                    refl
              | inr g ↦
                  rw
                    (
                      insert_behind x y _ (ranking.total x y ne g),
                      insert_before x z zs f,
                      insert_before y x _ g,
                    )
                    refl
            ])
    ]
  ]

  pub sort_slice-perm :
      {l m : List A} → Permᴰ l m → Distinct key l → sort_slice less l ≡ sort_slice less m
  unfolding sort_slice
  sort_slice-perm Permᴰ.nil h = refl
  sort_slice-perm (Permᴰ.cons {b = b} {l₁ = l₁} e d) (hx, h) =
      ap (λ x. insert less x (sort_slice less l₁)) e ∙ ap (insert less b) (sort_slice-perm d h)
  sort_slice-perm (Permᴰ.swap {a = a} {b = b} {b' = b'} {l = l} e e') ((ne, hx), (hy, h)) =
      insert_comm a b (sort_slice less l) ne
      ∙ ap (λ z. insert less b (insert less z (sort_slice less l))) e
      ∙ ap (λ z. insert less z (insert less b' (sort_slice less l))) e'
  sort_slice-perm (Permᴰ.trans d d') h =
      sort_slice-perm d h ∙ sort_slice-perm d' (Distinct-perm key d h)
