-- ===== src/Base/Keep.antt =====
-- What `keep` and `any_of` do with one another, and how long a list stays.
use Prim.Native.Nat.{ℕ, zero, suc, ◌+◌, ◌<◌}
use mathlib.Core.Path.{◌≡◌, refl, ap}
use mathlib.Core.Bool.{Bool, true, false, not, ◌&&◌}
use mathlib.Core.List.{List, [], ◌∷◌}
use mathlib.Core.Logic.{inl, inr}
use native.Mathlib.Omega.{arith}
use mesh_monday.Base.Tests.{Bool-cases}
use mesh_monday.Base.Lists.{keep, any_of, length, take, drop}
use mesh_monday.Base.Predicates.{All}

module _ {ℓ} {A : Type ℓ} where
  pub keep-All : (p : A → Bool) (xs : List A) → All (λ x. p x ≡ true) xs → keep p xs ≡ xs
  unfolding keep
  keep-All p [] h = refl
  keep-All p (x ∷ xs) (e, h) = rw (keep, e) (ap (◌∷◌ x) (keep-All p xs h))

  -- A list is kept twice as it is kept once by the stronger test.
  pub keep_absorb :
      (p q : A → Bool) (xs : List A)
      → All (λ x. p x ≡ true → q x ≡ true) xs
      → keep p (keep q xs) ≡ keep p xs
  unfolding keep
  keep_absorb p q [] h = refl
  keep_absorb p q (x ∷ xs) (e, h) = elim (Bool-cases (q x)) [
    | inl f ↦ ground (arith, f, keep_absorb p q xs h)
    | inr f ↦ ground (arith, f, e, keep_absorb p q xs h)
  ]

  pub keep-keep : (p q : A → Bool) (xs : List A) → keep p (keep q xs) ≡ keep (λ x. q x && p x) xs
  unfolding keep
  keep-keep p q [] = refl
  keep-keep p q (x ∷ xs) = elim (Bool-cases (q x)) [
    | inl f ↦ ground (arith, f, keep-keep p q xs)
    | inr f ↦ ground (arith, f, keep-keep p q xs)
  ]

  pub keep_same : (p q : A → Bool) (xs : List A) → ((x : A) → p x ≡ q x) → keep p xs ≡ keep q xs
  unfolding keep
  keep_same p q [] h = refl
  keep_same p q (x ∷ xs) h = ground (arith, h x, keep_same p q xs h)

  -- What is kept and what is not make up the list.
  pub length-keep_both :
      (p : A → Bool) (xs : List A)
      → length (keep p xs) + length (keep (λ x. not (p x)) xs) ≡ length xs
  unfolding keep
  length-keep_both p [] = omega arith
  length-keep_both p (x ∷ xs) = ground (arith, length-keep_both p xs)

  -- An element that fails the test makes the list shorter.
  pub length-keep_lt :
      (p : A → Bool) (xs : List A)
      → any_of (λ x. not (p x)) xs ≡ true
      → length (keep p xs) < length xs
  unfolding keep any_of
  length-keep_lt p [] h = cc
  length-keep_lt p (x ∷ xs) h = ground (arith, length-keep_both p xs, length-keep_lt p xs)

  pub any_of-keep :
      (p q : A → Bool) (xs : List A) → any_of p (keep q xs) ≡ any_of (λ x. q x && p x) xs
  unfolding keep any_of
  any_of-keep p q [] = refl
  any_of-keep p q (x ∷ xs) = ground (arith, any_of-keep p q xs)

  pub any_of-take :
      (p : A → Bool) (n : ℕ) (xs : List A) → any_of p (take n xs) ≡ true → any_of p xs ≡ true
  unfolding any_of
  any_of-take p zero xs h = cc
  any_of-take p (suc n) [] h = h
  any_of-take p (suc n) (x ∷ xs) h = ground (arith, any_of-take p n xs)

  pub any_of-drop :
      (p : A → Bool) (n : ℕ) (xs : List A) → any_of p (drop n xs) ≡ true → any_of p xs ≡ true
  unfolding any_of
  any_of-drop p zero xs h = h
  any_of-drop p (suc n) [] h = h
  any_of-drop p (suc n) (x ∷ xs) h = ground (arith, any_of-drop p n xs)

  -- No element passes.
  pub any_of_none : (p : A → Bool) (xs : List A) → All (λ x. p x ≡ false) xs → any_of p xs ≡ false
  unfolding any_of
  any_of_none p [] h = refl
  any_of_none p (x ∷ xs) (e, h) = ground (arith, e, any_of_none p xs h)

  pub All-keep_inv {κ} :
      (P : A → Type κ) (p : A → Bool) (xs : List A)
      → All P (keep p xs)
      → All (λ x. p x ≡ true → P x) xs
  unfolding keep
  All-keep_inv P p [] h = tt
  All-keep_inv P p (x ∷ xs) h = elim (Bool-cases (p x)) [
    | inl e ↦
        let h' : P x × All P (keep p xs) = rw (keep, e) at h in
        (λ _. h'.0, All-keep_inv P p xs h'.1)
    | inr e ↦ let h' : All P (keep p xs) = rw (keep, e) at h in ((λ f. cc), All-keep_inv P p xs h')
  ]

  pub All-both {κ μ} :
      (P : A → Type κ) (Q : A → Type μ) (xs : List A)
      → All P xs
      → All Q xs
      → All (λ x. P x × Q x) xs
  All-both P Q [] h k = tt
  All-both P Q (x ∷ xs) (hx, h) (kx, k) = ((hx, kx), All-both P Q xs h k)

  pub length-keep_others :
      (p : A → Bool) (xs : List A)
      → any_of p xs ≡ true
      → length (keep (λ x. not (p x)) xs) < length xs
  unfolding keep any_of
  length-keep_others p [] h = cc
  length-keep_others p (x ∷ xs) h = ground (arith, length-keep_both p xs, length-keep_others p xs)

  pub keep_comm : (p q : A → Bool) (xs : List A) → keep p (keep q xs) ≡ keep q (keep p xs)
  unfolding keep
  keep_comm p q [] = refl
  keep_comm p q (x ∷ xs) = elim (Bool-cases (q x)) [
    | inl f ↦ ground (arith, f, keep_comm p q xs)
    | inr f ↦ ground (arith, f, keep_comm p q xs)
  ]

  pub All-kept : (p : A → Bool) (xs : List A) → All (λ x. p x ≡ true) (keep p xs)
  unfolding keep
  All-kept p [] = tt
  All-kept p (x ∷ xs) = elim (Bool-cases (p x)) [
    | inl e ↦ rw (keep, e) (e, All-kept p xs)
    | inr e ↦ rw (keep, e) (All-kept p xs)
  ]

  pub take-nil : (n : ℕ) (xs : List A) → take (suc n) xs ≡ [] → xs ≡ []
  take-nil n [] e = refl
  take-nil n (x ∷ xs) e = cc
