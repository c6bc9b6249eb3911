-- ===== src/Base/Keyed.antt =====
-- Rows with a key that no two of them share, as a UNIQUE constraint keeps them.
use mathlib.Core.Path.{◌≡◌, refl}
use mathlib.Core.Logic.{◌≢◌, ◌↔◌, inl, inr}
use mathlib.Core.Bool.{Bool, true, false, not, ◌||◌}
use mathlib.Core.List.{List, [], ◌∷◌, ◌++◌}
use native.Mathlib.Omega.{arith}
use mesh_monday.Base.Tests.{Bool-cases}
use mesh_monday.Base.Lists.{keep, any_of}
use mesh_monday.Base.Predicates.{All, All-append}

module _ {ℓ} {A : Type ℓ} where
  -- Where no element passes, the negation holds of all.
  pub any_of-append :
      (p : A → Bool) (xs ys : List A) → any_of p (xs ++ ys) ≡ (any_of p xs || any_of p ys)
  unfolding any_of
  any_of-append p [] ys = refl
  any_of-append p (x ∷ xs) ys = ground (arith, any_of-append p xs ys)

  pub any_of-false :
      (p : A → Bool) (x : A) (xs : List A)
      → any_of p (x ∷ xs) ≡ false
      → (p x ≡ false) × (any_of p xs ≡ false)
  unfolding any_of
  any_of-false p x xs h = ground arith

  -- If the elements that one test passes pass another, a list that has one of the first has one of
  -- the second.
  pub any_of_mono :
      (p q : A → Bool) (xs : List A)
      → All (λ x. p x ≡ true → q x ≡ true) xs
      → any_of p xs ≡ true
      → any_of q xs ≡ true
  unfolding any_of
  any_of_mono p q [] h e = e
  any_of_mono p q (x ∷ xs) (hx, hxs) e = ground (arith, hx, any_of_mono p q xs hxs)

  pub All-map {κ μ} :
      {P : A → Type κ} {Q : A → Type μ}
      → ((x : A) → P x → Q x)
      → (xs : List A) → All P xs
      → All Q xs
  All-map f [] h = tt
  All-map f (x ∷ xs) (hx, hxs) = (f x hx, All-map f xs hxs)

  pub All-snoc {κ} : (P : A → Type κ) (xs : List A) (z : A) → All P xs → P z → All P (xs ++ z ∷ [])
  All-snoc P xs z h hz = All-append P xs (z ∷ []) h (hz, tt)

  pub All-keep {κ} : (P : A → Type κ) (p : A → Bool) (xs : List A) → All P xs → All P (keep p xs)
  unfolding keep
  All-keep P p [] h = h
  All-keep P p (x ∷ xs) h = ground (arith, All-keep P p xs h.1)

  -- What is kept has passed the test besides.
  pub All-keep_and {κ μ} :
      {P : A → Type κ} {Q : A → Type μ} (p : A → Bool)
      → ((x : A) → P x → p x ≡ true → Q x)
      → (xs : List A) → All P xs
      → All Q (keep p xs)
  unfolding keep
  All-keep_and p f [] h = tt
  All-keep_and {Q = Q} p f (x ∷ xs) (hx, hxs) =
      let rest = All-keep_and {Q = Q} p f xs hxs in
      elim (Bool-cases (p x)) [ inl e ↦ rw (e, keep) (f x hx e, rest) | inr e ↦ rw (e, keep) rest ]

  -- An element that passes `q` is among those kept or among those left out.
  pub any_of-keep_split :
      (q p : A → Bool) (xs : List A)
      → any_of q xs ≡ true
      → (any_of q (keep (λ x. not (p x)) xs) || any_of q (keep p xs)) ≡ true
  unfolding any_of keep
  any_of-keep_split q p [] h = cc
  any_of-keep_split q p (x ∷ xs) h = ground (arith, any_of-keep_split q p xs)

module _ {ℓ κ} {A : Type ℓ} {K : Type κ} (key : A → K) where
  -- No two rows have the same key.
  abbrev pub Distinct : List A → Type κ
  Distinct [] = Unit
  Distinct (x ∷ xs) = All (λ y. key x ≢ key y) xs × Distinct xs

  pub Distinct-keep : (p : A → Bool) (xs : List A) → Distinct xs → Distinct (keep p xs)
  unfolding keep
  Distinct-keep p [] h = h
  Distinct-keep p (x ∷ xs) h =
      ground (arith, All-keep (λ y. key x ≢ key y) p xs h.0, Distinct-keep p xs h.1)

  module _ (same_key : K → K → Bool)
      (same_key_iff : (a b : K) → (same_key a b ≡ true) ↔ (a ≡ b)) where
    -- Some row has the key.
    abbrev pub has_key : K → List A → Bool
    has_key k = any_of (λ r. same_key (key r) k)

    -- Adding a row whose key no row has.
    pub Distinct-snoc :
        (xs : List A) (z : A) → Distinct xs → has_key (key z) xs ≡ false → Distinct (xs ++ z ∷ [])
    unfolding any_of
    Distinct-snoc [] z h f = (tt, tt)
    Distinct-snoc (x ∷ xs) z (hx, hxs) f =
        let (ne, none_left) = any_of-false (λ r. same_key (key r) (key z)) x xs f in
        (
          All-snoc (λ y. key x ≢ key y) xs z hx (λ q. cc (ne, (same_key_iff (key x) (key z)).1 q)),
          Distinct-snoc xs z hxs none_left,
        )
