-- ===== src/Base/Results.antt =====
-- A result or an error, with `do`; and Go's `(value, ok)` pairs as options.
use mathlib.Core.Path.{◌≡◌, refl}
use mathlib.Core.Logic.{◌⊎◌, inl, inr}
use mathlib.Core.Bool.{Bool, true, false}
use mathlib.Core.Option.{Option, none, some}

-- `(value, error)`, where only one of the two is there.
pub data Result {ℓ} (Failure Value : Type ℓ) : Type ℓ where
  err : Failure → Result Failure Value
  ok : Value → Result Failure Value

module _ {ℓ} {E : Type ℓ} where
  infixl 5 ◌>>=◌ ◌>>◌
  -- `if err != nil { return err }` between two steps
  abbrev pub ◌>>=◌ : {A B : Type ℓ} → Result E A → (A → Result E B) → Result E B
  err failure >>= next = err failure
  ok value >>= next = next value

  abbrev pub ◌>>◌ : {B : Type ℓ} → Result E (Unit {ℓ}) → Result E B → Result E B
  first >> rest = first >>= λ _. rest

-- `if bad { return error }`
abbrev pub fail_if {ℓ} : {E : Type ℓ} → Bool → E → Result E (Unit {ℓ})
fail_if true e = err e
fail_if false e = ok tt

pub Result-cases {ℓ} :
    {E A : Type ℓ} (r : Result E A) → ((a : A) × (r ≡ ok a)) ⊎ ((e : E) × (r ≡ err e))
Result-cases (ok a) = inl (a, refl)
Result-cases (err e) = inr (e, refl)

module _ {ℓ} {E A B : Type ℓ} (step : Result E A) (next : A → Result E B) where
  -- Two steps that succeed: what the first one gave, and that the second one takes it.
  pub >>=-ok :
      {last : B}
      → (step >>= next) ≡ ok last
      → (first : A) × (step ≡ ok first) × (next first ≡ ok last)
  >>=-ok reached = elim (Result-cases step) [
    | inl (first, e) ↦ (first, e, rw e at reached)
    | inr (failure, e) ↦ cc
  ]

pub fail_if-ok {ℓ} : {E : Type ℓ} (b : Bool) (e : E) {u : Unit {ℓ}} → fail_if b e ≡ ok u → b ≡ false
fail_if-ok true e h = cc
fail_if-ok false e h = refl

-- A guarded chain that succeeds has passed its guard.
pub guard-ok {ℓ} :
    {E B : Type ℓ} (b : Bool) (e : E) (k : Result E B) {v : B}
    → (fail_if b e >> k) ≡ ok v
    → (b ≡ false) × (k ≡ ok v)
guard-ok true e k h = cc
guard-ok false e k h = (refl, h)

abbrev pub is_some {ℓ} : {A : Type ℓ} → Option A → Bool
is_some none = false
is_some (some _) = true
