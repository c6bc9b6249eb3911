-- ===== src/Go/Decimal.antt =====
-- `%d` of a number that is not negative.
use mesh_monday.Base.{
  ℕ, zero, suc, ◌+◌, ◌/◌, ◌%◌, ◌≡◌, refl, [], ◌∷◌, Bytes, codes, ltb, if◌then◌else◌,
}

-- A number below `2 ^ f` has at most `f` digits.
digits : ℕ → ℕ → Bytes → Bytes
digits zero n out = out
digits (suc f) n out =
    let d = (48 + n % 10) ∷ out in let rest = digits f (n / 10) d in if ltb n 10 then d else rest

unfoldable pub decimal : ℕ → Bytes
unfolding digits
decimal n = digits (n + 1) n []

decimal_example : decimal 120 ≡ codes "120"
unfolding decimal
decimal_example = refl
