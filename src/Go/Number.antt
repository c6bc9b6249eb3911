-- ===== src/Go/Number.antt =====
-- `strconv.Atoi` and products of type `time.Duration`, in 64 bits.
use mesh_monday.Base.{
  ℕ, zero, suc, ◌+◌, ◌-◌, ◌*◌, ◌%◌, ◌^◌, ◌<◌, ◌≡◌, refl, arith, ◌&&◌, [], ◌∷◌, Option, none, some,
  Bytes, codes, ltb, leb, ◌==◌, if◌then◌else◌,
}
use mesh_monday.Base.Int.{ℤ, pos, negsuc}

-- The digits that are left, with the number so far.
digits_from : ℕ → Bytes → Option ℕ
digits_from n [] = some n
digits_from n (c ∷ s) =
    let rest = digits_from (n * 10 + (c - 48)) s in if leb b'0' c && leb c b'9' then rest else none

unsigned : Bytes → Option ℕ
unfolding digits_from
unsigned [] = none
unsigned (c ∷ s) = digits_from 0 (c ∷ s)

-- A number that 64 bits do not hold is an error.
as_positive : Option ℕ → Option ℤ
as_positive none = none
as_positive (some n) = if ltb n (2 ^ 63) then some (pos n) else none

as_negative : Option ℕ → Option ℤ
as_negative none = none
as_negative (some zero) = some (pos 0)
as_negative (some (suc n)) = if ltb n (2 ^ 63) then some (negsuc n) else none

-- `strconv.Atoi`
unfoldable pub atoi : Bytes → Option ℤ
unfolding unsigned as_positive as_negative
atoi [] = none
atoi (c ∷ s) =
    if c == b'-'
    then as_negative (unsigned s)
    else if c == b'+'
    then as_positive (unsigned s)
    else as_positive (unsigned (c ∷ s))

atoi_example :
    (atoi (codes "12") ≡ some (pos 12))
    × (atoi (codes "-3") ≡ some (negsuc 2))
    × (atoi (codes "+0") ≡ some (pos 0))
    × (atoi (codes "1 ") ≡ none)
    × (atoi (codes "9223372036854775808") ≡ none)
unfolding atoi
atoi_example = (refl, refl, refl, refl, refl)

-- The number that 64 bits stand for.
unfoldable pub signed64 : ℕ → ℤ
signed64 w = if ltb w (2 ^ 63) then pos w else negsuc (2 ^ 64 - w - 1)

-- `time.Duration(i) * unit`, which wraps.
unfoldable pub duration : ℤ → ℕ → ℤ
unfolding signed64
duration (pos n) unit = signed64 (n * unit % 2 ^ 64)
duration (negsuc n) unit = signed64 ((2 ^ 64 - suc n * unit % 2 ^ 64) % 2 ^ 64)

duration_example : duration (negsuc 1) 1000 ≡ negsuc 1999
unfolding duration
duration_example = refl

-- A product that fits is the product.
pub duration_fits : (n unit : ℕ) → n * unit < 2 ^ 63 → duration (pos n) unit ≡ pos (n * unit)
unfolding duration
duration_fits n unit h = ground arith
