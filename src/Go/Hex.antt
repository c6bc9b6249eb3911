-- ===== src/Go/Hex.antt =====
-- `encoding/hex`.
use mesh_monday.Base.{
  ℕ, ◌+◌, ◌-◌, ◌*◌, ◌/◌, ◌%◌, ◌<◌, ◌≡◌, refl, ◌&&◌, [], ◌∷◌, Option, none, some, arith, Bytes,
  codes, ltb, leb, if◌then◌else◌, length, All, ap,
}
use mesh_monday.Go.Text.{trim_prefix}
use mesh_monday.Go.Trim.Plain.{IsVisible}

abbrev pub IsByte : ℕ → Type 0
IsByte b = b < 256

hex_value : ℕ → Option ℕ
hex_value c =
    if leb b'0' c && leb c b'9'
    then some (c - 48)
    else if leb b'a' c && leb c b'f'
    then some (c - 87)
    else if leb b'A' c && leb c b'F'
    then some (c - 55)
    else none

pair : Option ℕ → Option ℕ → Option Bytes → Option Bytes
pair (some x) (some y) (some r) = some ((x * 16 + y) ∷ r)
pair _ _ _ = none

-- `hex.DecodeString`; an odd length and a byte that is no digit are errors.
unfoldable pub decode_string : Bytes → Option Bytes
unfolding hex_value pair
decode_string [] = some []
decode_string (a ∷ []) = none
decode_string (a ∷ b ∷ s) = pair (hex_value a) (hex_value b) (decode_string s)

hex_digit : ℕ → ℕ
hex_digit n = if ltb n 10 then 48 + n else 87 + n

-- `hex.EncodeToString`, in lower case.
unfoldable pub encode_to_string : Bytes → Bytes
unfolding hex_digit
encode_to_string [] = []
encode_to_string (b ∷ s) = hex_digit (b / 16) ∷ hex_digit (b % 16) ∷ encode_to_string s

pub decode_string-encode_to_string :
    (s : Bytes) → All IsByte s → decode_string (encode_to_string s) ≡ some s
unfolding decode_string encode_to_string
decode_string-encode_to_string [] h = refl
decode_string-encode_to_string (b ∷ s) h = ground (arith, decode_string-encode_to_string s h.1)

hex_value-lt : (c : ℕ) {x : ℕ} → hex_value c ≡ some x → x < 16
unfolding hex_value
hex_value-lt c h = ground arith

pair_inv :
    (o q : Option ℕ) (t : Option Bytes) {r : Bytes}
    → pair o q t ≡ some r
    → (x y : ℕ) × (u : Bytes) × (o ≡ some x) × (q ≡ some y) × (t ≡ some u) × (r ≡ (x * 16 + y) ∷ u)
unfolding pair
pair_inv (some x) (some y) (some u) h = (x, y, u, refl, refl, refl, cc)
pair_inv none q t h = cc
pair_inv (some x) none t h = cc
pair_inv (some x) (some y) none h = cc

-- What decodes has two digits for each byte.
pub length-decode_string :
    (s : Bytes) {r : Bytes} → decode_string s ≡ some r → length s ≡ 2 * length r
unfolding decode_string
length-decode_string [] h = ground arith
length-decode_string (a ∷ []) h = cc
length-decode_string (a ∷ b ∷ s) h =
    let (x, y, u, p, q, t, e) = pair_inv _ _ _ h in
    omega (arith, length-decode_string s t, ap {B = ℕ} length e)

-- What is decoded is a sequence of bytes.
pub decode_string-IsByte : (s : Bytes) {r : Bytes} → decode_string s ≡ some r → All IsByte r
unfolding decode_string
decode_string-IsByte [] {r} h = let e : r ≡ [] = ground arith in rw e tt
decode_string-IsByte (a ∷ []) h = cc
decode_string-IsByte (a ∷ b ∷ s) h =
    let (x, y, u, p, q, t, e) = pair_inv _ _ _ h in
    rw e (omega (arith, hex_value-lt a p, hex_value-lt b q), decode_string-IsByte s t)

-- The digits are visible ASCII, and a second digit is never the `x` of a `0x` prefix.
pub encode_to_string-IsVisible : (s : Bytes) → All IsByte s → All IsVisible (encode_to_string s)
unfolding encode_to_string
encode_to_string-IsVisible [] h = tt
encode_to_string-IsVisible (b ∷ s) h =
    (ground (arith, h.0), (ground (arith, h.0), encode_to_string-IsVisible s h.1))

pub trim_prefix-encode_to_string :
    (s : Bytes) → All IsByte s → trim_prefix (encode_to_string s) (codes "0x") ≡ encode_to_string s
unfolding encode_to_string trim_prefix
trim_prefix-encode_to_string [] h = refl
trim_prefix-encode_to_string (b ∷ s) h = ground (arith, h.0)

hex_example : decode_string (codes "0aFF") ≡ some (10 ∷ 255 ∷ [])
unfolding decode_string
hex_example = refl
