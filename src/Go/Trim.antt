-- ===== src/Go/Trim.antt =====
-- `strings.TrimSpace`: white space is Unicode's, read as its UTF-8 bytes from either end.
pub mod Plain
use mesh_monday.Base.{
  ℕ, zero, suc, ◌≡◌, refl, Bool, ◌&&◌, ◌||◌, [], ◌∷◌, reverse, Bytes, codes, leb, ◌==◌,
  if◌then◌else◌,
}

-- tab, line feed, vertical tab, form feed, carriage return, space
is_space : ℕ → Bool
is_space c = (leb 9 c && leb c 13) || c == 32

-- U+0085 and U+00A0
is_space2 : ℕ → ℕ → Bool
is_space2 a b = a == 0xC2 && (b == 0x85 || b == 0xA0)

-- U+1680, U+2000 to U+200A, U+2028, U+2029, U+202F, U+205F, U+3000
is_space3 : ℕ → ℕ → ℕ → Bool
is_space3 a b c =
    (a == 0xE1 && b == 0x9A && c == 0x80)
    || (a == 0xE2
        && b == 0x80
        && ((leb 0x80 c && leb c 0x8A) || c == 0xA8 || c == 0xA9 || c == 0xAF))
    || (a == 0xE2 && b == 0x81 && c == 0x9F)
    || (a == 0xE3 && b == 0x80 && c == 0x80)

-- How many bytes the white space at the head takes; 0 if there is none.
front : Bytes → ℕ
unfolding is_space is_space2 is_space3
front [] = 0
front (a ∷ []) = if is_space a then 1 else 0
front (a ∷ b ∷ []) = if is_space a then 1 else if is_space2 a b then 2 else 0
front (a ∷ b ∷ c ∷ s) =
    if is_space a then 1 else if is_space2 a b then 2 else if is_space3 a b c then 3 else 0

-- The same for a reversed text.
back : Bytes → ℕ
unfolding is_space is_space2 is_space3
back [] = 0
back (a ∷ []) = if is_space a then 1 else 0
back (b ∷ a ∷ []) = if is_space b then 1 else if is_space2 a b then 2 else 0
back (c ∷ b ∷ a ∷ s) =
    if is_space c then 1 else if is_space2 b c then 2 else if is_space3 a b c then 3 else 0

module _ (white : Bytes → ℕ) where
  -- The first argument counts the bytes of a character that are still to be dropped.
  trim_from : ℕ → Bytes → Bytes
  trim_from n [] = []
  trim_from (suc n) (c ∷ s) = trim_from n s
  trim_from zero (c ∷ s) = elim (white (c ∷ s)) [ zero ↦ c ∷ s | suc k ↦ trim_from k s ]

unfoldable pub trim_space : Bytes → Bytes
unfolding trim_from front back
trim_space s = reverse (trim_from back 0 (reverse (trim_from front 0 s)))

trim_both : trim_space (codes " \t a b\n ") ≡ codes "a b"
unfolding trim_space
trim_both = refl

trim_unicode : trim_space (0xE3 ∷ 0x80 ∷ 0x80 ∷ b'x' ∷ 0xC2 ∷ 0xA0 ∷ []) ≡ codes "x"
unfolding trim_space
trim_unicode = refl
