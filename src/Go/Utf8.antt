-- ===== src/Go/Utf8.antt =====
-- `unicode/utf8` and conversions between strings and runes.
use mesh_monday.Base.{
  ℕ, zero, suc, ◌≡◌, refl, Bool, true, false, ◌&&◌, ◌||◌, [], ◌∷◌, Bytes, ltb, leb, ◌==◌,
  if◌then◌else◌, get_or,
}

-- How many bytes a first byte announces; 0 if it begins no character.
announced : ℕ → ℕ
announced a =
    if ltb a 0x80
    then 1
    else if leb 0xC2 a && leb a 0xDF
    then 2
    else if leb 0xE0 a && leb a 0xEF
    then 3
    else if leb 0xF0 a && leb a 0xF4
    then 4
    else 0

-- The second bytes that may follow: neither an overlong form, nor a surrogate, nor past U+10FFFF.
second_fits : ℕ → ℕ → Bool
second_fits a b =
    leb (if a == 0xE0 then 0xA0 else if a == 0xF0 then 0x90 else 0x80) b
    && leb b (if a == 0xED then 0x9F else if a == 0xF4 then 0x8F else 0xBF)

is_continuation : ℕ → Bool
is_continuation b = leb 0x80 b && leb b 0xBF

-- The length of the character at the head; 0 if its bytes are no valid character.
rune_size : Bytes → ℕ
unfolding announced second_fits is_continuation
rune_size [] = 0
rune_size (a ∷ s) =
    let n = announced a in
    if ltb n 2
    then n
    else if second_fits a (get_or s 0 0)
        && ((ltb n 3 || is_continuation (get_or s 1 0))
            && (ltb n 4 || is_continuation (get_or s 2 0)))
    then n
    else 0

-- The first argument counts the bytes of the current character that are still to come.
valid_from : ℕ → Bytes → Bool
unfolding rune_size
valid_from n [] = true
valid_from (suc n) (c ∷ s) = valid_from n s
valid_from zero (c ∷ s) = elim (rune_size (c ∷ s)) [ zero ↦ false | suc k ↦ valid_from k s ]

-- `utf8.Valid`
unfoldable pub valid : Bytes → Bool
unfolding valid_from
valid s = valid_from 0 s

count_from : ℕ → Bytes → ℕ
unfolding rune_size
count_from n [] = 0
count_from (suc n) (c ∷ s) = count_from n s
count_from zero (c ∷ s) = elim (rune_size (c ∷ s)) [
  | zero ↦ suc (count_from 0 s)
  | suc k ↦ suc (count_from k s)
]

-- `len([]rune(s))`; an invalid byte is a rune of its own.
unfoldable pub rune_count : Bytes → ℕ
unfolding count_from
rune_count s = count_from 0 s

take_from : ℕ → ℕ → Bytes → Bytes
unfolding rune_size
take_from limit n [] = []
take_from limit (suc n) (c ∷ s) = c ∷ take_from limit n s
take_from zero zero (c ∷ s) = []
take_from (suc limit) zero (c ∷ s) = elim (rune_size (c ∷ s)) [
  | zero ↦ 0xEF ∷ 0xBF ∷ 0xBD ∷ take_from limit 0 s
  | suc k ↦ c ∷ take_from limit k s
]

-- `string([]rune(s)[:limit])`; an invalid byte becomes U+FFFD.
unfoldable pub take_runes : ℕ → Bytes → Bytes
unfolding take_from
take_runes limit s = take_from limit 0 s

valid_table :
    (valid (0xF0 ∷ 0x9F ∷ 0x8C ∷ 0xB2 ∷ []) ≡ true) × (valid (0xE0 ∷ 0x80 ∷ 0x80 ∷ []) ≡ false)
unfolding valid
valid_table = (refl, refl)

two_runes : take_runes 2 (b'a' ∷ 0xFF ∷ b'b' ∷ []) ≡ b'a' ∷ 0xEF ∷ 0xBF ∷ 0xBD ∷ []
unfolding take_runes
two_runes = refl
