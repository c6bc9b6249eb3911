-- ===== src/Go/Text.antt =====
-- The `strings` package: case, splitting, searching and joining.
use mesh_monday.Base.{
  ℕ, suc, ◌+◌, ◌-◌, ◌≡◌, refl, Bool, true, false, ◌&&◌, List, [], ◌∷◌, ◌++◌, map, Option, none,
  some, Bytes, codes, ltb, leb, ◌==◌, if◌then◌else◌, drop, length,
}
use mesh_monday.Platform.{Platform}

-- Every byte is below 0x80.
unfoldable pub is_ascii : Bytes → Bool
is_ascii [] = true
is_ascii (c ∷ s) = ltb c 0x80 && is_ascii s

unfoldable pub lower_byte : ℕ → ℕ
lower_byte c = if leb b'A' c && leb c b'Z' then c + 32 else c

unfoldable pub upper_byte : ℕ → ℕ
upper_byte c = if leb b'a' c && leb c b'z' then c - 32 else c

-- `strings.ToLower`: the ASCII path maps bytes, the other one is the table's.
unfoldable pub to_lower : Platform → Bytes → Bytes
unfolding is_ascii lower_byte
to_lower p s = if is_ascii s then map lower_byte s else p.lower_unicode s

unfoldable pub to_upper : Platform → Bytes → Bytes
unfolding is_ascii upper_byte
to_upper p s = if is_ascii s then map upper_byte s else p.upper_unicode s

-- `strings.HasPrefix s prefix`
unfoldable pub has_prefix : Bytes → Bytes → Bool
has_prefix s [] = true
has_prefix [] (b ∷ t) = false
has_prefix (a ∷ s) (b ∷ t) = elim (a == b) [ true ↦ has_prefix s t | false ↦ false ]

unfoldable pub trim_prefix : Bytes → Bytes → Bytes
unfolding has_prefix
trim_prefix s t = if has_prefix s t then drop (length t) s else s

-- `strings.Index s sub`; -1 is `none`.
unfoldable pub index : Bytes → Bytes → Option ℕ
unfolding has_prefix
index [] sub = if has_prefix [] sub then some 0 else none
index (c ∷ s) sub = elim (has_prefix (c ∷ s) sub) [
  | true ↦ some 0
  | false ↦ elim (index s sub) [ none ↦ none | some i ↦ some (suc i) ]
]

unfoldable pub contains : Bytes → Bytes → Bool
unfolding index
contains s sub = elim (index s sub) [ none ↦ false | some _ ↦ true ]

-- `strings.ContainsAny`, for ASCII characters.
unfoldable pub contains_byte : ℕ → Bytes → Bool
contains_byte b [] = false
contains_byte b (c ∷ s) = elim (c == b) [ true ↦ true | false ↦ contains_byte b s ]

unfoldable pub contains_any : Bytes → Bytes → Bool
unfolding contains_byte
contains_any [] chars = false
contains_any (c ∷ s) chars = elim (contains_byte c chars) [
  | true ↦ true
  | false ↦ contains_any s chars
]

abbrev cons_head : ℕ → List Bytes → List Bytes
cons_head c [] = (c ∷ []) ∷ []
cons_head c (p ∷ ps) = (c ∷ p) ∷ ps

-- `strings.Split` at a separator of one byte.
unfoldable pub split : Bytes → ℕ → List Bytes
split [] sep = [] ∷ []
split (c ∷ s) sep = let rest = split s sep in if c == sep then [] ∷ rest else cons_head c rest

unfoldable pub join : List Bytes → Bytes → Bytes
join [] sep = []
join (p ∷ []) sep = p
join (p ∷ q ∷ ps) sep = p ++ (sep ++ join (q ∷ ps) sep)

split_topic : split (codes "a/b//c") b'/' ≡ codes "a" ∷ codes "b" ∷ [] ∷ codes "c" ∷ []
unfolding split
split_topic = refl
