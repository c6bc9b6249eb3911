-- ===== src/Go/Trim/Plain.antt =====
-- Text of visible ASCII characters has no white space to trim.
use mathlib.Core.List.{reverse-cons, reverse-reverse}
use mesh_monday.Base.{ℕ, ◌≤◌, ◌<◌, ◌≡◌, refl, [], ◌∷◌, reverse, arith, Bytes, All, All-append}
use mesh_monday.Go.Trim.{front, back, trim_from, trim_space}

abbrev pub IsVisible : ℕ → Type 0
IsVisible c = (33 ≤ c) × (c < 128)

front-visible : (s : Bytes) → All IsVisible s → front s ≡ 0
unfolding front
front-visible [] h = refl
front-visible (a ∷ []) h = ground arith
front-visible (a ∷ b ∷ []) h = ground arith
front-visible (a ∷ b ∷ c ∷ s) h = ground arith

back-visible : (s : Bytes) → All IsVisible s → back s ≡ 0
unfolding back
back-visible [] h = refl
back-visible (a ∷ []) h = ground arith
back-visible (b ∷ a ∷ []) h = ground arith
back-visible (c ∷ b ∷ a ∷ s) h = ground arith

trim_from-stop : (white : Bytes → ℕ) (s : Bytes) → white s ≡ 0 → trim_from white 0 s ≡ s
unfolding trim_from
trim_from-stop white [] h = refl
trim_from-stop white (c ∷ s) h = ground arith

All-reverse : (s : Bytes) → All IsVisible s → All IsVisible (reverse s)
All-reverse [] h = h
All-reverse (c ∷ s) h =
    rw (reverse-cons c s) (All-append IsVisible (reverse s) (c ∷ []) (All-reverse s h.1) (h.0, tt))

-- Trimming leaves such a text alone.
pub trim_space-visible : (s : Bytes) → All IsVisible s → trim_space s ≡ s
unfolding trim_space
trim_space-visible s h = rw (trim_from-stop front s (front-visible s h)) (
    rw (trim_from-stop back (reverse s) (back-visible (reverse s) (All-reverse s h)))
      (reverse-reverse s))
