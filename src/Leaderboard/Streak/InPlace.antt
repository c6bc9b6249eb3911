-- ===== src/Leaderboard/Streak/InPlace.antt =====
-- The in-place loop writes only where it has read already: it leaves the list that a loop over a
-- copy would leave.
use mesh_monday.Base.{
  ℕ, zero, suc, ◌+◌, ◌-◌, ◌≤◌, ◌≡◌, refl, ap, sym, ◌∙◌, List, [], ◌∷◌, ◌++◌, append_assoc,
  append-nil, inl, inr, arith, if◌then◌else◌, length, length-append, take-append, get_or,
  get_or-append, set, Bool-cases,
}
use mesh_monday.Go.Time.{Time}
use mesh_monday.Leaderboard.Streak.{zero_time, same_day, dedup_loop, dedup_in_place}

-- The weeks behind `previous` that are of another day than the one before them.
unfoldable pub dedup_from : Time → List Time → List Time
dedup_from previous [] = []
dedup_from previous (week ∷ weeks) =
    let rest = dedup_from week weeks in if same_day week previous then rest else week ∷ rest

set-append :
    (n : ℕ) (xs : List Time) (y v : Time) (ys : List Time)
    → length xs ≡ n
    → set (xs ++ (y ∷ ys)) n v ≡ xs ++ (v ∷ ys)
set-append zero [] y v ys e = refl
set-append zero (x ∷ xs) y v ys e = absurd (omega arith)
set-append (suc n) [] y v ys e = absurd (omega arith)
set-append (suc n) (x ∷ xs) y v ys e = ap (◌∷◌ x) (set-append n xs y v ys (omega arith))

-- The array is what is kept, then what was skipped, then what is still to be read.
abbrev cells : List Time → List Time → List Time → List Time
cells kept junk rest = kept ++ (junk ++ rest)

-- Where the loop stands: its two indices, and the week before the next one.
abbrev Stands : List Time → List Time → List Time → ℕ → ℕ → Time → Type 0
Stands kept junk rest i len previous =
    (length kept ≡ len)
    × (length kept + length junk ≡ i)
    × (1 ≤ i)
    × (get_or (cells kept junk rest) (i - 1) zero_time ≡ previous)

get_or-cells :
    (kept junk : List Time) (x : Time) (xs : List Time) (i : ℕ)
    → length kept + length junk ≡ i
    → get_or (cells kept junk (x ∷ xs)) i zero_time ≡ x
get_or-cells kept junk x xs i e =
    rw (← append_assoc kept junk (x ∷ xs))
      (get_or-append i (kept ++ junk) x xs zero_time (omega (arith, length-append kept junk)))

-- A repeat moves the week to what was skipped.
Stands-skip :
    (kept junk : List Time) (x : Time) (xs : List Time) (i len : ℕ) (previous : Time)
    → Stands kept junk (x ∷ xs) i len previous
    → Stands kept (junk ++ x ∷ []) xs (i + 1) len x
Stands-skip kept junk x xs i len previous (el, ei, pos, ep) = (
  el,
  omega (arith, length-append junk (x ∷ [])),
  omega arith,
  rw append_assoc (
      ap (λ k. get_or (cells kept junk (x ∷ xs)) k zero_time) (omega arith)
      ∙ get_or-cells kept junk x xs i ei),
)

-- What was skipped, after its first place was taken by the week.
shift : List Time → Time → List Time
shift [] x = []
shift (j ∷ junk) x = junk ++ x ∷ []

set-cells :
    (kept junk : List Time) (x : Time) (xs : List Time) (len : ℕ)
    → length kept ≡ len
    → set (cells kept junk (x ∷ xs)) len x ≡ cells (kept ++ x ∷ []) (shift junk x) xs
unfolding shift
set-cells kept [] x xs len e = set-append len kept x x xs e ∙ sym (append_assoc kept (x ∷ []) xs)
set-cells kept (j ∷ junk) x xs len e =
    set-append len kept j x (junk ++ (x ∷ xs)) e
    ∙ rw (append_assoc kept (x ∷ []) ((junk ++ x ∷ []) ++ xs), append_assoc junk (x ∷ []) xs) refl

length-shift : (junk : List Time) (x : Time) → length (shift junk x) ≡ length junk
unfolding shift
length-shift [] x = refl
length-shift (j ∷ junk) x = omega (arith, length-append junk (x ∷ []))

Stands-keep :
    (kept junk : List Time) (x : Time) (xs : List Time) (i len : ℕ) (previous : Time)
    → Stands kept junk (x ∷ xs) i len previous
    → Stands (kept ++ x ∷ []) (shift junk x) xs (i + 1) (len + 1) x
unfolding shift
Stands-keep kept [] x xs i len previous (el, ei, pos, ep) = (
  omega (arith, length-append kept (x ∷ [])),
  omega (arith, length-append kept (x ∷ [])),
  omega arith,
  rw (append_assoc kept (x ∷ []) xs) (
      ap (λ k. get_or (kept ++ x ∷ xs) k zero_time) (omega arith)
      ∙ get_or-append i kept x xs zero_time (omega arith)),
)
Stands-keep kept (j ∷ junk) x xs i len previous (el, ei, pos, ep) = (
  omega (arith, length-append kept (x ∷ [])),
  omega (arith, length-append kept (x ∷ []), length-append junk (x ∷ [])),
  omega arith,
  rw (append_assoc junk (x ∷ []) xs, ← append_assoc (kept ++ x ∷ []) junk (x ∷ xs))
      (ap (λ k. get_or (((kept ++ x ∷ []) ++ junk) ++ x ∷ xs) k zero_time) (omega arith)
        ∙ get_or-append i ((kept ++ x ∷ []) ++ junk) x xs zero_time
            (omega (arith, length-append (kept ++ x ∷ []) junk, length-append kept (x ∷ [])))),
)

dedup_loop-dedup_from :
    (rest kept junk : List Time) (i len : ℕ) (previous : Time)
    → Stands kept junk rest i len previous
    → dedup_loop (length rest) i len (cells kept junk rest) ≡ kept ++ dedup_from previous rest
unfolding dedup_loop dedup_from
dedup_loop-dedup_from [] kept junk i len previous (el, ei, pos, ep) =
    take-append len kept (junk ++ []) el ∙ sym (append-nil kept)
dedup_loop-dedup_from (x ∷ xs) kept junk i len previous (el, ei, pos, ep) =
    rw (get_or-cells kept junk x xs i ei, ep, set-cells kept junk x xs len el)
      (elim (Bool-cases (same_day x previous)) [
        | inl e ↦ rw e (
            rw (← append_assoc junk (x ∷ []) xs) (
              dedup_loop-dedup_from xs kept (junk ++ x ∷ []) (i + 1) len x
                (Stands-skip kept junk x xs i len previous (el, ei, pos, ep))))
        | inr e ↦ rw e (
            dedup_loop-dedup_from xs (kept ++ x ∷ []) (shift junk x) (i + 1) (len + 1) x
              (Stands-keep kept junk x xs i len previous (el, ei, pos, ep))
            ∙ append_assoc kept (x ∷ []) (dedup_from x xs))
      ])

-- Dropping repeats in place gives the first week and then each week of another day than the one
-- before it.
pub dedup_in_place-dedup_from :
    (week : Time) (weeks : List Time) → dedup_in_place (week ∷ weeks) ≡ week ∷ dedup_from week weeks
unfolding dedup_in_place
dedup_in_place-dedup_from week weeks =
    ap (λ n. dedup_loop n 1 1 (week ∷ weeks)) (omega arith)
    ∙ dedup_loop-dedup_from weeks (week ∷ []) [] 1 1 week (refl, refl, omega arith, refl)
