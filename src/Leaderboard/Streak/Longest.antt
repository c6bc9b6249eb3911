-- ===== src/Leaderboard/Streak/Longest.antt =====
-- `longestMondayStreak` on the weeks that the store gives, which are midnights of Mondays in UTC.
use mesh_monday.Base.{
  ℕ, ◌*◌, ◌%◌, ◌≡◌, refl, sym, subst, List, [], ◌∷◌, inl, inr, arith, Bool-cases, All, ◌==◌, any_of,
}
use mesh_monday.Go.Time.{Time, day_of, day_seconds, before}
use mesh_monday.Go.Sort.{sort_slice}
use mesh_monday.Go.Sort.Order.{IsRanking, All-perm, any_of-perm, sort_slice_rearranges}
use mesh_monday.Go.Sort.Sorted.{IsSorted, sort_slice-IsSorted}
use mesh_monday.Leaderboard.Streak.{
  week_seconds, same_day, dedup_in_place, from_first, longest_monday_streak,
}
use mesh_monday.Leaderboard.Streak.InPlace.{dedup_from, dedup_in_place-dedup_from}
use mesh_monday.Leaderboard.Streak.Runs.{IsLongest, IsLongest-same}
use mesh_monday.Leaderboard.Streak.Walk.{IsAscending, has_week, from_first-IsLongest}

abbrev unix_of : Time → ℕ
unix_of t = t.unix

before-IsRanking : IsRanking unix_of before
before-IsRanking = record {
  one_way = λ x y e. ground arith;
  total = λ x y ne e. ground arith;
  between = λ x y z e f. ground arith;
}

-- Midnight of a Monday, with a clock that shows it.
abbrev pub IsMidnightMonday : Time → Type 0
IsMidnightMonday t = (t.unix % week_seconds ≡ 0) × (day_of t * day_seconds ≡ t.unix)

has_week-dedup_from :
    (previous : Time) (weeks : List Time)
    → IsMidnightMonday previous
    → All IsMidnightMonday weeks
    → (u : ℕ) → has_week (previous ∷ dedup_from previous weeks) u ≡ has_week (previous ∷ weeks) u
unfolding has_week any_of dedup_from same_day
has_week-dedup_from previous [] m ms u = refl
has_week-dedup_from previous (x ∷ xs) m (mx, ms) u =
    ground (arith, has_week-dedup_from x xs mx ms u)

dedup_from-IsAscending :
    (previous : Time) (weeks : List Time)
    → IsMidnightMonday previous
    → All IsMidnightMonday weeks
    → IsSorted before (previous ∷ weeks)
    → IsAscending previous.unix (dedup_from previous weeks)
unfolding dedup_from same_day
dedup_from-IsAscending previous [] m ms h = tt
dedup_from-IsAscending previous (x ∷ xs) m (mx, ms) ((hx, _), h) =
    let rest = dedup_from-IsAscending x xs mx ms h in
    elim (Bool-cases (day_of x == day_of previous)) [
      | inl e ↦ rw e (subst (λ u. IsAscending u (dedup_from x xs)) (ground (arith, m, mx)) rest)
      | inr e ↦ rw e (ground (arith, m, mx), mx.0, rest)
    ]

-- Without weeks there is no run.
no_weeks-IsLongest : (start : ℕ) → IsLongest (has_week []) start 0
unfolding has_week any_of
no_weeks-IsLongest start = (
  λ k lt. absurd (omega arith),
  λ from m r. elim (Bool-cases (m == 0)) [ inl e ↦ ground arith | inr e ↦ cc (r 0 (ground arith)) ],
)

sorted-IsLongest :
    (weeks : List Time)
    → All IsMidnightMonday weeks
    → IsSorted before weeks
    → IsLongest
        (has_week weeks)
        (from_first (dedup_in_place weeks)).1.unix
        (from_first (dedup_in_place weeks)).0
unfolding from_first dedup_in_place
sorted-IsLongest [] ms h = no_weeks-IsLongest 0
sorted-IsLongest (w ∷ ws) (m, ms) h = rw (dedup_in_place-dedup_from w ws) (
    IsLongest-same (has_week (w ∷ dedup_from w ws)) (has_week (w ∷ ws))
      (has_week-dedup_from w ws m ms) (from_first (w ∷ dedup_from w ws)).1.unix
      (from_first (w ∷ dedup_from w ws)).0
      (from_first-IsLongest w (dedup_from w ws) m.0 (dedup_from-IsAscending w ws m ms h)))

-- For weeks that are midnights of Mondays, the streak is a run of weeks that are all there, and no
-- such run is longer.
pub longest_monday_streak-IsLongest :
    (weeks : List Time)
    → All IsMidnightMonday weeks
    → IsLongest
        (has_week weeks)
        (longest_monday_streak weeks).1.unix
        (longest_monday_streak weeks).0
unfolding longest_monday_streak has_week
longest_monday_streak-IsLongest [] ms = no_weeks-IsLongest 0
longest_monday_streak-IsLongest (w ∷ ws) ms =
    let sorted = sort_slice before (w ∷ ws) in
    let perm = sort_slice_rearranges before (w ∷ ws) in
    let streak = from_first (dedup_in_place sorted) in
    IsLongest-same (has_week sorted) (has_week (w ∷ ws))
      (λ u. sym (any_of-perm (λ (t : Time). t.unix == u) perm)) streak.1.unix streak.0
      (sorted-IsLongest sorted (All-perm IsMidnightMonday perm ms)
        (sort_slice-IsSorted unix_of before before-IsRanking (w ∷ ws)))
