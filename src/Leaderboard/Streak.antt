-- ===== src/Leaderboard/Streak.antt =====
-- `longestMondayStreak`: sort the weeks, drop repeated days in place, and walk over what is left.
pub mod InPlace
pub mod Runs
pub mod Walk
pub mod Longest
use mesh_monday.Base.{
  ℕ, zero, suc, ◌+◌, ◌-◌, ◌*◌, Bool, true, false, List, [], ◌∷◌, ltb, ◌==◌, if◌then◌else◌, length,
  take, get_or, set,
}
use mesh_monday.Go.Time.{Time, utc, day_of, before}
use mesh_monday.Go.Sort.{sort_slice}

-- Seven days, in seconds.
abbrev pub week_seconds : ℕ
week_seconds = 604800

abbrev pub zero_time : Time
zero_time = record { unix = 0; zone = utc }

-- `sameDay`: the dates of the two clocks, as text.
unfoldable pub same_day : Time → Time → Bool
same_day a b = day_of a == day_of b

-- The loop that drops repeats. `dedup := weeks[:1]` shares the array of `weeks`, so each `append`
-- writes into the array that the loop still reads: `len` is the length of `dedup`, `i` the index.
pub dedup_loop : ℕ → ℕ → ℕ → List Time → List Time
dedup_loop zero i len weeks = take len weeks
dedup_loop (suc rounds) i len weeks =
    let week = get_or weeks i zero_time in
    let kept = dedup_loop rounds (i + 1) (len + 1) (set weeks len week) in
    let skipped = dedup_loop rounds (i + 1) len weeks in
    if same_day week (get_or weeks (i - 1) zero_time) then skipped else kept

pub dedup_in_place : List Time → List Time
unfolding dedup_loop
dedup_in_place weeks = dedup_loop (length weeks - 1) 1 1 weeks

-- The streaks so far: the best, where it began, the current one and where that began.
pub record Streaks : Type 0 where
  pub best : ℕ
  pub best_start : Time
  pub current : ℕ
  pub current_start : Time

-- One round, at `week` behind `previous`.
pub streak_step : Streaks → Time → Time → Streaks
streak_step s previous week =
    let goes_on = week.unix == previous.unix + week_seconds in
    let current = if goes_on then s.current + 1 else 1 in
    let current_start = if goes_on then s.current_start else week in
    let better = ltb s.best current in
    record {
      best = if better then current else s.best;
      best_start = if better then current_start else s.best_start;
      current = current;
      current_start = current_start;
    }

pub streak_loop : Streaks → Time → List Time → ℕ × Time
unfolding streak_step
streak_loop s previous [] = (s.best, s.best_start)
streak_loop s previous (week ∷ weeks) = streak_loop (streak_step s previous week) week weeks

pub from_first : List Time → ℕ × Time
from_first [] = (0, zero_time)
from_first (week ∷ weeks) =
    streak_loop (record { best = 1; best_start = week; current = 1; current_start = week }) week
      weeks

-- The length of the longest streak and the week that it starts with.
unfoldable pub longest_monday_streak : List Time → ℕ × Time
unfolding dedup_in_place from_first streak_loop
longest_monday_streak [] = (0, zero_time)
longest_monday_streak (week ∷ weeks) =
    from_first (dedup_in_place (sort_slice before (week ∷ weeks)))
