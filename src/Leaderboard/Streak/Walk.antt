-- ===== src/Leaderboard/Streak/Walk.antt =====
-- The walk over ascending weeks finds the longest run of weeks in a row.
use mesh_monday.Base.{
  ℕ, ◌+◌, ◌*◌, ◌%◌, ◌≤◌, ◌<◌, ◌≡◌, inl, inr, Bool, true, false, ◌||◌, List, [], ◌∷◌, arith,
  Bool-cases, ltb, leb, ◌==◌, if◌then◌else◌, any_of,
}
use mesh_monday.Go.Time.{Time}
use mesh_monday.Leaderboard.Streak.{Streaks, week_seconds, streak_step, streak_loop, from_first}
use mesh_monday.Leaderboard.Streak.Runs.{
  IsRun, IsLongest, IsLongest-same, and_week, IsRun-and_week, IsRun-suc, IsRun-bound,
}

-- What the walk knows at `previous`, the last of the weeks it has seen.
record IsWalk (seen : ℕ → Bool) (s : Streaks) (previous : ℕ) : Type 0 where
  longest : IsLongest seen s.best_start.unix s.best
  running : IsRun seen s.current_start.unix s.current
  reaches : s.current_start.unix + s.current * week_seconds ≡ previous + week_seconds
  starts : (u : ℕ) → u + week_seconds ≡ s.current_start.unix → seen u ≡ false
  bounded : (u : ℕ) → seen u ≡ true → u ≤ previous
  better : s.current ≤ s.best
  some_week : 1 ≤ s.current

-- The walk after a round in which the current run became `current` weeks from `start`.
IsWalk-round :
    (seen : ℕ → Bool) (s : Streaks) (previous x : ℕ) (start : Time) (current : ℕ)
    → IsWalk seen s previous
    → previous < x
    → IsRun (and_week seen x) start.unix current
    → start.unix + current * week_seconds ≡ x + week_seconds
    → ((u : ℕ) → u + week_seconds ≡ start.unix → seen u ≡ false)
    → 1 ≤ current
    → IsWalk
        (and_week seen x)
        (record {
          best = if ltb s.best current then current else s.best;
          best_start = if ltb s.best current then start else s.best_start;
          current = current;
          current_start = start;
        })
        x
IsWalk-round seen s previous x start current w lt running reaches starts some_week =
    let below : (u : ℕ) → seen u ≡ true → u < x = λ u e. omega (arith, w.bounded u e) in
    let bound =
      IsRun-bound seen x start.unix current s.best below starts reaches some_week w.longest.1 in
    elim (Bool-cases (ltb s.best current)) [
      | inl e ↦ rw e (record {
        longest = (running, λ from m r. ground (arith, bound from m r, e));
        running = running;
        reaches = reaches;
        starts = λ u f. ground (arith, starts u f, reaches);
        bounded = λ u f. ground (arith, below u);
        better = omega arith;
        some_week = some_week;
      })
      | inr e ↦ rw e (record {
        longest = (
          IsRun-and_week seen x s.best_start.unix s.best w.longest.0,
          λ from m r. ground (arith, bound from m r, e),
        );
        running = running;
        reaches = reaches;
        starts = λ u f. ground (arith, starts u f, reaches);
        bounded = λ u f. ground (arith, below u);
        better = ground (arith, e);
        some_week = some_week;
      })
    ]

-- The weeks stand in order, each later than the one before it, and all begin on a Monday.
abbrev pub IsAscending : ℕ → List Time → Type 0
IsAscending previous [] = Unit
IsAscending previous (week ∷ weeks) =
    (previous < week.unix) × (week.unix % week_seconds ≡ 0) × IsAscending week.unix weeks

-- A round of the walk at a later Monday.
IsWalk-streak_step :
    (seen : ℕ → Bool) (s : Streaks) (previous week : Time)
    → IsWalk seen s previous.unix
    → previous.unix % week_seconds ≡ 0
    → previous.unix < week.unix
    → week.unix % week_seconds ≡ 0
    → IsWalk (and_week seen week.unix) (streak_step s previous week) week.unix
unfolding streak_step
IsWalk-streak_step seen s previous week w mp lt mw =
    elim (Bool-cases (week.unix == previous.unix + week_seconds)) [
      | inl e ↦
          let at_week : s.current_start.unix + s.current * week_seconds ≡ week.unix =
            ground (arith, w.reaches, e) in
          rw e (
            IsWalk-round seen s previous.unix week.unix s.current_start (s.current + 1) w lt
              (IsRun-suc seen week.unix s.current_start.unix s.current w.running at_week)
              (omega (arith, at_week)) w.starts (omega arith))
      | inr e ↦ rw e (
          IsWalk-round seen s previous.unix week.unix week 1 w lt (λ k f. ground arith)
            (omega arith)
            (λ u f. elim (Bool-cases (seen u)) [
              | inl g ↦ absurd (ground (arith, w.bounded u g, e))
              | inr g ↦ g
            ])
            (omega arith))
    ]

unfoldable pub has_week : List Time → ℕ → Bool
has_week weeks u = any_of (λ (t : Time). t.unix == u) weeks

streak_loop-IsLongest :
    (seen : ℕ → Bool) (s : Streaks) (previous : Time) (weeks : List Time)
    → IsWalk seen s previous.unix
    → previous.unix % week_seconds ≡ 0
    → IsAscending previous.unix weeks
    → IsLongest
        (λ u. seen u || has_week weeks u)
        (streak_loop s previous weeks).1.unix
        (streak_loop s previous weeks).0
unfolding streak_loop has_week any_of
streak_loop-IsLongest seen s previous [] w mp tt =
    IsLongest-same seen (λ u. seen u || has_week [] u) (λ u. ground arith) s.best_start.unix s.best
      w.longest
streak_loop-IsLongest seen s previous (week ∷ weeks) w mp (lt, mw, h) =
    let s' = streak_step s previous week in
    IsLongest-same (λ u. and_week seen week.unix u || has_week weeks u)
      (λ u. seen u || has_week (week ∷ weeks) u) (λ u. ground arith)
      (streak_loop s' week weeks).1.unix (streak_loop s' week weeks).0
      (streak_loop-IsLongest (and_week seen week.unix) s' week weeks
        (IsWalk-streak_step seen s previous week w mp lt mw) mw h)

-- The walk from the first of ascending weeks.
pub from_first-IsLongest :
    (week : Time) (weeks : List Time)
    → week.unix % week_seconds ≡ 0
    → IsAscending week.unix weeks
    → IsLongest
        (has_week (week ∷ weeks))
        (from_first (week ∷ weeks)).1.unix
        (from_first (week ∷ weeks)).0
unfolding from_first has_week any_of
from_first-IsLongest week weeks m h =
    let s : Streaks = record { best = 1; best_start = week; current = 1; current_start = week } in
    let seen : ℕ → Bool = λ u. week.unix == u in
    let first : IsRun seen week.unix 1 = λ k lt. ground arith in
    let w : IsWalk seen s week.unix = record {
      longest = (
        first,
        λ from m r. elim (Bool-cases (leb m 1)) [
          | inl e ↦ ground arith
          | inr e ↦ ground (arith, r 0 (ground arith), r 1 (ground arith))
        ],
      );
      running = first;
      reaches = omega arith;
      starts = λ u e. ground arith;
      bounded = λ u e. ground arith;
      better = omega arith;
      some_week = omega arith;
    } in
    IsLongest-same (λ u. seen u || has_week weeks u) (has_week (week ∷ weeks)) (λ u. ground arith)
      (streak_loop s week weeks).1.unix (streak_loop s week weeks).0
      (streak_loop-IsLongest seen s week weeks w m h)
