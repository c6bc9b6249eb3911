-- ===== src/Leaderboard/Tests.antt =====
-- The streaks of internal/leaderboard/service_test.go. 5 January 2026 is a Monday.
use mathlib.Core.List.{Permᴰ}
use mathlib.Core.List.Permᴰ
use mesh_monday.Base.{arith, List, Bytes, same, codes, map, All, ℕ, ◌+◌, ◌*◌, ◌≡◌, refl, [], ◌∷◌}
use mesh_monday.Go.Time.{Time, utc, day_of, local_seconds}
use mesh_monday.Go.Sort.{sort_slice}
use mesh_monday.Checkins.Tests.{plain}
use mesh_monday.Leaderboard.Compute.{
  RatedCheckin, UserState, LeaderboardEntry, compute, entry_of, by_user, add_checkin, ranks_before,
  string_less,
}
use mesh_monday.Leaderboard.Compute.Order.{
  username_of, IsBoardOrder, compute-visit, compute-IsBoardOrder,
}
use mesh_monday.Leaderboard.Compute.Totals.{IsCounted, compute-IsCounted}
use mesh_monday.Leaderboard.Compute.Users.{on_board, checked_in, compute-on_board}
use mesh_monday.Leaderboard.Streak.{same_day, dedup_in_place, longest_monday_streak}
use mesh_monday.Leaderboard.Streak.Runs.{IsLongest}
use mesh_monday.Leaderboard.Streak.Walk.{has_week}
use mesh_monday.Leaderboard.Streak.Longest.{IsMidnightMonday, longest_monday_streak-IsLongest}
use mesh_monday.Leaderboard.Streak.InPlace.{dedup_from, dedup_in_place-dedup_from}

abbrev monday : ℕ → Time
monday n = record { unix = (739620 + 7 * n) * 86400; zone = utc }

-- Two weeks, a gap, then three weeks, with one of them twice.
streak_of_three :
    longest_monday_streak (monday 5 ∷ monday 0 ∷ monday 1 ∷ monday 4 ∷ monday 3 ∷ monday 4 ∷ [])
    ≡ (3, monday 3)
unfolding longest_monday_streak sort_slice same_day day_of local_seconds
streak_of_three = refl

dedup_in_place-dedup_from_example :
    dedup_in_place (monday 0 ∷ monday 0 ∷ monday 1 ∷ [])
    ≡ monday 0 ∷ dedup_from (monday 0) (monday 0 ∷ monday 1 ∷ [])
dedup_in_place-dedup_from_example = dedup_in_place-dedup_from (monday 0) (monday 0 ∷ monday 1 ∷ [])

abbrev checkin : Bytes → ℕ → RatedCheckin
checkin name n = record { username = name; display_name = []; week_start = monday n }

-- Bob has a streak of two weeks; Ann and Eve have as many check-ins as each other.
abbrev three_users : List RatedCheckin
three_users =
    checkin (codes "eve") 0
    ∷ checkin (codes "bob") 1
    ∷ checkin (codes "ann") 1
    ∷ checkin (codes "bob") 2
    ∷ []

-- A map of up to three users, visited from the last one.
abbrev from_last : List UserState → List UserState
from_last (a ∷ b ∷ []) = b ∷ a ∷ []
from_last (a ∷ b ∷ c ∷ []) = b ∷ c ∷ a ∷ []
from_last states = states

from_last-every : (states : List UserState) → Permᴰ states (from_last states)
from_last-every [] = Permᴰ.refl []
from_last-every (a ∷ []) = Permᴰ.refl (a ∷ [])
from_last-every (a ∷ b ∷ []) = Permᴰ.swap refl refl
from_last-every (a ∷ b ∷ c ∷ []) =
    Permᴰ.trans (Permᴰ.swap refl refl) (Permᴰ.cons refl (Permᴰ.swap refl refl))
from_last-every (a ∷ b ∷ c ∷ d ∷ states) = Permᴰ.refl (a ∷ b ∷ c ∷ d ∷ states)

abbrev board : List LeaderboardEntry
board = compute from_last plain three_users (monday 0) (monday 2) (codes "UTC")

ranks : map username_of board ≡ codes "bob" ∷ codes "ann" ∷ codes "eve" ∷ []
unfolding compute entry_of by_user add_checkin sort_slice ranks_before string_less
    longest_monday_streak same_day day_of local_seconds same
ranks = refl

compute-visit_example :
    board ≡ compute (λ states. states) plain three_users (monday 0) (monday 2) (codes "UTC")
compute-visit_example =
    compute-visit from_last from_last-every plain three_users (monday 0) (monday 2) (codes "UTC")

compute-IsBoardOrder_example : IsBoardOrder board
compute-IsBoardOrder_example =
    compute-IsBoardOrder from_last plain three_users (monday 0) (monday 2) (codes "UTC")

compute-IsCounted_example : All (IsCounted three_users) board
compute-IsCounted_example =
    compute-IsCounted three_users from_last from_last-every plain (monday 0) (monday 2)
      (codes "UTC")

compute-on_board_example : on_board (codes "ann") board ≡ checked_in (codes "ann") three_users
compute-on_board_example =
    compute-on_board (codes "ann") from_last from_last-every plain three_users (monday 0) (monday 2)
      (codes "UTC")

abbrev five_weeks : List Time
five_weeks = monday 4 ∷ monday 0 ∷ monday 1 ∷ monday 4 ∷ monday 3 ∷ []

five_weeks-IsMidnightMonday : All IsMidnightMonday five_weeks
unfolding day_of local_seconds
five_weeks-IsMidnightMonday = omega arith

longest_monday_streak-IsLongest_example :
    IsLongest
      (has_week five_weeks)
      (longest_monday_streak five_weeks).1.unix
      (longest_monday_streak five_weeks).0
longest_monday_streak-IsLongest_example =
    longest_monday_streak-IsLongest five_weeks five_weeks-IsMidnightMonday
