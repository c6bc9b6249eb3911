-- ===== src/Leaderboard/Compute.antt =====
-- `Compute`: group the check-ins by user, rate each user, and rank the entries. The map of users is a
-- list in the order of their first check-ins; the order in which `range` visits a map is open, so it
-- is a parameter.
pub mod Order
pub mod Totals
pub mod Users
use mesh_monday.Base.{
  ℕ, ◌+◌, ◌*◌, Bool, true, false, not, List, [], ◌∷◌, ◌++◌, map, Bytes, same, ltb, ◌==◌,
  if◌then◌else◌,
}
use mesh_monday.Platform.{Platform}
use mesh_monday.Go.Time.{Time, day_of}
use mesh_monday.Go.Sort.{sort_slice}
use mesh_monday.Checkins.Weeks.{week_start_monday, count_weeks_inclusive}
use mesh_monday.Leaderboard.Streak.{longest_monday_streak}

-- What `Compute` reads of a `models.Checkin`.
pub record RatedCheckin : Type 0 where
  pub username : Bytes
  pub display_name : Bytes
  pub week_start : Time

-- An entry of `byUser`, with its key.
pub record UserState : Type 0 where
  pub user : Bytes
  pub shown_name : Bytes
  pub total : ℕ
  pub weeks : List Time

-- `models.LeaderboardEntry`; a date in text is its day.
pub record LeaderboardEntry : Type 0 where
  pub username : Bytes
  pub display_name : Bytes
  pub most_checkins : ℕ
  pub season_weeks : ℕ
  pub tracked_from : ℕ
  pub longest_streak : ℕ
  pub streak_start_date : ℕ

is_empty : Bytes → Bool
is_empty [] = true
is_empty (_ ∷ _) = false

-- `firstNonEmpty` of two.
first_non_empty : Bytes → Bytes → Bytes
unfolding is_empty
first_non_empty a b = if not (is_empty a) then a else if not (is_empty b) then b else []

-- What one check-in does to the entry of its user.
pub add_to_state : UserState → RatedCheckin → UserState
unfolding is_empty
add_to_state s c = record s {
  shown_name = if is_empty s.shown_name then c.display_name else s.shown_name;
  total = s.total + 1;
  weeks = s.weeks ++ c.week_start ∷ [];
}

-- One round of the loop over the check-ins.
unfoldable pub add_checkin : RatedCheckin → List UserState → List UserState
unfolding add_to_state
add_checkin c [] =
    add_to_state (record { user = c.username; shown_name = c.display_name; total = 0; weeks = [] })
      c
    ∷ []
add_checkin c (s ∷ states) =
    let rest = add_checkin c states in
    if same s.user c.username then add_to_state s c ∷ states else s ∷ rest

unfoldable pub by_user : List RatedCheckin → List UserState → List UserState
by_user [] states = states
by_user (c ∷ rows) states = by_user rows (add_checkin c states)

-- The order of strings: byte by byte, a prefix before what it begins.
unfoldable pub string_less : Bytes → Bytes → Bool
string_less s [] = false
string_less [] (b ∷ t) = true
string_less (a ∷ s) (b ∷ t) =
    let rest = string_less s t in if ltb a b then true else if ltb b a then false else rest

unfoldable pub ranks_before : LeaderboardEntry → LeaderboardEntry → Bool
ranks_before a b =
    if not (a.most_checkins == b.most_checkins)
    then ltb b.most_checkins a.most_checkins
    else if not (a.longest_streak == b.longest_streak)
    then ltb b.longest_streak a.longest_streak
    else string_less a.username b.username

unfoldable pub entry_of : ℕ → Time → UserState → LeaderboardEntry
unfolding first_non_empty
entry_of season_weeks tracked_from s =
    let (longest, streak_start) = longest_monday_streak s.weeks in
    record {
      username = s.user;
      display_name = first_non_empty s.shown_name s.user;
      most_checkins = s.total;
      season_weeks = season_weeks;
      tracked_from = day_of tracked_from;
      longest_streak = longest;
      streak_start_date = day_of streak_start;
    }

-- `if seasonWeeks < 1 { seasonWeeks = 1 }`
pub season_weeks_of : Platform → Time → Time → Bytes → ℕ
season_weeks_of p tracked_from now tz =
    let season_start = week_start_monday p tracked_from tz in
    let weeks = count_weeks_inclusive p season_start now tz in if ltb weeks 1 then 1 else weeks

-- `Compute`, with the order in which the map is visited.
unfoldable pub compute :
    (List UserState → List UserState)
    → Platform
    → List RatedCheckin
    → Time
    → Time
    → Bytes
    → List LeaderboardEntry
compute visit p rows tracked_from now tz =
    sort_slice ranks_before (
      map (entry_of (season_weeks_of p tracked_from now tz) tracked_from) (visit (by_user rows [])))
