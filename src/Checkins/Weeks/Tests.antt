-- ===== src/Checkins/Weeks/Tests.antt =====
-- The dates of internal/checkins/mesh_weeks_test.go, and a season that crosses the change to summer
-- time, in a zone that puts its clocks forward on 8 March 2026.
use mesh_monday.Base.{
  ℕ, ◌+◌, ◌-◌, ◌*◌, ◌%◌, ◌≤◌, ◌<◌, ◌≡◌, refl, arith, some, codes, ltb, if◌then◌else◌,
}
use mesh_monday.Platform.{Platform}
use mesh_monday.Go.Time.{
  Zone, Time, utc, local_seconds, day_of, weekday, date, instant_of, sub_days,
}
use mesh_monday.Checkins.Tests.{plain}
use mesh_monday.Checkins.Weeks.{is_monday_in_tz, week_start_monday, count_weeks_inclusive}
use mesh_monday.Checkins.Weeks.Start.{
  HasMidnight, day_in, monday_of, week_start_monday_lem, is_monday-week_start,
}
use mesh_monday.Checkins.Weeks.Season.{count_weeks_inclusive_exact, count_weeks_inclusive_short}

abbrev put_forward_at : ℕ
put_forward_at = 739682 * 86400 + 36000

abbrev pacific : Zone
pacific = record {
  lookup = λ u.
      if ltb u put_forward_at
      then record { ahead = 0; behind = 28800; first = 0; last = put_forward_at }
      else record { ahead = 0; behind = 25200; first = put_forward_at; last = 739920 * 86400 };
}

abbrev pub on_pacific : Platform
on_pacific = record plain { load_location = λ name. some pacific }

-- 5 January, 12 January and 4 May 2026 are Mondays.
abbrev january : Time
january = record { unix = 739620 * 86400 + 54000; zone = utc }

abbrev next_week : Time
next_week = record { unix = 739627 * 86400 + 36000; zone = utc }

abbrev may : Time
may = record { unix = 739739 * 86400 + 57600; zone = utc }

two_weeks : count_weeks_inclusive on_pacific january next_week (codes "America/Los_Angeles") ≡ 2
unfolding count_weeks_inclusive week_start_monday weekday day_of date sub_days instant_of
    local_seconds
two_weeks = refl

-- A season that is tracked from year 1 is counted for 292 years.
abbrev year_1 : Time
year_1 = record { unix = 0; zone = utc }

cut_short : count_weeks_inclusive plain year_1 january (codes "UTC") ≡ 15251
unfolding count_weeks_inclusive week_start_monday weekday day_of date sub_days instant_of
    local_seconds
cut_short = refl

day_of_may :
    (day_in on_pacific (codes "PT") may ≡ 739739)
    × (day_in on_pacific (codes "PT") january ≡ 739620)
unfolding day_of local_seconds
day_of_may = (refl, refl)

midnights :
    (HasMidnight pacific 739620) × (HasMidnight pacific 739627) × (HasMidnight pacific 739739)
unfolding local_seconds date instant_of
midnights = (refl, refl, refl)

abbrev wednesday : Time
wednesday = record { unix = 739622 * 86400 + 54000; zone = utc }

week_start_monday_lem_example :
    (weekday (week_start_monday on_pacific wednesday (codes "PT")) ≡ 1)
    × (local_seconds (week_start_monday on_pacific wednesday (codes "PT")) % 86400 ≡ 0)
    × (day_of (week_start_monday on_pacific wednesday (codes "PT"))
        ≤ day_in on_pacific (codes "PT") wednesday)
    × (day_in on_pacific (codes "PT") wednesday
        < day_of (week_start_monday on_pacific wednesday (codes "PT")) + 7)
unfolding local_seconds day_of date instant_of
week_start_monday_lem_example = week_start_monday_lem on_pacific (codes "PT") wednesday refl refl

monday_filed :
    day_of (week_start_monday on_pacific may (codes "PT")) ≡ day_in on_pacific (codes "PT") may
unfolding local_seconds day_of date instant_of is_monday_in_tz weekday
monday_filed = is_monday-week_start on_pacific (codes "PT") may refl refl

count_weeks_inclusive_exact_example :
    count_weeks_inclusive on_pacific january next_week (codes "PT") * 7
    ≡ monday_of (day_in on_pacific (codes "PT") next_week)
      + 7
      - monday_of (day_in on_pacific (codes "PT") january)
unfolding local_seconds day_of date instant_of
count_weeks_inclusive_exact_example =
    count_weeks_inclusive_exact on_pacific (codes "PT") january next_week (refl, refl, refl, refl)
      (omega arith) (omega arith) (omega arith)

-- From January to May the season has eighteen weeks, and seventeen are counted.
count_weeks_inclusive_short_example :
    count_weeks_inclusive on_pacific january may (codes "PT") * 7
    ≡ monday_of (day_in on_pacific (codes "PT") may)
      - monday_of (day_in on_pacific (codes "PT") january)
unfolding local_seconds day_of date instant_of
count_weeks_inclusive_short_example =
    count_weeks_inclusive_short on_pacific (codes "PT") january may (refl, refl, refl, refl)
      (omega arith) (omega arith) (omega arith)
