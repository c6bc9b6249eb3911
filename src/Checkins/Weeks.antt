-- ===== src/Checkins/Weeks.antt =====
-- The calendar of internal/checkins/service.go and mesh_weeks.go: Mondays, the Monday that starts a
-- week, and how many weeks a season has so far.
mod Tests
pub mod Start
pub mod Season
use mesh_monday.Base.{
  ℕ, ◌+◌, ◌-◌, ◌/◌, ◌%◌, min, Bool, Option, none, some, Bytes, ◌==◌, if◌then◌else◌,
}
use mesh_monday.Platform.{Platform}
use mesh_monday.Go.Time.{
  Zone, Time, utc, in_zone, day_of, weekday, date, sub_days, before, day_seconds,
}

-- An unknown zone is UTC.
abbrev or_utc : Option Zone → Zone
or_utc none = utc
or_utc (some z) = z

abbrev pub location : Platform → Bytes → Zone
location p tz = or_utc (p.load_location tz)

-- `IsMondayInTZ`
unfoldable pub is_monday_in_tz : Platform → Time → Bytes → Bool
is_monday_in_tz p t tz = weekday (in_zone t (location p tz)) == 1

-- `WeekStartMonday`
unfoldable pub week_start_monday : Platform → Time → Bytes → Time
week_start_monday p t tz =
    let loc = location p tz in
    let local = in_zone t loc in
    let delta = (weekday local + 6) % 7 in
    let day_start = date loc (day_of local) 0 in sub_days day_start delta

-- `t.Sub(u)`, in whole seconds: a Duration ends at 2 ^ 63 - 1 nanoseconds, about 292 years.
abbrev pub max_duration_seconds : ℕ
max_duration_seconds = 9223372036

abbrev sub : Time → Time → ℕ
sub t u = min (t.unix - u.unix) max_duration_seconds

-- `CountMeshMondayWeeksInclusive`; a float of hours, cut to whole days, is a quotient of seconds.
unfoldable pub count_weeks_inclusive : Platform → Time → Time → Bytes → ℕ
count_weeks_inclusive p track_from through tz =
    let from = week_start_monday p track_from tz in
    let to = week_start_monday p through tz in
    let loc = location p tz in
    let from_day = date loc (day_of from) 0 in
    let to_day = date loc (day_of to) 0 in
    let days = sub to_day from_day / day_seconds in if before to from then 0 else days / 7 + 1
