-- ===== src/Checkins/Weeks/Start.antt =====
-- Where a week starts, in any zone in which the two midnights that the code asks for exist.
use mesh_monday.Base.{ℕ, ◌+◌, ◌-◌, ◌*◌, ◌%◌, ◌≤◌, ◌<◌, ◌≡◌, refl, true, arith, Bytes}
use mesh_monday.Platform.{Platform}
use mesh_monday.Go.Time.{
  Zone, Time, in_zone, local_seconds, day_of, weekday, date, sub_days, day_seconds,
}
use mesh_monday.Checkins.Weeks.{location, is_monday_in_tz, week_start_monday}

-- Asking for midnight of the day gives an instant at which the clock shows it. Where the clocks
-- skip midnight there is no such instant.
abbrev pub HasMidnight : Zone → ℕ → Type 0
HasMidnight z d = local_seconds (date z d 0) ≡ d * day_seconds

-- The day of an instant in a zone, and the Monday on or before it.
abbrev pub day_in : Platform → Bytes → Time → ℕ
day_in p tz t = day_of (in_zone t (location p tz))

abbrev pub monday_of : ℕ → ℕ
monday_of d = d - d % 7

pub day_of-date : (z : Zone) (d : ℕ) → HasMidnight z d → day_of (date z d 0) ≡ d
unfolding day_of
day_of-date z d m = omega (arith, m)

pub sub_days-date :
    (z : Zone) (d n : ℕ) → HasMidnight z d → sub_days (date z d 0) n ≡ date z (d - n) 0
unfolding sub_days
sub_days-date z d n m =
    let no_clock : local_seconds (date z d 0) % day_seconds ≡ 0 = omega (arith, m) in
    rw (day_of-date z d m, no_clock) (unfold date in refl)

pub week_start_monday-date :
    (p : Platform) (tz : Bytes) (t : Time)
    → HasMidnight (location p tz) (day_in p tz t)
    → week_start_monday p t tz ≡ date (location p tz) (monday_of (day_in p tz t)) 0
unfolding week_start_monday weekday
week_start_monday-date p tz t m =
    let delta : ((day_in p tz t + 1) % 7 + 6) % 7 ≡ day_in p tz t % 7 = omega arith in
    rw delta (sub_days-date (location p tz) (day_in p tz t) (day_in p tz t % 7) m)

-- If the midnights of the day and of its Monday exist, the week starts at midnight of a Monday, at
-- most six days before the day of the instant.
pub week_start_monday_lem :
    (p : Platform) (tz : Bytes) (t : Time)
    → HasMidnight (location p tz) (day_in p tz t)
    → HasMidnight (location p tz) (monday_of (day_in p tz t))
    → (weekday (week_start_monday p t tz) ≡ 1)
      × (local_seconds (week_start_monday p t tz) % day_seconds ≡ 0)
      × (day_of (week_start_monday p t tz) ≤ day_in p tz t)
      × (day_in p tz t < day_of (week_start_monday p t tz) + 7)
unfolding weekday
week_start_monday_lem p tz t m m' =
    let same_day = day_of-date (location p tz) (monday_of (day_in p tz t)) m' in
    rw (week_start_monday-date p tz t m, same_day) (omega (arith, m'))

-- A check-in that passes the Monday test is filed under its own day, if that day has a midnight.
pub is_monday-week_start :
    (p : Platform) (tz : Bytes) (t : Time)
    → HasMidnight (location p tz) (day_in p tz t)
    → is_monday_in_tz p t tz ≡ true
    → day_of (week_start_monday p t tz) ≡ day_in p tz t
unfolding is_monday_in_tz weekday
is_monday-week_start p tz t m h =
    let on_monday : monday_of (day_in p tz t) ≡ day_in p tz t = ground arith in
    rw (week_start_monday-date p tz t m, on_monday) (day_of-date (location p tz) (day_in p tz t) m)
