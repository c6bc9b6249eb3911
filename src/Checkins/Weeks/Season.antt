-- ===== src/Checkins/Weeks/Season.antt =====
-- How many weeks a season has, and what a change of the clocks does to the count.
use mesh_monday.Base.{ℕ, ◌+◌, ◌-◌, ◌*◌, ◌/◌, ◌≤◌, ◌<◌, ◌≡◌, min, arith, Bytes, ltb, if◌then◌else◌}
use mesh_monday.Platform.{Platform}
use mesh_monday.Go.Time.{Zone, Time, date, day_seconds}
use mesh_monday.Checkins.Weeks.{location, max_duration_seconds, count_weeks_inclusive}
use mesh_monday.Checkins.Weeks.Start.{
  HasMidnight, day_in, monday_of, day_of-date, week_start_monday-date,
}

-- The instant of midnight of a day.
abbrev pub midnight : Zone → ℕ → ℕ
midnight z d = (date z d 0).unix

-- The midnights that a count asks for exist.
abbrev pub HasMidnights : Platform → Bytes → Time → Time → Type 0
HasMidnights p tz from through =
    HasMidnight (location p tz) (day_in p tz from)
    × HasMidnight (location p tz) (monday_of (day_in p tz from))
    × HasMidnight (location p tz) (day_in p tz through)
    × HasMidnight (location p tz) (monday_of (day_in p tz through))

count_weeks_inclusive-midnight :
    (p : Platform) (tz : Bytes) (from through : Time)
    → HasMidnights p tz from through
    → count_weeks_inclusive p from through tz ≡ (
        let first = midnight (location p tz) (monday_of (day_in p tz from)) in
        let last = midnight (location p tz) (monday_of (day_in p tz through)) in
        if ltb last first then 0 else min (last - first) max_duration_seconds / day_seconds / 7 + 1)
unfolding count_weeks_inclusive
count_weeks_inclusive-midnight p tz from through (mf, mf', mt, mt') =
    rw (week_start_monday-date p tz from mf, week_start_monday-date p tz through mt)
      (rw (day_of-date _ _ mf', day_of-date _ _ mt'))

-- The clocks were put forward between two days, by at most a day.
abbrev pub PutForward : Zone → ℕ → ℕ → Type 0
PutForward z a b =
    (midnight z b + a * day_seconds < midnight z a + b * day_seconds)
    × (midnight z a + b * day_seconds ≤ midnight z b + (a + 1) * day_seconds)

-- They stand as they did, or were put back, by less than a day.
abbrev pub NotPutForward : Zone → ℕ → ℕ → Type 0
NotPutForward z a b =
    (midnight z a + b * day_seconds ≤ midnight z b + a * day_seconds)
    × (midnight z b + a * day_seconds < midnight z a + (b + 1) * day_seconds)

-- The time between two midnights is one that a Duration holds.
abbrev pub IsSpan : Zone → ℕ → ℕ → Type 0
IsSpan z a b = midnight z b ≤ midnight z a + max_duration_seconds

-- If the midnights of both days and of their Mondays exist, the last week is not before the first
-- one, the two are no further apart than a Duration holds (about 292 years), and the clocks were not
-- put forward between them, the count is the number of Mondays from the first week's to the last
-- one's, both included.
pub count_weeks_inclusive_exact :
    (p : Platform) (tz : Bytes) (from through : Time)
    → HasMidnights p tz from through
    → monday_of (day_in p tz from) ≤ monday_of (day_in p tz through)
    → IsSpan (location p tz) (monday_of (day_in p tz from)) (monday_of (day_in p tz through))
    → NotPutForward (location p tz) (monday_of (day_in p tz from)) (monday_of (day_in p tz through))
    → count_weeks_inclusive p from through tz * 7
      ≡ monday_of (day_in p tz through) + 7 - monday_of (day_in p tz from)
count_weeks_inclusive_exact p tz from through m le span shift =
    rw (count_weeks_inclusive-midnight p tz from through m) (ground (arith, span))

-- If the midnights of both days and of their Mondays exist, the last week is after the first one,
-- the two are no further apart than a Duration holds (about 292 years), and the clocks were put
-- forward between them, the count is short by one week.
pub count_weeks_inclusive_short :
    (p : Platform) (tz : Bytes) (from through : Time)
    → HasMidnights p tz from through
    → monday_of (day_in p tz from) < monday_of (day_in p tz through)
    → IsSpan (location p tz) (monday_of (day_in p tz from)) (monday_of (day_in p tz through))
    → PutForward (location p tz) (monday_of (day_in p tz from)) (monday_of (day_in p tz through))
    → count_weeks_inclusive p from through tz * 7
      ≡ monday_of (day_in p tz through) - monday_of (day_in p tz from)
count_weeks_inclusive_short p tz from through m lt span shift =
    rw (count_weeks_inclusive-midnight p tz from through m) (ground (arith, span))
