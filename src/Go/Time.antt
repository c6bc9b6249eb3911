-- ===== src/Go/Time.antt =====
-- The `time` package, to the second: instants, locations and civil days. An instant counts seconds,
-- and a day counts days, from Monday 1 January of year 1, UTC, the zero of Go's own `time.Time`.
-- A date in text is its day: four-digit years make the order of the texts that of the days.
-- Subtraction stops at that zero.
use mesh_monday.Base.{ℕ, ◌+◌, ◌-◌, ◌*◌, ◌/◌, ◌%◌, ◌^◌, ◌||◌, Bool, ltb, leb, ◌==◌, if◌then◌else◌}

abbrev pub day_seconds : ℕ
day_seconds = 86400

-- What `Location.lookup` finds for an instant: the offset, east of UTC by `ahead` or west by
-- `behind`, and the instants from `first` up to `last` at which it holds.
pub record Span : Type 0 where
  pub ahead : ℕ
  pub behind : ℕ
  pub first : ℕ
  pub last : ℕ

pub record Zone : Type 0 where
  pub lookup : ℕ → Span

pub record Time : Type 0 where
  pub unix : ℕ
  pub zone : Zone

abbrev pub utc : Zone
utc = record { lookup = λ _. record { ahead = 0; behind = 0; first = 0; last = 2 ^ 64 } }

-- `t.In(loc)`
abbrev pub in_zone : Time → Zone → Time
in_zone t z = record { unix = t.unix; zone = z }

-- The clock on the wall: seconds since the zero day began there.
unfoldable pub local_seconds : Time → ℕ
local_seconds t = let span = t.zone.lookup t.unix in t.unix + span.ahead - span.behind

-- The day of `t.Year()`, `t.Month()` and `t.Day()`.
unfoldable pub day_of : Time → ℕ
day_of t = local_seconds t / day_seconds

-- Sunday is 0 and Monday is 1.
unfoldable pub weekday : Time → ℕ
weekday t = (day_of t + 1) % 7

-- `time.Date` for a clock reading: the offset found at the reading taken as UTC is tried first, and
-- the offset at the instant that it gives if that one lies outside its span.
unfoldable pub instant_of : Zone → ℕ → ℕ
instant_of z reading =
    let span = z.lookup reading in
    let guess = reading + span.behind - span.ahead in
    let span' = z.lookup guess in
    if span.ahead == span.behind
    then reading
    else if ltb guess span.first || leb span.last guess
    then reading + span'.behind - span'.ahead
    else guess

-- `time.Date(y, m, d, h, mi, s, 0, loc)` for the day and the seconds of the day.
unfoldable pub date : Zone → ℕ → ℕ → Time
date z day seconds = record { unix = instant_of z (day * day_seconds + seconds); zone = z }

-- `t.AddDate(0, 0, -days)`
unfoldable pub sub_days : Time → ℕ → Time
sub_days t days = date t.zone (day_of t - days) (local_seconds t % day_seconds)

-- `a.Before(b)`
abbrev pub before : Time → Time → Bool
before a b = ltb a.unix b.unix
