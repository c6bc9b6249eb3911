-- ===== src/Go/Date/Format.antt =====
-- `Time.Format` at the layout RFC 3339, for years of four digits.
mod Tests
use mesh_monday.Base.{
  ℕ, zero, suc, ◌+◌, ◌-◌, ◌*◌, ◌/◌, ◌%◌, List, [], ◌∷◌, ◌++◌, Bytes, codes, ltb, ◌==◌,
  if◌then◌else◌,
}
use mesh_monday.Go.Time.{Time, day_seconds, local_seconds}
use mesh_monday.Go.Date.{days_in}

-- The month and the day of the month, with the days that are left and the months that may follow.
month_day : ℕ → ℕ → ℕ → ℕ → ℕ × ℕ
month_day year zero month left = (month, left + 1)
month_day year (suc months) month left =
    let rest = month_day year months (month + 1) (left - days_in year month) in
    if ltb left (days_in year month) then (month, left + 1) else rest

-- `absDate`: 400 years, 100, 4 and single ones, where the last of 100 and of 365 days is one longer.
pub civil : ℕ → ℕ × ℕ × ℕ
unfolding month_day
civil day =
    let hundreds = day % 146097 / 36524 - day % 146097 / 36524 / 4 in
    let in_hundred = day % 146097 - 36524 * hundreds in
    let in_four = in_hundred % 1461 in
    let ones = in_four / 365 - in_four / 365 / 4 in
    let year = 400 * (day / 146097) + 100 * hundreds + 4 * (in_hundred / 1461) + ones + 1 in
    let (month, in_month) = month_day year 11 1 (in_four - 365 * ones) in (year, month, in_month)

two_digits : ℕ → Bytes
two_digits n = (48 + n / 10) ∷ (48 + n % 10) ∷ []

-- The offset east of UTC or west of it.
zone_text : ℕ → ℕ → Bytes
unfolding two_digits
zone_text ahead behind =
    let east = (ahead - behind) / 60 in
    let west = (behind - ahead) / 60 in
    let clock : ℕ → Bytes = λ m. two_digits (m / 60) ++ b':' ∷ two_digits (m % 60) in
    if ahead == behind
    then codes "Z"
    else if ltb 0 west
    then b'-' ∷ clock west
    else b'+' ∷ clock east

-- `t.Format(time.RFC3339)`
unfoldable pub format_rfc3339 : Time → Bytes
unfolding civil two_digits zone_text
format_rfc3339 t =
    let span = t.zone.lookup t.unix in
    let day = local_seconds t / day_seconds in
    let second = local_seconds t % day_seconds in
    let (year, month, in_month) = civil day in
    two_digits (year / 100)
    ++ two_digits (year % 100)
    ++ b'-' ∷ two_digits month
    ++ b'-' ∷ two_digits in_month
    ++ b'T' ∷ two_digits (second / 3600)
    ++ b':' ∷ two_digits (second / 60 % 60)
    ++ b':' ∷ two_digits (second % 60)
    ++ zone_text span.ahead span.behind
