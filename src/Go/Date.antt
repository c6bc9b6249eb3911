-- ===== src/Go/Date.antt =====
-- `time.Parse` at the layout 2006-01-02: four digits, two and two, of a day that the calendar has.
-- Day 0 is 1 January of year 1, and a day of year 0 counts as that one.
pub mod Format
use mesh_monday.Base.{
  ℕ, zero, suc, ◌+◌, ◌-◌, ◌*◌, ◌/◌, ◌%◌, ◌≡◌, refl, Bool, not, ◌&&◌, ◌||◌, [], ◌∷◌, Option, none,
  some, Bytes, codes, ltb, leb, ◌==◌, if◌then◌else◌,
}

is_digit : ℕ → Bool
is_digit c = leb b'0' c && leb c b'9'

is_leap : ℕ → Bool
is_leap year = year % 4 == 0 && (not (year % 100 == 0) || year % 400 == 0)

pub days_in : ℕ → ℕ → ℕ
unfolding is_leap
days_in year month =
    if month == 2
    then if is_leap year then 29 else 28
    else if month == 4 || month == 6 || month == 9 || month == 11
    then 30
    else 31

-- The days of the year before the month, which is counted from 0 here.
days_before : ℕ → ℕ → ℕ
unfolding days_in
days_before year zero = 0
days_before year (suc month) = days_before year month + days_in year (suc month)

-- The days before the year, from year 1 on.
year_day : ℕ → ℕ
year_day year = let y = year - 1 in y * 365 + y / 4 - y / 100 + y / 400

unfoldable pub day_number : ℕ → ℕ → ℕ → ℕ
unfolding days_before year_day
day_number year month day =
    if year == 0 then 0 else year_day year + days_before year (month - 1) + (day - 1)

two : ℕ → ℕ → ℕ
two a b = (a - 48) * 10 + (b - 48)

check_day : ℕ → ℕ → ℕ → Option ℕ
unfolding days_in
check_day year month day =
    if ltb month 1 || ltb 12 month || ltb day 1 || ltb (days_in year month) day
    then none
    else some (day_number year month day)

unfoldable pub parse_date : Bytes → Option ℕ
unfolding is_digit two check_day
parse_date (a ∷ b ∷ c ∷ d ∷ h ∷ e ∷ f ∷ i ∷ g ∷ j ∷ []) =
    if is_digit a
      && is_digit b
      && is_digit c
      && is_digit d
      && is_digit e
      && is_digit f
      && is_digit g
      && is_digit j
      && h == b'-'
      && i == b'-'
    then check_day (two a b * 100 + two c d) (two e f) (two g j)
    else none
parse_date _ = none

-- A Monday, a day that no year has, and the leap day of 2024.
parse_date_example :
    (parse_date (codes "2026-05-04") ≡ some 739739)
    × (parse_date (codes "2026-02-29") ≡ none)
    × (parse_date (codes "2024-02-29") ≡ some 738944)
unfolding parse_date day_number
parse_date_example = (refl, refl, refl)
