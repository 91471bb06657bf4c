-- ===== src/Time/Math.antt =====
-- src/time/TimeMath.h and TimeMath.cpp: dates, their text, and Unix seconds. The `int`s of the source
-- are natural numbers, for years from 1970 on: its branches for years and days before the era of the
-- year 0 are not modelled, and its subtractions do not go below 0.
pub mod Calendar
pub mod Days
pub mod Seconds
pub mod Texts
pub mod Examples
use dhcpserver.Base.{
  ℕ, zero, suc, ◌+◌, ◌-◌, ◌*◌, ◌/◌, ◌%◌, Bool, true, false, not, ◌&&◌, ◌||◌, List, [], ◌∷◌, ◌++◌,
  Option, none, some, ltb, leb, ◌==◌, if◌then◌else◌, length, get_or, take, drop, u32_mod, ◌>>=◌,
}

pub record DateTime : Type 0 where
  pub year : ℕ
  pub month : ℕ
  pub day : ℕ
  pub hour : ℕ
  pub minute : ℕ
  pub second : ℕ

pub record Civil : Type 0 where
  pub year : ℕ
  pub month : ℕ
  pub day : ℕ

abbrev pub min_year : ℕ
min_year = 1970

abbrev pub max_year : ℕ
max_year = 2100

-- The year counted from March, and the month within it.
abbrev pub march_year : ℕ → ℕ → ℕ
march_year year month = if leb month 2 then year - 1 else year

abbrev pub march_month : ℕ → ℕ
march_month month = if ltb 2 month then month - 3 else month + 9

abbrev pub day_of_year : ℕ → ℕ → ℕ
day_of_year month day = (153 * march_month month + 2) / 5 + day - 1

abbrev pub day_of_era : ℕ → ℕ → ℕ
day_of_era yoe doy = yoe * 365 + yoe / 4 - yoe / 100 + doy

unfoldable pub days_from_civil : ℕ → ℕ → ℕ → ℕ
days_from_civil year month day =
    let y = march_year year month in
    let doe = day_of_era (y % 400) (day_of_year month day) in y / 400 * 146097 + doe - 719468

abbrev pub year_of_era : ℕ → ℕ
year_of_era doe = (doe - doe / 1460 + doe / 36524 - doe / 146096) / 365

-- civilFromDays, from its end: from the day of the March-based year, from the day of the era, from
-- the day since 1 March of the year 0.
abbrev pub civil_at : ℕ → ℕ → Civil
civil_at y doy =
    let mp = (5 * doy + 2) / 153 in
    let month = if ltb mp 10 then mp + 3 else mp - 9 in
    record {
      year = y + (if leb month 2 then 1 else 0);
      month = month;
      day = doy - (153 * mp + 2) / 5 + 1;
    }

abbrev pub civil_in_era : ℕ → ℕ → Civil
civil_in_era era doe =
    let yoe = year_of_era doe in
    civil_at (yoe + era * 400) (doe - (365 * yoe + yoe / 4 - yoe / 100))

abbrev pub civil_from_zero : ℕ → Civil
civil_from_zero z = civil_in_era (z / 146097) (z - z / 146097 * 146097)

unfoldable pub civil_from_days : ℕ → Civil
civil_from_days days = civil_from_zero (days + 719468)

unfoldable pub is_leap_year : ℕ → Bool
is_leap_year year = (year % 4 == 0 && not (year % 100 == 0)) || year % 400 == 0

-- kDays
abbrev pub month_days : List ℕ
month_days = 31 ∷ 28 ∷ 31 ∷ 30 ∷ 31 ∷ 30 ∷ 31 ∷ 31 ∷ 30 ∷ 31 ∷ 30 ∷ 31 ∷ []

unfoldable pub days_in_month : ℕ → ℕ → ℕ
days_in_month year month =
    if ltb month 1 || ltb 12 month
    then 0
    else if month == 2 && is_leap_year year
    then 29
    else get_or month_days (month - 1) 0

unfoldable pub is_valid_date : ℕ → ℕ → ℕ → Bool
is_valid_date year month day =
    if ltb year min_year || ltb max_year year
    then false
    else not (days_in_month year month == 0) && leb 1 day && leb day (days_in_month year month)

unfoldable pub is_valid_time : ℕ → ℕ → ℕ → Bool
is_valid_time hour minute second = leb hour 23 && leb minute 59 && leb second 59

-- parseDigits over the first `count` bytes of a text; behind its end stands a 0.
unfoldable pub parse_digits : ℕ → List ℕ → ℕ → Option ℕ
parse_digits zero text value = some value
parse_digits (suc count) [] value = none
parse_digits (suc count) (ch ∷ text) value =
    if ltb ch b'0' || ltb b'9' ch then none else parse_digits count text (value * 10 + (ch - b'0'))

abbrev pub digits_at : List ℕ → ℕ → ℕ → Option ℕ
digits_at text place count = parse_digits count (drop place text) 0

-- The separators at their places, in a text of 16 or of 19 bytes.
unfoldable pub has_shape : List ℕ → Bool
has_shape text =
    (length text == 16 || length text == 19)
    && get_or text 4 0 == b'-'
    && get_or text 7 0 == b'-'
    && (get_or text 10 0 == b' ' || get_or text 10 0 == b'T')
    && get_or text 13 0 == b':'
    && (not (length text == 19) || get_or text 16 0 == b':')

abbrev pub checked : DateTime → Option DateTime
checked t =
    if is_valid_date t.year t.month t.day && is_valid_time t.hour t.minute t.second
    then some t
    else none

unfoldable pub parse_date_time : List ℕ → Option DateTime
parse_date_time text = if not (has_shape text) then none else do
  year ← digits_at text 0 4
  month ← digits_at text 5 2
  day ← digits_at text 8 2
  hour ← digits_at text 11 2
  minute ← digits_at text 14 2
  second ← if length text == 19 then digits_at text 17 2 else some 0
  checked (record {
    year = year;
    month = month;
    day = day;
    hour = hour;
    minute = minute;
    second = second;
  })

-- toUnixSec, in a uint32_t.
unfoldable pub to_unix_sec : DateTime → ℕ
to_unix_sec t =
    (days_from_civil t.year t.month t.day * 86400 + t.hour * 3600 + t.minute * 60 + t.second)
    % u32_mod

unfoldable pub from_unix_sec : ℕ → DateTime
from_unix_sec unix_sec =
    let c = civil_from_days (unix_sec / 86400) in
    let rem = unix_sec % 86400 in
    record {
      year = c.year;
      month = c.month;
      day = c.day;
      hour = rem / 3600;
      minute = rem % 3600 / 60;
      second = rem % 60;
    }

-- "%02d" and "%04d" of a number that has so many digits at most.
abbrev pub two_digits : ℕ → List ℕ
two_digits n = (b'0' + n / 10) ∷ (b'0' + n % 10) ∷ []

abbrev pub four_digits : ℕ → List ℕ
four_digits n =
    (b'0' + n / 1000) ∷ (b'0' + n / 100 % 10) ∷ (b'0' + n / 10 % 10) ∷ (b'0' + n % 10) ∷ []

unfoldable pub format : DateTime → List ℕ
format t =
    four_digits t.year
    ++ (b'-' ∷ two_digits t.month)
    ++ (b'-' ∷ two_digits t.day)
    ++ (b' ' ∷ two_digits t.hour)
    ++ (b':' ∷ two_digits t.minute)
    ++ (b':' ∷ two_digits t.second)

-- uint32_t: the difference wraps around.
unfoldable pub remaining_sec : ℕ → ℕ → ℕ → ℕ
remaining_sec now_sec start_sec period_sec =
    let elapsed_sec = (now_sec + u32_mod - start_sec) % u32_mod in
    if period_sec == 0
    then 0
    else if leb period_sec elapsed_sec
    then 0
    else period_sec - elapsed_sec
