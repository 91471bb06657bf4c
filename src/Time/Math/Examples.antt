-- ===== src/Time/Math/Examples.antt =====
-- Dates and times at work.
use dhcpserver.Base.{◌≡◌, refl, some, none, [], ◌∷◌}
use dhcpserver.Time.Math.{
  DateTime, days_from_civil, is_leap_year, days_in_month, is_valid_date, is_valid_time,
  parse_digits, has_shape, parse_date_time, to_unix_sec, from_unix_sec, format, remaining_sec,
}
use dhcpserver.Time.Math.Seconds.{IsValid, from_unix_sec-to_unix_sec}
use dhcpserver.Time.Math.Texts.{parse_date_time-format}

abbrev leap_second_to_midnight : DateTime
leap_second_to_midnight = record {
  year = 2024;
  month = 2;
  day = 29;
  hour = 23;
  minute = 59;
  second = 59;
}

unix_value : to_unix_sec leap_second_to_midnight ≡ 1709251199
unfolding to_unix_sec days_from_civil
unix_value = refl

last_second :
    to_unix_sec (record { year = 2100; month = 12; day = 31; hour = 23; minute = 59; second = 59 })
    ≡ 4133980799
unfolding to_unix_sec days_from_civil
last_second = refl

-- "2024-02-30 10:00" is no date.
no_such_day :
    parse_date_time (
      b'2' ∷ b'0' ∷ b'2' ∷ b'4' ∷ b'-' ∷ b'0' ∷ b'2' ∷ b'-' ∷ b'3' ∷ b'0' ∷ b' ' ∷ b'1' ∷ b'0'
      ∷ b':' ∷ b'0' ∷ b'0' ∷ [])
    ≡ none
unfolding parse_date_time has_shape parse_digits is_valid_date is_valid_time days_in_month
    is_leap_year
no_such_day = refl

leap_second_to_midnight-IsValid : IsValid leap_second_to_midnight
unfolding is_valid_date is_valid_time days_in_month is_leap_year
leap_second_to_midnight-IsValid = record { date_ok = refl; time_ok = refl }

from_unix_sec-to_unix_sec_example :
    from_unix_sec (to_unix_sec leap_second_to_midnight) ≡ leap_second_to_midnight
from_unix_sec-to_unix_sec_example =
    from_unix_sec-to_unix_sec leap_second_to_midnight leap_second_to_midnight-IsValid

parse_date_time-format_example :
    parse_date_time (format leap_second_to_midnight) ≡ some leap_second_to_midnight
parse_date_time-format_example =
    parse_date_time-format leap_second_to_midnight leap_second_to_midnight-IsValid

-- The counter wraps around between the readings.
waits_on : remaining_sec 10 4294967290 60 ≡ 44
unfolding remaining_sec
waits_on = refl
