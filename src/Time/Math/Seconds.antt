-- ===== src/Time/Math/Seconds.antt =====
-- Dates and times as Unix seconds, and the counter of seconds.
use dhcpserver.Base.{
  ℕ, ◌+◌, ◌-◌, ◌*◌, ◌/◌, ◌%◌, ◌≤◌, ◌<◌, ◌≡◌, refl, ap, ap₂, ◌∙◌, true, arith, u32_mod,
}
use dhcpserver.Time.Math.{
  DateTime, Civil, max_year, march_year, days_from_civil, civil_from_days, is_valid_date,
  is_valid_time, to_unix_sec, from_unix_sec, remaining_sec,
}
use dhcpserver.Time.Math.Calendar.{start, Dated, is_valid_date-Dated, day_of_year_range}
use dhcpserver.Time.Math.Days.{civil_from_days-days_from_civil}

-- The seconds of a valid date and time fit a uint32_t.
unix_sec_bound : (y m d : ℕ) → Dated y m d → days_from_civil y m d * 86400 + 86400 ≤ u32_mod
unfolding days_from_civil
unix_sec_bound y m d t =
    let below : march_year y m ≤ max_year = ground (arith, t.year_hi) in
    omega (arith, below, (day_of_year_range y m d t).0)

pub record IsValid (t : DateTime) : Type 0 where
  pub date_ok : is_valid_date t.year t.month t.day ≡ true
  pub time_ok : is_valid_time t.hour t.minute t.second ≡ true

pub is_valid_time-bounds : (h m s : ℕ) → is_valid_time h m s ≡ true → (h ≤ 23) × (m ≤ 59) × (s ≤ 59)
unfolding is_valid_time
is_valid_time-bounds h m s e = (ground (arith, e), ground (arith, e), ground (arith, e))

-- Seconds split into a day and the time of the day.
split_seconds :
    (days h m s : ℕ)
    → days * 86400 + 86400 ≤ u32_mod
    → h ≤ 23
    → m ≤ 59
    → s ≤ 59
    → ((days * 86400 + h * 3600 + m * 60 + s) % u32_mod / 86400 ≡ days)
      × ((days * 86400 + h * 3600 + m * 60 + s) % u32_mod % 86400 ≡ h * 3600 + m * 60 + s)
split_seconds days h m s fits hh hm hs = (omega arith, omega arith)

split_time :
    (h m s : ℕ)
    → m ≤ 59
    → s ≤ 59
    → ((h * 3600 + m * 60 + s) / 3600 ≡ h)
      × ((h * 3600 + m * 60 + s) % 3600 / 60 ≡ m)
      × ((h * 3600 + m * 60 + s) % 60 ≡ s)
split_time h m s hm hs = (omega arith, omega arith, omega arith)

abbrev date_time : Civil → ℕ → DateTime
date_time c rem = record {
  year = c.year;
  month = c.month;
  day = c.day;
  hour = rem / 3600;
  minute = rem % 3600 / 60;
  second = rem % 60;
}

-- A valid date and time is found again from its Unix seconds, which a uint32_t holds without loss.
pub from_unix_sec-to_unix_sec : (t : DateTime) → IsValid t → from_unix_sec (to_unix_sec t) ≡ t
unfolding from_unix_sec to_unix_sec
from_unix_sec-to_unix_sec t ok =
    let dated = is_valid_date-Dated t.year t.month t.day ok.date_ok in
    let (hh, hm, hs) = is_valid_time-bounds t.hour t.minute t.second ok.time_ok in
    let (at_day, at_time) =
      split_seconds (days_from_civil t.year t.month t.day) t.hour t.minute t.second
        (unix_sec_bound t.year t.month t.day dated) hh hm hs in
    let (hour, minute, second) = split_time t.hour t.minute t.second hm hs in
    let day =
      ap civil_from_days at_day ∙ civil_from_days-days_from_civil t.year t.month t.day dated in
    ap₂ date_time day at_time ∙ rw (hour, minute, second) refl

-- The counter of seconds may wrap around between the two readings: what remains of a period that is
-- not over is the period less the seconds since its start, and nothing is left at its end.
pub remaining_sec-wrap :
    (start period elapsed : ℕ)
    → start < u32_mod
    → elapsed < u32_mod
    → 0 < period
    → remaining_sec ((start + elapsed) % u32_mod) start period ≡ period - elapsed
unfolding remaining_sec
remaining_sec-wrap start period elapsed hs he hp =
    let same : ((start + elapsed) % u32_mod + u32_mod - start) % u32_mod ≡ elapsed = omega arith in
    rw same (ground (arith, hp))
