-- ===== src/Time/Math/Calendar.antt =====
-- Dates and day numbers.
use dhcpserver.Base.{
  ℕ, zero, suc, ◌+◌, ◌-◌, ◌*◌, ◌/◌, ◌%◌, ◌≤◌, ◌<◌, ◌≡◌, ◌≢◌, ◌⊎◌, inl, inr, ap, true, false, ◌&&◌,
  ltb, leb, ◌==◌, get_or, arith, Bool-cases,
}
use dhcpserver.Time.Math.{
  min_year, max_year, march_month, day_of_year, day_of_era, year_of_era, is_leap_year, month_days,
  days_in_month, is_valid_date,
}

-- The year within an era is found again from the day within the era.
pub year_of_era-common :
    (yoe doy : ℕ) → yoe < 400 → doy ≤ 364 → year_of_era (day_of_era yoe doy) ≡ yoe
year_of_era-common yoe doy hy hd = omega arith

pub year_of_era-leap :
    (yoe : ℕ)
    → yoe < 400
    → (yoe + 1) % 4 ≡ 0
    → (yoe + 1) % 100 ≢ 0
    → year_of_era (day_of_era yoe 365) ≡ yoe
year_of_era-leap yoe hy h4 h100 = omega arith

abbrev pub start : ℕ → ℕ
start mp = (153 * mp + 2) / 5

-- The months of the table fit between the starts that the formula gives them.
month_fits :
    (k : ℕ)
    → k < 12
    → (0 < get_or month_days k 0)
      × (get_or month_days k 0 + start (march_month (k + 1)) ≤ start (march_month (k + 1) + 1))
month_fits zero h = (omega arith, omega arith)
month_fits (suc zero) h = (omega arith, omega arith)
month_fits (suc (suc zero)) h = (omega arith, omega arith)
month_fits (suc (suc (suc zero))) h = (omega arith, omega arith)
month_fits (suc (suc (suc (suc zero)))) h = (omega arith, omega arith)
month_fits (suc (suc (suc (suc (suc zero))))) h = (omega arith, omega arith)
month_fits (suc (suc (suc (suc (suc (suc zero)))))) h = (omega arith, omega arith)
month_fits (suc (suc (suc (suc (suc (suc (suc zero))))))) h = (omega arith, omega arith)
month_fits (suc (suc (suc (suc (suc (suc (suc (suc zero)))))))) h = (omega arith, omega arith)
month_fits (suc (suc (suc (suc (suc (suc (suc (suc (suc zero))))))))) h = (omega arith, omega arith)
month_fits (suc (suc (suc (suc (suc (suc (suc (suc (suc (suc zero)))))))))) h =
    (omega arith, omega arith)
month_fits (suc (suc (suc (suc (suc (suc (suc (suc (suc (suc (suc zero))))))))))) h =
    (omega arith, omega arith)
month_fits (suc (suc (suc (suc (suc (suc (suc (suc (suc (suc (suc (suc n)))))))))))) h =
    absurd (omega arith)

-- What a valid date is for the day numbers: the day fits into its month, and 29 February is in a
-- leap year.
pub record Dated (y m d : ℕ) : Type 0 where
  pub year_lo : min_year ≤ y
  pub year_hi : y ≤ max_year
  pub month_lo : 1 ≤ m
  pub month_hi : m ≤ 12
  pub day_lo : 1 ≤ d
  pub fits : d + start (march_month m) ≤ start (march_month m + 1)
  pub february : (m ≢ 2) ⊎ ((d ≤ 28) ⊎ ((d ≡ 29) × (is_leap_year y ≡ true)))

pub is_valid_date-Dated : (y m d : ℕ) → is_valid_date y m d ≡ true → Dated y m d
unfolding is_valid_date days_in_month
is_valid_date-Dated y m d h =
    let years : (min_year ≤ y) × (y ≤ max_year) = (ground (arith, h), ground (arith, h)) in
    let low : ltb m 1 ≡ false = ground (arith, h) in
    let high : ltb 12 m ≡ false = ground (arith, h) in
    let k : m - 1 < 12 = ground (arith, high) in
    let back : m - 1 + 1 ≡ m = ground (arith, low) in
    let (some_day, month) = month_fits (m - 1) k in
    elim (Bool-cases (m == 2 && is_leap_year y)) [
      | inl leap ↦
          let two : m ≡ 2 = ground (arith, leap) in
          let short : d ≤ 29 = ground (arith, low, high, leap, h) in
          record {
            year_lo = years.0;
            year_hi = years.1;
            month_lo = omega (arith, two);
            month_hi = omega (arith, two);
            day_lo = ground (arith, low, high, leap, h);
            fits = rw two (omega (arith, short));
            february = inr (elim (Bool-cases (leb d 28)) [
              | inl common ↦ inl (ground (arith, common))
              | inr last ↦ inr (ground (arith, last, short), ground (arith, leap))
            ]);
          }
      | inr common ↦
          let short : d ≤ get_or month_days (m - 1) 0 = ground (arith, low, high, common, h) in
          record {
            year_lo = years.0;
            year_hi = years.1;
            month_lo = ground (arith, low);
            month_hi = ground (arith, high);
            day_lo = ground (arith, low, high, common, h);
            fits = omega (arith, short, rw back at month);
            february = elim (Bool-cases (m == 2)) [
              | inr other ↦ inl (ground (arith, other))
              | inl two ↦
                  let same : m ≡ 2 = ground (arith, two) in
                  inr (inl (omega (arith, short, ap (λ n. get_or month_days (n - 1) 0) same)))
            ];
          }
    ]

-- The day of the March-based year, and its length.
pub day_of_year_range :
    (y m d : ℕ) → Dated y m d → (day_of_year m d ≤ 365) × (m ≢ 2 → day_of_year m d ≤ 336)
day_of_year_range y m d t = ground (arith, t.fits, t.month_lo, t.month_hi, t.day_lo, t.february)
