-- ===== src/Time/Math/Days.antt =====
-- Dates found again from their day numbers.
use dhcpserver.Base.{
  ℕ, ◌+◌, ◌-◌, ◌*◌, ◌/◌, ◌%◌, ◌≤◌, ◌<◌, ◌≡◌, ◌≢◌, ◌⊎◌, inl, inr, refl, sym, ap, ap₂, ◌∙◌, true,
  false, ltb, leb, ◌==◌, if◌then◌else◌, arith, Bool-cases,
}
use dhcpserver.Time.Math.{
  Civil, march_year, march_month, day_of_year, day_of_era, days_from_civil, year_of_era, civil_at,
  civil_in_era, civil_from_zero, civil_from_days, is_leap_year,
}
use dhcpserver.Time.Math.Calendar.{
  year_of_era-common, year_of_era-leap, start, Dated, day_of_year_range,
}

-- Only 29 February is the last day of a March-based year.
leap_day : (y m d : ℕ) → Dated y m d → 365 ≤ day_of_year m d → (m ≡ 2) × (is_leap_year y ≡ true)
leap_day y m d t last =
    let range = day_of_year_range y m d t in
    elim t.february [
      | inl other ↦ absurd (omega (arith, range.1 other, last))
      | inr (inl common) ↦ absurd (ground (arith, common, last, t.month_hi, t.month_lo))
      | inr (inr (d29, leap)) ↦ elim (Bool-cases (m == 2)) [
        | inl two ↦ (ground (arith, two), leap)
        | inr other ↦ absurd (omega (arith, last, range.1 (ground (arith, other))))
      ]
    ]

-- A leap year within its 400 years, counted from the year before.
leap_cycle :
    (y : ℕ)
    → 1 ≤ y
    → is_leap_year y ≡ true
    → ((((y - 1) % 400 + 1) % 4 ≡ 0) × (((y - 1) % 400 + 1) % 100 ≢ 0)) ⊎ ((y - 1) % 400 ≡ 399)
unfolding is_leap_year
leap_cycle y h leap = elim (Bool-cases (y % 400 == 0)) [
  | inl full ↦ inr (ground (arith, full))
  | inr part ↦
      let h4 : y % 4 ≡ 0 = ground (arith, leap, part) in
      let h100 : y % 100 ≢ 0 = ground (arith, leap, part) in
      let h400 : y % 400 ≢ 0 = ground (arith, part) in
      inl (omega (arith, h4), λ e. h100 (omega (arith, e, h400)))
]

year_found :
    (y m d : ℕ)
    → Dated y m d
    → year_of_era (day_of_era (march_year y m % 400) (day_of_year m d)) ≡ march_year y m % 400
year_found y m d t =
    let yoe = march_year y m % 400 in
    let below : yoe < 400 = omega arith in
    let range = day_of_year_range y m d t in
    elim (Bool-cases (leb (day_of_year m d) 364)) [
      | inl common ↦ year_of_era-common yoe (day_of_year m d) below (ground (arith, common))
      | inr last ↦
          let (two, leap) = leap_day y m d t (ground (arith, last)) in
          let sized : day_of_year m d ≡ 365 = omega (arith, range.0, last_day last) in
          let from : march_year y m ≡ y - 1 = ground (arith, two) in
          let at_end = ap (λ k. year_of_era (day_of_era yoe k)) sized in
          elim (leap_cycle y (omega (arith, t.year_lo)) leap) [
            | inl (h4, h100) ↦
                at_end
                ∙ year_of_era-leap yoe below (ap (λ n. (n % 400 + 1) % 4) from ∙ h4)
                    (λ e. h100 (sym (ap (λ n. (n % 400 + 1) % 100) from) ∙ e))
            | inr h399 ↦
                let is_last : yoe ≡ 399 = ap (λ n. n % 400) from ∙ h399 in
                at_end ∙ ap (λ n. year_of_era (day_of_era n 365)) is_last ∙ sym is_last
          ]
    ]
  where
    last_day : leb (day_of_year m d) 364 ≡ false → 365 ≤ day_of_year m d
    last_day h = ground (arith, h)

days_bound :
    (y m d : ℕ)
    → Dated y m d
    → 719468 ≤ march_year y m / 400 * 146097 + day_of_era (march_year y m % 400) (day_of_year m d)
days_bound y m d t = elim (Bool-cases (leb m 2)) [
  | inl early ↦
      let from : march_year y m ≡ y - 1 = ground (arith, early) in
      let late : 306 ≤ day_of_year m d = ground (arith, early, t.month_lo, t.day_lo) in
      omega (arith, from, late, t.year_lo, t.year_hi)
  | inr rest ↦
      let from : march_year y m ≡ y = ground (arith, rest) in
      omega (arith, from, t.year_lo, t.year_hi)
]

-- What the division of a day number by the days of an era gives.
era_split :
    (era doe : ℕ)
    → doe < 146097
    → ((era * 146097 + doe) / 146097 ≡ era)
      × (era * 146097 + doe - (era * 146097 + doe) / 146097 * 146097 ≡ doe)
era_split era doe h = (omega arith, omega arith)

doe_bound : (yoe doy : ℕ) → yoe < 400 → doy ≤ 365 → day_of_era yoe doy < 146097
doe_bound yoe doy h k = omega arith

abbrev civil : ℕ → ℕ → ℕ → Civil
civil y m d = record { year = y; month = m; day = d }

civil-eq : {y m d y' m' d' : ℕ} → y ≡ y' → m ≡ m' → d ≡ d' → civil y m d ≡ civil y' m' d'
civil-eq a b c = rw (a, b, c) refl

month_back :
    (m n : ℕ) → 1 ≤ m → m ≤ 12 → n ≡ march_month m → (if ltb n 10 then n + 3 else n - 9) ≡ m
month_back m n lo hi e = ground (arith, lo, hi, e)

year_back : (y m : ℕ) → 1 ≤ y → march_year y m + (if leb m 2 then 1 else 0) ≡ y
year_back y m h = ground (arith, h)

civil_at-Dated :
    (y m d : ℕ) → Dated y m d → civil_at (march_year y m) (day_of_year m d) ≡ civil y m d
civil_at-Dated y m d t =
    let mp : (5 * day_of_year m d + 2) / 153 ≡ march_month m =
      ground (arith, t.fits, t.month_lo, t.month_hi, t.day_lo) in
    let month = month_back m ((5 * day_of_year m d + 2) / 153) t.month_lo t.month_hi mp in
    civil-eq
      (ap (λ k. march_year y m + (if leb k 2 then 1 else 0)) month
        ∙ year_back y m (omega (arith, t.year_lo)))
      month (ap (λ n. day_of_year m d - start n + 1) mp ∙ omega (arith, t.day_lo))

civil_in_era-Dated :
    (y m d : ℕ)
    → Dated y m d
    → civil_in_era (march_year y m / 400) (day_of_era (march_year y m % 400) (day_of_year m d))
      ≡ civil y m d
civil_in_era-Dated y m d t =
    let Y = march_year y m in
    let doe = day_of_era (Y % 400) (day_of_year m d) in
    ap (λ n. civil_at (n + Y / 400 * 400) (doe - (365 * n + n / 4 - n / 100))) (year_found y m d t)
    ∙ ap₂ civil_at (year_whole Y) (day_alone (Y % 400) (day_of_year m d))
    ∙ civil_at-Dated y m d t
  where
    year_whole : (n : ℕ) → n % 400 + n / 400 * 400 ≡ n
    year_whole n = omega arith

    day_alone : (yoe doy : ℕ) → day_of_era yoe doy - (365 * yoe + yoe / 4 - yoe / 100) ≡ doy
    day_alone yoe doy = omega arith

-- A valid date is found again from its day number.
pub civil_from_days-days_from_civil :
    (y m d : ℕ) → Dated y m d → civil_from_days (days_from_civil y m d) ≡ civil y m d
unfolding civil_from_days days_from_civil
civil_from_days-days_from_civil y m d t =
    let Y = march_year y m in
    let doe = day_of_era (Y % 400) (day_of_year m d) in
    let back : Y / 400 * 146097 + doe - 719468 + 719468 ≡ Y / 400 * 146097 + doe =
      omega (arith, days_bound y m d t) in
    let (era, rest) =
      era_split (Y / 400) doe
        (doe_bound (Y % 400) (day_of_year m d) (omega arith) (day_of_year_range y m d t).0) in
    ap civil_from_zero back ∙ ap₂ civil_in_era era rest ∙ civil_in_era-Dated y m d t
