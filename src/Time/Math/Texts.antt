-- ===== src/Time/Math/Texts.antt =====
-- Dates and times as text.
use dhcpserver.Base.{
  ℕ, suc, ◌+◌, ◌-◌, ◌*◌, ◌/◌, ◌%◌, ◌<◌, ◌≡◌, refl, ap, ◌∙◌, true, false, ◌||◌, List, [], ◌∷◌, ◌++◌,
  some, ltb, ◌==◌, length, arith,
}
use dhcpserver.Time.Math.{
  DateTime, two_digits, four_digits, parse_digits, digits_at, has_shape, parse_date_time, format,
}
use dhcpserver.Time.Math.Calendar.{is_valid_date-Dated}
use dhcpserver.Time.Math.Seconds.{IsValid, is_valid_time-bounds}

parse_digits-next :
    (count c : ℕ) (text : List ℕ) (value : ℕ)
    → c < 10
    → parse_digits (suc count) ((b'0' + c) ∷ text) value ≡ parse_digits count text (value * 10 + c)
unfolding parse_digits
parse_digits-next count c text value h =
    let digit : (ltb (b'0' + c) b'0' || ltb b'9' (b'0' + c)) ≡ false = ground arith in
    let read : value * 10 + (b'0' + c - b'0') ≡ value * 10 + c = omega arith in
    rw (digit, read) refl

parse_digits-two_digits :
    (n : ℕ) (rest : List ℕ) → n < 100 → parse_digits 2 (two_digits n ++ rest) 0 ≡ some n
parse_digits-two_digits n rest h =
    parse_digits-next 1 (n / 10) _ 0 (omega arith)
    ∙ parse_digits-next 0 (n % 10) rest (0 * 10 + n / 10) (omega arith)
    ∙ (unfold parse_digits in ap (λ (k : ℕ). some k) (omega arith))

parse_digits-four_digits :
    (n : ℕ) (rest : List ℕ) → n < 10000 → parse_digits 4 (four_digits n ++ rest) 0 ≡ some n
parse_digits-four_digits n rest h =
    parse_digits-next 3 (n / 1000) _ 0 (omega arith)
    ∙ parse_digits-next 2 (n / 100 % 10) _ (0 * 10 + n / 1000) (omega arith)
    ∙ parse_digits-next 1 (n / 10 % 10) _ ((0 * 10 + n / 1000) * 10 + n / 100 % 10) (omega arith)
    ∙ parse_digits-next 0 (n % 10) rest
        (((0 * 10 + n / 1000) * 10 + n / 100 % 10) * 10 + n / 10 % 10) (omega arith)
    ∙ (unfold parse_digits in ap (λ (k : ℕ). some k) (omega arith))

format-shape : (t : DateTime) → has_shape (format t) ≡ true
unfolding has_shape format
format-shape t = refl

-- The text of a valid date and time is read back as itself.
pub parse_date_time-format : (t : DateTime) → IsValid t → parse_date_time (format t) ≡ some t
unfolding parse_date_time
parse_date_time-format t ok =
    let dated = is_valid_date-Dated t.year t.month t.day ok.date_ok in
    let (hh, hm, hs) = is_valid_time-bounds t.hour t.minute t.second ok.time_ok in
    let year : digits_at (format t) 0 4 ≡ some t.year =
      unfold format in parse_digits-four_digits t.year _ (omega (arith, dated.year_hi)) in
    let month : digits_at (format t) 5 2 ≡ some t.month =
      unfold format in parse_digits-two_digits t.month _ (omega (arith, dated.month_hi)) in
    let day : digits_at (format t) 8 2 ≡ some t.day =
      unfold format in parse_digits-two_digits t.day _ (omega (arith, dated.fits)) in
    let hour : digits_at (format t) 11 2 ≡ some t.hour =
      unfold format in parse_digits-two_digits t.hour _ (omega (arith, hh)) in
    let minute : digits_at (format t) 14 2 ≡ some t.minute =
      unfold format in parse_digits-two_digits t.minute _ (omega (arith, hm)) in
    let second : digits_at (format t) 17 2 ≡ some t.second =
      unfold format in parse_digits-two_digits t.second [] (omega (arith, hs)) in
    let long : (length (format t) == 19) ≡ true = unfold format in refl in
    rw (format-shape t, year, month, day, hour, minute, long, second, ok.date_ok, ok.time_ok) refl
