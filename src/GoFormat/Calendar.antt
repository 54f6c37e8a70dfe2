-- ===== src/GoFormat/Calendar.antt =====
-- The calendar of GoFormat: from days to dates and back.
use smarthouse.Prelude.{
  ℕ, ◌+◌, ◌*◌, ◌-◌, ◌/◌, ◌%◌, ◌≤◌, ◌<◌, ◌≡◌, ◌⊎◌, inl, inr, true, false, ltb, leb, if◌then◌else◌,
  Bool-cases, ◌∙◌, arith,
}
use smarthouse.GoFormat.{civil, era_year, month_of, days_of, days_in, is_leap}

-- The days before a year of an era, which starts in March, and the day within it.
abbrev year_start : ℕ → ℕ
year_start y = 365 * y + y / 4 - y / 100

day_of_year : ℕ → ℕ
day_of_year e = e - year_start (era_year e)

era_bounds :
    (e : ℕ)
    → e < 146097
    → (day_of_year e < 366) × (era_year e < 400) × (year_start (era_year e) + day_of_year e ≡ e)
unfolding day_of_year
era_bounds e h = (omega arith, omega arith, omega arith)

-- Only a leap year has a day 365 since its March: the next 29 February.
last_day :
    (e : ℕ)
    → e < 146097
    → 365 ≤ day_of_year e
    → (era_year e % 4 ≡ 3) × ((era_year e % 100 ≡ 99) → (era_year e % 400 ≡ 399))
unfolding day_of_year
last_day e h k = (omega arith, λ c. omega arith)

-- A date in the March year y of era k, on day d of that year.
abbrev dated_at : ℕ → ℕ → ℕ → ℕ × ℕ × ℕ
dated_at k y d =
    let m = (5 * d + 2) / 153 in
    let year = y + 400 * k in
    (if ltb m 10 then year else year + 1, month_of m, d - (153 * m + 2) / 5 + 1)

-- What 400 years more come to.
era_year_start :
    (k y : ℕ)
    → y < 400
    → let y' = y + 400 * k + 400 in
      365 * y' + y' / 4 - y' / 100 + y' / 400 ≡ year_start y + 146097 * k + 146097
era_year_start k y h = omega arith

month_bounds : (d : ℕ) → d < 366 → let m = (5 * d + 2) / 153 in (m < 12) × ((153 * m + 2) / 5 ≤ d)
month_bounds d h = (omega arith, omega arith)

-- The days, with the tests of `days_of` done.
days_sum :
    (k y d : ℕ)
    → y < 400
    → d < 366
    → let m = (5 * d + 2) / 153 in
      let y' = y + 400 * k + 400 in
      365 * y' + y' / 4 - y' / 100 + y' / 400 + (153 * m + 2) / 5 + (d - (153 * m + 2) / 5 + 1) - 1
      ≡ year_start y + d + 146097 * k + 146097
days_sum k y d hy hd = omega (arith, era_year_start k y hy, (month_bounds d hd).1)

days_of-dated_at :
    (k y d : ℕ)
    → y < 400
    → d < 366
    → let (year, month, day) = dated_at k y d in
      days_of year month day ≡ year_start y + d + 146097 * k + 146097
unfolding days_of
days_of-dated_at k y d hy hd = elim (Bool-cases (ltb ((5 * d + 2) / 153) 10)) [
  | inl spring ↦
      let late : ltb ((5 * d + 2) / 153 + 3) 3 ≡ false = ground arith in
      let back : (5 * d + 2) / 153 + 3 - 3 ≡ (5 * d + 2) / 153 = omega arith in
      rw spring (rw late (rw back (days_sum k y d hy hd)))
  | inr winter ↦
      let early : ltb ((5 * d + 2) / 153 - 9) 3 ≡ true = ground (arith, (month_bounds d hd).0) in
      let back : (5 * d + 2) / 153 - 9 + 9 ≡ (5 * d + 2) / 153 = ground arith in
      let year : y + 400 * k + 1 + 399 ≡ y + 400 * k + 400 = omega arith in
      rw winter (rw early (rw (back, year) (days_sum k y d hy hd)))
]

leap_after :
    (k y : ℕ) → y % 4 ≡ 3 → ((y % 100 ≡ 99) → (y % 400 ≡ 399)) → is_leap (y + 400 * k + 1) ≡ true
leap_after k y four hundred = ground arith

-- The length of a month, from its number in the year that starts in March.
abbrev length_of : ℕ → ℕ → ℕ
length_of m year =
    if ltb m 11
    then (if ltb ((153 * (m + 1) + 2) / 5 - (153 * m + 2) / 5) 31 then 30 else 31)
    else if is_leap year
    then 29
    else 28

days_in-month_of : (year m : ℕ) → m < 12 → days_in year (month_of m) ≡ length_of m year
days_in-month_of year m h = ground arith

day_fits :
    (k y d : ℕ)
    → d < 366
    → (d < 365) ⊎ ((y % 4 ≡ 3) × ((y % 100 ≡ 99) → (y % 400 ≡ 399)))
    → let m = (5 * d + 2) / 153 in
      d - (153 * m + 2) / 5 + 1 ≤ length_of m (if ltb m 10 then y + 400 * k else y + 400 * k + 1)
day_fits k y d hd (inl short) = ground arith
day_fits k y d hd (inr (four, hundred)) = ground (arith, leap_after k y four hundred)

month_of_range : (m : ℕ) → m < 12 → (1 ≤ month_of m) × (month_of m ≤ 12)
month_of_range m h = ground arith

dated_at-fits :
    (k y d : ℕ)
    → d < 366
    → (d < 365) ⊎ ((y % 4 ≡ 3) × ((y % 100 ≡ 99) → (y % 400 ≡ 399)))
    → let (year, month, day) = dated_at k y d in
      (1 ≤ month) × (month ≤ 12) × (1 ≤ day) × (day ≤ days_in year month)
dated_at-fits k y d hd leap =
    let m = (5 * d + 2) / 153 in
    let (low, high) = month_of_range m (month_bounds d hd).0 in
    (
      low,
      high,
      omega arith,
      rw
          (days_in-month_of (if ltb m 10 then y + 400 * k else y + 400 * k + 1) m
            (month_bounds d hd).0)
          (day_fits k y d hd leap),
    )

-- A day's date counts back to the day.
pub days_of-civil :
    (z : ℕ) → let (year, month, day) = civil z in days_of year month day ≡ z + 146097
unfolding day_of_year
days_of-civil z =
    let e = z % 146097 in
    let (d, y, start) = era_bounds e (omega arith) in
    days_of-dated_at (z / 146097) (era_year e) (day_of_year e) y d ∙ omega arith

-- A day's date is one: the month has the day.
pub civil-fits :
    (z : ℕ)
    → let (year, month, day) = civil z in
      (1 ≤ month) × (month ≤ 12) × (1 ≤ day) × (day ≤ days_in year month)
unfolding day_of_year
civil-fits z =
    let e = z % 146097 in
    let (d, y, start) = era_bounds e (omega arith) in
    dated_at-fits (z / 146097) (era_year e) (day_of_year e) d
      (elim (Bool-cases (leb 365 (day_of_year e))) [
        | inl last ↦ inr (last_day e (omega arith) (ground arith))
        | inr before ↦ inl (ground arith)
      ])

-- The years have four digits up to the year 9999.
pub civil-year : (z : ℕ) → z < 3652365 → (civil z).0 < 10000
civil-year z h = ground arith
