-- ===== src/GoFormat.antt =====
-- Go's layouts of dates and times, as far as the programs use them: time.RFC3339 and 2006-01-02, for
-- times from year 1 up to the year 9999, and the parsing of both.
pub mod Calendar
pub mod RoundTrip
use smarthouse.Prelude.{
  ℕ, ◌+◌, ◌-◌, ◌*◌, ◌/◌, ◌%◌, ℤ, pos, negsuc, ◌-ℤ◌, ◌+ℤ◌, pos_part, sub_ℕ, Option, none, some, [],
  ◌∷◌, ◌++◌, Bytes, codes, Bool, not, ◌&&◌, ◌||◌, ltb, leb, nat_eq, if◌then◌else◌,
}
use smarthouse.GoTime.{Time}

-- The digits of a number.
abbrev pub digit : ℕ → ℕ
digit n = n % 10 + b'0'

abbrev pub two_digits : ℕ → Bytes
two_digits n = digit (n / 10) ∷ digit n ∷ []

abbrev pub four_digits : ℕ → Bytes
four_digits n = two_digits (n / 100) ++ two_digits (n % 100)

-- The date of a day since 1 March of the year 0, in the Gregorian calendar: the year and the day
-- within its year, which starts in March.
abbrev pub era_year : ℕ → ℕ
era_year e = (e - e / 1460 + e / 36524 - e / 146096) / 365

abbrev pub month_of : ℕ → ℕ
month_of m = if ltb m 10 then m + 3 else m - 9

-- Year, month and day of a day since 1 March of the year 0.
abbrev pub civil : ℕ → ℕ × ℕ × ℕ
civil z =
    let e = z % 146097 in
    let y = era_year e in
    let day = e - (365 * y + y / 4 - y / 100) in
    let m = (5 * day + 2) / 153 in
    let year = y + 400 * (z / 146097) in
    (if ltb m 10 then year else year + 1, month_of m, day - (153 * m + 2) / 5 + 1)

-- The date of a wall clock, in nanoseconds since year 1.
unfoldable pub format_date : ℕ → Bytes
format_date wall =
    let (year, month, day) = civil (wall / 86400000000000 + 306) in
    four_digits year ++ b'-' ∷ two_digits month ++ b'-' ∷ two_digits day

unfoldable pub format_clock : ℕ → Bytes
format_clock wall =
    two_digits (wall / 3600000000000 % 24)
    ++ b':' ∷ two_digits (wall / 60000000000 % 60)
    ++ b':' ∷ two_digits (wall / 1000000000 % 60)

-- Z07:00, from the minutes.
abbrev hours_minutes : ℕ → Bytes
hours_minutes m = two_digits (m / 60) ++ b':' ∷ two_digits (m % 60)

unfoldable pub format_offset : ℤ → Bytes
format_offset (pos n) = if nat_eq n 0 then codes "Z" else b'+' ∷ hours_minutes (n / 60000000000)
format_offset (negsuc n) = b'-' ∷ hours_minutes ((n + 1) / 60000000000)

-- A wall clock, with its distance from UTC.
unfoldable pub format_wall : ℤ → ℕ → Bytes
unfolding format_date format_clock format_offset
format_wall offset wall = format_date wall ++ b'T' ∷ format_clock wall ++ format_offset offset

-- t.Format(time.RFC3339), of a time whose wall clock is that much ahead of UTC.
unfoldable pub rfc3339 : ℤ → Time → Bytes
unfolding format_wall ◌+ℤ◌
rfc3339 offset t = format_wall offset (pos_part (t +ℤ offset))

-- The days from 1 January of the year 1 to a date, which may be before it.
abbrev pub march_year : ℕ → ℕ → ℕ
march_year y m = if ltb m 3 then y + 399 else y + 400

abbrev pub march_month : ℕ → ℕ
march_month m = if ltb m 3 then m + 9 else m - 3

unfoldable pub days_of : ℕ → ℕ → ℕ → ℕ
days_of y m d =
    let y' = march_year y m in
    365 * y' + y' / 4 - y' / 100 + y' / 400 + (153 * march_month m + 2) / 5 + d - 1

abbrev pub is_leap : ℕ → Bool
is_leap y = nat_eq (y % 4) 0 && (not (nat_eq (y % 100) 0) || nat_eq (y % 400) 0)

abbrev pub days_in : ℕ → ℕ → ℕ
days_in y m =
    if nat_eq m 2
    then (if is_leap y then 29 else 28)
    else if nat_eq m 4 || (nat_eq m 6 || (nat_eq m 9 || nat_eq m 11))
    then 30
    else 31

-- A number of digits, from the highest.
abbrev pub number_of : ℕ → Bytes → Option ℕ
number_of acc [] = some acc
number_of acc (c ∷ s) =
    let rest = number_of (acc * 10 + (c - b'0')) s in
    if leb b'0' c && leb c b'9' then rest else none

abbrev pub dated : Option ℕ → Option ℕ → Option ℕ → Option (ℕ × ℕ × ℕ)
dated (some y) (some m) (some d) =
    if (leb 1 m && leb m 12) && (leb 1 d && leb d (days_in y m)) then some (y, m, d) else none
dated _ _ _ = none

-- time.Parse of 2006-01-02: year, month and day.
unfoldable pub parse_date : Bytes → Option (ℕ × ℕ × ℕ)
parse_date (a ∷ b ∷ c ∷ e ∷ x ∷ f ∷ g ∷ y ∷ i ∷ j ∷ []) =
    if nat_eq x b'-' && nat_eq y b'-'
    then dated (number_of 0 (a ∷ b ∷ c ∷ e ∷ [])) (number_of 0 (f ∷ g ∷ []))
        (number_of 0 (i ∷ j ∷ []))
    else none
parse_date _ = none

-- The wall clock at the start of a date.
unfoldable pub midnight : ℕ × ℕ × ℕ → ℤ
unfolding days_of
midnight (y, m, d) = sub_ℕ (days_of y m d * 86400000000000) (146403 * 86400000000000)

-- Z07:00, as the nanoseconds ahead of UTC.
abbrev pub offset_of : Bool → Option ℕ → Option ℕ → Option ℤ
offset_of ahead (some h) (some m) =
    if leb h 24 && leb m 60
    then some
        (if ahead then pos ((h * 60 + m) * 60000000000) else sub_ℕ 0 ((h * 60 + m) * 60000000000))
    else none
offset_of ahead _ _ = none

unfoldable pub parse_offset : Bytes → Option ℤ
parse_offset (z ∷ []) = if nat_eq z b'Z' then some (pos 0) else none
parse_offset (sign ∷ a ∷ b ∷ colon ∷ c ∷ d ∷ []) =
    if (nat_eq sign b'+' || nat_eq sign b'-') && nat_eq colon b':'
    then offset_of (nat_eq sign b'+') (number_of 0 (a ∷ b ∷ [])) (number_of 0 (c ∷ d ∷ []))
    else none
parse_offset _ = none

-- The nanoseconds of a time of day.
abbrev pub clock_of : Option ℕ → Option ℕ → Option ℕ → Option ℕ
clock_of (some h) (some m) (some s) =
    if ltb h 24 && (ltb m 60 && ltb s 60) then some ((h * 3600 + m * 60 + s) * 1000000000) else none
clock_of _ _ _ = none

-- The instant of a date and a time of day, with the distance of their wall clock from UTC.
abbrev pub instant_of : Option (ℕ × ℕ × ℕ) → Option ℕ → Option ℤ → Option (Time × ℤ)
instant_of (some date) (some clock) (some offset) =
    some (midnight date +ℤ pos clock -ℤ offset, offset)
instant_of _ _ _ = none

-- time.Parse of time.RFC3339, of a text whose numbers have all their digits and whose seconds have no
-- fraction: the instant, and how far its wall clock is ahead of UTC.
unfoldable pub parse_rfc3339 : Bytes → Option (Time × ℤ)
unfolding parse_date parse_offset midnight ◌+ℤ◌ ◌-ℤ◌
parse_rfc3339
      (a ∷ b ∷ c ∷ d ∷ e ∷ f ∷ g ∷ h ∷ i ∷ j ∷ t ∷ k ∷ l ∷ colon ∷ m ∷ n ∷ colon' ∷ p ∷ q ∷ zone) =
    if nat_eq t b'T' && (nat_eq colon b':' && nat_eq colon' b':')
    then instant_of (parse_date (a ∷ b ∷ c ∷ d ∷ e ∷ f ∷ g ∷ h ∷ i ∷ j ∷ []))
        (clock_of (number_of 0 (k ∷ l ∷ [])) (number_of 0 (m ∷ n ∷ [])) (number_of 0 (p ∷ q ∷ [])))
        (parse_offset zone)
    else none
parse_rfc3339 _ = none
