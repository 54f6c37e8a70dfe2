-- ===== src/GoFormat/RoundTrip.antt =====
-- What GoFormat prints as a date and a time reads back as the same time.
use smarthouse.Prelude.{
  ℕ, ◌+◌, ◌*◌, ◌/◌, ◌%◌, ◌≤◌, ◌<◌, ◌≡◌, inl, inr, refl, ap, true, leb, nat_eq, Bool-cases, ◌∙◌,
  arith, ℤ, pos, negsuc, pos_part, neg_part, ◌+ℤ◌, ◌-ℤ◌, some, [], ◌∷◌, Bytes, ◌&&◌,
}
use smarthouse.GoTime.{Time}
use smarthouse.GoFormat.{
  civil, digit, two_digits, four_digits, number_of, dated, format_date, format_offset, parse_date,
  parse_offset, midnight, days_in, clock_of, instant_of, rfc3339, format_wall, parse_rfc3339,
}
use smarthouse.GoFormat.Calendar.{days_of-civil, civil-fits, civil-year}

digit_range : (n : ℕ) → (leb b'0' (digit n) && leb (digit n) b'9') ≡ true
digit_range n = ground arith

number_of-digit :
    (acc n : ℕ) (rest : Bytes) → number_of acc (digit n ∷ rest) ≡ number_of (acc * 10 + n % 10) rest
number_of-digit acc n rest = rw (digit_range n) (ap (λ k. number_of k rest) (omega arith))

number_of-step :
    (acc n out : ℕ) (rest : Bytes)
    → n < 100
    → acc * 100 + n ≡ out
    → number_of acc (digit (n / 10) ∷ digit n ∷ rest) ≡ number_of out rest
number_of-step acc n out rest h e =
    number_of-digit acc (n / 10) (digit n ∷ rest)
    ∙ number_of-digit (acc * 10 + n / 10 % 10) n rest
    ∙ ap (λ k. number_of k rest) (omega arith)

number_of-two : (n : ℕ) → n < 100 → number_of 0 (two_digits n) ≡ some n
number_of-two n h = number_of-step 0 n n [] h (omega arith)

number_of-four : (n : ℕ) → n < 10000 → number_of 0 (four_digits n) ≡ some n
number_of-four n h =
    number_of-step 0 (n / 100) (n / 100) (two_digits (n % 100)) (omega arith) (omega arith)
    ∙ number_of-step (n / 100) (n % 100) n [] (omega arith) (omega arith)

dated-some :
    (y m d : ℕ)
    → 1 ≤ m
    → m ≤ 12
    → 1 ≤ d
    → d ≤ days_in y m
    → dated (some y) (some m) (some d) ≡ some (y, m, d)
dated-some y m d lm hm ld hd = ground arith

days_in_bound : (y m : ℕ) → days_in y m ≤ 31
days_in_bound y m = ground arith

pub parse_date-format :
    (wall : ℕ)
    → wall / 86400000000000 < 3652059
    → parse_date (format_date wall) ≡ some (civil (wall / 86400000000000 + 306))
unfolding parse_date format_date
parse_date-format wall h =
    let z = wall / 86400000000000 + 306 in
    let (y, m, d) = civil z in
    let (lm, hm, ld, hd) = civil-fits z in
    let small : d < 100 = omega (arith, days_in_bound y m) in
    rw
      (
        number_of-four y (civil-year z (omega arith)),
        number_of-two m (omega arith),
        number_of-two d small,
      )
      (dated-some y m d lm hm ld hd)

clock_of-digits :
    (wall : ℕ)
    → clock_of
        (number_of 0 (two_digits (wall / 3600000000000 % 24)))
        (number_of 0 (two_digits (wall / 60000000000 % 60)))
        (number_of 0 (two_digits (wall / 1000000000 % 60)))
      ≡ some (wall % 86400000000000 / 1000000000 * 1000000000)
clock_of-digits wall =
    rw
      (
        number_of-two (wall / 3600000000000 % 24) (omega arith),
        number_of-two (wall / 60000000000 % 60) (omega arith),
        number_of-two (wall / 1000000000 % 60) (omega arith),
      )
      (ground arith)

-- A whole number of minutes, of at most a day.
abbrev pub IsOffset : ℤ → Type 0
IsOffset o =
    (pos_part o % 60000000000 ≡ 0)
    × (neg_part o % 60000000000 ≡ 0)
    × (pos_part o ≤ 86400000000000)
    × (neg_part o ≤ 86400000000000)

pub parse_offset-format : (o : ℤ) → IsOffset o → parse_offset (format_offset o) ≡ some o
unfolding parse_offset format_offset
parse_offset-format (pos n) (p, q, lp, lq) = elim (Bool-cases (nat_eq n 0)) [
  | inl z ↦ rw z (ap (λ k. some (pos k)) (ground arith))
  | inr z ↦
      let m = n / 60000000000 in
      rw (z, number_of-two (m / 60) (omega arith), number_of-two (m % 60) (omega arith))
        (ground arith)
]
parse_offset-format (negsuc n) (p, q, lp, lq) =
    let m = (n + 1) / 60000000000 in
    rw (number_of-two (m / 60) (omega arith), number_of-two (m % 60) (omega arith)) (ground arith)

midnight-civil : (d : ℕ) → midnight (civil (d + 306)) ≡ pos (d * 86400000000000)
unfolding midnight
midnight-civil d = rw (days_of-civil (d + 306)) (ground arith)

pos-add : (a b c : ℕ) → a + b ≡ c → pos a +ℤ pos b ≡ pos c
unfolding ◌+ℤ◌
pos-add a b c e = ground arith

sub_back : (o : ℤ) (w : ℕ) (t : Time) → t +ℤ o ≡ pos w → pos w -ℤ o ≡ t
unfolding ◌+ℤ◌ ◌-ℤ◌
sub_back (pos a) w (pos b) e = ground arith
sub_back (pos a) w (negsuc b) e = ground arith
sub_back (negsuc a) w (pos b) e = ground arith
sub_back (negsuc a) w (negsuc b) e = ground arith

instant_back :
    (o : ℤ) (w : ℕ) (t : Time)
    → t +ℤ o ≡ pos w
    → w % 1000000000 ≡ 0
    → pos (w / 86400000000000 * 86400000000000)
        +ℤ pos (w % 86400000000000 / 1000000000 * 1000000000)
        -ℤ o
      ≡ t
instant_back o w t e whole =
    ap (λ x. x -ℤ o)
      (pos-add (w / 86400000000000 * 86400000000000) (w % 86400000000000 / 1000000000 * 1000000000)
        w (omega arith))
    ∙ sub_back o w t e

parts_of :
    (o : ℤ) (w : ℕ)
    → parse_rfc3339 (format_wall o w)
      ≡ instant_of
          (parse_date (format_date w))
          (clock_of
            (number_of 0 (two_digits (w / 3600000000000 % 24)))
            (number_of 0 (two_digits (w / 60000000000 % 60)))
            (number_of 0 (two_digits (w / 1000000000 % 60))))
          (parse_offset (format_offset o))
unfolding parse_rfc3339 format_wall
parts_of o w = refl

-- A time of whole seconds, whose wall clock is that much ahead of UTC, from year 1 to the year 9999.
pub parse-rfc3339 :
    (o : ℤ) (t : Time) (w : ℕ)
    → IsOffset o
    → t +ℤ o ≡ pos w
    → w % 1000000000 ≡ 0
    → w / 86400000000000 < 3652059
    → parse_rfc3339 (rfc3339 o t) ≡ some (t, o)
unfolding rfc3339
parse-rfc3339 o t w is e whole h =
    ap (λ x. parse_rfc3339 (format_wall o (pos_part x))) e
    ∙ parts_of o w
    ∙ rw
        (
          parse_date-format w h,
          clock_of-digits w,
          parse_offset-format o is,
          midnight-civil (w / 86400000000000),
        )
        (ap (λ x. some (x, o)) (instant_back o w t e whole))
