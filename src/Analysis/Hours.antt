-- ===== src/Analysis/Hours.antt =====
-- analysis/powerdb.go: the two periods of an hour count the pulses of the hour's file.
use smarthouse.Prelude.{
  ap, ◌∙◌, ℕ, suc, ◌+◌, ◌-◌, ◌*◌, ◌≤◌, ℤ, pos, negsuc, pos_part, ◌+ℤ◌, ◌-ℤ◌, ◌<ℤ◌, ltb_ℤ, leb_ℤ,
  ◌≡◌, arith, Option, some, none, List, [], ◌∷◌, ◌++◌, Bytes, codes, length, max_int, add_int-one,
  ◌&&◌, if◌then◌else◌,
}
use smarthouse.GoTime.{Time}
use smarthouse.Analysis.Periods.{
  Zone, half_hour, get_prev_period, hour_log, file_time, get_period_filename, hour_of,
}
use smarthouse.Analysis.Pulses.{Files, counted, pulse_of, count_pulses, period_pulses}
use smarthouse.Analysis.Loops.{IsFixed, get_last_full_period_fixed}
use smarthouse.Analysis.Folds.{hour}

abbrev one_within : Time → Time → Option Time → ℕ
one_within a b none = 0
one_within a b (some t) = if leb_ℤ a t && ltb_ℤ t b then 1 else 0

-- The number of the pulses from `a` on and before `b`.
unfoldable pub pulses_within : Time → Time → List Bytes → ℕ
pulses_within a b [] = 0
pulses_within a b (line ∷ lines) = one_within a b (pulse_of line) + pulses_within a b lines

-- `ts.After(b - 1ns)` is `!ts.Before(b)`.
ltb_ℤ-pred : (b t : ℤ) → ltb_ℤ (b -ℤ pos 1) t ≡ leb_ℤ b t
unfolding ◌-ℤ◌
ltb_ℤ-pred (pos n) t = ground arith
ltb_ℤ-pred (negsuc n) t = ground arith

counted-within :
    (a b : Time) (o : Option Time) (n : ℕ)
    → pos n <ℤ max_int
    → counted a (b -ℤ pos 1) o (pos n) ≡ pos (n + one_within a b o)
counted-within a b none n room = ground arith
counted-within a b (some t) n room = rw (ltb_ℤ-pred b t) (ground (arith, add_int-one n room))

one_within-bound : (a b : Time) (o : Option Time) → one_within a b o ≤ 1
one_within-bound a b none = omega arith
one_within-bound a b (some t) = ground arith

count_pulses-within :
    (a b : Time) (lines : List Bytes) (n : ℕ)
    → n + length lines ≤ pos_part max_int
    → count_pulses a (b -ℤ pos 1) lines (pos n) ≡ pos (n + pulses_within a b lines)
unfolding count_pulses pulses_within
count_pulses-within a b [] n room = ap pos (omega arith)
count_pulses-within a b (line ∷ lines) n room =
    ap (count_pulses a (b -ℤ pos 1) lines) (counted-within a b (pulse_of line) n (omega arith))
    ∙ count_pulses-within a b lines (n + one_within a b (pulse_of line))
        (omega (arith, one_within-bound a b (pulse_of line)))
    ∙ ap pos (omega arith)

one_within_split :
    (a b c : ℕ) (o : Option Time)
    → a ≤ b
    → b ≤ c
    → one_within (pos a) (pos b) o + one_within (pos b) (pos c) o ≡ one_within (pos a) (pos c) o
one_within_split a b c none low high = omega arith
one_within_split a b c (some t) low high = ground arith

pulses_within_split :
    (a b c : ℕ) (lines : List Bytes)
    → a ≤ b
    → b ≤ c
    → pulses_within (pos a) (pos b) lines + pulses_within (pos b) (pos c) lines
      ≡ pulses_within (pos a) (pos c) lines
unfolding pulses_within
pulses_within_split a b c [] low high = omega arith
pulses_within_split a b c (line ∷ lines) low high = omega (
  arith,
  one_within_split a b c (pulse_of line) low high,
  pulses_within_split a b c lines low high,
)

-- The file of an hour.
abbrev pub hour_file : ℕ → Bytes
hour_file h = codes "/tmp/logs/" ++ hour_log h

hour_of-first : (h : ℕ) → hour_of (file_time (pos (h * hour + half_hour))) ≡ h
unfolding file_time ◌-ℤ◌
hour_of-first h = ground arith

hour_of-second : (h : ℕ) → hour_of (file_time (pos (h * hour + hour))) ≡ h
unfolding file_time ◌-ℤ◌
hour_of-second h = ground arith

sub-of_add : (t w : ℕ) (o : ℤ) → pos t +ℤ o ≡ pos w → pos w -ℤ o ≡ pos t
unfolding ◌+ℤ◌ ◌-ℤ◌
sub-of_add t w (pos n) e = ground arith
sub-of_add t w (negsuc n) e = ground arith

sub-pos : (t n : ℕ) → n ≤ t → pos t -ℤ pos n ≡ pos (t - n)
unfolding ◌-ℤ◌
sub-pos t n h = ground arith

-- Both half-hours of an hour are looked for in the hour's file.
get_period_filename-hour :
    (h : ℕ)
    → (get_period_filename (pos (h * hour + half_hour)) ≡ hour_file h)
      × (get_period_filename (pos (h * hour + hour)) ≡ hour_file h)
unfolding get_period_filename file_time
get_period_filename-hour h = (
  ap (λ n. codes "/tmp/logs/" ++ hour_log n) (hour_of-first h),
  ap (λ n. codes "/tmp/logs/" ++ hour_log n) (hour_of-second h),
)

get_prev_period_fixed :
    (zone : Zone) (o : ℤ) (t k : ℕ)
    → IsFixed zone o
    → pos t +ℤ o ≡ pos (k * half_hour)
    → half_hour ≤ t
    → get_prev_period zone (pos t) ≡ pos (t - half_hour)
unfolding get_prev_period
get_prev_period_fixed zone o t k is e later =
    ap (λ x. x -ℤ pos half_hour) (get_last_full_period_fixed zone o is (pos t) (k * half_hour) e)
    ∙ ap (λ w. (pos w -ℤ o) -ℤ pos half_hour) (omega arith)
    ∙ ap (λ x. x -ℤ pos half_hour) (sub-of_add t (k * half_hour) o e)
    ∙ sub-pos t half_hour later

add-half : (t w : ℕ) (o : ℤ) → pos t +ℤ o ≡ pos w → pos (t + half_hour) +ℤ o ≡ pos (w + half_hour)
unfolding ◌+ℤ◌
add-half t w (pos n) e = ground arith
add-half t w (negsuc n) e = ground arith

-- A period counts the pulses of its file in the half-hour before it.
period_pulses-within :
    (zone : Zone) (files : Files) (o : ℤ) (t k : ℕ) (lines : List Bytes)
    → IsFixed zone o
    → pos t +ℤ o ≡ pos (k * half_hour)
    → half_hour ≤ t
    → files (get_period_filename (pos t)) ≡ some lines
    → length lines ≤ pos_part max_int
    → period_pulses zone files (pos t) ≡ pos (pulses_within (pos (t - half_hour)) (pos t) lines)
unfolding period_pulses
period_pulses-within zone files o t k lines is e later read room =
    rw (period_pulses, read, get_prev_period_fixed zone o t k is e later)
      (count_pulses-within (pos (t - half_hour)) (pos t) lines 0 (omega (arith, room))
        ∙ ap pos (omega arith))

-- In a zone that keeps its offset, a multiple of half an hour, the two periods of an hour in UTC read the
-- hour's file, and together count each of its pulses of the hour exactly once, if the file has no more
-- lines than the largest int.
pub hour_exact :
    (zone : Zone) (files : Files) (o : ℤ) (h k : ℕ) (lines : List Bytes)
    → IsFixed zone o
    → pos (h * hour) +ℤ o ≡ pos (k * half_hour)
    → files (hour_file h) ≡ some lines
    → length lines ≤ pos_part max_int
    → (m n : ℕ) × (period_pulses zone files (pos (h * hour + half_hour)) ≡ pos m)
      × (period_pulses zone files (pos (h * hour + hour)) ≡ pos n)
      × (m + n ≡ pulses_within (pos (h * hour)) (pos (h * hour + hour)) lines)
hour_exact zone files o h k lines is e read room =
    let t = h * hour in
    let e1 : pos (t + half_hour) +ℤ o ≡ pos (suc k * half_hour) =
      add-half t (k * half_hour) o e ∙ ap pos (omega arith) in
    let e2 : pos (t + hour) +ℤ o ≡ pos (suc (suc k) * half_hour) =
      ap (λ x. pos x +ℤ o) (omega arith)
      ∙ add-half (t + half_hour) (suc k * half_hour) o e1
      ∙ ap pos (omega arith) in
    let (file1, file2) = get_period_filename-hour h in
    let first =
      period_pulses-within zone files o (t + half_hour) (suc k) lines is e1 (omega arith)
        (ap files file1 ∙ read) room in
    let second =
      period_pulses-within zone files o (t + hour) (suc (suc k)) lines is e2 (omega arith)
        (ap files file2 ∙ read) room in
    (
      pulses_within (pos t) (pos (t + half_hour)) lines,
      pulses_within (pos (t + half_hour)) (pos (t + hour)) lines,
      first ∙ ap (λ a. pos (pulses_within (pos a) (pos (t + half_hour)) lines)) (omega arith),
      second ∙ ap (λ a. pos (pulses_within (pos a) (pos (t + hour)) lines)) (omega arith),
      pulses_within_split t (t + half_hour) (t + hour) lines (omega arith) (omega arith),
    )
