-- ===== src/Analysis/Examples.antt =====
-- analysis/powerdb.go at concrete inputs: twelve hours ahead of UTC, and five hours behind it where summer
-- time ends.
use smarthouse.Prelude.{
  ℕ, suc, ◌+◌, ◌*◌, ◌-◌, ◌/◌, ℤ, pos, negsuc, ◌+ℤ◌, ◌-ℤ◌, add_int, ltb_ℤ, ◌≡◌, refl, arith, some,
  none, List, [], ◌∷◌, Bytes, codes, true, if◌then◌else◌, bytes_Eq, ◌==◌,
}
use smarthouse.GoTime.{Time}
use smarthouse.GoConv.{atoi}
use smarthouse.GoStrings.{split}
use smarthouse.Analysis.Periods.{
  Zone, half_hour, unix, get_period_filename, hour_log, get_last_full_period, get_next_period,
  get_prev_period,
}
use smarthouse.Analysis.Pulses.{
  Files, Insert, finished, out_of_fuel, period_pulses, insert_period, insert_periods, update,
  count_pulses, pulse_of, fields_of,
}
use smarthouse.Analysis.Loops.{IsFixed, half_hours, insert_each, update_fixed}
use smarthouse.Analysis.Folds.{hour, IsFold, fold_time, before_fold, insert_periods_fold}
use smarthouse.Analysis.Hours.{hour_file, hour_exact, pulses_within}

-- 2018-06-08 20:30 and 21:00 UTC.
names_of_files :
    (get_period_filename (unix (pos 1528489800)) ≡ codes "/tmp/logs/2018060820.log")
    × (get_period_filename (unix (pos 1528491600)) ≡ codes "/tmp/logs/2018060820.log")
unfolding get_period_filename unix add_int ◌-ℤ◌
names_of_files = (refl, refl)

abbrev pub ahead : ℤ
ahead = pos 43200000000000

abbrev pub new_zealand : Zone
new_zealand = record { offset = λ t. ahead; date = λ w. w -ℤ ahead }

pub new_zealand-IsFixed : IsFixed new_zealand ahead
new_zealand-IsFixed = record { steady = λ t. refl; found = λ w. refl }

abbrev pub listing : Insert (List Time)
listing d wh s = (true, d ∷ s)

abbrev pub no_files : Files
no_files name = none

afternoon_updated :
    update new_zealand no_files listing 50 (pos 600000000000) (pos 6000000000000) []
    ≡ insert_each new_zealand no_files listing
        (half_hours ahead
          (43800000000000 / half_hour + 1)
          (49200000000000 / half_hour - (43800000000000 / half_hour + 1)))
        []
unfolding ◌+ℤ◌
afternoon_updated =
    update_fixed new_zealand no_files listing ahead new_zealand-IsFixed 50 43800000000000
      49200000000000 (pos 600000000000) (pos 6000000000000) [] refl refl (omega arith)

-- The two periods at 00:30 and 01:00 UTC of the first day.
two_periods :
    update new_zealand no_files listing 50 (pos 600000000000) (pos 6000000000000) []
    ≡ finished (pos 3600000000000 ∷ pos 1800000000000 ∷ [])
unfolding update insert_periods insert_period period_pulses get_next_period get_last_full_period
    ◌+ℤ◌ ◌-ℤ◌
two_periods = refl

-- The hours from year 1 to 2018-06-08 20:00 UTC.
abbrev evening : ℕ
evening = 17684468

abbrev evening_log : List Bytes
evening_log =
    codes "1528488010 42 PULSE x"
    ∷ codes "1528489800 PULSE"
    ∷ codes "1528489801 OTHER"
    ∷ codes "junk"
    ∷ []

abbrev evening_files : Files
evening_files name = if name == codes "/tmp/logs/2018060820.log" then some evening_log else none

evening_found : evening_files (hour_file evening) ≡ some evening_log
unfolding hour_log
evening_found = refl

-- One pulse in each half-hour.
evening_pulses :
    (period_pulses new_zealand evening_files (pos (evening * hour + half_hour)) ≡ pos 1)
    × (period_pulses new_zealand evening_files (pos (evening * hour + hour)) ≡ pos 1)
unfolding period_pulses get_period_filename get_prev_period get_last_full_period count_pulses
    pulse_of fields_of split atoi unix add_int ◌+ℤ◌ ◌-ℤ◌
evening_pulses = (refl, refl)

hour_exact_example :
    (m n : ℕ) × (period_pulses new_zealand evening_files (pos (evening * hour + half_hour)) ≡ pos m)
    × (period_pulses new_zealand evening_files (pos (evening * hour + hour)) ≡ pos n)
    × (m + n ≡ pulses_within (pos (evening * hour)) (pos (evening * hour + hour)) evening_log)
unfolding ◌+ℤ◌
hour_exact_example =
    hour_exact new_zealand evening_files ahead evening 35368960 evening_log new_zealand-IsFixed refl
      evening_found (omega arith)

-- The clocks go back at 02:00 of the summer's wall clock, to 01:00: `doubled` half-hours.
abbrev pub behind : ℤ
behind = negsuc 17999999999999

abbrev pub doubled : ℕ
doubled = 34000002

-- Summer time begins half a year before, and again half a year later.
abbrev pub spring : ℤ
spring = pos (34000000 * half_hour - 8736 * half_hour)

abbrev pub next_spring : ℤ
next_spring = pos (34000000 * half_hour + 8736 * half_hour)

abbrev pub new_york : Zone
new_york = record {
  offset = λ t.
      if ltb_ℤ t spring
      then behind
      else if ltb_ℤ t (fold_time doubled behind)
      then behind +ℤ pos hour
      else if ltb_ℤ t next_spring
      then behind
      else behind +ℤ pos hour;
  date = λ w.
      if ltb_ℤ w (spring +ℤ behind)
      then w -ℤ behind
      else if ltb_ℤ w (pos (suc (suc doubled) * half_hour))
      then w -ℤ (behind +ℤ pos hour)
      else if ltb_ℤ w (next_spring +ℤ behind)
      then w -ℤ behind
      else w -ℤ (behind +ℤ pos hour);
}

pub new_york-IsFold : IsFold new_york doubled behind
unfolding ◌+ℤ◌ ◌-ℤ◌
new_york-IsFold = record {
  summer = λ t from h. ground arith;
  winter = λ t from h. ground arith;
  earlier = λ w low high. ground arith;
}

listing_works :
    (d : Time) (s : List Time)
    → (t : List Time) × (insert_period new_york no_files listing d s ≡ some t)
unfolding insert_period
listing_works d s = (d ∷ s, refl)

-- Without the key.
doubled_for_ever :
    (insert_periods new_york no_files listing 1000
        (fold_time doubled behind)
        (pos 70000000000000000000)
        []
      ≡ out_of_fuel)
    × (insert_periods new_york no_files listing 1000
          (before_fold doubled behind)
          (pos 70000000000000000000)
          []
        ≡ out_of_fuel)
unfolding ◌-ℤ◌
doubled_for_ever =
    insert_periods_fold new_york doubled behind new_york-IsFold no_files listing 1000
      (pos 70000000000000000000) [] (omega arith) listing_works
