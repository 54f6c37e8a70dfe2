-- ===== src/Analysis/UpdateExamples.antt =====
-- analysis/powerdb.go's main on a database that lists the texts it is given, twelve hours ahead of UTC.
use smarthouse.Prelude.{
  ℕ, ◌-◌, suc, ◌+◌, ◌-◌, ◌*◌, ◌/◌, ◌≡◌, refl, arith, pos, ◌+ℤ◌, ◌-ℤ◌, Option, some, List, [], ◌∷◌,
  Bytes, codes, true,
}
use smarthouse.GoTime.{Time}
use smarthouse.GoFormat.{
  rfc3339, format_wall, format_date, format_clock, format_offset, parse_rfc3339, parse_date,
  parse_offset, midnight, days_of,
}
use smarthouse.Analysis.Periods.{half_hour, get_last_full_period, get_next_period}
use smarthouse.Analysis.Pulses.{
  finished, fatal, update, insert_periods, insert_period, period_pulses,
}
use smarthouse.Analysis.Loops.{half_hours, insert_each}
use smarthouse.Analysis.Update.{Database, get_last_update, first_date, insert_record, run_update}
use smarthouse.Analysis.Examples.{ahead, new_zealand, new_zealand-IsFixed, no_files}
use smarthouse.Analysis.Resume.{row_of, first_half_hour, run_update_resumes}

abbrev first_row : List Bytes → List (Option Bytes)
first_row [] = []
first_row (text ∷ texts) = some text ∷ []

abbrev texts_of : Database (List Bytes)
texts_of = record { latest = λ s. some (first_row s); insert_text = λ text wh s. (true, text ∷ s) }

-- 2018-06-08 20:30 and 22:10 by the wall clock.
abbrev evening : ℕ
evening = 35368937

abbrev late : Time
late = pos (evening * half_hour + 6000000000000) -ℤ ahead

abbrev evening_row : List Bytes
evening_row = codes "2018-06-08T20:30:00+12:00" ∷ []

run_update_resumes_example :
    run_update new_zealand texts_of no_files 35368942 late (some evening_row)
    ≡ insert_each new_zealand no_files
        (insert_record new_zealand texts_of)
        (half_hours ahead
          (suc evening)
          ((evening * half_hour + 6000000000000) / half_hour - suc evening))
        evening_row
unfolding ◌+ℤ◌ ◌-ℤ◌ rfc3339 format_wall format_date format_clock format_offset
run_update_resumes_example =
    run_update_resumes new_zealand ahead new_zealand-IsFixed (refl, refl, omega arith, omega arith)
      texts_of no_files 35368942 evening (evening * half_hour + 6000000000000) late evening_row
      (row_of evening [] (omega arith)) refl (omega arith)

-- What that run leaves, by its last text.
resumed :
    run_update new_zealand texts_of no_files 5 late (some evening_row)
    ≡ finished (codes "2018-06-08T21:30:00+12:00" ∷ codes "2018-06-08T21:00:00+12:00" ∷ evening_row)
unfolding run_update update insert_periods insert_period period_pulses get_next_period
    get_last_full_period get_last_update insert_record parse_rfc3339 parse_date parse_offset
    midnight rfc3339 format_wall format_date format_clock format_offset ◌+ℤ◌ ◌-ℤ◌
resumed = refl

-- A text that is no time is fatal.
garbled :
    run_update new_zealand texts_of no_files 5 late (some (codes "2018-02-30T21:30:00Z" ∷ []))
    ≡ fatal
unfolding run_update get_last_update parse_rfc3339 parse_date parse_offset
garbled = refl

-- An empty database starts at 2017-06-08 20:30.
started :
    run_update new_zealand texts_of no_files 5
      (pos (first_half_hour * half_hour + 3600000000000) -ℤ ahead)
      (some [])
    ≡ finished (codes "2017-06-08T20:30:00+12:00" ∷ [])
unfolding run_update update insert_periods insert_period period_pulses get_next_period
    get_last_full_period get_last_update first_date insert_record midnight days_of rfc3339
    format_wall format_date format_clock format_offset ◌+ℤ◌ ◌-ℤ◌
started = refl

-- A text in UTC is read by its own wall clock, 08:30, which then counts as a local one.
foreign :
    run_update new_zealand texts_of no_files 5
      (pos (evening * half_hour - 39000000000000) -ℤ ahead)
      (some (codes "2018-06-08T08:30:00Z" ∷ []))
    ≡ finished (codes "2018-06-08T09:00:00+12:00" ∷ codes "2018-06-08T08:30:00Z" ∷ [])
unfolding run_update insert_periods insert_period period_pulses get_next_period get_last_full_period
    get_last_update insert_record parse_rfc3339 parse_date parse_offset midnight rfc3339 format_wall
    format_date format_clock format_offset ◌+ℤ◌ ◌-ℤ◌
foreign = refl
