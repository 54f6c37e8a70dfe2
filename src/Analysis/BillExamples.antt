-- ===== src/Analysis/BillExamples.antt =====
-- analysis/provider-comparison.go at two providers and two bills of a month each, twelve hours ahead of
-- UTC.
use smarthouse.Prelude.{
  ◌*◌, pos, ◌+ℤ◌, ◌-ℤ◌, Option, none, some, [], ◌∷◌, Bytes, codes, bytes_eq, false, not, nat_eq,
  if◌then◌else◌, map, length, ◌≡◌, ◌↔◌, ◌⊎◌, refl, arith,
}
use smarthouse.GoTime.{Time}
use smarthouse.GoConv.{itoa}
use smarthouse.GoStrings.{join, precedes}
use smarthouse.GoFormat.{parse_date, rfc3339, format_date}
use smarthouse.Float64.{Float64}
use smarthouse.Analysis.Periods.{second}
use smarthouse.Analysis.Bills.{
  Database, Amounts, finished, crashed, is_zero, columns, selected, bill_texts, bill_periods, day,
  day_and_one, query_per_provider, parse_bill_dates, compare_providers,
}
use smarthouse.Analysis.Ranges.{times_counted}
use smarthouse.Analysis.BillDates.{IsWhole, day_end, counted_once}
use smarthouse.Analysis.Columns.{columns_aligned, query_exact}
use smarthouse.Analysis.Examples.{new_zealand}

abbrev june : Time
june = pos (63663969600 * second)

abbrev july : Time
july = pos (63666561600 * second)

bill_dates :
    parse_bill_dates new_zealand (codes "2018-06-08" ∷ codes "2018-07-08" ∷ [])
    ≡ some (june ∷ july ∷ [])
unfolding parse_bill_dates ◌-ℤ◌
bill_dates = refl

leap_day :
    (parse_date (codes "2018-02-29") ≡ none)
    × (parse_date (codes "2020-02-29") ≡ some (2020, 2, 29))
unfolding parse_date
leap_day = (refl, refl)

july_text : day_end new_zealand july ≡ codes "2018-07-09T00:00:00+12:00"
unfolding rfc3339 ◌+ℤ◌
july_text = refl

new_zealand-IsWhole : IsWhole new_zealand
new_zealand-IsWhole = record { seconds = λ t. (omega arith, omega arith); steady = λ n. refl }

-- The half-hour that ends with 8 July belongs to no bill.
counted_once_example :
    times_counted
      (codes "2018-07-09T00:00:00+12:00")
      (map (bill_texts new_zealand) (bill_periods june (july ∷ pos (63669240000 * second) ∷ [])))
    ≡ 0
unfolding precedes rfc3339 ◌+ℤ◌
counted_once_example =
    counted_once new_zealand new_zealand-IsWhole (codes "2018-07-09T00:00:00+12:00") june
      (july ∷ pos (63669240000 * second) ∷ []) ((63666561600, refl), ((63669240000, refl), tt))
      (refl, (refl, tt))

abbrev plain : Amounts
plain = record { differ = λ a b. not (nat_eq a b); two_decimals = λ a. itoa (pos a) }

-- Each record of the table counts as one kWh, and a provider without a tariff has none.
abbrev db : Database
db = record {
  provider_names = some (some (codes "N") ∷ some (codes "A") ∷ some (codes "B") ∷ []);
  power =
      record { half_hour_ending = codes "2018-07-01T10:00:00+12:00"; wh_in = pos 1000 }
      ∷ record { half_hour_ending = codes "2018-07-09T00:00:00+12:00"; wh_in = pos 1000 }
      ∷ [];
  summary = λ p rows.
      if bytes_eq p (codes "N")
      then some (0, 0)
      else if bytes_eq p (codes "A")
      then some (length rows, 7)
      else some (length rows, 9);
}

query_exact_example :
    query_per_provider new_zealand plain db
      (june +ℤ day, july +ℤ day_and_one)
      (codes "A" ∷ codes "B" ∷ [])
    ≡ some (codes "2018-07-09,1,7,9")
unfolding join format_date itoa rfc3339 ◌+ℤ◌ selected
query_exact_example =
    query_exact new_zealand plain db (june +ℤ day) (july +ℤ day_and_one) (codes "A") 1 7
      ((codes "B", 1, 9) ∷ []) refl (refl, (refl, tt))

abbrev two_providers : Bytes → Option (Float64 × Float64)
two_providers p = db.summary p db.power

aligned_columns :
    (length (codes "0" ∷ codes "0" ∷ codes "2" ∷ codes "7" ∷ []) ≡ 3)
    ↔ ((is_zero 0 ≡ false) ⊎ (codes "A" ∷ [] ≡ []))
aligned_columns =
    columns_aligned plain two_providers (codes "N") (codes "A" ∷ [])
      (codes "0" ∷ codes "0" ∷ codes "2" ∷ codes "7" ∷ []) 0 0 refl (unfold columns itoa in refl)

-- Six columns below a header of five.
printed :
    compare_providers new_zealand plain db (some (codes "2018-06-08" ∷ codes "2018-07-08" ∷ []))
    ≡ (codes "Bill Date,kWh,N,A,B" ∷ codes "2018-07-09,0,0,1,7,9" ∷ [], finished)
unfolding compare_providers itoa ◌-ℤ◌ ◌+ℤ◌ rfc3339 format_date
printed = refl

no_dates :
    compare_providers new_zealand plain db (some []) ≡ (codes "Bill Date,kWh,N,A,B" ∷ [], crashed)
unfolding compare_providers
no_dates = refl
