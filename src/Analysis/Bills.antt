-- ===== src/Analysis/Bills.antt =====
-- analysis/provider-comparison.go: what each power provider would have charged, one line for each bill.
-- The database is an argument. Of the query providerSummary, the range of half-hours is modelled, and
-- what the selected records sum up to is the database's. An error of it is fatal.
use smarthouse.Prelude.{
  ◌+ℤ◌, pos, ℤ, Option, none, some, List, [], ◌∷◌, ◌++◌, Bytes, codes, Bool, ◌&&◌, ◌||◌, nat_eq,
  if◌then◌else◌, pos_part,
}
use smarthouse.GoTime.{Time}
use smarthouse.GoStrings.{join, precedes}
use smarthouse.GoFormat.{rfc3339, format_date, parse_date, midnight}
use smarthouse.Float64.{Float64}
use smarthouse.Analysis.Periods.{Zone}

-- A row of the table power.
pub record PowerRow : Type 0 where
  pub half_hour_ending : Bytes
  pub wh_in : ℤ

-- The names that SELECT DISTINCT provider yields, where `none` is a name that does not scan and an
-- absent list is an error of the query; the table power; and the sums of a provider over records.
pub record Database : Type 0 where
  pub provider_names : Option (List (Option Bytes))
  pub power : List PowerRow
  pub summary : Bytes → List PowerRow → Option (Float64 × Float64)

-- What the program does with numbers: math.Abs(a - b) > 0.001, and fmt.Sprintf("%.2f", a).
pub record Amounts : Type 0 where
  pub differ : Float64 → Float64 → Bool
  pub two_decimals : Float64 → Bytes

-- How the program ends: main returns, log.Fatal, or a panic.
pub data Exit : Type 0 where
  finished fatal crashed : Exit

-- The loop over the rows of GetProviders.
unfoldable pub scan_names : List (Option Bytes) → Option (List Bytes)
scan_names [] = some []
scan_names (none ∷ rows) = none
scan_names (some name ∷ rows) = elim (scan_names rows) [
  | none ↦ none
  | some names ↦ some (name ∷ names)
]

unfoldable pub get_providers : Database → Option (List Bytes)
unfolding scan_names
get_providers db = elim db.provider_names [ none ↦ none | some rows ↦ scan_names rows ]

-- p.half_hour_ending>? AND p.half_hour_ending<?, as texts.
unfoldable pub in_bill : Bytes × Bytes → Bytes → Bool
unfolding precedes
in_bill (start, end) ending = precedes start ending && precedes ending end

unfoldable pub selected : Bytes × Bytes → List PowerRow → List PowerRow
unfolding in_bill
selected bill [] = []
selected bill (row ∷ rows) =
    let rest = selected bill rows in if in_bill bill row.half_hour_ending then row ∷ rest else rest

-- kWh == 0, of the bits: 0 and -0.
abbrev pub is_zero : Float64 → Bool
is_zero x = nat_eq x 0 || nat_eq x 9223372036854775808

module _ (amounts : Amounts) where
  -- What one provider's sums do to `kWh`, and the columns that they add; `none` is a mismatch.
  unfoldable pub account : Float64 → Float64 × Float64 → Option (Float64 × List Bytes)
  account kwh (p_kwh, p_cost) =
      if is_zero kwh
      then some (p_kwh, amounts.two_decimals p_kwh ∷ amounts.two_decimals p_cost ∷ [])
      else if amounts.differ kwh p_kwh
      then none
      else some (kwh, amounts.two_decimals p_cost ∷ [])

  -- The loop over the providers, with the query's answers.
  unfoldable pub columns :
      (Bytes → Option (Float64 × Float64)) → Float64 → List Bytes → Option (List Bytes)
  unfolding account
  columns ask kwh [] = some []
  columns ask kwh (provider ∷ providers) = elim (ask provider) [
    | none ↦ none
    | some sums ↦ elim (account kwh sums) [
      | none ↦ none
      | some (kwh', cells) ↦ elim (columns ask kwh' providers) [
        | none ↦ none
        | some rest ↦ some (cells ++ rest)
      ]
    ]
  ]

-- time.Hour * 24, and one nanosecond more.
abbrev pub day : ℤ
day = pos 86400000000000

abbrev pub day_and_one : ℤ
day_and_one = pos 86400000000001

-- The `start` and the `end` of each turn of the loop in main.
unfoldable pub bill_periods : Time → List Time → List (Time × Time)
unfolding ◌+ℤ◌
bill_periods last [] = []
bill_periods last (bill ∷ dates) = (last +ℤ day, bill +ℤ day_and_one) ∷ bill_periods bill dates

module _ (zone : Zone) where
  abbrev pub local_rfc3339 : Time → Bytes
  local_rfc3339 t = rfc3339 (zone.offset t) t

  -- The arguments of the query.
  abbrev pub bill_texts : Time × Time → Bytes × Bytes
  bill_texts (start, end) = (local_rfc3339 start, local_rfc3339 end)

  -- QueryPerProvider: the line that it prints.
  unfoldable pub query_per_provider : Amounts → Database → Time × Time → List Bytes → Option Bytes
  unfolding columns selected ◌+ℤ◌
  query_per_provider amounts db (start, end) providers =
      let rows = selected (bill_texts (start, end)) db.power in
      elim (columns amounts (λ provider. db.summary provider rows) 0 providers) [
        | none ↦ none
        | some cells ↦
            some (join (codes ",") (format_date (pos_part (end +ℤ zone.offset end)) ∷ cells))
      ]

  -- ParseBillDates, from the lines of the file.
  unfoldable pub parse_bill_dates : List Bytes → Option (List Time)
  unfolding parse_date midnight
  parse_bill_dates [] = some []
  parse_bill_dates (line ∷ lines) = elim (parse_date line) [
    | none ↦ none
    | some date ↦ elim (parse_bill_dates lines) [
      | none ↦ none
      | some dates ↦ some (zone.date (midnight date) ∷ dates)
    ]
  ]

  -- The loop of main: what is printed, and how the program ends.
  unfoldable pub print_bills :
      Amounts → Database → List Bytes → List (Time × Time) → List Bytes × Exit
  unfolding query_per_provider
  print_bills amounts db providers [] = ([], finished)
  print_bills amounts db providers (bill ∷ bills) =
      elim (query_per_provider amounts db bill providers) [
        | none ↦ ([], fatal)
        | some line ↦ (
          line ∷ (print_bills amounts db providers bills).0,
          (print_bills amounts db providers bills).1,
        )
      ]

  -- main after the header, from the dates of the bills; dates[0] panics where there are none.
  unfoldable pub print_dates : Amounts → Database → List Bytes → List Time → List Bytes × Exit
  unfolding print_bills bill_periods
  print_dates amounts db providers [] = ([], crashed)
  print_dates amounts db providers (last ∷ dates) =
      print_bills amounts db providers (bill_periods last dates)

  abbrev pub print_parsed : Amounts → Database → List Bytes → Option (List Time) → List Bytes × Exit
  print_parsed amounts db providers none = ([], fatal)
  print_parsed amounts db providers (some dates) = print_dates amounts db providers dates

  abbrev pub read_dates : Option (List Bytes) → Option (List Time)
  read_dates none = none
  read_dates (some lines) = parse_bill_dates lines

  abbrev pub header : List Bytes → Bytes
  header providers = join (codes ",") (codes "Bill Date" ∷ codes "kWh" ∷ providers)

  -- main: the file named by the first argument, as the lines that its scanner yields; `none` is a file
  -- that does not open.
  unfoldable pub compare_providers : Amounts → Database → Option (List Bytes) → List Bytes × Exit
  unfolding get_providers parse_bill_dates print_dates join
  compare_providers amounts db lines = elim (get_providers db) [
    | none ↦ ([], fatal)
    | some providers ↦
        let (printed, end) = print_parsed amounts db providers (read_dates lines) in
        (header providers ∷ printed, end)
  ]
