-- ===== src/Analysis/Pulses.antt =====
-- analysis/powerdb.go: InsertPeriodToDB and the loop of main. The log files, as the lines that the
-- scanner yields, and the database are arguments; an error of the database is fatal.
use smarthouse.Prelude.{
  ℕ, zero, suc, ℤ, pos, ◌-ℤ◌, ltb_ℤ, add_int, Option, none, some, List, [], ◌∷◌, Bytes, codes, Bool,
  true, false, ◌||◌, if◌then◌else◌, bytes_eq,
}
use smarthouse.GoTime.{Time}
use smarthouse.GoStrings.{split}
use smarthouse.GoConv.{atoi}
use smarthouse.Analysis.Periods.{
  Zone, unix, get_prev_period, get_next_period, get_last_full_period, get_period_filename,
}

-- The time and the tag of a line: the tag is the second field, or the third where there are four.
unfoldable pub fields_of : List Bytes → Option (Bytes × Bytes)
fields_of (t ∷ second_field ∷ third_field ∷ fourth_field ∷ more) = some (t, third_field)
fields_of (t ∷ second_field ∷ more) = some (t, second_field)
fields_of _ = none

-- The time of a pulse, if the line is one.
abbrev pulse_at : Option (Bytes × Bytes) → Option Time
pulse_at none = none
pulse_at (some (t, tag)) = elim (atoi t) [
  | none ↦ none
  | some seconds ↦ if bytes_eq tag (codes "PULSE") then some (unix seconds) else none
]

-- One more, if the time is neither before the start nor after the end.
abbrev pub counted : Time → Time → Option Time → ℤ → ℤ
counted start end none wh = wh
counted start end (some ts) wh = if ltb_ℤ ts start || ltb_ℤ end ts then wh else add_int wh (pos 1)

unfoldable pub pulse_of : Bytes → Option Time
unfolding fields_of
pulse_of line = pulse_at (fields_of (split b' ' line))

-- The loop over the lines of a file.
unfoldable pub count_pulses : Time → Time → List Bytes → ℤ → ℤ
unfolding pulse_of
count_pulses start end [] wh = wh
count_pulses start end (line ∷ lines) wh =
    count_pulses start end lines (counted start end (pulse_of line) wh)

-- os.Open, by the lines that are then read; `none` is an error.
abbrev pub Files : Type 0
Files = Bytes → Option (List Bytes)

-- The INSERT of a period and its watt-hours: true if no error.
abbrev pub Insert : Type 0 → Type 0
Insert S = Time → ℤ → S → Bool × S

abbrev pub succeeded {ℓ} : {A : Type ℓ} → Bool × A → Option A
succeeded (true, a) = some a
succeeded (false, a) = none

-- How the loop of main ends: it is done, or it is fatal, or the fuel is used up first.
pub data Ending {ℓ} (A : Type ℓ) : Type ℓ where
  finished : A → Ending A
  fatal : Ending A
  out_of_fuel : Ending A

module _ (zone : Zone) (files : Files) where
  -- The value of `wh` after the scan.
  unfoldable pub period_pulses : Time → ℤ
  unfolding count_pulses
  period_pulses period = elim (files (get_period_filename period)) [
    | none ↦ pos 0
    | some lines ↦ count_pulses (get_prev_period zone period) (period -ℤ pos 1) lines (pos 0)
  ]

module _ {S : Type 0} (zone : Zone) (files : Files) (insert : Insert S) where
  -- `none` is log.Fatal.
  unfoldable pub insert_period : Time → S → Option S
  unfolding period_pulses
  insert_period period s = succeeded (insert period (period_pulses zone files period) s)

  -- The loop of main: the periods from `d` up to the last full one.
  unfoldable pub insert_periods : ℕ → Time → Time → S → Ending S
  insert_periods zero d last s = out_of_fuel
  insert_periods (suc fuel) d last s =
      let go : Ending S = elim (insert_period d s) [
        | none ↦ fatal
        | some s' ↦ insert_periods fuel (get_next_period zone d) last s'
      ] in
      if ltb_ℤ d last then go else finished s

  -- main, from a last period in local time and the present time.
  unfoldable pub update : ℕ → Time → Time → S → Ending S
  unfolding insert_periods
  update fuel last_update now s =
      insert_periods fuel (get_next_period zone last_update) (get_last_full_period zone now) s
