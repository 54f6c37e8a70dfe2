-- ===== src/Analysis/Update.antt =====
-- analysis/powerdb.go: GetLastUpdate, the text of a record's time, and main. The database is an
-- argument: what the query and the insertion answer.
use smarthouse.Prelude.{ℕ, ℤ, pos, ◌+ℤ◌, ◌≡◌, refl, Option, none, some, List, [], ◌∷◌, Bytes, Bool}
use smarthouse.GoTime.{Time}
use smarthouse.GoFormat.{rfc3339, parse_rfc3339, midnight}
use smarthouse.Analysis.Periods.{Zone, get_last_full_period, get_next_period}
use smarthouse.Analysis.Pulses.{Files, Insert, Ending, fatal, insert_periods, update}

-- The database: the rows of SELECT half_hour_ending ... LIMIT 1, the latest text first, and the INSERT
-- of a text and its watt-hours, true if no error. `none` is an error: of the query, or of the scan of a
-- row.
pub record Database (S : Type 0) : Type 0 where
  pub latest : S → Option (List (Option Bytes))
  pub insert_text : Bytes → ℤ → S → Bool × S

module _ (zone : Zone) where
  -- 2017-06-08 20:00, the first date that logs are recorded for.
  unfoldable pub first_date : Time
  unfolding midnight ◌+ℤ◌
  first_date = zone.date (midnight (2017, 6, 8) +ℤ pos 72000000000000)

  -- The last period, and how far the wall clock of its location is ahead of UTC: time.Parse takes the
  -- local zone only for a text with its offset. `none` is log.Fatal.
  unfoldable pub get_last_update : Option (List (Option Bytes)) → Option (Time × ℤ)
  unfolding first_date parse_rfc3339
  get_last_update none = none
  get_last_update (some []) = some (first_date, zone.offset first_date)
  get_last_update (some (none ∷ rows)) = none
  get_last_update (some (some half_hour_ending ∷ rows)) = parse_rfc3339 half_hour_ending

-- The zone, for a time whose location has this offset: its wall clock is read in that location, and
-- time.Date takes the result for a local one.
abbrev pub located : Zone → ℤ → Zone
located zone ahead = record zone { offset = λ t. ahead }

module _ {S : Type 0} (zone : Zone) (db : Database S) where
  -- The INSERT of a period.
  unfoldable pub insert_record : Insert S
  unfolding rfc3339
  insert_record period wh s = db.insert_text (rfc3339 (zone.offset period) period) wh s

  -- main, from the last period in the database.
  abbrev run_from : Files → ℕ → Time → S → Option (Time × ℤ) → Ending S
  run_from files fuel now s none = fatal
  run_from files fuel now s (some (last_update, ahead)) =
      insert_periods zone files insert_record fuel
        (get_next_period (located zone ahead) last_update) (get_last_full_period zone now) s

  -- main, at the present time, of a database that was opened; `none` is an error of Open or Ping.
  unfoldable pub run_update : Files → ℕ → Time → Option S → Ending S
  unfolding get_last_update insert_periods get_next_period get_last_full_period insert_record
  run_update files fuel now none = fatal
  run_update files fuel now (some s) =
      run_from files fuel now s (get_last_update zone (db.latest s))

-- From a period in local time.
pub run_update_local :
    {S : Type 0} (zone : Zone) (db : Database S) (files : Files) (fuel : ℕ) (last_update now : Time)
    (s : S)
    → get_last_update zone (db.latest s) ≡ some (last_update, zone.offset last_update)
    → run_update zone db files fuel now (some s)
      ≡ update zone files (insert_record zone db) fuel last_update now s
unfolding run_update update
run_update_local zone db files fuel last_update now s e = rw e refl
