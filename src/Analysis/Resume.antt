-- ===== src/Analysis/Resume.antt =====
-- analysis/powerdb.go: main goes on where the last run of it ended.
use smarthouse.Prelude.{
  ℕ, suc, ◌-◌, ◌*◌, ◌/◌, ◌<◌, ◌≡◌, ap, ◌∙◌, arith, ℤ, pos, ◌+ℤ◌, ◌-ℤ◌, Option, some, List, [], ◌∷◌,
  Bytes,
}
use smarthouse.GoTime.{Time}
use smarthouse.GoFormat.{rfc3339}
use smarthouse.GoFormat.RoundTrip.{IsOffset, parse-rfc3339}
use smarthouse.Analysis.Periods.{Zone, half_hour}
use smarthouse.Analysis.Pulses.{Files}
use smarthouse.Analysis.Loops.{IsFixed, add-sub, half_hours, insert_each, update_fixed}
use smarthouse.Analysis.Update.{
  Database, first_date, get_last_update, insert_record, run_update, run_update_local,
}

-- The half-hours from year 1 to 2017-06-08 20:00.
abbrev pub first_half_hour : ℕ
first_half_hour = 35351416

-- The query's answer where half-hour `k` by the wall clock is the last one recorded: its text, as
-- `period.Format(time.RFC3339)` makes it, or no row at all.
pub data IsLastRecord (zone : Zone) (o : ℤ) : ℕ → Option (List (Option Bytes)) → Type 0 where
  no_row : IsLastRecord zone o first_half_hour (some [])
  row_of :
      (k : ℕ) (rows : List (Option Bytes))
      → k * half_hour / 86400000000000 < 3652059
      → IsLastRecord zone o k (
          some (
            some (rfc3339 (zone.offset (pos (k * half_hour) -ℤ o)) (pos (k * half_hour) -ℤ o))
            ∷ rows))

module _ (zone : Zone) (o : ℤ) (is : IsFixed zone o) (minutes : IsOffset o) where
  first_date_fixed : first_date zone ≡ pos (first_half_hour * half_hour) -ℤ o
  unfolding first_date
  first_date_fixed = is.found _

  get_last_update_fixed :
      (k : ℕ) (rows : Option (List (Option Bytes)))
      → IsLastRecord zone o k rows
      → let period = pos (k * half_hour) -ℤ o in
        get_last_update zone rows ≡ some (period, zone.offset period)
  unfolding get_last_update
  get_last_update_fixed _ _ no_row = ap (λ t. some (t, zone.offset t)) first_date_fixed
  get_last_update_fixed _ _ (row_of k rows h) =
      let period = pos (k * half_hour) -ℤ o in
      rw (is.steady period)
        (parse-rfc3339 o period (k * half_hour) minutes (add-sub (k * half_hour) o) (omega arith) h)

  -- In a zone that keeps its offset, a whole number of minutes and a day at most, main takes up where
  -- the database ends: with enough fuel it inserts each half-hour once, in order, up to the one before
  -- the last full period, from the one after the record whose text the query finds first, if that is of a
  -- half-hour up to the year 9999, and from 2017-06-08 20:30 if the query finds none.
  pub run_update_resumes :
      {S : Type 0} (db : Database S) (files : Files) (fuel k w : ℕ) (now : Time) (s : S)
      → IsLastRecord zone o k (db.latest s)
      → now +ℤ o ≡ pos w
      → w / half_hour < fuel
      → run_update zone db files fuel now (some s)
        ≡ insert_each zone files
            (insert_record zone db)
            (half_hours o (suc k) (w / half_hour - suc k))
            s
  run_update_resumes db files fuel k w now s last ew room =
      let insert = insert_record zone db in
      run_update_local zone db files fuel (pos (k * half_hour) -ℤ o) now s
        (get_last_update_fixed k (db.latest s) last)
      ∙ update_fixed zone files insert o is fuel (k * half_hour) w (pos (k * half_hour) -ℤ o) now s
          (add-sub (k * half_hour) o) ew room
      ∙ ap (λ j. insert_each zone files insert (half_hours o j (w / half_hour - j)) s) (omega arith)
