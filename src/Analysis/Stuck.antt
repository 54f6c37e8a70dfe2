-- ===== src/Analysis/Stuck.antt =====
-- analysis/powerdb.go with the table of analysis/powerdb.sql, whose key is the text of a half-hour, where
-- summer time ends.
use smarthouse.Prelude.{
  ℕ, suc, ◌*◌, ◌/◌, ◌<◌, ◌≡◌, refl, ap, ◌∙◌, arith, ℤ, pos, ◌+ℤ◌, ◌<ℤ◌, Option, none, some, List,
  ◌∷◌, Bytes, Bool, true, false, inl, inr, Option-cases,
}
use smarthouse.GoTime.{Time}
use smarthouse.GoFormat.{rfc3339}
use smarthouse.GoFormat.RoundTrip.{IsOffset, parse-rfc3339}
use smarthouse.Analysis.Periods.{Zone, half_hour, get_last_full_period, get_next_period}
use smarthouse.Analysis.Pulses.{
  Files, fatal, succeeded, period_pulses, insert_period, insert_periods, update,
}
use smarthouse.Analysis.Loops.{add-sub}
use smarthouse.Analysis.Folds.{
  hour, fold_time, before_fold, IsFold, ltb_ℤ-true, before-fold, doubled-before_fold,
  next-before_fold, next-fold,
}
use smarthouse.Analysis.Update.{
  Database, get_last_update, insert_record, run_update, run_update_local,
}

-- The text is a key: the query finds texts that the table has, insertions keep them, and one of a text
-- that the table has fails.
pub record IsKeyed {S : Type 0} (db : Database S) (Has : Bytes → S → Type 0) : Type 0 where
  pub found :
      (s : S) (text : Bytes) (rows : List (Option Bytes))
      → db.latest s ≡ some (some text ∷ rows)
      → Has text s
  pub kept :
      (text other : Bytes) (wh : ℤ) (s s' : S)
      → Has text s
      → db.insert_text other wh s ≡ (true, s')
      → Has text s'
  pub refused : (text : Bytes) (wh : ℤ) (s : S) → Has text s → (db.insert_text text wh s).0 ≡ false

-- The text of a half-hour.
abbrev pub record_text : Zone → Time → Bytes
record_text zone period = rfc3339 (zone.offset period) period

succeeded-some : {S : Type 0} (r : Bool × S) (s : S) → succeeded r ≡ some s → r ≡ (true, s)
succeeded-some (true, u) s e = ground arith
succeeded-some (false, u) s e = absurd (ground arith)

succeeded-none : {S : Type 0} (r : Bool × S) → r.0 ≡ false → succeeded r ≡ none
succeeded-none (true, u) e = absurd (ground arith)
succeeded-none (false, u) e = refl

module _ {S : Type 0} (zone : Zone) (db : Database S) (Has : Bytes → S → Type 0)
    (key : IsKeyed db Has) (files : Files) where
  insert_period_refused :
      (period : Time) (s : S)
      → Has (record_text zone period) s
      → insert_period zone files (insert_record zone db) period s ≡ none
  unfolding insert_period insert_record
  insert_period_refused period s has =
      succeeded-none _
        (key.refused (record_text zone period) (period_pulses zone files period) s has)

  insert_period_kept :
      (period : Time) (text : Bytes) (s s' : S)
      → Has text s
      → insert_period zone files (insert_record zone db) period s ≡ some s'
      → Has text s'
  unfolding insert_period insert_record
  insert_period_kept period text s s' has e =
      key.kept text (record_text zone period) (period_pulses zone files period) s s' has
        (succeeded-some _ s' e)

  run_update_from :
      (fuel : ℕ) (last_update now : Time) (s : S)
      → get_last_update zone (db.latest s) ≡ some (last_update, zone.offset last_update)
      → run_update zone db files fuel now (some s)
        ≡ insert_periods zone files
            (insert_record zone db)
            fuel
            (get_next_period zone last_update)
            (get_last_full_period zone now)
            s
  unfolding update
  run_update_from fuel last_update now s e = run_update_local zone db files fuel last_update now s e

  module _ (k : ℕ) (o : ℤ) (is : IsFold zone k o) where
    -- The loop that inserts the first of the two periods comes to the second one, which is there.
    refused_again :
        (fuel : ℕ) (last : Time) (s : S)
        → Has (record_text zone (before_fold k o)) s
        → fold_time k o <ℤ last
        → insert_periods zone files (insert_record zone db) (suc (suc fuel)) (fold_time k o) last s
          ≡ fatal
    unfolding insert_periods
    refused_again fuel last s has past =
        elim (Option-cases (insert_period zone files (insert_record zone db) (fold_time k o) s)) [
          | inl fails ↦ rw (ltb_ℤ-true (fold_time k o) last past, fails) refl
          | inr (s', e) ↦
              rw
                (
                  ltb_ℤ-true (fold_time k o) last past,
                  e,
                  next-fold zone k o is,
                  ltb_ℤ-true (before_fold k o) last (omega (arith, before-fold k o)),
                  insert_period_refused (before_fold k o) s' (
                      insert_period_kept (fold_time k o) (record_text zone (before_fold k o)) s s'
                        has e),
                )
                refl
        ]

    last_update_before_fold :
        (rows : List (Option Bytes))
        → IsOffset (o +ℤ pos hour)
        → suc k * half_hour / 86400000000000 < 3652059
        → get_last_update zone (some (some (record_text zone (before_fold k o)) ∷ rows))
          ≡ some (before_fold k o, zone.offset (before_fold k o))
    unfolding get_last_update
    last_update_before_fold rows minutes h =
        rw (is.summer (before_fold k o) (doubled-before_fold k o) (before-fold k o)) (
          parse-rfc3339 (o +ℤ pos hour) (before_fold k o) (suc k * half_hour) minutes
            (add-sub (suc k * half_hour) (o +ℤ pos hour)) (omega arith) h)

    -- Where the clocks go back by an hour, on a half-hour of the wall clock, behind at least an hour of
    -- summer time and before at least an hour of winter time, time.Date takes the earlier instant of the
    -- doubled hour, and the text of a half-hour is the table's key: if the query finds the last half-hour
    -- of summer time first, which ends half an hour before that, in a year up to 9999 and with an offset
    -- of whole minutes, a day at most, main is fatal as soon as the last full half-hour ends later than
    -- the clocks go back.
    pub run_update_stuck :
        (fuel : ℕ) (now : Time) (s : S) (rows : List (Option Bytes))
        → IsOffset (o +ℤ pos hour)
        → suc k * half_hour / 86400000000000 < 3652059
        → db.latest s ≡ some (some (record_text zone (before_fold k o)) ∷ rows)
        → fold_time k o <ℤ get_last_full_period zone now
        → run_update zone db files (suc (suc fuel)) now (some s) ≡ fatal
    run_update_stuck fuel now s rows minutes h last past =
        run_update_from (suc (suc fuel)) (before_fold k o) now s
          (ap (get_last_update zone) last ∙ last_update_before_fold rows minutes h)
        ∙ ap
            (λ d.
              insert_periods zone files (insert_record zone db) (suc (suc fuel)) d
                (get_last_full_period zone now) s)
            (next-before_fold zone k o is)
        ∙ refused_again fuel (get_last_full_period zone now) s (key.found s _ rows last) past
