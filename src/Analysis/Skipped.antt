-- ===== src/Analysis/Skipped.antt =====
-- analysis/powerdb.go: the end of summer time, where time.Date may take the later of two instants.
use smarthouse.Prelude.{
  ℕ, suc, ◌+◌, ◌*◌, ◌≤◌, ◌<◌, ◌≡◌, refl, ap, ◌∙◌, arith, ℤ, pos, negsuc, ◌+ℤ◌, ◌-ℤ◌, ◌≤ℤ◌, ◌<ℤ◌,
  some,
}
use smarthouse.GoTime.{Time}
use smarthouse.Analysis.Periods.{Zone, half_hour, floor_half, get_last_full_period, get_next_period}
use smarthouse.Analysis.Pulses.{Files, Insert, insert_period, insert_periods}
use smarthouse.Analysis.Loops.{add-sub, sub-add}
use smarthouse.Analysis.Folds.{hour, fold_time, first_of_doubled, ltb_ℤ-true}

-- The clocks go back by an hour, behind an hour of summer time at least, to the `k`-th half-hour of a wall clock `o` ahead of UTC, and time.Date
-- takes the second instant of a wall clock that comes twice.
pub record IsLateFold (zone : Zone) (k : ℕ) (o : ℤ) : Type 0 where
  pub summer :
      (t : Time) → first_of_doubled k o ≤ℤ t → t <ℤ fold_time k o → zone.offset t ≡ o +ℤ pos hour
  pub later :
      (w : ℕ) → k * half_hour ≤ w → w < suc (suc k) * half_hour → zone.date (pos w) ≡ pos w -ℤ o

doubled-before : (k : ℕ) (o : ℤ) → first_of_doubled k o <ℤ fold_time k o
unfolding ◌+ℤ◌ ◌-ℤ◌
doubled-before k (pos n) = ground arith
doubled-before k (negsuc n) = ground arith

three_on :
    (k : ℕ) (o : ℤ)
    → pos (k * half_hour + half_hour) -ℤ o ≡ first_of_doubled k o +ℤ pos (3 * half_hour)
unfolding ◌+ℤ◌ ◌-ℤ◌
three_on k (pos n) = ground arith
three_on k (negsuc n) = ground arith

module _ (zone : Zone) (k : ℕ) (o : ℤ) (is : IsLateFold zone k o) where
  next-doubled :
      get_next_period zone (first_of_doubled k o) ≡ first_of_doubled k o +ℤ pos (3 * half_hour)
  unfolding get_next_period get_last_full_period floor_half
  next-doubled =
      ap (λ x. zone.date (floor_half x) +ℤ pos half_hour)
        (ap (λ x. first_of_doubled k o +ℤ x)
            (is.summer (first_of_doubled k o) (omega arith) (doubled-before k o))
          ∙ add-sub (k * half_hour) (o +ℤ pos hour))
      ∙ ap (λ x. zone.date (pos x) +ℤ pos half_hour) (omega arith)
      ∙ ap (λ x. x +ℤ pos half_hour) (is.later (k * half_hour) (omega arith) (omega arith))
      ∙ sub-add (k * half_hour) half_hour o
      ∙ three_on k o

  -- Where the clocks go back by an hour, on a half-hour of the wall clock, behind at least an hour of
  -- summer time, and time.Date takes the later instant of the doubled hour, main goes from the half-hour
  -- that ends an hour before straight to the one that ends three half-hours later, if the insertion
  -- works: the two between are not inserted.
  pub insert_periods_skips :
      {S : Type 0} (files : Files) (insert : Insert S) (fuel : ℕ) (last : Time) (s s' : S)
      → first_of_doubled k o <ℤ last
      → insert_period zone files insert (first_of_doubled k o) s ≡ some s'
      → insert_periods zone files insert (suc fuel) (first_of_doubled k o) last s
        ≡ insert_periods zone files insert fuel
            (first_of_doubled k o +ℤ pos (3 * half_hour))
            last
            s'
  unfolding insert_periods
  insert_periods_skips files insert fuel last s s' before works =
      rw (ltb_ℤ-true (first_of_doubled k o) last before, works, next-doubled) refl
