-- ===== src/Analysis/Folds.antt =====
-- analysis/powerdb.go: the end of summer time, where time.Date may take the earlier of two instants.
use smarthouse.Prelude.{
  true, ap, ◌∙◌, ℕ, zero, suc, ◌+◌, ◌*◌, ◌≤◌, ◌<◌, ℤ, pos, negsuc, ◌+ℤ◌, ◌-ℤ◌, ◌<ℤ◌, ◌≤ℤ◌, ltb_ℤ,
  ◌≡◌, refl, arith, some,
}
use smarthouse.GoTime.{Time}
use smarthouse.Analysis.Periods.{Zone, half_hour, floor_half, get_last_full_period, get_next_period}
use smarthouse.Analysis.Pulses.{Files, Insert, out_of_fuel, insert_period, insert_periods}
use smarthouse.Analysis.Loops.{add-sub, sub-add}

abbrev pub hour : ℕ
hour = 3600000000000

-- The instant at which the clocks go back, to the `k`-th half-hour of a wall clock `o` ahead of UTC.
abbrev pub fold_time : ℕ → ℤ → Time
fold_time k o = pos (k * half_hour) -ℤ o

-- Half an hour before, by the wall clock of the summer.
abbrev pub before_fold : ℕ → ℤ → Time
before_fold k o = pos (suc k * half_hour) -ℤ (o +ℤ pos hour)

-- The start of the doubled hour, an hour before the clocks go back.
abbrev pub first_of_doubled : ℕ → ℤ → Time
first_of_doubled k o = pos (k * half_hour) -ℤ (o +ℤ pos hour)

-- The clocks go back by an hour, behind an hour of summer time and to an hour of winter time at least,
-- and time.Date takes the first instant of a wall clock that comes twice. What the zone does at other
-- times is left open.
pub record IsFold (zone : Zone) (k : ℕ) (o : ℤ) : Type 0 where
  pub summer :
      (t : Time) → first_of_doubled k o ≤ℤ t → t <ℤ fold_time k o → zone.offset t ≡ o +ℤ pos hour
  pub winter : (t : Time) → fold_time k o ≤ℤ t → t <ℤ fold_time k o +ℤ pos hour → zone.offset t ≡ o
  pub earlier :
      (w : ℕ)
      → k * half_hour ≤ w
      → w < suc (suc k) * half_hour
      → zone.date (pos w) ≡ pos w -ℤ (o +ℤ pos hour)

pub ltb_ℤ-true : (a b : ℤ) → a <ℤ b → ltb_ℤ a b ≡ true
ltb_ℤ-true a b h = ground arith

pub before-fold : (k : ℕ) (o : ℤ) → before_fold k o <ℤ fold_time k o
unfolding ◌+ℤ◌ ◌-ℤ◌
before-fold k (pos n) = ground arith
before-fold k (negsuc n) = ground arith

pub doubled-before_fold : (k : ℕ) (o : ℤ) → first_of_doubled k o ≤ℤ before_fold k o
unfolding ◌+ℤ◌ ◌-ℤ◌
doubled-before_fold k (pos n) = ground arith
doubled-before_fold k (negsuc n) = ground arith

fold_passes : (k : ℕ) (o : ℤ) → fold_time k o <ℤ fold_time k o +ℤ pos hour
unfolding ◌+ℤ◌ ◌-ℤ◌
fold_passes k (pos n) = ground arith
fold_passes k (negsuc n) = ground arith

fold_again :
    (k : ℕ) (o : ℤ) → pos (suc k * half_hour + half_hour) -ℤ (o +ℤ pos hour) ≡ fold_time k o
unfolding ◌+ℤ◌ ◌-ℤ◌
fold_again k (pos n) = ground arith
fold_again k (negsuc n) = ground arith

module _ (zone : Zone) (k : ℕ) (o : ℤ) (is : IsFold zone k o) where
  -- From an instant of the doubled hour, aligned by its wall clock.
  next_earlier :
      (t : Time) (j : ℕ)
      → t +ℤ zone.offset t ≡ pos (j * half_hour)
      → k ≤ j
      → j < suc (suc k)
      → get_next_period zone t ≡ pos (j * half_hour + half_hour) -ℤ (o +ℤ pos hour)
  unfolding get_next_period get_last_full_period floor_half
  next_earlier t j e low high =
      ap (λ x. zone.date (floor_half x) +ℤ pos half_hour) e
      ∙ ap (λ x. zone.date (pos x) +ℤ pos half_hour) (omega arith)
      ∙ ap (λ x. x +ℤ pos half_hour) (is.earlier (j * half_hour) (omega arith) (omega arith))
      ∙ sub-add (j * half_hour) half_hour (o +ℤ pos hour)

  pub next-before_fold : get_next_period zone (before_fold k o) ≡ fold_time k o
  next-before_fold =
      next_earlier (before_fold k o) (suc k)
        (ap (λ x. before_fold k o +ℤ x)
            (is.summer (before_fold k o) (doubled-before_fold k o) (before-fold k o))
          ∙ add-sub (suc k * half_hour) (o +ℤ pos hour))
        (omega arith) (omega arith)
      ∙ fold_again k o

  pub next-fold : get_next_period zone (fold_time k o) ≡ before_fold k o
  next-fold =
      next_earlier (fold_time k o) k
        (ap (λ x. fold_time k o +ℤ x) (is.winter (fold_time k o) (omega arith) (fold_passes k o))
          ∙ add-sub (k * half_hour) o)
        (omega arith) (omega arith)
      ∙ ap (λ x. pos x -ℤ (o +ℤ pos hour)) (omega arith)

  module _ {S : Type 0} (files : Files) (insert : Insert S) where
    -- Where the clocks go back and time.Date takes the earlier instant, main does not end once it comes
    -- to the doubled hour, if no insertion fails: it inserts the same two periods for ever.
    pub insert_periods_fold :
        (fuel : ℕ) (last : Time) (s : S)
        → fold_time k o <ℤ last
        → ((d : Time) (s : S) → (t : S) × (insert_period zone files insert d s ≡ some t))
        → (insert_periods zone files insert fuel (fold_time k o) last s ≡ out_of_fuel)
          × (insert_periods zone files insert fuel (before_fold k o) last s ≡ out_of_fuel)
    unfolding insert_periods
    insert_periods_fold zero last s past works = (refl, refl)
    insert_periods_fold (suc fuel) last s past works =
        let (t, at_fold) = works (fold_time k o) s in
        let (u, at_before) = works (before_fold k o) s in
        (
          rw (ltb_ℤ-true (fold_time k o) last past, at_fold, next-fold)
              (insert_periods_fold fuel last t past works).1,
          rw
              (
                ltb_ℤ-true (before_fold k o) last (omega (arith, before-fold k o)),
                at_before,
                next-before_fold,
              )
              (insert_periods_fold fuel last u past works).0,
        )
