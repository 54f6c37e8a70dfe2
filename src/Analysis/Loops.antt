-- ===== src/Analysis/Loops.antt =====
-- analysis/powerdb.go: in a zone that keeps its offset the loop of main ends, and inserts every half-hour
-- once.
use smarthouse.Prelude.{
  true, false, ap, ◌∙◌, ltb, ℕ, zero, suc, ◌+◌, ◌-◌, ◌*◌, ◌/◌, ◌<◌, ℤ, pos, negsuc, ◌+ℤ◌, ◌-ℤ◌,
  ltb_ℤ, ◌≡◌, refl, arith, none, some, inl, inr, Option-cases, List, [], ◌∷◌,
}
use smarthouse.GoTime.{Time}
use smarthouse.Analysis.Periods.{Zone, half_hour, floor_half, get_last_full_period, get_next_period}
use smarthouse.Analysis.Pulses.{
  Files, Insert, Ending, finished, fatal, insert_period, insert_periods, update,
}

-- The zone is `o` ahead of UTC at all times.
pub record IsFixed (zone : Zone) (o : ℤ) : Type 0 where
  pub steady : (t : Time) → zone.offset t ≡ o
  pub found : (w : ℤ) → zone.date w ≡ w -ℤ o

pub add-sub : (w : ℕ) (o : ℤ) → (pos w -ℤ o) +ℤ o ≡ pos w
unfolding ◌+ℤ◌ ◌-ℤ◌
add-sub w (pos n) = ground arith
add-sub w (negsuc n) = ground arith

pub sub-add : (w n : ℕ) (o : ℤ) → (pos w -ℤ o) +ℤ pos n ≡ pos (w + n) -ℤ o
unfolding ◌+ℤ◌ ◌-ℤ◌
sub-add w n (pos m) = ground arith
sub-add w n (negsuc m) = ground arith

ltb_ℤ-sub : (v w : ℕ) (o : ℤ) → ltb_ℤ (pos v -ℤ o) (pos w -ℤ o) ≡ ltb v w
unfolding ◌-ℤ◌
ltb_ℤ-sub v w (pos n) = ground arith
ltb_ℤ-sub v w (negsuc n) = ground arith

module _ (zone : Zone) (o : ℤ) (is : IsFixed zone o) where
  -- A time whose wall clock is `w` belongs to the half-hour that starts at `w - w % half_hour`.
  pub get_last_full_period_fixed :
      (t : Time) (w : ℕ)
      → t +ℤ o ≡ pos w
      → get_last_full_period zone t ≡ pos (w / half_hour * half_hour) -ℤ o
  unfolding get_last_full_period floor_half
  get_last_full_period_fixed t w e =
      is.found _
      ∙ ap (λ x. floor_half x -ℤ o) (ap (λ x. t +ℤ x) (is.steady t) ∙ e)
      ∙ ap (λ x. pos x -ℤ o) (omega arith)

  pub get_next_period_fixed :
      (t : Time) (w : ℕ)
      → t +ℤ o ≡ pos w
      → get_next_period zone t ≡ pos ((w / half_hour + 1) * half_hour) -ℤ o
  unfolding get_next_period
  get_next_period_fixed t w e =
      ap (λ x. x +ℤ pos half_hour) (get_last_full_period_fixed t w e)
      ∙ sub-add (w / half_hour * half_hour) half_hour o
      ∙ ap (λ x. pos x -ℤ o) (omega arith)

  get_next_period_aligned :
      (k : ℕ) → get_next_period zone (pos (k * half_hour) -ℤ o) ≡ pos (suc k * half_hour) -ℤ o
  get_next_period_aligned k =
      get_next_period_fixed (pos (k * half_hour) -ℤ o) (k * half_hour) (add-sub (k * half_hour) o)
      ∙ ap (λ x. pos x -ℤ o) (omega arith)

ltb-aligned : (k m : ℕ) → k < m → ltb (k * half_hour) (m * half_hour) ≡ true
ltb-aligned k m h = ground arith

ltb-aligned_not : (k m : ℕ) → 0 ≡ m - k → ltb (k * half_hour) (m * half_hour) ≡ false
ltb-aligned_not k m h = ground arith

-- `n` half-hours, from the one that is `k` half-hours after year 1 by the wall clock.
abbrev pub half_hours : ℤ → ℕ → ℕ → List Time
half_hours o k zero = []
half_hours o k (suc n) = (pos (k * half_hour) -ℤ o) ∷ half_hours o (suc k) n

module _ {S : Type 0} (zone : Zone) (files : Files) (insert : Insert S) where
  -- The periods of a list, inserted in turn.
  pub insert_each : List Time → S → Ending S
  insert_each [] s = finished s
  insert_each (d ∷ ds) s = elim (insert_period zone files insert d s) [
    | none ↦ fatal
    | some s' ↦ insert_each ds s'
  ]

  module _ (o : ℤ) (is : IsFixed zone o) where
    insert_periods_fixed :
        (fuel n k m : ℕ) (s : S)
        → n < fuel
        → n ≡ m - k
        → insert_periods zone files insert fuel
            (pos (k * half_hour) -ℤ o)
            (pos (m * half_hour) -ℤ o)
            s
          ≡ insert_each (half_hours o k n) s
    unfolding insert_periods insert_each
    insert_periods_fixed zero n k m s room e = absurd (omega arith)
    insert_periods_fixed (suc fuel) zero k m s room e =
        rw (ltb_ℤ-sub (k * half_hour) (m * half_hour) o, ltb-aligned_not k m e) refl
    insert_periods_fixed (suc fuel) (suc n) k m s room e =
        let before = ltb_ℤ-sub (k * half_hour) (m * half_hour) o ∙ ltb-aligned k m (omega arith) in
        elim (Option-cases (insert_period zone files insert (pos (k * half_hour) -ℤ o) s)) [
          | inl x ↦ rw (insert_each, x, before) refl
          | inr (s', x) ↦
              rw (insert_each, x, before, get_next_period_aligned zone o is k)
                (insert_periods_fixed fuel n (suc k) m s' (omega arith) (omega arith))
        ]

    -- In a zone that keeps its offset, with wall clocks that are not before year 1, main ends: with
    -- more fuel than half-hours, it inserts each half-hour once, from the one after the last update to
    -- the one before the last full period, in order.
    pub update_fixed :
        (fuel v w : ℕ) (last_update now : Time) (s : S)
        → last_update +ℤ o ≡ pos v
        → now +ℤ o ≡ pos w
        → w / half_hour < fuel
        → update zone files insert fuel last_update now s
          ≡ insert_each (half_hours o (v / half_hour + 1) (w / half_hour - (v / half_hour + 1))) s
    unfolding update
    update_fixed fuel v w last_update now s ev ew room =
        rw
          (
            get_next_period_fixed zone o is last_update v ev,
            get_last_full_period_fixed zone o is now w ew,
          )
          (insert_periods_fixed fuel (w / half_hour - (v / half_hour + 1)) (v / half_hour + 1)
            (w / half_hour) s (omega arith) refl)
