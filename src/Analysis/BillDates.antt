-- ===== src/Analysis/BillDates.antt =====
-- Which half-hours the bills of analysis/provider-comparison.go count.
use smarthouse.Prelude.{
  ℕ, ◌+◌, ◌*◌, ◌/◌, ◌%◌, ℤ, pos, negsuc, ◌+ℤ◌, pos_part, neg_part, All, List, [], ◌∷◌, ◌++◌, Bytes,
  ◌≡◌, refl, ap, sym, ◌∙◌, arith, map, ◌⊎◌, inl, inr, suc, leb, Bool-cases, if◌then◌else◌,
}
use smarthouse.GoTime.{Time}
use smarthouse.GoFormat.{rfc3339, format_date, format_clock, format_offset, format_wall}
use smarthouse.Analysis.Periods.{Zone, second}
use smarthouse.Analysis.Bills.{local_rfc3339, bill_texts, day, day_and_one, bill_periods}
use smarthouse.Analysis.Ranges.{ranges, Ascending, inside, times_counted, times_counted-ranges}

-- Offsets are whole seconds, and change only at whole seconds.
pub record IsWhole (zone : Zone) : Type 0 where
  pub seconds :
      (t : Time) → (pos_part (zone.offset t) % second ≡ 0) × (neg_part (zone.offset t) % second ≡ 0)
  pub steady : (n : ℕ) → zone.offset (pos (n * second + 1)) ≡ zone.offset (pos (n * second))

-- The instant is a whole second, not before year 1.
abbrev pub IsSecond : Time → Type 0
IsSecond t = (n : ℕ) × (t ≡ pos (n * second))

format_date-suc : (w : ℕ) → w % second ≡ 0 → format_date (w + 1) ≡ format_date w
unfolding format_date
format_date-suc w h = let e : (w + 1) / 86400000000000 ≡ w / 86400000000000 = omega arith in rw e

format_clock-suc : (w : ℕ) → w % second ≡ 0 → format_clock (w + 1) ≡ format_clock w
unfolding format_clock
format_clock-suc w h =
    let e : (w + 1) / 3600000000000 ≡ w / 3600000000000 = omega arith in
    let f : (w + 1) / 60000000000 ≡ w / 60000000000 = omega arith in
    let g : (w + 1) / 1000000000 ≡ w / 1000000000 = omega arith in rw (e, f, g)

format_wall-suc :
    (offset : ℤ) (w : ℕ) → w % second ≡ 0 → format_wall offset (w + 1) ≡ format_wall offset w
unfolding format_wall
format_wall-suc offset w h =
    ap (λ (d : Bytes). d ++ b'T' ∷ format_clock (w + 1) ++ format_offset offset)
      (format_date-suc w h)
    ∙ ap (λ (c : Bytes). format_date w ++ b'T' ∷ c ++ format_offset offset) (format_clock-suc w h)

-- A nanosecond after a whole second the wall clock is one later, if it counts.
wall_cases :
    (n : ℕ) (offset : ℤ)
    → pos_part offset % second ≡ 0
    → neg_part offset % second ≡ 0
    → ((pos_part (pos (n * second + 1) +ℤ offset) ≡ pos_part (pos (n * second) +ℤ offset) + 1)
        × (pos_part (pos (n * second) +ℤ offset) % second ≡ 0))
      ⊎ (pos_part (pos (n * second + 1) +ℤ offset) ≡ pos_part (pos (n * second) +ℤ offset))
unfolding ◌+ℤ◌
wall_cases n (pos k) h g = inl (ground arith, ground arith)
wall_cases n (negsuc k) h g = elim (Bool-cases (leb (suc k) (n * second))) [
  | inl e ↦ inl (ground arith, ground arith)
  | inr e ↦ inr (ground arith)
]

-- The nanosecond that main adds to the end of a bill does not show in the text.
rfc3339-suc :
    (n : ℕ) (offset : ℤ)
    → pos_part offset % second ≡ 0
    → neg_part offset % second ≡ 0
    → rfc3339 offset (pos (n * second + 1)) ≡ rfc3339 offset (pos (n * second))
unfolding rfc3339
rfc3339-suc n offset h g = elim (wall_cases n offset h g) [
  | inl (later, whole) ↦ ap (format_wall offset) later ∙ format_wall-suc offset _ whole
  | inr same ↦ ap (format_wall offset) same
]

-- The end of a date, as the query writes it.
abbrev pub day_end : Zone → Time → Bytes
day_end zone t = local_rfc3339 zone (t +ℤ day)

module _ (zone : Zone) (whole : IsWhole zone) where
  -- The text of the end of a bill is that of the next one's start.
  end-start : (t : Time) → IsSecond t → local_rfc3339 zone (t +ℤ day_and_one) ≡ day_end zone t
  unfolding ◌+ℤ◌
  end-start t (n, e) =
      let m = n + 86400 in
      let later : t +ℤ day_and_one ≡ pos (m * second + 1) = rw e (ground arith) in
      let at : t +ℤ day ≡ pos (m * second) = rw e (ground arith) in
      let (up, down) = whole.seconds (pos (m * second)) in
      ap (local_rfc3339 zone) later
      ∙ ap (λ o. rfc3339 o (pos (m * second + 1))) (whole.steady m)
      ∙ rfc3339-suc m (zone.offset (pos (m * second))) up down
      ∙ sym (ap (local_rfc3339 zone) at)

  bill_texts-periods :
      (last : Time) (dates : List Time)
      → All IsSecond dates
      → map (bill_texts zone) (bill_periods last dates)
        ≡ ranges (day_end zone last) (map (day_end zone) dates)
  unfolding bill_periods
  bill_texts-periods last [] h = refl
  bill_texts-periods last (bill ∷ dates) (h, hs) =
      rw (end-start bill h, bill_texts-periods bill dates hs)

  -- A half-hour counts in one bill if its text is strictly between the end of the first date and that
  -- of the last one, and is not the end of a date, and in no bill otherwise, where the ends of the
  -- dates ascend as texts, the dates are whole seconds, and the zone's offsets are.
  pub counted_once :
      (s : Bytes) (last : Time) (dates : List Time)
      → All IsSecond dates
      → Ascending (day_end zone last) (map (day_end zone) dates)
      → times_counted s (map (bill_texts zone) (bill_periods last dates))
        ≡ (if inside (day_end zone last) (map (day_end zone) dates) s then 1 else 0)
  counted_once s last dates h up =
      rw (bill_texts-periods last dates h) (times_counted-ranges s _ _ up)
