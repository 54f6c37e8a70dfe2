-- ===== src/Analysis/FoldExamples.antt =====
-- analysis/powerdb.go's main where summer time ends: at a wall clock five hours behind UTC that comes back
-- to its 34000002nd half-hour, with the earlier instant, and at one twelve hours ahead, with the later one.
use smarthouse.Prelude.{
  ◌*◌, ◌≡◌, refl, arith, pos, ◌+ℤ◌, ◌-ℤ◌, ltb_ℤ, Option, some, List, [], ◌∷◌, Bytes, Bool, true,
  false, ◌||◌, bytes_Eq, bytes_eq_iff, subst, ap, ◌==◌, if◌then◌else◌,
}
use smarthouse.Analysis.Periods.{Zone, half_hour, get_last_full_period}
use smarthouse.Analysis.Pulses.{fatal, insert_period, insert_periods}
use smarthouse.Analysis.Folds.{hour, fold_time, before_fold, first_of_doubled}
use smarthouse.Analysis.Update.{Database, run_update}
use smarthouse.Analysis.Stuck.{IsKeyed, record_text, run_update_stuck}
use smarthouse.Analysis.Skipped.{IsLateFold, insert_periods_skips}
use smarthouse.Analysis.Examples.{
  ahead, no_files, listing, behind, doubled, new_york, spring, new_york-IsFold,
}

-- The texts in a table that refuses those it has, and that gives the last one first.
abbrev has_text : Bytes → List Bytes → Bool
has_text text [] = false
has_text text (row ∷ rows) = text == row || has_text text rows

abbrev first_row : List Bytes → List (Option Bytes)
first_row [] = []
first_row (text ∷ texts) = some text ∷ []

abbrev inserted : Bool → Bytes → List Bytes → Bool × List Bytes
inserted held text s = if held then (false, s) else (true, text ∷ s)

abbrev keyed : Database (List Bytes)
keyed = record {
  latest = λ s. some (first_row s);
  insert_text = λ text wh s. inserted (has_text text s) text s;
}

has_text-head : (text : Bytes) (s : List Bytes) → has_text text (text ∷ s) ≡ true
has_text-head text s = rw ((bytes_eq_iff text text).1 refl) refl

keyed-found :
    (s : List Bytes) (text : Bytes) (rows : List (Option Bytes))
    → some (first_row s) ≡ some (some text ∷ rows)
    → has_text text s ≡ true
keyed-found [] text rows e = absurd (ground arith)
keyed-found (row ∷ s) text rows e =
    subst (λ t. has_text text (t ∷ s) ≡ true) (ground arith) (has_text-head text s)

keyed-kept :
    (text other : Bytes) (s s' : List Bytes) (held : Bool)
    → has_text text s ≡ true
    → inserted held other s ≡ (true, s')
    → has_text text s' ≡ true
keyed-kept text other s s' true has e = absurd (ground (arith, ap (λ r. r.0) e))
keyed-kept text other s s' false has e =
    subst (λ t. has_text text t ≡ true) (ap (λ r. r.1) e) (ground arith)

keyed-IsKeyed : IsKeyed keyed (λ text s. has_text text s ≡ true)
keyed-IsKeyed = record {
  found = keyed-found;
  kept = λ text other wh s s' has e. keyed-kept text other s s' (has_text other s) has e;
  refused = λ text wh s has. ground arith;
}

-- 01:30 in summer, the half-hour before the clocks go back to 01:00.
abbrev last_of_summer : List Bytes
last_of_summer = record_text new_york (before_fold doubled behind) ∷ []

run_update_stuck_example :
    run_update new_york keyed no_files 100
      (fold_time doubled behind +ℤ pos (10 * half_hour))
      (some last_of_summer)
    ≡ fatal
unfolding ◌+ℤ◌ ◌-ℤ◌ get_last_full_period
run_update_stuck_example =
    run_update_stuck new_york keyed (λ text s. has_text text s ≡ true) keyed-IsKeyed no_files
      doubled behind new_york-IsFold 98 (fold_time doubled behind +ℤ pos (10 * half_hour))
      last_of_summer [] (refl, refl, omega arith, omega arith) (omega arith) refl (omega arith)

abbrev new_zealand_autumn : Zone
new_zealand_autumn = record {
  offset = λ t.
      if ltb_ℤ t spring
      then ahead
      else if ltb_ℤ t (fold_time doubled ahead)
      then ahead +ℤ pos hour
      else ahead;
  date = λ w.
      if ltb_ℤ w (spring +ℤ ahead)
      then w -ℤ ahead
      else if ltb_ℤ w (pos (doubled * half_hour))
      then w -ℤ (ahead +ℤ pos hour)
      else w -ℤ ahead;
}

new_zealand_autumn-IsLateFold : IsLateFold new_zealand_autumn doubled ahead
unfolding ◌+ℤ◌ ◌-ℤ◌
new_zealand_autumn-IsLateFold = record {
  summer = λ t from h. ground arith;
  later = λ w low high. ground arith;
}

insert_periods_skips_example :
    insert_periods new_zealand_autumn no_files listing 100
      (first_of_doubled doubled ahead)
      (pos 70000000000000000000)
      []
    ≡ insert_periods new_zealand_autumn no_files listing 99
        (first_of_doubled doubled ahead +ℤ pos (3 * half_hour))
        (pos 70000000000000000000)
        (first_of_doubled doubled ahead ∷ [])
unfolding insert_period ◌+ℤ◌ ◌-ℤ◌
insert_periods_skips_example =
    insert_periods_skips new_zealand_autumn doubled ahead new_zealand_autumn-IsLateFold no_files
      listing 99 (pos 70000000000000000000) [] (first_of_doubled doubled ahead ∷ []) (omega arith)
      refl
