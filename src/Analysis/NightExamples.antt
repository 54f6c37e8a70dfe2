-- ===== src/Analysis/NightExamples.antt =====
-- analysis/heatloss-analysis.go at a concrete input: float32 values that are compared as numbers.
use smarthouse.Prelude.{
  ◌>>=◌, add_int, ◌-ℤ◌, bytes_eq, if◌then◌else◌, Option, some, false, Outcome, panicked, ℕ, ℤ, pos,
  negsuc, nat_eq, ltb, refl, arith, inr, inl, none, List, [], ◌∷◌, Bytes, codes, returned, true,
  ◌≡◌,
}
use smarthouse.GoStrings.{split}
use smarthouse.GoConv.{atoi}
use smarthouse.Analysis.Rooms.{heat_loss, in_secs}
use smarthouse.Analysis.WholeRuns.{all_lines, heat_loss-analyse, heat_loss-quieted}
use smarthouse.Analysis.Verbose.{quieted}
use smarthouse.Analysis.Scans.{checked, scan_line, scan_lines, analyse}
use smarthouse.Analysis.Pace.{moment}
use smarthouse.Analysis.Covered.{
  IsCovered, IsSteady, last_time, windows_keep_up, Reaches, scan_line-Reaches,
}
use smarthouse.Analysis.Windows.{
  Float32Ops, WindowState, Summary, Line, night_line, start_line, heated_line, minus_one32,
  initial_state, end_night, end_window,
}
use smarthouse.Analysis.RateBounds.{IsOrder, Bounds, end_night-Bounds}
use smarthouse.Analysis.Lines.{IsLine}

abbrev plain : Float32Ops
plain = record {
  add = λ x y. x;
  sub = λ x y. y;
  mul = λ x y. x;
  div = λ x y. x;
  of_int = λ z. 0;
  less = ltb;
  same = nat_eq;
  add_square = λ t x. t;
  narrow = λ x. x;
  root = λ x. x;
}

abbrev noon : ℤ → ℕ
noon t = 12

abbrev reading : Bytes
reading = codes "1528489800 OK 9 0 0 0 0 0 0 0 0 160 65"

reading-IsLine : IsLine reading
unfolding split atoi
reading-IsLine = (
  codes "OK",
  refl,
  λ e. (
    (codes "1528489800", pos 1528489800, refl, refl),
    (codes "0", pos 0, refl, refl),
    (codes "0", pos 0, refl, refl),
    (codes "160", pos 160, refl, refl),
    (codes "65", pos 65, refl, refl),
  ),
)

short-IsLine : IsLine (codes "1528489801 ?")
unfolding split
short-IsLine = (codes "?", refl, λ e. ground arith)

-- Behind a night with three rates.
abbrev morning : WindowState
morning = record (initial_state (pos 1800)) { start_ts = pos 9; transfer_rates = 5 ∷ 2 ∷ 7 ∷ [] }

plain-IsOrder : IsOrder plain.less (λ x. true)
plain-IsOrder = record { asym = λ x y h. ground arith; chain = λ x y z a b c h k. ground arith }

end_night-Bounds_example :
    (s : Summary) × (end_night plain noon morning
      ≡ returned
          (record morning { transfer_start_ts = negsuc 0; transfer_rates = [] }, night_line s ∷ []))
    × Bounds plain (5 ∷ 2 ∷ 7 ∷ []) s
end_night-Bounds_example =
    end_night-Bounds plain noon (λ x. true) morning plain-IsOrder (refl, (refl, (refl, tt)))
      (omega arith)

-- Half an hour on.
abbrev later_reading : Bytes
later_reading = codes "1528491600 OK 9 0 0 0 0 0 0 0 0 160 65"

later_reading-IsLine : IsLine later_reading
unfolding split atoi
later_reading-IsLine = (
  codes "OK",
  refl,
  λ e. (
    (codes "1528491600", pos 1528491600, refl, refl),
    (codes "0", pos 0, refl, refl),
    (codes "0", pos 0, refl, refl),
    (codes "160", pos 160, refl, refl),
    (codes "65", pos 65, refl, refl),
  ),
)

abbrev steady_lines : List Bytes
steady_lines = reading ∷ codes "1528489801 ?" ∷ later_reading ∷ []

steady_lines-IsSteady : IsSteady 1800 none steady_lines
unfolding moment split atoi
steady_lines-IsSteady = inr (
  1528489800,
  refl,
  tt,
  inl (refl, inr (1528491600, refl, (omega arith, omega arith, omega arith), tt)),
)

windows_keep_up_example :
    (r : WindowState × List Line) × (scan_lines plain noon true
        (codes "9")
        (codes "19")
        steady_lines
        (initial_state (pos 1800))
      ≡ returned r)
    × IsCovered 1800 (last_time none steady_lines) r.0
windows_keep_up_example =
    windows_keep_up plain noon true (codes "9") (codes "19") 1800 (omega arith) steady_lines
      (reading-IsLine, (short-IsLine, (later_reading-IsLine, tt))) steady_lines-IsSteady

-- A window that started an hour and a half before the line.
abbrev behind_a_gap : WindowState
behind_a_gap = record (initial_state (pos 1800)) { start_ts = pos 1528484400 }

scan_line-Reaches_example :
    (r : WindowState × List Line) × (scan_line plain noon true
        (codes "9")
        (codes "19")
        behind_a_gap
        reading
      ≡ returned r)
    × Reaches 1800 1528484400 1528489800 r.0
unfolding moment split atoi
scan_line-Reaches_example =
    scan_line-Reaches plain noon true (codes "9") (codes "19") 1800 (omega arith) reading
      behind_a_gap 1528484400 1528489800 reading-IsLine tt refl refl refl (omega arith)
      (omega arith)

-- One reading in each file.
abbrev logs : Bytes → Option (List Bytes)
logs filename =
    if bytes_eq filename (codes "1.log") then some (reading ∷ []) else some (later_reading ∷ [])

abbrev log_names : List Bytes
log_names = codes "1.log" ∷ codes "2.log" ∷ []

heat_loss-analyse_example :
    heat_loss plain noon true logs
      (codes "heatloss" ∷ codes "9" ∷ codes "19" ∷ codes "30" ∷ log_names)
    ≡ (checked (atoi (codes "30")) >>= λ window. checked (all_lines logs log_names) >>= λ lines.
        analyse plain noon true (codes "9") (codes "19") (in_secs window) lines)
heat_loss-analyse_example =
    heat_loss-analyse plain noon true logs (codes "9") (codes "19") (codes "heatloss") (codes "30")
      (codes "1.log") (codes "2.log" ∷ [])

heat_loss-quieted_example :
    heat_loss plain noon false logs
      (codes "heatloss" ∷ codes "9" ∷ codes "19" ∷ codes "30" ∷ log_names)
    ≡ quieted (
        heat_loss plain noon true logs
          (codes "heatloss" ∷ codes "9" ∷ codes "19" ∷ codes "30" ∷ log_names))
heat_loss-quieted_example =
    heat_loss-quieted plain noon logs
      (codes "heatloss" ∷ codes "9" ∷ codes "19" ∷ codes "30" ∷ log_names)

-- What is printed.
abbrev printed_of : Outcome (WindowState × List Line) → List Line
printed_of panicked = []
printed_of (returned (st, printed)) = printed

two_windows :
    printed_of (
      heat_loss plain noon true logs
        (codes "heatloss" ∷ codes "9" ∷ codes "19" ∷ codes "30" ∷ log_names))
    ≡ start_line (pos 1800) (pos 1528489800)
      ∷ heated_line (pos 1528491600) 0x41a00000 minus_one32
      ∷ heated_line (pos 1528491600) 0x41a00000 minus_one32
      ∷ []
unfolding heat_loss scan_lines end_window split atoi add_int ◌-ℤ◌
two_windows = refl
