-- ===== src/Analysis/Rooms.antt =====
-- analysis/heatloss-analysis.go: ScanFile over a file and main, from the arguments of the command to what
-- is printed. The files are an argument: the lines of the scanner, or none where os.Open fails.
use smarthouse.Prelude.{
  ℕ, ◌+◌, ◌*◌, ℤ, pos, negsuc, wrap_int, int_eq, Option, List, [], ◌∷◌, ◌++◌, Bytes, Bool, Outcome,
  returned, panicked, ◌>>=◌, if◌then◌else◌,
}
use smarthouse.GoConv.{atoi}
use smarthouse.Analysis.Windows.{Float32Ops, WindowState, initial_state, Line, end_window}
use smarthouse.Analysis.Scans.{checked, scan_lines}

-- `window * 60` on int64.
abbrev pub in_secs : ℤ → ℤ
in_secs (pos n) = wrap_int (pos (60 * n))
in_secs (negsuc n) = wrap_int (negsuc (60 * n + 59))

module _ (f : Float32Ops) (hour_of_day : ℤ → ℕ) (verbose : Bool)
    (files : Bytes → Option (List Bytes)) where
  unfoldable pub scan_file : Bytes → Bytes → WindowState → Bytes → Outcome (WindowState × List Line)
  scan_file node outside st filename = do
    lines ← checked (files filename)
    scan_lines f hour_of_day verbose node outside lines st

  -- The loop of main over the files.
  unfoldable pub scan_files :
      Bytes → Bytes → List Bytes → WindowState → Outcome (WindowState × List Line)
  unfolding scan_file
  scan_files node outside [] st = returned (st, [])
  scan_files node outside (filename ∷ filenames) st = do
    (st1, printed) ← scan_file node outside st filename
    (st2, more) ← scan_files node outside filenames st1
    returned (st2, printed ++ more)

  -- The final partial window.
  unfoldable pub last_window : Bytes → WindowState → Outcome (WindowState × List Line)
  last_window node st =
      let ended = end_window f hour_of_day verbose node st st.last_ts in
      if int_eq st.start_ts (negsuc 0) then returned (st, []) else ended

  -- main, from os.Args.
  unfoldable pub heat_loss : List Bytes → Outcome (WindowState × List Line)
  unfolding scan_files last_window
  heat_loss (program ∷ node ∷ outside ∷ minutes ∷ filename ∷ filenames) = do
    window ← checked (atoi minutes)
    (st, printed) ← scan_files node outside (filename ∷ filenames) (initial_state (in_secs window))
    (st', more) ← last_window node st
    returned (st', printed ++ more)
  heat_loss args = panicked
