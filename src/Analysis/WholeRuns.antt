-- ===== src/Analysis/WholeRuns.antt =====
-- analysis/heatloss-analysis.go: main over several files, and main with VERBOSE.
use mathlib.Core.List.{append-nil, append_assoc}
use smarthouse.Prelude.{
  ℕ, ℤ, negsuc, int_eq, Option, none, some, Option-cases, List, [], ◌∷◌, ◌++◌, Bytes, Bool, true,
  false, Bool-cases, inl, inr, ◌≡◌, refl, sym, ap, ◌∙◌, Outcome, returned, panicked, ◌>>=◌,
  Outcome-cases,
}
use smarthouse.GoConv.{atoi}
use smarthouse.Analysis.Windows.{Float32Ops, WindowState, initial_state, Line}
use smarthouse.Analysis.Scans.{checked, scan_line, scan_lines, analyse}
use smarthouse.Analysis.Rooms.{in_secs, scan_file, scan_files, last_window, heat_loss}
use smarthouse.Analysis.Verbose.{
  quieted, quieted->>=, quieted-append, end_window-quieted, scan_lines-quieted,
}

-- What is printed by a run and by the one that goes on from its state.
abbrev followed :
    Outcome (WindowState × List Line)
    → (WindowState → Outcome (WindowState × List Line))
    → Outcome (WindowState × List Line)
followed m k = m >>= λ (st, printed). k st >>= λ (st', more). returned (st', printed ++ more)

followed_assoc :
    (m : Outcome (WindowState × List Line)) (k l : WindowState → Outcome (WindowState × List Line))
    → followed (followed m k) l ≡ followed m (λ st. followed (k st) l)
followed_assoc panicked k l = refl
followed_assoc (returned (st, p)) k l = elim (Outcome-cases (k st)) [
  | inl e ↦ rw e refl
  | inr ((st1, q), e) ↦ rw e (elim (Outcome-cases (l st1)) [
    | inl e1 ↦ rw e1 refl
    | inr ((st2, r), e1) ↦ rw e1 (ap (λ lines. returned (st2, lines)) (append_assoc p q r))
  ])
]

followed-panicked : (m : Outcome (WindowState × List Line)) → followed m (λ st. panicked) ≡ panicked
followed-panicked panicked = refl
followed-panicked (returned r) = refl

followed_cong :
    (m : Outcome (WindowState × List Line)) (k l : WindowState → Outcome (WindowState × List Line))
    → ((st : WindowState) → k st ≡ l st)
    → followed m k ≡ followed m l
followed_cong panicked k l same = refl
followed_cong (returned (st, p)) k l same =
    ap (λ o. o >>= λ (st', more). returned (st', p ++ more)) (same st)

-- The lines of the files, one file after the other, if all of them open.
abbrev pub all_lines : (Bytes → Option (List Bytes)) → List Bytes → Option (List Bytes)
all_lines files [] = some []
all_lines files (filename ∷ filenames) = elim (files filename) [
  | none ↦ none
  | some lines ↦ elim (all_lines files filenames) [ none ↦ none | some rest ↦ some (lines ++ rest) ]
]

module _ (f : Float32Ops) (hour_of_day : ℤ → ℕ) (verbose : Bool)
    (files : Bytes → Option (List Bytes)) (node outside : Bytes) where
  scan_lines-append :
      (lines rest : List Bytes) (st : WindowState)
      → scan_lines f hour_of_day verbose node outside (lines ++ rest) st
        ≡ followed
            (scan_lines f hour_of_day verbose node outside lines st)
            (scan_lines f hour_of_day verbose node outside rest)
  unfolding scan_lines
  scan_lines-append [] rest st =
      elim (Outcome-cases (scan_lines f hour_of_day verbose node outside rest st)) [
        | inl e ↦ rw e refl
        | inr (r, e) ↦ rw e refl
      ]
  scan_lines-append (line ∷ lines) rest st =
      let scan = scan_lines f hour_of_day verbose node outside in
      followed_cong (scan_line f hour_of_day verbose node outside st line) _ _
        (scan_lines-append lines rest)
      ∙ sym (
          followed_assoc (scan_line f hour_of_day verbose node outside st line) (scan lines)
            (scan rest))

  scan_files-all_lines :
      (filenames : List Bytes) (st : WindowState)
      → scan_files f hour_of_day verbose files node outside filenames st ≡ (
          checked (all_lines files filenames) >>= λ lines.
          scan_lines f hour_of_day verbose node outside lines st)
  unfolding scan_files scan_file scan_lines
  scan_files-all_lines [] st = refl
  scan_files-all_lines (filename ∷ filenames) st = elim (Option-cases (files filename)) [
    | inl e ↦ rw (scan_files, all_lines, e) refl
    | inr (lines, e) ↦
        let scan = scan_lines f hour_of_day verbose node outside in
        let rest = scan_files-all_lines filenames in
        elim (Option-cases (all_lines files filenames)) [
          | inl e1 ↦
              rw (scan_files, all_lines, e, e1)
                (followed_cong (scan lines st) _ (λ st1. panicked) (λ st1. rest st1 ∙ rw e1 refl)
                  ∙ followed-panicked (scan lines st))
          | inr (lines1, e1) ↦
              rw (scan_files, all_lines, e, e1)
                (followed_cong (scan lines st) _ (scan lines1) (λ st1. rest st1 ∙ rw e1 refl)
                  ∙ sym (scan_lines-append lines lines1 st))
        ]
  ]

  followed-last_window :
      (win_secs : ℤ) (lines : List Bytes)
      → followed
          (scan_lines f hour_of_day verbose node outside lines (initial_state win_secs))
          (last_window f hour_of_day verbose files node)
        ≡ analyse f hour_of_day verbose node outside win_secs lines
  unfolding last_window analyse
  followed-last_window win_secs lines =
      elim (Outcome-cases
        (scan_lines f hour_of_day verbose node outside lines (initial_state win_secs))) [
          | inl e ↦ rw (e, analyse) refl
          | inr ((st, p), e) ↦
              rw (e, analyse)
                (elim (Bool-cases (int_eq st.start_ts (negsuc 0))) [
                  | inl none_yet ↦ rw none_yet (ap (λ q. returned (st, q)) (append-nil p))
                  | inr begun ↦ rw begun refl
                ])
        ]

  -- main prints of its files what it prints of one file that holds their lines, one after the other, and
  -- panics if the length of the windows is no int, or one of the files does not open.
  pub heat_loss-analyse :
      (program minutes filename : Bytes) (filenames : List Bytes)
      → heat_loss f hour_of_day verbose files
          (program ∷ node ∷ outside ∷ minutes ∷ filename ∷ filenames)
        ≡ (checked (atoi minutes) >>= λ window.
            checked (all_lines files (filename ∷ filenames)) >>= λ lines.
            analyse f hour_of_day verbose node outside (in_secs window) lines)
  unfolding heat_loss
  heat_loss-analyse program minutes filename filenames = elim (Option-cases (atoi minutes)) [
    | inl e ↦ rw (heat_loss, e) refl
    | inr (window, e) ↦
        let start = initial_state (in_secs window) in
        let last = last_window f hour_of_day verbose files node in
        rw (heat_loss, e)
          (ap (λ m. followed m last) (scan_files-all_lines (filename ∷ filenames) start)
            ∙ (elim (Option-cases (all_lines files (filename ∷ filenames))) [
              | inl e1 ↦ rw e1 refl
              | inr (lines, e1) ↦ rw e1 (followed-last_window (in_secs window) lines)
            ]))
  ]

module _ (f : Float32Ops) (hour_of_day : ℤ → ℕ) (files : Bytes → Option (List Bytes)) where
  last_window-quieted :
      (node : Bytes) (st : WindowState)
      → last_window f hour_of_day false files node st
        ≡ quieted (last_window f hour_of_day true files node st)
  unfolding last_window
  last_window-quieted node st = elim (Bool-cases (int_eq st.start_ts (negsuc 0))) [
    | inl none_yet ↦ rw (last_window, none_yet) refl
    | inr begun ↦ rw (last_window, begun) (end_window-quieted f hour_of_day node st st.last_ts)
  ]

  scan_files-quieted :
      (node outside : Bytes) (filenames : List Bytes) (st : WindowState)
      → scan_files f hour_of_day false files node outside filenames st
        ≡ quieted (scan_files f hour_of_day true files node outside filenames st)
  unfolding scan_files scan_file
  scan_files-quieted node outside [] st = refl
  scan_files-quieted node outside (filename ∷ filenames) st = elim (Option-cases (files filename)) [
    | inl e ↦ rw (scan_files, e) refl
    | inr (lines, e) ↦
        rw (scan_files, e)
          (quieted->>= (scan_lines f hour_of_day false node outside lines st)
            (scan_lines f hour_of_day true node outside lines st) _ _
            (scan_lines-quieted f hour_of_day node outside lines st)
            (λ st1 printed.
              quieted-append _ _ printed (scan_files-quieted node outside filenames st1)))
  ]

  -- VERBOSE only adds lines: without it main ends in the same state, or panics, as with it, and prints
  -- the same lines less those of VERBOSE.
  pub heat_loss-quieted :
      (args : List Bytes)
      → heat_loss f hour_of_day false files args ≡ quieted (heat_loss f hour_of_day true files args)
  unfolding heat_loss
  heat_loss-quieted [] = refl
  heat_loss-quieted (program ∷ []) = refl
  heat_loss-quieted (program ∷ node ∷ []) = refl
  heat_loss-quieted (program ∷ node ∷ outside ∷ []) = refl
  heat_loss-quieted (program ∷ node ∷ outside ∷ minutes ∷ []) = refl
  heat_loss-quieted (program ∷ node ∷ outside ∷ minutes ∷ filename ∷ filenames) =
      elim (Option-cases (atoi minutes)) [
        | inl e ↦ rw (heat_loss, e) refl
        | inr (window, e) ↦
            rw (heat_loss, e)
              (quieted->>= _ _ _ _
                (scan_files-quieted node outside (filename ∷ filenames)
                  (initial_state (in_secs window)))
                (λ st printed. quieted-append _ _ printed (last_window-quieted node st)))
      ]
