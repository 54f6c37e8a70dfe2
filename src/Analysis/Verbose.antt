-- ===== src/Analysis/Verbose.antt =====
-- analysis/heatloss-analysis.go: what VERBOSE adds to the output.
use mathlib.Core.List.{append_assoc}
use smarthouse.Prelude.{
  ℕ, ℤ, negsuc, int_eq, leb_ℤ, add_int, ltb, leb, ◌&&◌, length, List, [], ◌∷◌, ◌++◌, Bytes,
  bytes_eq, codes, true, false, Bool-cases, inl, inr, ◌≡◌, refl, sym, ap, ◌∙◌, Outcome,
  Outcome-cases, returned, panicked, ◌>>=◌,
}
use smarthouse.GoStrings.{split}
use smarthouse.GoConv.{atoi}
use smarthouse.Analysis.Windows.{
  Float32Ops, WindowState, Line, start_line, night_line, at, summarise, end_night, use_window,
  window_line, next_window, end_window, minus_one32,
}
use smarthouse.Analysis.Scans.{
  checked, window_start, open_window, read_line, scan_parts, scan_line, scan_lines,
}

-- Without the lines of VERBOSE.
abbrev kept : Line → List Line
kept (start_line win_secs start) = start_line win_secs start ∷ []
kept (night_line s) = night_line s ∷ []
kept _ = []

abbrev pub quiet : List Line → List Line
quiet [] = []
quiet (line ∷ lines) = kept line ++ quiet lines

abbrev pub quieted : Outcome (WindowState × List Line) → Outcome (WindowState × List Line)
quieted panicked = panicked
quieted (returned (st, printed)) = returned (st, quiet printed)

quiet-append : (xs ys : List Line) → quiet (xs ++ ys) ≡ quiet xs ++ quiet ys
quiet-append [] ys = refl
quiet-append (x ∷ xs) ys =
    ap (λ zs. kept x ++ zs) (quiet-append xs ys) ∙ sym (append_assoc (kept x) (quiet xs) (quiet ys))

-- A run goes on the same way behind what is printed.
pub quieted->>= :
    (m m' : Outcome (WindowState × List Line))
    (k k' : WindowState × List Line → Outcome (WindowState × List Line))
    → m ≡ quieted m'
    → ((st : WindowState) (printed : List Line)
        → k (st, quiet printed) ≡ quieted (k' (st, printed)))
    → (m >>= k) ≡ quieted (m' >>= k')
quieted->>= m panicked k k' e next = ap (λ o. o >>= k) e
quieted->>= m (returned (st, printed)) k k' e next = ap (λ o. o >>= k) e ∙ next st printed

-- Lines that are printed before the rest of a run.
pub quieted-append :
    (m m' : Outcome (WindowState × List Line)) (printed : List Line)
    → m ≡ quieted m'
    → (m >>= λ (st, more). returned (st, quiet printed ++ more))
      ≡ quieted (m' >>= λ (st, more). returned (st, printed ++ more))
quieted-append m m' printed e =
    quieted->>= m m' _ _ e
      (λ st more. ap (λ lines. returned (st, lines)) (sym (quiet-append printed more)))

module _ (f : Float32Ops) (hour_of_day : ℤ → ℕ) where
  end_night-quieted :
      (st : WindowState) → end_night f hour_of_day st ≡ quieted (end_night f hour_of_day st)
  unfolding end_night
  end_night-quieted st = elim (Bool-cases (ltb 0 (length st.transfer_rates))) [
    | inl rates ↦ elim (Outcome-cases (summarise f hour_of_day st)) [
      | inl e ↦ rw (end_night, rates, e) refl
      | inr (s, e) ↦ rw (end_night, rates, e) refl
    ]
    | inr none_yet ↦ rw (end_night, none_yet) refl
  ]

  use_window-quieted :
      (node : Bytes) (st : WindowState) (last_ts : ℤ)
      → use_window f hour_of_day node st last_ts
        ≡ quieted (use_window f hour_of_day node st last_ts)
  unfolding use_window
  use_window-quieted node st last_ts =
      elim (Bool-cases (leb 1 (hour_of_day st.start_ts) && ltb (hour_of_day st.start_ts) 7)) [
        | inl night ↦ rw (use_window, night) refl
        | inr day ↦ rw (use_window, day) (end_night-quieted st)
      ]

  quiet-window_line :
      (node : Bytes) (st : WindowState) (last_ts : ℤ)
      → quiet (window_line f hour_of_day node st last_ts ∷ []) ≡ []
  unfolding window_line
  quiet-window_line node st last_ts = elim (Bool-cases st.node_heated) [
    | inl heated ↦ rw (window_line, heated) refl
    | inr cold ↦ rw (window_line, cold) refl
  ]

  pub end_window-quieted :
      (node : Bytes) (st : WindowState) (last_ts : ℤ)
      → end_window f hour_of_day false node st last_ts
        ≡ quieted (end_window f hour_of_day true node st last_ts)
  unfolding end_window
  end_window-quieted node st last_ts = elim (Bool-cases (f.same st.start_degc minus_one32)) [
    | inl empty ↦ rw (end_window, empty) refl
    | inr points ↦
        rw (end_window, points)
          (quieted->>= (use_window f hour_of_day node st last_ts)
            (use_window f hour_of_day node st last_ts) _ _ (use_window-quieted node st last_ts)
            (λ st' nights.
              ap (λ lines. returned (next_window f hour_of_day st', lines))
                (ap (λ lines. quiet nights ++ lines) (sym (quiet-window_line node st last_ts))
                  ∙ sym (quiet-append nights (window_line f hour_of_day node st last_ts ∷ [])))))
  ]

module _ (f : Float32Ops) (hour_of_day : ℤ → ℕ) (node outside : Bytes) where
  open_window-quieted :
      (st : WindowState) (ts : ℤ)
      → open_window f hour_of_day false node outside st ts
        ≡ quieted (open_window f hour_of_day true node outside st ts)
  unfolding open_window
  open_window-quieted st ts = elim (Bool-cases (int_eq st.start_ts (negsuc 0))) [
    | inl first ↦ elim (Outcome-cases (window_start ts st.win_secs)) [
      | inl e ↦ rw (open_window, first, e) refl
      | inr (start, e) ↦ rw (open_window, first, e) refl
    ]
    | inr later ↦ elim (Bool-cases (leb_ℤ (add_int st.start_ts st.win_secs) ts)) [
      | inl over ↦
          rw (open_window, later, over) (end_window-quieted f hour_of_day node st (negsuc 0))
      | inr inside ↦ rw (open_window, later, inside) refl
    ]
  ]

  -- A reading prints nothing.
  read_line-quieted :
      (parts : List Bytes) (st : WindowState) (ts : ℤ) (printed : List Line)
      → (read_line f hour_of_day false node outside parts st ts >>= λ st2.
          returned (st2, quiet printed))
        ≡ quieted (
            read_line f hour_of_day true node outside parts st ts >>= λ st2.
            returned (st2, printed))
  unfolding read_line
  read_line-quieted parts st ts printed =
      elim (Outcome-cases (read_line f hour_of_day true node outside parts st ts)) [
        | inl e ↦ rw e refl
        | inr (st2, e) ↦ rw e refl
      ]

  scan_parts-quieted :
      (parts : List Bytes) (st : WindowState)
      → scan_parts f hour_of_day false node outside parts st
        ≡ quieted (scan_parts f hour_of_day true node outside parts st)
  unfolding scan_parts
  scan_parts-quieted parts st = elim (Outcome-cases (at parts 0 >>= λ s. checked (atoi s))) [
    | inl e ↦ rw (scan_parts, e) refl
    | inr (ts, e) ↦
        rw (scan_parts, e)
          (quieted->>= (open_window f hour_of_day false node outside st ts)
            (open_window f hour_of_day true node outside st ts) _ _ (open_window-quieted st ts)
            (λ st1 printed. read_line-quieted parts st1 ts printed))
  ]

  scan_line-quieted :
      (st : WindowState) (line : Bytes)
      → scan_line f hour_of_day false node outside st line
        ≡ quieted (scan_line f hour_of_day true node outside st line)
  unfolding scan_line
  scan_line-quieted st line = elim (Outcome-cases (at (split b' ' line) 1)) [
    | inl e ↦ rw (scan_line, e) refl
    | inr (tag, e) ↦ elim (Bool-cases (bytes_eq tag (codes "OK"))) [
      | inl ok ↦ rw (scan_line, e, ok) (scan_parts-quieted (split b' ' line) st)
      | inr skip ↦ rw (scan_line, e, skip) refl
    ]
  ]

  pub scan_lines-quieted :
      (lines : List Bytes) (st : WindowState)
      → scan_lines f hour_of_day false node outside lines st
        ≡ quieted (scan_lines f hour_of_day true node outside lines st)
  unfolding scan_lines
  scan_lines-quieted [] st = refl
  scan_lines-quieted (line ∷ lines) st =
      quieted->>= (scan_line f hour_of_day false node outside st line)
        (scan_line f hour_of_day true node outside st line) _ _ (scan_line-quieted st line)
        (λ st1 printed. quieted-append _ _ printed (scan_lines-quieted lines st1))
