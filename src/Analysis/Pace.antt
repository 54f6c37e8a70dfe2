-- ===== src/Analysis/Pace.antt =====
-- analysis/heatloss-analysis.go: which window is open after a line.
use smarthouse.Prelude.{
  ◌∙◌, ℕ, ℤ, pos, negsuc, int_eq, leb_ℤ, add_int, ◌≡◌, refl, arith, inl, inr, Bool, Bool-cases,
  Option, some, none, Option-cases, List, get_elem?, Bytes, codes, bytes_eq, bytes_eq_iff, Allows,
  >>=-Allows, >>=-Allows_any, ltb, leb, length, ◌&&◌, if◌then◌else◌,
}
use smarthouse.GoStrings.{split}
use smarthouse.GoConv.{atoi}
use smarthouse.Analysis.Windows.{
  Float32, Float32Ops, WindowState, at, summarise, minus_one32, record_rate, end_night, use_window,
  next_window, end_window,
}
use smarthouse.Analysis.Scans.{
  parse_temperature, window_start, read_outside, take_node, read_node, update_diff, go_on,
  open_window, read_line, scan_parts, scan_line,
}
use smarthouse.Analysis.Starts.{next_start}
use smarthouse.Analysis.Lines.{IsLine, at-found}

-- The time of a line whose second field is OK.
abbrev moment_of : Option Bytes → Option Bytes → Option ℤ
moment_of (some tag) (some s) = if bytes_eq tag (codes "OK") then atoi s else none
moment_of _ _ = none

unfoldable pub moment : Bytes → Option ℤ
moment line = moment_of (get_elem? (split b' ' line) 1) (get_elem? (split b' ' line) 0)

-- The length and the start of the window.
abbrev pub IsSameWindow : WindowState → WindowState → Type 0
IsSameWindow st st' = (st'.win_secs ≡ st.win_secs) × (st'.start_ts ≡ st.start_ts)

-- The window that is open after a line at this time.
abbrev pub Opened : WindowState → ℤ → WindowState → Type 0
Opened st ts st' =
    (st'.win_secs ≡ st.win_secs) × (st'.start_ts ≡ next_start st.win_secs st.start_ts ts)

-- The window after a line, by its time.
abbrev pub After : WindowState → Option ℤ → WindowState → Type 0
After st none st' = IsSameWindow st st'
After st (some ts) st' = Opened st ts st'

module _ (f : Float32Ops) (hour_of_day : ℤ → ℕ) (verbose : Bool) (node outside : Bytes) where
  end_night-IsSameWindow :
      (st : WindowState) → Allows (λ r. IsSameWindow st r.0) (end_night f hour_of_day st)
  unfolding end_night
  end_night-IsSameWindow st = elim (Bool-cases (ltb 0 (length st.transfer_rates))) [
    | inl rates ↦ rw rates (
        >>=-Allows_any (λ r. IsSameWindow st r.0) (summarise f hour_of_day st) _
          (λ s. (refl, refl)))
    | inr none_yet ↦ rw none_yet (refl, refl)
  ]

  use_window-IsSameWindow :
      (st : WindowState)
      → Allows (λ r. IsSameWindow st r.0) (use_window f hour_of_day node st (negsuc 0))
  unfolding use_window record_rate
  use_window-IsSameWindow st =
      elim (Bool-cases (leb 1 (hour_of_day st.start_ts) && ltb (hour_of_day st.start_ts) 7)) [
        | inl night ↦
            rw (use_window, night)
              (elim (Bool-cases st.node_heated) [
                | inl heated ↦ rw heated (refl, refl)
                | inr not_heated ↦ rw not_heated (refl, refl)
              ])
        | inr day ↦ rw (use_window, day) (end_night-IsSameWindow st)
      ]

  end_window-start :
      (st : WindowState)
      → Allows
          (λ r. (r.0.win_secs ≡ st.win_secs) × (r.0.start_ts ≡ add_int st.start_ts st.win_secs))
          (end_window f hour_of_day verbose node st (negsuc 0))
  unfolding end_window next_window
  end_window-start st = elim (Bool-cases (f.same st.start_degc minus_one32)) [
    | inl nothing ↦ rw (end_window, nothing) (refl, refl)
    | inr points ↦
        rw (end_window, points)
          (>>=-Allows (λ r. IsSameWindow st r.0) _ (use_window f hour_of_day node st (negsuc 0)) _
            (use_window-IsSameWindow st) (λ (st', p) (w, start). (w, rw (start, w) refl)))
  ]

  open_window-Opened :
      (st : WindowState) (ts : ℤ)
      → Allows (λ r. Opened st ts r.0) (open_window f hour_of_day verbose node outside st ts)
  unfolding open_window window_start
  open_window-Opened st ts = elim (Bool-cases (int_eq st.start_ts (negsuc 0))) [
    | inl first ↦ elim (Bool-cases (int_eq st.win_secs (pos 0))) [
      | inl zero_secs ↦ rw (open_window, first, zero_secs) tt
      | inr fits ↦ rw (open_window, first, fits) (refl, refl)
    ]
    | inr later ↦ elim (Bool-cases (leb_ℤ (add_int st.start_ts st.win_secs) ts)) [
      | inl over ↦ rw (open_window, later, over) (end_window-start st)
      | inr inside ↦ rw (open_window, later, inside) (refl, refl)
    ]
  ]

  read_outside-IsSameWindow :
      (st : WindowState) (t : Float32) → IsSameWindow st (go_on f (read_outside f st t))
  unfolding read_outside update_diff
  read_outside-IsSameWindow st t = ground arith

  read_node-IsSameWindow :
      (st : WindowState) (ts : ℤ) (t : Float32) → IsSameWindow st (go_on f (read_node f st ts t))
  unfolding read_node take_node update_diff
  read_node-IsSameWindow st ts t = ground arith

  read_line-IsSameWindow :
      (parts : List Bytes) (st : WindowState) (ts : ℤ)
      → Allows (IsSameWindow st) (read_line f hour_of_day verbose node outside parts st ts)
  unfolding read_line
  read_line-IsSameWindow parts st ts = >>=-Allows_any (IsSameWindow st) (at parts 2) _ (λ id.
      elim (Bool-cases (bytes_eq id outside)) [
        | inl out ↦ rw out (
            >>=-Allows_any (IsSameWindow st) (parse_temperature parts) _
              (λ t. read_outside-IsSameWindow st t))
        | inr not_out ↦ elim (Bool-cases (bytes_eq id node)) [
          | inl inside ↦
              rw (not_out, inside)
                (>>=-Allows_any (IsSameWindow st) (parse_temperature parts) _
                  (λ t. read_node-IsSameWindow st ts t))
          | inr neither ↦ rw (not_out, neither) (refl, refl)
        ]
      ])

  scan_parts-Opened :
      (parts : List Bytes) (st : WindowState) (s : Bytes) (ts : ℤ)
      → get_elem? parts 0 ≡ some s
      → atoi s ≡ some ts
      → Allows (λ r. Opened st ts r.0) (scan_parts f hour_of_day verbose node outside parts st)
  unfolding scan_parts
  scan_parts-Opened parts st s ts there number =
      rw (at-found parts 0 s there, number)
        (>>=-Allows (λ r. Opened st ts r.0) (λ r. Opened st ts r.0)
          (open_window f hour_of_day verbose node outside st ts) _ (open_window-Opened st ts)
          (λ (st1, p) (w, start).
            >>=-Allows (IsSameWindow st1) (λ r. Opened st ts r.0)
              (read_line f hour_of_day verbose node outside parts st1 ts) _
              (read_line-IsSameWindow parts st1 ts) (λ st2 (w2, start2). (w2 ∙ w, start2 ∙ start))))

  pub scan_line-After :
      (st : WindowState) (line : Bytes)
      → IsLine line
      → Allows
          (λ r. After st (moment line) r.0)
          (scan_line f hour_of_day verbose node outside st line)
  unfolding scan_line moment
  scan_line-After st line (tag, there, reading) = elim (Bool-cases (bytes_eq tag (codes "OK"))) [
    | inl ok ↦
        let ((s, ts, time, number), _, _, _, _) = reading ((bytes_eq_iff tag (codes "OK")).0 ok) in
        rw (at-found (split b' ' line) 1 tag there, there, time, ok, number)
          (scan_parts-Opened (split b' ' line) st s ts time number)
    | inr skip ↦
        rw (at-found (split b' ' line) 1 tag there, there)
          (elim (Option-cases (get_elem? (split b' ' line) 0)) [
            | inl empty ↦ rw (empty, skip) (refl, refl)
            | inr (s, time) ↦ rw (time, skip) (refl, refl)
          ])
  ]
