-- ===== src/Analysis/Covered.antt =====
-- analysis/heatloss-analysis.go: whether the window that is open contains the time of the line that is
-- read.
use smarthouse.Prelude.{
  subst, sym, ◌∙◌, ℕ, ◌+◌, ◌*◌, ◌/◌, ◌<◌, ◌≤◌, ℤ, pos, negsuc, ◌≡◌, refl, arith, inl, inr, ◌⊎◌, ◌↔◌,
  Bool, Bool-cases, Option, some, none, List, [], ◌∷◌, All, Bytes, returned, Allows, Allows-Allows,
  >>=-Allows, Returns-Allows, leb,
}
use smarthouse.Analysis.Windows.{Float32Ops, WindowState, initial_state, Line}
use smarthouse.Analysis.Scans.{scan_line, scan_lines}
use smarthouse.Analysis.Nights.{IsNight, IsResult}
use smarthouse.Analysis.Lines.{IsLine, scan_line-IsResult, scan_lines-IsResult}
use smarthouse.Analysis.Starts.{
  next_start, IsNext, next_start_over, next_start_inside, next_start_steady,
}
use smarthouse.Analysis.Pace.{moment, IsSameWindow, Opened, After, scan_line-After}

-- The window that is open is the one that the last time falls into, of the windows since 1970; none is
-- open before a line has a time.
abbrev pub IsCovered : ℕ → Option ℕ → WindowState → Type 0
IsCovered l none st = (st.win_secs ≡ pos l) × (st.start_ts ≡ negsuc 0)
IsCovered l (some t) st = (st.win_secs ≡ pos l) × (st.start_ts ≡ pos (t / l * l))

-- The times of the lines, each at most the length of a window after the one before.
abbrev pub IsSteady : ℕ → Option ℕ → List Bytes → Type 0
IsSteady l last [] = Unit
IsSteady l last (line ∷ lines) =
    ((moment line ≡ none) × IsSteady l last lines)
    ⊎ ((t : ℕ) × (moment line ≡ some (pos t)) × IsNext l last t × IsSteady l (some t) lines)

abbrev pub time_or : Option ℕ → Option ℤ → Option ℕ
time_or last (some (pos t)) = some t
time_or last _ = last

-- The time of the last line that has one.
abbrev pub last_time : Option ℕ → List Bytes → Option ℕ
last_time last [] = last
last_time last (line ∷ lines) = last_time (time_or last (moment line)) lines

After-IsCovered :
    (l t : ℕ) (last : Option ℕ) (st st' : WindowState)
    → 0 < l
    → IsNext l last t
    → IsCovered l last st
    → Opened st (pos t) st'
    → IsCovered l (some t) st'
After-IsCovered l t none st st' some_secs next (w, start) (w', start') =
    (w' ∙ w, start' ∙ rw (w, start) refl)
After-IsCovered l t (some u) st st' some_secs next (w, start) (w', start') =
    (w' ∙ w, start' ∙ rw (w, start) (next_start_steady l u t some_secs next))

same-IsCovered :
    (l : ℕ) (last : Option ℕ) (st st' : WindowState)
    → IsCovered l last st
    → IsSameWindow st st'
    → IsCovered l last st'
same-IsCovered l none st st' (w, start) (w', start') = (w' ∙ w, start' ∙ start)
same-IsCovered l (some u) st st' (w, start) (w', start') = (w' ∙ w, start' ∙ start)

zero_window : (l : ℕ) → 0 < l → pos l ≡ pos 0 → ⊥
zero_window l some_secs e = ground arith

-- A window that starts no later than time `t`, and has it in it exactly if `t` is before the end of the
-- window after the one that starts at `a`.
abbrev pub Reaches : ℕ → ℕ → ℕ → WindowState → Type 0
Reaches l a t st = (b : ℕ) × (st.start_ts ≡ pos b) × (b ≤ t) × ((t < b + l) ↔ (t < a + l + l))

next_start-Reaches :
    (l a t : ℕ) (st : WindowState)
    → a ≤ t
    → t + l < 9223372036854775808
    → st.start_ts ≡ next_start (pos l) (pos a) (pos t)
    → Reaches l a t st
next_start-Reaches l a t st from fits start = elim (Bool-cases (leb (a + l) t)) [
  | inl over ↦ (
    a + l,
    start ∙ next_start_over l a t (ground arith) (omega arith),
    ground arith,
    (λ h. h, λ h. h),
  )
  | inr inside ↦ (
    a,
    start ∙ next_start_inside l a t (ground arith) (omega arith),
    from,
    (λ h. omega arith, λ h. ground arith),
  )
]

module _ (f : Float32Ops) (hour_of_day : ℤ → ℕ) (verbose : Bool) (node outside : Bytes) (l : ℕ)
    (some_secs : 0 < l) where
  line_moved :
      (st : WindowState) (line : Bytes) (m : Option ℤ)
      → IsLine line
      → moment line ≡ m
      → Allows (λ r. After st m r.0) (scan_line f hour_of_day verbose node outside st line)
  line_moved st line m one e =
      subst
        (λ x. Allows (λ r. After st x r.0) (scan_line f hour_of_day verbose node outside st line)) e
        (scan_line-After f hour_of_day verbose node outside st line one)

  scan_lines-IsCovered :
      (lines : List Bytes) (last : Option ℕ) (st : WindowState)
      → All IsLine lines
      → IsSteady l last lines
      → IsCovered l last st
      → Allows
          (λ r. IsCovered l (last_time last lines) r.0)
          (scan_lines f hour_of_day verbose node outside lines st)
  unfolding scan_lines
  scan_lines-IsCovered [] last st all steady v = v
  scan_lines-IsCovered (line ∷ lines) last st (one, all) (inl (untimed, steady)) v =
      let covered : WindowState × List Line → Type 0 =
        λ r. IsCovered l (last_time last lines) r.0 in
      rw untimed (
        >>=-Allows (λ r. IsSameWindow st r.0) covered
          (scan_line f hour_of_day verbose node outside st line) _
          (line_moved st line none one untimed)
          (λ (st1, p) same.
            >>=-Allows covered covered (scan_lines f hour_of_day verbose node outside lines st1) _
              (scan_lines-IsCovered lines last st1 all steady (same-IsCovered l last st st1 v same))
              (λ (st2, more) c. c)))
  scan_lines-IsCovered (line ∷ lines) last st (one, all) (inr (t, timed, next, steady)) v =
      let covered : WindowState × List Line → Type 0 =
        λ r. IsCovered l (last_time (some t) lines) r.0 in
      rw timed (
        >>=-Allows (λ r. Opened st (pos t) r.0) covered
          (scan_line f hour_of_day verbose node outside st line) _
          (line_moved st line (some (pos t)) one timed)
          (λ (st1, p) opened.
            >>=-Allows covered covered (scan_lines f hour_of_day verbose node outside lines st1) _
              (scan_lines-IsCovered lines (some t) st1 all steady
                (After-IsCovered l t last st st1 some_secs next v opened))
              (λ (st2, more) c. c)))

  -- With windows that have a length, of lines that each have a second field and that are readings
  -- where this is OK, whose times are not before 1970, do not go back and are each at most that
  -- length after the one before, while the window after fits an int, the scan returns, and the
  -- window that is open behind it is the one that the last time falls into, counted from 1970.
  pub windows_keep_up :
      (lines : List Bytes)
      → All IsLine lines
      → IsSteady l none lines
      → (r : WindowState × List Line) × (scan_lines f hour_of_day verbose node outside lines
            (initial_state (pos l))
          ≡ returned r)
        × IsCovered l (last_time none lines) r.0
  windows_keep_up lines all steady =
      Returns-Allows (IsResult (pos l)) (λ r. IsCovered l (last_time none lines) r.0) _
        (scan_lines-IsResult f hour_of_day verbose node outside lines (initial_state (pos l))
          (pos l) (λ e. absurd (zero_window l some_secs e)) all (refl, tt))
        (scan_lines-IsCovered lines none (initial_state (pos l)) all steady (refl, refl))

  -- A line whose time is not before the window that is open leaves a window that is not ahead of it,
  -- and has that time in it exactly if the time is before the end of the window after the one that
  -- was open: after a gap it has not. This needs windows that have a length and fit an int, a line
  -- that is a reading, and the start of a night where the state has rates of one.
  pub scan_line-Reaches :
      (line : Bytes) (st : WindowState) (a t : ℕ)
      → IsLine line
      → IsNight st
      → st.win_secs ≡ pos l
      → st.start_ts ≡ pos a
      → moment line ≡ some (pos t)
      → a ≤ t
      → t + l < 9223372036854775808
      → (r : WindowState × List Line) × (scan_line f hour_of_day verbose node outside st line
          ≡ returned r)
        × Reaches l a t r.0
  scan_line-Reaches line st a t one night w start timed from fits =
      Returns-Allows (IsResult st.win_secs) (λ r. Reaches l a t r.0) _
        (scan_line-IsResult f hour_of_day verbose node outside st line
          (λ e. absurd (zero_window l some_secs (sym w ∙ e))) one night)
        (Allows-Allows (λ r. Opened st (pos t) r.0) (λ r. Reaches l a t r.0) _
          (line_moved st line (some (pos t)) one timed)
          (λ (st', p) (w', start').
            next_start-Reaches l a t st' from fits (start' ∙ rw (w, start) refl)))
