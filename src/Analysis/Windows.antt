-- ===== src/Analysis/Windows.antt =====
-- analysis/heatloss-analysis.go: WindowState and EndWindow. float32 arithmetic and the local hour of a
-- time are arguments; a line that is printed is a value, with what its format prints.
use smarthouse.Prelude.{
  ◌-ℤ◌, wrap_int, ℕ, ℤ, pos, negsuc, ltb, leb, int_eq, add_int, List, [], ◌∷◌, ◌++◌, Bytes, length,
  Bool, true, false, ◌&&◌, if◌then◌else◌, Outcome, returned, ◌>>=◌,
}
pub use smarthouse.Analysis.Rates.{
  Float32, Float32Ops, minus_one32, no_reading, sixteenth, at, min_from, max_from,
}
unfoldable pub use smarthouse.Analysis.Rates.{
  sum, min, max, median, std_dev, check_transfer_rates, specific_heat,
}

-- WindowState
pub record WindowState : Type 0 where
  pub win_secs : ℤ
  pub start_ts : ℤ
  pub start_degc : Float32
  pub last_ts : ℤ
  pub outside_degc : Float32
  pub node_degc : Float32
  pub node_heated : Bool
  pub ignore : ℤ
  pub diff : Float32
  pub points : ℤ
  pub transfer_start_ts : ℤ
  pub transfer_rates : List Float32

-- What main starts with.
abbrev pub initial_state : ℤ → WindowState
initial_state win_secs = record {
  win_secs = win_secs;
  start_ts = negsuc 0;
  start_degc = minus_one32;
  last_ts = negsuc 0;
  outside_degc = minus_one32;
  node_degc = minus_one32;
  node_heated = false;
  ignore = pos 0;
  diff = minus_one32;
  points = negsuc 0;
  transfer_start_ts = negsuc 0;
  transfer_rates = [];
}

-- The line that is printed for a night.
pub record Summary : Type 0 where
  pub from_ts : ℤ
  pub to_ts : ℤ
  pub lowest : Float32
  pub average : Float32
  pub middle : Float32
  pub deviation : Float32
  pub highest : Float32
  pub flagged : Bool

-- A line of the program's output, with the values that its format prints.
pub data Line : Type 0 where
  -- the length of the windows, and the start of the first one
  start_line : ℤ → ℤ → Line
  night_line : Summary → Line
  -- with VERBOSE: the end of the window, then the temperature of the node and the difference
  heated_line : ℤ → Float32 → Float32 → Line
  -- the end, the rate, the temperature, the change, and the difference
  rate_line : ℤ → Float32 → Float32 → Float32 → Float32 → Line
  -- the end of a window without points
  empty_line : ℤ → Line

-- A line that is printed only with VERBOSE.
abbrev pub only_verbose : Bool → Line → List Line
only_verbose true line = line ∷ []
only_verbose false line = []

-- `a - b` on int64.
abbrev pub sub_int : ℤ → ℤ → ℤ
sub_int a b = wrap_int (a -ℤ b)

module _ (f : Float32Ops) (hour_of_day : ℤ → ℕ) where
  -- heat_transfer, over the period of the window.
  unfoldable pub heat_transfer : Bytes → WindowState → ℤ → Float32
  unfolding specific_heat
  heat_transfer node st last_ts =
      let period = if int_eq last_ts (negsuc 0) then st.win_secs else sub_int last_ts st.start_ts in
      f.div (f.mul (f.sub st.node_degc st.start_degc) (specific_heat f node))
        (f.mul st.diff (f.of_int period))

  -- The branch for the night, of a node that was not heated.
  unfoldable pub record_rate : WindowState → Float32 → WindowState
  record_rate st rate =
      let from =
        if int_eq st.transfer_start_ts (negsuc 0) && f.less rate 0
        then st.start_ts
        else st.transfer_start_ts in
      record st {
        transfer_start_ts = from;
        transfer_rates =
            if int_eq from (negsuc 0) then st.transfer_rates else st.transfer_rates ++ rate ∷ [];
      }

  -- What is printed of the rates of a night.
  unfoldable pub summarise : WindowState → Outcome Summary
  unfolding sum min max median std_dev check_transfer_rates
  summarise st = do
    low ← min f st.transfer_rates
    med ← median f st.transfer_rates
    high ← max f st.transfer_rates
    let mean = f.div (sum f st.transfer_rates) (f.of_int (pos (length st.transfer_rates)))
    returned (record {
      from_ts = st.transfer_start_ts;
      to_ts = st.start_ts;
      lowest = low;
      average = mean;
      middle = med;
      deviation = std_dev f st.transfer_rates mean;
      highest = high;
      flagged = check_transfer_rates f st.transfer_rates;
    })

  -- The branch for the day.
  unfoldable pub end_night : WindowState → Outcome (WindowState × List Line)
  unfolding summarise
  end_night st =
      let go = summarise st >>= λ s.
      returned
        (record st { transfer_start_ts = negsuc 0; transfer_rates = [] }, night_line s ∷ []) in
      if ltb 0 (length st.transfer_rates) then go else returned (st, [])

  unfoldable pub use_window : Bytes → WindowState → ℤ → Outcome (WindowState × List Line)
  unfolding heat_transfer record_rate end_night
  use_window node st last_ts =
      let day = end_night st in
      if leb 1 (hour_of_day st.start_ts) && ltb (hour_of_day st.start_ts) 7
      then returned
          (if st.node_heated then st else record_rate st (heat_transfer node st last_ts), [])
      else day

  -- The last lines of EndWindow.
  unfoldable pub next_window : WindowState → WindowState
  next_window st = record st {
    start_degc = minus_one32;
    diff = minus_one32;
    points = pos 0;
    start_ts = add_int st.start_ts st.win_secs;
    node_heated = false;
  }

  -- The time that VERBOSE prints: the end of the window.
  unfoldable pub window_end : WindowState → ℤ → ℤ
  window_end st last_ts =
      if int_eq last_ts (negsuc 0) then add_int st.start_ts st.win_secs else last_ts

  -- What VERBOSE prints of a window with points.
  unfoldable pub window_line : Bytes → WindowState → ℤ → Line
  unfolding window_end heat_transfer
  window_line node st last_ts =
      let end_ts = window_end st last_ts in
      if st.node_heated
      then heated_line end_ts st.node_degc st.diff
      else rate_line end_ts (heat_transfer node st last_ts) st.node_degc
          (f.sub st.node_degc st.start_degc) st.diff

  -- `verbose` is whether VERBOSE is in the environment.
  unfoldable pub end_window : Bool → Bytes → WindowState → ℤ → Outcome (WindowState × List Line)
  unfolding use_window window_line window_end next_window
  end_window verbose node st last_ts =
      let used = use_window node st last_ts >>= λ (st', nights).
      returned (next_window st', nights ++ only_verbose verbose (window_line node st last_ts)) in
      if f.same st.start_degc minus_one32
      then returned (next_window st, only_verbose verbose (empty_line (window_end st last_ts)))
      else used
