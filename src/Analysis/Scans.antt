-- ===== src/Analysis/Scans.antt =====
-- analysis/heatloss-analysis.go: ScanFile and main, over the lines of the files.
use smarthouse.Prelude.{
  ℕ, ◌+◌, ◌*◌, ◌/◌, ◌%◌, ◌-◌, ℤ, pos, negsuc, ltb_ℤ, leb_ℤ, int_eq, add_int, ◌-ℤ◌, Option, none,
  some, List, [], ◌∷◌, ◌++◌, Bytes, codes, bytes_eq, Bool, true, false, ◌||◌, if◌then◌else◌,
  Outcome, returned, panicked, ◌>>=◌,
}
use smarthouse.GoStrings.{split}
use smarthouse.GoConv.{atoi}
use smarthouse.Analysis.Windows.{
  Float32, Float32Ops, minus_one32, no_reading, sixteenth, WindowState, initial_state, Line,
  start_line, at, sub_int, end_window,
}

-- check(err)
abbrev pub checked {ℓ} : {A : Type ℓ} → Option A → Outcome A
checked none = panicked
checked (some a) = returned a

-- The low byte of an int.
abbrev low_byte : ℤ → ℕ
low_byte (pos n) = n % 256
low_byte (negsuc n) = 255 - n % 256

unfoldable pub ato_byte : Bytes → Outcome ℕ
ato_byte s = do i ← checked (atoi s); returned (low_byte i)

-- The float32 whose bits are four bytes, the lowest first.
unfoldable pub parse_temperature : List Bytes → Outcome Float32
unfolding ato_byte
parse_temperature parts = do
  b0 ← at parts 9 >>= ato_byte
  b1 ← at parts 10 >>= ato_byte
  b2 ← at parts 11 >>= ato_byte
  b3 ← at parts 12 >>= ato_byte
  returned (b0 + 256 * b1 + 65536 * b2 + 16777216 * b3)

abbrev pub magnitude : ℤ → ℕ
magnitude (pos n) = n
magnitude (negsuc n) = n + 1

-- The multiple of `w` that division towards 0 leaves.
abbrev pub round_to : ℤ → ℕ → ℤ
round_to (pos a) w = pos (a / w * w)
round_to (negsuc a) w = pos 0 -ℤ pos ((a + 1) / w * w)

-- (ts / win_secs) * win_secs
unfoldable pub window_start : ℤ → ℤ → Outcome ℤ
window_start ts win_secs =
    if int_eq win_secs (pos 0) then panicked else returned (round_to ts (magnitude win_secs))

-- A reading of the outside: the new state, and whether the line goes on.
unfoldable pub read_outside : Float32Ops → WindowState → Float32 → WindowState × Bool
read_outside f st t =
    if f.same t no_reading then (st, false) else (record st { outside_degc = t }, true)

-- A reading of the node that is not ignored.
unfoldable pub take_node : Float32Ops → WindowState → ℤ → Float32 → WindowState
take_node f st ts t = record st {
  node_heated = if f.less sixteenth (f.sub t st.node_degc) then true else st.node_heated;
  node_degc = t;
  start_degc = if f.same st.start_degc minus_one32 then t else st.start_degc;
  last_ts = ts;
}

-- A reading of the node, and whether the line goes on.
unfoldable pub read_node : Float32Ops → WindowState → ℤ → Float32 → WindowState × Bool
unfolding take_node
read_node f st ts t = if f.same t no_reading then (record st { ignore = pos 15 }, false) else (
  record (if leb_ℤ st.ignore (pos 0) then take_node f st ts t else st) {
    ignore = sub_int st.ignore (pos 1);
  },
  true,
)

-- The moving average of the difference.
unfoldable pub update_diff : Float32Ops → WindowState → WindowState
update_diff f st =
    if f.same st.outside_degc minus_one32 || f.same st.node_degc minus_one32
    then st
    else record st {
      diff =
          if ltb_ℤ (pos 0) st.points
          then f.div
              (f.add (f.sub st.node_degc st.outside_degc) (f.mul (f.of_int st.points) st.diff))
              (f.of_int (add_int st.points (pos 1)))
          else f.sub st.node_degc st.outside_degc;
      points = add_int st.points (pos 1);
    }

abbrev pub go_on : Float32Ops → WindowState × Bool → WindowState
go_on f (st, true) = update_diff f st
go_on f (st, false) = st

module _ (f : Float32Ops) (hour_of_day : ℤ → ℕ) (verbose : Bool) (node outside : Bytes) where
  -- The window of a line: the first one starts, or the one that is over ends.
  unfoldable pub open_window : WindowState → ℤ → Outcome (WindowState × List Line)
  unfolding window_start
  open_window st ts =
      let first = window_start ts st.win_secs >>= λ start. returned (
        record st {
          start_ts = start;
          start_degc = minus_one32;
          diff = minus_one32;
          points = pos 0;
        },
        start_line st.win_secs start ∷ [],
      ) in
      let next = end_window f hour_of_day verbose node st (negsuc 0) in
      if int_eq st.start_ts (negsuc 0)
      then first
      else if leb_ℤ (add_int st.start_ts st.win_secs) ts
      then next
      else returned (st, [])

  -- The reading of a line.
  unfoldable pub read_line : List Bytes → WindowState → ℤ → Outcome WindowState
  unfolding parse_temperature read_outside read_node update_diff
  read_line parts st ts = do
    id ← at parts 2
    let of_outside = parse_temperature parts >>= λ t. returned (go_on f (read_outside f st t))
    let of_node = parse_temperature parts >>= λ t. returned (go_on f (read_node f st ts t))
    if bytes_eq id outside then of_outside else if bytes_eq id node then of_node else returned st

  -- A line of which the second field is OK.
  unfoldable pub scan_parts : List Bytes → WindowState → Outcome (WindowState × List Line)
  unfolding open_window read_line
  scan_parts parts st = do
    ts ← at parts 0 >>= λ s. checked (atoi s)
    (st1, printed) ← open_window st ts
    st2 ← read_line parts st1 ts
    returned (st2, printed)

  unfoldable pub scan_line : WindowState → Bytes → Outcome (WindowState × List Line)
  unfolding scan_parts
  scan_line st line =
      let parts = split b' ' line in
      let scanned = scan_parts parts st in
      at parts 1 >>= λ tag. if bytes_eq tag (codes "OK") then scanned else returned (st, [])

  -- The loop over the lines of the files.
  unfoldable pub scan_lines : List Bytes → WindowState → Outcome (WindowState × List Line)
  unfolding scan_line
  scan_lines [] st = returned (st, [])
  scan_lines (line ∷ lines) st = do
    (st1, printed) ← scan_line st line
    (st2, more) ← scan_lines lines st1
    returned (st2, printed ++ more)

  -- main, from the length of a window in seconds.
  unfoldable pub analyse : ℤ → List Bytes → Outcome (WindowState × List Line)
  unfolding scan_lines
  analyse win_secs lines = do
    (st, printed) ← scan_lines lines (initial_state win_secs)
    let last = end_window f hour_of_day verbose node st st.last_ts >>= λ (st', more).
        returned (st', printed ++ more)
    if int_eq st.start_ts (negsuc 0) then returned (st, printed) else last
