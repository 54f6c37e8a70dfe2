-- ===== src/Analysis/Periods.antt =====
-- analysis/powerdb.go: the half-hours in local time, and the log file of one. The machine's time zone
-- is an argument.
use smarthouse.Prelude.{
  ℕ, ◌+◌, ◌-◌, ◌*◌, ◌/◌, ◌%◌, ℤ, pos, negsuc, ◌+ℤ◌, ◌-ℤ◌, pos_part, ◌++◌, Bytes, codes, nat_eq,
  if◌then◌else◌, add_int,
}
use smarthouse.GoTime.{Time}
use smarthouse.GoFormat.{two_digits, civil}

-- time.Local: the wall clock less UTC at an instant, and the instant that time.Date finds for a wall
-- clock, both in nanoseconds. Where a wall clock names two instants or none, time.Date may take either.
pub record Zone : Type 0 where
  pub offset : Time → ℤ
  pub date : ℤ → Time

-- 30 * time.Minute
abbrev pub half_hour : ℕ
half_hour = 1800000000000

abbrev pub second : ℕ
second = 1000000000

-- time.Unix(t, 0): the seconds since 1970 become seconds since year 1, which may wrap.
abbrev pub seconds_as_time : ℤ → Time
seconds_as_time (pos n) = pos (n * second)
seconds_as_time (negsuc n) = negsuc (n * second + (second - 1))

unfoldable pub unix : ℤ → Time
unix t = seconds_as_time (add_int t (pos 62135596800))

-- The wall clock with its minutes at 0 or 30, and no seconds.
unfoldable pub floor_half : ℤ → ℤ
floor_half (pos n) = pos (n - n % half_hour)
floor_half (negsuc n) = negsuc (n + (half_hour - 1 - n % half_hour))

module _ (zone : Zone) where
  unfoldable pub get_last_full_period : Time → Time
  unfolding floor_half
  get_last_full_period ts = zone.date (floor_half (ts +ℤ zone.offset ts))

  unfoldable pub get_prev_period : Time → Time
  unfolding get_last_full_period
  get_prev_period period = get_last_full_period period -ℤ pos half_hour

  unfoldable pub get_next_period : Time → Time
  unfolding get_last_full_period
  get_next_period period = get_last_full_period period +ℤ pos half_hour

-- The whole hours since year 1, of a time that is not before it.
abbrev pub hour_of : Time → ℕ
hour_of t = pos_part t / 3600000000000

-- utc.Format("2006010215.log"), from the hours since year 1, up to the year 9999.
unfoldable pub hour_log : ℕ → Bytes
hour_log hours =
    let (year, month, day) = civil (hours / 24 + 306) in
    two_digits (year / 100)
    ++ two_digits (year % 100)
    ++ two_digits month
    ++ two_digits day
    ++ two_digits (hours % 24)
    ++ codes ".log"

-- The instant that names the file: one minute earlier where the minutes in UTC are 0.
unfoldable pub file_time : Time → Time
file_time period =
    if nat_eq (pos_part period / 60000000000 % 60) 0 then period -ℤ pos 60000000000 else period

unfoldable pub get_period_filename : Time → Bytes
unfolding file_time hour_log
get_period_filename period = codes "/tmp/logs/" ++ hour_log (hour_of (file_time period))
