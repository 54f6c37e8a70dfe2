-- ===== src/GoTime.antt =====
-- Go's `time.Time` without its monotonic reading: the nanoseconds since the zero Time, year 1.
-- `Sub` saturates at the largest and the smallest Duration, about 292 years.
use smarthouse.Prelude.{ℤ, pos, negsuc, ◌-ℤ◌, leb_ℤ, max_int, Bool, if◌then◌else◌, int_eq}

abbrev pub Time : Type 0
Time = ℤ

abbrev pub min_int : ℤ
min_int = negsuc 9223372036854775807

-- t.IsZero()
unfoldable pub is_zero : Time → Bool
is_zero t = int_eq t (pos 0)

-- t.Sub(u), and time.Since(u) at the moment t.
unfoldable pub sub : Time → Time → ℤ
sub t u =
    let d = t -ℤ u in if leb_ℤ max_int d then max_int else if leb_ℤ d min_int then min_int else d

-- 30 * time.Second
abbrev pub thirty_seconds : ℤ
thirty_seconds = pos 30000000000
