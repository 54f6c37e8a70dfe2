-- ===== src/Float64.antt =====
-- Go's `float64`, as the 64 bits that `math.Float64bits` shows. Arithmetic, parsing and conversion
-- are arguments, with no law but those that a theorem names.
use smarthouse.Prelude.{ℕ, ℤ, Option, Bytes}

abbrev pub Float64 : Type 0
Float64 = ℕ

pub record FloatOps : Type 0 where
  pub add : Float64 → Float64 → Float64
  pub mul : Float64 → Float64 → Float64
  -- float64(n)
  pub of_int : ℤ → Float64
  -- int64(x)
  pub to_int64 : Float64 → ℤ
  -- strconv.ParseFloat(s, 64); `none` is an error
  pub parse_float : Bytes → Option Float64

-- The zero value of the type.
abbrev pub zero_float : Float64
zero_float = 0
