-- ===== src/Solar/Collector.antt =====
-- solar/solar.go: the table of metrics, Scrape, Describe and Collect. Opening the serial port is left
-- out, and its result is ignored by the code too.
use smarthouse.Prelude.{
  ℕ, ◌+◌, Option, none, some, List, [], ◌∷◌, map, Bytes, codes, Bool, true, false, ltb,
  if◌then◌else◌, Outcome, returned, panicked, ◌>>=◌,
}
use smarthouse.Float64.{Float64, FloatOps, zero_float}
use smarthouse.Solar.Registers.{Client, fetch_u16, fetch_s16, fetch_u32}

-- The fetcher of a metric.
pub data Fetcher : Type 0 where
  u16 s16 u32 : Fetcher

-- An entry of solarMetrics. All are gauges, with no labels.
pub record Metric : Type 0 where
  pub name : Bytes
  pub register : ℕ
  pub fetcher : Fetcher
  pub multiplier : Float64

-- 0.1, 0.001, 1 and -1 as float64.
abbrev tenth : Float64
tenth = 0x3fb999999999999a

abbrev thousandth : Float64
thousandth = 0x3f50624dd2f1a9fc

abbrev pub one : Float64
one = 0x3ff0000000000000

abbrev pub minus_one : Float64
minus_one = 0xbff0000000000000

-- The metrics of NewSolarCollector.
abbrev pub solar_metrics : List Metric
solar_metrics =
    record { name = codes "dc_voltage"; register = 5011; fetcher = u16; multiplier = tenth }
    ∷ record { name = codes "dc_current"; register = 5012; fetcher = u16; multiplier = tenth }
    ∷ record {
      name = codes "upload_line_voltage";
      register = 5019;
      fetcher = u16;
      multiplier = tenth;
    }
    ∷ record {
      name = codes "upload_line_current";
      register = 5022;
      fetcher = u16;
      multiplier = tenth;
    }
    ∷ record {
      name = codes "power_factor";
      register = 5035;
      fetcher = s16;
      multiplier = thousandth;
    }
    ∷ record { name = codes "grid_frequency"; register = 5036; fetcher = u16; multiplier = tenth }
    ∷ record { name = codes "running_hours"; register = 5006; fetcher = u32; multiplier = one }
    ∷ record { name = codes "dc_power_watts"; register = 5017; fetcher = u32; multiplier = one }
    ∷ record { name = codes "active_power_watts"; register = 5031; fetcher = u32; multiplier = one }
    ∷ []

abbrev pub up_name : Bytes
up_name = codes "up"

-- Describe: the names that go into the channel.
unfoldable pub describe : List Metric → List Bytes
describe metrics = up_name ∷ map (λ m. m.name) metrics

-- The values that are left when a scrape is abandoned.
abbrev pub untouched : List Metric → List Float64
untouched = map (λ m. zero_float)

abbrev pub failures : Option Float64 → ℕ
failures none = 1
failures (some t) = 0

module _ (f : FloatOps) where
  -- The value of a metric, -1 after a failure.
  abbrev pub scaled : Metric → Option Float64 → Float64
  scaled m none = minus_one
  scaled m (some t) = f.mul t m.multiplier

  -- What Collect sends if the scrape succeeded; `metrics[n]` panics out of range.
  unfoldable pub samples : List Metric → List Float64 → Outcome (List (Bytes × Float64))
  samples [] values = returned []
  samples (m ∷ ms) [] = panicked
  samples (m ∷ ms) (v ∷ vs) = do rest ← samples ms vs; returned ((m.name, v) ∷ rest)

  module _ {S : Type 0} (read : Client S) where
    -- m.fetcher(client, m.register)
    unfoldable pub fetch_metric : Metric → S → Outcome (Option Float64 × S)
    fetch_metric m s = elim m.fetcher [
      | u16 ↦ fetch_u16 read f m.register s
      | s16 ↦ fetch_s16 read f m.register s
      | u32 ↦ fetch_u32 read f m.register s
    ]

    -- The loop of Scrape over the metrics that are left.
    unfoldable pub scrape_loop : List Metric → ℕ → S → Outcome (List Float64 × Bool)
    scrape_loop [] missing s = returned ([], true)
    scrape_loop (m ∷ ms) missing s =
        let go = fetch_metric m s >>= λ (t, s').
        scrape_loop ms (missing + failures t) s' >>= λ (values, ok).
        returned (scaled m t ∷ values, ok) in
        if ltb 2 missing then returned (untouched (m ∷ ms), false) else go

    unfoldable pub scrape : List Metric → S → Outcome (List Float64 × Bool)
    unfolding scrape_loop
    scrape metrics s = scrape_loop metrics 0 s

    -- Collect: the samples that go into the channel.
    unfoldable pub collect : List Metric → S → Outcome (List (Bytes × Float64))
    unfolding scrape samples
    collect metrics s = do
      (values, ok) ← scrape metrics s
      let sent = samples metrics values
      if ok
          then (sent >>= λ rest. returned ((up_name, one) ∷ rest))
          else returned ((up_name, zero_float) ∷ [])
