-- ===== src/Solar/Examples.antt =====
-- The theorems about solar/solar.go at clients that answer always, never, or too shortly.
use smarthouse.Prelude.{
  ℕ, zero, suc, ◌*◌, ◌<◌, ◌≤◌, pos, negsuc, Option, none, some, List, [], ◌∷◌, ◌++◌, map, Bytes,
  returned, panicked, ◌≡◌, refl, arith, length, ap,
}
use smarthouse.Float64.{Float64, FloatOps, zero_float}
use smarthouse.Solar.Registers.{Client, decode_u16, decode_s16, decode_u32, fetch_u16, fetch_s16}
use smarthouse.Solar.Collector.{Metric, Fetcher, solar_metrics, describe, one, up_name, collect}
use smarthouse.Solar.Decoding.{IsExact, word, signed_word, decode_registers, short_answers}
use smarthouse.Solar.Scrapes.{lost, but_last, scaled_all, scan, collect_exact}

abbrev plain : FloatOps
plain = record {
  add = λ x y. x;
  mul = λ x y. x;
  of_int = λ z. 5;
  to_int64 = λ x. pos x;
  parse_float = λ s. none;
}

-- Two zero bytes for each register.
abbrev zeros : ℕ → Bytes
zeros zero = []
zeros (suc n) = 0 ∷ 0 ∷ zeros n

length-zeros : (n : ℕ) → length (zeros n) ≡ 2 * n
length-zeros zero = refl
length-zeros (suc n) = omega (arith, length-zeros n)

abbrev steady : Client (Unit {0})
steady start count s = (some (zeros count), s)

steady-IsExact : IsExact steady
steady-IsExact start count s b e = omega (arith, length-zeros count, ap (λ o. bytes_in o) e)
  where
    bytes_in : Option Bytes → ℕ
    bytes_in none = 0
    bytes_in (some b) = length b

-- One byte, whatever is asked.
abbrev curt : Client (Unit {0})
curt start count s = (some (7 ∷ []), s)

decode_registers_example :
    (decode_u16 plain (some (word 230)) ≡ returned (some 5))
    × (decode_s16 plain (some (word (signed_word (negsuc 2)))) ≡ returned (some 5))
    × (decode_u32 plain (some (word 1 ++ word 2)) ≡ returned (some 5))
decode_registers_example =
    decode_registers plain 230 (negsuc 2) 1 2 (omega arith) (omega arith) (omega arith)
      (omega arith)

short_answers_example :
    (fetch_u16 curt plain 5011 tt ≡ panicked) × (fetch_s16 curt plain 5011 tt ≡ returned (none, tt))
short_answers_example = (short_answers curt plain 5011 tt tt (7 ∷ [])).1 refl (omega arith)

abbrev first : Metric
first = record { name = 1 ∷ []; register = 5011; fetcher = Fetcher.u16; multiplier = one }

collect_exact_example :
    (ts : List (Option Float64)) × (sent : List (Bytes × Float64)) × (scan plain steady
        solar_metrics tt
      ≡ returned ts)
    × (collect plain steady solar_metrics tt ≡ returned sent)
    × (lost (but_last ts) ≤ 2
        → (map (λ x. x.0) sent ≡ describe solar_metrics)
          × (map (λ x. x.1) sent ≡ one ∷ scaled_all plain solar_metrics ts))
    × (2 < lost (but_last ts) → sent ≡ (up_name, zero_float) ∷ [])
collect_exact_example = collect_exact plain steady steady-IsExact _ _ tt
