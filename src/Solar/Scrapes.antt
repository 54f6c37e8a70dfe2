-- ===== src/Solar/Scrapes.antt =====
-- Scrape and Collect of solar/solar.go: when a scrape counts as a success, what is then sent, and that
-- nothing panics while the client's answers have the right length.
use smarthouse.Prelude.{
  subst, ℕ, suc, none, some, codes, ◌+◌, ◌≤◌, ◌<◌, Option, List, [], ◌∷◌, map, Bytes, Bool, true,
  false, ltb, leb, Outcome, returned, ◌>>=◌, >>=-eq-returned, ◌≡◌, ◌↔◌, refl, arith, length, ap,
  ◌∙◌, inl, inr, Bool-cases, sym,
}
use smarthouse.Float64.{Float64, FloatOps, zero_float}
use smarthouse.Solar.Registers.{Client, fetch, fetch_u16, fetch_s16, fetch_u32}
use smarthouse.Solar.Collector.{
  Metric, Fetcher, u16, s16, u32, one, describe, up_name, untouched, failures, scaled, samples,
  fetch_metric, scrape_loop, scrape, collect,
}
use smarthouse.Solar.Decoding.{
  IsExact, fetch_exact, decode_u16_total, decode_s16_total, decode_u32_total,
}

-- The fetches that failed.
abbrev pub lost : List (Option Float64) → ℕ
lost [] = 0
lost (none ∷ ts) = suc (lost ts)
lost (some t ∷ ts) = lost ts

lost-cons : (t : Option Float64) (ts : List (Option Float64)) → lost (t ∷ ts) ≡ failures t + lost ts
lost-cons none ts = omega arith
lost-cons (some t) ts = omega arith

abbrev pub but_last : List (Option Float64) → List (Option Float64)
but_last [] = []
but_last (t ∷ []) = []
but_last (t ∷ u ∷ ts) = t ∷ but_last (u ∷ ts)

module _ (f : FloatOps) where
  -- Each metric's reading times its multiplier, or -1 where it failed.
  abbrev pub scaled_all : List Metric → List (Option Float64) → List Float64
  scaled_all [] ts = []
  scaled_all (m ∷ ms) [] = []
  scaled_all (m ∷ ms) (some t ∷ ts) = f.mul t m.multiplier ∷ scaled_all ms ts
  scaled_all (m ∷ ms) (none ∷ ts) = 0xbff0000000000000 ∷ scaled_all ms ts

  scaled_all-cons :
      (m : Metric) (ms : List Metric) (t : Option Float64) (ts : List (Option Float64))
      → scaled f m t ∷ scaled_all ms ts ≡ scaled_all (m ∷ ms) (t ∷ ts)
  scaled_all-cons m ms none ts = refl
  scaled_all-cons m ms (some t) ts = refl

  module _ {S : Type 0} (read : Client S) where
    -- All metrics fetched in turn, with no abandoning.
    pub scan : List Metric → S → Outcome (List (Option Float64))
    scan [] s = returned []
    scan (m ∷ ms) s = do (t, s') ← fetch_metric f read m s; rest ← scan ms s'; returned (t ∷ rest)

    fetch_metric_returns :
        IsExact read
        → (m : Metric) (s : S)
        → (t : Option Float64) × (s' : S) × (fetch_metric f read m s ≡ returned (t, s'))
    unfolding fetch_metric fetch_u16 fetch_s16 fetch_u32
    fetch_metric_returns exact m s = go m.fetcher refl
      where
        go :
            (k : Fetcher)
            → m.fetcher ≡ k
            → (t : Option Float64) × (s' : S) × (fetch_metric f read m s ≡ returned (t, s'))
        go u16 e =
            let (t, d) =
              decode_u16_total f (fetch read m.register 1 s).0
                (fetch_exact read exact m.register 1 s) in
            (t, (fetch read m.register 1 s).1, rw (e, fetch_metric) (rw d))
        go s16 e =
            let (t, d) = decode_s16_total f (fetch read m.register 1 s).0 in
            (t, (fetch read m.register 1 s).1, rw (e, fetch_metric) (rw d))
        go u32 e =
            let (t, d) =
              decode_u32_total f (fetch read m.register 2 s).0
                (fetch_exact read exact m.register 2 s) in
            (t, (fetch read m.register 2 s).1, rw (e, fetch_metric) (rw d))

    pub scan_returns :
        IsExact read
        → (ms : List Metric) (s : S) → (ts : List (Option Float64)) × (scan ms s ≡ returned ts)
    unfolding scan
    scan_returns exact [] s = ([], refl)
    scan_returns exact (m ∷ ms) s =
        let (t, s', e) = fetch_metric_returns exact m s in
        let (ts, r) = scan_returns exact ms s' in (t ∷ ts, rw (e, r))

    scan-cons :
        (m : Metric) (ms : List Metric) (s : S) (ts : List (Option Float64))
        → scan (m ∷ ms) s ≡ returned ts
        → (t : Option Float64) × (s' : S) × (rest : List (Option Float64)) × (fetch_metric f read m
              s
            ≡ returned (t, s'))
          × (scan ms s' ≡ returned rest)
          × (t ∷ rest ≡ ts)
    unfolding scan
    scan-cons m ms s ts e =
        let ((t, s'), ran, more) = >>=-eq-returned (fetch_metric f read m s) _ e in
        let (rest, scanned, out) = >>=-eq-returned (scan ms s') _ more in
        (t, s', rest, ran, scanned, ground arith)

    abandoned :
        (m : Metric) (ms : List Metric) (missing : ℕ) (s : S)
        → ltb 2 missing ≡ true
        → scrape_loop f read (m ∷ ms) missing s ≡ returned (untouched (m ∷ ms), false)
    unfolding scrape_loop
    abandoned m ms missing s over = rw over

    went_on :
        (m : Metric) (ms : List Metric) (missing : ℕ) (s s' : S) (t : Option Float64)
        (values : List Float64) (ok : Bool)
        → ltb 2 missing ≡ false
        → fetch_metric f read m s ≡ returned (t, s')
        → scrape_loop f read ms (missing + failures t) s' ≡ returned (values, ok)
        → scrape_loop f read (m ∷ ms) missing s ≡ returned (scaled f m t ∷ values, ok)
    unfolding scrape_loop
    went_on m ms missing s s' t values ok going ran rest = rw (going, ran, rest)

    -- What the loop over `metrics` returns, given all readings.
    abbrev Scraped : List Metric → ℕ → S → List (Option Float64) → Type 0
    Scraped metrics missing s ts =
        (values : List Float64) × (scrape_loop f read metrics missing s
          ≡ returned (values, leb (missing + lost (but_last ts)) 2))
        × (leb (missing + lost (but_last ts)) 2 ≡ true → values ≡ scaled_all metrics ts)

    scrape_loop-Scraped :
        (m : Metric) (ms : List Metric) (missing : ℕ) (s : S) (ts : List (Option Float64))
        → scan (m ∷ ms) s ≡ returned ts
        → Scraped (m ∷ ms) missing s ts
    scrape_loop-Scraped m [] missing s ts e =
        let (t, s', rest, ran, scanned, is) = scan-cons m [] s ts e in
        let none_left : [] ≡ rest = unfold scan in ground (arith, scanned) in
        subst (Scraped (m ∷ []) missing s) is (
          subst (λ r. Scraped (m ∷ []) missing s (t ∷ r)) none_left
            (elim (Bool-cases (ltb 2 missing)) [
              | inl over ↦ (
                untouched (m ∷ []),
                abandoned m [] missing s over
                    ∙ ap (λ ok. returned (untouched (m ∷ []), ok)) (ground arith),
                λ h. absurd (ground arith),
              )
              | inr going ↦ (
                scaled f m t ∷ [],
                went_on m [] missing s s' t [] _ going ran
                    (unfold scrape_loop in ap (λ ok. returned ([], ok)) (ground arith)),
                λ h. scaled_all-cons m [] t [],
              )
            ]))
    scrape_loop-Scraped m (m' ∷ ms) missing s ts e =
        let (t, s', rest, ran, scanned, is) = scan-cons m (m' ∷ ms) s ts e in
        let (t', _, rest', _, _, is') = scan-cons m' ms s' rest scanned in
        let (values, loops, agree) =
          scrape_loop-Scraped m' ms (missing + failures t) s' (t' ∷ rest')
            (scanned ∙ ap returned (sym is')) in
        subst (Scraped (m ∷ m' ∷ ms) missing s) is (
          subst (λ r. Scraped (m ∷ m' ∷ ms) missing s (t ∷ r)) is'
            (elim (Bool-cases (ltb 2 missing)) [
              | inl over ↦ (
                untouched (m ∷ m' ∷ ms),
                abandoned m (m' ∷ ms) missing s over
                    ∙ ap (λ ok. returned (untouched (m ∷ m' ∷ ms), ok)) (ground arith),
                λ h. absurd (ground arith),
              )
              | inr going ↦ (
                scaled f m t ∷ values,
                went_on m (m' ∷ ms) missing s s' t values _ going ran (
                    loops
                    ∙ ap (λ ok. returned (values, ok))
                        (ap (λ k. leb k 2) (omega (arith, lost-cons t (but_last (t' ∷ rest')))))),
                λ h.
                    ap (λ vs. scaled f m t ∷ vs)
                      (agree (
                        ap (λ k. leb k 2) (omega (arith, lost-cons t (but_last (t' ∷ rest')))) ∙ h))
                    ∙ scaled_all-cons m (m' ∷ ms) t (t' ∷ rest'),
              )
            ]))

    -- While every answer has two bytes for each register, nothing panics: all metrics can be read in
    -- turn, and the scrape succeeds exactly if at most two of the readings before the last one fail. It
    -- then gives each reading times its multiplier, and -1 for one that failed.
    scrape_exact :
        IsExact read
        → (m : Metric) (ms : List Metric) (s : S)
        → (ts : List (Option Float64)) × (values : List Float64) × (ok : Bool) × (scan (m ∷ ms) s
            ≡ returned ts)
          × (scrape f read (m ∷ ms) s ≡ returned (values, ok))
          × ((ok ≡ true) ↔ (lost (but_last ts) ≤ 2))
          × (ok ≡ true → values ≡ scaled_all (m ∷ ms) ts)
    unfolding scrape
    scrape_exact exact m ms s =
        let (ts, scanned) = scan_returns exact (m ∷ ms) s in
        let (values, loops, agree) = scrape_loop-Scraped m ms 0 s ts scanned in
        (ts, values, leb (0 + lost (but_last ts)) 2, scanned, loops, ground arith, agree)

    scan-length :
        (ms : List Metric) (s : S) (ts : List (Option Float64))
        → scan ms s ≡ returned ts
        → length (scaled_all ms ts) ≡ length ms
    scan-length [] s ts e = refl
    scan-length (m ∷ ms) s ts e =
        let (t, s', rest, _, scanned, is) = scan-cons m ms s ts e in
        subst (λ r. length (scaled_all (m ∷ ms) r) ≡ length (m ∷ ms)) is
          (ap length (sym (scaled_all-cons m ms t rest)) ∙ ap suc (scan-length ms s' rest scanned))

  -- The samples name the metrics in order.
  samples_named :
      (ms : List Metric) (values : List Float64)
      → length values ≡ length ms
      → (sent : List (Bytes × Float64)) × (samples f ms values ≡ returned sent)
        × (map (λ x. x.0) sent ≡ map (λ m. m.name) ms)
        × (map (λ x. x.1) sent ≡ values)
  unfolding samples
  samples_named [] [] h = ([], refl, refl, refl)
  samples_named [] (v ∷ vs) h = absurd (omega arith)
  samples_named (m ∷ ms) [] h = absurd (omega arith)
  samples_named (m ∷ ms) (v ∷ vs) h =
      let (sent, e, names, values) = samples_named ms vs (omega arith) in
      ((m.name, v) ∷ sent, rw e, ap (λ l. m.name ∷ l) names, ap (λ l. v ∷ l) values)

  -- While every answer has two bytes for each register, Collect sends one of two things. If at most two
  -- of the readings before the last one fail, it sends just the described metrics, in order, with "up"
  -- at 1 and the others at the readings times their multipliers, or -1; else it sends "up" at 0 alone.
  pub collect_exact :
      {S : Type 0} (read : Client S)
      → IsExact read
      → (m : Metric) (ms : List Metric) (s : S)
      → (ts : List (Option Float64)) × (sent : List (Bytes × Float64)) × (scan read (m ∷ ms) s
          ≡ returned ts)
        × (collect f read (m ∷ ms) s ≡ returned sent)
        × (lost (but_last ts) ≤ 2
            → (map (λ x. x.0) sent ≡ describe (m ∷ ms))
              × (map (λ x. x.1) sent ≡ 0x3ff0000000000000 ∷ scaled_all (m ∷ ms) ts))
        × (2 < lost (but_last ts) → sent ≡ (codes "up", 0) ∷ [])
  unfolding collect describe
  collect_exact read exact m ms s =
      let (ts, values, ok, scanned, scraped, iff, agree) = scrape_exact read exact m ms s in
      elim (Bool-cases ok) [
        | inl good ↦
            let same = agree good in
            let (sent, e, names, vs) =
              samples_named (m ∷ ms) values
                (ap length same ∙ scan-length read (m ∷ ms) s ts scanned) in
            (
              ts,
              (up_name, one) ∷ sent,
              scanned,
              rw (scraped, good, e),
              λ _. (ap (λ l. up_name ∷ l) names, ap (λ l. one ∷ l) (vs ∙ same)),
              λ many. absurd (omega (arith, iff.0 good)),
            )
        | inr bad ↦ (
          ts,
          (up_name, zero_float) ∷ [],
          scanned,
          rw (scraped, bad),
          λ few. absurd (ground (arith, iff.1 few)),
          λ _. refl,
        )
      ]
