-- ===== src/Analysis/Nights.antt =====
-- analysis/heatloss-analysis.go: the rates of a night, and that the analysis of well-formed lines does
-- not panic.
use smarthouse.Prelude.{
  ◌&&◌, if◌then◌else◌, Returns, >>=-Returns, nat_eq, ◌%◌, zero, ℕ, suc, ◌-◌, ◌/◌, ◌<◌, ℤ, negsuc,
  int_eq, int_eq_iff, ltb, leb, ◌≡◌, ◌≢◌, refl, arith, inl, inr, Bool-cases, List, [], ◌∷◌, ◌++◌,
  All, length, Bytes, Bool, true, false,
}
use smarthouse.Analysis.Windows.{
  Float32, Float32Ops, WindowState, at, min, max, median, heat_transfer, record_rate, summarise,
  end_night, use_window, next_window, end_window, minus_one32, Line, night_line, empty_line,
  only_verbose, window_end, window_line,
}

pub All-append : (P : Line → Type 0) (xs ys : List Line) → All P xs → All P ys → All P (xs ++ ys)
All-append P [] ys h k = k
All-append P (x ∷ xs) ys (hx, h) k = (hx, All-append P xs ys h k)

-- Rates are kept only with the start of their night.
abbrev pub IsKept : List Float32 → ℤ → Type 0
IsKept [] from = Unit
IsKept (x ∷ xs) from = from ≢ negsuc 0

abbrev pub IsNight : WindowState → Type 0
IsNight st = IsKept st.transfer_rates st.transfer_start_ts

-- A summary names the start of its night.
abbrev pub IsNamed : Line → Type 0
IsNamed (night_line s) = s.from_ts ≢ negsuc 0
IsNamed _ = Unit

-- What holds of a state and of what is printed: the length of the windows is kept, and a summary names
-- the start of its night.
abbrev pub IsResult : ℤ → WindowState × List Line → Type 0
IsResult win_secs r = (r.0.win_secs ≡ win_secs) × IsNight r.0 × All IsNamed r.1

pub at-Returns :
    {A : Type 0} (xs : List A) (i : ℕ) → i < length xs → Returns (λ (a : A). Unit) (at xs i)
at-Returns [] i h = absurd (omega arith)
at-Returns (x ∷ xs) zero h = tt
at-Returns (x ∷ xs) (suc i) h = at-Returns xs i (omega arith)

median-Returns :
    (f : Float32Ops) (xs : List Float32)
    → 0 < length xs
    → Returns (λ (m : Float32). Unit) (median f xs)
unfolding median
median-Returns f xs h =
    >>=-Returns (λ (a : Float32). Unit) (λ (m : Float32). Unit) (at xs (length xs / 2)) _
      (at-Returns xs (length xs / 2) (omega arith))
      (λ a _. elim (Bool-cases (nat_eq (length xs % 2) 0)) [
        | inl even ↦ rw even (
            >>=-Returns (λ (b : Float32). Unit) (λ (m : Float32). Unit) (at xs (length xs / 2 - 1))
              _ (at-Returns xs (length xs / 2 - 1) (omega arith)) (λ b _. tt))
        | inr odd ↦ rw odd tt
      ])

min-Returns :
    (f : Float32Ops) (xs : List Float32)
    → 0 < length xs
    → Returns (λ (m : Float32). Unit) (min f xs)
unfolding min
min-Returns f [] h = absurd (omega arith)
min-Returns f (x ∷ xs) h = tt

max-Returns :
    (f : Float32Ops) (xs : List Float32)
    → 0 < length xs
    → Returns (λ (m : Float32). Unit) (max f xs)
unfolding max
max-Returns f [] h = absurd (omega arith)
max-Returns f (x ∷ xs) h = tt

differs : (z : ℤ) → int_eq z (negsuc 0) ≡ false → z ≢ negsuc 0
differs z e same = ground (arith, int_eq_iff z (negsuc 0))

module _ (f : Float32Ops) (hour_of_day : ℤ → ℕ) where
  pub summarise-Returns :
      (st : WindowState)
      → 0 < length st.transfer_rates
      → Returns (λ s. s.from_ts ≡ st.transfer_start_ts) (summarise f hour_of_day st)
  unfolding summarise
  summarise-Returns st h =
      >>=-Returns (λ (a : Float32). Unit) _ (min f st.transfer_rates) _
        (min-Returns f st.transfer_rates h)
        (λ low _.
          >>=-Returns (λ (a : Float32). Unit) _ (median f st.transfer_rates) _
            (median-Returns f st.transfer_rates h)
            (λ med _.
              >>=-Returns (λ (a : Float32). Unit) _ (max f st.transfer_rates) _
                (max-Returns f st.transfer_rates h) (λ high _. refl)))

  -- A night that has rates has a start.
  IsKept-start :
      (rates : List Float32) (from : ℤ) → 0 < length rates → IsKept rates from → from ≢ negsuc 0
  IsKept-start [] from h k = absurd (omega arith)
  IsKept-start (x ∷ xs) from h k = k

  end_night-IsResult :
      (st : WindowState) → IsNight st → Returns (IsResult st.win_secs) (end_night f hour_of_day st)
  unfolding end_night
  end_night-IsResult st v = elim (Bool-cases (ltb 0 (length st.transfer_rates))) [
    | inl some_rates ↦
        rw (end_night, some_rates)
          (>>=-Returns (λ s. s.from_ts ≡ st.transfer_start_ts) (IsResult st.win_secs)
            (summarise f hour_of_day st) _ (summarise-Returns st (ground arith))
            (λ s e. (
              refl,
              tt,
              (rw e (IsKept-start st.transfer_rates st.transfer_start_ts (ground arith) v), tt),
            )))
    | inr no_rates ↦ rw (end_night, no_rates) (refl, v, tt)
  ]

  append-IsKept :
      (rates : List Float32) (x : Float32) (from : ℤ)
      → from ≢ negsuc 0
      → IsKept (rates ++ x ∷ []) from
  append-IsKept [] x from h = h
  append-IsKept (y ∷ rates) x from h = h

  -- No rates before the start of the night, and then one if it starts.
  rates_or_none :
      (rates : List Float32) (x : Float32) (from start : ℤ)
      → from ≡ negsuc 0
      → IsKept rates from
      → IsKept (if int_eq start (negsuc 0) then rates else rates ++ x ∷ []) start
  rates_or_none [] x from start e k = elim (Bool-cases (int_eq start (negsuc 0))) [
    | inl same ↦ rw same tt
    | inr differ ↦ rw differ (differs start differ)
  ]
  rates_or_none (y ∷ rates) x from start e k = absurd (k e)

  record_rate-IsNight :
      (st : WindowState) (rate : Float32) → IsNight st → IsNight (record_rate f hour_of_day st rate)
  unfolding record_rate
  record_rate-IsNight st rate v = elim (Bool-cases (int_eq st.transfer_start_ts (negsuc 0))) [
    | inl none_yet ↦
        rates_or_none st.transfer_rates rate st.transfer_start_ts
          (if int_eq st.transfer_start_ts (negsuc 0) && f.less rate 0
            then st.start_ts
            else st.transfer_start_ts)
          ((int_eq_iff st.transfer_start_ts (negsuc 0)).0 none_yet) v
    | inr begun ↦
        rw (begun, begun)
          (append-IsKept st.transfer_rates rate st.transfer_start_ts
            (differs st.transfer_start_ts begun))
  ]

  use_window-IsResult :
      (node : Bytes) (st : WindowState) (last_ts : ℤ)
      → IsNight st
      → Returns (IsResult st.win_secs) (use_window f hour_of_day node st last_ts)
  unfolding use_window record_rate
  use_window-IsResult node st last_ts v =
      elim (Bool-cases (leb 1 (hour_of_day st.start_ts) && ltb (hour_of_day st.start_ts) 7)) [
        | inl night ↦
            rw (use_window, night)
              (elim (Bool-cases st.node_heated) [
                | inl heated ↦ rw heated (refl, v, tt)
                | inr cold ↦ rw cold (
                  refl,
                  record_rate-IsNight st (heat_transfer f hour_of_day node st last_ts) v,
                  tt,
                )
              ])
        | inr day ↦ rw (use_window, day) (end_night-IsResult st v)
      ]

  only_verbose-IsNamed :
      (verbose : Bool) (line : Line) → IsNamed line → All IsNamed (only_verbose verbose line)
  only_verbose-IsNamed true line h = (h, tt)
  only_verbose-IsNamed false line h = tt

  window_line-IsNamed :
      (node : Bytes) (st : WindowState) (last_ts : ℤ)
      → IsNamed (window_line f hour_of_day node st last_ts)
  unfolding window_line
  window_line-IsNamed node st last_ts = elim (Bool-cases st.node_heated) [
    | inl heated ↦ rw (window_line, heated) tt
    | inr cold ↦ rw (window_line, cold) tt
  ]

  pub end_window-IsResult :
      (verbose : Bool) (node : Bytes) (st : WindowState) (last_ts : ℤ)
      → IsNight st
      → Returns (IsResult st.win_secs) (end_window f hour_of_day verbose node st last_ts)
  unfolding end_window next_window
  end_window-IsResult verbose node st last_ts v =
      elim (Bool-cases (f.same st.start_degc minus_one32)) [
        | inl empty ↦
            rw (end_window, empty)
              (
                refl,
                v,
                only_verbose-IsNamed verbose (empty_line (window_end f hour_of_day st last_ts)) tt,
              )
        | inr read ↦
            rw (end_window, read)
              (>>=-Returns (IsResult st.win_secs) (IsResult st.win_secs)
                (use_window f hour_of_day node st last_ts) _ (use_window-IsResult node st last_ts v)
                (λ r (w, n, p). (
                  w,
                  n,
                  All-append IsNamed r.1 _ p
                      (only_verbose-IsNamed verbose _ (window_line-IsNamed node st last_ts)),
                )))
      ]
