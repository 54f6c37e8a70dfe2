-- ===== src/Analysis/RateBounds.antt =====
-- The statistics of a night in analysis/heatloss-analysis.go against its rates.
use smarthouse.Prelude.{
  ℕ, zero, suc, ◌%◌, ◌/◌, ◌≡◌, ◌⊎◌, inl, inr, refl, arith, List, [], ◌∷◌, Bool, true, false, All,
  length, if◌then◌else◌, Bool-cases, nat_eq, returned-injective, Outcome-cases, Returns, negsuc,
  ◌<◌, returned, >>=-eq-returned, subst, sym, ◌∙◌, ℤ,
}
use smarthouse.Analysis.Nights.{summarise-Returns}
use smarthouse.Analysis.Windows.{
  Float32, Float32Ops, WindowState, Summary, at, min, max, median, min_from, max_from, summarise,
  end_night, night_line,
}

-- `less` on the floats that are numbers, with NaN left out: < of a linear order.
pub record IsOrder (less : Float32 → Float32 → Bool) (number : Float32 → Bool) : Type 0 where
  pub asym : (x y : Float32) → less x y ≡ true → less y x ≡ false
  -- x ≤ y and y ≤ z give x ≤ z.
  pub chain :
      (x y z : Float32)
      → number x ≡ true
      → number y ≡ true
      → number z ≡ true
      → less y x ≡ false
      → less z y ≡ false
      → less z x ≡ false

reversed :
    (less : Float32 → Float32 → Bool) (number : Float32 → Bool)
    → IsOrder less number
    → IsOrder (λ x y. less y x) number
reversed less number order = record {
  asym = λ x y. order.asym y x;
  chain = λ x y z nx ny nz h k. order.chain z y x nz ny nx k h;
}

-- The value is in the list.
abbrev pub Among : Float32 → List Float32 → Type 0
Among x [] = ⊥
Among x (y ∷ ys) = (x ≡ y) ⊎ Among x ys

-- A value from the list satisfies what all of it does.
All-Among : (P : Float32 → Type 0) (x : Float32) (xs : List Float32) → Among x xs → All P xs → P x
All-Among P x [] a h = absurd a
All-Among P x (y ∷ ys) (inl e) (p, h) = subst P (sym e) p
All-Among P x (y ∷ ys) (inr a) (p, h) = All-Among P x ys a h

at-Among : (xs : List Float32) (i : ℕ) (x : Float32) → at xs i ≡ returned x → Among x xs
at-Among [] i x e = absurd (ground arith)
at-Among (y ∷ ys) zero x e = inl (ground arith)
at-Among (y ∷ ys) (suc i) x e = inr (at-Among ys i x e)

module _ (beats : Float32 → Float32 → Bool) where
  -- The loops of min and max, with what replaces the value so far.
  best_from : Float32 → List Float32 → Float32
  best_from best [] = best
  best_from best (x ∷ xs) = best_from (if beats x best then x else best) xs

  module _ (number : Float32 → Bool) (order : IsOrder beats number) where
    -- Nothing beats the result, which is one of the values.
    record IsBest (best : Float32) (xs : List Float32) (b : Float32) : Type 0 where
      counts : number b ≡ true
      before : beats best b ≡ false
      others : All (λ x. beats x b ≡ false) xs
      from : (b ≡ best) ⊎ Among b xs

    IsBest-step :
        (best x y b : Float32) (xs : List Float32)
        → number best ≡ true
        → number x ≡ true
        → number y ≡ true
        → beats best y ≡ false
        → beats x y ≡ false
        → (y ≡ best) ⊎ (y ≡ x)
        → IsBest y xs b
        → IsBest best (x ∷ xs) b
    IsBest-step best x y b xs n nx ny hb hx from r = record {
      counts = r.counts;
      before = order.chain b y best r.counts ny n r.before hb;
      others = (order.chain b y x r.counts ny nx r.before hx, r.others);
      from = elim r.from [
        | inl e ↦ elim from [ inl o ↦ inl (e ∙ o) | inr o ↦ inr (inl (e ∙ o)) ]
        | inr a ↦ inr (inr a)
      ];
    }

    best_from-IsBest :
        (best : Float32) (xs : List Float32)
        → number best ≡ true
        → All (λ x. number x ≡ true) xs
        → IsBest best xs (best_from best xs)
    unfolding best_from
    best_from-IsBest best [] n h = record {
      counts = n;
      before = ground (arith, order.asym best best);
      others = tt;
      from = inl refl;
    }
    best_from-IsBest best (x ∷ xs) n (nx, h) = elim (Bool-cases (beats x best)) [
      | inl better ↦
          subst (λ c. IsBest best (x ∷ xs) (best_from (if c then x else best) xs)) (sym better)
            (IsBest-step best x x _ xs n nx nx (order.asym x best better)
              (ground (arith, order.asym x x)) (inr refl) (best_from-IsBest x xs nx h))
      | inr worse ↦
          subst (λ c. IsBest best (x ∷ xs) (best_from (if c then x else best) xs)) (sym worse)
            (IsBest-step best x best _ xs n nx n (ground (arith, order.asym best best)) worse
              (inl refl) (best_from-IsBest best xs n h))
    ]

    -- The loop over all values, from the first of them.
    best_overall :
        (x : Float32) (xs : List Float32)
        → All (λ y. number y ≡ true) (x ∷ xs)
        → let b = best_from x (x ∷ xs) in Among b (x ∷ xs) × All (λ y. beats y b ≡ false) (x ∷ xs)
    best_overall x xs (n, h) =
        let r = best_from-IsBest x (x ∷ xs) n (n, h) in
        (elim r.from [ inl e ↦ inl e | inr a ↦ a ], r.others)

min_from-best :
    (f : Float32Ops) (low : Float32) (xs : List Float32)
    → min_from f low xs ≡ best_from f.less low xs
unfolding best_from
min_from-best f low [] = refl
min_from-best f low (x ∷ xs) = min_from-best f (if f.less x low then x else low) xs

max_from-best :
    (f : Float32Ops) (high : Float32) (xs : List Float32)
    → max_from f high xs ≡ best_from (λ x y. f.less y x) high xs
unfolding best_from
max_from-best f high [] = refl
max_from-best f high (x ∷ xs) = max_from-best f (if f.less high x then x else high) xs

module _ (f : Float32Ops) (number : Float32 → Bool) (order : IsOrder f.less number) where
  min_bounds :
      (rates : List Float32) (low : Float32)
      → All (λ r. number r ≡ true) rates
      → min f rates ≡ returned low
      → Among low rates × All (λ r. f.less r low ≡ false) rates
  unfolding min
  min_bounds [] low h e = absurd (ground arith)
  min_bounds (x ∷ xs) low h e =
      subst (λ b. Among b (x ∷ xs) × All (λ r. f.less r b ≡ false) (x ∷ xs))
        (sym (returned-injective e ∙ min_from-best f x (x ∷ xs)))
        (best_overall f.less number order x xs h)

  max_bounds :
      (rates : List Float32) (high : Float32)
      → All (λ r. number r ≡ true) rates
      → max f rates ≡ returned high
      → Among high rates × All (λ r. f.less high r ≡ false) rates
  unfolding max
  max_bounds [] high h e = absurd (ground arith)
  max_bounds (x ∷ xs) high h e =
      subst (λ b. Among b (x ∷ xs) × All (λ r. f.less b r ≡ false) (x ∷ xs))
        (sym (returned-injective e ∙ max_from-best f x (x ∷ xs)))
        (best_overall (λ x y. f.less y x) number (reversed f.less number order) x xs h)

All-both :
    (P Q : Float32 → Type 0) (xs : List Float32) → All P xs → All Q xs → All (λ x. P x × Q x) xs
All-both P Q [] h k = tt
All-both P Q (x ∷ xs) (p, h) (q, k) = ((p, q), All-both P Q xs h k)

-- The median of an odd number of rates is one of them.
median-Among :
    (f : Float32Ops) (rates : List Float32) (m : Float32)
    → median f rates ≡ returned m
    → (length rates % 2 ≡ 0) ⊎ Among m rates
unfolding median
median-Among f rates m e =
    let (x, found, rest) = >>=-eq-returned (at rates (length rates / 2)) _ e in
    elim (Bool-cases (nat_eq (length rates % 2) 0)) [
      | inl even ↦ inl (ground arith)
      | inr odd ↦
          inr
            (subst (λ y. Among y rates) (ground arith) (at-Among rates (length rates / 2) x found))
    ]

-- The lowest and the highest value are among the rates and bound them; the middle one is between the
-- two where the number of rates is odd.
abbrev pub Bounds : Float32Ops → List Float32 → Summary → Type 0
Bounds f rates s =
    Among s.lowest rates
    × Among s.highest rates
    × All (λ r. (f.less r s.lowest ≡ false) × (f.less s.highest r ≡ false)) rates
    × ((length rates % 2 ≡ 0)
        ⊎ ((f.less s.middle s.lowest ≡ false) × (f.less s.highest s.middle ≡ false)))

summarise-Bounds :
    (f : Float32Ops) (hour_of_day : ℤ → ℕ) (number : Float32 → Bool) (st : WindowState)
    (s : Summary)
    → IsOrder f.less number
    → All (λ r. number r ≡ true) st.transfer_rates
    → summarise f hour_of_day st ≡ returned s
    → Bounds f st.transfer_rates s
unfolding summarise
summarise-Bounds f hour_of_day number st s order h e =
    let rates = st.transfer_rates in
    let (low, is_low, e1) = >>=-eq-returned (min f rates) _ e in
    let (m, is_middle, e2) = >>=-eq-returned (median f rates) _ e1 in
    let (high, is_high, e3) = >>=-eq-returned (max f rates) _ e2 in
    let (low_in, lows) = min_bounds f number order rates low h is_low in
    let (high_in, highs) = max_bounds f number order rates high h is_high in
    let all = All-both (λ r. f.less r low ≡ false) (λ r. f.less high r ≡ false) rates lows highs in
    let odd : (length rates % 2 ≡ 0) ⊎ ((f.less m low ≡ false) × (f.less high m ≡ false)) =
      elim (median-Among f rates m is_middle) [
        | inl even ↦ inl even
        | inr a ↦ inr (All-Among _ m rates a all)
      ] in
    subst (Bounds f rates) (sym (returned-injective e3)) (low_in, high_in, all, odd)

-- The first window of a day behind a night with rates, all of them numbers, prints one summary and
-- forgets the rates. The lowest and the highest value are among the rates, no rate is lower or higher,
-- and the middle one of an odd number of rates is between the two.
pub end_night-Bounds :
    (f : Float32Ops) (hour_of_day : ℤ → ℕ) (number : Float32 → Bool) (st : WindowState)
    → IsOrder f.less number
    → All (λ r. number r ≡ true) st.transfer_rates
    → 0 < length st.transfer_rates
    → (s : Summary) × (end_night f hour_of_day st
        ≡ returned
            (record st { transfer_start_ts = negsuc 0; transfer_rates = [] }, night_line s ∷ []))
      × Bounds f st.transfer_rates s
unfolding end_night
end_night-Bounds f hour_of_day number st order h some_rates =
    elim (Outcome-cases (summarise f hour_of_day st)) [
      | inl e ↦ absurd (subst (Returns _) e (summarise-Returns f hour_of_day st some_rates))
      | inr (s, e) ↦ (s, ground (arith, e), summarise-Bounds f hour_of_day number st s order h e)
    ]
