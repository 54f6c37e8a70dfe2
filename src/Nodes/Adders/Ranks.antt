-- ===== src/Nodes/Adders/Ranks.antt =====
-- Calls of flowSensor.add make few accesses, whatever turns they take.
use native.Mathlib.Nat.{suc-mul}
use smarthouse.Prelude.{
  ℕ, zero, suc, ◌+◌, ◌*◌, ◌≤◌, some, List, [], ◌∷◌, get_elem?, length, nat_eq, Bool-cases, inl, inr,
  ◌≡◌, refl, ap, arith, if◌then◌else◌,
}
use smarthouse.Float64.{Float64, FloatOps}
use smarthouse.Nodes.Adders.{
  Adder, to_load, to_swap, added, Counter, advance, replace, turn, callers,
}

-- The call has not returned.
abbrev pub IsOpen : Adder → Type 0
IsOpen (added i) = ⊥
IsOpen _ = Unit

-- A schedule in which each turn is that of a call which has not returned.
abbrev pub IsBusy : FloatOps → Counter → List ℕ → Type 0
IsBusy f c [] = Unit
IsBusy f c (k ∷ ks) =
    ((a : Adder) × (get_elem? c.adders k ≡ some a) × IsOpen a) × IsBusy f (turn f c k) ks

-- More accesses than the call will make, of which `m` pay for the loads that its own swap spoils.
rank : ℕ → Float64 → Adder → ℕ
rank m bits (to_load i) = 2 + m
rank m bits (to_swap i loaded) = if nat_eq bits loaded then 1 + m else 3 + m
rank m bits (added i) = 0

pub ranks : ℕ → Float64 → List Adder → ℕ
unfolding rank
ranks m bits [] = 0
ranks m bits (a ∷ adders) = rank m bits a + ranks m bits adders

rank-le : (m : ℕ) (bits bits' : Float64) (a : Adder) → rank m bits' a ≤ rank m bits a + 2
unfolding rank
rank-le m bits bits' (to_load i) = omega arith
rank-le m bits bits' (to_swap i loaded) = ground arith
rank-le m bits bits' (added i) = omega arith

-- A new value spoils each load at most.
ranks-le :
    (m : ℕ) (bits bits' : Float64) (adders : List Adder)
    → ranks m bits' adders ≤ ranks m bits adders + 2 * length adders
unfolding ranks
ranks-le m bits bits' [] = omega arith
ranks-le m bits bits' (a ∷ adders) =
    omega (arith, rank-le m bits bits' a, ranks-le m bits bits' adders)

ranks-replace :
    (m : ℕ) (bits : Float64) (adders : List Adder) (k : ℕ) (a b : Adder)
    → get_elem? adders k ≡ some a
    → ranks m bits (replace adders k b) + rank m bits a ≡ ranks m bits adders + rank m bits b
unfolding ranks
ranks-replace m bits [] k a b e = absurd (ground arith)
ranks-replace m bits (x ∷ adders) zero a b e =
    let here : x ≡ a = ground arith in omega (arith, ap (rank m bits) here)
ranks-replace m bits (x ∷ adders) (suc k) a b e = omega (arith, ranks-replace m bits adders k a b e)

length-replace :
    (adders : List Adder) (k : ℕ) (b : Adder) → length (replace adders k b) ≡ length adders
length-replace [] k b = refl
length-replace (x ∷ adders) zero b = refl
length-replace (x ∷ adders) (suc k) b = omega (arith, length-replace adders k b)

-- Each turn of an open call takes one off.
advance-ranks :
    (f : FloatOps) (m : ℕ) (bits : Float64) (adders : List Adder) (k : ℕ) (a : Adder)
    → m ≡ 2 * length adders
    → get_elem? adders k ≡ some a
    → IsOpen a
    → suc (ranks m (advance f bits a).0 (replace adders k (advance f bits a).1))
      ≤ ranks m bits adders
unfolding advance
advance-ranks f m bits adders k (to_load i) em e o =
    let fresh : rank m bits (to_swap i bits) ≡ 1 + m = unfold rank in ground arith in
    let before : rank m bits (to_load i) ≡ 2 + m = unfold rank in refl in
    omega (arith, ranks-replace m bits adders k (to_load i) (to_swap i bits) e, fresh, before)
advance-ranks f m bits adders k (to_swap i loaded) em e o = elim (Bool-cases (nat_eq bits loaded)) [
  | inl found ↦
      let bits' = f.add loaded i in
      let before : 1 + m ≤ rank m bits' (to_swap i loaded) = unfold rank in ground arith in
      let after : rank m bits' (added i) ≡ 0 = unfold rank in refl in
      rw found (
        omega (
          arith,
          ranks-replace m bits' adders k (to_swap i loaded) (added i) e,
          ranks-le m bits bits' adders,
          before,
          after,
        ))
  | inr changed ↦
      let before : rank m bits (to_swap i loaded) ≡ 3 + m = unfold rank in rw changed in
      let after : rank m bits (to_load i) ≡ 2 + m = unfold rank in refl in
      rw changed (
        omega
          (arith, ranks-replace m bits adders k (to_swap i loaded) (to_load i) e, before, after))
]
advance-ranks f m bits adders k (added i) em e o = absurd o

turn-ranks :
    (f : FloatOps) (m : ℕ) (c : Counter) (k : ℕ) (a : Adder)
    → m ≡ 2 * length c.adders
    → get_elem? c.adders k ≡ some a
    → IsOpen a
    → (m ≡ 2 * length (turn f c k).adders)
      × (suc (ranks m (turn f c k).bits (turn f c k).adders) ≤ ranks m c.bits c.adders)
unfolding turn
turn-ranks f m c k a em e o =
    rw (e, turn)
      (
        omega (arith, length-replace c.adders k (advance f c.bits a).1),
        advance-ranks f m c.bits c.adders k a em e o,
      )

pub turns-ranks :
    (f : FloatOps) (m : ℕ) (c : Counter) (ks : List ℕ)
    → m ≡ 2 * length c.adders
    → IsBusy f c ks
    → length ks ≤ ranks m c.bits c.adders
turns-ranks f m c [] em busy = omega arith
turns-ranks f m c (k ∷ ks) em ((a, e, o), busy) =
    let (em', less) = turn-ranks f m c k a em e o in
    omega (arith, turns-ranks f m (turn f c k) ks em' busy)

pub length-callers : (amounts : List Float64) → length (callers amounts) ≡ length amounts
length-callers [] = refl
length-callers (i ∷ amounts) = omega (arith, length-callers amounts)

pub ranks-callers :
    (m : ℕ) (bits : Float64) (amounts : List Float64)
    → ranks m bits (callers amounts) ≡ length amounts * (2 + m)
unfolding ranks rank
ranks-callers m bits [] = omega arith
ranks-callers m bits (i ∷ amounts) =
    omega (arith, ranks-callers m bits amounts, suc-mul (length amounts) (2 + m))
