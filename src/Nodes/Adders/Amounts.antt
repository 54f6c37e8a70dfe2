-- ===== src/Nodes/Adders/Amounts.antt =====
-- Turns keep the amounts of the calls of flowSensor.add.
use smarthouse.Prelude.{
  ℕ, zero, suc, some, Option-cases, List, [], ◌∷◌, get_elem?, nat_eq, Bool-cases, inl, inr, ◌≡◌,
  refl, ap, sym, ◌∙◌, arith,
}
use smarthouse.Float64.{Float64, FloatOps}
use smarthouse.Nodes.Adders.{
  Adder, to_load, to_swap, added, Counter, advance, replace, turn, turns, callers,
}

-- The amounts of all calls, whether they have returned or not.
unfoldable pub amounts_of : List Adder → List Float64
amounts_of [] = []
amounts_of (to_load i ∷ adders) = i ∷ amounts_of adders
amounts_of (to_swap i loaded ∷ adders) = i ∷ amounts_of adders
amounts_of (added i ∷ adders) = i ∷ amounts_of adders

abbrev amount : Adder → Float64
amount (to_load i) = i
amount (to_swap i loaded) = i
amount (added i) = i

amounts_of-one :
    (a : Adder) (adders : List Adder) → amounts_of (a ∷ adders) ≡ amount a ∷ amounts_of adders
unfolding amounts_of
amounts_of-one (to_load i) adders = refl
amounts_of-one (to_swap i loaded) adders = refl
amounts_of-one (added i) adders = refl

amounts_of-replace :
    (adders : List Adder) (k : ℕ) (a b : Adder)
    → get_elem? adders k ≡ some a
    → amount a ≡ amount b
    → amounts_of (replace adders k b) ≡ amounts_of adders
amounts_of-replace [] k a b e same = refl
amounts_of-replace (x ∷ adders) zero a b e same =
    let here : x ≡ a = ground arith in
    amounts_of-one b adders
    ∙ ap (λ i. i ∷ amounts_of adders) (sym same ∙ ap amount (sym here))
    ∙ sym (amounts_of-one x adders)
amounts_of-replace (x ∷ adders) (suc k) a b e same =
    amounts_of-one x (replace adders k b)
    ∙ ap (λ amounts. amount x ∷ amounts) (amounts_of-replace adders k a b e same)
    ∙ sym (amounts_of-one x adders)

advance-amount :
    (f : FloatOps) (bits : Float64) (a : Adder) → amount a ≡ amount (advance f bits a).1
unfolding advance
advance-amount f bits (to_load i) = refl
advance-amount f bits (to_swap i loaded) = elim (Bool-cases (nat_eq bits loaded)) [
  | inl found ↦ rw found refl
  | inr changed ↦ rw changed refl
]
advance-amount f bits (added i) = refl

turn-amounts :
    (f : FloatOps) (c : Counter) (k : ℕ) → amounts_of (turn f c k).adders ≡ amounts_of c.adders
unfolding turn
turn-amounts f c k = elim (Option-cases (get_elem? c.adders k)) [
  | inl out ↦ rw (out, turn) refl
  | inr (a, e) ↦
      rw (e, turn)
        (amounts_of-replace c.adders k a (advance f c.bits a).1 e (advance-amount f c.bits a))
]

pub turns-amounts :
    (f : FloatOps) (c : Counter) (ks : List ℕ)
    → amounts_of (turns f c ks).adders ≡ amounts_of c.adders
unfolding turns
turns-amounts f c [] = refl
turns-amounts f c (k ∷ ks) = turns-amounts f (turn f c k) ks ∙ turn-amounts f c k

pub amounts_of-callers : (amounts : List Float64) → amounts_of (callers amounts) ≡ amounts
unfolding amounts_of
amounts_of-callers [] = refl
amounts_of-callers (i ∷ amounts) = ap (λ xs. i ∷ xs) (amounts_of-callers amounts)
