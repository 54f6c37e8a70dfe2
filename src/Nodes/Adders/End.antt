-- ===== src/Nodes/Adders/End.antt =====
-- Calls of flowSensor.add that take turns all return.
use mathlib.Core.List.{Perm}
use smarthouse.Prelude.{
  ℕ, suc, ◌+◌, ◌*◌, ◌≤◌, some, List, [], ◌∷◌, get_elem?, length, inl, inr, ◌⊎◌, ◌≡◌, refl, ap, ◌∙◌,
  arith, subst,
}
use smarthouse.Float64.{Float64, FloatOps}
use smarthouse.Nodes.Adders.{Adder, to_load, to_swap, added, Counter, turns, shared}
use smarthouse.Nodes.Adders.Order.{add_all, returned_amounts, adds_in_order}
use smarthouse.Nodes.Adders.Ranks.{IsOpen, IsBusy, turns-ranks, length-callers, ranks-callers}
use smarthouse.Nodes.Adders.Amounts.{amounts_of, turns-amounts, amounts_of-callers}

-- Some call can go on.
abbrev pub CanTurn : Counter → Type 0
CanTurn c = (k : ℕ) × (a : Adder) × (get_elem? c.adders k ≡ some a) × IsOpen a

-- Either a call is open, or the amounts of those that have returned are all.
going_or_returned :
    (adders : List Adder)
    → ((k : ℕ) × (a : Adder) × (get_elem? adders k ≡ some a) × IsOpen a)
      ⊎ (returned_amounts adders ≡ amounts_of adders)
unfolding amounts_of
going_or_returned [] = inr refl
going_or_returned (to_load i ∷ adders) = inl (0, to_load i, refl, tt)
going_or_returned (to_swap i loaded ∷ adders) = inl (0, to_swap i loaded, refl, tt)
going_or_returned (added i ∷ adders) = elim (going_or_returned adders) [
  | inl (k, a, e, o) ↦ inl (suc k, a, e, o)
  | inr e ↦ inr (ap (λ xs. i ∷ xs) e)
]

-- Calls of add make no more than 2n(n + 1) accesses between them, whatever turns they take, while each
-- turn is that of a call that has not returned. Then either one can go on, or all have returned, and the
-- counter holds all amounts, added one after the other in some order.
pub adds_end :
    (f : FloatOps) (start : Float64) (amounts : List Float64) (schedule : List ℕ)
    → IsBusy f (shared start amounts) schedule
    → let c = turns f (shared start amounts) schedule in
      (length schedule ≤ length amounts * (2 + 2 * length amounts))
      × (CanTurn c
          ⊎ ((order : List Float64) × (c.bits ≡ add_all f start order) × Perm order amounts))
adds_end f start amounts schedule busy =
    let c = turns f (shared start amounts) schedule in
    let (order, total, those) = adds_in_order f start amounts schedule in
    let m = 2 * length amounts in
    let n = length-callers amounts in
    (
      omega (
        arith,
        turns-ranks f m (shared start amounts) schedule (omega (arith, n)) busy,
        ranks-callers m start amounts,
      ),
      elim (going_or_returned c.adders) [
        | inl more ↦ inl more
        | inr all ↦ inr (
          order,
          total,
          subst (Perm order)
              (all ∙ turns-amounts f (shared start amounts) schedule ∙ amounts_of-callers amounts)
              those,
        )
      ],
    )
