-- ===== src/Nodes/Adders/Examples.antt =====
-- Calls of flowSensor.add that take turns, with sums of numbers for those of floats.
use mathlib.Core.List.{Perm}
use smarthouse.Prelude.{ℕ, ◌+◌, ◌*◌, ◌≤◌, ◌≡◌, refl, ◌⊎◌, List, [], ◌∷◌, none, pos, length}
use smarthouse.Float64.{Float64, FloatOps}
use smarthouse.Nodes.Adders.{turn, turns, shared, to_load, to_swap, added}
use smarthouse.Nodes.Adders.Order.{add_all, returned_amounts, adds_in_order}
use smarthouse.Nodes.Adders.Ranks.{IsBusy}
use smarthouse.Nodes.Adders.End.{CanTurn, adds_end}

abbrev sums : FloatOps
sums = record {
  add = λ x y. x + y;
  mul = λ x y. x * y;
  of_int = λ z. 0;
  to_int64 = λ x. pos x;
  parse_float = λ s. none;
}

-- Both load; the second swaps first, so that the first has to load again.
abbrev contended : List ℕ
contended = 0 ∷ 1 ∷ 1 ∷ 0 ∷ 0 ∷ 0 ∷ []

contended_total :
    turns sums (shared 10 (1 ∷ 2 ∷ [])) contended
    ≡ record { bits = 13; adders = added 1 ∷ added 2 ∷ [] }
unfolding turns
contended_total = refl

adds_in_order_example :
    let c = turns sums (shared 10 (1 ∷ 2 ∷ [])) contended in
    (order : List Float64) × (c.bits ≡ add_all sums 10 order)
    × Perm order (returned_amounts c.adders)
adds_in_order_example = adds_in_order sums 10 (1 ∷ 2 ∷ []) contended

contended-IsBusy : IsBusy sums (shared 10 (1 ∷ 2 ∷ [])) contended
unfolding turn
contended-IsBusy = (
  (to_load 1, refl, tt),
  (
    (to_load 2, refl, tt),
    (
      (to_swap 2 10, refl, tt),
      ((to_swap 1 10, refl, tt), ((to_load 1, refl, tt), ((to_swap 1 12, refl, tt), tt))),
    ),
  ),
)

adds_end_example :
    let c = turns sums (shared 10 (1 ∷ 2 ∷ [])) contended in
    (length contended ≤ 2 * (2 + 2 * 2))
    × (CanTurn c
        ⊎ ((order : List Float64) × (c.bits ≡ add_all sums 10 order) × Perm order (1 ∷ 2 ∷ [])))
adds_end_example = adds_end sums 10 (1 ∷ 2 ∷ []) contended contended-IsBusy
