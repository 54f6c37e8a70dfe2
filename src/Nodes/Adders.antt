-- ===== src/Nodes/Adders.antt =====
-- common/smarthouse.go: the loop of flowSensor.add, one access of the shared counter at a time, in
-- goroutines that take turns in any order.
pub mod Order
pub mod Ranks
pub mod Amounts
pub mod End
mod Examples
use smarthouse.Prelude.{
  ℕ, zero, suc, Option, none, some, List, [], ◌∷◌, get_elem?, nat_eq, if◌then◌else◌,
}
use smarthouse.Float64.{Float64, FloatOps}

-- Where a call of add stands, with the amount that it adds: before the load, with the bits that it
-- loaded before the compare-and-swap, or returned.
pub data Adder : Type 0 where
  to_load : Float64 → Adder
  to_swap : Float64 → Float64 → Adder
  added : Float64 → Adder

-- The bits of a counter, and the calls of add on it.
pub record Counter : Type 0 where
  pub bits : Float64
  pub adders : List Adder

-- One access: the new bits, and where the call then stands.
unfoldable pub advance : FloatOps → Float64 → Adder → Float64 × Adder
advance f bits (to_load i) = (bits, to_swap i bits)
advance f bits (to_swap i loaded) =
    if nat_eq bits loaded then (f.add loaded i, added i) else (bits, to_load i)
advance f bits (added i) = (bits, added i)

abbrev pub replace {ℓ} : {A : Type ℓ} → List A → ℕ → A → List A
replace [] k a = []
replace (x ∷ xs) zero a = a ∷ xs
replace (x ∷ xs) (suc k) a = x ∷ replace xs k a

-- The `k`-th call makes its access.
unfoldable pub turn : FloatOps → Counter → ℕ → Counter
unfolding advance
turn f c k = elim (get_elem? c.adders k) [
  | none ↦ c
  | some a ↦ record {
    bits = (advance f c.bits a).0;
    adders = replace c.adders k (advance f c.bits a).1;
  }
]

-- A schedule: whose turn it is, one after the other.
unfoldable pub turns : FloatOps → Counter → List ℕ → Counter
unfolding turn
turns f c [] = c
turns f c (k ∷ ks) = turns f (turn f c k) ks

-- Calls that have not yet begun.
abbrev pub callers : List Float64 → List Adder
callers [] = []
callers (i ∷ amounts) = to_load i ∷ callers amounts

-- The counter, with a call for each amount.
abbrev pub shared : Float64 → List Float64 → Counter
shared bits amounts = record { bits = bits; adders = callers amounts }
