-- ===== src/Nodes/Adders/Order.antt =====
-- Calls of flowSensor.add that take turns come to the same as one after the other.
use mathlib.Core.List.{Perm, perm_append_singleton}
use mathlib.Core.List.Perm
use smarthouse.Prelude.{
  ℕ, zero, suc, some, Option-cases, List, [], ◌∷◌, ◌++◌, get_elem?, nat_eq, Bool-cases, inl, inr,
  ◌≡◌, refl, ap, sym, ◌∙◌, arith, subst,
}
use smarthouse.Float64.{Float64, FloatOps}
use smarthouse.Nodes.Adders.{
  Adder, to_load, to_swap, added, Counter, advance, replace, turn, turns, callers, shared,
}

-- The amounts added one after the other.
abbrev pub add_all : FloatOps → Float64 → List Float64 → Float64
add_all f bits [] = bits
add_all f bits (i ∷ amounts) = add_all f (f.add bits i) amounts

-- The amounts of the calls that have returned.
abbrev pub returned_amounts : List Adder → List Float64
returned_amounts [] = []
returned_amounts (added i ∷ adders) = i ∷ returned_amounts adders
returned_amounts (_ ∷ adders) = returned_amounts adders

add_all-append :
    (f : FloatOps) (bits : Float64) (order : List Float64) (i : Float64)
    → add_all f bits (order ++ i ∷ []) ≡ f.add (add_all f bits order) i
add_all-append f bits [] i = refl
add_all-append f bits (j ∷ order) i = add_all-append f (f.add bits j) order i

module _ (i loaded : Float64) where
  -- One more has returned.
  returned_amounts-replace :
      (adders : List Adder) (k : ℕ)
      → get_elem? adders k ≡ some (to_swap i loaded)
      → Perm (i ∷ returned_amounts adders) (returned_amounts (replace adders k (added i)))
  returned_amounts-replace [] k e = absurd (ground arith)
  returned_amounts-replace (a ∷ adders) zero e =
      let here : a ≡ to_swap i loaded = ground arith in
      subst (λ b. Perm (i ∷ returned_amounts (b ∷ adders)) (i ∷ returned_amounts adders)) (sym here)
        (Perm.refl (i ∷ returned_amounts adders))
  returned_amounts-replace (to_load j ∷ adders) (suc k) e = returned_amounts-replace adders k e
  returned_amounts-replace (to_swap j l ∷ adders) (suc k) e = returned_amounts-replace adders k e
  returned_amounts-replace (added j ∷ adders) (suc k) e =
      Perm.trans (Perm.swap j i (returned_amounts adders))
        (Perm.cons j (returned_amounts-replace adders k e))

-- The amount of a call that has returned.
abbrev amount_of : Adder → List Float64
amount_of (added i) = i ∷ []
amount_of _ = []

returned_amounts-one :
    (a : Adder) (adders : List Adder)
    → returned_amounts (a ∷ adders) ≡ amount_of a ++ returned_amounts adders
returned_amounts-one (to_load i) adders = refl
returned_amounts-one (to_swap i loaded) adders = refl
returned_amounts-one (added i) adders = refl

-- A call that goes on, or that has returned before, leaves the amounts as they are.
returned_amounts_same :
    (adders : List Adder) (k : ℕ) (a b : Adder)
    → get_elem? adders k ≡ some a
    → amount_of a ≡ amount_of b
    → returned_amounts (replace adders k b) ≡ returned_amounts adders
returned_amounts_same [] k a b e same = refl
returned_amounts_same (x ∷ adders) zero a b e same =
    returned_amounts-one b adders
    ∙ ap (λ amounts. amounts ++ returned_amounts adders) (sym same ∙ ap amount_of (ground arith))
    ∙ sym (returned_amounts-one x adders)
returned_amounts_same (to_load j ∷ adders) (suc k) a b e same =
    returned_amounts_same adders k a b e same
returned_amounts_same (to_swap j l ∷ adders) (suc k) a b e same =
    returned_amounts_same adders k a b e same
returned_amounts_same (added j ∷ adders) (suc k) a b e same =
    ap (λ amounts. j ∷ amounts) (returned_amounts_same adders k a b e same)

-- The counter holds the amounts of the calls that have returned, added to the start in this order.
pub record IsOrdered (f : FloatOps) (start : Float64) (c : Counter) (order : List Float64)
    : Type 0 where
  pub total : c.bits ≡ add_all f start order
  pub those : Perm order (returned_amounts c.adders)

unchanged-IsOrdered :
    (f : FloatOps) (start bits : Float64) (adders : List Adder) (order : List Float64) (k : ℕ)
    (a b : Adder)
    → get_elem? adders k ≡ some a
    → amount_of a ≡ amount_of b
    → IsOrdered f start (record { bits = bits; adders = adders }) order
    → IsOrdered f start (record { bits = bits; adders = replace adders k b }) order
unchanged-IsOrdered f start bits adders order k a b e same v = record {
  total = v.total;
  those = subst (Perm order) (sym (returned_amounts_same adders k a b e same)) v.those;
}

abbrev Ordered : FloatOps → Float64 → Counter → Type 0
Ordered f start c = (order : List Float64) × IsOrdered f start c order

-- A call whose compare-and-swap finds the bits that it loaded comes last in the order.
swapped-IsOrdered :
    (f : FloatOps) (start : Float64) (c : Counter) (order : List Float64) (k : ℕ)
    (i loaded : Float64)
    → get_elem? c.adders k ≡ some (to_swap i loaded)
    → c.bits ≡ loaded
    → IsOrdered f start c order
    → IsOrdered f start
        (record { bits = f.add loaded i; adders = replace c.adders k (added i) })
        (order ++ i ∷ [])
swapped-IsOrdered f start c order k i loaded e found v = record {
  total = ap (λ b. f.add b i) (sym found ∙ v.total) ∙ sym (add_all-append f start order i);
  those =
      Perm.trans (perm_append_singleton i order)
        (Perm.trans (Perm.cons i v.those) (returned_amounts-replace i loaded c.adders k e));
}

advance-IsOrdered :
    (f : FloatOps) (start : Float64) (c : Counter) (order : List Float64) (k : ℕ) (a : Adder)
    → get_elem? c.adders k ≡ some a
    → IsOrdered f start c order
    → Ordered f start (record {
      bits = (advance f c.bits a).0;
      adders = replace c.adders k (advance f c.bits a).1;
    })
unfolding advance
advance-IsOrdered f start c order k (to_load i) e v = (
  order,
  unchanged-IsOrdered f start c.bits c.adders order k (to_load i) (to_swap i c.bits) e refl v,
)
advance-IsOrdered f start c order k (to_swap i loaded) e v =
    elim (Bool-cases (nat_eq c.bits loaded)) [
      | inl found ↦
          rw found
            (order ++ i ∷ [], swapped-IsOrdered f start c order k i loaded e (ground arith) v)
      | inr changed ↦ rw changed (
        order,
        unchanged-IsOrdered f start c.bits c.adders order k (to_swap i loaded) (to_load i) e refl v,
      )
    ]
advance-IsOrdered f start c order k (added i) e v =
    (order, unchanged-IsOrdered f start c.bits c.adders order k (added i) (added i) e refl v)

turn-Ordered :
    (f : FloatOps) (start : Float64) (c : Counter) (k : ℕ)
    → Ordered f start c
    → Ordered f start (turn f c k)
unfolding turn
turn-Ordered f start c k (order, v) = elim (Option-cases (get_elem? c.adders k)) [
  | inl out ↦ rw (out, turn) (order, v)
  | inr (a, e) ↦ rw (e, turn) (advance-IsOrdered f start c order k a e v)
]

turns-Ordered :
    (f : FloatOps) (start : Float64) (c : Counter) (ks : List ℕ)
    → Ordered f start c
    → Ordered f start (turns f c ks)
unfolding turns
turns-Ordered f start c [] v = v
turns-Ordered f start c (k ∷ ks) v =
    turns-Ordered f start (turn f c k) ks (turn-Ordered f start c k v)

callers-none_returned : (amounts : List Float64) → returned_amounts (callers amounts) ≡ []
callers-none_returned [] = refl
callers-none_returned (i ∷ amounts) = callers-none_returned amounts

-- No update is lost: whatever the turns that calls of add take, the counter holds the amounts of the
-- calls that have returned, added one after the other in some order.
pub adds_in_order :
    (f : FloatOps) (start : Float64) (amounts : List Float64) (schedule : List ℕ)
    → let c = turns f (shared start amounts) schedule in
      (order : List Float64) × (c.bits ≡ add_all f start order)
      × Perm order (returned_amounts c.adders)
adds_in_order f start amounts schedule =
    let (order, v) = turns-Ordered f start (shared start amounts) schedule (
      [],
      record {
        total = refl;
        those = subst (Perm []) (sym (callers-none_returned amounts)) (Perm.refl []);
      },
    ) in
    (order, v.total, v.those)
