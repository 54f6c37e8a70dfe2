-- ===== src/Nodes/Valid.antt =====
-- common/smarthouse.go: what holds of the program's state between two messages.
use smarthouse.Prelude.{
  subst, ℕ, ◌<◌, Option, none, some, List, [], ◌∷◌, Bytes, ◌≡◌, refl, arith, inl, inr, Option-cases,
  nat_Eq, bytes_Eq, ==_iff,
}
use smarthouse.GoMap.{Map, lookup, insert, lookup-insert, lookup-insert_cases}
use smarthouse.Nodes.Types.{Node, FlowSensor, House}
use smarthouse.Nodes.Sensors.{topic_of, put_sensor}
use smarthouse.Nodes.Hellos.{flows_of}

-- What makes a sensor the one for a node and a flow.
abbrev pub Label : Type 0
Label = Bytes × Bytes × Bytes

abbrev pub label : FlowSensor → Label
label s = (s.node, s.flow, s.topic)

abbrev pub label_for : Bytes → Bytes → Label
label_for node flow = (node, flow, topic_of node flow)

abbrev label_of : Option FlowSensor → Option Label
label_of none = none
label_of (some s) = some (label s)

unfoldable pub label_at : Map ℕ FlowSensor → ℕ → Option Label
label_at heap a = label_of (lookup a heap)

pub label_at-lookup :
    (heap : Map ℕ FlowSensor) (a : ℕ) (s : FlowSensor)
    → lookup a heap ≡ some s
    → label_at heap a ≡ some (label s)
unfolding label_at
label_at-lookup heap a s e = rw e refl

-- The addresses are those of sensors for these flows of the node, in this order.
unfoldable pub AreSensors : Map ℕ FlowSensor → Bytes → List ℕ → List Bytes → Type 0
AreSensors heap node [] [] = Unit
AreSensors heap node (a ∷ sensors) (flow ∷ flows) =
    (label_at heap a ≡ some (label_for node flow)) × AreSensors heap node sensors flows
AreSensors heap node _ _ = ⊥

-- A sensor's two counters agree, since nothing ever resets the one for the last minute.
abbrev pub IsHeap : Map ℕ FlowSensor → ℕ → Type 0
IsHeap heap next =
    (a : ℕ) (s : FlowSensor) → lookup a heap ≡ some s → (a < next) × (s.last60s_ml ≡ s.total_ml)

-- A node stands under its own name, and its sensors are those of its specification.
abbrev pub IsNode : Map ℕ FlowSensor → Bytes → Node → Type 0
IsNode heap name node =
    (node.name ≡ name)
    × (node.config.node ≡ name)
    × AreSensors heap name node.sensors (flows_of node.config.sensor_spec)

pub record IsValid {R C : Type 0} (h : House R C) : Type 0 where
  pub heap : IsHeap h.heap h.next
  pub each :
      (name : Bytes) (node : Node) → lookup name h.nodes ≡ some node → IsNode h.heap name node

-- The sensors that were there are there, for the same nodes and flows.
abbrev pub Extends : Map ℕ FlowSensor → Map ℕ FlowSensor → Type 0
Extends heap heap' = (a : ℕ) (l : Label) → label_at heap a ≡ some l → label_at heap' a ≡ some l

pub AreSensors-Extends :
    (heap heap' : Map ℕ FlowSensor) (node : Bytes) (sensors : List ℕ) (flows : List Bytes)
    → Extends heap heap'
    → AreSensors heap node sensors flows
    → AreSensors heap' node sensors flows
unfolding AreSensors
AreSensors-Extends heap heap' node [] [] x h = h
AreSensors-Extends heap heap' node (a ∷ sensors) (flow ∷ flows) x h =
    (x a _ h.0, AreSensors-Extends heap heap' node sensors flows x h.1)
AreSensors-Extends heap heap' node [] (flow ∷ flows) x h = h
AreSensors-Extends heap heap' node (a ∷ sensors) [] x h = h

pub IsNode-Extends :
    (heap heap' : Map ℕ FlowSensor) (name : Bytes) (node : Node)
    → Extends heap heap'
    → IsNode heap name node
    → IsNode heap' name node
IsNode-Extends heap heap' name node x (en, ec, s) =
    (en, ec, AreSensors-Extends heap heap' name node.sensors (flows_of node.config.sensor_spec) x s)

pub label_at-bound :
    (heap : Map ℕ FlowSensor) (next a : ℕ) (l : Label)
    → IsHeap heap next
    → label_at heap a ≡ some l
    → a < next
unfolding label_at
label_at-bound heap next a l v e = elim (Option-cases (lookup a heap)) [
  | inl x ↦ ground arith
  | inr (s, x) ↦ (v a s x).0
]

-- What a step on the sensors does: the nodes stay, the sensors keep what they are for.
pub record Keeps {R C : Type 0} (h h' : House R C) : Type 0 where
  pub nodes : h'.nodes ≡ h.nodes
  pub extends : Extends h.heap h'.heap
  pub heap : IsHeap h'.heap h'.next

module _ {R C : Type 0} where
  pub same-Keeps :
      (h h' : House R C)
      → IsHeap h.heap h.next
      → h'.nodes ≡ h.nodes
      → h'.heap ≡ h.heap
      → h'.next ≡ h.next
      → Keeps h h'
  same-Keeps h h' v en eh ex = record {
    nodes = en;
    extends = λ a l e. rw eh e;
    heap = rw (eh, ex) v;
  }

  pub trans-Keeps : (h h' h'' : House R C) → Keeps h h' → Keeps h' h'' → Keeps h h''
  trans-Keeps h h' h'' k k' = record {
    nodes = cc (k.nodes, k'.nodes);
    extends = λ a l e. k'.extends a l (k.extends a l e);
    heap = k'.heap;
  }

  -- A sensor may be written if it stays the same but for its readings, and its counters agree.
  pub put_sensor-Keeps :
      (h : House R C) (a : ℕ) (s : FlowSensor)
      → IsHeap h.heap h.next
      → label_at h.heap a ≡ some (label s)
      → s.last60s_ml ≡ s.total_ml
      → Keeps h (put_sensor h a s)
  unfolding label_at
  put_sensor-Keeps h a s v e c = record {
    nodes = refl;
    extends = λ b m eb. ground (arith, lookup-insert a b s h.heap, ==_iff a b);
    heap = λ b t eb. elim (lookup-insert_cases a b s t h.heap eb) [
      | inl (ea, es) ↦ (
        subst (λ x. x < h.next) ea (label_at-bound h.heap h.next a (label s) v e),
        subst (λ x. x.last60s_ml ≡ x.total_ml) es c,
      )
      | inr el ↦ v b t el
    ];
  }

  -- The nodes of a valid state, and one more, over sensors that are kept.
  pub put_node-IsValid :
      (h h' : House R C) (name : Bytes) (node : Node)
      → IsValid h
      → Keeps h h'
      → IsNode h'.heap name node
      → IsValid (record h' { nodes = insert name node h'.nodes })
  put_node-IsValid h h' name node v k n = record {
    heap = k.heap;
    each = λ other m e. elim (lookup-insert_cases name other node m h'.nodes e) [
      | inl (en, em) ↦ subst (λ x. IsNode h'.heap x m) en (subst (IsNode h'.heap name) em n)
      | inr el ↦
          IsNode-Extends h.heap h'.heap other m k.extends
            (v.each other m (subst (λ ns. lookup other ns ≡ some m) k.nodes el))
    ];
  }
