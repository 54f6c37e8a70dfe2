-- ===== src/Nodes/Runs.antt =====
-- common/smarthouse.go: the invariant over any sequence of messages.
use smarthouse.Prelude.{
  sym, ap, ℕ, List, [], ◌∷◌, ◌≡◌, refl, arith, none, some, inl, inr, Option-cases, nat_Eq, Bytes,
  subst, Option, returned, >>=-eq-returned, bytes_Eq,
}
use smarthouse.GoMap.{lookup}
use smarthouse.GoTime.{Time}
use smarthouse.Float64.{FloatOps}
use smarthouse.Nodes.Types.{FlowSensor, Report, Registry, Client, House}
use smarthouse.Nodes.Sensors.{put_sensor, at_sensor, touch_node, count_report, receive_report}
use smarthouse.Nodes.Hellos.{Message, handle, run, mqtt_connected}
use smarthouse.Nodes.Valid.{
  label_at-lookup, IsValid, IsNode-Extends, Keeps, same-Keeps, put_sensor-Keeps, put_node-IsValid,
}
use smarthouse.Nodes.Steps
use smarthouse.Nodes.Setup.{got_hello-IsValid}

module _ {R C : Type 0} where
  touch_node-IsValid :
      (h : House R C) (name : Bytes) (now : Time) → IsValid h → IsValid (touch_node h name now)
  unfolding touch_node
  touch_node-IsValid h name now v = elim (Option-cases (lookup name h.nodes)) [
    | inl e ↦ rw (e, touch_node) v
    | inr (node, e) ↦
        rw (e, touch_node)
          (put_node-IsValid h h name (record node { last_contact = now }) v
            (same-Keeps h h v.heap refl refl refl) (v.each name node e))
  ]

  touch_node-heap :
      (h : House R C) (name : Bytes) (now : Time) → (touch_node h name now).heap ≡ h.heap
  unfolding touch_node
  touch_node-heap h name now = ground arith

  -- A step on the sensors of a valid state.
  Keeps-IsValid : (h h' : House R C) → IsValid h → Keeps h h' → IsValid h'
  Keeps-IsValid h h' v k = record {
    heap = k.heap;
    each = λ name node e.
        IsNode-Extends h.heap h'.heap name node k.extends
          (v.each name node (subst (λ ns. lookup name ns ≡ some node) k.nodes e));
  }

  -- A report adds the same to both counters.
  receive_report-IsValid :
      (f : FloatOps) (payload : Option Report) (now : Time) (h : House R C) (a : ℕ) (s : FlowSensor)
      → IsValid h
      → lookup a h.heap ≡ some s
      → IsValid (receive_report f payload now h a s)
  unfolding receive_report count_report
  receive_report-IsValid f none now h a s v e = touch_node-IsValid h s.node now v
  receive_report-IsValid f (some report) now h a s v e =
      let h1 = touch_node h s.node now in
      let w = touch_node-IsValid h s.node now v in
      let e1 = subst (λ heap. lookup a heap ≡ some s) (sym (touch_node-heap h s.node now)) e in
      Keeps-IsValid h1 (put_sensor h1 a (count_report f s report now)) w (
        put_sensor-Keeps h1 a (count_report f s report now) w.heap (label_at-lookup h1.heap a s e1)
          (ap (λ x. f.add x report.flow_ml) (w.heap a s e1).1))

  at_sensor-IsValid :
      (method : House R C → ℕ → FlowSensor → House R C) (h : House R C) (a : ℕ)
      → IsValid h
      → ((s : FlowSensor) → lookup a h.heap ≡ some s → IsValid (method h a s))
      → IsValid (at_sensor method h a)
  unfolding at_sensor
  at_sensor-IsValid method h a v k = elim (Option-cases (lookup a h.heap)) [
    | inl e ↦ rw (e, at_sensor) v
    | inr (s, e) ↦ rw (e, at_sensor) (k s e)
  ]

module _ {R C : Type 0} (registry : Registry R) (client : Client C) (f : FloatOps) where
  handle-IsValid :
      (h h' : House R C) (now : Time) (m : Message)
      → IsValid h
      → handle registry client f h now m ≡ returned h'
      → IsValid h'
  unfolding handle
  handle-IsValid h h' now (Message.hello none) v e = subst IsValid (ground arith) v
  handle-IsValid h h' now (Message.hello (some config)) v e =
      got_hello-IsValid registry client h h' config now v e
  handle-IsValid h h' now (Message.report a payload) v e = subst IsValid (ground arith) (
      at_sensor-IsValid (receive_report f payload now) h a v
        (λ s es. receive_report-IsValid f payload now h a s v es))
  handle-IsValid h h' now Message.connected v e =
      subst IsValid (ground arith)
        (Keeps-IsValid h (mqtt_connected client h) v (Steps.mqtt_connected-Keeps client h v.heap))

  -- From a valid state any sequence of messages that does not panic leads to a valid state: each node
  -- stands under its own name, its sensors are those of its specification, in order, and on every
  -- sensor the counter for the last minute equals the total.
  pub run_nodes-IsValid :
      (h h' : House R C) (messages : List (Time × Message))
      → IsValid h
      → run registry client f h messages ≡ returned h'
      → IsValid h'
  unfolding run
  run_nodes-IsValid h h' [] v e = subst IsValid (ground arith) v
  run_nodes-IsValid h h' ((now, m) ∷ messages) v e =
      let (k, ran, rest) =
        >>=-eq-returned (handle registry client f h now m) (λ k. run registry client f k messages)
          e in
      run_nodes-IsValid k h' messages (handle-IsValid h k now m v ran) rest
