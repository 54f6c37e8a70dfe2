-- ===== src/Nodes/Steps.antt =====
-- common/smarthouse.go: what the methods of flowSensor keep, and the loops that call them.
use smarthouse.Prelude.{
  codes, ℕ, List, [], ◌∷◌, ◌≡◌, refl, some, inl, inr, Option-cases, Bool-cases, nat_Eq, Bytes,
  false,
}
use smarthouse.GoMap.{Map, lookup}
use smarthouse.Nodes.Types.{Callback, got_report, Node, FlowSensor, Registry, Client, House}
use smarthouse.Nodes.Sensors.{
  descriptors, put_sensor, unregister_all, unsubscribe_sensor, subscribe_topic, subscribe_sensor,
  at_sensor, shutdown_sensor,
}
use smarthouse.Nodes.Hellos.{each_sensor, resubscribe, mqtt_connected}
use smarthouse.Nodes.Valid.{
  label_at, IsHeap, Keeps, same-Keeps, trans-Keeps, put_sensor-Keeps, label_at-lookup, label,
}

module _ {R C : Type 0} where
  -- A change of the registry and the client alone.
  abbrev pub outside : House R C → R → C → House R C
  outside h r c = record h { registry = r; client = c }

  unsubscribe_sensor-Keeps :
      (client : Client C) (h : House R C) (a : ℕ) (s : FlowSensor)
      → IsHeap h.heap h.next
      → lookup a h.heap ≡ some s
      → Keeps h (unsubscribe_sensor client h a s)
  unfolding unsubscribe_sensor
  unsubscribe_sensor-Keeps client h a s v e =
      let h1 = outside h h.registry (client.unsubscribe s.topic h.client).1 in
      elim (Bool-cases (client.unsubscribe s.topic h.client).0) [
        | inl done ↦
            rw (done, unsubscribe_sensor)
              (trans-Keeps h h1 (put_sensor h1 a (record s { subscribed = false }))
                (same-Keeps h h1 v refl refl refl)
                (put_sensor-Keeps h1 a (record s { subscribed = false }) v
                  (label_at-lookup h.heap a s e) (v a s e).1))
        | inr not_done ↦ rw (not_done, unsubscribe_sensor) (same-Keeps h h1 v refl refl refl)
      ]

  subscribe_topic-Keeps :
      (client : Client C) (h : House R C) (a : ℕ) (s : FlowSensor)
      → IsHeap h.heap h.next
      → label_at h.heap a ≡ some (label s)
      → s.last60s_ml ≡ s.total_ml
      → Keeps h (subscribe_topic client h a s)
  unfolding subscribe_topic
  subscribe_topic-Keeps client h a s v e c =
      let h1 = outside h h.registry (client.subscribe s.topic (got_report a) h.client).1 in
      let t = record s { subscribed = (client.subscribe s.topic (got_report a) h.client).0 } in
      trans-Keeps h h1 (put_sensor h1 a t) (same-Keeps h h1 v refl refl refl)
        (put_sensor-Keeps h1 a t v e c)

  pub subscribe_sensor-Keeps :
      (client : Client C) (h : House R C) (a : ℕ) (s : FlowSensor)
      → IsHeap h.heap h.next
      → lookup a h.heap ≡ some s
      → Keeps h (subscribe_sensor client h a s)
  unfolding subscribe_sensor
  subscribe_sensor-Keeps client h a s v e = elim (Bool-cases s.subscribed) [
    | inl done ↦
        rw (done, subscribe_sensor)
          (let k = unsubscribe_sensor-Keeps client h a s v e in
            let h1 = unsubscribe_sensor client h a s in
            trans-Keeps h h1 (subscribe_topic client h1 a s) k (
              subscribe_topic-Keeps client h1 a s k.heap
                (k.extends a (label s) (label_at-lookup h.heap a s e)) (v a s e).1))
    | inr not_done ↦
        rw (not_done, subscribe_sensor)
          (subscribe_topic-Keeps client h a s v (label_at-lookup h.heap a s e) (v a s e).1)
  ]

  pub shutdown_sensor-Keeps :
      (registry : Registry R) (client : Client C) (h : House R C) (a : ℕ) (s : FlowSensor)
      → IsHeap h.heap h.next
      → lookup a h.heap ≡ some s
      → Keeps h (shutdown_sensor registry client h a s)
  unfolding shutdown_sensor
  shutdown_sensor-Keeps registry client h a s v e =
      let h1 =
        outside h (unregister_all registry (descriptors s.node s.flow) h.registry) h.client in
      trans-Keeps h h1 (unsubscribe_sensor client h1 a s) (same-Keeps h h1 v refl refl refl)
        (unsubscribe_sensor-Keeps client h1 a s v e)

  pub at_sensor-Keeps :
      (method : House R C → ℕ → FlowSensor → House R C) (h : House R C) (a : ℕ)
      → IsHeap h.heap h.next
      → ((s : FlowSensor) → lookup a h.heap ≡ some s → Keeps h (method h a s))
      → Keeps h (at_sensor method h a)
  unfolding at_sensor
  at_sensor-Keeps method h a v k = elim (Option-cases (lookup a h.heap)) [
    | inl e ↦ rw (e, at_sensor) (same-Keeps h h v refl refl refl)
    | inr (s, e) ↦ rw (e, at_sensor) (k s e)
  ]

  pub each_sensor-Keeps :
      (call : House R C → ℕ → House R C) (h : House R C) (sensors : List ℕ)
      → ((k : House R C) (a : ℕ) → IsHeap k.heap k.next → Keeps k (call k a))
      → IsHeap h.heap h.next
      → Keeps h (each_sensor call h sensors)
  unfolding each_sensor
  each_sensor-Keeps call h [] step v = same-Keeps h h v refl refl refl
  each_sensor-Keeps call h (a ∷ sensors) step v =
      let k = step h a v in
      trans-Keeps h (call h a) (each_sensor call h (a ∷ sensors)) k
        (each_sensor-Keeps call (call h a) sensors step k.heap)

  pub resubscribe-Keeps :
      (client : Client C) (nodes : Map Bytes Node) (h : House R C)
      → IsHeap h.heap h.next
      → Keeps h (resubscribe client nodes h)
  unfolding resubscribe
  resubscribe-Keeps client [] h v = same-Keeps h h v refl refl refl
  resubscribe-Keeps client ((name, node) ∷ nodes) h v =
      let k =
        each_sensor-Keeps (at_sensor (subscribe_sensor client)) h node.sensors
          (λ m a w.
            at_sensor-Keeps (subscribe_sensor client) m a w
              (λ s e. subscribe_sensor-Keeps client m a s w e))
          v in
      let h1 = each_sensor (at_sensor (subscribe_sensor client)) h node.sensors in
      trans-Keeps h h1 (resubscribe client nodes h1) k (resubscribe-Keeps client nodes h1 k.heap)

  pub mqtt_connected-Keeps :
      (client : Client C) (h : House R C) → IsHeap h.heap h.next → Keeps h (mqtt_connected client h)
  unfolding mqtt_connected
  mqtt_connected-Keeps client h v =
      let h1 =
        outside h h.registry
          (client.subscribe (codes "smarthouse/hello") Callback.got_hello h.client).1 in
      trans-Keeps h h1 (resubscribe client h.nodes h1) (same-Keeps h h1 v refl refl refl)
        (resubscribe-Keeps client h.nodes h1 v)
