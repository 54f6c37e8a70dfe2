-- ===== src/Nodes/Sensors.antt =====
-- common/smarthouse.go: flowSensor, from NewFlowSensor to Describe. Each callback reads the clock once
-- here; the code reads it again for lastReceived.
use smarthouse.Prelude.{
  ℕ, suc, pos, Option, none, some, List, [], ◌∷◌, ◌++◌, Bytes, codes, false, ◌>>=◌, Outcome,
  returned, panicked, if◌then◌else◌, bytes_Eq, nat_Eq,
}
use smarthouse.GoMap.{lookup, insert}
use smarthouse.GoTime.{Time}
use smarthouse.GoStrings.{contains, before}
use smarthouse.Float64.{FloatOps, zero_float}
use smarthouse.Nodes.Types.{FlowSensor, Report, Descriptor, got_report, Registry, Client, House}

-- time.Unix(0, 0)
abbrev pub unix_epoch : Time
unix_epoch = pos 62135596800000000000

-- fmt.Sprintf("smarthouse/%s/flow-sensor/%s", node.Name, flow)
abbrev pub topic_of : Bytes → Bytes → Bytes
topic_of node flow = codes "smarthouse/" ++ node ++ codes "/flow-sensor/" ++ flow

unfoldable pub name_for_node : Bytes → Bytes
name_for_node node = if contains node b'-' then before node b'-' else node

-- The four exports of a sensor, in the order of their registration.
abbrev pub descriptors : Bytes → Bytes → List Descriptor
descriptors node flow =
    record { metric = codes "mL_per_min"; node = name_for_node node; flow = flow }
    ∷ record { metric = codes "last60s_mL"; node = name_for_node node; flow = flow }
    ∷ record { metric = codes "total_mL"; node = name_for_node node; flow = flow }
    ∷ record { metric = codes "report_age_s"; node = name_for_node node; flow = flow }
    ∷ []

-- The sensor that NewFlowSensor builds.
abbrev pub new_sensor : Bytes → Bytes → FlowSensor
new_sensor node flow = record {
  node = node;
  topic = topic_of node flow;
  subscribed = false;
  flow = flow;
  last_received = unix_epoch;
  ml_per_min = zero_float;
  last60s_ml = zero_float;
  total_ml = zero_float;
}

-- The two counters that a report adds to, each with the compare-and-swap of `add`.
unfoldable pub count_report : FloatOps → FlowSensor → Report → Time → FlowSensor
count_report f s report now = record s {
  ml_per_min = report.ml_per_min;
  last60s_ml = f.add s.last60s_ml report.flow_ml;
  total_ml = f.add s.total_ml report.flow_ml;
  last_received = now;
}

module _ {R : Type 0} (registry : Registry R) where
  -- prometheus.MustRegister, of each descriptor in turn.
  unfoldable pub must_register : List Descriptor → R → Outcome R
  must_register [] r = returned r
  must_register (d ∷ ds) r =
      let (ok, r') = registry.register d r in
      let rest = must_register ds r' in if ok then rest else panicked

  -- prometheus.Unregister, of each descriptor in turn.
  unfoldable pub unregister_all : List Descriptor → R → R
  unregister_all [] r = r
  unregister_all (d ∷ ds) r = unregister_all ds (registry.unregister d r)

module _ {R C : Type 0} where
  -- *heap[a] = s
  abbrev pub put_sensor : House R C → ℕ → FlowSensor → House R C
  put_sensor h a s = record h { heap = insert a s h.heap }

  -- NewFlowSensor: the new sensor's address.
  unfoldable pub new_flow_sensor : Registry R → House R C → Bytes → Bytes → Outcome (ℕ × House R C)
  unfolding must_register
  new_flow_sensor registry h node flow = do
    r ← must_register registry (descriptors node flow) h.registry
    returned (
      h.next,
      put_sensor (record h { next = suc h.next; registry = r }) h.next (new_sensor node flow),
    )

  -- Unsubscribe, of the sensor `s` at `a`.
  unfoldable pub unsubscribe_sensor : Client C → House R C → ℕ → FlowSensor → House R C
  unsubscribe_sensor client h a s =
      let (ok, c) = client.unsubscribe s.topic h.client in
      let h' = record h { client = c } in
      if ok then put_sensor h' a (record s { subscribed = false }) else h'

  -- Subscribe after the first `if`.
  unfoldable pub subscribe_topic : Client C → House R C → ℕ → FlowSensor → House R C
  subscribe_topic client h a s =
      let (ok, c) = client.subscribe s.topic (got_report a) h.client in
      put_sensor (record h { client = c }) a (record s { subscribed = ok })

  unfoldable pub subscribe_sensor : Client C → House R C → ℕ → FlowSensor → House R C
  unfolding unsubscribe_sensor subscribe_topic
  subscribe_sensor client h a s =
      subscribe_topic client (if s.subscribed then unsubscribe_sensor client h a s else h) a s

  -- A method through a pointer; the code holds none that is nil.
  unfoldable pub at_sensor : (House R C → ℕ → FlowSensor → House R C) → House R C → ℕ → House R C
  at_sensor method h a = elim (lookup a h.heap) [ none ↦ h | some s ↦ method h a s ]

  -- Shutdown
  unfoldable pub shutdown_sensor : Registry R → Client C → House R C → ℕ → FlowSensor → House R C
  unfolding unregister_all unsubscribe_sensor
  shutdown_sensor registry client h a s =
      unsubscribe_sensor client
        (record h { registry = unregister_all registry (descriptors s.node s.flow) h.registry }) a s

  -- c.node.LastContact = n
  unfoldable pub touch_node : House R C → Bytes → Time → House R C
  touch_node h name now = elim (lookup name h.nodes) [
    | none ↦ h
    | some node ↦ record h { nodes = insert name (record node { last_contact = now }) h.nodes }
  ]

  -- The callback of Subscribe: `none` is a payload that does not decode.
  unfoldable pub receive_report :
      FloatOps → Option Report → Time → House R C → ℕ → FlowSensor → House R C
  unfolding touch_node count_report
  receive_report f payload now h a s =
      let h' = touch_node h s.node now in
      elim payload [ none ↦ h' | some report ↦ put_sensor h' a (count_report f s report now) ]
