-- ===== src/Nodes/Reports.antt =====
-- common/smarthouse.go: what a report changes, and a hello whose specification is not new.
use smarthouse.Prelude.{
  ℕ, ◌≡◌, ◌≢◌, refl, Option, some, none, Bytes, returned, nat_Eq, bytes_Eq, ==_iff,
}
use smarthouse.GoMap.{lookup, insert, lookup-insert_self, lookup-insert_other}
use smarthouse.GoTime.{Time}
use smarthouse.Float64.{FloatOps}
use smarthouse.Nodes.Types.{Hello, Node, FlowSensor, Report, Registry, Client, House}
use smarthouse.Nodes.Sensors.{touch_node, count_report, receive_report, at_sensor}
use smarthouse.Nodes.Hellos.{Message, handle, got_hello, update_node, reconfigure}

-- The sensor after a report: as before, if the payload does not decode.
abbrev pub after_report : FloatOps → FlowSensor → Time → Option Report → FlowSensor
after_report f s now none = s
after_report f s now (some report) = record {
  node = s.node;
  topic = s.topic;
  subscribed = s.subscribed;
  flow = s.flow;
  last_received = now;
  ml_per_min = report.ml_per_min;
  last60s_ml = f.add s.last60s_ml report.flow_ml;
  total_ml = f.add s.total_ml report.flow_ml;
}

module _ {R C : Type 0} where
  -- The state after a report: the sensor, and its node's last contact.
  abbrev pub reported :
      FloatOps → House R C → ℕ → FlowSensor → Node → Time → Option Report → House R C
  reported f h a s node now none = record h {
    nodes = insert s.node (record node { last_contact = now }) h.nodes;
  }
  reported f h a s node now (some report) = record h {
    nodes = insert s.node (record node { last_contact = now }) h.nodes;
    heap = insert a (after_report f s now (some report)) h.heap;
  }

module _ {R C : Type 0} (registry : Registry R) (client : Client C) (f : FloatOps) where
  report_lem :
      (h : House R C) (now : Time) (a : ℕ) (s : FlowSensor) (node : Node) (payload : Option Report)
      → lookup a h.heap ≡ some s
      → lookup s.node h.nodes ≡ some node
      → handle registry client f h now (Message.report a payload)
        ≡ returned (reported f h a s node now payload)
  unfolding handle at_sensor receive_report touch_node count_report
  report_lem h now a s node none e en = rw (e, at_sensor, receive_report, en, touch_node) refl
  report_lem h now a s node (some report) e en =
      rw (e, at_sensor, receive_report, en, touch_node) refl

  -- A report to a sensor whose node is known does not panic. It sets the node's last contact; if its
  -- payload decodes, the sensor has received it now, its rate is the report's, and the report's flow is
  -- added to both counters. It changes nothing else of these, no other node and no other sensor.
  pub report_exact :
      (h : House R C) (now : Time) (a : ℕ) (s : FlowSensor) (node : Node) (payload : Option Report)
      → lookup a h.heap ≡ some s
      → lookup s.node h.nodes ≡ some node
      → (h' : House R C) × (handle registry client f h now (Message.report a payload) ≡ returned h')
        × (lookup a h'.heap ≡ some (after_report f s now payload))
        × (lookup s.node h'.nodes ≡ some (record node { last_contact = now }))
        × ((b : ℕ) → a ≢ b → lookup b h'.heap ≡ lookup b h.heap)
        × ((name : Bytes) → s.node ≢ name → lookup name h'.nodes ≡ lookup name h.nodes)
  report_exact h now a s node none e en = (
    reported f h a s node now none,
    report_lem h now a s node none e en,
    e,
    lookup-insert_self s.node (record node { last_contact = now }) h.nodes,
    λ b d. refl,
    λ name d. lookup-insert_other s.node name (record node { last_contact = now }) h.nodes d,
  )
  report_exact h now a s node (some report) e en = (
    reported f h a s node now (some report),
    report_lem h now a s node (some report) e en,
    lookup-insert_self a (after_report f s now (some report)) h.heap,
    lookup-insert_self s.node (record node { last_contact = now }) h.nodes,
    λ b d. lookup-insert_other a b (after_report f s now (some report)) h.heap d,
    λ name d. lookup-insert_other s.node name (record node { last_contact = now }) h.nodes d,
  )

  -- A hello of a known node with the specification that it has changes the node's configuration and
  -- last contact, and nothing else: the sensors, their counters, the registry and the subscriptions
  -- stay.
  pub hello_again :
      (h : House R C) (now : Time) (config : Hello) (node : Node)
      → lookup config.node h.nodes ≡ some node
      → node.config.sensor_spec ≡ config.sensor_spec
      → handle registry client f h now (Message.hello (some config))
        ≡ returned (record h {
          nodes =
              insert config.node
                (record node { config = record config { received = now }; last_contact = now })
                h.nodes;
        })
  unfolding handle got_hello update_node reconfigure
  hello_again h now config node en same =
      rw
        (
          en,
          got_hello,
          update_node,
          reconfigure,
          (==_iff node.config.sensor_spec config.sensor_spec).1 same,
        )
        refl
