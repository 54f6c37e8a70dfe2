-- ===== src/Nodes/Hellos.antt =====
-- common/smarthouse.go: GotHello, RegisterNode, UpdateNode, SetupSensors and ResubscribeSensors, and
-- the program's run as a sequence of whole callbacks.
use smarthouse.Prelude.{
  ℕ, Option, none, some, List, [], ◌∷◌, Bytes, codes, not, Outcome, returned, ◌>>=◌, if◌then◌else◌,
  bytes_Eq, ◌==◌,
}
use smarthouse.GoMap.{Map, lookup, insert}
use smarthouse.GoTime.{Time}
use smarthouse.GoStrings.{split}
use smarthouse.Float64.{FloatOps}
use smarthouse.Nodes.Types.{
  Hello, Node, Report, got_hello as got_hello_callback, Registry, Client, House,
}
use smarthouse.Nodes.Sensors.{
  new_flow_sensor, subscribe_sensor, at_sensor, shutdown_sensor, receive_report,
}

-- A sensor of a specification: NAME,TYPE,PIN, with more fields allowed.
unfoldable pub flow_of : List Bytes → Option Bytes
flow_of (name ∷ kind ∷ pin ∷ more) = some name
flow_of _ = none

abbrev flow_first : Option Bytes → List Bytes → List Bytes
flow_first none rest = rest
flow_first (some flow) rest = flow ∷ rest

-- The flows of the pieces that are valid; the others are passed over.
unfoldable pub flows_in : List Bytes → List Bytes
unfolding flow_of
flows_in [] = []
flows_in (piece ∷ pieces) = flow_first (flow_of (split b',' piece)) (flows_in pieces)

-- The flows of a specification: NAME,TYPE,PIN[;NAME,TYPE,PIN]...
unfoldable pub flows_of : Bytes → List Bytes
unfolding flows_in
flows_of spec = flows_in (split b';' spec)

-- What a message to the program says, and the reconnection to the broker. A message of a sensor names
-- the sensor whose callback the client calls; `none` is a payload that does not decode.
pub data Message : Type 0 where
  hello : Option Hello → Message
  report : ℕ → Option Report → Message
  connected : Message

module _ {R C : Type 0} where
  -- A call on each sensor of a list.
  unfoldable pub each_sensor : (House R C → ℕ → House R C) → House R C → List ℕ → House R C
  each_sensor call h [] = h
  each_sensor call h (a ∷ sensors) = each_sensor call (call h a) sensors

  -- ResubscribeSensors
  unfoldable pub resubscribe : Client C → Map Bytes Node → House R C → House R C
  unfolding each_sensor
  resubscribe client [] h = h
  resubscribe client ((name, node) ∷ nodes) h =
      resubscribe client nodes (each_sensor (at_sensor (subscribe_sensor client)) h node.sensors)

  -- mqttConnected
  unfoldable pub mqtt_connected : Client C → House R C → House R C
  unfolding resubscribe
  mqtt_connected client h =
      let (ok, c) = client.subscribe (codes "smarthouse/hello") got_hello_callback h.client in
      resubscribe client h.nodes (record h { client = c })

module _ {R C : Type 0} (registry : Registry R) (client : Client C) where
  -- The second loop of SetupSensors: the sensors that are appended.
  unfoldable pub create_sensors : House R C → Bytes → List Bytes → Outcome (List ℕ × House R C)
  create_sensors h node [] = returned ([], h)
  create_sensors h node (flow ∷ flows) = do
    (a, h1) ← new_flow_sensor registry h node flow
    (sensors, h2) ← create_sensors (at_sensor (subscribe_sensor client) h1 a) node flows
    returned (a ∷ sensors, h2)

  unfoldable pub setup_sensors : House R C → Node → Outcome (Node × House R C)
  unfolding create_sensors
  setup_sensors h node = do
    (sensors, h') ←
        create_sensors (each_sensor (at_sensor (shutdown_sensor registry client)) h node.sensors)
          node.name (flows_of node.config.sensor_spec)
    returned (record node { sensors = sensors }, h')

  unfoldable pub register_node : House R C → Hello → Time → Outcome (House R C)
  unfolding setup_sensors
  register_node h config now = do
    (node, h') ←
        setup_sensors h
          (record { name = config.node; config = config; last_contact = now; sensors = [] })
    returned (record h' { nodes = insert config.node node h'.nodes })

  -- UpdateNode up to its second `if`: the new configuration, and new sensors if their specification
  -- has changed.
  unfoldable pub reconfigure : House R C → Hello → Node → Outcome (Node × House R C)
  unfolding setup_sensors
  reconfigure h config node =
      let configured = record node { config = config } in
      let changed = setup_sensors h configured in
      if not (node.config.sensor_spec == config.sensor_spec)
      then changed
      else returned (configured, h)

  -- UpdateNode, of the node that stands under the name.
  unfoldable pub update_node : House R C → Hello → Time → Node → Outcome (House R C)
  unfolding reconfigure
  update_node h config now node = do
    (updated, h') ← reconfigure h config node
    returned
        (record h' { nodes = insert config.node (record updated { last_contact = now }) h'.nodes })

  -- GotHello, of a payload that decodes.
  unfoldable pub got_hello : House R C → Hello → Time → Outcome (House R C)
  unfolding register_node update_node
  got_hello h config now =
      let received = record config { received = now } in
      elim (lookup config.node h.nodes) [
        | none ↦ register_node h received now
        | some node ↦ update_node h received now node
      ]

  unfoldable pub handle : FloatOps → House R C → Time → Message → Outcome (House R C)
  unfolding got_hello mqtt_connected
  handle f h now (hello none) = returned h
  handle f h now (hello (some config)) = got_hello h config now
  handle f h now (report a payload) = returned (at_sensor (receive_report f payload now) h a)
  handle f h now connected = returned (mqtt_connected client h)

  unfoldable pub run : FloatOps → House R C → List (Time × Message) → Outcome (House R C)
  unfolding handle
  run f h [] = returned h
  run f h ((now, m) ∷ messages) = do h' ← handle f h now m; run f h' messages
