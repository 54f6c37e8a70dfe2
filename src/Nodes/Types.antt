-- ===== src/Nodes/Types.antt =====
-- common/smarthouse.go: the nodes, their sensors and the messages. A pointer to a sensor is its
-- address in `heap`; a pointer to a node is the node's name, since a node is made once and is never
-- removed.
use smarthouse.Prelude.{ℕ, ℤ, List, Bytes, Bool}
use smarthouse.GoMap.{Map}
use smarthouse.GoTime.{Time}
use smarthouse.Float64.{Float64}

-- mqttHello
pub record Hello : Type 0 where
  pub received : Time
  pub node : Bytes
  pub version : Bytes
  pub ip : Bytes
  pub low_power : ℤ
  pub ota_status : Bytes
  pub wifi_ssid : Bytes
  pub sensor_spec : Bytes
  pub report_interval : ℤ
  pub report_count : ℤ
  pub sleep_interval : ℤ

-- Node. `sensors` holds pointers, and every Sensor is a flowSensor.
pub record Node : Type 0 where
  pub name : Bytes
  pub config : Hello
  pub last_contact : Time
  pub sensors : List ℕ

-- flowSensor. `subscribed` is `token != nil`; the four exports are the sensor's descriptors.
pub record FlowSensor : Type 0 where
  pub node : Bytes
  pub topic : Bytes
  pub subscribed : Bool
  pub flow : Bytes
  pub last_received : Time
  pub ml_per_min : Float64
  pub last60s_ml : Float64
  pub total_ml : Float64

-- mqttReport
pub record Report : Type 0 where
  pub ml_per_min : Float64
  pub flow_ml : Float64
  pub total_ml : Float64

-- A metric's name and its constant labels `node` and `flow`.
pub record Descriptor : Type 0 where
  pub metric : Bytes
  pub node : Bytes
  pub flow : Bytes

-- What a message of the MQTT client is given to.
pub data Callback : Type 0 where
  got_hello : Callback
  got_report : ℕ → Callback

-- Prometheus' default registry, with its state.
pub record Registry (R : Type 0) : Type 0 where
  -- prometheus.Register: true if no error. MustRegister panics on one.
  pub register : Descriptor → R → Bool × R
  pub unregister : Descriptor → R → R

-- The MQTT client, with its state: true if the token has no error once it completes.
pub record Client (C : Type 0) : Type 0 where
  pub subscribe : Bytes → Callback → C → Bool × C
  pub unsubscribe : Bytes → C → Bool × C

-- The whole program's state.
pub record House (R C : Type 0) : Type 0 where
  pub nodes : Map Bytes Node
  pub heap : Map ℕ FlowSensor
  -- The next free address.
  pub next : ℕ
  pub registry : R
  pub client : C
