-- ===== src/Nodes/Examples.antt =====
-- common/smarthouse.go at concrete inputs: a registry that is a list of what it holds, and a client that
-- remembers its subscriptions.
use smarthouse.Prelude.{
  ℕ, pos, ◌≡◌, ◌≢◌, refl, arith, some, none, List, [], ◌∷◌, map, Bytes, codes, Bool, true, false,
  ◌&&◌, ◌||◌, bytes_eq, bytes_eq_iff, Outcome, returned, panicked, if◌then◌else◌, inl, nat_Eq,
  bytes_Eq, All,
}
use smarthouse.GoMap.{lookup, insert}
use smarthouse.GoTime.{Time}
use smarthouse.GoStrings.{split, contains, before}
use smarthouse.Float64.{FloatOps}
use smarthouse.Nodes.Types.{Hello, Node, FlowSensor, Report, Descriptor, Registry, Client, House}
use smarthouse.Nodes.Sensors.{
  name_for_node, must_register, new_flow_sensor, subscribe_topic, subscribe_sensor, at_sensor,
  touch_node, receive_report, new_sensor, count_report,
}
use smarthouse.Nodes.Hellos.{
  flow_of, flows_in, flows_of, Message, each_sensor, create_sensors, setup_sensors, register_node,
  got_hello, handle, run,
}
use smarthouse.Nodes.Valid.{IsValid}
use smarthouse.Nodes.Runs.{run_nodes-IsValid}
use smarthouse.Nodes.Specs.{Entry, IsPlain, spec_text, flows_of-spec_text}
use smarthouse.Nodes.Reports.{report_exact, hello_again, after_report}
use smarthouse.Nodes.Registering.{IsRegistry}
use smarthouse.Nodes.Clashes.{Has, same_prefix_panics}

abbrev pub same_descriptor : Descriptor → Descriptor → Bool
same_descriptor d e = bytes_eq d.metric e.metric && bytes_eq d.node e.node && bytes_eq d.flow e.flow

abbrev pub held : Descriptor → List Descriptor → Bool
held d [] = false
held d (e ∷ es) = same_descriptor d e || held d es

abbrev pub without : Descriptor → List Descriptor → List Descriptor
without d [] = []
without d (e ∷ es) = if same_descriptor d e then es else e ∷ without d es

abbrev pub listing : Registry (List Descriptor)
listing = record {
  register = λ d r. if held d r then (false, r) else (true, d ∷ r);
  unregister = without;
}

listing-IsRegistry : IsRegistry listing (λ d r. held d r ≡ true)
listing-IsRegistry = record {
  refuses = λ d r h. ground arith;
  accepts = λ d r h. ground (
    arith,
    bytes_eq_iff d.metric d.metric,
    bytes_eq_iff d.node d.node,
    bytes_eq_iff d.flow d.flow,
  );
  keeps = λ d e r h. ground arith;
}

abbrev pub willing : Client (List Bytes)
willing = record {
  subscribe = λ topic callback c. (true, topic ∷ c);
  unsubscribe = λ topic c. (true, c);
}

abbrev pub plain_floats : FloatOps
plain_floats = record {
  add = λ x y. y;
  mul = λ x y. x;
  of_int = λ z. 0;
  to_int64 = λ x. pos x;
  parse_float = λ s. none;
}

abbrev pub hello_from : Bytes → Bytes → Hello
hello_from node spec = record {
  received = pos 0;
  node = node;
  version = codes "1.0";
  ip = codes "10.0.0.2";
  low_power = pos 0;
  ota_status = [];
  wifi_ssid = [];
  sensor_spec = spec;
  report_interval = pos 10;
  report_count = pos 0;
  sleep_interval = pos 0;
}

abbrev pub nothing : House (List Descriptor) (List Bytes)
nothing = record { nodes = []; heap = []; next = 0; registry = []; client = [] }

pub nothing-IsValid : IsValid nothing
unfolding lookup
nothing-IsValid = record { heap = λ a s e. ground arith; each = λ name node e. ground arith }

abbrev pub pump_spec : Bytes
pump_spec = codes "main,flow,4"

abbrev pub pump_a : Hello
pump_a = hello_from (codes "pump-a") pump_spec

abbrev pump_b : Hello
pump_b = hello_from (codes "pump-b") pump_spec

abbrev pub after_hello :
    Outcome (House (List Descriptor) (List Bytes)) → House (List Descriptor) (List Bytes)
after_hello (returned h) = h
after_hello panicked = nothing

abbrev pub one_pump : House (List Descriptor) (List Bytes)
one_pump =
    after_hello (handle listing willing plain_floats nothing (pos 5) (Message.hello (some pump_a)))

pump_registered :
    handle listing willing plain_floats nothing (pos 5) (Message.hello (some pump_a))
    ≡ returned one_pump
unfolding handle got_hello register_node setup_sensors each_sensor create_sensors new_flow_sensor
    must_register at_sensor subscribe_sensor subscribe_topic lookup insert flows_of flows_in flow_of
    split name_for_node contains before
pump_registered = refl

-- Four exports, one subscription.
one_pump_counts :
    (map (λ entry. entry.1.sensors) one_pump.nodes ≡ (0 ∷ []) ∷ [])
    × (one_pump.client ≡ codes "smarthouse/pump-a/flow-sensor/main" ∷ [])
unfolding handle got_hello register_node setup_sensors each_sensor create_sensors new_flow_sensor
    must_register at_sensor subscribe_sensor subscribe_topic lookup insert flows_of flows_in flow_of
    split name_for_node contains before
one_pump_counts = (refl, refl)

abbrev pub pump_sensor : FlowSensor
pump_sensor = record (new_sensor (codes "pump-a") (codes "main")) { subscribed = true }

abbrev pub pump_node : Node
pump_node = record {
  name = codes "pump-a";
  config = record pump_a { received = pos 5 };
  last_contact = pos 5;
  sensors = 0 ∷ [];
}

pub pump_found : lookup 0 one_pump.heap ≡ some pump_sensor
unfolding handle got_hello register_node setup_sensors each_sensor create_sensors new_flow_sensor
    must_register at_sensor subscribe_sensor subscribe_topic lookup insert flows_of flows_in flow_of
    split name_for_node contains before
pump_found = refl

pub pump_node_found : lookup (codes "pump-a") one_pump.nodes ≡ some pump_node
unfolding handle got_hello register_node setup_sensors each_sensor create_sensors new_flow_sensor
    must_register at_sensor subscribe_sensor subscribe_topic lookup insert flows_of flows_in flow_of
    split name_for_node contains before
pump_node_found = refl

abbrev pub five_litres : Report
five_litres = record { ml_per_min = 7; flow_ml = 5; total_ml = 5 }

abbrev pub pump_messages : List (Time × Message)
pump_messages =
    (pos 5, Message.hello (some pump_a)) ∷ (pos 9, Message.report 0 (some five_litres)) ∷ []

abbrev pub pumped : House (List Descriptor) (List Bytes)
pumped = after_hello (run listing willing plain_floats nothing pump_messages)

pub pumped_runs : run listing willing plain_floats nothing pump_messages ≡ returned pumped
unfolding run handle got_hello register_node setup_sensors each_sensor create_sensors
    new_flow_sensor must_register at_sensor subscribe_sensor subscribe_topic lookup insert flows_of
    flows_in flow_of split name_for_node contains before receive_report touch_node count_report
pumped_runs = refl

run_nodes-IsValid_example : IsValid pumped
run_nodes-IsValid_example =
    run_nodes-IsValid listing willing plain_floats nothing pumped pump_messages nothing-IsValid
      pumped_runs

report_exact_example :
    (h' : House (List Descriptor) (List Bytes)) × (handle listing willing plain_floats one_pump
        (pos 9)
        (Message.report 0 (some five_litres))
      ≡ returned h')
    × (lookup 0 h'.heap ≡ some (after_report plain_floats pump_sensor (pos 9) (some five_litres)))
    × (lookup (codes "pump-a") h'.nodes ≡ some (record pump_node { last_contact = pos 9 }))
    × ((b : ℕ) → 0 ≢ b → lookup b h'.heap ≡ lookup b one_pump.heap)
    × ((name : Bytes) → codes "pump-a" ≢ name → lookup name h'.nodes ≡ lookup name one_pump.nodes)
report_exact_example =
    report_exact listing willing plain_floats one_pump (pos 9) 0 pump_sensor pump_node
      (some five_litres) pump_found pump_node_found

second_hello :
    handle listing willing plain_floats one_pump (pos 8) (Message.hello (some pump_a))
    ≡ returned (record one_pump {
      nodes =
          insert
            (codes "pump-a")
            (record pump_node { config = record pump_a { received = pos 8 }; last_contact = pos 8 })
            one_pump.nodes;
    })
second_hello =
    hello_again listing willing plain_floats one_pump (pos 8) pump_a pump_node pump_node_found refl

pump_b_new : lookup (codes "pump-b") nothing.nodes ≡ none
unfolding lookup
pump_b_new = refl

pump_a_new : lookup (codes "pump-a") nothing.nodes ≡ none
unfolding lookup
pump_a_new = refl

pumps_differ : codes "pump-a" ≢ codes "pump-b"
pumps_differ e = ground arith

one_label : name_for_node (codes "pump-a") ≡ name_for_node (codes "pump-b")
unfolding name_for_node contains before
one_label = refl

pump_flows : flows_of pump_spec ≡ codes "main" ∷ []
unfolding flows_of flows_in flow_of split
pump_flows = refl

pump-Has : Has (codes "main") (flows_of pump_spec)
pump-Has = rw pump_flows (inl refl)

same_prefix_panics_example :
    handle listing willing plain_floats one_pump (pos 6) (Message.hello (some pump_b)) ≡ panicked
same_prefix_panics_example =
    same_prefix_panics listing willing (λ d r. held d r ≡ true) listing-IsRegistry plain_floats
      nothing one_pump pump_a pump_b (pos 5) (pos 6) (codes "main") nothing-IsValid pump_a_new
      pump_b_new pumps_differ one_label pump-Has pump-Has pump_registered

abbrev two_entries : List Entry
two_entries =
    record { name = codes "main"; kind = codes "flow"; pin = codes "4" }
    ∷ record { name = codes "tank"; kind = codes "flow"; pin = codes "5" }
    ∷ []

two_entries-IsPlain : All IsPlain two_entries
two_entries-IsPlain = ground arith

flows_of-spec_text_example : flows_of (spec_text two_entries) ≡ codes "main" ∷ codes "tank" ∷ []
flows_of-spec_text_example = flows_of-spec_text two_entries two_entries-IsPlain

-- The names of the fields do not matter past the third, and a piece with fewer is passed over.
three_fields : flows_of (codes "a,b,c,d;e,f;g,,") ≡ codes "a" ∷ codes "g" ∷ []
unfolding flows_of flows_in flow_of split
three_fields = refl
