-- ===== src/Nodes/Clashes.antt =====
-- common/smarthouse.go: MustRegister panics on a label that is taken, and nameForNode gives one label to
-- many nodes.
use smarthouse.Prelude.{
  ◌∙◌, suc, Outcome-cases, ◌⊎◌, codes, ℕ, ◌≡◌, ◌≢◌, refl, sym, ap, subst, arith, some, none, List,
  [], ◌∷◌, Bytes, returned, panicked, >>=-eq-returned, nat_Eq, bytes_Eq, inl, inr,
}
use smarthouse.GoMap.{lookup, insert, lookup-insert_other}
use smarthouse.GoTime.{Time}
use smarthouse.Float64.{FloatOps}
use smarthouse.Nodes.Valid.{IsValid}
use smarthouse.Nodes.Setup.{setup_sensors-Keeps}
use smarthouse.Nodes.Types.{Hello, Node, Descriptor, Registry, Client, House}
use smarthouse.Nodes.Sensors.{
  put_sensor, new_sensor, descriptors, must_register, new_flow_sensor, name_for_node, at_sensor,
  subscribe_sensor, subscribe_topic, unsubscribe_sensor,
}
use smarthouse.Nodes.Hellos.{
  flows_of, each_sensor, create_sensors, setup_sensors, register_node, got_hello, Message, handle,
}
use smarthouse.Nodes.Registering.{
  IsRegistry, rate_descriptor, other_descriptors, must_register-keeps, must_register-holds,
  must_register-refuses,
}

-- The flow is one of a list.
abbrev pub Has : Bytes → List Bytes → Type 0
Has flow [] = ⊥
Has flow (g ∷ flows) = (g ≡ flow) ⊎ Has flow flows

module _ {R C : Type 0} (registry : Registry R) (client : Client C) (Held : Descriptor → R → Type 0)
    (is : IsRegistry registry Held) where
  -- A sensor that is made holds its label, and what was held before.
  new_flow_sensor-holds :
      (h h' : House R C) (node flow : Bytes) (a : ℕ)
      → new_flow_sensor registry h node flow ≡ returned (a, h')
      → Held (rate_descriptor node flow) h'.registry
        × ((e : Descriptor) → Held e h.registry → Held e h'.registry)
  unfolding new_flow_sensor
  new_flow_sensor-holds h h' node flow a x =
      let (r, ran, out) =
        >>=-eq-returned (must_register registry (descriptors node flow) h.registry) _ x in
      let h1 =
        put_sensor (record h { next = suc h.next; registry = r }) h.next (new_sensor node flow) in
      subst
        (λ (p : ℕ × House R C).
          Held (rate_descriptor node flow) p.1.registry
          × ((e : Descriptor) → Held e h.registry → Held e p.1.registry))
        {x = (h.next, h1)} {y = (a, h')} (ground arith)
        (
          must_register-holds registry Held is (rate_descriptor node flow)
              (other_descriptors node flow) h.registry r ran,
          (λ e held.
              must_register-keeps registry Held is (descriptors node flow) e h.registry r held ran),
        )

  subscribe_sensor-registry :
      (h : House R C) (a : ℕ) → (at_sensor (subscribe_sensor client) h a).registry ≡ h.registry
  unfolding at_sensor subscribe_sensor subscribe_topic unsubscribe_sensor
  subscribe_sensor-registry h a = ground arith

  create_sensors-holds :
      (h h' : House R C) (node : Bytes) (flows : List Bytes) (sensors : List ℕ)
      → create_sensors registry client h node flows ≡ returned (sensors, h')
      → ((flow : Bytes) → Has flow flows → Held (rate_descriptor node flow) h'.registry)
        × ((e : Descriptor) → Held e h.registry → Held e h'.registry)
  unfolding create_sensors
  create_sensors-holds h h' node [] sensors x =
      subst
        (λ (p : List ℕ × House R C).
          ((g : Bytes) → Has g [] → Held (rate_descriptor node g) p.1.registry)
          × ((e : Descriptor) → Held e h.registry → Held e p.1.registry))
        {x = ([], h)} {y = (sensors, h')} (ground arith) ((λ g has. absurd has), (λ e held. held))
  create_sensors-holds h h' node (flow ∷ flows) sensors x =
      let ((a, h1), ran, rest) = >>=-eq-returned (new_flow_sensor registry h node flow) _ x in
      let h2 = at_sensor (subscribe_sensor client) h1 a in
      let ((others, h3), ran', out) =
        >>=-eq-returned (create_sensors registry client h2 node flows) _ rest in
      let (held, keeps) = new_flow_sensor-holds h h1 node flow a ran in
      let (all_held, keeps') = create_sensors-holds h2 h3 node flows others ran' in
      let through = λ (e : Descriptor) (y : Held e h1.registry).
        keeps' e (subst (Held e) (sym (subscribe_sensor-registry h1 a)) y) in
      subst
        (λ (p : List ℕ × House R C).
          ((g : Bytes) → Has g (flow ∷ flows) → Held (rate_descriptor node g) p.1.registry)
          × ((e : Descriptor) → Held e h.registry → Held e p.1.registry))
        {x = (a ∷ others, h3)} {y = (sensors, h')} (ground arith)
        (
          (λ g has. elim has [
            | inl same ↦
                subst (λ f. Held (rate_descriptor node f) h3.registry) same
                  (through (rate_descriptor node flow) held)
            | inr later ↦ all_held g later
          ]),
          (λ e y. through e (keeps e y)),
        )

  -- One label that is held stops the loop.
  create_sensors-refuses :
      (h : House R C) (node flow : Bytes) (flows : List Bytes)
      → Has flow flows
      → Held (rate_descriptor node flow) h.registry
      → create_sensors registry client h node flows ≡ panicked
  unfolding create_sensors new_flow_sensor
  create_sensors-refuses h node flow [] has held = absurd has
  create_sensors-refuses h node flow (g ∷ flows) (inl same) held =
      rw
        (must_register-refuses registry Held is (rate_descriptor node g) (other_descriptors node g)
          h.registry (subst (λ f. Held (rate_descriptor node f) h.registry) (sym same) held))
        refl
  create_sensors-refuses h node flow (g ∷ flows) (inr later) held =
      elim (Outcome-cases (new_flow_sensor registry h node g)) [
        | inl failed ↦ rw failed refl
        | inr ((a, h1), ran) ↦
            rw
              (
                ran,
                create_sensors-refuses (at_sensor (subscribe_sensor client) h1 a) node flow flows
                    later
                    (subst (Held (rate_descriptor node flow)) (sym (subscribe_sensor-registry h1 a))
                      ((new_flow_sensor-holds h h1 node g a ran).1 (rate_descriptor node flow)
                        held)),
              )
              refl
      ]

  -- A node that says hello first holds the labels of its flows.
  register_node-holds :
      (h h' : House R C) (config : Hello) (now : Time) (flow : Bytes)
      → IsValid h
      → Has flow (flows_of config.sensor_spec)
      → register_node registry client h config now ≡ returned h'
      → Held (rate_descriptor config.node flow) h'.registry
        × ((name : Bytes) → config.node ≢ name → lookup name h'.nodes ≡ lookup name h.nodes)
  unfolding register_node setup_sensors each_sensor
  register_node-holds h h' config now flow v has x =
      let new_node : Node = record {
        name = config.node;
        config = config;
        last_contact = now;
        sensors = [];
      } in
      let ((node, h1), ran, out) = >>=-eq-returned (setup_sensors registry client h new_node) _ x in
      let ((sensors, h2), made, out1) =
        >>=-eq-returned (create_sensors registry client h config.node (flows_of config.sensor_spec))
          _ ran in
      let (k, _) =
        setup_sensors-Keeps registry client h h1 config.node new_node node v.heap refl refl ran in
      let (held, _) =
        create_sensors-holds h h2 config.node (flows_of config.sensor_spec) sensors made in
      subst
        (λ (y : House R C).
          Held (rate_descriptor config.node flow) y.registry
          × ((name : Bytes) → config.node ≢ name → lookup name y.nodes ≡ lookup name h.nodes))
        {x = record h1 { nodes = insert config.node node h1.nodes }} {y = h'} (ground arith)
        (
          subst (λ (p : Node × House R C). Held (rate_descriptor config.node flow) p.1.registry)
              {x = (record new_node { sensors = sensors }, h2)} {y = (node, h1)} (ground arith)
              (held flow has),
          (λ name d.
              lookup-insert_other config.node name node h1.nodes d ∙ ap (lookup name) k.nodes),
        )

  register_node-refuses :
      (h : House R C) (config : Hello) (now : Time) (flow : Bytes)
      → Has flow (flows_of config.sensor_spec)
      → Held (rate_descriptor config.node flow) h.registry
      → register_node registry client h config now ≡ panicked
  unfolding register_node setup_sensors each_sensor
  register_node-refuses h config now flow has held =
      rw (create_sensors-refuses h config.node flow (flows_of config.sensor_spec) has held) refl

  -- Of two new nodes whose names agree up to their first dash and whose specifications share a flow,
  -- the second one's hello panics, once the first one's has been handled.
  pub same_prefix_panics :
      (f : FloatOps) (h h' : House R C) (a b : Hello) (now later : Time) (flow : Bytes)
      → IsValid h
      → lookup a.node h.nodes ≡ none
      → lookup b.node h.nodes ≡ none
      → a.node ≢ b.node
      → name_for_node a.node ≡ name_for_node b.node
      → Has flow (flows_of a.sensor_spec)
      → Has flow (flows_of b.sensor_spec)
      → handle registry client f h now (Message.hello (some a)) ≡ returned h'
      → handle registry client f h' later (Message.hello (some b)) ≡ panicked
  unfolding handle got_hello
  same_prefix_panics f h h' a b now later flow v new_a new_b differ prefix has_a has_b x =
      let (held, others) =
        register_node-holds h h' (record a { received = now }) now flow v has_a (ground arith) in
      rw (others b.node differ, new_b, got_hello)
        (register_node-refuses h' (record b { received = later }) later flow has_b
          (subst
            (λ n. Held (record { metric = codes "mL_per_min"; node = n; flow = flow }) h'.registry)
            prefix held))
