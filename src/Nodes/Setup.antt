-- ===== src/Nodes/Setup.antt =====
-- common/smarthouse.go: the new sensors of SetupSensors, and that a hello keeps the
-- invariant.
use smarthouse.Prelude.{
  ℕ, suc, List, [], ◌∷◌, ◌≡◌, refl, arith, some, inl, inr, Option-cases, Bool-cases, nat_Eq, Bytes,
  subst, returned, >>=-eq-returned, ==_iff, bytes_Eq, ◌==◌,
}
use smarthouse.GoMap.{lookup, lookup-insert, lookup-insert_cases}
use smarthouse.GoTime.{Time}
use smarthouse.Nodes.Types.{Hello, Node, Registry, Client, House}
use smarthouse.Nodes.Sensors.{
  new_flow_sensor, descriptors, must_register, new_sensor, put_sensor, subscribe_sensor, at_sensor,
  shutdown_sensor,
}
use smarthouse.Nodes.Hellos.{
  flows_of, each_sensor, create_sensors, setup_sensors, register_node, reconfigure, update_node,
  got_hello,
}
use smarthouse.Nodes.Valid.{
  label_for, label_at, label_at-bound, IsHeap, IsNode, IsValid, AreSensors, Keeps, same-Keeps,
  trans-Keeps, put_node-IsValid,
}
use smarthouse.Nodes.Steps

module _ {R C : Type 0} where
  -- A new sensor takes an address that nothing stands at.
  add_sensor-Keeps :
      (h : House R C) (r : R) (node flow : Bytes)
      → IsHeap h.heap h.next
      → (let h' =
            put_sensor
              (record h { next = suc h.next; registry = r })
              h.next
              (new_sensor node flow) in
          Keeps h h' × (label_at h'.heap h.next ≡ some (label_for node flow)))
  unfolding label_at
  add_sensor-Keeps h r node flow v = (
    record {
      nodes = refl;
      extends = λ b m eb. ground (
        arith,
        label_at-bound h.heap h.next b m v eb,
        lookup-insert h.next b (new_sensor node flow) h.heap,
        ==_iff h.next b,
      );
      heap = λ b t eb. elim (lookup-insert_cases h.next b (new_sensor node flow) t h.heap eb) [
        | inl (ea, es) ↦ (omega arith, subst (λ x. x.last60s_ml ≡ x.total_ml) es refl)
        | inr el ↦ (omega (arith, (v b t el).0), (v b t el).1)
      ];
    },
    ground (arith, lookup-insert h.next h.next (new_sensor node flow) h.heap, ==_iff h.next h.next),
  )

module _ {R C : Type 0} (registry : Registry R) (client : Client C) where
  new_flow_sensor-Keeps :
      (h h' : House R C) (node flow : Bytes) (a : ℕ)
      → IsHeap h.heap h.next
      → new_flow_sensor registry h node flow ≡ returned (a, h')
      → Keeps h h' × (label_at h'.heap a ≡ some (label_for node flow))
  unfolding new_flow_sensor
  new_flow_sensor-Keeps h h' node flow a v e =
      let (r, ran, out) =
        >>=-eq-returned (must_register registry (descriptors node flow) h.registry) _ e in
      subst
        (λ (p : ℕ × House R C). Keeps h p.1 × (label_at p.1.heap p.0 ≡ some (label_for node flow)))
        (ground arith) (add_sensor-Keeps h r node flow v)

  create_sensors-Keeps :
      (h h' : House R C) (node : Bytes) (flows : List Bytes) (sensors : List ℕ)
      → IsHeap h.heap h.next
      → create_sensors registry client h node flows ≡ returned (sensors, h')
      → Keeps h h' × AreSensors h'.heap node sensors flows
  unfolding create_sensors AreSensors
  create_sensors-Keeps h h' node [] sensors v e =
      subst (λ (p : List ℕ × House R C). Keeps h p.1 × AreSensors p.1.heap node p.0 [])
        {x = ([], h)} (ground arith) (same-Keeps h h v refl refl refl, tt)
  create_sensors-Keeps h h' node (flow ∷ flows) sensors v e =
      let ((a, h1), ran, rest) = >>=-eq-returned (new_flow_sensor registry h node flow) _ e in
      let h2 = at_sensor (subscribe_sensor client) h1 a in
      let ((others, h3), ran', out) =
        >>=-eq-returned (create_sensors registry client h2 node flows) _ rest in
      let (k1, la) = new_flow_sensor-Keeps h h1 node flow a v ran in
      let k2 =
        Steps.at_sensor-Keeps (subscribe_sensor client) h1 a k1.heap
          (λ s es. Steps.subscribe_sensor-Keeps client h1 a s k1.heap es) in
      let (k3, others_are) = create_sensors-Keeps h2 h3 node flows others k2.heap ran' in
      subst (λ (p : List ℕ × House R C). Keeps h p.1 × AreSensors p.1.heap node p.0 (flow ∷ flows))
        {x = (a ∷ others, h3)} (ground arith)
        (
          trans-Keeps h h1 h3 k1 (trans-Keeps h1 h2 h3 k2 k3),
          (k3.extends a (label_for node flow) (k2.extends a (label_for node flow) la), others_are),
        )

  pub setup_sensors-Keeps :
      (h h' : House R C) (name : Bytes) (node node' : Node)
      → IsHeap h.heap h.next
      → node.name ≡ name
      → node.config.node ≡ name
      → setup_sensors registry client h node ≡ returned (node', h')
      → Keeps h h' × IsNode h'.heap name node'
  unfolding setup_sensors
  setup_sensors-Keeps h h' name node node' v en ec e =
      let h1 = each_sensor (at_sensor (shutdown_sensor registry client)) h node.sensors in
      let flows = flows_of node.config.sensor_spec in
      let ((sensors, h2), ran, out) =
        >>=-eq-returned (create_sensors registry client h1 node.name flows) _ e in
      let k1 =
        Steps.each_sensor-Keeps (at_sensor (shutdown_sensor registry client)) h node.sensors
          (λ m a w.
            Steps.at_sensor-Keeps (shutdown_sensor registry client) m a w
              (λ s es. Steps.shutdown_sensor-Keeps registry client m a s w es))
          v in
      let (k2, are) = create_sensors-Keeps h1 h2 node.name flows sensors k1.heap ran in
      subst (λ (p : Node × House R C). Keeps h p.1 × IsNode p.1.heap name p.0)
        {x = (record node { sensors = sensors }, h2)} {y = (node', h')} (ground arith)
        (
          trans-Keeps h h1 h2 k1 k2,
          (en, ec, subst (λ n. AreSensors h2.heap n sensors flows) en are),
        )

  register_node-IsValid :
      (h h' : House R C) (config : Hello) (now : Time)
      → IsValid h
      → register_node registry client h config now ≡ returned h'
      → IsValid h'
  unfolding register_node
  register_node-IsValid h h' config now v e =
      let ((node, h1), ran, out) = >>=-eq-returned (setup_sensors registry client h _) _ e in
      let (k, is) = setup_sensors-Keeps h h1 config.node _ node v.heap refl refl ran in
      subst IsValid (ground arith) (put_node-IsValid h h1 config.node node v k is)

  reconfigure-Keeps :
      (h h1 : House R C) (config : Hello) (node updated : Node)
      → IsHeap h.heap h.next
      → IsNode h.heap config.node node
      → reconfigure registry client h config node ≡ returned (updated, h1)
      → Keeps h h1 × IsNode h1.heap config.node updated
  unfolding reconfigure
  reconfigure-Keeps h h1 config node updated v (en, ec, are) e =
      elim (Bool-cases (node.config.sensor_spec == config.sensor_spec)) [
        | inl same ↦
            subst (λ (p : Node × House R C). Keeps h p.1 × IsNode p.1.heap config.node p.0)
              {x = (record node { config = config }, h)} {y = (updated, h1)} (ground arith)
              (
                same-Keeps h h v refl refl refl,
                (
                  en,
                  refl,
                  subst (λ spec. AreSensors h.heap config.node node.sensors (flows_of spec))
                      ((==_iff node.config.sensor_spec config.sensor_spec).0 same) are,
                ),
              )
        | inr differ ↦
            setup_sensors-Keeps h h1 config.node (record node { config = config }) updated v en refl
              (ground arith)
      ]

  update_node-IsValid :
      (h h' : House R C) (config : Hello) (now : Time) (node : Node)
      → IsValid h
      → lookup config.node h.nodes ≡ some node
      → update_node registry client h config now node ≡ returned h'
      → IsValid h'
  unfolding update_node
  update_node-IsValid h h' config now node v found e =
      let ((updated, h1), ran, out) =
        >>=-eq-returned (reconfigure registry client h config node) _ e in
      let (k, is) =
        reconfigure-Keeps h h1 config node updated v.heap (v.each config.node node found) ran in
      subst IsValid (ground arith)
        (put_node-IsValid h h1 config.node (record updated { last_contact = now }) v k is)

  pub got_hello-IsValid :
      (h h' : House R C) (config : Hello) (now : Time)
      → IsValid h
      → got_hello registry client h config now ≡ returned h'
      → IsValid h'
  unfolding got_hello
  got_hello-IsValid h h' config now v e =
      let received = record config { received = now } in
      elim (Option-cases (lookup config.node h.nodes)) [
        | inl new ↦ register_node-IsValid h h' received now v (ground arith)
        | inr (node, found) ↦ update_node-IsValid h h' received now node v found (ground arith)
      ]
