-- ===== src/Nodes/Registering.antt =====
-- common/smarthouse.go: MustRegister on the four exports of a sensor, over a registry that refuses what
-- it holds.
use smarthouse.Prelude.{
  codes, ◌≡◌, refl, subst, arith, List, [], ◌∷◌, Bytes, true, false, returned, panicked, nat_Eq,
  bytes_Eq,
}
use smarthouse.Nodes.Types.{Descriptor, Registry}
use smarthouse.Nodes.Sensors.{must_register, name_for_node}

-- What the program relies on of Prometheus' registry: a descriptor that is held is refused, one that
-- is accepted is held, and what is held stays held through a registration.
pub record IsRegistry {R : Type 0} (registry : Registry R) (Held : Descriptor → R → Type 0)
    : Type 0 where
  pub refuses : (d : Descriptor) (r : R) → Held d r → (registry.register d r).0 ≡ false
  pub accepts :
      (d : Descriptor) (r : R) → (registry.register d r).0 ≡ true → Held d (registry.register d r).1
  pub keeps : (d e : Descriptor) (r : R) → Held e r → Held e (registry.register d r).1

-- The first descriptor of a sensor, whose labels are those of all four.
abbrev pub rate_descriptor : Bytes → Bytes → Descriptor
rate_descriptor node flow = record {
  metric = codes "mL_per_min";
  node = name_for_node node;
  flow = flow;
}

abbrev pub other_descriptors : Bytes → Bytes → List Descriptor
other_descriptors node flow =
    record { metric = codes "last60s_mL"; node = name_for_node node; flow = flow }
    ∷ record { metric = codes "total_mL"; node = name_for_node node; flow = flow }
    ∷ record { metric = codes "report_age_s"; node = name_for_node node; flow = flow }
    ∷ []

module _ {R : Type 0} (registry : Registry R) (Held : Descriptor → R → Type 0)
    (is : IsRegistry registry Held) where
  must_register-step :
      (d : Descriptor) (ds : List Descriptor) (r r' : R)
      → must_register registry (d ∷ ds) r ≡ returned r'
      → ((registry.register d r).0 ≡ true)
        × (must_register registry ds (registry.register d r).1 ≡ returned r')
  unfolding must_register
  must_register-step d ds r r' x = ground arith

  pub must_register-keeps :
      (ds : List Descriptor) (e : Descriptor) (r r' : R)
      → Held e r
      → must_register registry ds r ≡ returned r'
      → Held e r'
  unfolding must_register
  must_register-keeps [] e r r' h x = subst (Held e) (ground arith) h
  must_register-keeps (d ∷ ds) e r r' h x =
      must_register-keeps ds e (registry.register d r).1 r' (is.keeps d e r h)
        (must_register-step d ds r r' x).1

  pub must_register-holds :
      (d : Descriptor) (ds : List Descriptor) (r r' : R)
      → must_register registry (d ∷ ds) r ≡ returned r'
      → Held d r'
  must_register-holds d ds r r' x =
      let (ok, rest) = must_register-step d ds r r' x in
      must_register-keeps ds d (registry.register d r).1 r' (is.accepts d r ok) rest

  pub must_register-refuses :
      (d : Descriptor) (ds : List Descriptor) (r : R)
      → Held d r
      → must_register registry (d ∷ ds) r ≡ panicked
  unfolding must_register
  must_register-refuses d ds r h = rw (is.refuses d r h) refl
