-- ===== src/Nodes/PageSpec.antt =====
-- common/smarthouse.go: what the page /nodes is to say of a node, as texts that its section has in order.
use mathlib.Core.List.{append_assoc}
use smarthouse.Prelude.{
  ℕ, pos, int_eq, some, List, [], ◌∷◌, ◌++◌, Bytes, codes, ◌≡◌, refl, sym, ap, ◌∙◌, subst, nat_Eq,
  if◌then◌else◌,
}
use smarthouse.GoMap.{Map, lookup}
use smarthouse.GoTime.{Time}
use smarthouse.GoConv.{itoa}
use smarthouse.GoFormat.{rfc3339}
use smarthouse.Nodes.Types.{Hello, Node, FlowSensor}
use smarthouse.Nodes.Page.{Texts}

-- The text has these pieces, one behind the other.
abbrev pub InOrder : List Bytes → Bytes → Type 0
InOrder [] t = Unit
InOrder (p ∷ ps) t = (pre : Bytes) × (post : Bytes) × (t ≡ pre ++ (p ++ post)) × InOrder ps post

pub only : (p : Bytes) → InOrder (p ∷ []) p
only p = ([], [], sym (append-nil p), tt)
  where
    append-nil : (s : Bytes) → s ++ [] ≡ s
    append-nil [] = refl
    append-nil (c ∷ s) = ap (λ r. c ∷ r) (append-nil s)

longer :
    (pre p post t : Bytes) {s : Bytes} → s ≡ pre ++ (p ++ post) → s ++ t ≡ pre ++ (p ++ (post ++ t))
longer pre p post t e =
    ap (λ r. r ++ t) e ∙ append_assoc pre (p ++ post) t ∙ ap (λ r. pre ++ r) (append_assoc p post t)

pub within : (ps : List Bytes) (s t : Bytes) → InOrder ps s → InOrder ps (s ++ t)
within [] s t h = tt
within (p ∷ ps) s t (pre, post, e, h) = (pre, post ++ t, longer pre p post t e, within ps post t h)

pub after : (ps : List Bytes) (s t : Bytes) → InOrder ps t → InOrder ps (s ++ t)
after [] s t h = tt
after (p ∷ ps) s t (pre, post, e, h) =
    (s ++ pre, post, ap (λ r. s ++ r) e ∙ sym (append_assoc s pre (p ++ post)), h)

pub joined :
    (ps qs : List Bytes) (s t : Bytes) → InOrder ps s → InOrder qs t → InOrder (ps ++ qs) (s ++ t)
joined [] qs s t h k = after qs s t k
joined (p ∷ ps) qs s t (pre, post, e, h) k =
    (pre, post ++ t, longer pre p post t e, joined ps qs post t h k)

pub valued :
    (ps : List Bytes) (s label value : Bytes)
    → InOrder ps s
    → InOrder (ps ++ (label ++ value) ∷ []) ((s ++ label) ++ value)
valued ps s label value h =
    subst (InOrder (ps ++ (label ++ value) ∷ [])) (sym (append_assoc s label value))
      (joined ps ((label ++ value) ∷ []) s (label ++ value) h (only (label ++ value)))

-- A text with pieces that it has in order.
pub record Told : Type 0 where
  pub pieces : List Bytes
  pub whole : Bytes
  pub told : InOrder pieces whole

abbrev pub told_of : (pieces : List Bytes) → (whole : Bytes) → InOrder pieces whole → Told
told_of pieces whole h = record { pieces = pieces; whole = whole; told = h }

abbrev pub all_of : Bytes → Told
all_of p = record { pieces = p ∷ []; whole = p; told = only p }

-- A text behind it changes nothing; nor does one in front.
infixl 6 ◌plain◌ ◌piece◌ ◌also◌
abbrev pub ◌plain◌ : Told → Bytes → Told
a plain t = record {
  pieces = a.pieces;
  whole = a.whole ++ t;
  told = within a.pieces a.whole t a.told;
}

abbrev pub behind : Bytes → Told → Told
behind s a = record {
  pieces = a.pieces;
  whole = s ++ a.whole;
  told = after a.pieces s a.whole a.told;
}

-- A label and its value come next.
abbrev pub ◌piece◌ : Told → Bytes × Bytes → Told
a piece p = record {
  pieces = a.pieces ++ (p.0 ++ p.1) ∷ [];
  whole = (a.whole ++ p.0) ++ p.1;
  told = valued a.pieces a.whole p.0 p.1 a.told;
}

-- The pieces of another text come next.
abbrev pub ◌also◌ : Told → Told → Told
a also b = record {
  pieces = a.pieces ++ b.pieces;
  whole = a.whole ++ b.whole;
  told = joined a.pieces b.pieces a.whole b.whole a.told b.told;
}

-- A setting under its name.
abbrev pub cell : Bytes → Bytes → Bytes
cell name value = codes "<th>" ++ name ++ codes "</th><td>" ++ value ++ codes "</td>"

-- The sensors that the addresses stand for.
abbrev pub Found : Map ℕ FlowSensor → List ℕ → List FlowSensor → Type 0
Found heap [] [] = Unit
Found heap (a ∷ addresses) (s ∷ sensors) = (lookup a heap ≡ some s) × Found heap addresses sensors
Found heap _ _ = ⊥

module _ (texts : Texts) where
  abbrev stamp : Time → Bytes
  stamp t = rfc3339 (texts.offset t) t

  -- The number of reports and the time of sleep are settings of a node at low power.
  abbrev pub power_said : Hello → List Bytes
  power_said hello =
      if int_eq hello.low_power (pos 1)
      then cell (codes "ReportCount") (itoa hello.report_count)
        ∷ cell (codes "SleepInterval") (itoa hello.sleep_interval)
        ∷ []
      else []

  abbrev pub config_said : Hello → List Bytes
  config_said hello =
      cell (codes "Received At") (stamp hello.received)
      ∷ cell (codes "Version") hello.version
      ∷ cell (codes "IP") hello.ip
      ∷ cell (codes "WifiSSID") hello.wifi_ssid
      ∷ cell (codes "SensorSpec") hello.sensor_spec
      ∷ cell (codes "OtaStatus") hello.ota_status
      ∷ cell (codes "ReportInterval") (itoa hello.report_interval)
      ∷ cell (codes "LowPower") (itoa hello.low_power)
      ∷ power_said hello

  abbrev pub sensor_said : FlowSensor → List Bytes
  sensor_said s =
      (codes "FlowSensor for " ++ s.flow)
      ∷ (codes " on " ++ s.node)
      ∷ (codes " @ " ++ stamp s.last_received)
      ∷ (codes ": mL_per_min=" ++ texts.decimal s.ml_per_min)
      ∷ (codes ", last60s_mL=" ++ texts.decimal s.last60s_ml)
      ∷ (codes ", total_mL=" ++ texts.decimal s.total_ml)
      ∷ []

  abbrev pub sensors_said : List FlowSensor → List Bytes
  sensors_said [] = []
  sensors_said (s ∷ sensors) = sensor_said s ++ sensors_said sensors

  -- When it was in contact, as a moment and as told in words.
  abbrev pub contact_said : Time → Node → List Bytes
  contact_said now node =
      (codes "<h2>" ++ node.config.node)
      ∷ (codes "</h2><b>Last Contact:</b>&nbsp;&nbsp;<span title=\"" ++ stamp node.last_contact)
      ∷ (codes "\">" ++ texts.relative node.last_contact now)
      ∷ []

  -- What the section of a node says.
  abbrev pub Says : Time → Map ℕ FlowSensor → Node → Bytes → Type 0
  Says now heap node section =
      (sensors : List FlowSensor) × Found heap node.sensors sensors
      × InOrder ((contact_said now node ++ config_said node.config) ++ sensors_said sensors) section

  -- One section for each of the nodes, and nothing else.
  abbrev pub AllSaid : Time → Map ℕ FlowSensor → Map Bytes Node → Bytes → Type 0
  AllSaid now heap [] body = body ≡ []
  AllSaid now heap (e ∷ entries) body =
      (section : Bytes) × (rest : Bytes) × (body ≡ section ++ rest)
      × Says now heap e.1 section
      × AllSaid now heap entries rest
