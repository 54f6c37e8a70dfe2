-- ===== src/Nodes/Page.antt =====
-- common/smarthouse.go: the page /nodes, as the text that reportNodes writes, and what Prometheus reads
-- of a sensor. Formatting of floats, humanize.RelTime and the local offset are arguments.
use smarthouse.Prelude.{
  ℕ, ℤ, pos, none, some, List, [], ◌∷◌, ◌++◌, Bytes, codes, Bool, true, int_eq, if◌then◌else◌,
  Outcome, returned, panicked, ◌>>=◌, bytes_Eq, nat_Eq,
}
use smarthouse.GoMap.{Map, lookup}
use smarthouse.GoTime.{Time, sub}
use smarthouse.GoConv.{itoa}
use smarthouse.GoStrings.{precedes}
use smarthouse.GoFormat.{rfc3339}
use smarthouse.Float64.{Float64}
use smarthouse.Nodes.Types.{Hello, Node, FlowSensor, House}

-- humanize.RelTime(then, now, "ago", "in the future"), "%f", and the offset of time.Local.
pub record Texts : Type 0 where
  pub relative : Time → Time → Bytes
  pub decimal : Float64 → Bytes
  pub offset : Time → ℤ

-- sort.Strings, of texts that are distinct.
unfoldable pub insert_name : Bytes → List Bytes → List Bytes
insert_name name [] = name ∷ []
insert_name name (other ∷ names) =
    let later = other ∷ insert_name name names in
    if precedes other name then later else name ∷ other ∷ names

unfoldable pub sort_names : List Bytes → List Bytes
unfolding insert_name
sort_names [] = []
sort_names (name ∷ names) = insert_name name (sort_names names)

abbrev pub keys {ℓ} : {V : Type ℓ} → Map Bytes V → List Bytes
keys [] = []
keys (entry ∷ m) = entry.0 ∷ keys m

module _ (texts : Texts) where
  abbrev local_time : Time → Bytes
  local_time t = rfc3339 (texts.offset t) t

  -- Describe
  unfoldable pub describe : Bool → FlowSensor → Bytes
  describe all s =
      let short = codes "FlowSensor for " ++ s.flow ++ codes " on " ++ s.node in
      if all
      then short
        ++ codes " @ "
        ++ local_time s.last_received
        ++ codes ": mL_per_min="
        ++ texts.decimal s.ml_per_min
        ++ codes ", last60s_mL="
        ++ texts.decimal s.last60s_ml
        ++ codes ", total_mL="
        ++ texts.decimal s.total_ml
      else short

  abbrev pub table_row : Bytes → Bytes → Bytes
  table_row name value =
      codes "<tr><th>" ++ name ++ codes "</th><td>" ++ value ++ codes "</td></tr>"

  -- The rows of a node's configuration.
  unfoldable pub config_rows : Hello → Bytes
  config_rows hello =
      table_row (codes "Received At") (local_time hello.received)
      ++ table_row (codes "Version") hello.version
      ++ table_row (codes "IP") hello.ip
      ++ table_row (codes "WifiSSID") hello.wifi_ssid
      ++ table_row (codes "SensorSpec") hello.sensor_spec
      ++ table_row (codes "OtaStatus") hello.ota_status
      ++ table_row (codes "ReportInterval") (itoa hello.report_interval)
      ++ table_row (codes "LowPower") (itoa hello.low_power)
      ++ (if int_eq hello.low_power (pos 1)
          then table_row (codes "ReportCount") (itoa hello.report_count)
            ++ table_row (codes "SleepInterval") (itoa hello.sleep_interval)
          else [])

  -- The items of a node's sensors; a pointer to none panics.
  unfoldable pub sensor_items : Map ℕ FlowSensor → List ℕ → Outcome Bytes
  unfolding describe
  sensor_items heap [] = returned []
  sensor_items heap (a ∷ sensors) = elim (lookup a heap) [
    | none ↦ panicked
    | some s ↦ sensor_items heap sensors >>= λ rest.
        returned (codes "<li>" ++ describe true s ++ codes "</li>" ++ rest)
  ]

  -- What the loop writes for a node.
  unfoldable pub node_section : Time → Map ℕ FlowSensor → Node → Outcome Bytes
  unfolding sensor_items config_rows
  node_section now heap node = sensor_items heap node.sensors >>= λ items. returned (
      codes "<h2>"
      ++ node.config.node
      ++ codes "</h2><b>Last Contact:</b>&nbsp;&nbsp;<span title=\""
      ++ local_time node.last_contact
      ++ codes "\">"
      ++ texts.relative node.last_contact now
      ++ codes "</span><table><tr><th>Setting</th><th>Value</th></tr>"
      ++ config_rows node.config
      ++ codes "</table><ul>"
      ++ items
      ++ codes "</ul><br/><br/>")

  -- The loop over the names; a name that is not there gives a nil pointer.
  unfoldable pub sections : Time → Map ℕ FlowSensor → Map Bytes Node → List Bytes → Outcome Bytes
  unfolding node_section
  sections now heap nodes [] = returned []
  sections now heap nodes (name ∷ names) = elim (lookup name nodes) [
    | none ↦ panicked
    | some node ↦ node_section now heap node >>= λ section.
        sections now heap nodes names >>= λ rest. returned (section ++ rest)
  ]

  -- reportNodes
  unfoldable pub report_nodes : {R C : Type 0} → Time → House R C → Outcome Bytes
  unfolding sections sort_names
  report_nodes now h = sections now h.heap h.nodes (sort_names (keys h.nodes)) >>= λ body.
      returned (codes "<html><body><H1>Nodes</H1>" ++ body ++ codes "</body></html>")

-- What the functions of a sensor's four exports give, in the order of their registration: the age is
-- counted from the last contact of the sensor's node.
unfoldable pub exported :
    {R C : Type 0} → (ℤ → Float64) → Time → House R C → ℕ → Outcome (List Float64)
exported seconds now h a = elim (lookup a h.heap) [
  | none ↦ panicked
  | some s ↦ elim (lookup s.node h.nodes) [
    | none ↦ panicked
    | some node ↦
        returned
          (s.ml_per_min ∷ s.last60s_ml ∷ s.total_ml ∷ seconds (sub now node.last_contact) ∷ [])
  ]
]
