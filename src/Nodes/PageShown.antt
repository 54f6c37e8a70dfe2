-- ===== src/Nodes/PageShown.antt =====
-- What the page of common/smarthouse.go shows of a valid state.
use mathlib.Core.List.{append_assoc}
use smarthouse.Prelude.{
  ℕ, ℤ, some, List, [], ◌∷◌, ◌++◌, Bytes, codes, ◌≡◌, bytes_Eq, nat_Eq, Outcome, returned, ◌>>=◌,
  ap, sym,
}
use smarthouse.GoMap.{Map, lookup}
use smarthouse.GoTime.{Time, sub}
use smarthouse.Float64.{Float64, FloatOps}
use smarthouse.Nodes.Types.{Node, FlowSensor, House, Registry, Client, Report}
use smarthouse.Nodes.Sensors.{count_report}
use smarthouse.Nodes.Hellos.{Message, handle}
use smarthouse.Nodes.Reports.{report_exact}
use smarthouse.Nodes.PageSpec.{Told, cell}
use smarthouse.Nodes.Page.{Texts, table_row, node_section, exported}

module _ (texts : Texts) where
  -- A row of the table of the configuration.
  abbrev row : Bytes → Bytes → Told
  row name value = record {
    pieces = cell name value ∷ [];
    whole = table_row texts name value;
    told = (
      codes "<tr>",
      codes "</tr>",
      ap (λ r. codes "<tr>" ++ r)
          (sym (
            append_assoc (codes "<th>" ++ name ++ codes "</th><td>" ++ value) (codes "</td>")
              (codes "</tr>"))),
      tt,
    );
  }

  -- The sections of entries, in their order.
  unfoldable entry_sections : Time → Map ℕ FlowSensor → Map Bytes Node → Outcome Bytes
  entry_sections now heap [] = returned []
  entry_sections now heap (e ∷ entries) = node_section texts now heap e.1 >>= λ section.
      entry_sections now heap entries >>= λ rest. returned (section ++ rest)

-- A scrape after a report whose payload decodes gives the reported rate, the two counters with the
-- reported flow added, and the time since the report.
pub exported_after_report :
    {R C : Type 0} (registry : Registry R) (client : Client C) (f : FloatOps)
    (seconds : ℤ → Float64) (h : House R C) (now later : Time) (a : ℕ) (s : FlowSensor)
    (node : Node) (report : Report)
    → lookup a h.heap ≡ some s
    → lookup s.node h.nodes ≡ some node
    → (handle registry client f h now (Message.report a (some report)) >>= λ h'.
        exported seconds later h' a)
      ≡ returned (
          report.ml_per_min
          ∷ f.add s.last60s_ml report.flow_ml
          ∷ f.add s.total_ml report.flow_ml
          ∷ seconds (sub later now)
          ∷ [])
unfolding exported count_report
exported_after_report registry client f seconds h now later a s node report e en =
    let (h', ran, sensor, contact, _, _) =
      report_exact registry client f h now a s node (some report) e en in
    rw (ran, sensor, contact, exported)
