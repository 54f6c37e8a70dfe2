-- ===== src/Nodes/PageExamples.antt =====
-- The page of common/smarthouse.go, and a scrape, with one pump.
use smarthouse.Prelude.{pos, some, [], ◌∷◌, codes, ◌≡◌, refl, bytes_Eq, nat_Eq, returned, ◌>>=◌}
use smarthouse.GoConv.{itoa}
use smarthouse.GoStrings.{precedes}
use smarthouse.Nodes.Hellos.{Message, handle}
use smarthouse.Nodes.Examples.{
  listing, willing, plain_floats, one_pump, pump_sensor, pump_node, five_litres, pump_found,
  pump_node_found,
}
use smarthouse.Nodes.Page.{Texts, exported, sort_names}
use smarthouse.Nodes.PageShown.{exported_after_report}

abbrev plain_texts : Texts
plain_texts = record {
  relative = λ t now. codes "now";
  decimal = λ x. itoa (pos x);
  offset = λ t. pos 0;
}

in_order :
    sort_names (codes "b" ∷ codes "ab" ∷ codes "a" ∷ []) ≡ codes "a" ∷ codes "ab" ∷ codes "b" ∷ []
unfolding sort_names precedes
in_order = refl

exported_after_report_example :
    (handle listing willing plain_floats one_pump (pos 9) (Message.report 0 (some five_litres))
      >>= λ h'. exported (λ n. 1) (pos 20) h' 0)
    ≡ returned (7 ∷ 5 ∷ 5 ∷ 1 ∷ [])
exported_after_report_example =
    exported_after_report listing willing plain_floats (λ n. 1) one_pump (pos 9) (pos 20) 0
      pump_sensor pump_node five_litres pump_found pump_node_found
