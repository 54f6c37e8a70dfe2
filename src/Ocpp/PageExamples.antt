-- ===== src/Ocpp/PageExamples.antt =====
-- The text of the index page of ocpp/http.go at a charger with one connector.
use smarthouse.Prelude.{
  pos, ◌-ℤ◌, List, [], ◌∷◌, Bytes, codes, bytes_Eq, false, ◌≡◌, refl, Outcome, returned, panicked,
  Alike,
}
use smarthouse.Ocpp.Types.{
  ChargePointState, no_boot_data, has_transaction_in_progress, has_transaction_ended,
}
use smarthouse.Ocpp.Index.{index, providing, ordered_transactions}
use smarthouse.GoTime.{sub}
use smarthouse.GoConv.{itoa}
use smarthouse.Ocpp.Http.{reset_action, start_action}
use smarthouse.Ocpp.PageText.{PageFormats, index_text}
use smarthouse.Ocpp.Markup.{actions, is_plain-Plain}
use smarthouse.Ocpp.PageForms.{PlainPoint}
use smarthouse.Ocpp.PageSpec.{PageForms}
use smarthouse.Ocpp.PageRead.{AreQuiet}
use smarthouse.Ocpp.PageActions.{actions-index_text}
use smarthouse.Ocpp.Examples.{charger, rested, rested_point}

abbrev plain_formats : PageFormats
plain_formats = record { tenths = λ x. codes "0.0"; moment = λ t. codes "<nil>"; query = [] }

plain_formats-AreQuiet : AreQuiet plain_formats
plain_formats-AreQuiet = record {
  tenths = λ x. record { reads = λ rest. refl };
  moment = λ t. record { reads = λ rest. refl };
  query = record { reads = λ rest. refl };
}

rested-PlainPoint : PlainPoint (charger, rested_point)
rested-PlainPoint = record {
  name = is_plain-Plain charger refl;
  vendor = tt;
  model = tt;
  serial = tt;
  firmware = tt;
  status = tt;
  diagnostics = tt;
  updates = tt;
  config = tt;
  connectors = (tt, tt);
  tags = (is_plain-Plain (codes "tag") refl, tt);
}

actions-index_text_example :
    Alike
      (λ page entries. PageForms rested.charge_points (actions page))
      (index_text plain_formats false (pos 12) rested)
      (index false (pos 12) rested)
actions-index_text_example =
    actions-index_text plain_formats false (pos 12) rested plain_formats-AreQuiet
      (rested-PlainPoint, tt)

-- A charge point whose vendor is a form brings it to the page.
abbrev forged_point : ChargePointState
forged_point = record rested_point {
  boot_data = record no_boot_data {
    charge_point_vendor = codes "<form method=\"post\" action=\"/start/CP2/1\">";
  };
}

abbrev actions_of : Outcome Bytes → List Bytes
actions_of panicked = []
actions_of (returned page) = actions page

form_forged :
    actions_of (
      index_text plain_formats false
        (pos 12)
        (record rested { charge_points = (charger, forged_point) ∷ [] }))
    ≡ codes "/start/CP2/1" ∷ codes "/reset/CP1" ∷ codes "/start/CP1/1" ∷ []
unfolding index_text has_transaction_in_progress ordered_transactions providing sub ◌-ℤ◌
    reset_action itoa start_action has_transaction_ended
form_forged = refl
