-- ===== src/Ocpp/HttpExamples.antt =====
-- The theorems about ocpp/http.go at a charger with one connector.
use smarthouse.Prelude.{
  ◌-ℤ◌, Bytes, none, false, returned, Returns, pos, some, [], ◌∷◌, codes, true, ◌≡◌, refl, arith,
  int_Eq, bytes_Eq,
}
use smarthouse.GoMap.{lookup}
use smarthouse.GoPath.{split_path, base}
use smarthouse.GoConv.{atoi, itoa}
use smarthouse.Ocpp.Types.{
  new_handler, confirmed, start_accepted, stop_transaction, ChargePointState, CentralSystemHandler,
  idle_connector, new_charge_point, has_transaction_in_progress, has_transaction_ended,
}
use smarthouse.Ocpp.Handler.{started, on_start_transaction, on_stop_transaction}
use smarthouse.Ocpp.Sessions.{stop_of}
use smarthouse.Ocpp.Visit.{pressed, IsCharging, IsIdle, form_session}
use smarthouse.Ocpp.Http.{
  reset_action, HttpRequest, sends, remote_start_transaction, remote_stop_transaction, called_back,
  target, post, check_reset, check_start, check_stop, start_action, stop_action,
}
use smarthouse.Ocpp.HttpGuards.{check_start_guards, check_stop_guards}
use smarthouse.Ocpp.HttpLinks.{start_form, stop_form, form_sends}
use smarthouse.Ocpp.Routes.{submitted}
use smarthouse.Ocpp.PageSpec.{On, forms_of}
use smarthouse.Ocpp.HttpReplies.{Outcomes, serve-Outcomes}
use smarthouse.GoTime.{sub}
use smarthouse.Ocpp.Index.{index, ConnectorEntry}
use smarthouse.Ocpp.ShownRuns.{index_safe}
use smarthouse.Ocpp.Examples.{
  charger, charging_point, charging, start_one, rested, rested_point, day, day_runs, plain_floats,
  measured,
}

-- The connector is there, and free.
abbrev free_point : ChargePointState
free_point = record new_charge_point { connectors = (pos 1, idle_connector) ∷ [] }

abbrev free : CentralSystemHandler
free = record { charge_points = (charger, free_point) ∷ []; next_transaction_id = pos 0 }

abbrev start_request : HttpRequest
start_request = record { method = post; path = codes "/start/CP1/1" }

abbrev stop_request : HttpRequest
stop_request = record { method = post; path = codes "/stop/CP1/0" }

check_start_guards_example : start_request.method ≡ post
unfolding check_start target base split_path atoi lookup has_transaction_in_progress
check_start_guards_example =
    (check_start_guards free start_request (remote_start_transaction charger (codes "1") (pos 1))
      refl).0

check_stop_guards_example : stop_request.method ≡ post
unfolding check_stop target base split_path atoi lookup has_transaction_ended
check_stop_guards_example =
    (check_stop_guards charging stop_request (remote_stop_transaction charger (pos 0)) refl).0

abbrev plain_browser : Bytes → Bytes
plain_browser action = action

form_sends_example :
    On (codes "/start/CP1/1") (forms_of charger free_point.connectors free_point.transactions)
    × (submitted plain_browser free (codes "/start/CP1/1")
        ≡ some (sends (remote_start_transaction charger (codes "1") (pos 1))))
unfolding lookup has_transaction_in_progress start_action itoa
form_sends_example =
    form_sends plain_browser free b'C' (codes "P1") free_point (start_form (pos 1))
      (λ action e. refl) refl refl (omega arith, idle_connector, refl, refl)

stop_sends :
    On
      (codes "/stop/CP1/0")
      (forms_of charger charging_point.connectors charging_point.transactions)
    × (submitted plain_browser charging (codes "/stop/CP1/0")
        ≡ some (sends (remote_stop_transaction charger (pos 0))))
unfolding lookup has_transaction_ended stop_action itoa
stop_sends =
    form_sends plain_browser charging b'C' (codes "P1") charging_point (stop_form (pos 0))
      (λ action e. refl) refl refl (omega arith, started start_one (pos 0), refl, refl, refl)

form_session_example :
    let (accepted, h1) = on_start_transaction free charger start_one in
    let (stopped, h2) = on_stop_transaction h1 charger (stop_of (pos 0) (pos 150) (some (pos 9))) in
    (pressed plain_browser free charger (start_form (pos 1))
      ≡ some (sends (remote_start_transaction charger (codes "1") (pos 1))))
    × (accepted ≡ confirmed (start_accepted (pos 0)))
    × IsCharging plain_browser h1 charger (pos 1) (pos 0)
    × (stopped ≡ confirmed stop_transaction)
    × IsIdle plain_browser h2 charger (pos 1) (pos 0)
unfolding lookup has_transaction_in_progress smarthouse.GoTime.is_zero
form_session_example =
    form_session plain_browser free b'C' (codes "P1") free_point start_one (pos 150) (some (pos 9))
      (λ action e. refl) refl refl (omega arith, idle_connector, refl, refl) (omega arith)
      (omega arith) refl

serve-Outcomes_example :
    Outcomes (check_reset free start_request) (called_back (some true))
    × Outcomes (check_start free start_request) (called_back (some true))
    × Outcomes (check_stop free start_request) (called_back (some true))
serve-Outcomes_example = serve-Outcomes free start_request (called_back (some true))

index_safe_example : Returns (λ entries. Unit) (index true (pos 40000000000) rested)
index_safe_example =
    index_safe plain_floats new_handler rested day true (pos 40000000000) (tt, (tt, (tt, (tt, tt))))
      tt day_runs (omega arith) (tt, tt)

-- Six nanoseconds later the measurements are shown, and the free connector has its form.
shown_at_once :
    index false (pos 12) rested
    ≡ returned (
        record {
          info = rested_point;
          reset_form = codes "/reset/CP1";
          config = [];
          connectors = ConnectorEntry.free (codes "/start/CP1/1") ∷ [];
          transactions =
              record {
                shown = record (started start_one (pos 0)) {
                  end_time = some (pos 9);
                  end_meter = pos 150;
                  last_measurement = measured;
                  measurement_time = pos 6;
                };
                measurement = measured;
                stop_form = none;
              }
              ∷ [];
        }
        ∷ [])
unfolding index sub has_transaction_in_progress has_transaction_ended start_action reset_action itoa
    ◌-ℤ◌
shown_at_once = refl
