-- ===== src/Ocpp/Errors.antt =====
-- The error paths of ocpp/handler.go: a callback that fails, or that is for a charge point which is
-- not connected, leaves the state as it was.
use smarthouse.Prelude.{
  ℤ, pos, leb_ℤ, Option, none, some, true, false, ◌≡◌, ◌≢◌, refl, arith, bytes_Eq, int_Eq, List, [],
  ◌∷◌, inl, inr, Option-cases, Bytes, returned,
}
use smarthouse.GoMap.{lookup, insert-lookup, delete-absent}
use smarthouse.GoTime.{Time}
use smarthouse.Float64.{FloatOps}
use smarthouse.Ocpp.Types.{
  ChargePointState, CentralSystemHandler, MeterValue, MeterValuesRequest, Error, failed,
  StartTransactionRequest,
}
use smarthouse.Ocpp.Handler.{
  get_connector, process_meter_values, process_all, on_authorize, on_heartbeat, on_data_transfer,
  on_meter_values, on_boot_notification, on_status_notification, on_start_transaction, start_on,
  on_stop_transaction, on_diagnostics_status_notification, on_firmware_status_notification,
  on_config,
}
use smarthouse.Ocpp.Events.{Message, on_disconnect, handle}
use smarthouse.Ocpp.Frame.{Panics}

-- A busy connector is there, so that getConnector adds nothing.
get_connector_busy :
    (cps : ChargePointState) (c : ℤ)
    → leb_ℤ (pos 0) (get_connector cps c).0.current_transaction ≡ true
    → (get_connector cps c).1 ≡ cps
unfolding get_connector
get_connector_busy cps c b = ground arith

start_on_refused :
    (h : CentralSystemHandler) (cid : Bytes) (info : ChargePointState)
    (request : StartTransactionRequest) (x : Error)
    → lookup cid h.charge_points ≡ some info
    → (start_on h cid info request).0 ≡ failed x
    → (start_on h cid info request).1 ≡ h
unfolding start_on
start_on_refused h cid info request x e r =
    ground
      (arith, get_connector_busy info request.connector_id, insert-lookup cid info h.charge_points)

-- A start that fails, for whatever reason, leaves the state as it was: no connector is added, no
-- number is used up.
pub on_start_transaction_failed :
    (h : CentralSystemHandler) (cid : Bytes) (request : StartTransactionRequest) (x : Error)
    → (on_start_transaction h cid request).0 ≡ failed x
    → (on_start_transaction h cid request).1 ≡ h
unfolding on_start_transaction
on_start_transaction_failed h cid request x r = elim (Option-cases (lookup cid h.charge_points)) [
  | inl e ↦ rw (e, on_start_transaction)
  | inr (info, e) ↦
      rw (e, on_start_transaction)
        (start_on_refused h cid info request x e (rw (e, on_start_transaction) at r))
]

process_all_unknown :
    (f : FloatOps) (h : CentralSystemHandler) (cid : Bytes) (c t : ℤ) (mvs : List MeterValue)
    → lookup cid h.charge_points ≡ none
    → process_all f h cid c (some t) mvs ≡ returned h
unfolding process_all process_meter_values
process_all_unknown f h cid c t [] e = refl
process_all_unknown f h cid c t (mv ∷ mvs) e =
    rw (e, process_meter_values) (process_all_unknown f h cid c t mvs e)

abbrev MeterPanics : Option ℤ → List MeterValue → Type 0
MeterPanics o mvs = (o ≡ none) × (mvs ≢ [])

process_any_unknown :
    (f : FloatOps) (h : CentralSystemHandler) (cid : Bytes) (c : ℤ) (o : Option ℤ)
    (mvs : List MeterValue)
    → lookup cid h.charge_points ≡ none
    → ¬ MeterPanics o mvs
    → process_all f h cid c o mvs ≡ returned h
unfolding process_all
process_any_unknown f h cid c none [] e fine = refl
process_any_unknown f h cid c none (mv ∷ mvs) e fine = absurd (fine (refl, λ x. ground arith))
process_any_unknown f h cid c (some t) mvs e fine = process_all_unknown f h cid c t mvs e

-- The meter values of a charge point that is not connected are dropped.
on_meter_values_unknown :
    (f : FloatOps) (h : CentralSystemHandler) (cid : Bytes) (request : MeterValuesRequest)
    → lookup cid h.charge_points ≡ none
    → ¬ Panics h cid (Message.meter_values request)
    → handle f h cid (pos 0) (Message.meter_values request) ≡ returned h
unfolding handle on_meter_values
on_meter_values_unknown f h cid request e fine = ground (
  arith,
  process_any_unknown f h cid request.connector_id request.transaction_id request.meter_value e
      fine,
)

-- A message from a charge point that is not connected, other than its connection, changes nothing,
-- unless its callback panics.
pub handle_unknown :
    (f : FloatOps) (h : CentralSystemHandler) (cid : Bytes) (now : Time) (m : Message)
    → lookup cid h.charge_points ≡ none
    → m ≢ Message.connect
    → ¬ Panics h cid m
    → handle f h cid now m ≡ returned h
unfolding handle on_authorize on_data_transfer on_heartbeat
handle_unknown f h cid now Message.connect e new fine = absurd (new refl)
handle_unknown f h cid now Message.disconnect e new fine =
    unfold on_disconnect in ground (arith, delete-absent cid h.charge_points)
handle_unknown f h cid now Message.authorize e new fine = refl
handle_unknown f h cid now Message.data_transfer e new fine = refl
handle_unknown f h cid now Message.heartbeat e new fine = refl
handle_unknown f h cid now (Message.boot_notification request) e new fine =
    unfold on_boot_notification in rw (e, on_boot_notification)
handle_unknown f h cid now (Message.meter_values request) e new fine =
    on_meter_values_unknown f h cid request e fine
handle_unknown f h cid now (Message.status_notification request) e new fine =
    unfold on_status_notification in rw (e, on_status_notification)
handle_unknown f h cid now (Message.start_transaction request) e new fine =
    unfold on_start_transaction in rw (e, on_start_transaction)
handle_unknown f h cid now (Message.stop_transaction request) e new fine =
    unfold on_stop_transaction in rw (e, on_stop_transaction)
handle_unknown f h cid now (Message.diagnostics_status_notification status) e new fine =
    unfold on_diagnostics_status_notification in rw (e, on_diagnostics_status_notification)
handle_unknown f h cid now (Message.firmware_status_notification status) e new fine =
    unfold on_firmware_status_notification in rw (e, on_firmware_status_notification)
handle_unknown f h cid now (Message.configuration conf true) e new fine = unfold on_config in refl
handle_unknown f h cid now (Message.configuration conf false) e new fine =
    unfold on_config in rw (e, on_config)
