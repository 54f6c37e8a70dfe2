-- ===== src/Ocpp/ShownRuns.antt =====
-- ocpp/handler.go: no sequence of callbacks makes the index page follow a nil measurement.
use smarthouse.Prelude.{
  All, Option, none, some, List, [], ◌∷◌, Bytes, Bool, true, false, returned, Returns,
  >>=-eq-returned, ◌≡◌, arith, inl, inr, Option-cases, int_Eq, bytes_Eq, ◌≤ℤ◌,
}
use smarthouse.GoMap.{Values, lookup, lookup-Values, delete-Values}
use smarthouse.GoTime.{Time, thirty_seconds}
use smarthouse.Float64.{FloatOps}
use smarthouse.Ocpp.Types.{
  BootNotificationRequest, ConfigurationKey, ChargePointState, new_charge_point,
  CentralSystemHandler, StatusNotificationRequest, StartTransactionRequest, StopTransactionRequest,
}
use smarthouse.Ocpp.Handler.{
  put_charge_point, on_authorize, on_boot_notification, on_data_transfer, on_heartbeat,
  on_meter_values, notify_status, on_status_notification, on_start_transaction, stop_in,
  on_stop_transaction, on_diagnostics_status_notification, on_firmware_status_notification,
  on_config,
}
use smarthouse.Ocpp.Events.{Message, Event, on_connect, on_disconnect, handle, run}
use smarthouse.Ocpp.Index.{index}
use smarthouse.Ocpp.Shown.{IsTimed, IsShown, IsShownPage, HasValues, index-Ok}
use smarthouse.Ocpp.ShownWrites.{
  returned-IsShown, known-IsShown, notify_status-IsShown, stop_in-IsShown, start_on-IsShown,
  on_meter_values-IsShown,
}

-- A callback that writes to a charge point that is connected, and to no other.
module _ (h : CentralSystemHandler) (cid : Bytes) (v : IsShownPage h) where
  connected-IsShown :
      (info : ChargePointState) → lookup cid h.charge_points ≡ some info → IsShown info
  connected-IsShown info e = lookup-Values IsShown cid info h.charge_points e v

  on_connect-IsShown : IsShownPage (on_connect h cid)
  unfolding on_connect
  on_connect-IsShown = elim (Option-cases (lookup cid h.charge_points)) [
    | inl e ↦ rw (on_connect, e) (known-IsShown h cid new_charge_point v (tt, tt))
    | inr (info, e) ↦ rw (on_connect, e) v
  ]

  on_boot_notification-IsShown :
      (request : BootNotificationRequest) (now : Time)
      → IsShownPage (on_boot_notification h cid request now).1
  unfolding on_boot_notification
  on_boot_notification-IsShown request now = elim (Option-cases (lookup cid h.charge_points)) [
    | inl e ↦ rw (on_boot_notification, e) v
    | inr (info, e) ↦
        rw (on_boot_notification, e)
          (known-IsShown h cid (record info { boot_data = request }) v (connected-IsShown info e))
  ]

  on_status_notification-IsShown :
      (request : StatusNotificationRequest) → IsShownPage (on_status_notification h cid request).1
  unfolding on_status_notification
  on_status_notification-IsShown request = elim (Option-cases (lookup cid h.charge_points)) [
    | inl e ↦ rw (on_status_notification, e) v
    | inr (info, e) ↦
        rw (on_status_notification, e)
          (known-IsShown h cid (notify_status info request) v
            (notify_status-IsShown info request (connected-IsShown info e)))
  ]

  on_start_transaction-IsShown :
      (request : StartTransactionRequest)
      → IsTimed request.timestamp
      → IsShownPage (on_start_transaction h cid request).1
  unfolding on_start_transaction
  on_start_transaction-IsShown request stamped = elim (Option-cases (lookup cid h.charge_points)) [
    | inl e ↦ rw (on_start_transaction, e) v
    | inr (info, e) ↦
        rw (on_start_transaction, e)
          (start_on-IsShown h cid info request v (connected-IsShown info e) stamped)
  ]

  on_stop_transaction-IsShown :
      (request : StopTransactionRequest) → IsShownPage (on_stop_transaction h cid request).1
  unfolding on_stop_transaction
  on_stop_transaction-IsShown request = elim (Option-cases (lookup cid h.charge_points)) [
    | inl e ↦ rw (on_stop_transaction, e) v
    | inr (info, e) ↦
        rw (on_stop_transaction, e)
          (known-IsShown h cid (stop_in info request) v
            (stop_in-IsShown info request (connected-IsShown info e)))
  ]

  on_diagnostics-IsShown :
      (status : Bytes) → IsShownPage (on_diagnostics_status_notification h cid status).1
  unfolding on_diagnostics_status_notification
  on_diagnostics-IsShown status = elim (Option-cases (lookup cid h.charge_points)) [
    | inl e ↦ rw (on_diagnostics_status_notification, e) v
    | inr (info, e) ↦
        rw (on_diagnostics_status_notification, e)
          (known-IsShown h cid (record info { diagnostics_status = status }) v
            (connected-IsShown info e))
  ]

  on_firmware-IsShown :
      (status : Bytes) → IsShownPage (on_firmware_status_notification h cid status).1
  unfolding on_firmware_status_notification
  on_firmware-IsShown status = elim (Option-cases (lookup cid h.charge_points)) [
    | inl e ↦ rw (on_firmware_status_notification, e) v
    | inr (info, e) ↦
        rw (on_firmware_status_notification, e)
          (known-IsShown h cid (record info { firmware_status = status }) v
            (connected-IsShown info e))
  ]

  on_config-IsShown :
      (h' : CentralSystemHandler) (conf : Option (List ConfigurationKey)) (errored : Bool)
      → on_config h cid conf errored ≡ returned h'
      → IsShownPage h'
  unfolding on_config
  on_config-IsShown h' conf true e = returned-IsShown h h' e v
  on_config-IsShown h' none false e = elim (Option-cases (lookup cid h.charge_points)) [
    | inl a ↦ returned-IsShown h h' (ground arith) v
    | inr (info, a) ↦ absurd (ground arith)
  ]
  on_config-IsShown h' (some keys) false e = elim (Option-cases (lookup cid h.charge_points)) [
    | inl a ↦ returned-IsShown h h' (ground arith) v
    | inr (info, a) ↦
        let info' = record info { config_keys = keys } in
        returned-IsShown (put_charge_point h cid info') h' (ground arith)
          (known-IsShown h cid info' v (connected-IsShown info a))
  ]

-- A start carries its time, as ocpp-go requires of it.
abbrev pub IsStamped : Message → Type 0
IsStamped (Message.start_transaction request) = IsTimed request.timestamp
IsStamped _ = Unit

handle-IsShown :
    (f : FloatOps) (h h' : CentralSystemHandler) (cid : Bytes) (now : Time) (m : Message)
    → IsStamped m
    → IsShownPage h
    → handle f h cid now m ≡ returned h'
    → IsShownPage h'
unfolding handle on_authorize on_data_transfer on_heartbeat on_disconnect
handle-IsShown f h h' cid now Message.connect stamped v e =
    returned-IsShown (on_connect h cid) h' e (on_connect-IsShown h cid v)
handle-IsShown f h h' cid now Message.disconnect stamped v e =
    returned-IsShown (on_disconnect h cid) h' e (delete-Values IsShown cid h.charge_points v)
handle-IsShown f h h' cid now Message.authorize stamped v e = returned-IsShown h h' e v
handle-IsShown f h h' cid now Message.data_transfer stamped v e = returned-IsShown h h' e v
handle-IsShown f h h' cid now Message.heartbeat stamped v e = returned-IsShown h h' e v
handle-IsShown f h h' cid now (Message.boot_notification request) stamped v e =
    returned-IsShown (on_boot_notification h cid request now).1 h' e
      (on_boot_notification-IsShown h cid v request now)
handle-IsShown f h h' cid now (Message.meter_values request) stamped v e =
    let ((reply, k), ran, out) = >>=-eq-returned (on_meter_values f h cid request) _ e in
    returned-IsShown k h' out (on_meter_values-IsShown f h k cid request reply v ran)
handle-IsShown f h h' cid now (Message.status_notification request) stamped v e =
    returned-IsShown (on_status_notification h cid request).1 h' e
      (on_status_notification-IsShown h cid v request)
handle-IsShown f h h' cid now (Message.start_transaction request) stamped v e =
    returned-IsShown (on_start_transaction h cid request).1 h' e
      (on_start_transaction-IsShown h cid v request stamped)
handle-IsShown f h h' cid now (Message.stop_transaction request) stamped v e =
    returned-IsShown (on_stop_transaction h cid request).1 h' e
      (on_stop_transaction-IsShown h cid v request)
handle-IsShown f h h' cid now (Message.diagnostics_status_notification status) stamped v e =
    returned-IsShown (on_diagnostics_status_notification h cid status).1 h' e
      (on_diagnostics-IsShown h cid v status)
handle-IsShown f h h' cid now (Message.firmware_status_notification status) stamped v e =
    returned-IsShown (on_firmware_status_notification h cid status).1 h' e
      (on_firmware-IsShown h cid v status)
handle-IsShown f h h' cid now (Message.configuration conf errored) stamped v e =
    on_config-IsShown h cid v h' conf errored e

run-IsShown :
    (f : FloatOps) (h h' : CentralSystemHandler) (es : List Event)
    → All (λ ev. IsStamped ev.message) es
    → IsShownPage h
    → run f h es ≡ returned h'
    → IsShownPage h'
unfolding run
run-IsShown f h h' [] stamped v e = returned-IsShown h h' e v
run-IsShown f h h' (ev ∷ es) (one, stamped) v e =
    let (k, ran, rest) =
      >>=-eq-returned (handle f h ev.charge_point ev.time ev.message) (λ k. run f k es) e in
    run-IsShown f k h' es stamped
      (handle-IsShown f h k ev.charge_point ev.time ev.message one v ran) rest

-- From a state in which nothing without a measurement has the time of one and every transaction has a
-- start, such as that of a fresh process, no sequence of events in which every start is stamped, and
-- that does not panic, makes the index page panic, at least 30 seconds after year 1, if every
-- configuration key has a value or the configuration is not shown.
pub index_safe :
    (f : FloatOps) (h h' : CentralSystemHandler) (es : List Event) (show_config : Bool) (now : Time)
    → All (λ ev. IsStamped ev.message) es
    → IsShownPage h
    → run f h es ≡ returned h'
    → thirty_seconds ≤ℤ now
    → Values (HasValues show_config) h'.charge_points
    → Returns (λ entries. Unit) (index show_config now h')
index_safe f h h' es show_config now stamped v e late valued =
    index-Ok show_config now h' late (run-IsShown f h h' es stamped v e) valued
