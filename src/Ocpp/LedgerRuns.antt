-- ===== src/Ocpp/LedgerRuns.antt =====
-- The callbacks of ocpp/handler.go and ocpp/main.go, one after the other, against the ledger.
use smarthouse.Prelude.{
  pos, leb_ℤ, Option, none, some, List, [], ◌∷◌, Bytes, Bool, true, false, ◌≡◌, refl, ap, arith,
  bytes_Eq, inl, inr, Option-cases, ◌∙◌, ◌+◌, ◌≤◌, length, pos_part, max_int, returned,
  returned-injective, >>=-eq-returned,
}
use smarthouse.GoMap.{lookup}
use smarthouse.GoTime.{Time}
use smarthouse.Float64.{FloatOps}
use smarthouse.Ocpp.Types.{
  Reply, ConfigurationKey, ChargePointState, CentralSystemHandler, new_charge_point,
  StartTransactionRequest, StopTransactionRequest,
}
use smarthouse.Ocpp.Handler.{
  put_charge_point, on_authorize, on_boot_notification, on_data_transfer, on_heartbeat, process_all,
  on_meter_values, on_status_notification, notify_status, on_start_transaction, on_stop_transaction,
  on_diagnostics_status_notification, on_firmware_status_notification, on_config,
}
use smarthouse.Ocpp.Events.{Message, Event, on_connect, on_disconnect, handle, run}
use smarthouse.Ocpp.Invariant.{IsValid}
use smarthouse.Ocpp.Runs.{handle-Follows}
use smarthouse.Ocpp.Ledger.{
  put_point, current_session, session_of, point_of, empty_point, known_point, ledger_of, step_at,
  step, run_ledger,
}
use smarthouse.Ocpp.LedgerWrites.{ledger_of-put, ledger_of-delete, keep_point}
use smarthouse.Ocpp.LedgerSteps.{
  ledger_of-process_all, point_of-notify_status, ledger_of-start_on, ledger_of-stop_in,
}

-- A callback that writes nothing that the ledger sees, to a charge point if it is known.
keeps :
    (h : CentralSystemHandler) (cid : Bytes) (write : ChargePointState → ChargePointState)
    → ((cps : ChargePointState) → point_of (write cps) ≡ point_of cps)
    → (o : Option ChargePointState) → lookup cid h.charge_points ≡ o
    → ledger_of (elim o as (λ _. CentralSystemHandler) [
      | none ↦ h
      | some cps ↦ put_charge_point h cid (write cps)
    ])
      ≡ ledger_of h
keeps h cid write same none e = refl
keeps h cid write same (some cps) e = keep_point h cid cps (write cps) e (same cps)

-- The same, for a callback that replies.
keeps_reply :
    (h : CentralSystemHandler) (cid : Bytes) (write : ChargePointState → ChargePointState)
    → ((cps : ChargePointState) → point_of (write cps) ≡ point_of cps)
    → (refused accepted : Reply) (o : Option ChargePointState) → lookup cid h.charge_points ≡ o
    → ledger_of
        (elim o as (λ _. Reply × CentralSystemHandler) [
          | none ↦ (refused, h)
          | some cps ↦ (accepted, put_charge_point h cid (write cps))
        ]).1
      ≡ ledger_of h
keeps_reply h cid write same refused accepted none e = refl
keeps_reply h cid write same refused accepted (some cps) e =
    keep_point h cid cps (write cps) e (same cps)

configured_keeps :
    (h h' : CentralSystemHandler) (cid : Bytes) (conf : Option (List ConfigurationKey))
    (errored : Bool)
    → on_config h cid conf errored ≡ returned h'
    → ledger_of h' ≡ ledger_of h
unfolding on_config point_of
configured_keeps h h' cid conf true e = ap ledger_of (returned-injective e)
configured_keeps h h' cid none false e = elim (Option-cases (lookup cid h.charge_points)) [
  | inl absent ↦ ap ledger_of (returned-injective (rw absent at e))
  | inr (cps, found) ↦ absurd (ground arith)
]
configured_keeps h h' cid (some keys) false e = elim (Option-cases (lookup cid h.charge_points)) [
  | inl absent ↦ ap ledger_of (returned-injective (rw absent at e))
  | inr (cps, found) ↦
      ap ledger_of (returned-injective (rw found at e))
      ∙ keep_point h cid cps (record cps { config_keys = keys }) found refl
]

module _ (h : CentralSystemHandler) (cid : Bytes) where
  connect_step : ledger_of (on_connect h cid) ≡ step (ledger_of h) cid Message.connect
  unfolding on_connect step step_at ledger_of known_point
  connect_step = elim (Option-cases (lookup cid h.charge_points)) [
    | inl e ↦ rw (e, on_connect, step_at) new
    | inr (cps, e) ↦ rw (e, on_connect, step_at)
  ]
    where
      new :
          ledger_of (put_charge_point h cid new_charge_point)
          ≡ put_point (ledger_of h) cid (some empty_point)
      new =
          unfold point_of current_session session_of lookup in ledger_of-put h cid new_charge_point

  start_step :
      (request : StartTransactionRequest)
      → leb_ℤ (pos 0) h.next_transaction_id ≡ true
      → ledger_of (on_start_transaction h cid request).1
        ≡ step (ledger_of h) cid (Message.start_transaction request)
  unfolding on_start_transaction step step_at ledger_of known_point
  start_step request counted = elim (Option-cases (lookup cid h.charge_points)) [
    | inl e ↦ rw (e, on_start_transaction)
    | inr (cps, e) ↦ rw (e, on_start_transaction) (ledger_of-start_on h cid cps request e counted)
  ]

  stop_step :
      (request : StopTransactionRequest)
      → ledger_of (on_stop_transaction h cid request).1
        ≡ step (ledger_of h) cid (Message.stop_transaction request)
  unfolding on_stop_transaction step step_at ledger_of known_point
  stop_step request = elim (Option-cases (lookup cid h.charge_points)) [
    | inl e ↦ rw (e, on_stop_transaction)
    | inr (cps, e) ↦ rw (e, on_stop_transaction) (ledger_of-stop_in h cid cps request e)
  ]

-- A callback that does not panic does to the sessions what the ledger's step does.
pub ledger_of-handle :
    (f : FloatOps) (h h' : CentralSystemHandler) (cid : Bytes) (now : Time) (m : Message)
    → leb_ℤ (pos 0) h.next_transaction_id ≡ true
    → handle f h cid now m ≡ returned h'
    → ledger_of h' ≡ step (ledger_of h) cid m
unfolding handle step step_at on_authorize on_data_transfer on_heartbeat on_boot_notification
    on_disconnect on_status_notification on_diagnostics_status_notification
    on_firmware_status_notification on_meter_values point_of
ledger_of-handle f h h' cid now Message.connect counted e =
    ap ledger_of (returned-injective e) ∙ connect_step h cid
ledger_of-handle f h h' cid now Message.disconnect counted e =
    ap ledger_of (returned-injective e) ∙ ledger_of-delete h cid
ledger_of-handle f h h' cid now (Message.start_transaction request) counted e =
    ap ledger_of (returned-injective e) ∙ start_step h cid request counted
ledger_of-handle f h h' cid now (Message.stop_transaction request) counted e =
    ap ledger_of (returned-injective e) ∙ stop_step h cid request
ledger_of-handle f h h' cid now (Message.boot_notification request) counted e =
    ap ledger_of (returned-injective e)
    ∙ keeps h cid (λ cps. record cps { boot_data = request }) (λ cps. refl)
        (lookup cid h.charge_points) refl
ledger_of-handle f h h' cid now (Message.meter_values request) counted e =
    let ((reply, k), ran, out) = >>=-eq-returned (on_meter_values f h cid request) _ e in
    let (k', all, made) =
      >>=-eq-returned
        (process_all f h cid request.connector_id request.transaction_id request.meter_value) _
        ran in
    ap ledger_of (
      returned-injective out
      ∙ ap (λ (p : Reply × CentralSystemHandler). p.1) (returned-injective made))
    ∙ ledger_of-process_all f h k' cid request.connector_id request.transaction_id
        request.meter_value all
ledger_of-handle f h h' cid now (Message.status_notification request) counted e =
    ap ledger_of (returned-injective e)
    ∙ keeps_reply h cid (λ cps. notify_status cps request)
        (λ cps. point_of-notify_status cps request) _ _ (lookup cid h.charge_points) refl
ledger_of-handle f h h' cid now (Message.configuration conf errored) counted e =
    configured_keeps h h' cid conf errored e
ledger_of-handle f h h' cid now (Message.diagnostics_status_notification status) counted e =
    ap ledger_of (returned-injective e)
    ∙ keeps_reply h cid (λ cps. record cps { diagnostics_status = status }) (λ cps. refl) _ _
        (lookup cid h.charge_points) refl
ledger_of-handle f h h' cid now (Message.firmware_status_notification status) counted e =
    ap ledger_of (returned-injective e)
    ∙ keeps_reply h cid (λ cps. record cps { firmware_status = status }) (λ cps. refl) _ _
        (lookup cid h.charge_points) refl
ledger_of-handle f h h' cid now _ counted e = ap ledger_of (returned-injective e)

-- From a valid state with numbers left, any sequence of events that does not panic does to the sessions
-- what the ledger does: a start where no session runs takes the next number; a stop of a recorded
-- session frees its connector, and ends it if the stop has a time that is not zero; a connection and a
-- disconnection add and remove a charge point; and nothing else is changed.
pub ledger_of-run :
    (f : FloatOps) (h h' : CentralSystemHandler) (es : List Event)
    → pos_part h.next_transaction_id + length es ≤ pos_part max_int
    → IsValid h
    → run f h es ≡ returned h'
    → ledger_of h' ≡ run_ledger (ledger_of h) es
unfolding run run_ledger
ledger_of-run f h h' [] room v e = ap ledger_of (returned-injective e)
ledger_of-run f h h' (ev ∷ es) room v e =
    let (k, ran, rest) =
      >>=-eq-returned (handle f h ev.charge_point ev.time ev.message) (λ k. run f k es) e in
    let w =
      handle-Follows f h k ev.charge_point ev.time ev.message (omega (arith, v.counted)) v ran in
    ledger_of-run f k h' es (omega (arith, w.by_one)) w.valid rest
    ∙ ap (λ l. run_ledger l es)
        (ledger_of-handle f h k ev.charge_point ev.time ev.message (ground (arith, v.counted)) ran)
