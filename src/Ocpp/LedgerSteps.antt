-- ===== src/Ocpp/LedgerSteps.antt =====
-- Each callback of ocpp/handler.go and ocpp/main.go does to the sessions what the ledger's step does.
use smarthouse.Prelude.{
  ℤ, pos, leb_ℤ, ltb_ℤ, add_int, Option, none, some, List, [], ◌∷◌, Bytes, Bool, true, false, ◌≡◌,
  refl, ap, arith, int_Eq, bytes_Eq, inl, inr, Option-cases, Bool-cases, ◌∙◌, sym, subst, returned,
}
use smarthouse.GoMap.{lookup}
use smarthouse.GoTime.{Time}
use smarthouse.Float64.{FloatOps}
use smarthouse.Ocpp.Types.{
  TransactionInfo, is_end, ConnectorInfo, ChargePointState, CentralSystemHandler, MeterValue,
  Measurement, no_measurement, StatusNotificationRequest, StartTransactionRequest,
  StopTransactionRequest,
}
use smarthouse.Ocpp.Handler.{
  put_charge_point, put_connector, put_transaction, get_connector, measure, store_measurement,
  process_meter_values, process_all, notify_status, start_on, end_transaction, stop_in,
}
use smarthouse.Ocpp.Ledger.{
  Point, update, put_point, start_session, end_session, current_session, session_of, point_of,
  ledger_of,
}
use smarthouse.Ocpp.LedgerWrites.{
  point_of-put_connector, point_of-put_transaction, keep_connector, keep_transaction,
  get_connector-current, get_connector-point, get_connector-lookup, ledger_of-put, keep_point,
}

-- A write to the connector that getConnector gives.
keep_got :
    (cps : ChargePointState) (c : ℤ) (ci : ConnectorInfo)
    → ci.current_transaction ≡ (get_connector cps c).0.current_transaction
    → point_of (put_connector (get_connector cps c).1 c ci) ≡ point_of cps
unfolding current_session
keep_got cps c ci same =
    keep_connector (get_connector cps c).1 c ci (rw (get_connector-lookup cps c, same))
    ∙ get_connector-point cps c

point_of-store_measurement :
    (cps : ChargePointState) (c t : ℤ) (m : Measurement) (at : Time)
    → point_of (store_measurement cps c t m at) ≡ point_of cps
unfolding store_measurement
point_of-store_measurement cps c t m at = elim (Option-cases (lookup t written.transactions)) [
  | inl e ↦ rw (e, store_measurement) (keep_got cps c connector refl)
  | inr (ti, e) ↦
      rw (e, store_measurement)
        (keep_transaction written t (record ti { last_measurement = some m; measurement_time = at })
            (same ti e)
          ∙ keep_got cps c connector refl)
]
  where
    connector : ConnectorInfo
    connector = record (get_connector cps c).0 { last_measurement = some m; measurement_time = at }

    written : ChargePointState
    written = put_connector (get_connector cps c).1 c connector

    same :
        (ti : TransactionInfo)
        → lookup t written.transactions ≡ some ti
        → session_of (some (record ti { last_measurement = some m; measurement_time = at }))
          ≡ session_of (lookup t written.transactions)
    same ti e = unfold session_of in rw e

ledger_of-process_meter_values :
    (f : FloatOps) (h : CentralSystemHandler) (cid : Bytes) (c t : ℤ) (mv : MeterValue)
    → ledger_of (process_meter_values f h cid c t mv) ≡ ledger_of h
unfolding process_meter_values
ledger_of-process_meter_values f h cid c t mv = elim (Option-cases (lookup cid h.charge_points)) [
  | inl e ↦ rw (e, process_meter_values)
  | inr (cps, e) ↦
      rw (e, process_meter_values)
        (keep_point h cid cps _ e (
          point_of-store_measurement cps c t (measure f mv.sampled_value no_measurement)
            mv.timestamp))
]

pub ledger_of-process_all :
    (f : FloatOps) (h h' : CentralSystemHandler) (cid : Bytes) (c : ℤ) (t : Option ℤ)
    (mvs : List MeterValue)
    → process_all f h cid c t mvs ≡ returned h'
    → ledger_of h' ≡ ledger_of h
unfolding process_all
ledger_of-process_all f h h' cid c t [] e =
    subst (λ k. ledger_of k ≡ ledger_of h) (ground arith) refl
ledger_of-process_all f h h' cid c none (mv ∷ mvs) e = absurd (ground arith)
ledger_of-process_all f h h' cid c (some t) (mv ∷ mvs) e =
    ledger_of-process_all f (process_meter_values f h cid c t mv) h' cid c (some t) mvs e
    ∙ ledger_of-process_meter_values f h cid c t mv

pub point_of-notify_status :
    (cps : ChargePointState) (request : StatusNotificationRequest)
    → point_of (notify_status cps request) ≡ point_of cps
unfolding notify_status point_of
point_of-notify_status cps request = elim (Bool-cases (ltb_ℤ (pos 0) request.connector_id)) [
  | inl e ↦
      rw e (keep_got (record cps { error_code = request.error_code }) request.connector_id _ refl)
  | inr e ↦ rw e
]

-- The two writes of a start and of a stop.
point_of-writes :
    (cps : ChargePointState) (c t : ℤ) (ci : ConnectorInfo) (ti : TransactionInfo)
    → point_of (put_transaction (put_connector (get_connector cps c).1 c ci) t ti) ≡ record {
      running = update c (current_session (some ci)) (point_of cps).running;
      sessions = update t (session_of (some ti)) (point_of cps).sessions;
    }
point_of-writes cps c t ci ti =
    point_of-put_transaction (put_connector (get_connector cps c).1 c ci) t ti
    ∙ ap (λ (p : Point). record p { sessions = update t (session_of (some ti)) p.sessions })
        (point_of-put_connector (get_connector cps c).1 c ci
          ∙ ap
              (λ (p : Point). record p { running = update c (current_session (some ci)) p.running })
              (get_connector-point cps c))

module _ (h : CentralSystemHandler) (cid : Bytes) (cps : ChargePointState) where
  -- The ledger after a start that is accepted.
  start_free :
      (request : StartTransactionRequest)
      → leb_ℤ (pos 0) h.next_transaction_id ≡ true
      → leb_ℤ (pos 0) (get_connector cps request.connector_id).0.current_transaction ≡ false
      → ledger_of (start_on h cid cps request).1
        ≡ start_session (ledger_of h) cid (point_of cps) request.connector_id none
  unfolding start_on start_session ledger_of current_session session_of
  start_free request counted free =
      rw (free, start_on)
        (ledger_of-put (record h { next_transaction_id = add_int h.next_transaction_id (pos 1) })
            cid _
          ∙ ap
              (λ (p : Point).
                put_point
                  (ledger_of
                    (record h { next_transaction_id = add_int h.next_transaction_id (pos 1) }))
                  cid (some p))
              (point_of-writes cps request.connector_id h.next_transaction_id _ _ ∙ rw counted))

  -- A start that is refused.
  start_busy :
      (request : StartTransactionRequest)
      → lookup cid h.charge_points ≡ some cps
      → leb_ℤ (pos 0) (get_connector cps request.connector_id).0.current_transaction ≡ true
      → ledger_of (start_on h cid cps request).1 ≡ ledger_of h
  unfolding start_on ledger_of
  start_busy request e busy =
      rw (busy, start_on) (keep_point h cid cps _ e (get_connector-point cps request.connector_id))

  pub ledger_of-start_on :
      (request : StartTransactionRequest)
      → lookup cid h.charge_points ≡ some cps
      → leb_ℤ (pos 0) h.next_transaction_id ≡ true
      → ledger_of (start_on h cid cps request).1
        ≡ start_session
            (ledger_of h)
            cid
            (point_of cps)
            request.connector_id
            ((point_of cps).running request.connector_id)
  unfolding point_of start_session
  ledger_of-start_on request e counted = elim (Bool-cases busy) [
    | inl b ↦ rw (sym (get_connector-current cps request.connector_id), b) (start_busy request e b)
    | inr b ↦
        rw (sym (get_connector-current cps request.connector_id), b) (start_free request counted b)
  ]
    where
      busy : Bool
      busy = leb_ℤ (pos 0) (get_connector cps request.connector_id).0.current_transaction

  pub ledger_of-stop_in :
      (request : StopTransactionRequest)
      → lookup cid h.charge_points ≡ some cps
      → ledger_of (put_charge_point h cid (stop_in cps request))
        ≡ end_session
            (ledger_of h)
            cid
            (point_of cps)
            request.transaction_id
            (is_end request.timestamp)
            ((point_of cps).sessions request.transaction_id)
  unfolding stop_in end_transaction point_of end_session session_of current_session
  ledger_of-stop_in request e =
      elim (Option-cases (lookup request.transaction_id cps.transactions)) [
        | inl absent ↦ rw (absent, stop_in) (keep_point h cid cps cps e refl)
        | inr (ti, found) ↦
            rw (found, stop_in)
              (ledger_of-put h cid _
                ∙ ap (λ (p : Point). put_point (ledger_of h) cid (some p))
                    (point_of-writes cps ti.connector_id request.transaction_id _ _))
      ]
