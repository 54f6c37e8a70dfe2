-- ===== src/Ocpp/Writes.antt =====
-- The parts of the callbacks of ocpp/handler.go that work on one charge point keep it consistent.
use smarthouse.Prelude.{
  ℕ, suc, ℤ, pos, ltb_ℤ, some, ◌≡◌, refl, arith, int_Eq, bytes_Eq, ==_iff, inl, inr, Option-cases,
  Bool-cases,
}
use smarthouse.GoMap.{lookup, lookup-insert}
use smarthouse.GoTime.{Time}
use smarthouse.Ocpp.Types.{
  Measurement, has_transaction_ended, ConnectorInfo, ChargePointState, StatusNotificationRequest,
  StartTransactionRequest, StopTransactionRequest,
}
use smarthouse.Ocpp.Handler.{
  put_connector, put_transaction, get_connector, store_measurement, notify_status, started, stop_in,
}
use smarthouse.Ocpp.Consistent.{
  IsConsistent, put_connector-IsConsistent, get_connector-IsConsistent, get_connector-Runs,
  get_connector-transactions, put_transaction-IsConsistent, put_new_transaction-IsConsistent,
  end-IsConsistent,
}

-- A connector whose status or measurement changes is as busy as before.
pub update_connector-IsConsistent :
    (n : ℤ) (cps : ChargePointState) (c : ℤ) (ci : ConnectorInfo)
    → IsConsistent n cps
    → ci.current_transaction ≡ (get_connector cps c).0.current_transaction
    → IsConsistent n (put_connector (get_connector cps c).1 c ci)
update_connector-IsConsistent n cps c ci v same =
    put_connector-IsConsistent n (get_connector cps c).1 c ci (get_connector-IsConsistent n cps c v)
      (rw (same, get_connector-transactions cps c) (get_connector-Runs n cps c v))

pub notify_status-IsConsistent :
    (n : ℤ) (info : ChargePointState) (request : StatusNotificationRequest)
    → IsConsistent n info
    → IsConsistent n (notify_status info request)
unfolding notify_status
notify_status-IsConsistent n info request v =
    elim (Bool-cases (ltb_ℤ (pos 0) request.connector_id)) [
      | inl e ↦
          rw (e, notify_status) (update_connector-IsConsistent n _ request.connector_id _ w refl)
      | inr e ↦
          rw (e, notify_status) (record { keyed = v.keyed; fresh = v.fresh; running = v.running })
    ]
  where
    w : IsConsistent n (record info { error_code = request.error_code })
    w = record { keyed = v.keyed; fresh = v.fresh; running = v.running }

pub store_measurement-IsConsistent :
    (n : ℤ) (info : ChargePointState) (c t : ℤ) (m : Measurement) (at : Time)
    → IsConsistent n info
    → IsConsistent n (store_measurement info c t m at)
unfolding store_measurement has_transaction_ended
store_measurement-IsConsistent n info c t m at v =
    elim (Option-cases (lookup t measured.transactions)) [
      | inl e ↦ rw (e, store_measurement) w
      | inr (ti, e) ↦
          rw (e, store_measurement)
            (put_transaction-IsConsistent n measured t ti _ w e refl refl refl)
    ]
  where
    connector : ConnectorInfo
    connector = record (get_connector info c).0 { last_measurement = some m; measurement_time = at }

    measured : ChargePointState
    measured = put_connector (get_connector info c).1 c connector

    w : IsConsistent n measured
    w = update_connector-IsConsistent n info c connector v refl

-- OnStartTransaction, where it accepts: the connector takes the next number.
pub start-IsConsistent :
    (k : ℕ) (info : ChargePointState) (request : StartTransactionRequest)
    → IsConsistent (pos k) info
    → let (connector, info') = get_connector info request.connector_id in
      IsConsistent (pos (suc k)) (
        put_transaction
          (put_connector info' request.connector_id
            (record connector { current_transaction = pos k }))
          (pos k)
          (started request (pos k)))
unfolding has_transaction_ended
start-IsConsistent k info request v =
    let (connector, info') = get_connector info request.connector_id in
    let transaction = started request (pos k) in
    put_connector-IsConsistent (pos (suc k)) (put_transaction info' (pos k) transaction)
      request.connector_id (record connector { current_transaction = pos k })
      (put_new_transaction-IsConsistent (pos k) (pos (suc k)) info' transaction
        (get_connector-IsConsistent (pos k) info request.connector_id v) (omega arith) (omega arith)
        refl)
      (λ _. ground (
        arith,
        lookup-insert (pos k) (pos k) transaction info'.transactions,
        ==_iff (pos k) (pos k),
      ))

pub stop_in-IsConsistent :
    (n : ℤ) (info : ChargePointState) (request : StopTransactionRequest)
    → IsConsistent n info
    → IsConsistent n (stop_in info request)
unfolding stop_in
stop_in-IsConsistent n info request v =
    elim (Option-cases (lookup request.transaction_id info.transactions)) [
      | inl e ↦ rw (e, stop_in) v
      | inr (ti, e) ↦
          rw (e, stop_in)
            (end-IsConsistent n (get_connector info ti.connector_id).1 request.transaction_id ti _ _
              (get_connector-IsConsistent n info ti.connector_id v)
              (rw (get_connector-transactions info ti.connector_id) e) refl refl)
    ]
