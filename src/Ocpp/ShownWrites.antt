-- ===== src/Ocpp/ShownWrites.antt =====
-- ocpp/handler.go: what is written to a charge point keeps a time with every measurement, and no time
-- without one.
use smarthouse.Prelude.{
  negsuc, ℤ, pos, Option, none, some, List, [], ◌∷◌, Bytes, returned, >>=-eq-returned, ◌≡◌, refl,
  arith, inl, inr, Bool-cases, Option-cases, subst, int_Eq, bytes_Eq, leb_ℤ, ltb_ℤ,
}
use smarthouse.GoMap.{lookup, lookup-Values, insert-Values}
use smarthouse.GoTime.{Time}
use smarthouse.Float64.{FloatOps}
use smarthouse.Ocpp.Types.{
  Reply, Measurement, no_measurement, TransactionInfo, ConnectorInfo, idle_connector,
  ChargePointState, CentralSystemHandler, StatusNotificationRequest, StartTransactionRequest,
  StopTransactionRequest, MeterValue, MeterValuesRequest,
}
use smarthouse.Ocpp.Handler.{
  put_charge_point, put_connector, put_transaction, get_connector, store_measurement,
  process_meter_values, process_all, on_meter_values, notify_status, start_on, end_transaction,
  stop_in, started, measure,
}
use smarthouse.Ocpp.Shown.{
  IsTimed, IsMeasuredConnector, IsMeasuredTransaction, IsShown, IsShownPage,
}

pub returned-IsShown :
    (h h' : CentralSystemHandler) → returned h ≡ returned h' → IsShownPage h → IsShownPage h'
returned-IsShown h h' e v = subst IsShownPage {x = h} {y = h'} (ground arith) v

put_connector-IsShown :
    (cp : ChargePointState) (c : ℤ) (ci : ConnectorInfo)
    → IsShown cp
    → IsMeasuredConnector ci
    → IsShown (put_connector cp c ci)
put_connector-IsShown cp c ci (cs, ts) v =
    (insert-Values IsMeasuredConnector c ci cp.connectors v cs, ts)

put_transaction-IsShown :
    (cp : ChargePointState) (t : ℤ) (ti : TransactionInfo)
    → IsShown cp
    → IsMeasuredTransaction ti
    → IsShown (put_transaction cp t ti)
put_transaction-IsShown cp t ti (cs, ts) v =
    (cs, insert-Values IsMeasuredTransaction t ti cp.transactions v ts)

get_connector-IsShown :
    (cp : ChargePointState) (c : ℤ)
    → IsShown cp
    → IsMeasuredConnector (get_connector cp c).0 × IsShown (get_connector cp c).1
unfolding get_connector
get_connector-IsShown cp c v = elim (Option-cases (lookup c cp.connectors)) [
  | inl e ↦ rw (e, get_connector) (refl, put_connector-IsShown cp c idle_connector v refl)
  | inr (ci, e) ↦
      rw (e, get_connector) (lookup-Values IsMeasuredConnector c ci cp.connectors e v.0, v)
]

-- A write to a charge point that is connected.
pub known-IsShown :
    (h : CentralSystemHandler) (cid : Bytes) (info' : ChargePointState)
    → IsShownPage h
    → IsShown info'
    → IsShownPage (put_charge_point h cid info')
known-IsShown h cid info' v w = insert-Values IsShown cid info' h.charge_points w v

store_measurement-IsShown :
    (cp : ChargePointState) (c t : ℤ) (m : Measurement) (at : Time)
    → IsShown cp
    → IsShown (store_measurement cp c t m at)
unfolding store_measurement
store_measurement-IsShown cp c t m at v =
    let (connector, cp') = get_connector cp c in
    let measured =
      put_connector cp' c (record connector { last_measurement = some m; measurement_time = at }) in
    let w =
      put_connector-IsShown cp' c
        (record connector { last_measurement = some m; measurement_time = at })
        (get_connector-IsShown cp c v).1 tt in
    elim (Option-cases (lookup t measured.transactions)) [
      | inl e ↦ rw (store_measurement, e) w
      | inr (ti, e) ↦
          rw (store_measurement, e)
            (put_transaction-IsShown measured t
              (record ti { last_measurement = some m; measurement_time = at }) w
              (tt, (lookup-Values IsMeasuredTransaction t ti measured.transactions e w.1).1))
    ]

process_meter_values-IsShown :
    (f : FloatOps) (h : CentralSystemHandler) (cid : Bytes) (c t : ℤ) (mv : MeterValue)
    → IsShownPage h
    → IsShownPage (process_meter_values f h cid c t mv)
unfolding process_meter_values
process_meter_values-IsShown f h cid c t mv v = elim (Option-cases (lookup cid h.charge_points)) [
  | inl e ↦ rw (process_meter_values, e) v
  | inr (info, e) ↦
      rw (process_meter_values, e)
        (known-IsShown h cid
          (store_measurement info c t (measure f mv.sampled_value no_measurement) mv.timestamp) v
          (store_measurement-IsShown info c t (measure f mv.sampled_value no_measurement)
            mv.timestamp (lookup-Values IsShown cid info h.charge_points e v)))
]

pub notify_status-IsShown :
    (cp : ChargePointState) (request : StatusNotificationRequest)
    → IsShown cp
    → IsShown (notify_status cp request)
unfolding notify_status
notify_status-IsShown cp request v =
    let cp1 = record cp { error_code = request.error_code } in
    elim (Bool-cases (ltb_ℤ (pos 0) request.connector_id)) [
      | inl one ↦
          let (ci, cp2) = get_connector-IsShown cp1 request.connector_id v in
          rw (notify_status, one)
            (put_connector-IsShown (get_connector cp1 request.connector_id).1 request.connector_id
              (record (get_connector cp1 request.connector_id).0 { status = request.status }) cp2
              ci)
      | inr whole ↦ rw (notify_status, whole) v
    ]

end_transaction-IsShown :
    (cp : ChargePointState) (ti : TransactionInfo) (request : StopTransactionRequest)
    → IsShown cp
    → IsMeasuredTransaction ti
    → IsShown (end_transaction cp ti request)
unfolding end_transaction
end_transaction-IsShown cp ti request v w =
    let (ci, cp1) = get_connector-IsShown cp ti.connector_id v in
    let (connector, cp') = get_connector cp ti.connector_id in
    let freed = record connector { current_transaction = negsuc 0 } in
    put_transaction-IsShown (put_connector cp' ti.connector_id freed) request.transaction_id
      (record ti { end_time = request.timestamp; end_meter = request.meter_stop })
      (put_connector-IsShown cp' ti.connector_id freed cp1 ci) w

pub stop_in-IsShown :
    (cp : ChargePointState) (request : StopTransactionRequest)
    → IsShown cp
    → IsShown (stop_in cp request)
unfolding stop_in
stop_in-IsShown cp request v = elim (Option-cases (lookup request.transaction_id cp.transactions)) [
  | inl e ↦ rw (stop_in, e) v
  | inr (ti, e) ↦
      rw (stop_in, e)
        (end_transaction-IsShown cp ti request v
          (lookup-Values IsMeasuredTransaction request.transaction_id ti cp.transactions e v.1))
]

pub start_on-IsShown :
    (h : CentralSystemHandler) (cid : Bytes) (cp : ChargePointState)
    (request : StartTransactionRequest)
    → IsShownPage h
    → IsShown cp
    → IsTimed request.timestamp
    → IsShownPage (start_on h cid cp request).1
unfolding start_on
start_on-IsShown h cid cp request v w stamped =
    let c = request.connector_id in
    let (ci, cp1) = get_connector-IsShown cp c w in
    let (connector, cp') = get_connector cp c in
    let n = h.next_transaction_id in
    let taken = put_connector cp' c (record connector { current_transaction = n }) in
    elim (Bool-cases (leb_ℤ (pos 0) (get_connector cp c).0.current_transaction)) [
      | inl busy ↦ rw (start_on, busy) (known-IsShown h cid cp' v cp1)
      | inr free ↦
          rw (start_on, free)
            (insert-Values IsShown cid (put_transaction taken n (started request n)) h.charge_points
              (put_transaction-IsShown taken n (started request n)
                (put_connector-IsShown cp' c (record connector { current_transaction = n }) cp1 ci)
                (refl, stamped))
              v)
    ]

process_all-IsShown :
    (f : FloatOps) (h h' : CentralSystemHandler) (cid : Bytes) (c : ℤ) (o : Option ℤ)
    (mvs : List MeterValue)
    → IsShownPage h
    → process_all f h cid c o mvs ≡ returned h'
    → IsShownPage h'
unfolding process_all
process_all-IsShown f h h' cid c o [] v e = returned-IsShown h h' e v
process_all-IsShown f h h' cid c none (mv ∷ mvs) v e = ground arith
process_all-IsShown f h h' cid c (some t) (mv ∷ mvs) v e =
    process_all-IsShown f (process_meter_values f h cid c t mv) h' cid c (some t) mvs
      (process_meter_values-IsShown f h cid c t mv v) e

pub on_meter_values-IsShown :
    (f : FloatOps) (h h' : CentralSystemHandler) (cid : Bytes) (request : MeterValuesRequest)
    (reply : Reply)
    → IsShownPage h
    → on_meter_values f h cid request ≡ returned (reply, h')
    → IsShownPage h'
unfolding on_meter_values
on_meter_values-IsShown f h h' cid request reply v e =
    let (k, ran, out) =
      >>=-eq-returned
        (process_all f h cid request.connector_id request.transaction_id request.meter_value) _ e in
    returned-IsShown k h' (ground arith) (
      process_all-IsShown f h k cid request.connector_id request.transaction_id request.meter_value
        v ran)
