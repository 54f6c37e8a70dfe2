-- ===== src/Ocpp/Transactions.antt =====
-- The life of a transaction: OnStartTransaction and OnStopTransaction of ocpp/handler.go by what they
-- change, and one after the other.
use smarthouse.Prelude.{
  ℤ, pos, negsuc, leb_ℤ, ◌≤ℤ◌, ◌<ℤ◌, Option, none, some, true, false, ◌≡◌, ◌≢◌, refl, arith,
  bytes_Eq, int_Eq, ==_iff, Bytes, ◌∙◌, ap, add_int,
}
use smarthouse.GoMap.{lookup, lookup-insert, lookup-insert_self, lookup-insert_other}
use smarthouse.Ocpp.Consistent.{get_connector-transactions}
use smarthouse.Ocpp.Types.{
  ChargePointState, CentralSystemHandler, ConnectorInfo, TransactionInfo, Reply, confirmed, failed,
  connector_busy, start_accepted, stop_transaction, StartTransactionRequest, StopTransactionRequest,
}
use smarthouse.Ocpp.Handler.{
  put_charge_point, put_connector, put_transaction, get_connector, started, start_on,
  on_start_transaction, end_transaction, stop_in, on_stop_transaction,
}
use smarthouse.Ocpp.Errors.{on_start_transaction_failed}

-- The transaction that a connector runs, -1 if it runs none or is not there.
abbrev pub current_in : Option ConnectorInfo → ℤ
current_in none = negsuc 0
current_in (some ci) = ci.current_transaction

abbrev pub current_of : ChargePointState → ℤ → ℤ
current_of info c = current_in (lookup c info.connectors)

get_connector-current_of :
    (info : ChargePointState) (c : ℤ)
    → (get_connector info c).0.current_transaction ≡ current_of info c
unfolding get_connector
get_connector-current_of info c = ground arith

lookup-get_connector :
    (info : ChargePointState) (c d : ℤ)
    → c ≢ d
    → lookup d (get_connector info c).1.connectors ≡ lookup d info.connectors
unfolding get_connector
lookup-get_connector info c d other =
    ground (arith, lookup-insert c d (get_connector info c).0 info.connectors, ==_iff c d)

-- The charge point after a start that is accepted.
abbrev after_start : ChargePointState → StartTransactionRequest → ℤ → ChargePointState
after_start info request n =
    let (connector, info') = get_connector info request.connector_id in
    put_transaction
      (put_connector info' request.connector_id (record connector { current_transaction = n })) n
      (started request n)

on_start-after_start :
    (h : CentralSystemHandler) (cid : Bytes) (info : ChargePointState)
    (request : StartTransactionRequest)
    → lookup cid h.charge_points ≡ some info
    → current_of info request.connector_id <ℤ pos 0
    → on_start_transaction h cid request ≡ (
      confirmed (start_accepted h.next_transaction_id),
      put_charge_point
          (record h { next_transaction_id = add_int h.next_transaction_id (pos 1) })
          cid
          (after_start info request h.next_transaction_id),
    )
unfolding on_start_transaction start_on
on_start-after_start h cid info request e free = rw (e, on_start_transaction) (rw (idle, start_on))
  where
    idle : leb_ℤ (pos 0) (get_connector info request.connector_id).0.current_transaction ≡ false
    idle = rw (get_connector-current_of info request.connector_id) (ground arith)

-- What a start is to record: the request, under its number, with no end and no measurement.
abbrev pub recorded : StartTransactionRequest → ℤ → TransactionInfo
recorded request n = record {
  id = n;
  start_time = request.timestamp;
  end_time = none;
  start_meter = request.meter_start;
  end_meter = pos 0;
  connector_id = request.connector_id;
  id_tag = request.id_tag;
  last_measurement = none;
  measurement_time = pos 0;
}

-- What a start changes in the charge point: one connector and one transaction.
abbrev pub Started : ChargePointState → ChargePointState → StartTransactionRequest → ℤ → Type 0
Started info info' request n =
    (lookup n info'.transactions ≡ some (recorded request n))
    × (current_of info' request.connector_id ≡ n)
    × ((d : ℤ) → request.connector_id ≢ d → lookup d info'.connectors ≡ lookup d info.connectors)
    × ((u : ℤ) → n ≢ u → lookup u info'.transactions ≡ lookup u info.transactions)

after_start-Started :
    (info : ChargePointState) (request : StartTransactionRequest) (n : ℤ)
    → Started info (after_start info request n) request n
after_start-Started info request n =
    let (connector, info') = get_connector info request.connector_id in
    (
      lookup-insert_self n (started request n) info'.transactions,
      ap current_in (
          lookup-insert_self request.connector_id (record connector { current_transaction = n })
            info'.connectors),
      λ d other.
          lookup-insert_other request.connector_id d _ info'.connectors other
          ∙ lookup-get_connector info request.connector_id d other,
      λ u other.
          lookup-insert_other n u _ info'.transactions other
          ∙ ap (lookup u) (get_connector-transactions info request.connector_id),
    )

pub on_start_transaction_accepted :
    (h : CentralSystemHandler) (cid : Bytes) (info : ChargePointState)
    (request : StartTransactionRequest)
    → lookup cid h.charge_points ≡ some info
    → current_of info request.connector_id <ℤ pos 0
    → let (reply, h') = on_start_transaction h cid request in
      (reply ≡ confirmed (start_accepted h.next_transaction_id))
      × (h'.next_transaction_id ≡ add_int h.next_transaction_id (pos 1))
      × (info' : ChargePointState) × (lookup cid h'.charge_points ≡ some info')
      × Started info info' request h.next_transaction_id
      × ((did : Bytes) → cid ≢ did → lookup did h'.charge_points ≡ lookup did h.charge_points)
on_start_transaction_accepted h cid info request e free =
    rw (on_start-after_start h cid info request e free) (
      refl,
      refl,
      after_start info request h.next_transaction_id,
      lookup-insert_self cid _ h.charge_points,
      after_start-Started info request h.next_transaction_id,
      λ did other. lookup-insert_other cid did _ h.charge_points other,
    )

-- A start on a busy connector is refused, and changes nothing.
pub on_start_transaction_busy :
    (h : CentralSystemHandler) (cid : Bytes) (info : ChargePointState)
    (request : StartTransactionRequest)
    → lookup cid h.charge_points ≡ some info
    → pos 0 ≤ℤ current_of info request.connector_id
    → on_start_transaction h cid request ≡ (failed (connector_busy request.connector_id), h)
on_start_transaction_busy h cid info request e taken =
    pair_eq reply
      (on_start_transaction_failed h cid request (connector_busy request.connector_id) reply)
  where
    pair_eq :
        {p : Reply × CentralSystemHandler} {r : Reply} {k : CentralSystemHandler}
        → p.0 ≡ r
        → p.1 ≡ k
        → p ≡ (r, k)
    pair_eq a b = λ i. (a i, b i)

    busy : leb_ℤ (pos 0) (get_connector info request.connector_id).0.current_transaction ≡ true
    busy = rw (get_connector-current_of info request.connector_id) (ground arith)

    reply : (on_start_transaction h cid request).0 ≡ failed (connector_busy request.connector_id)
    reply =
        unfold on_start_transaction start_on in rw (e, on_start_transaction) (rw (busy, start_on))

-- What a stop changes in the charge point: it ends the transaction and frees its connector.
abbrev pub Stopped :
    ChargePointState → ChargePointState → TransactionInfo → StopTransactionRequest → Type 0
Stopped info info' ti request =
    (lookup request.transaction_id info'.transactions
      ≡ some (record ti { end_time = request.timestamp; end_meter = request.meter_stop }))
    × (current_of info' ti.connector_id ≡ negsuc 0)
    × ((d : ℤ) → ti.connector_id ≢ d → lookup d info'.connectors ≡ lookup d info.connectors)
    × ((u : ℤ)
        → request.transaction_id ≢ u
        → lookup u info'.transactions ≡ lookup u info.transactions)

pub end_transaction-Stopped :
    (info : ChargePointState) (ti : TransactionInfo) (request : StopTransactionRequest)
    → Stopped info (end_transaction info ti request) ti request
unfolding end_transaction
end_transaction-Stopped info ti request =
    let (connector, info') = get_connector info ti.connector_id in
    (
      lookup-insert_self request.transaction_id _ info'.transactions,
      ap current_in (
          lookup-insert_self ti.connector_id (record connector { current_transaction = negsuc 0 })
            info'.connectors),
      λ d other.
          lookup-insert_other ti.connector_id d _ info'.connectors other
          ∙ lookup-get_connector info ti.connector_id d other,
      λ u other.
          lookup-insert_other request.transaction_id u _ info'.transactions other
          ∙ ap (lookup u) (get_connector-transactions info ti.connector_id),
    )

pub on_stop_transaction_found :
    (h : CentralSystemHandler) (cid : Bytes) (info : ChargePointState) (ti : TransactionInfo)
    (request : StopTransactionRequest)
    → lookup cid h.charge_points ≡ some info
    → lookup request.transaction_id info.transactions ≡ some ti
    → let (reply, h') = on_stop_transaction h cid request in
      (reply ≡ confirmed stop_transaction)
      × (h'.next_transaction_id ≡ h.next_transaction_id)
      × (info' : ChargePointState) × (lookup cid h'.charge_points ≡ some info')
      × Stopped info info' ti request
      × ((did : Bytes) → cid ≢ did → lookup did h'.charge_points ≡ lookup did h.charge_points)
unfolding on_stop_transaction stop_in
on_stop_transaction_found h cid info ti request e t =
    rw (e, on_stop_transaction)
      (rw (t, stop_in)
        (
          refl,
          refl,
          end_transaction info ti request,
          lookup-insert_self cid _ h.charge_points,
          end_transaction-Stopped info ti request,
          λ did other. lookup-insert_other cid did _ h.charge_points other,
        ))
