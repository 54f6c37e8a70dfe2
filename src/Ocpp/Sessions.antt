-- ===== src/Ocpp/Sessions.antt =====
-- A transaction from its start to its stop, and what a second start or a second stop does
-- (ocpp/handler.go).
use smarthouse.Prelude.{
  subst, ap, ℤ, pos, negsuc, ◌<ℤ◌, Option, some, true, false, ◌≡◌, ◌≢◌, arith, bytes_Eq, int_Eq,
  Bytes, ◌∙◌, sym,
}
use smarthouse.GoMap.{lookup}
use smarthouse.GoTime.{Time}
use smarthouse.Ocpp.Types.{
  ChargePointState, CentralSystemHandler, TransactionInfo, has_transaction_ended, confirmed,
  start_accepted, stop_transaction, StartTransactionRequest, StopTransactionRequest,
}
use smarthouse.Ocpp.Handler.{started, on_start_transaction, on_stop_transaction}
use smarthouse.Ocpp.Transactions.{
  current_of, on_start_transaction_accepted, on_stop_transaction_found,
}

-- The request that stops transaction n.
abbrev pub stop_of : ℤ → ℤ → Option Time → StopTransactionRequest
stop_of n meter at = record { transaction_id = n; meter_stop = meter; timestamp = at }

-- A start on a free connector and then the stop of that transaction leave the connector free and the
-- transaction recorded with both ends; all other connectors and transactions are as before.
pub start_stop :
    (h : CentralSystemHandler) (cid : Bytes) (info : ChargePointState)
    (request : StartTransactionRequest) (meter : ℤ) (at : Option Time)
    → lookup cid h.charge_points ≡ some info
    → current_of info request.connector_id <ℤ pos 0
    → let n = h.next_transaction_id in
      let h₁ = (on_start_transaction h cid request).1 in
      let (reply, h₂) = on_stop_transaction h₁ cid (stop_of n meter at) in
      (reply ≡ confirmed stop_transaction)
      × (info₂ : ChargePointState) × (lookup cid h₂.charge_points ≡ some info₂)
      × (current_of info₂ request.connector_id ≡ negsuc 0)
      × (lookup n info₂.transactions
          ≡ some (record (started request n) { end_time = at; end_meter = meter }))
      × ((d : ℤ) → request.connector_id ≢ d → lookup d info₂.connectors ≡ lookup d info.connectors)
      × ((u : ℤ) → n ≢ u → lookup u info₂.transactions ≡ lookup u info.transactions)
start_stop h cid info request meter at e free =
    let (_, _, info₁, e₁, s, _) = on_start_transaction_accepted h cid info request e free in
    let n = h.next_transaction_id in
    let (reply, _, info₂, e₂, p, _) =
      on_stop_transaction_found (on_start_transaction h cid request).1 cid info₁ (started request n)
        (stop_of n meter at) e₁ s.0 in
    (
      reply,
      info₂,
      e₂,
      p.1,
      p.0,
      λ d other. p.2 d other ∙ s.2 d other,
      λ u other. p.3 u other ∙ s.3 u other,
    )

-- A stop of a transaction that has ended already, on a connector that by now runs another one, frees
-- the connector all the same: the running transaction stays open, and the connector accepts a start.
pub late_stop_frees :
    (h : CentralSystemHandler) (cid : Bytes) (info : ChargePointState)
    (ended open_one : TransactionInfo) (stop : StopTransactionRequest)
    (start : StartTransactionRequest)
    → lookup cid h.charge_points ≡ some info
    → lookup stop.transaction_id info.transactions ≡ some ended
    → has_transaction_ended ended ≡ true
    → lookup (current_of info ended.connector_id) info.transactions ≡ some open_one
    → has_transaction_ended open_one ≡ false
    → start.connector_id ≡ ended.connector_id
    → let h₁ = (on_stop_transaction h cid stop).1 in
      (info₁ : ChargePointState) × (lookup cid h₁.charge_points ≡ some info₁)
      × (lookup (current_of info ended.connector_id) info₁.transactions ≡ some open_one)
      × (current_of info₁ ended.connector_id ≡ negsuc 0)
      × ((on_start_transaction h₁ cid start).0 ≡ confirmed (start_accepted h.next_transaction_id))
late_stop_frees h cid info ended open_one stop start e t was_ended u still_open same =
    let (_, n, info₁, e₁, p, _) = on_stop_transaction_found h cid info ended stop e t in
    let free : current_of info₁ ended.connector_id <ℤ pos 0 = rw p.1 (omega arith) in
    let (accepted, _, _, _, _, _) =
      on_start_transaction_accepted (on_stop_transaction h cid stop).1 cid info₁ start e₁
        (subst (λ c. current_of info₁ c <ℤ pos 0) (sym same) free) in
    (
      info₁,
      e₁,
      p.3 (current_of info ended.connector_id) differs ∙ u,
      p.1,
      accepted ∙ ap (λ k. confirmed (start_accepted k)) n,
    )
  where
    differs : stop.transaction_id ≢ current_of info ended.connector_id
    differs d = ground (arith, ap (λ k. lookup k info.transactions) d)
