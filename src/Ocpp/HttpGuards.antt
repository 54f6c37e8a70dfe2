-- ===== src/Ocpp/HttpGuards.antt =====
-- What the handlers of ocpp/http.go let through, and that the callbacks of ocpp/handler.go then accept
-- what the charge point does with it.
use smarthouse.Prelude.{
  ℤ, pos, ◌<ℤ◌, Option, none, some, Bytes, codes, false, not, if◌then◌else◌, ◌≡◌, ◌≢◌, refl, arith,
  int_Eq, bytes_Eq, ◌==◌, ==_iff, Bool-cases, inl, inr, ap, subst,
}
use smarthouse.GoMap.{lookup}
use smarthouse.GoTime.{Time}
use smarthouse.GoConv.{atoi}
use smarthouse.Ocpp.Types.{
  ConnectorInfo, has_transaction_in_progress, TransactionInfo, has_transaction_ended,
  ChargePointState, CentralSystemHandler, confirmed, start_accepted, stop_transaction,
  StartTransactionRequest,
}
use smarthouse.Ocpp.Handler.{on_start_transaction, on_stop_transaction}
use smarthouse.Ocpp.Transactions.{
  current_in, current_of, Stopped, on_start_transaction_accepted, on_stop_transaction_found,
}
use smarthouse.Ocpp.Sessions.{stop_of}
use smarthouse.Ocpp.Http.{
  HttpRequest, Check, Command, sends, remote_start_transaction, remote_stop_transaction, post,
  target, check_start, check_stop, start_at, stop_at, start_number, stop_number, check_connector,
  check_transaction,
}

check_connector_sends :
    (cid : Bytes) (c : ℤ) (o : Option ConnectorInfo) (command : Command)
    → check_connector cid c o ≡ sends command
    → (command ≡ remote_start_transaction cid (codes "1") c)
      × (ci : ConnectorInfo) × (o ≡ some ci)
      × (ci.current_transaction <ℤ pos 0)
unfolding check_connector has_transaction_in_progress
check_connector_sends cid c none command e = ground arith
check_connector_sends cid c (some ci) command e = (ground arith, ci, refl, ground arith)

start_number_sends :
    (cid : Bytes) (info : ChargePointState) (o : Option ℤ) (command : Command)
    → start_number cid info o ≡ sends command
    → (c : ℤ) × (o ≡ some c)
      × (command ≡ remote_start_transaction cid (codes "1") c)
      × (ci : ConnectorInfo) × (lookup c info.connectors ≡ some ci)
      × (ci.current_transaction <ℤ pos 0)
unfolding start_number
start_number_sends cid info none command e = ground arith
start_number_sends cid info (some c) command e =
    let (is, ci, at, free) = check_connector_sends cid c (lookup c info.connectors) command e in
    (c, refl, is, ci, at, free)

-- A test that is passed, and the branch behind it.
post_passed :
    (method : Bytes) (other next : Check) (command : Command)
    → (if not (method == post) then other else next) ≡ sends command
    → other ≢ sends command
    → (method ≡ post) × (next ≡ sends command)
post_passed method other next command e never = elim (Bool-cases (method == post)) [
  | inl is ↦ ((==_iff method post).0 is, rw is at e)
  | inr differs ↦ absurd (never (rw differs at e))
]

start_at_sends :
    (cid last : Bytes) (o : Option ChargePointState) (command : Command)
    → start_at cid last o ≡ sends command
    → (info : ChargePointState) × (o ≡ some info)
      × (start_number cid info (atoi last) ≡ sends command)
unfolding start_at
start_at_sends cid last none command e = ground arith
start_at_sends cid last (some info) command e = (info, refl, e)

-- StartTransaction sends a command only for a POST, to a charge point that is connected, for a
-- connector that is there and free; the command names these, and the tag "1". If the charge point
-- then starts that connector, with the state unchanged, OnStartTransaction accepts.
pub check_start_guards :
    (h : CentralSystemHandler) (r : HttpRequest) (command : Command)
    → check_start h r ≡ sends command
    → let cid = (target r.path).0 in
      (r.method ≡ post)
      × (info : ChargePointState) × (lookup cid h.charge_points ≡ some info)
      × (c : ℤ) × (atoi (target r.path).1 ≡ some c)
      × (command ≡ remote_start_transaction cid (codes "1") c)
      × (ci : ConnectorInfo) × (lookup c info.connectors ≡ some ci)
      × (ci.current_transaction <ℤ pos 0)
      × ((request : StartTransactionRequest)
          → c ≡ request.connector_id
          → (on_start_transaction h cid request).0
            ≡ confirmed (start_accepted h.next_transaction_id))
unfolding check_start
check_start_guards h r command e =
    let cid = (target r.path).0 in
    let (is_post, passed) = post_passed r.method _ _ command e (λ x. ground arith) in
    let (info, known, numbered) =
      start_at_sends cid (target r.path).1 (lookup cid h.charge_points) command passed in
    let (c, number, is, ci, at, free) =
      start_number_sends cid info (atoi (target r.path).1) command numbered in
    let idle : current_of info c <ℤ pos 0 = rw (ap current_in at) free in
    (
      is_post,
      info,
      known,
      c,
      number,
      is,
      ci,
      at,
      free,
      λ request same.
          (on_start_transaction_accepted h cid info request known
            (subst (λ d. current_of info d <ℤ pos 0) same idle)).0,
    )

check_transaction_sends :
    (cid : Bytes) (t : ℤ) (o : Option TransactionInfo) (command : Command)
    → check_transaction cid t o ≡ sends command
    → (command ≡ remote_stop_transaction cid t)
      × (ti : TransactionInfo) × (o ≡ some ti)
      × (has_transaction_ended ti ≡ false)
unfolding check_transaction
check_transaction_sends cid t none command e = ground arith
check_transaction_sends cid t (some ti) command e = (ground arith, ti, refl, ground arith)

stop_number_sends :
    (cid : Bytes) (info : ChargePointState) (o : Option ℤ) (command : Command)
    → stop_number cid info o ≡ sends command
    → (t : ℤ) × (o ≡ some t)
      × (command ≡ remote_stop_transaction cid t)
      × (ti : TransactionInfo) × (lookup t info.transactions ≡ some ti)
      × (has_transaction_ended ti ≡ false)
unfolding stop_number
stop_number_sends cid info none command e = ground arith
stop_number_sends cid info (some t) command e =
    let (is, ti, at, runs) = check_transaction_sends cid t (lookup t info.transactions) command e in
    (t, refl, is, ti, at, runs)

stop_at_sends :
    (cid last : Bytes) (o : Option ChargePointState) (command : Command)
    → stop_at cid last o ≡ sends command
    → (info : ChargePointState) × (o ≡ some info)
      × (stop_number cid info (atoi last) ≡ sends command)
unfolding stop_at
stop_at_sends cid last none command e = ground arith
stop_at_sends cid last (some info) command e = (info, refl, e)

-- StopTransaction sends a command only for a POST, to a charge point that is connected, for a
-- transaction that is recorded there and has not ended; the command names these. If the charge point
-- then stops that transaction, with the state unchanged, OnStopTransaction confirms it and frees the
-- transaction's connector.
pub check_stop_guards :
    (h : CentralSystemHandler) (r : HttpRequest) (command : Command)
    → check_stop h r ≡ sends command
    → let cid = (target r.path).0 in
      (r.method ≡ post)
      × (info : ChargePointState) × (lookup cid h.charge_points ≡ some info)
      × (t : ℤ) × (atoi (target r.path).1 ≡ some t)
      × (command ≡ remote_stop_transaction cid t)
      × (ti : TransactionInfo) × (lookup t info.transactions ≡ some ti)
      × (has_transaction_ended ti ≡ false)
      × ((meter : ℤ) (at : Option Time)
          → let (reply, h') = on_stop_transaction h cid (stop_of t meter at) in
            (reply ≡ confirmed stop_transaction)
            × (info' : ChargePointState) × (lookup cid h'.charge_points ≡ some info')
            × Stopped info info' ti (stop_of t meter at))
unfolding check_stop
check_stop_guards h r command e =
    let cid = (target r.path).0 in
    let (is_post, passed) = post_passed r.method _ _ command e (λ x. ground arith) in
    let (info, known, numbered) =
      stop_at_sends cid (target r.path).1 (lookup cid h.charge_points) command passed in
    let (t, number, is, ti, at, runs) =
      stop_number_sends cid info (atoi (target r.path).1) command numbered in
    (
      is_post,
      info,
      known,
      t,
      number,
      is,
      ti,
      at,
      runs,
      λ meter end.
          let (reply, _, info', known', stopped, _) =
            on_stop_transaction_found h cid info ti (stop_of t meter end) known at in
          (reply, info', known', stopped),
    )
