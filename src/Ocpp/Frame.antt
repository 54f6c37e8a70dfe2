-- ===== src/Ocpp/Frame.antt =====
-- What the callbacks of ocpp/handler.go leave alone.
use smarthouse.Prelude.{
  ℤ, pos, leb_ℤ, Option, none, some, Bool, true, false, ◌≡◌, ◌≢◌, refl, arith, bytes_Eq, int_Eq,
  ==_iff, List, [], ◌∷◌, ◌↔◌, inl, inr, Option-cases, Bool-cases, Bytes, Outcome, returned,
  panicked, >>=-eq-returned, ◌∙◌,
}
use smarthouse.GoMap.{lookup, lookup-insert, lookup-delete}
use smarthouse.GoTime.{Time}
use smarthouse.Float64.{FloatOps}
use smarthouse.Ocpp.Types.{
  ChargePointState, CentralSystemHandler, MeterValue, MeterValuesRequest, ConfigurationKey, Reply,
  StartTransactionRequest,
}
use smarthouse.Ocpp.Handler.{
  put_charge_point, get_connector, process_meter_values, process_all, on_authorize, on_heartbeat,
  on_data_transfer, on_meter_values, on_boot_notification, on_status_notification,
  on_start_transaction, start_on, on_stop_transaction, on_diagnostics_status_notification,
  on_firmware_status_notification, on_config,
}
use smarthouse.Ocpp.Events.{Message, on_connect, on_disconnect, handle}

-- The calls that dereference a nil pointer: meter values without a transaction's number, and a
-- configuration that is neither there nor an error, for a charge point that is connected.
abbrev pub Panics : CentralSystemHandler → Bytes → Message → Type 0
Panics h cid (Message.meter_values request) =
    (request.transaction_id ≡ none) × (request.meter_value ≢ [])
Panics h cid (Message.configuration none false) = lookup cid h.charge_points ≢ none
Panics h cid _ = ⊥

process_all_panics :
    (f : FloatOps) (h : CentralSystemHandler) (cid : Bytes) (c : ℤ) (o : Option ℤ)
    (mvs : List MeterValue)
    → (process_all f h cid c o mvs ≡ panicked) ↔ ((o ≡ none) × (mvs ≢ []))
unfolding process_all
process_all_panics f h cid c none [] = ground arith
process_all_panics f h cid c none (mv ∷ mvs) = ground arith
process_all_panics f h cid c (some t) [] = ground arith
process_all_panics f h cid c (some t) (mv ∷ mvs) =
    (λ e. absurd (stays (process_meter_values f h cid c t mv) mvs e), λ e. ground arith)
  where
    stays :
        (k : CentralSystemHandler) (xs : List MeterValue)
        → process_all f k cid c (some t) xs ≢ panicked
    stays k [] e = ground arith
    stays k (x ∷ xs) e = stays (process_meter_values f k cid c t x) xs e

-- A callback panics exactly for meter values that carry no transaction's number and are not empty,
-- and for an absent configuration that comes without an error while the charge point is connected.
pub handle-Panics :
    (f : FloatOps) (h : CentralSystemHandler) (cid : Bytes) (now : Time) (m : Message)
    → (handle f h cid now m ≡ panicked) ↔ Panics h cid m
unfolding handle on_meter_values on_config
handle-Panics f h cid now (Message.meter_values request) = ground (
  arith,
  process_all_panics f h cid request.connector_id request.transaction_id request.meter_value,
)
handle-Panics f h cid now (Message.configuration none true) = ground arith
handle-Panics f h cid now (Message.configuration none false) = ground arith
handle-Panics f h cid now (Message.configuration (some keys) true) = ground arith
handle-Panics f h cid now (Message.configuration (some keys) false) = ground arith
handle-Panics f h cid now _ = ground arith

put_other :
    (h : CentralSystemHandler) (cid did : Bytes) (info : ChargePointState)
    → cid ≢ did
    → lookup did (put_charge_point h cid info).charge_points ≡ lookup did h.charge_points
put_other h cid did info other =
    ground (arith, lookup-insert cid did info h.charge_points, ==_iff cid did)

module _ (h : CentralSystemHandler) (cid did : Bytes) (other : cid ≢ did) where
  known-other :
      (write : ChargePointState → ChargePointState) (o : Option ChargePointState)
      → lookup did
          (elim o as (λ _. CentralSystemHandler) [
            | none ↦ h
            | some info ↦ put_charge_point h cid (write info)
          ]).charge_points
        ≡ lookup did h.charge_points
  known-other write none = refl
  known-other write (some info) = put_other h cid did (write info) other

  known_reply-other :
      (refused accepted : Reply) (write : ChargePointState → ChargePointState)
      (o : Option ChargePointState)
      → lookup did
          (elim o as (λ _. Reply × CentralSystemHandler) [
            | none ↦ (refused, h)
            | some info ↦ (accepted, put_charge_point h cid (write info))
          ]).1.charge_points
        ≡ lookup did h.charge_points
  known_reply-other refused accepted write none = refl
  known_reply-other refused accepted write (some info) = put_other h cid did (write info) other

  start_on-other :
      (info : ChargePointState) (request : StartTransactionRequest)
      → lookup did (start_on h cid info request).1.charge_points ≡ lookup did h.charge_points
  unfolding start_on
  start_on-other info request = elim (Bool-cases busy) [
    | inl b ↦ rw (b, start_on) (put_other h cid did _ other)
    | inr b ↦ rw (b, start_on) (put_other h cid did _ other)
  ]
    where
      busy : Bool
      busy = leb_ℤ (pos 0) (get_connector info request.connector_id).0.current_transaction

  on_start_transaction-other :
      (request : StartTransactionRequest)
      → lookup did (on_start_transaction h cid request).1.charge_points ≡ lookup did h.charge_points
  unfolding on_start_transaction
  on_start_transaction-other request = elim (Option-cases (lookup cid h.charge_points)) [
    | inl e ↦ rw (e, on_start_transaction)
    | inr (info, e) ↦ rw (e, on_start_transaction) (start_on-other info request)
  ]

  on_connect-other : lookup did (on_connect h cid).charge_points ≡ lookup did h.charge_points
  unfolding on_connect
  on_connect-other = elim (Option-cases (lookup cid h.charge_points)) [
    | inl e ↦ rw (e, on_connect) (put_other h cid did _ other)
    | inr (info, e) ↦ rw (e, on_connect)
  ]

process_all-other :
    (f : FloatOps) (h : CentralSystemHandler) (cid did : Bytes) (c : ℤ) (o : Option ℤ)
    (mvs : List MeterValue) (h' : CentralSystemHandler)
    → cid ≢ did
    → process_all f h cid c o mvs ≡ returned h'
    → lookup did h'.charge_points ≡ lookup did h.charge_points
unfolding process_all
process_all-other f h cid did c o [] h' other e = ground arith
process_all-other f h cid did c none (mv ∷ mvs) h' other e = ground arith
process_all-other f h cid did c (some t) (mv ∷ mvs) h' other e =
    process_all-other f (process_meter_values f h cid c t mv) cid did c (some t) mvs h' other e
    ∙ one
  where
    one :
        lookup did (process_meter_values f h cid c t mv).charge_points ≡ lookup did h.charge_points
    one = unfold process_meter_values in known-other h cid did other _ (lookup cid h.charge_points)

-- A state that is returned may stand for the call that returns it.
moved :
    (h : CentralSystemHandler) (did : Bytes) {k h' : CentralSystemHandler}
    → returned k ≡ returned h'
    → lookup did k.charge_points ≡ lookup did h.charge_points
    → lookup did h'.charge_points ≡ lookup did h.charge_points
moved h did e same = ground arith

moved_pair :
    (h : CentralSystemHandler) (did : Bytes) {k h' : CentralSystemHandler} {r r' : Reply}
    → ◌≡◌ {A = Outcome (Reply × CentralSystemHandler)} (returned (r, k)) (returned (r', h'))
    → lookup did k.charge_points ≡ lookup did h.charge_points
    → lookup did h'.charge_points ≡ lookup did h.charge_points
moved_pair h did e same = ground arith

on_meter_values-other :
    (f : FloatOps) (h h' : CentralSystemHandler) (cid did : Bytes) (request : MeterValuesRequest)
    (r : Reply)
    → cid ≢ did
    → on_meter_values f h cid request ≡ returned (r, h')
    → lookup did h'.charge_points ≡ lookup did h.charge_points
unfolding on_meter_values
on_meter_values-other f h h' cid did request r other e =
    let (k, ran, out) =
      >>=-eq-returned
        (process_all f h cid request.connector_id request.transaction_id request.meter_value) _ e in
    moved_pair h did out (
      process_all-other f h cid did request.connector_id request.transaction_id request.meter_value
        k other ran)

on_config-other :
    (h h' : CentralSystemHandler) (cid did : Bytes) (conf : Option (List ConfigurationKey))
    (errored : Bool)
    → cid ≢ did
    → on_config h cid conf errored ≡ returned h'
    → lookup did h'.charge_points ≡ lookup did h.charge_points
unfolding on_config
on_config-other h h' cid did conf true other e = ground arith
on_config-other h h' cid did none false other e = ground arith
on_config-other h h' cid did (some keys) false other e =
    let same =
      known-other h cid did other (λ info. record info { config_keys = keys })
        (lookup cid h.charge_points) in
    ground arith

-- A callback for one charge point changes nothing of any other.
pub handle-other :
    (f : FloatOps) (h h' : CentralSystemHandler) (cid did : Bytes) (now : Time) (m : Message)
    → cid ≢ did
    → handle f h cid now m ≡ returned h'
    → lookup did h'.charge_points ≡ lookup did h.charge_points
unfolding handle on_authorize on_data_transfer on_heartbeat
handle-other f h h' cid did now Message.connect other e =
    moved h did e (on_connect-other h cid did other)
handle-other f h h' cid did now Message.disconnect other e =
    unfold on_disconnect in ground (arith, lookup-delete cid did h.charge_points, ==_iff cid did)
handle-other f h h' cid did now Message.authorize other e = ground arith
handle-other f h h' cid did now Message.data_transfer other e = ground arith
handle-other f h h' cid did now Message.heartbeat other e = ground arith
handle-other f h h' cid did now (Message.boot_notification request) other e =
    unfold on_boot_notification in
    moved h did e (
      known-other h cid did other (λ info. record info { boot_data = request })
        (lookup cid h.charge_points))
handle-other f h h' cid did now (Message.meter_values request) other e =
    let ((reply, k), ran, out) = >>=-eq-returned (on_meter_values f h cid request) _ e in
    moved h did out (on_meter_values-other f h k cid did request reply other ran)
handle-other f h h' cid did now (Message.status_notification request) other e =
    unfold on_status_notification in
    moved h did e (known_reply-other h cid did other _ _ _ (lookup cid h.charge_points))
handle-other f h h' cid did now (Message.start_transaction request) other e =
    moved h did e (on_start_transaction-other h cid did other request)
handle-other f h h' cid did now (Message.stop_transaction request) other e =
    unfold on_stop_transaction in
    moved h did e (known_reply-other h cid did other _ _ _ (lookup cid h.charge_points))
handle-other f h h' cid did now (Message.diagnostics_status_notification status) other e =
    unfold on_diagnostics_status_notification in
    moved h did e (known_reply-other h cid did other _ _ _ (lookup cid h.charge_points))
handle-other f h h' cid did now (Message.firmware_status_notification status) other e =
    unfold on_firmware_status_notification in
    moved h did e (known_reply-other h cid did other _ _ _ (lookup cid h.charge_points))
handle-other f h h' cid did now (Message.configuration conf errored) other e =
    on_config-other h h' cid did conf errored other e
