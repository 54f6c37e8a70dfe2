-- ===== src/Ocpp/Callbacks.antt =====
-- Each callback of ocpp/handler.go leaves a valid state behind.
use smarthouse.Prelude.{
  ap, neg_part, ◌∙◌, subst, suc, pos_part, ℤ, pos, negsuc, ◌<ℤ◌, leb_ℤ, Option, none, some, Bool,
  true, false, ◌≡◌, refl, arith, bytes_Eq, List, [], ◌∷◌, inl, inr, Option-cases, Bool-cases,
  max_int, add_int-one, Bytes, returned, >>=-eq-returned,
}
use smarthouse.GoMap.{Map, lookup}
use smarthouse.GoTime.{Time}
use smarthouse.Float64.{FloatOps}
use smarthouse.Ocpp.Types.{
  BootNotificationRequest, StopTransactionRequest, StatusNotificationRequest, ConfigurationKey,
  Reply, MeterValuesRequest, ChargePointState, CentralSystemHandler, StartTransactionRequest,
  MeterValue,
}
use smarthouse.Ocpp.Handler.{
  get_connector, process_meter_values, process_all, on_meter_values, start_on, on_boot_notification,
  on_status_notification, on_start_transaction, on_stop_transaction,
  on_diagnostics_status_notification, on_firmware_status_notification, on_config,
}
use smarthouse.Ocpp.Consistent.{IsConsistent, get_connector-IsConsistent}
use smarthouse.Ocpp.Writes.{
  notify_status-IsConsistent, store_measurement-IsConsistent, start-IsConsistent,
  stop_in-IsConsistent,
}
use smarthouse.Ocpp.Invariant.{
  IsValid, put_charge_point-IsValid, Follows, stay-Follows, put-Follows, other_fields-IsConsistent,
  known-Follows, known_reply-Follows,
}

pub on_boot_notification-Follows :
    (h : CentralSystemHandler) (cid : Bytes) (request : BootNotificationRequest) (now : Time)
    → IsValid h
    → Follows h (on_boot_notification h cid request now).1
unfolding on_boot_notification
on_boot_notification-Follows h cid request now v =
    known-Follows h cid (λ info. record info { boot_data = request }) v
      (λ info w. other_fields-IsConsistent _ info _ refl refl w) (lookup cid h.charge_points) refl

pub on_status_notification-Follows :
    (h : CentralSystemHandler) (cid : Bytes) (request : StatusNotificationRequest)
    → IsValid h
    → Follows h (on_status_notification h cid request).1
unfolding on_status_notification
on_status_notification-Follows h cid request v =
    known_reply-Follows h cid _ _ _ v
      (λ info w. notify_status-IsConsistent h.next_transaction_id info request w)
      (lookup cid h.charge_points) refl

pub on_stop_transaction-Follows :
    (h : CentralSystemHandler) (cid : Bytes) (request : StopTransactionRequest)
    → IsValid h
    → Follows h (on_stop_transaction h cid request).1
unfolding on_stop_transaction
on_stop_transaction-Follows h cid request v =
    known_reply-Follows h cid _ _ _ v
      (λ info w. stop_in-IsConsistent h.next_transaction_id info request w)
      (lookup cid h.charge_points) refl

pub on_diagnostics-Follows :
    (h : CentralSystemHandler) (cid status : Bytes)
    → IsValid h
    → Follows h (on_diagnostics_status_notification h cid status).1
unfolding on_diagnostics_status_notification
on_diagnostics-Follows h cid status v =
    known_reply-Follows h cid _ _ (λ info. record info { diagnostics_status = status }) v
      (λ info w. other_fields-IsConsistent _ info _ refl refl w) (lookup cid h.charge_points) refl

pub on_firmware-Follows :
    (h : CentralSystemHandler) (cid status : Bytes)
    → IsValid h
    → Follows h (on_firmware_status_notification h cid status).1
unfolding on_firmware_status_notification
on_firmware-Follows h cid status v =
    known_reply-Follows h cid _ _ (λ info. record info { firmware_status = status }) v
      (λ info w. other_fields-IsConsistent _ info _ refl refl w) (lookup cid h.charge_points) refl

-- The state with its two fields apart.
abbrev state_of : Map Bytes ChargePointState → ℤ → CentralSystemHandler
state_of m n = record { charge_points = m; next_transaction_id = n }

pub start_on-Follows :
    (m : Map Bytes ChargePointState) (n : ℤ) (cid : Bytes) (info : ChargePointState)
    (request : StartTransactionRequest)
    → n <ℤ max_int
    → IsValid (state_of m n)
    → IsConsistent n info
    → Follows (state_of m n) (start_on (state_of m n) cid info request).1
unfolding start_on
start_on-Follows m (negsuc k) cid info request up v w = absurd (omega (arith, v.counted))
start_on-Follows m (pos k) cid info request up v w = elim (Bool-cases busy) [
  | inl b ↦
      rw (b, start_on)
        (put-Follows (state_of m (pos k)) cid _ v
          (get_connector-IsConsistent (pos k) info request.connector_id w))
  | inr b ↦
      rw (b, start_on, add_int-one k up)
        (record {
          valid =
              put_charge_point-IsValid (state_of m (pos k)) (pos (suc k)) cid _ v (omega arith)
                (start-IsConsistent k info request w);
          grows = omega arith;
          by_one = omega arith;
        })
]
  where
    busy : Bool
    busy = leb_ℤ (pos 0) (get_connector info request.connector_id).0.current_transaction

pub on_start_transaction-Follows :
    (h : CentralSystemHandler) (cid : Bytes) (request : StartTransactionRequest)
    → h.next_transaction_id <ℤ max_int
    → IsValid h
    → Follows h (on_start_transaction h cid request).1
unfolding on_start_transaction
on_start_transaction-Follows h cid request up v = elim (Option-cases (lookup cid h.charge_points)) [
  | inl e ↦ rw (e, on_start_transaction) (stay-Follows h v)
  | inr (info, e) ↦
      rw (e, on_start_transaction)
        (start_on-Follows h.charge_points h.next_transaction_id cid info request up v
          (v.each cid info e))
]

process_meter_values-IsValid :
    (f : FloatOps) (h : CentralSystemHandler) (cid : Bytes) (c t : ℤ) (mv : MeterValue)
    → IsValid h
    → IsValid (process_meter_values f h cid c t mv)
      × ((process_meter_values f h cid c t mv).next_transaction_id ≡ h.next_transaction_id)
unfolding process_meter_values
process_meter_values-IsValid f h cid c t mv v = (
  (known-Follows h cid _ v
      (λ info w. store_measurement-IsConsistent h.next_transaction_id info c t _ mv.timestamp w)
      (lookup cid h.charge_points) refl).valid,
  ground arith,
)

-- Meter values add no transaction.
pub process_all-IsValid :
    (f : FloatOps) (h : CentralSystemHandler) (cid : Bytes) (c : ℤ) (o : Option ℤ)
    (mvs : List MeterValue) (h' : CentralSystemHandler)
    → IsValid h
    → process_all f h cid c o mvs ≡ returned h'
    → IsValid h' × (h'.next_transaction_id ≡ h.next_transaction_id)
unfolding process_all
process_all-IsValid f h cid c o [] h' v e =
    subst (λ k. IsValid k × (k.next_transaction_id ≡ h.next_transaction_id)) (ground arith)
      (v, refl)
process_all-IsValid f h cid c none (mv ∷ mvs) h' v e = ground arith
process_all-IsValid f h cid c (some t) (mv ∷ mvs) h' v e =
    let (w, same) = process_meter_values-IsValid f h cid c t mv v in
    let (w', same') =
      process_all-IsValid f (process_meter_values f h cid c t mv) cid c (some t) mvs h' w e in
    (w', same' ∙ same)

pub on_meter_values-Follows :
    (f : FloatOps) (h h' : CentralSystemHandler) (cid : Bytes) (request : MeterValuesRequest)
    (r : Reply)
    → IsValid h
    → on_meter_values f h cid request ≡ returned (r, h')
    → Follows h h'
unfolding on_meter_values
on_meter_values-Follows f h h' cid request r v e =
    let (k, ran, out) =
      >>=-eq-returned
        (process_all f h cid request.connector_id request.transaction_id request.meter_value) _ e in
    let (w, same) =
      process_all-IsValid f h cid request.connector_id request.transaction_id request.meter_value k
        v ran in
    subst (Follows h) (ground arith) (record {
      valid = w;
      grows = omega (arith, ap pos_part same, ap neg_part same);
      by_one = omega (arith, ap pos_part same);
    })

pub on_config-Follows :
    (h h' : CentralSystemHandler) (cid : Bytes) (conf : Option (List ConfigurationKey))
    (errored : Bool)
    → IsValid h
    → on_config h cid conf errored ≡ returned h'
    → Follows h h'
unfolding on_config
on_config-Follows h h' cid conf true v e = subst (Follows h) (ground arith) (stay-Follows h v)
on_config-Follows h h' cid none false v e = subst (Follows h) (ground arith) (stay-Follows h v)
on_config-Follows h h' cid (some keys) false v e = subst (Follows h) (ground arith) (
    known-Follows h cid (λ info. record info { config_keys = keys }) v
      (λ info w. other_fields-IsConsistent _ info _ refl refl w) (lookup cid h.charge_points) refl)
