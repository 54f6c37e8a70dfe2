-- ===== src/Ocpp/Handler.antt =====
-- ocpp/handler.go: the callbacks of the core and the firmware profile. A callback takes the state and
-- gives the reply and the new state; what it writes through a pointer is put back into the map.
-- Logging is left out.
use smarthouse.Prelude.{
  ℤ, pos, negsuc, Option, none, some, List, [], ◌∷◌, Bytes, Bool, ltb_ℤ, leb_ℤ, add_int,
  if◌then◌else◌, Outcome, returned, panicked, int_Eq, bytes_Eq, ◌>>=◌,
}
use smarthouse.GoMap.{lookup, insert}
use smarthouse.GoTime.{Time}
use smarthouse.Float64.{Float64, FloatOps}
use smarthouse.Ocpp.Types.{
  Measurement, no_measurement, TransactionInfo, no_transaction, ConnectorInfo, idle_connector,
  BootNotificationRequest, ConfigurationKey, ChargePointState, CentralSystemHandler, Measurand,
  voltage, current_import, power_active_import, energy_active_import_register, other, SampledValue,
  MeterValue, MeterValuesRequest, StatusNotificationRequest, StartTransactionRequest,
  StopTransactionRequest, authorize_accepted, boot_accepted, data_transfer_accepted, heartbeat,
  meter_values, status_notification, start_accepted, stop_transaction,
  diagnostics_status_notification, firmware_status_notification, unknown_charge_point,
  connector_busy, Reply, confirmed, failed,
}

abbrev pub default_heartbeat_interval : ℤ
default_heartbeat_interval = pos 600

-- *handler.chargePoints[cid] = info
abbrev pub put_charge_point : CentralSystemHandler → Bytes → ChargePointState → CentralSystemHandler
put_charge_point h cid info = record h { charge_points = insert cid info h.charge_points }

-- *cps.Connectors[id] = ci
abbrev pub put_connector : ChargePointState → ℤ → ConnectorInfo → ChargePointState
put_connector cps id ci = record cps { connectors = insert id ci cps.connectors }

-- *cps.Transactions[id] = ti
abbrev pub put_transaction : ChargePointState → ℤ → TransactionInfo → ChargePointState
put_transaction cps id ti = record cps { transactions = insert id ti cps.transactions }

-- getConnector: the connector, and the state that it may have been added to.
unfoldable pub get_connector : ChargePointState → ℤ → ConnectorInfo × ChargePointState
get_connector cps id = elim (lookup id cps.connectors) [
  | none ↦ (idle_connector, put_connector cps id idle_connector)
  | some ci ↦ (ci, cps)
]

unfoldable pub on_authorize : CentralSystemHandler → Bytes → Reply × CentralSystemHandler
on_authorize h cid = (confirmed authorize_accepted, h)

unfoldable pub on_boot_notification :
    CentralSystemHandler → Bytes → BootNotificationRequest → Time → Reply × CentralSystemHandler
on_boot_notification h cid request now = (
  confirmed (boot_accepted now default_heartbeat_interval),
  elim (lookup cid h.charge_points) [
    | none ↦ h
    | some info ↦ put_charge_point h cid (record info { boot_data = request })
  ],
)

unfoldable pub on_data_transfer : CentralSystemHandler → Bytes → Reply × CentralSystemHandler
on_data_transfer h cid = (confirmed data_transfer_accepted, h)

unfoldable pub on_heartbeat : CentralSystemHandler → Bytes → Time → Reply × CentralSystemHandler
on_heartbeat h cid now = (confirmed (heartbeat now), h)

-- The `switch sv.Measurand`.
unfoldable pub record_sample : FloatOps → Measurand → Float64 → Measurement → Measurement
record_sample f voltage v m = record m { voltage = v }
record_sample f current_import v m = record m { current = v }
record_sample f power_active_import v m = record m { active_power = v }
record_sample f energy_active_import_register v m = record m { meter_reading = f.to_int64 v }
record_sample f (other name) v m = m

abbrev parsed_sample : FloatOps → Measurand → Option Float64 → Measurement → Measurement
parsed_sample f measurand none m = m
parsed_sample f measurand (some v) m = record_sample f measurand v m

-- The loop over mv.SampledValue; a value that does not parse is passed over.
unfoldable pub measure : FloatOps → List SampledValue → Measurement → Measurement
unfolding record_sample
measure f [] m = m
measure f (sv ∷ svs) m = measure f svs (parsed_sample f sv.measurand (f.parse_float sv.value) m)

-- The last part of processMeterValues, from `connector := info.getConnector(connectorId)`.
unfoldable pub store_measurement : ChargePointState → ℤ → ℤ → Measurement → Time → ChargePointState
unfolding get_connector
store_measurement info connector_id transaction_id m at =
    let (connector, info') = get_connector info connector_id in
    let measured =
      put_connector info' connector_id
        (record connector { last_measurement = some m; measurement_time = at }) in
    elim (lookup transaction_id measured.transactions) [
      | none ↦ measured
      | some ti ↦
          put_transaction measured transaction_id
            (record ti { last_measurement = some m; measurement_time = at })
    ]

unfoldable pub process_meter_values :
    FloatOps → CentralSystemHandler → Bytes → ℤ → ℤ → MeterValue → CentralSystemHandler
unfolding store_measurement measure
process_meter_values f h cid connector_id transaction_id mv = elim (lookup cid h.charge_points) [
  | none ↦ h
  | some info ↦ put_charge_point h cid (
      store_measurement info connector_id transaction_id (measure f mv.sampled_value no_measurement)
        mv.timestamp)
]

-- The loop over request.MeterValue. `*request.TransactionId` is read in its body.
unfoldable pub process_all :
    FloatOps
    → CentralSystemHandler
    → Bytes
    → ℤ
    → Option ℤ
    → List MeterValue
    → Outcome CentralSystemHandler
process_all f h cid connector_id transaction_id [] = returned h
process_all f h cid connector_id none (mv ∷ mvs) = panicked
process_all f h cid connector_id (some t) (mv ∷ mvs) =
    process_all f (process_meter_values f h cid connector_id t mv) cid connector_id (some t) mvs

unfoldable pub on_meter_values :
    FloatOps
    → CentralSystemHandler
    → Bytes
    → MeterValuesRequest
    → Outcome (Reply × CentralSystemHandler)
unfolding process_all
on_meter_values f h cid request = do
  h' ← process_all f h cid request.connector_id request.transaction_id request.meter_value
  returned (confirmed meter_values, h')

-- `info.ErrorCode = …`, and the status of one connector or of the whole charge point.
unfoldable pub notify_status : ChargePointState → StatusNotificationRequest → ChargePointState
unfolding get_connector
notify_status info request =
    let info' = record info { error_code = request.error_code } in
    if ltb_ℤ (pos 0) request.connector_id
    then (let (connector, info'') = get_connector info' request.connector_id in
        put_connector info'' request.connector_id (record connector { status = request.status }))
    else record info' { status = request.status }

unfoldable pub on_status_notification :
    CentralSystemHandler → Bytes → StatusNotificationRequest → Reply × CentralSystemHandler
unfolding notify_status
on_status_notification h cid request = elim (lookup cid h.charge_points) [
  | none ↦ (failed (unknown_charge_point cid), h)
  | some info ↦ (confirmed status_notification, put_charge_point h cid (notify_status info request))
]

-- The transaction that OnStartTransaction builds.
abbrev pub started : StartTransactionRequest → ℤ → TransactionInfo
started request id = record no_transaction {
  id_tag = request.id_tag;
  connector_id = request.connector_id;
  start_meter = request.meter_start;
  start_time = request.timestamp;
  id = id;
}

-- OnStartTransaction once the charge point is found.
unfoldable pub start_on :
    CentralSystemHandler
    → Bytes
    → ChargePointState
    → StartTransactionRequest
    → Reply × CentralSystemHandler
unfolding get_connector
start_on h cid info request =
    let (connector, info') = get_connector info request.connector_id in
    if leb_ℤ (pos 0) connector.current_transaction
    then (failed (connector_busy request.connector_id), put_charge_point h cid info')
    else (
      confirmed (start_accepted h.next_transaction_id),
      put_charge_point (record h { next_transaction_id = add_int h.next_transaction_id (pos 1) })
          cid
          (put_transaction
            (put_connector info' request.connector_id
              (record connector { current_transaction = h.next_transaction_id }))
            h.next_transaction_id (started request h.next_transaction_id)),
    )

unfoldable pub on_start_transaction :
    CentralSystemHandler → Bytes → StartTransactionRequest → Reply × CentralSystemHandler
unfolding start_on
on_start_transaction h cid request = elim (lookup cid h.charge_points) [
  | none ↦ (failed (unknown_charge_point cid), h)
  | some info ↦ start_on h cid info request
]

-- The body of `if ok` in OnStopTransaction: the connector is freed, whatever it was doing.
unfoldable pub end_transaction :
    ChargePointState → TransactionInfo → StopTransactionRequest → ChargePointState
unfolding get_connector
end_transaction info ti request =
    let (connector, info') = get_connector info ti.connector_id in
    put_transaction
      (put_connector info' ti.connector_id (record connector { current_transaction = negsuc 0 }))
      request.transaction_id
      (record ti { end_time = request.timestamp; end_meter = request.meter_stop })

unfoldable pub stop_in : ChargePointState → StopTransactionRequest → ChargePointState
unfolding end_transaction
stop_in info request = elim (lookup request.transaction_id info.transactions) [
  | none ↦ info
  | some ti ↦ end_transaction info ti request
]

unfoldable pub on_stop_transaction :
    CentralSystemHandler → Bytes → StopTransactionRequest → Reply × CentralSystemHandler
unfolding stop_in
on_stop_transaction h cid request = elim (lookup cid h.charge_points) [
  | none ↦ (failed (unknown_charge_point cid), h)
  | some info ↦ (confirmed stop_transaction, put_charge_point h cid (stop_in info request))
]

unfoldable pub on_diagnostics_status_notification :
    CentralSystemHandler → Bytes → Bytes → Reply × CentralSystemHandler
on_diagnostics_status_notification h cid status = elim (lookup cid h.charge_points) [
  | none ↦ (failed (unknown_charge_point cid), h)
  | some info ↦ (
    confirmed diagnostics_status_notification,
    put_charge_point h cid (record info { diagnostics_status = status }),
  )
]

unfoldable pub on_firmware_status_notification :
    CentralSystemHandler → Bytes → Bytes → Reply × CentralSystemHandler
on_firmware_status_notification h cid status = elim (lookup cid h.charge_points) [
  | none ↦ (failed (unknown_charge_point cid), h)
  | some info ↦ (
    confirmed firmware_status_notification,
    put_charge_point h cid (record info { firmware_status = status }),
  )
]

-- `conf.ConfigurationKey`, read where the charge point is known; `conf` may be nil.
abbrev configured :
    CentralSystemHandler
    → Bytes
    → Option ChargePointState
    → Option (List ConfigurationKey)
    → Outcome CentralSystemHandler
configured h cid none conf = returned h
configured h cid (some info) none = panicked
configured h cid (some info) (some keys) =
    returned (put_charge_point h cid (record info { config_keys = keys }))

-- `errored` is `err != nil`.
unfoldable pub on_config :
    CentralSystemHandler
    → Bytes
    → Option (List ConfigurationKey)
    → Bool
    → Outcome CentralSystemHandler
on_config h cid conf errored =
    if errored then returned h else configured h cid (lookup cid h.charge_points) conf
