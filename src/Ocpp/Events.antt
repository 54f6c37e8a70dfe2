-- ===== src/Ocpp/Events.antt =====
-- ocpp/main.go: the callbacks on connections, and everything that reaches the handler as one sequence
-- of whole callbacks. A reply is dropped here; a panic ends the process.
use smarthouse.Prelude.{
  Option, none, some, List, [], ◌∷◌, Bytes, Bool, Outcome, returned, ◌>>=◌, bytes_Eq,
}
use smarthouse.GoMap.{lookup, delete}
use smarthouse.GoTime.{Time}
use smarthouse.Float64.{FloatOps}
use smarthouse.Ocpp.Types.{
  BootNotificationRequest, ConfigurationKey, new_charge_point, CentralSystemHandler,
  MeterValuesRequest, StatusNotificationRequest, StartTransactionRequest, StopTransactionRequest,
}
use smarthouse.Ocpp.Handler.{
  put_charge_point, on_authorize, on_boot_notification, on_data_transfer, on_heartbeat,
  on_meter_values, on_status_notification, on_start_transaction, on_stop_transaction,
  on_diagnostics_status_notification, on_firmware_status_notification, on_config,
}

-- The function that main gives to SetNewChargePointHandler.
unfoldable pub on_connect : CentralSystemHandler → Bytes → CentralSystemHandler
on_connect h cid = elim (lookup cid h.charge_points) [
  | none ↦ put_charge_point h cid new_charge_point
  | some info ↦ h
]

-- The function that main gives to SetChargePointDisconnectedHandler.
unfoldable pub on_disconnect : CentralSystemHandler → Bytes → CentralSystemHandler
on_disconnect h cid = record h { charge_points = delete cid h.charge_points }

pub data Message : Type 0 where
  connect disconnect authorize data_transfer heartbeat : Message
  boot_notification : BootNotificationRequest → Message
  meter_values : MeterValuesRequest → Message
  status_notification : StatusNotificationRequest → Message
  start_transaction : StartTransactionRequest → Message
  stop_transaction : StopTransactionRequest → Message
  diagnostics_status_notification : Bytes → Message
  firmware_status_notification : Bytes → Message
  -- The answer to the request that requestConfiguration sends.
  configuration : Option (List ConfigurationKey) → Bool → Message

-- What happens, at which charge point, and when.
pub record Event : Type 0 where
  pub charge_point : Bytes
  pub time : Time
  pub message : Message

-- The callback of a message.
unfoldable pub handle :
    FloatOps → CentralSystemHandler → Bytes → Time → Message → Outcome CentralSystemHandler
unfolding on_connect on_disconnect on_authorize on_data_transfer on_heartbeat
handle f h cid now connect = returned (on_connect h cid)
handle f h cid now disconnect = returned (on_disconnect h cid)
handle f h cid now authorize = returned (on_authorize h cid).1
handle f h cid now data_transfer = returned (on_data_transfer h cid).1
handle f h cid now heartbeat = returned (on_heartbeat h cid now).1
handle f h cid now (boot_notification request) = returned (on_boot_notification h cid request now).1
handle f h cid now (meter_values request) = do
  (reply, h') ← on_meter_values f h cid request
  returned h'
handle f h cid now (status_notification request) = returned (on_status_notification h cid request).1
handle f h cid now (start_transaction request) = returned (on_start_transaction h cid request).1
handle f h cid now (stop_transaction request) = returned (on_stop_transaction h cid request).1
handle f h cid now (diagnostics_status_notification status) =
    returned (on_diagnostics_status_notification h cid status).1
handle f h cid now (firmware_status_notification status) =
    returned (on_firmware_status_notification h cid status).1
handle f h cid now (configuration conf errored) = on_config h cid conf errored

unfoldable pub run : FloatOps → CentralSystemHandler → List Event → Outcome CentralSystemHandler
run f h [] = returned h
run f h (e ∷ es) = do h' ← handle f h e.charge_point e.time e.message; run f h' es
