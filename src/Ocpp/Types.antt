-- ===== src/Ocpp/Types.antt =====
-- The state of the central system (ocpp/handler.go), and what of the OCPP messages the code reads.
-- Types of the ocpp-go package appear by the fields that this repository reads; its string types,
-- such as ChargePointStatus, are byte strings.
use smarthouse.Prelude.{
  ℤ, pos, negsuc, Option, none, some, List, [], Bytes, Bool, false, not, leb_ℤ,
}
use smarthouse.GoMap.{Map}
use smarthouse.GoTime.{Time, is_zero}
use smarthouse.Float64.{Float64, zero_float}

-- type Measurement
pub record Measurement : Type 0 where
  pub voltage : Float64
  pub current : Float64
  pub active_power : Float64
  pub meter_reading : ℤ

-- Measurement{}
abbrev pub no_measurement : Measurement
no_measurement = record {
  voltage = zero_float;
  current = zero_float;
  active_power = zero_float;
  meter_reading = pos 0;
}

-- type TransactionInfo; `*types.DateTime` is an optional time.
pub record TransactionInfo : Type 0 where
  pub id : ℤ
  pub start_time : Option Time
  pub end_time : Option Time
  pub start_meter : ℤ
  pub end_meter : ℤ
  pub connector_id : ℤ
  pub id_tag : Bytes
  pub last_measurement : Option Measurement
  pub measurement_time : Time

-- TransactionInfo{}
abbrev pub no_transaction : TransactionInfo
no_transaction = record {
  id = pos 0;
  start_time = none;
  end_time = none;
  start_meter = pos 0;
  end_meter = pos 0;
  connector_id = pos 0;
  id_tag = [];
  last_measurement = none;
  measurement_time = pos 0;
}

-- ti.EndTime != nil && !ti.EndTime.IsZero()
abbrev pub is_end : Option Time → Bool
is_end none = false
is_end (some t) = not (is_zero t)

unfoldable pub has_transaction_ended : TransactionInfo → Bool
unfolding is_zero
has_transaction_ended ti = is_end ti.end_time

-- type ConnectorInfo
pub record ConnectorInfo : Type 0 where
  pub status : Bytes
  pub current_transaction : ℤ
  pub last_measurement : Option Measurement
  pub measurement_time : Time

-- ConnectorInfo{CurrentTransaction: -1}
abbrev pub idle_connector : ConnectorInfo
idle_connector = record {
  status = [];
  current_transaction = negsuc 0;
  last_measurement = none;
  measurement_time = pos 0;
}

unfoldable pub has_transaction_in_progress : ConnectorInfo → Bool
has_transaction_in_progress ci = leb_ℤ (pos 0) ci.current_transaction

-- core.BootNotificationRequest
pub record BootNotificationRequest : Type 0 where
  pub charge_point_vendor : Bytes
  pub charge_point_model : Bytes
  pub charge_point_serial_number : Bytes
  pub firmware_version : Bytes

abbrev pub no_boot_data : BootNotificationRequest
no_boot_data = record {
  charge_point_vendor = [];
  charge_point_model = [];
  charge_point_serial_number = [];
  firmware_version = [];
}

-- core.ConfigurationKey
pub record ConfigurationKey : Type 0 where
  pub key : Bytes
  pub value : Option Bytes

-- type ChargePointState
pub record ChargePointState : Type 0 where
  pub boot_data : BootNotificationRequest
  pub status : Bytes
  pub diagnostics_status : Bytes
  pub firmware_status : Bytes
  pub connectors : Map ℤ ConnectorInfo
  pub transactions : Map ℤ TransactionInfo
  pub error_code : Bytes
  pub config_keys : List ConfigurationKey

-- ChargePointState{Connectors: map[int]*ConnectorInfo{}, Transactions: map[int]*TransactionInfo{}}
abbrev pub new_charge_point : ChargePointState
new_charge_point = record {
  boot_data = no_boot_data;
  status = [];
  diagnostics_status = [];
  firmware_status = [];
  connectors = [];
  transactions = [];
  error_code = [];
  config_keys = [];
}

-- type CentralSystemHandler, with the package's variable nextTransactionId.
pub record CentralSystemHandler : Type 0 where
  pub charge_points : Map Bytes ChargePointState
  pub next_transaction_id : ℤ

-- A fresh process: an empty map, and nextTransactionId = 0.
abbrev pub new_handler : CentralSystemHandler
new_handler = record { charge_points = []; next_transaction_id = pos 0 }

-- types.SampledValue.Measurand: the four cases of the switch, and the rest.
pub data Measurand : Type 0 where
  voltage current_import power_active_import energy_active_import_register : Measurand
  other : Bytes → Measurand

pub record SampledValue : Type 0 where
  pub value : Bytes
  pub measurand : Measurand

pub record MeterValue : Type 0 where
  pub timestamp : Time
  pub sampled_value : List SampledValue

pub record MeterValuesRequest : Type 0 where
  pub connector_id : ℤ
  pub transaction_id : Option ℤ
  pub meter_value : List MeterValue

pub record StatusNotificationRequest : Type 0 where
  pub connector_id : ℤ
  pub error_code : Bytes
  pub status : Bytes

pub record StartTransactionRequest : Type 0 where
  pub connector_id : ℤ
  pub id_tag : Bytes
  pub meter_start : ℤ
  pub timestamp : Option Time

pub record StopTransactionRequest : Type 0 where
  pub transaction_id : ℤ
  pub meter_stop : ℤ
  pub timestamp : Option Time

-- The confirmations that the handlers build, with the arguments that they give to ocpp-go.
pub data Confirmation : Type 0 where
  authorize_accepted : Confirmation
  boot_accepted : Time → ℤ → Confirmation
  data_transfer_accepted : Confirmation
  heartbeat : Time → Confirmation
  meter_values : Confirmation
  status_notification : Confirmation
  start_accepted : ℤ → Confirmation
  stop_transaction : Confirmation
  diagnostics_status_notification : Confirmation
  firmware_status_notification : Confirmation

-- The errors of fmt.Errorf.
pub data Error : Type 0 where
  unknown_charge_point : Bytes → Error
  connector_busy : ℤ → Error

-- (confirmation, nil) or (nil, err)
pub data Reply : Type 0 where
  confirmed : Confirmation → Reply
  failed : Error → Reply
