-- ===== src/Ocpp/Examples.antt =====
-- A charger with one connector, and the theorems about ocpp/ at it.
use smarthouse.Prelude.{
  pos, negsuc, ◌≤ℤ◌, add_int, Option, none, some, List, [], ◌∷◌, Bytes, codes, ◌≡◌, ◌≢◌, ◌↔◌, refl,
  arith, int_Eq, bytes_Eq, returned, panicked,
}
use smarthouse.GoMap.{lookup, insert}
use smarthouse.Float64.{FloatOps}
use smarthouse.Ocpp.Types.{
  Measurement, no_measurement, has_transaction_ended, idle_connector, ChargePointState,
  new_charge_point, CentralSystemHandler, new_handler, StartTransactionRequest, MeterValuesRequest,
  Measurand, confirmed, connector_busy, start_accepted, stop_transaction,
}
use smarthouse.Ocpp.Handler.{
  on_start_transaction, on_stop_transaction, on_meter_values, process_meter_values, started,
}
use smarthouse.Ocpp.Events.{Event, Message, handle, run}
use smarthouse.Ocpp.Invariant.{IsValid, new-IsValid}
use smarthouse.Ocpp.Runs.{run-IsValid}
use smarthouse.Ocpp.Frame.{handle-Panics, handle-other}
use smarthouse.Ocpp.Errors.{on_start_transaction_failed, handle_unknown}
use smarthouse.Ocpp.Transactions.{current_of}
use smarthouse.Ocpp.Sessions.{stop_of, start_stop, late_stop_frees}

-- Floats as plain numbers, which read as the length of their text.
abbrev pub plain_floats : FloatOps
plain_floats = record {
  add = λ x y. x;
  mul = λ x y. y;
  of_int = λ z. 0;
  to_int64 = λ x. pos x;
  parse_float = λ s. some 7;
}

abbrev pub charger : Bytes
charger = codes "CP1"

abbrev pub other_charger : Bytes
other_charger = codes "CP2"

abbrev pub start_one : StartTransactionRequest
start_one = record {
  connector_id = pos 1;
  id_tag = codes "tag";
  meter_start = pos 100;
  timestamp = some (pos 5);
}

abbrev meter_request : MeterValuesRequest
meter_request = record {
  connector_id = pos 1;
  transaction_id = some (pos 0);
  meter_value =
      record {
        timestamp = pos 6;
        sampled_value = record { value = codes "230"; measurand = Measurand.voltage } ∷ [];
      }
      ∷ [];
}

abbrev pub event : Message → Event
event m = record { charge_point = charger; time = pos 5; message = m }

-- The charger connects, starts, reports and stops.
abbrev pub day : List Event
day =
    event Message.connect
    ∷ event (Message.start_transaction start_one)
    ∷ event (Message.meter_values meter_request)
    ∷ event (Message.stop_transaction (stop_of (pos 0) (pos 150) (some (pos 9))))
    ∷ []

abbrev pub connected : CentralSystemHandler
connected = record { charge_points = (charger, new_charge_point) ∷ []; next_transaction_id = pos 0 }

abbrev pub charging_point : ChargePointState
charging_point = record new_charge_point {
  connectors = (pos 1, record idle_connector { current_transaction = pos 0 }) ∷ [];
  transactions = (pos 0, started start_one (pos 0)) ∷ [];
}

abbrev pub charging : CentralSystemHandler
charging = record { charge_points = (charger, charging_point) ∷ []; next_transaction_id = pos 1 }

start_charging :
    on_start_transaction connected charger start_one
    ≡ (confirmed (start_accepted (pos 0)), charging)
unfolding on_start_transaction lookup insert add_int
start_charging = refl

abbrev pub measured : Option Measurement
measured = some (record no_measurement { voltage = 7 })

-- The charger's state at the end of the day.
abbrev pub rested_point : ChargePointState
rested_point = record new_charge_point {
  connectors =
      (pos 1, record idle_connector { last_measurement = measured; measurement_time = pos 6 }) ∷ [];
  transactions =
      (
        pos 0,
        record (started start_one (pos 0)) {
          end_time = some (pos 9);
          end_meter = pos 150;
          last_measurement = measured;
          measurement_time = pos 6;
        },
      )
      ∷ [];
}

abbrev pub rested : CentralSystemHandler
rested = record { charge_points = (charger, rested_point) ∷ []; next_transaction_id = pos 1 }

pub day_runs : run plain_floats new_handler day ≡ returned rested
unfolding run handle lookup insert add_int on_start_transaction on_stop_transaction on_meter_values
    process_meter_values
day_runs = refl

run-IsValid_example : IsValid rested × (pos 0 ≤ℤ pos 1)
run-IsValid_example =
    run-IsValid plain_floats new_handler rested day (omega arith) new-IsValid day_runs

pub charging-IsValid : IsValid charging
charging-IsValid =
    (run-IsValid plain_floats new_handler charging
      (event Message.connect ∷ event (Message.start_transaction start_one) ∷ []) (omega arith)
      new-IsValid (unfold run handle lookup insert add_int on_start_transaction in refl)).0

-- Meter values that name no transaction.
abbrev nameless : MeterValuesRequest
nameless = record meter_request { transaction_id = none }

handle-Panics_example :
    (handle plain_floats charging charger (pos 5) (Message.meter_values nameless) ≡ panicked)
    ↔ ((nameless.transaction_id ≡ none) × (nameless.meter_value ≢ []))
handle-Panics_example =
    handle-Panics plain_floats charging charger (pos 5) (Message.meter_values nameless)

differs : charger ≢ other_charger
differs = λ e. ground arith

handle-other_example : lookup charger charging.charge_points ≡ some charging_point
unfolding lookup insert handle
handle-other_example =
    handle-other plain_floats charging
      (record charging {
        charge_points = (charger, charging_point) ∷ (other_charger, new_charge_point) ∷ [];
      })
      other_charger charger (pos 5) Message.connect (λ e. ground arith) refl

unknown_ignored :
    handle plain_floats charging other_charger (pos 5) (Message.start_transaction start_one)
    ≡ returned charging
unfolding lookup
unknown_ignored =
    handle_unknown plain_floats charging other_charger (pos 5) (Message.start_transaction start_one)
      refl (λ e. ground arith) (λ x. x)

start_failed : (on_start_transaction charging charger start_one).1 ≡ charging
unfolding on_start_transaction lookup
start_failed = on_start_transaction_failed charging charger start_one (connector_busy (pos 1)) refl

one_session :
    (on_stop_transaction
      (on_start_transaction connected charger start_one).1
      charger
      (stop_of (pos 0) (pos 150) (some (pos 9)))).0
    ≡ confirmed stop_transaction
unfolding lookup
one_session =
    (start_stop connected charger new_charge_point start_one (pos 150) (some (pos 9)) refl
      (omega arith)).0

-- Transaction 0 has ended, and transaction 1 runs on the same connector.
abbrev again_point : ChargePointState
again_point = record new_charge_point {
  connectors = (pos 1, record idle_connector { current_transaction = pos 1 }) ∷ [];
  transactions =
      (pos 0, record (started start_one (pos 0)) { end_time = some (pos 9) })
      ∷ (pos 1, started start_one (pos 1))
      ∷ [];
}

abbrev again : CentralSystemHandler
again = record { charge_points = (charger, again_point) ∷ []; next_transaction_id = pos 2 }

late_stop_frees_example :
    (info₁ : ChargePointState) × (lookup charger
        (on_stop_transaction again charger (stop_of (pos 0) (pos 0) (some (pos 9)))).1.charge_points
      ≡ some info₁)
    × (lookup (pos 1) info₁.transactions ≡ some (started start_one (pos 1)))
    × (current_of info₁ (pos 1) ≡ negsuc 0)
    × ((on_start_transaction
          (on_stop_transaction again charger (stop_of (pos 0) (pos 0) (some (pos 9)))).1
          charger
          start_one).0
        ≡ confirmed (start_accepted (pos 2)))
unfolding lookup has_transaction_ended
late_stop_frees_example =
    late_stop_frees again charger again_point
      (record (started start_one (pos 0)) { end_time = some (pos 9) }) (started start_one (pos 1))
      (stop_of (pos 0) (pos 0) (some (pos 9))) start_one refl refl refl refl refl refl
