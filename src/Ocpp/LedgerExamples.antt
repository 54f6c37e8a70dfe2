-- ===== src/Ocpp/LedgerExamples.antt =====
-- A charger's day of ocpp/ in the ledger.
use smarthouse.Prelude.{
  pos, add_int, some, List, [], ◌∷◌, codes, ◌≡◌, refl, arith, int_Eq, bytes_Eq,
}
use smarthouse.Ocpp.Types.{new_handler, new_charge_point, failed, connector_busy}
use smarthouse.Ocpp.Runs.{run-IsValid}
use smarthouse.Ocpp.Handler.{on_start_transaction}
use smarthouse.Ocpp.Exclusive.{start_exclusive}
use smarthouse.GoMap.{lookup, insert, delete}
use smarthouse.Ocpp.Invariant.{IsValid, new-IsValid}
use smarthouse.Ocpp.Examples.{
  event, connected, charging, plain_floats, charger, start_one, day, rested, day_runs,
}
use smarthouse.Ocpp.Events.{Message, Event, handle, run}
use smarthouse.Ocpp.Ledger.{Ledger, empty_point, ledger_of, start_session, step, run_ledger}
use smarthouse.Ocpp.LedgerRuns.{ledger_of-run}

-- A ledger with one free charger, whose next number is 4.
abbrev one_charger : Ledger
one_charger = record { points = λ cid. some empty_point; next = pos 4 }

second_start_waits :
    step
      (step one_charger charger (Message.start_transaction start_one))
      charger
      (Message.start_transaction start_one)
    ≡ step one_charger charger (Message.start_transaction start_one)
unfolding step start_session add_int
second_start_waits = refl

ledger_of-run_example : ledger_of rested ≡ run_ledger (ledger_of new_handler) day
ledger_of-run_example =
    ledger_of-run plain_floats new_handler rested day (omega arith) new-IsValid day_runs

connected-IsValid : IsValid connected
unfolding run handle lookup insert
connected-IsValid =
    (run-IsValid plain_floats new_handler connected (event Message.connect ∷ []) (omega arith)
      new-IsValid refl).0

-- While it charges, the charger connects again, another one comes and goes, and it asks for a start.
abbrev meanwhile : List Event
meanwhile =
    event Message.connect
    ∷ record { charge_point = codes "CP2"; time = pos 6; message = Message.connect }
    ∷ record { charge_point = codes "CP2"; time = pos 7; message = Message.disconnect }
    ∷ event (Message.start_transaction start_one)
    ∷ event Message.heartbeat
    ∷ []

start_exclusive_example :
    on_start_transaction charging charger start_one ≡ (failed (connector_busy (pos 1)), charging)
unfolding run handle lookup insert delete add_int on_start_transaction
start_exclusive_example =
    start_exclusive plain_floats connected charging charger new_charge_point (pos 5) start_one
      start_one meanwhile connected-IsValid (omega arith) refl (omega arith) refl
      (
        λ e. absurd (ground arith),
        (
          λ e. absurd (ground arith),
          (
            λ e other. ground (arith, other),
            (λ e. absurd (ground arith), (λ e. absurd (ground arith), tt)),
          ),
        ),
      )
      refl
