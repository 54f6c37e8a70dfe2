-- ===== src/Ocpp/StoreExamples.antt =====
-- The theorems about ocpp/store.go at a database that holds one value.
use smarthouse.Prelude.{
  ℤ, pos, ◌≤ℤ◌, ◌<ℤ◌, Option, none, some, [], ◌∷◌, Bytes, codes, true, ◌≡◌, refl, arith, int_Eq,
  bytes_Eq,
}
use smarthouse.GoMap.{lookup}
use smarthouse.Ocpp.Types.{ChargePointState, CentralSystemHandler, new_handler}
use smarthouse.Ocpp.Store.{
  Codec, Database, Row, found, no_rows, state_key, save, restore, tick, shutdown, run,
}
use smarthouse.Ocpp.Invariant.{IsValid}
use smarthouse.Ocpp.Fresh.{restore_fresh}
use smarthouse.Ocpp.Restart.{Agrees, restart-IsValid, run_last}
use smarthouse.Ocpp.Examples.{charging, charging-IsValid, connected}

abbrev pub row_of : Option Bytes → Row
row_of none = no_rows
row_of (some b) = found b

-- One row at most, under whatever key.
abbrev pub one_row : Database (Option Bytes)
one_row = record {
  count_tables = λ s. some 1;
  create_table = λ s. (true, s);
  count_records = λ s. some 1;
  put = λ k v s. (true, some v);
  get = λ k s. row_of s;
}

-- An encoding that knows one state.
abbrev pub fixed_codec : Codec
fixed_codec = record {
  marshal = λ m. some (codes "{}");
  unmarshal = λ b. some charging.charge_points;
}

pub charging-Agrees : Agrees charging.charge_points charging.charge_points
charging-Agrees cid q e = (q, e, ((λ c. refl), λ t. refl))

restored_next :
    (h' : CentralSystemHandler) × (restore one_row fixed_codec new_handler (some (codes "{}"))
      ≡ some h')
    × (h'.charge_points ≡ charging.charge_points)
    × (pos 0 ≤ℤ h'.next_transaction_id)
    × ((cid : Bytes) (p : ChargePointState) (t : ℤ) (ti : _)
        → lookup cid charging.charge_points ≡ some p
        → lookup t p.transactions ≡ some ti
        → ti.id <ℤ h'.next_transaction_id)
restored_next =
    restore_fresh one_row fixed_codec new_handler (some (codes "{}")) (codes "{}")
      charging.charge_points refl refl (omega arith) (omega arith)

restarted-IsValid :
    (h' : CentralSystemHandler) × (restore one_row fixed_codec new_handler
        (save one_row fixed_codec charging none)
      ≡ some h')
    × (h'.charge_points ≡ charging.charge_points)
    × IsValid h'
restarted-IsValid =
    restart-IsValid one_row fixed_codec charging none (codes "{}") charging.charge_points
      charging-IsValid refl refl refl charging-Agrees (omega arith)

last_tick_kept :
    one_row.get state_key (
      run one_row fixed_codec
        (tick connected ∷ tick charging ∷ shutdown ∷ tick connected ∷ [])
        none)
    ≡ found (codes "{}")
last_tick_kept =
    run_last one_row fixed_codec (tick connected ∷ []) (tick connected ∷ []) charging none
      (codes "{}") tt refl (λ u. refl)
