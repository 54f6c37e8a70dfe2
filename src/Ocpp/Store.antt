-- ===== src/Ocpp/Store.antt =====
-- ocpp/store.go: the state kept in a database over restarts. The database and the JSON encoding of
-- the state are arguments: SQLite is not in this repository, and the encoding of the ocpp-go types is
-- theirs.
use smarthouse.Prelude.{
  ℕ, ℤ, pos, Option, none, some, List, [], ◌∷◌, Bytes, codes, Bool, true, false, leb_ℤ, add_int,
  nat_eq, if◌then◌else◌, bytes_Eq, int_Eq,
}
use smarthouse.GoMap.{Map}
use smarthouse.Ocpp.Types.{TransactionInfo, ChargePointState, CentralSystemHandler}

-- json.Marshal and json.Unmarshal on the map of charge points; `none` is an error.
pub record Codec : Type 0 where
  pub marshal : Map Bytes ChargePointState → Option Bytes
  pub unmarshal : Bytes → Option (Map Bytes ChargePointState)

-- The answer to the query for one value.
pub data Row : Type 0 where
  found : Bytes → Row
  no_rows : Row
  query_failed : Row

-- The statements that the store sends to SQLite. `S` is the database's state; a command gives true if
-- it succeeded.
pub record Database (S : Type 0) : Type 0 where
  -- SELECT COUNT(*) FROM sqlite_master WHERE type = 'table' AND name = 'state'
  pub count_tables : S → Option ℕ
  -- CREATE TABLE state (key text primary key, value text)
  pub create_table : S → Bool × S
  -- SELECT COUNT(*) FROM state
  pub count_records : S → Option ℕ
  -- insert or replace into state(key, value)
  pub put : Bytes → Bytes → S → Bool × S
  -- SELECT value FROM state WHERE key = … LIMIT 1
  pub get : Bytes → S → Row

-- The key of the only row.
abbrev pub state_key : Bytes
state_key = codes "chargePoints"

-- The inner loop of Restore.
unfoldable pub raise_transactions : Map ℤ TransactionInfo → ℤ → ℤ
raise_transactions [] next = next
raise_transactions ((k, t) ∷ ts) next =
    raise_transactions ts (if leb_ℤ next t.id then add_int t.id (pos 1) else next)

-- The outer loop of Restore.
unfoldable pub raise_all : Map Bytes ChargePointState → ℤ → ℤ
unfolding raise_transactions
raise_all [] next = next
raise_all ((k, p) ∷ ps) next = raise_all ps (raise_transactions p.transactions next)

-- The handler that Restore leaves once the value is decoded.
unfoldable pub restored : CentralSystemHandler → Map Bytes ChargePointState → CentralSystemHandler
unfolding raise_all
restored h cp = record {
  charge_points = cp;
  next_transaction_id = raise_all cp h.next_transaction_id;
}

-- What a message to the store's loop says: the ticker fires while the handler is in this state, or
-- the shutdown channel delivers.
pub data Signal : Type 0 where
  tick : CentralSystemHandler → Signal
  shutdown : Signal

module _ {S : Type 0} (db : Database S) where
  -- Init: true if no error. The count of records is read for the log alone, but its error counts.
  count_check : S → Bool × S
  count_check s = elim (db.count_records s) [ none ↦ (false, s) | some n ↦ (true, s) ]

  create_then : Bool × S → Bool × S
  unfolding count_check
  create_then (true, s) = count_check s
  create_then (false, s) = (false, s)

  unfoldable pub init : S → Bool × S
  unfolding create_then
  init s = elim (db.count_tables s) [
    | none ↦ (false, s)
    | some n ↦ if nat_eq n 1 then count_check s else create_then (db.create_table s)
  ]

  module _ (c : Codec) where
    -- Save: its errors are logged, and nothing else.
    unfoldable pub save : CentralSystemHandler → S → S
    save h s = elim (c.marshal h.charge_points) [
      | none ↦ s
      | some encoded ↦ (db.put state_key encoded s).1
    ]

    restore_value :
        CentralSystemHandler → Option (Map Bytes ChargePointState) → Option CentralSystemHandler
    restore_value h none = none
    restore_value h (some cp) = some (restored h cp)

    restore_row : CentralSystemHandler → Row → Option CentralSystemHandler
    unfolding restore_value
    restore_row h query_failed = none
    restore_row h no_rows = some h
    restore_row h (found encoded) = restore_value h (c.unmarshal encoded)

    -- Restore: `none` is an error, which main makes fatal.
    unfoldable pub restore : CentralSystemHandler → S → Option CentralSystemHandler
    unfolding restore_row
    restore h s = restore_row h (db.get state_key s)

    -- Run: the loop over the two channels, until a shutdown.
    unfoldable pub run : List Signal → S → S
    unfolding save
    run [] s = s
    run (shutdown ∷ signals) s = s
    run (tick h ∷ signals) s = run signals (save h s)
