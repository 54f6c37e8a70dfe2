-- ===== src/Ocpp/StartAgain.antt =====
-- The program of ocpp/main.go, from one process to the next.
use smarthouse.Prelude.{
  ℕ, ℤ, Option, none, some, List, Bool, true, false, ◌∷◌, ◌++◌, Bytes, codes, ◌≡◌, refl, arith,
  subst, ap,
}
use smarthouse.GoMap.{Map}
use smarthouse.GoConv.{itoa, IsInt, atoi-itoa}
use smarthouse.Ocpp.Types.{ChargePointState, CentralSystemHandler, new_handler}
use smarthouse.Ocpp.Invariant.{IsValid}
use smarthouse.Ocpp.Store.{
  Codec, Database, found, state_key, init, restored, restore, Signal, tick, shutdown, run,
}
use smarthouse.Ocpp.Fresh.{AllFit}
use smarthouse.Ocpp.Restart.{Agrees, AllTicks, run_last, restored-IsValid}
use smarthouse.Ocpp.Start.{
  Environment, port_of, default_ocpp_port, default_http_port, db_path, serving, new_store, start,
}

-- A variable that holds the decimal text of an int names that port.
pub port_of-itoa :
    (env : Environment) (name : Bytes) (default port : ℤ)
    → IsInt port
    → env name ≡ some (itoa port)
    → port_of env name default ≡ port
unfolding port_of
port_of-itoa env name default port h e = rw (e, atoi-itoa port h)

module _ {S : Type 0} (open_file : Bytes → Option S) (db : Database S) where
  -- A database with its table is taken as it is.
  new_store-opened :
      (path : Bytes) (s : S) (n : ℕ)
      → open_file (codes "file:" ++ path ++ codes "?_journal=wal") ≡ some s
      → db.count_tables s ≡ some 1
      → db.count_records s ≡ some n
      → new_store open_file db path ≡ some s
  unfolding new_store init
  new_store-opened path s n opens tables records =
      rw (opens, new_store) (ap taken (ready s n tables records))
    where
      taken : Bool × S → Option S
      taken (true, u) = some u
      taken (false, u) = none

      ready :
          (u : S) (k : ℕ)
          → db.count_tables u ≡ some 1
          → db.count_records u ≡ some k
          → init db u ≡ (true, u)
      ready u k tables records = unfold init in ground arith

  -- A program whose database holds an encoded state serves what it decodes to.
  start_found :
      (c : Codec) (env : Environment) (s : S) (b : Bytes) (m : Map Bytes ChargePointState) (n : ℕ)
      → open_file (codes "file:" ++ db_path env ++ codes "?_journal=wal") ≡ some s
      → db.count_tables s ≡ some 1
      → db.count_records s ≡ some n
      → db.get state_key s ≡ found b
      → c.unmarshal b ≡ some m
      → start open_file db c env
        ≡ serving
            (port_of env (codes "SERVER_OCPP_PORT") default_ocpp_port)
            (port_of env (codes "SERVER_HTTP_PORT") default_http_port)
            (restored new_handler m)
            s
  unfolding start restore restored
  start_found c env s b m n opens tables records row decodes =
      let e = new_store-opened (db_path env) s n opens tables records in
      let r : restore db c new_handler s ≡ some (restored new_handler m) = ground arith in
      rw (e, start) (rw r)

  -- The program that starts behind one whose last tick saved a valid state, and that was then shut
  -- down, serves a valid state that holds what was decoded, on the ports that its environment names.
  -- This needs of the database that the file opens as it was left, with its table, and that it gives
  -- back what was put; of the encoding that the decoded value agrees with the saved one; and that no
  -- number that comes back is the largest int.
  pub start_again :
      (c : Codec) (env : Environment) (signals later : List Signal) (h : CentralSystemHandler)
      (s left : S) (b : Bytes) (m : Map Bytes ChargePointState) (n : ℕ)
      → IsValid h
      → AllTicks signals
      → run db c (signals ++ (tick h ∷ shutdown ∷ later)) s ≡ left
      → c.marshal h.charge_points ≡ some b
      → ((u : S) → db.get state_key (db.put state_key b u).1 ≡ found b)
      → c.unmarshal b ≡ some m
      → Agrees h.charge_points m
      → AllFit m
      → open_file (codes "file:" ++ db_path env ++ codes "?_journal=wal") ≡ some left
      → db.count_tables left ≡ some 1
      → db.count_records left ≡ some n
      → (h' : CentralSystemHandler) × (start open_file db c env
          ≡ serving
              (port_of env (codes "SERVER_OCPP_PORT") default_ocpp_port)
              (port_of env (codes "SERVER_HTTP_PORT") default_http_port)
              h'
              left)
        × (h'.charge_points ≡ m)
        × IsValid h'
  start_again c env signals later h s left b m n v ticks ran encodes kept decodes agrees fit opens
        tables records =
      let row : db.get state_key left ≡ found b =
        subst (λ u. db.get state_key u ≡ found b) ran
          (run_last db c signals later h s b ticks encodes kept) in
      (
        restored new_handler m,
        start_found c env left b m n opens tables records row decodes,
        unfold restored in refl,
        restored-IsValid h m v agrees fit,
      )
