-- ===== src/Ocpp/Start.antt =====
-- ocpp/main.go and NewStore of ocpp/store.go: how the program comes up, from its environment and its
-- database to the handler that it serves. The servers themselves are not modelled.
use smarthouse.Prelude.{ℤ, pos, Option, none, some, [], ◌++◌, Bytes, codes, Bool, true, false}
use smarthouse.GoConv.{atoi}
use smarthouse.Ocpp.Types.{CentralSystemHandler, new_handler}
use smarthouse.Ocpp.Store.{Codec, Database, init, restore}

-- os.LookupEnv; `none` is a variable that is not set.
abbrev pub Environment : Type 0
Environment = Bytes → Option Bytes

-- The value, or the empty string.
abbrev pub value_of : Option Bytes → Bytes
value_of none = []
value_of (some value) = value

abbrev pub number_or : ℤ → Option ℤ → ℤ
number_or default none = default
number_or default (some p) = p

-- The port that a variable names, or the default.
unfoldable pub port_of : Environment → Bytes → ℤ → ℤ
port_of env name default = number_or default (atoi (value_of (env name)))

abbrev pub default_ocpp_port : ℤ
default_ocpp_port = pos 8887

abbrev pub default_http_port : ℤ
default_http_port = pos 8080

-- os.ExpandEnv("$HOME/.local/share/smarthouse/ocpp.db")
abbrev pub default_db_path : Environment → Bytes
default_db_path env = value_of (env (codes "HOME")) ++ codes "/.local/share/smarthouse/ocpp.db"

abbrev path_or : Bytes → Option Bytes → Bytes
path_or default none = default
path_or default (some path) = path

unfoldable pub db_path : Environment → Bytes
db_path env = path_or (default_db_path env) (env (codes "DB_PATH"))

-- How the program starts: infoLog.Fatalf, or it serves on two ports.
pub data Started (S : Type 0) : Type 0 where
  no_store : Started S
  no_state : Started S
  serving : ℤ → ℤ → CentralSystemHandler → S → Started S

module _ {S : Type 0} (open_file : Bytes → Option S) (db : Database S) where
  abbrev initialised : Bool × S → Option S
  initialised (true, s) = some s
  initialised (false, s) = none

  -- NewStore: `none` is an error.
  unfoldable pub new_store : Bytes → Option S
  unfolding init
  new_store path = elim (open_file (codes "file:" ++ path ++ codes "?_journal=wal")) [
    | none ↦ none
    | some s ↦ initialised (init db s)
  ]

  abbrev served : Environment → S → Option CentralSystemHandler → Started S
  served env s none = no_state
  served env s (some h) =
      serving (port_of env (codes "SERVER_OCPP_PORT") default_ocpp_port)
        (port_of env (codes "SERVER_HTTP_PORT") default_http_port) h s

  -- main, up to the servers.
  unfoldable pub start : Codec → Environment → Started S
  unfolding new_store restore
  start c env = elim (new_store (db_path env)) [
    | none ↦ no_store
    | some s ↦ served env s (restore db c new_handler s)
  ]
