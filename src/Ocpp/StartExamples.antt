-- ===== src/Ocpp/StartExamples.antt =====
-- ocpp/main.go coming up behind a charger's day.
use smarthouse.Prelude.{
  pos, Option, none, some, [], ◌∷◌, Bytes, codes, bytes_eq, if◌then◌else◌, ◌≡◌, refl, arith,
}
use smarthouse.GoConv.{atoi}
use smarthouse.Ocpp.Types.{CentralSystemHandler}
use smarthouse.Ocpp.Store.{save, tick, run}
use smarthouse.Ocpp.Invariant.{IsValid}
use smarthouse.Ocpp.Examples.{charging, charging-IsValid, connected}
use smarthouse.Ocpp.StoreExamples.{one_row, fixed_codec, charging-Agrees}
use smarthouse.Ocpp.Start.{Environment, port_of, db_path, no_store, serving, start, new_store}
use smarthouse.Ocpp.StartAgain.{start_again}

abbrev home : Environment
home name =
    if bytes_eq name (codes "HOME")
    then some (codes "/root")
    else if bytes_eq name (codes "SERVER_OCPP_PORT")
    then some (codes "9000")
    else none

abbrev kept_file : Bytes → Option (Option Bytes)
kept_file path =
    if bytes_eq path (codes "file:/root/.local/share/smarthouse/ocpp.db?_journal=wal")
    then some (some (codes "{}"))
    else none

ports :
    (port_of home (codes "SERVER_OCPP_PORT") (pos 8887) ≡ pos 9000)
    × (port_of home (codes "SERVER_HTTP_PORT") (pos 8080) ≡ pos 8080)
unfolding port_of atoi
ports = (refl, refl)

elsewhere : start (λ path. none) one_row fixed_codec home ≡ no_store
unfolding start new_store
elsewhere = refl

start_again_example :
    (h' : CentralSystemHandler) × (start kept_file one_row fixed_codec home
      ≡ serving (pos 9000) (pos 8080) h' (some (codes "{}")))
    × (h'.charge_points ≡ charging.charge_points)
    × IsValid h'
unfolding port_of atoi
start_again_example =
    start_again kept_file one_row fixed_codec home (tick connected ∷ []) [] charging none
      (some (codes "{}")) (codes "{}") charging.charge_points 1 charging-IsValid tt
      (unfold run save in refl) refl (λ u. refl) refl charging-Agrees (omega arith)
      (unfold db_path in refl) refl refl
