-- ===== src/Ocpp/Runs.antt =====
-- The invariant over any sequence of events (ocpp/main.go and ocpp/handler.go).
use smarthouse.Prelude.{
  pos_part, ◌≤ℤ◌, ◌<ℤ◌, ◌≡◌, arith, bytes_Eq, ==_iff, ◌+◌, ◌≤◌, List, [], ◌∷◌, length, inl, inr,
  Option-cases, max_int, Bytes, returned, >>=-eq-returned, subst,
}
use smarthouse.GoMap.{lookup, lookup-delete}
use smarthouse.GoTime.{Time}
use smarthouse.Float64.{FloatOps}
use smarthouse.Ocpp.Types.{CentralSystemHandler, new_charge_point}
use smarthouse.Ocpp.Handler.{on_authorize, on_heartbeat, on_data_transfer, on_meter_values}
use smarthouse.Ocpp.Events.{Event, Message, on_connect, on_disconnect, handle, run}
use smarthouse.Ocpp.Consistent.{new-IsConsistent}
use smarthouse.Ocpp.Invariant.{IsValid, Follows, stay-Follows, put-Follows}
use smarthouse.Ocpp.Callbacks

on_connect-Follows :
    (h : CentralSystemHandler) (cid : Bytes) → IsValid h → Follows h (on_connect h cid)
unfolding on_connect
on_connect-Follows h cid v = elim (Option-cases (lookup cid h.charge_points)) [
  | inl e ↦
      rw (e, on_connect)
        (put-Follows h cid new_charge_point v (new-IsConsistent h.next_transaction_id))
  | inr (info, e) ↦ rw (e, on_connect) (stay-Follows h v)
]

on_disconnect-Follows :
    (h : CentralSystemHandler) (cid : Bytes) → IsValid h → Follows h (on_disconnect h cid)
unfolding on_disconnect
on_disconnect-Follows h cid v = record {
  valid = record {
    counted = v.counted;
    each = λ did cps e.
        v.each did cps (ground (arith, lookup-delete cid did h.charge_points, ==_iff cid did));
  };
  grows = omega arith;
  by_one = omega arith;
}

pub handle-Follows :
    (f : FloatOps) (h h' : CentralSystemHandler) (cid : Bytes) (now : Time) (m : Message)
    → h.next_transaction_id <ℤ max_int
    → IsValid h
    → handle f h cid now m ≡ returned h'
    → Follows h h'
unfolding handle on_authorize on_data_transfer on_heartbeat
handle-Follows f h h' cid now Message.connect up v e =
    subst (Follows h) (ground arith) (on_connect-Follows h cid v)
handle-Follows f h h' cid now Message.disconnect up v e =
    subst (Follows h) (ground arith) (on_disconnect-Follows h cid v)
handle-Follows f h h' cid now Message.authorize up v e =
    subst (Follows h) (ground arith) (stay-Follows h v)
handle-Follows f h h' cid now Message.data_transfer up v e =
    subst (Follows h) (ground arith) (stay-Follows h v)
handle-Follows f h h' cid now Message.heartbeat up v e =
    subst (Follows h) (ground arith) (stay-Follows h v)
handle-Follows f h h' cid now (Message.boot_notification request) up v e =
    subst (Follows h) (ground arith) (Callbacks.on_boot_notification-Follows h cid request now v)
handle-Follows f h h' cid now (Message.meter_values request) up v e =
    let ((reply, k), ran, out) = >>=-eq-returned (on_meter_values f h cid request) _ e in
    subst (Follows h) (ground arith)
      (Callbacks.on_meter_values-Follows f h k cid request reply v ran)
handle-Follows f h h' cid now (Message.status_notification request) up v e =
    subst (Follows h) (ground arith) (Callbacks.on_status_notification-Follows h cid request v)
handle-Follows f h h' cid now (Message.start_transaction request) up v e =
    subst (Follows h) (ground arith) (Callbacks.on_start_transaction-Follows h cid request up v)
handle-Follows f h h' cid now (Message.stop_transaction request) up v e =
    subst (Follows h) (ground arith) (Callbacks.on_stop_transaction-Follows h cid request v)
handle-Follows f h h' cid now (Message.diagnostics_status_notification status) up v e =
    subst (Follows h) (ground arith) (Callbacks.on_diagnostics-Follows h cid status v)
handle-Follows f h h' cid now (Message.firmware_status_notification status) up v e =
    subst (Follows h) (ground arith) (Callbacks.on_firmware-Follows h cid status v)
handle-Follows f h h' cid now (Message.configuration conf errored) up v e =
    Callbacks.on_config-Follows h h' cid conf errored v e

-- From a valid state any sequence of events that does not panic leads to a valid state, and the next
-- transaction's number does not fall, as long as the events cannot carry it past the largest int.
pub run-IsValid :
    (f : FloatOps) (h h' : CentralSystemHandler) (es : List Event)
    → pos_part h.next_transaction_id + length es ≤ pos_part max_int
    → IsValid h
    → run f h es ≡ returned h'
    → IsValid h' × (h.next_transaction_id ≤ℤ h'.next_transaction_id)
unfolding run
run-IsValid f h h' [] room v e =
    subst (λ k. IsValid k × (h.next_transaction_id ≤ℤ k.next_transaction_id)) (ground arith)
      (v, omega arith)
run-IsValid f h h' (ev ∷ es) room v e =
    let (k, ran, rest) =
      >>=-eq-returned (handle f h ev.charge_point ev.time ev.message) (λ k. run f k es) e in
    let w =
      handle-Follows f h k ev.charge_point ev.time ev.message (omega (arith, v.counted)) v ran in
    let (u, up) = run-IsValid f k h' es (omega (arith, w.by_one)) w.valid rest in
    (u, omega (arith, w.grows))
