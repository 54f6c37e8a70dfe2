-- ===== src/Ocpp/Ledger.antt =====
-- What the central system promises about charging sessions, apart from how ocpp/handler.go stores it:
-- which charge points are there, which session each connector runs, and which sessions are recorded.
-- The maps of the handler become functions; statuses, measurements and boot data are not in sight,
-- and a connector that is not known is a free one.
use smarthouse.Prelude.{
  ℤ, pos, leb_ℤ, add_int, Option, none, some, List, [], ◌∷◌, Bytes, Bool, Eq, ◌==◌, if◌then◌else◌,
  int_Eq, bytes_Eq,
}
use smarthouse.GoMap.{lookup}
use smarthouse.GoTime.{is_zero}
use smarthouse.Ocpp.Types.{
  TransactionInfo, is_end, has_transaction_ended, ConnectorInfo, ChargePointState,
  CentralSystemHandler,
}
use smarthouse.Ocpp.Events.{Message, Event}

pub record Session : Type 0 where
  pub connector : ℤ
  pub ended : Bool

pub record Point : Type 0 where
  pub running : ℤ → Option ℤ
  pub sessions : ℤ → Option Session

pub record Ledger : Type 0 where
  pub points : Bytes → Option Point
  pub next : ℤ

-- A function with another value at one argument.
abbrev pub update {ℓ κ} : {K : Type ℓ} {V : Type κ} ⦃e : Eq K⦄ → K → V → (K → V) → K → V
update key new f j = if key == j then new else f j

abbrev pub empty_point : Point
empty_point = record { running = λ c. none; sessions = λ t. none }

abbrev pub put_point : Ledger → Bytes → Option Point → Ledger
put_point l cid p = record l { points = update cid p l.points }

-- A session starts where none runs, under a number of its own.
unfoldable pub start_session : Ledger → Bytes → Point → ℤ → Option ℤ → Ledger
start_session l cid p c (some t) = l
start_session l cid p c none = record {
  points =
      update cid
        (some (record {
          running = update c (some l.next) p.running;
          sessions = update l.next (some (record { connector = c; ended = Bool.false })) p.sessions;
        }))
        l.points;
  next = add_int l.next (pos 1);
}

-- A recorded session ends, and its connector is free.
unfoldable pub end_session : Ledger → Bytes → Point → ℤ → Bool → Option Session → Ledger
end_session l cid p t ended none = l
end_session l cid p t ended (some s) = put_point l cid (
    some (record {
      running = update s.connector none p.running;
      sessions = update t (some (record s { ended = ended })) p.sessions;
    }))

unfoldable pub step_at : Ledger → Bytes → Message → Option Point → Ledger
unfolding start_session end_session is_zero
step_at l cid Message.connect none = put_point l cid (some empty_point)
step_at l cid Message.disconnect known = put_point l cid none
step_at l cid (Message.start_transaction request) (some p) =
    start_session l cid p request.connector_id (p.running request.connector_id)
step_at l cid (Message.stop_transaction request) (some p) =
    end_session l cid p request.transaction_id (is_end request.timestamp)
      (p.sessions request.transaction_id)
step_at l cid m known = l

-- What a message does; all but four kinds of them do nothing.
unfoldable pub step : Ledger → Bytes → Message → Ledger
unfolding step_at
step l cid m = step_at l cid m (l.points cid)

unfoldable pub run_ledger : Ledger → List Event → Ledger
unfolding step
run_ledger l [] = l
run_ledger l (e ∷ es) = run_ledger (step l e.charge_point e.message) es

-- What the ledger sees of the handler's state.
unfoldable pub current_session : Option ConnectorInfo → Option ℤ
current_session none = none
current_session (some ci) =
    if leb_ℤ (pos 0) ci.current_transaction then some ci.current_transaction else none

unfoldable pub session_of : Option TransactionInfo → Option Session
unfolding has_transaction_ended
session_of none = none
session_of (some ti) =
    some (record { connector = ti.connector_id; ended = has_transaction_ended ti })

unfoldable pub point_of : ChargePointState → Point
unfolding current_session session_of
point_of cps = record {
  running = λ c. current_session (lookup c cps.connectors);
  sessions = λ t. session_of (lookup t cps.transactions);
}

unfoldable pub known_point : Option ChargePointState → Option Point
unfolding point_of
known_point none = none
known_point (some cps) = some (point_of cps)

unfoldable pub ledger_of : CentralSystemHandler → Ledger
unfolding known_point
ledger_of h = record {
  points = λ cid. known_point (lookup cid h.charge_points);
  next = h.next_transaction_id;
}
