-- ===== src/Ocpp/LedgerWrites.antt =====
-- What each write of ocpp/handler.go to a charge point's state does to its sessions in the ledger.
use mathlib.Core.Path.{fun_ext}
use smarthouse.Prelude.{
  ℤ, Option, none, some, Bytes, Eq, ◌==◌, ==_iff, ◌≡◌, ap, int_Eq, bytes_Eq, inl, inr, Option-cases,
  Bool-cases, ◌∙◌, sym,
}
use smarthouse.GoMap.{lookup, delete, lookup-insert, lookup-insert_self, lookup-delete}
use smarthouse.Ocpp.Types.{
  TransactionInfo, ConnectorInfo, idle_connector, ChargePointState, CentralSystemHandler,
}
use smarthouse.Ocpp.Handler.{put_charge_point, put_connector, put_transaction, get_connector}
use smarthouse.Ocpp.Ledger.{
  Point, Ledger, update, put_point, current_session, session_of, point_of, known_point, ledger_of,
}

-- Writing what is there changes nothing.
pub update_self {ℓ κ} :
    {K : Type ℓ} {V : Type κ} ⦃e : Eq K⦄ (k : K) (v : V) (f : K → V) → f k ≡ v → update k v f ≡ f
update_self k v f h = fun_ext λ j. elim (Bool-cases (k == j)) [
  | inl same ↦ rw same (sym h ∙ ap f ((==_iff k j).0 same))
  | inr other ↦ rw other
]

pub point_of-put_connector :
    (cps : ChargePointState) (c : ℤ) (ci : ConnectorInfo)
    → point_of (put_connector cps c ci) ≡ record (point_of cps) {
      running = update c (current_session (some ci)) (point_of cps).running;
    }
unfolding point_of
point_of-put_connector cps c ci =
    ap (λ (r : ℤ → Option ℤ). let p : Point = record (point_of cps) { running = r } in p)
      (fun_ext λ d. elim (Bool-cases (c == d)) [
        | inl same ↦ rw (lookup-insert c d ci cps.connectors, same)
        | inr other ↦ rw (lookup-insert c d ci cps.connectors, other)
      ])

pub point_of-put_transaction :
    (cps : ChargePointState) (t : ℤ) (ti : TransactionInfo)
    → point_of (put_transaction cps t ti)
      ≡ record (point_of cps) { sessions = update t (session_of (some ti)) (point_of cps).sessions }
unfolding point_of
point_of-put_transaction cps t ti =
    ap (λ s. let p : Point = record (point_of cps) { sessions = s } in p)
      (fun_ext λ u. elim (Bool-cases (t == u)) [
        | inl same ↦ rw (lookup-insert t u ti cps.transactions, same)
        | inr other ↦ rw (lookup-insert t u ti cps.transactions, other)
      ])

-- A connector written with the transaction that it has is the same to the ledger.
pub keep_connector :
    (cps : ChargePointState) (c : ℤ) (ci : ConnectorInfo)
    → current_session (some ci) ≡ current_session (lookup c cps.connectors)
    → point_of (put_connector cps c ci) ≡ point_of cps
keep_connector cps c ci same =
    point_of-put_connector cps c ci
    ∙ ap (λ (r : ℤ → Option ℤ). let p : Point = record (point_of cps) { running = r } in p)
        (update_self c (current_session (some ci)) (point_of cps).running (at c same))
  where
    at :
        (d : ℤ)
        → current_session (some ci) ≡ current_session (lookup d cps.connectors)
        → (point_of cps).running d ≡ current_session (some ci)
    at d h = unfold point_of in sym h

pub keep_transaction :
    (cps : ChargePointState) (t : ℤ) (ti : TransactionInfo)
    → session_of (some ti) ≡ session_of (lookup t cps.transactions)
    → point_of (put_transaction cps t ti) ≡ point_of cps
keep_transaction cps t ti same =
    point_of-put_transaction cps t ti
    ∙ ap (λ s. let p : Point = record (point_of cps) { sessions = s } in p)
        (update_self t (session_of (some ti)) (point_of cps).sessions (at t same))
  where
    at :
        (u : ℤ)
        → session_of (some ti) ≡ session_of (lookup u cps.transactions)
        → (point_of cps).sessions u ≡ session_of (some ti)
    at u h = unfold point_of in sym h

-- getConnector gives the connector that the ledger sees, and changes nothing that it sees.
pub get_connector-current :
    (cps : ChargePointState) (c : ℤ)
    → current_session (some (get_connector cps c).0) ≡ current_session (lookup c cps.connectors)
unfolding get_connector current_session
get_connector-current cps c = elim (Option-cases (lookup c cps.connectors)) [
  | inl e ↦ rw (e, get_connector)
  | inr (ci, e) ↦ rw (e, get_connector)
]

pub get_connector-point :
    (cps : ChargePointState) (c : ℤ) → point_of (get_connector cps c).1 ≡ point_of cps
unfolding get_connector
get_connector-point cps c = elim (Option-cases (lookup c cps.connectors)) [
  | inl e ↦ rw (e, get_connector) (keep_connector cps c idle_connector (idle c e))
  | inr (ci, e) ↦ rw (e, get_connector)
]
  where
    idle :
        (d : ℤ)
        → lookup d cps.connectors ≡ none
        → current_session (some idle_connector) ≡ current_session (lookup d cps.connectors)
    idle d e = unfold current_session in rw e

-- What getConnector leaves in the map is what it gives.
pub get_connector-lookup :
    (cps : ChargePointState) (c : ℤ)
    → lookup c (get_connector cps c).1.connectors ≡ some (get_connector cps c).0
unfolding get_connector
get_connector-lookup cps c = elim (Option-cases (lookup c cps.connectors)) [
  | inl e ↦ rw (e, get_connector) (lookup-insert_self c idle_connector cps.connectors)
  | inr (ci, e) ↦ rw (e, get_connector) e
]

pub ledger_of-put :
    (h : CentralSystemHandler) (cid : Bytes) (cps : ChargePointState)
    → ledger_of (put_charge_point h cid cps) ≡ put_point (ledger_of h) cid (some (point_of cps))
unfolding ledger_of known_point
ledger_of-put h cid cps =
    ap (λ ps. let l : Ledger = record (ledger_of h) { points = ps } in l)
      (fun_ext λ did. elim (Bool-cases (cid == did)) [
        | inl same ↦ rw (lookup-insert cid did cps h.charge_points, same)
        | inr other ↦ rw (lookup-insert cid did cps h.charge_points, other)
      ])

pub ledger_of-delete :
    (h : CentralSystemHandler) (cid : Bytes)
    → ledger_of (record h { charge_points = delete cid h.charge_points })
      ≡ put_point (ledger_of h) cid none
unfolding ledger_of known_point
ledger_of-delete h cid =
    ap (λ ps. let l : Ledger = record (ledger_of h) { points = ps } in l)
      (fun_ext λ did. elim (Bool-cases (cid == did)) [
        | inl same ↦ rw (lookup-delete cid did h.charge_points, same)
        | inr other ↦ rw (lookup-delete cid did h.charge_points, other)
      ])

-- A known charge point written with the sessions that it has is the same to the ledger.
pub keep_point :
    (h : CentralSystemHandler) (cid : Bytes) (cps cps' : ChargePointState)
    → lookup cid h.charge_points ≡ some cps
    → point_of cps' ≡ point_of cps
    → ledger_of (put_charge_point h cid cps') ≡ ledger_of h
unfolding ledger_of known_point
keep_point h cid cps cps' e same =
    ledger_of-put h cid cps'
    ∙ ap (λ ps. let l : Ledger = record (ledger_of h) { points = ps } in l)
        (update_self cid (some (point_of cps')) (ledger_of h).points (rw (e, same)))
