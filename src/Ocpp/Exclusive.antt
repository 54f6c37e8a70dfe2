-- ===== src/Ocpp/Exclusive.antt =====
-- A connector runs one transaction at a time (ocpp/handler.go), whatever happens in between.
use smarthouse.Prelude.{
  ℤ, pos, ◌≤ℤ◌, ◌<ℤ◌, Option, none, some, List, [], ◌∷◌, Bytes, Bool, true, false, ◌==◌, ==_iff, Eq,
  ◌≡◌, ◌≢◌, refl, sym, ap, subst, ◌∙◌, arith, bytes_Eq, int_Eq, inl, inr, Bool-cases, Option-cases,
  All, ◌+◌, ◌≤◌, length, pos_part, max_int, returned,
}
use smarthouse.GoMap.{lookup}
use smarthouse.GoTime.{Time}
use smarthouse.Float64.{FloatOps}
use smarthouse.Ocpp.Types.{
  ConnectorInfo, ChargePointState, CentralSystemHandler, failed, connector_busy,
  StartTransactionRequest,
}
use smarthouse.Ocpp.Handler.{on_start_transaction}
use smarthouse.Ocpp.Events.{Message, Event, run}
use smarthouse.Ocpp.Invariant.{IsValid}
use smarthouse.Ocpp.Transactions.{current_in, current_of, on_start_transaction_busy}
use smarthouse.Ocpp.Ledger.{
  update, Point, Ledger, current_session, point_of, known_point, ledger_of, start_session,
  end_session, step_at, step, run_ledger,
}
use smarthouse.Ocpp.LedgerRuns.{ledger_of-run}

-- The message is a disconnect or a stop.
abbrev pub is_leaving : Message → Bool
is_leaving Message.disconnect = true
is_leaving (Message.stop_transaction request) = true
is_leaving _ = false

-- The event is no disconnect of this charge point and no stop from it.
abbrev pub Stays : Bytes → Event → Type 0
Stays cid e = is_leaving e.message ≡ true → e.charge_point ≢ cid

-- The connector of the charge point runs this session.
abbrev IsRunning : Ledger → Bytes → ℤ → ℤ → Type 0
IsRunning l cid c n = (p : Point) × (l.points cid ≡ some p) × (p.running c ≡ some n)

step_at-other :
    (l : Ledger) (cid other : Bytes) (m : Message) (known : Option Point)
    → (other == cid) ≡ false
    → (step_at l other m known).points cid ≡ l.points cid
unfolding step_at start_session end_session
step_at-other l cid other Message.connect none differ = rw differ
step_at-other l cid other Message.connect (some p) differ = refl
step_at-other l cid other Message.disconnect known differ = rw differ
step_at-other l cid other (Message.start_transaction request) none differ = refl
step_at-other l cid other (Message.start_transaction request) (some p) differ =
    elim (Option-cases (p.running request.connector_id)) [
      | inl free ↦ rw free (rw differ)
      | inr (t, busy) ↦ rw busy
    ]
step_at-other l cid other (Message.stop_transaction request) none differ = refl
step_at-other l cid other (Message.stop_transaction request) (some p) differ =
    elim (Option-cases (p.sessions request.transaction_id)) [
      | inl absent ↦ rw absent
      | inr (s, there) ↦ rw there (rw differ)
    ]
step_at-other l cid other m known differ = refl

is_self {ℓ} : {A : Type ℓ} ⦃e : Eq A⦄ → (x : A) → (x == x) ≡ true
is_self x = (==_iff x x).1 refl

not_leaving : (m : Message) → (is_leaving m ≡ true → ⊥) → is_leaving m ≡ false
not_leaving m never = elim (Bool-cases (is_leaving m)) [
  | inl leaving ↦ absurd (never leaving)
  | inr stays ↦ stays
]

-- The charge point with the next session on a connector.
abbrev with_session : Ledger → Point → ℤ → Point
with_session l p d = record {
  running = update d (some l.next) p.running;
  sessions = update l.next (some (record { connector = d; ended = Bool.false })) p.sessions;
}

module _ (cid : Bytes) (c n : ℤ) where
  start_session-IsRunning :
      (l : Ledger) (p : Point) (d : ℤ) (o : Option ℤ)
      → l.points cid ≡ some p
      → p.running c ≡ some n
      → p.running d ≡ o
      → IsRunning (start_session l cid p d o) cid c n
  unfolding start_session
  start_session-IsRunning l p d (some t) e running there = (p, e, running)
  start_session-IsRunning l p d none e running there = (
    with_session l p d,
    rw (is_self cid),
    elim (Bool-cases (d == c)) [
      | inl same ↦ absurd (clash (ap p.running ((==_iff d c).0 same)))
      | inr differ ↦ rw differ running
    ],
  )
    where
      clash : p.running d ≡ p.running c → ⊥
      clash same = ground (arith, sym there ∙ same ∙ running)

  step_at-IsRunning :
      (l : Ledger) (m : Message) (p : Point)
      → l.points cid ≡ some p
      → p.running c ≡ some n
      → is_leaving m ≡ false
      → IsRunning (step_at l cid m (some p)) cid c n
  unfolding step_at
  step_at-IsRunning l (Message.start_transaction request) p e running stays =
      start_session-IsRunning l p request.connector_id (p.running request.connector_id) e running
        refl
  step_at-IsRunning l Message.disconnect p e running stays = absurd (ground arith)
  step_at-IsRunning l (Message.stop_transaction request) p e running stays = absurd (ground arith)
  step_at-IsRunning l m p e running stays = (p, e, running)

  step-IsRunning :
      (l : Ledger) (ev : Event)
      → Stays cid ev
      → IsRunning l cid c n
      → IsRunning (step l ev.charge_point ev.message) cid c n
  unfolding step
  step-IsRunning l ev stays (p, e, running) = elim (Bool-cases (ev.charge_point == cid)) [
    | inl same ↦
        let at = (==_iff ev.charge_point cid).0 same in
        subst (λ k. IsRunning (step l k ev.message) cid c n) (sym at)
          (subst (λ o. IsRunning (step_at l cid ev.message o) cid c n) (sym e)
            (step_at-IsRunning l ev.message p e running
              (not_leaving ev.message (λ leaving. stays leaving at))))
    | inr differ ↦ (
      p,
      step_at-other l cid ev.charge_point ev.message (l.points ev.charge_point) differ ∙ e,
      running,
    )
  ]

  run_ledger-IsRunning :
      (l : Ledger) (es : List Event)
      → All (Stays cid) es
      → IsRunning l cid c n
      → IsRunning (run_ledger l es) cid c n
  unfolding run_ledger
  run_ledger-IsRunning l [] stay h = h
  run_ledger-IsRunning l (ev ∷ es) (first, stay) h =
      run_ledger-IsRunning (step l ev.charge_point ev.message) es stay (step-IsRunning l ev first h)

-- A start on a free connector puts its session on it.
free_none : (o : Option ConnectorInfo) → current_in o <ℤ pos 0 → current_session o ≡ none
unfolding current_session
free_none none free = refl
free_none (some ci) free = ground arith

some_current :
    (o : Option ConnectorInfo) (n : ℤ) → current_session o ≡ some n → pos 0 ≤ℤ current_in o
unfolding current_session
some_current none n e = absurd (ground arith)
some_current (some ci) n e = ground arith

started-IsRunning :
    (h : CentralSystemHandler) (cid : Bytes) (info : ChargePointState)
    (first : StartTransactionRequest)
    → lookup cid h.charge_points ≡ some info
    → current_of info first.connector_id <ℤ pos 0
    → IsRunning
        (step (ledger_of h) cid (Message.start_transaction first))
        cid
        first.connector_id
        h.next_transaction_id
unfolding step step_at ledger_of known_point point_of start_session
started-IsRunning h cid info first known free =
    rw (known, free_none (lookup first.connector_id info.connectors) free)
      (
        with_session (ledger_of h) (point_of info) first.connector_id,
        rw (is_self cid),
        rw (is_self first.connector_id),
      )

-- A connector that runs a session is there, in use.
running_busy :
    (h : CentralSystemHandler) (cid : Bytes) (p : Point) (c n : ℤ)
    → (ledger_of h).points cid ≡ some p
    → p.running c ≡ some n
    → (info : ChargePointState) × (lookup cid h.charge_points ≡ some info)
      × (pos 0 ≤ℤ current_of info c)
unfolding ledger_of known_point point_of
running_busy h cid p c n at running = elim (Option-cases (lookup cid h.charge_points)) [
  | inl absent ↦ absurd (ground arith)
  | inr (info, known) ↦
      let same : point_of info ≡ p = ground arith in
      (
        info,
        known,
        some_current (lookup c info.connectors) n (ap (λ (q : Point). q.running c) same ∙ running),
      )
]

-- From a valid state with numbers left, a start on a free connector of a connected charge point is followed
-- by any events that do not panic, among which that charge point neither disconnects nor stops a
-- transaction. Then a second start on that connector is refused and changes nothing.
pub start_exclusive :
    (f : FloatOps) (h h' : CentralSystemHandler) (cid : Bytes) (info : ChargePointState)
    (now : Time) (first second : StartTransactionRequest) (es : List Event)
    → IsValid h
    → pos_part h.next_transaction_id + (1 + length es) ≤ pos_part max_int
    → lookup cid h.charge_points ≡ some info
    → current_of info first.connector_id <ℤ pos 0
    → first.connector_id ≡ second.connector_id
    → All (Stays cid) es
    → let start : Event = record {
      charge_point = cid;
      time = now;
      message = Message.start_transaction first;
    } in
      run f h (start ∷ es) ≡ returned h'
      → on_start_transaction h' cid second ≡ (failed (connector_busy second.connector_id), h')
start_exclusive f h h' cid info now first second es v room known free same stay ran =
    let c = first.connector_id in
    let n = h.next_transaction_id in
    let begun = step (ledger_of h) cid (Message.start_transaction first) in
    let start : Event = record {
      charge_point = cid;
      time = now;
      message = Message.start_transaction first;
    } in
    let (p, at, running) =
      subst (λ l. IsRunning l cid c n)
        (sym (ledger_of-run f h h' (start ∷ es) (omega (arith, room)) v ran))
        (unfold run_ledger in
          run_ledger-IsRunning cid c n begun es stay
            (started-IsRunning h cid info first known free)) in
    let (info', known', busy) = running_busy h' cid p c n at running in
    on_start_transaction_busy h' cid info' second known'
      (subst (λ d. pos 0 ≤ℤ current_of info' d) same busy)
