-- ===== src/Ocpp/Restart.antt =====
-- What the store of ocpp/store.go gives a process that starts again: the state that was saved last, and
-- a valid one.
use smarthouse.Prelude.{
  ℤ, pos, ◌≤ℤ◌, ◌<ℤ◌, Option, none, some, List, [], ◌∷◌, ◌++◌, Bytes, Bool, ◌≡◌, refl, arith,
  bytes_Eq, int_Eq, ap, subst, ◌∙◌, sym,
}
use smarthouse.GoMap.{Map, lookup}
use smarthouse.Ocpp.Types.{
  TransactionInfo, has_transaction_ended, ConnectorInfo, ChargePointState, CentralSystemHandler,
  new_handler,
}
use smarthouse.Ocpp.Consistent.{Runs, IsConsistent}
use smarthouse.Ocpp.Invariant.{IsValid}
use smarthouse.Ocpp.Transactions.{current_in, current_of}
use smarthouse.Ocpp.Store.{
  Codec, Database, found, state_key, restored, save, restore, Signal, tick, shutdown, run,
}
use smarthouse.Ocpp.Fresh.{AllFit, raise_all_bounds}

-- What of a transaction a decoded value has to keep: number, connector, and whether it has ended.
abbrev pub outline : Option TransactionInfo → Option (ℤ × ℤ × Bool)
outline none = none
outline (some ti) = some (ti.id, ti.connector_id, has_transaction_ended ti)

-- The decoded charge point has the same busy connectors and the same transactions, in outline.
abbrev pub SameShape : ChargePointState → ChargePointState → Type 0
SameShape p q =
    ((c : ℤ) → current_of q c ≡ current_of p c)
    × ((t : ℤ) → outline (lookup t q.transactions) ≡ outline (lookup t p.transactions))

-- Every decoded charge point is one that was encoded.
abbrev pub Agrees : Map Bytes ChargePointState → Map Bytes ChargePointState → Type 0
Agrees m m' =
    (cid : Bytes) (q : ChargePointState)
    → lookup cid m' ≡ some q
    → (p : ChargePointState) × (lookup cid m ≡ some p) × SameShape p q

keyed_by_outline :
    (t : ℤ) (ti : TransactionInfo) (o : Option TransactionInfo)
    → ((x : TransactionInfo) → o ≡ some x → x.id ≡ t)
    → outline (some ti) ≡ outline o
    → ti.id ≡ t
keyed_by_outline t ti none k e = ground arith
keyed_by_outline t ti (some x) k e = ground (arith, k x refl)

known_by_outline :
    (ti : TransactionInfo) (o : Option TransactionInfo)
    → outline (some ti) ≡ outline o
    → (x : TransactionInfo) × (o ≡ some x)
known_by_outline ti none e = ground arith
known_by_outline ti (some x) e = (x, refl)

Runs-by_outline :
    (c : ℤ) (o o' : Option TransactionInfo) → outline o' ≡ outline o → Runs c o → Runs c o'
Runs-by_outline c none o' e r = absurd r
Runs-by_outline c (some x) none e r = ground arith
Runs-by_outline c (some x) (some y) e r = ground arith

running_by_current :
    (n : ℤ) (p : ChargePointState) (c : ℤ)
    → IsConsistent n p
    → pos 0 ≤ℤ current_of p c
    → Runs c (lookup (current_of p c) p.transactions)
running_by_current n p c v b = go (lookup c p.connectors) refl b
  where
    go :
        (o : Option ConnectorInfo)
        → lookup c p.connectors ≡ o
        → pos 0 ≤ℤ current_in o
        → Runs c (lookup (current_in o) p.transactions)
    go none e b = absurd (omega arith)
    go (some ci) e b = v.running c ci e b

-- A decoded charge point is consistent if what was encoded is, with any bound on its numbers.
SameShape-IsConsistent :
    (n m : ℤ) (p q : ChargePointState)
    → IsConsistent n p
    → SameShape p q
    → ((t : ℤ) (ti : TransactionInfo) → lookup t q.transactions ≡ some ti → ti.id <ℤ m)
    → IsConsistent m q
SameShape-IsConsistent n m p q v (cur, trans) below = record {
  keyed = keyed';
  fresh = λ t ti e.
      let (x, known) =
        known_by_outline ti (lookup t p.transactions) (ap outline (sym e) ∙ trans t) in
      (omega (arith, v.fresh t x known), subst (λ z. z <ℤ m) (keyed' t ti e) (below t ti e));
  running = λ c ci e b.
      let at : current_of q c ≡ ci.current_transaction = ap current_in e in
      let same : current_of p c ≡ ci.current_transaction = sym (cur c) ∙ at in
      Runs-by_outline c (lookup ci.current_transaction p.transactions) _
        (trans ci.current_transaction)
        (subst (λ z. Runs c (lookup z p.transactions)) same
          (running_by_current n p c v (rw same b)));
}
  where
    keyed' : (t : ℤ) (ti : TransactionInfo) → lookup t q.transactions ≡ some ti → ti.id ≡ t
    keyed' t ti e =
        keyed_by_outline t ti (lookup t p.transactions) (v.keyed t) (ap outline (sym e) ∙ trans t)

-- What was decoded is valid with the next number that it is restored with.
pub restored-IsValid :
    (h : CentralSystemHandler) (m : Map Bytes ChargePointState)
    → IsValid h
    → Agrees h.charge_points m
    → AllFit m
    → IsValid (restored new_handler m)
unfolding restored
restored-IsValid h m v agrees fit =
    let (up, over) = raise_all_bounds m (pos 0) (omega arith) fit in
    record {
      counted = omega arith;
      each = λ cid q e.
          let (p, known, shape) = agrees cid q e in
          SameShape-IsConsistent h.next_transaction_id _ p q (v.each cid p known) shape
            (λ t ti u. over cid q t ti e u);
    }

-- A process that starts again from a valid state that was saved comes up in a valid state that holds
-- what was decoded: its next number is above every number in use. This needs of the database that it
-- gives back what was put, of the encoding that the decoded value agrees with the saved one, and that
-- no number that comes back is the largest int.
pub restart-IsValid :
    {S : Type 0} (db : Database S) (c : Codec) (h : CentralSystemHandler) (s : S) (b : Bytes)
    (m : Map Bytes ChargePointState)
    → IsValid h
    → c.marshal h.charge_points ≡ some b
    → db.get state_key (db.put state_key b s).1 ≡ found b
    → c.unmarshal b ≡ some m
    → Agrees h.charge_points m
    → AllFit m
    → (h' : CentralSystemHandler) × (restore db c new_handler (save db c h s) ≡ some h')
      × (h'.charge_points ≡ m)
      × IsValid h'
unfolding restore restored save
restart-IsValid db c h s b m v encodes kept decodes agrees fit =
    (restored new_handler m, ground arith, refl, restored-IsValid h m v agrees fit)

save-put :
    {S : Type 0} (db : Database S) (c : Codec) (h : CentralSystemHandler) (s : S) (b : Bytes)
    → c.marshal h.charge_points ≡ some b
    → save db c h s ≡ (db.put state_key b s).1
unfolding save
save-put db c h s b encodes = ground arith

abbrev pub AllTicks : List Signal → Type 0
AllTicks [] = Unit {0}
AllTicks (tick h ∷ signals) = AllTicks signals
AllTicks (shutdown ∷ signals) = ⊥

-- After any number of ticks, the last of which saved, the database holds the last state encoded; what
-- comes behind a shutdown is not saved.
pub run_last :
    {S : Type 0} (db : Database S) (c : Codec) (signals later : List Signal)
    (h : CentralSystemHandler) (s : S) (b : Bytes)
    → AllTicks signals
    → c.marshal h.charge_points ≡ some b
    → ((u : S) → db.get state_key (db.put state_key b u).1 ≡ found b)
    → db.get state_key (run db c (signals ++ (tick h ∷ shutdown ∷ later)) s) ≡ found b
unfolding run
run_last db c [] later h s b ticks encodes kept = rw (save-put db c h s b encodes) (kept s)
run_last db c (tick k ∷ signals) later h s b ticks encodes kept =
    run_last db c signals later h (save db c k s) b ticks encodes kept
run_last db c (shutdown ∷ signals) later h s b ticks encodes kept = absurd ticks
