-- ===== src/Ocpp/Consistent.antt =====
-- What holds of one charge point's state between two callbacks of ocpp/handler.go, and that each
-- write to it keeps this.
use smarthouse.Prelude.{
  ℤ, pos, negsuc, ◌≤ℤ◌, ◌<ℤ◌, Option, none, some, false, ◌≡◌, arith, int_Eq, ==_iff, inl, inr,
  Option-cases,
}
use smarthouse.GoMap.{lookup, lookup-insert}
use smarthouse.Ocpp.Types.{
  TransactionInfo, has_transaction_ended, ConnectorInfo, idle_connector, ChargePointState,
  new_charge_point,
}
use smarthouse.Ocpp.Handler.{put_connector, put_transaction, get_connector}

-- The transaction of a busy connector is recorded, names the connector, and has not ended.
abbrev pub Runs : ℤ → Option TransactionInfo → Type 0
Runs c none = ⊥
Runs c (some ti) = (ti.connector_id ≡ c) × (has_transaction_ended ti ≡ false)

-- `n` is the next transaction's number.
pub record IsConsistent (n : ℤ) (cps : ChargePointState) : Type 0 where
  -- A transaction stands under its own number.
  pub keyed : (t : ℤ) (ti : TransactionInfo) → lookup t cps.transactions ≡ some ti → ti.id ≡ t
  -- The numbers in use are at least 0 and below the next.
  pub fresh :
      (t : ℤ) (ti : TransactionInfo) → lookup t cps.transactions ≡ some ti → (pos 0 ≤ℤ t) × (t <ℤ n)
  -- A busy connector runs a transaction of its own.
  pub running :
      (c : ℤ) (ci : ConnectorInfo)
      → lookup c cps.connectors ≡ some ci
      → pos 0 ≤ℤ ci.current_transaction
      → Runs c (lookup ci.current_transaction cps.transactions)

pub new-IsConsistent : (n : ℤ) → IsConsistent n new_charge_point
unfolding lookup
new-IsConsistent n = record {
  keyed = λ t ti h. ground arith;
  fresh = λ t ti h. ground arith;
  running = λ c ci h b. ground arith;
}

-- A connector may be written if it is free, or runs a transaction of its own.
pub put_connector-IsConsistent :
    (n : ℤ) (cps : ChargePointState) (c : ℤ) (ci : ConnectorInfo)
    → IsConsistent n cps
    → (pos 0 ≤ℤ ci.current_transaction → Runs c (lookup ci.current_transaction cps.transactions))
    → IsConsistent n (put_connector cps c ci)
put_connector-IsConsistent n cps c ci v own = record {
  keyed = v.keyed;
  fresh = v.fresh;
  running = λ d di h b.
      ground (arith, lookup-insert c d ci cps.connectors, ==_iff c d, v.running d di, own);
}

pub get_connector-IsConsistent :
    (n : ℤ) (cps : ChargePointState) (c : ℤ)
    → IsConsistent n cps
    → IsConsistent n (get_connector cps c).1
unfolding get_connector
get_connector-IsConsistent n cps c v =
    ground (arith, put_connector-IsConsistent n cps c idle_connector v)

-- The connector that getConnector gives is free, or runs a transaction of its own.
pub get_connector-Runs :
    (n : ℤ) (cps : ChargePointState) (c : ℤ)
    → IsConsistent n cps
    → pos 0 ≤ℤ (get_connector cps c).0.current_transaction
    → Runs c (lookup (get_connector cps c).0.current_transaction cps.transactions)
unfolding get_connector
get_connector-Runs n cps c v = elim (Option-cases (lookup c cps.connectors)) [
  | inl e ↦ rw (e, get_connector) (λ b. absurd (omega arith))
  | inr (ci, e) ↦ rw (e, get_connector) (λ b. v.running c ci e b)
]

-- getConnector adds a connector at most.
pub get_connector-transactions :
    (cps : ChargePointState) (c : ℤ) → (get_connector cps c).1.transactions ≡ cps.transactions
unfolding get_connector
get_connector-transactions cps c = ground arith

-- A recorded transaction may be written if its number, its connector and its end stay.
pub put_transaction-IsConsistent :
    (n : ℤ) (cps : ChargePointState) (t : ℤ) (ti ti' : TransactionInfo)
    → IsConsistent n cps
    → lookup t cps.transactions ≡ some ti
    → ti'.id ≡ ti.id
    → ti'.connector_id ≡ ti.connector_id
    → has_transaction_ended ti' ≡ has_transaction_ended ti
    → IsConsistent n (put_transaction cps t ti')
put_transaction-IsConsistent n cps t ti ti' v old same_id same_connector same_end = record {
  keyed = λ u ui h.
      ground
        (arith, lookup-insert t u ti' cps.transactions, ==_iff t u, v.keyed t ti old, v.keyed u ui);
  fresh = λ u ui h.
      ground
        (arith, lookup-insert t u ti' cps.transactions, ==_iff t u, v.fresh t ti old, v.fresh u ui);
  running = λ c ci h b.
      let cur = ci.current_transaction in
      ground (arith, lookup-insert t cur ti' cps.transactions, ==_iff t cur, v.running c ci h b);
}

-- The next number is not in use.
pub lookup-next :
    (n : ℤ) (cps : ChargePointState) → IsConsistent n cps → lookup n cps.transactions ≡ none
lookup-next n cps v = elim (Option-cases (lookup n cps.transactions)) [
  | inl e ↦ e
  | inr (ti, e) ↦ absurd (omega (arith, v.fresh n ti e))
]

-- A transaction with the next number may be added.
pub put_new_transaction-IsConsistent :
    (n m : ℤ) (cps : ChargePointState) (ti : TransactionInfo)
    → IsConsistent n cps
    → pos 0 ≤ℤ n
    → n <ℤ m
    → ti.id ≡ n
    → IsConsistent m (put_transaction cps n ti)
put_new_transaction-IsConsistent n m cps ti v lo up id = record {
  keyed = λ u ui h. ground (arith, lookup-insert n u ti cps.transactions, ==_iff n u, v.keyed u ui);
  fresh = λ u ui h. ground (arith, lookup-insert n u ti cps.transactions, ==_iff n u, v.fresh u ui);
  running = λ c ci h b.
      let cur = ci.current_transaction in
      ground (
        arith,
        lookup-insert n cur ti cps.transactions,
        ==_iff n cur,
        v.running c ci h b,
        lookup-next n cps v,
      );
}

-- A transaction may end once its connector is free.
pub end-IsConsistent :
    (n : ℤ) (cps : ChargePointState) (t : ℤ) (ti ti' : TransactionInfo) (ci : ConnectorInfo)
    → IsConsistent n cps
    → lookup t cps.transactions ≡ some ti
    → ti'.id ≡ ti.id
    → ci.current_transaction ≡ negsuc 0
    → IsConsistent n (put_transaction (put_connector cps ti.connector_id ci) t ti')
end-IsConsistent n cps t ti ti' ci v old same_id free = record {
  keyed = λ u ui h.
      ground
        (arith, lookup-insert t u ti' cps.transactions, ==_iff t u, v.keyed t ti old, v.keyed u ui);
  fresh = λ u ui h.
      ground
        (arith, lookup-insert t u ti' cps.transactions, ==_iff t u, v.fresh t ti old, v.fresh u ui);
  running = λ d di h b.
      let cur = di.current_transaction in
      ground (
        arith,
        lookup-insert t cur ti' cps.transactions,
        ==_iff t cur,
        lookup-insert ti.connector_id d ci cps.connectors,
        ==_iff ti.connector_id d,
        v.running d di,
      );
}

-- The next number may grow.
pub IsConsistent-mono :
    (n m : ℤ) (cps : ChargePointState) → n ≤ℤ m → IsConsistent n cps → IsConsistent m cps
IsConsistent-mono n m cps up v = record {
  keyed = v.keyed;
  fresh = λ t ti h. omega (arith, v.fresh t ti h);
  running = v.running;
}
