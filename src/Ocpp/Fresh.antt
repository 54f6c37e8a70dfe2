-- ===== src/Ocpp/Fresh.antt =====
-- The loops of Restore in ocpp/store.go: the numbers of new transactions are fresh.
use smarthouse.Prelude.{
  Eq, ◌==◌, ℤ, pos, negsuc, ◌≤ℤ◌, ◌<ℤ◌, leb_ℤ, some, [], ◌∷◌, Bytes, true, false, ◌≡◌, refl, arith,
  All, max_int, add_int, add_int-one, if◌then◌else◌, Bool-cases, inl, inr, bytes_Eq, int_Eq, subst,
  ◌∙◌, sym,
}
use smarthouse.GoMap.{Map, lookup}
use smarthouse.Ocpp.Types.{TransactionInfo, ChargePointState, CentralSystemHandler}
use smarthouse.Ocpp.Store.{
  Codec, Database, found, state_key, raise_transactions, raise_all, restored, restore,
}

-- No recorded number is the largest int.
abbrev pub IdsFit : Map ℤ TransactionInfo → Type 0
IdsFit = All (λ e. e.1.id <ℤ max_int)

abbrev pub AllFit : Map Bytes ChargePointState → Type 0
AllFit = All (λ e. IdsFit e.1.transactions)

raise_one :
    (next id : ℤ)
    → pos 0 ≤ℤ next
    → id <ℤ max_int
    → let next' = if leb_ℤ next id then add_int id (pos 1) else next in
      (next ≤ℤ next') × (id <ℤ next')
raise_one next (pos k) lo fit = ground (arith, add_int-one k fit)
raise_one next (negsuc k) lo fit = ground arith

-- What a lookup finds at the head of a map, and behind it.
module _ {ℓ κ} {K : Type ℓ} {V : Type κ} ⦃e : Eq K⦄ where
  lookup-here :
      (k j : K) (v w : V) (m : Map K V) → (k == j) ≡ true → lookup j ((k, v) ∷ m) ≡ some w → v ≡ w
  unfolding lookup
  lookup-here k j v w m same h = ground arith

  lookup-there :
      (k j : K) (v : V) (m : Map K V) → (k == j) ≡ false → lookup j m ≡ lookup j ((k, v) ∷ m)
  unfolding lookup
  lookup-there k j v m other = ground arith

raise_transactions_bounds :
    (ts : Map ℤ TransactionInfo) (next : ℤ)
    → pos 0 ≤ℤ next
    → IdsFit ts
    → (next ≤ℤ raise_transactions ts next)
      × ((t : ℤ) (ti : TransactionInfo)
          → lookup t ts ≡ some ti
          → ti.id <ℤ raise_transactions ts next)
unfolding raise_transactions lookup
raise_transactions_bounds [] next lo fit = (omega arith, λ t ti e. ground arith)
raise_transactions_bounds ((k, x) ∷ ts) next lo (fit, fits) =
    let next' = if leb_ℤ next x.id then add_int x.id (pos 1) else next in
    let (up, over) = raise_one next x.id lo fit in
    let (ups, overs) = raise_transactions_bounds ts next' (omega arith) fits in
    (
      omega arith,
      λ t ti e. elim (Bool-cases (k == t)) [
        | inl same ↦
            subst (λ (y : TransactionInfo). y.id <ℤ raise_transactions ts next')
              (lookup-here k t x ti ts same e) (omega arith)
        | inr other ↦ overs t ti (lookup-there k t x ts other ∙ e)
      ],
    )

pub raise_all_bounds :
    (ps : Map Bytes ChargePointState) (next : ℤ)
    → pos 0 ≤ℤ next
    → AllFit ps
    → (next ≤ℤ raise_all ps next)
      × ((cid : Bytes) (p : ChargePointState) (t : ℤ) (ti : TransactionInfo)
          → lookup cid ps ≡ some p
          → lookup t p.transactions ≡ some ti
          → ti.id <ℤ raise_all ps next)
unfolding raise_all
raise_all_bounds [] next lo fit = (omega arith, λ cid p t ti e u. unfold lookup in ground arith)
raise_all_bounds ((k, q) ∷ ps) next lo (fit, fits) =
    let next' = raise_transactions q.transactions next in
    let (up, over) = raise_transactions_bounds q.transactions next lo fit in
    let (ups, overs) = raise_all_bounds ps next' (omega arith) fits in
    (
      omega arith,
      λ cid p t ti e u. elim (Bool-cases (k == cid)) [
        | inl same ↦
            let at : lookup t q.transactions ≡ some ti =
              subst (λ (y : ChargePointState). lookup t y.transactions ≡ some ti)
                (sym (lookup-here k cid q p ps same e)) u in
            omega (arith, over t ti at)
        | inr other ↦ overs cid p t ti (lookup-there k cid q ps other ∙ e) u
      ],
    )

-- Restore from a value that decodes sets the next number above that of every transaction that comes
-- back, and never lowers it, if no number that comes back is the largest int.
pub restore_fresh :
    {S : Type 0} (db : Database S) (c : Codec) (h : CentralSystemHandler) (s : S) (b : Bytes)
    (m : Map Bytes ChargePointState)
    → db.get state_key s ≡ found b
    → c.unmarshal b ≡ some m
    → pos 0 ≤ℤ h.next_transaction_id
    → AllFit m
    → (h' : CentralSystemHandler) × (restore db c h s ≡ some h')
      × (h'.charge_points ≡ m)
      × (h.next_transaction_id ≤ℤ h'.next_transaction_id)
      × ((cid : Bytes) (p : ChargePointState) (t : ℤ) (ti : TransactionInfo)
          → lookup cid m ≡ some p
          → lookup t p.transactions ≡ some ti
          → ti.id <ℤ h'.next_transaction_id)
unfolding restore restored
restore_fresh db c h s b m row decodes lo fit =
    let (up, over) = raise_all_bounds m h.next_transaction_id lo fit in
    (restored h m, ground arith, refl, up, over)
