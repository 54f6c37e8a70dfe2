-- ===== src/Ocpp/Shown.antt =====
-- ocpp/http.go and ocpp/handler.go: the index page follows no nil measurement.
use smarthouse.Prelude.{
  Option-cases, subst, if◌then◌else◌, int_Eq, bytes_Eq, ◌-ℤ◌, ℤ, pos, negsuc, ◌≤ℤ◌, ltb_ℤ, Option,
  none, some, List, [], ◌∷◌, All, Bytes, Bool, true, false, Outcome, Returns, >>=-Returns, ◌≡◌,
  arith, inl, inr, Bool-cases,
}
use smarthouse.GoMap.{Map, Values}
use smarthouse.GoTime.{Time, sub, thirty_seconds}
use smarthouse.Ocpp.Types.{
  Measurement, TransactionInfo, ConnectorInfo, has_transaction_in_progress, ConfigurationKey,
  ChargePointState, CentralSystemHandler,
}
use smarthouse.Ocpp.Index.{
  providing, connector_entry, transaction_entry, config_entry, each_entry, starts_before,
  insert_by_start, ordered_transactions, PointEntry, point_entry, index,
}

-- Without a measurement there is no time of one.
abbrev pub IsMeasured : Option Measurement → Time → Type 0
IsMeasured none at = at ≡ pos 0
IsMeasured (some m) at = Unit

-- The pointer to a time is not nil.
abbrev pub IsTimed : Option Time → Type 0
IsTimed none = ⊥
IsTimed (some t) = Unit

abbrev pub IsMeasuredConnector : ConnectorInfo → Type 0
IsMeasuredConnector ci = IsMeasured ci.last_measurement ci.measurement_time

abbrev pub IsMeasuredTransaction : TransactionInfo → Type 0
IsMeasuredTransaction ti =
    IsMeasured ti.last_measurement ti.measurement_time × IsTimed ti.start_time

-- Every connector and every transaction of a charge point.
abbrev pub IsShown : ChargePointState → Type 0
IsShown cp = Values IsMeasuredConnector cp.connectors × Values IsMeasuredTransaction cp.transactions

abbrev pub IsShownPage : CentralSystemHandler → Type 0
IsShownPage h = Values IsShown h.charge_points

abbrev pub HasValue : ConfigurationKey → Type 0
HasValue k = (v : Bytes) × (k.value ≡ some v)

abbrev Ok {ℓ} : {A : Type ℓ} → Outcome A → Type 0
Ok = Returns (λ a. Unit)

-- The zero time is long ago.
sub-zero : (now : Time) → thirty_seconds ≤ℤ now → ltb_ℤ (sub now (pos 0)) thirty_seconds ≡ false
unfolding sub ◌-ℤ◌
sub-zero (pos n) late = ground arith
sub-zero (negsuc n) late = absurd (omega arith)

providing-Ok :
    (now : Time) (last : Option Measurement) (at : Time)
    → thirty_seconds ≤ℤ now
    → IsMeasured last at
    → Ok (providing now last at)
unfolding providing sub
providing-Ok now none at late v = rw (v, sub-zero now late) tt
providing-Ok now (some m) at late v = ground arith

each_entry-Ok {ℓ κ} :
    {A : Type ℓ} {B : Type κ} (P : A → Type 0) (entry : A → Outcome B) (xs : List A)
    → ((x : A) → P x → Ok (entry x))
    → All P xs
    → Ok (each_entry entry xs)
unfolding each_entry
each_entry-Ok P entry [] ok h = tt
each_entry-Ok P entry (x ∷ xs) ok (hx, h) =
    >>=-Returns (λ y. Unit) (λ ys. Unit) (entry x) _ (ok x hx)
      (λ y _.
        >>=-Returns (λ ys. Unit) (λ zs. Unit) (each_entry entry xs) _
          (each_entry-Ok P entry xs ok h) (λ ys _. tt))

module _ (now : Time) (late : thirty_seconds ≤ℤ now) (id : Bytes) where
  connector_entry-Ok :
      (e : ℤ × ConnectorInfo) → IsMeasuredConnector e.1 → Ok (connector_entry now id e)
  unfolding connector_entry
  connector_entry-Ok (c, ci) v = elim (Bool-cases (has_transaction_in_progress ci)) [
    | inl runs ↦ rw runs (
        >>=-Returns (λ m. Unit) (λ e. Unit) (providing now ci.last_measurement ci.measurement_time)
          _ (providing-Ok now ci.last_measurement ci.measurement_time late v) (λ m _. tt))
    | inr idle ↦ rw idle tt
  ]

  transaction_entry-Ok :
      (e : ℤ × TransactionInfo) → IsMeasuredTransaction e.1 → Ok (transaction_entry now id e)
  unfolding transaction_entry
  transaction_entry-Ok (t, ti) v =
      >>=-Returns (λ m. Unit) (λ e. Unit) (providing now ti.last_measurement ti.measurement_time) _
        (providing-Ok now ti.last_measurement ti.measurement_time late v.0) (λ m _. tt)

config_entry-Ok : (k : ConfigurationKey) → HasValue k → Ok (config_entry k)
unfolding config_entry
config_entry-Ok k (v, e) = rw e tt

Values-All {ℓ κ} :
    {K : Type ℓ} {V : Type κ} (P : V → Type 0) (m : Map K V)
    → Values P m
    → All (λ (e : K × V). P e.1) m
Values-All P [] h = tt
Values-All P (e ∷ m) (hx, h) = (hx, Values-All P m h)

starts_before-Ok :
    (ti tj : TransactionInfo)
    → IsTimed ti.start_time
    → IsTimed tj.start_time
    → Ok (starts_before ti tj)
unfolding starts_before
starts_before-Ok ti tj v w = elim (Option-cases ti.start_time) [
  | inl e ↦ absurd (subst IsTimed e v)
  | inr (t, e) ↦ elim (Option-cases tj.start_time) [
    | inl e' ↦ absurd (subst IsTimed e' w)
    | inr (u, e') ↦ rw (e, e') tt
  ]
]

abbrev AreShown : List (ℤ × TransactionInfo) → Type 0
AreShown = All (λ (e : ℤ × TransactionInfo). IsMeasuredTransaction e.1)

insert_by_start-AreShown :
    (x : ℤ × TransactionInfo) (ys : List (ℤ × TransactionInfo))
    → IsMeasuredTransaction x.1
    → AreShown ys
    → Returns AreShown (insert_by_start x ys)
unfolding insert_by_start
insert_by_start-AreShown x [] v h = (v, tt)
insert_by_start-AreShown x (y ∷ ys) v (w, h) =
    >>=-Returns (λ b. Unit) AreShown (starts_before x.1 y.1) _ (starts_before-Ok x.1 y.1 v.1 w.1)
      (λ b _. elim (Bool-cases b) [
        | inl before ↦ rw before (v, (w, h))
        | inr after ↦ rw after (
            >>=-Returns AreShown AreShown (insert_by_start x ys) _
              (insert_by_start-AreShown x ys v h) (λ zs k. (w, k)))
      ])

ordered_transactions-AreShown :
    (xs : List (ℤ × TransactionInfo)) → AreShown xs → Returns AreShown (ordered_transactions xs)
unfolding ordered_transactions
ordered_transactions-AreShown [] h = tt
ordered_transactions-AreShown (x ∷ xs) (v, h) =
    >>=-Returns AreShown AreShown (ordered_transactions xs) _ (ordered_transactions-AreShown xs h)
      (λ sorted k. insert_by_start-AreShown x sorted v k)

-- Where the configuration is shown, every key has a value.
abbrev pub HasValues : Bool → ChargePointState → Type 0
HasValues false cp = Unit
HasValues true cp = All HasValue cp.config_keys

shown_keys :
    (show_config : Bool) (cp : ChargePointState)
    → HasValues show_config cp
    → All HasValue (if show_config then cp.config_keys else [])
shown_keys false cp h = tt
shown_keys true cp h = h

point_entry-Ok :
    (show_config : Bool) (now : Time) (e : Bytes × ChargePointState)
    → thirty_seconds ≤ℤ now
    → IsShown e.1 × HasValues show_config e.1
    → Ok (point_entry show_config now e)
unfolding point_entry
point_entry-Ok show_config now (id, cp) late ((cs, ts), vs) =
    >>=-Returns (λ a. Unit) (λ (a : PointEntry). Unit)
      (each_entry config_entry (if show_config then cp.config_keys else [])) _
      (each_entry-Ok HasValue config_entry (if show_config then cp.config_keys else [])
        config_entry-Ok (shown_keys show_config cp vs))
      (λ config _.
        >>=-Returns (λ a. Unit) (λ (a : PointEntry). Unit)
          (each_entry (connector_entry now id) cp.connectors) _
          (each_entry-Ok (λ e. IsMeasuredConnector e.1) (connector_entry now id) cp.connectors
            (connector_entry-Ok now late id) (Values-All IsMeasuredConnector cp.connectors cs))
          (λ connectors _.
            >>=-Returns AreShown (λ (a : PointEntry). Unit) (ordered_transactions cp.transactions) _
              (ordered_transactions-AreShown cp.transactions
                (Values-All IsMeasuredTransaction cp.transactions ts))
              (λ sorted k.
                >>=-Returns (λ a. Unit) (λ (a : PointEntry). Unit)
                  (each_entry (transaction_entry now id) sorted) _
                  (each_entry-Ok (λ e. IsMeasuredTransaction e.1) (transaction_entry now id) sorted
                    (transaction_entry-Ok now late id) k)
                  (λ transactions _. tt))))

both :
    (show_config : Bool) (m : Map Bytes ChargePointState)
    → Values IsShown m
    → Values (HasValues show_config) m
    → Values (λ cp. IsShown cp × HasValues show_config cp) m
both show_config [] h k = tt
both show_config (e ∷ m) (hx, h) (kx, k) = ((hx, kx), both show_config m h k)

pub index-Ok :
    (show_config : Bool) (now : Time) (h : CentralSystemHandler)
    → thirty_seconds ≤ℤ now
    → IsShownPage h
    → Values (HasValues show_config) h.charge_points
    → Returns (λ entries. Unit) (index show_config now h)
unfolding index
index-Ok show_config now h late shown valued =
    each_entry-Ok (λ e. IsShown e.1 × HasValues show_config e.1) (point_entry show_config now)
      h.charge_points (λ e v. point_entry-Ok show_config now e late v)
      (Values-All (λ cp. IsShown cp × HasValues show_config cp) h.charge_points
        (both show_config h.charge_points shown valued))
