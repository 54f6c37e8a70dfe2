-- ===== src/Ocpp/Index.antt =====
-- ocpp/http.go: the index page, as the entries that it shows for each charge point.
-- A pointer that it follows may be nil: a connector's or a transaction's last measurement, a
-- transaction's start, and the value of a configuration key.
use smarthouse.Prelude.{
  pos, ℤ, ltb_ℤ, Option, none, some, List, [], ◌∷◌, Bytes, Bool, Outcome, returned, panicked, ◌>>=◌,
  if◌then◌else◌,
}
use smarthouse.GoTime.{Time, sub, thirty_seconds}
use smarthouse.Ocpp.Types.{
  Measurement, TransactionInfo, has_transaction_ended, ConnectorInfo, has_transaction_in_progress,
  ConfigurationKey, ChargePointState, CentralSystemHandler,
}
use smarthouse.Ocpp.Http.{start_action, stop_action, reset_action}

abbrev dereference : Option Measurement → Outcome (Option Measurement)
dereference none = panicked
dereference (some m) = returned (some m)

-- "providing": the last measurement, if it was taken less than 30 seconds ago.
unfoldable pub providing : Time → Option Measurement → Time → Outcome (Option Measurement)
providing now last at =
    let shown = dereference last in
    if ltb_ℤ (sub now at) thirty_seconds then shown else returned none

-- A connector runs a transaction and may be providing, or has a form that starts one.
pub data ConnectorEntry : Type 0 where
  busy : ℤ → Option Measurement → ConnectorEntry
  free : Bytes → ConnectorEntry

unfoldable pub connector_entry : Time → Bytes → ℤ × ConnectorInfo → Outcome ConnectorEntry
unfolding providing
connector_entry now id (c, ci) =
    let running = providing now ci.last_measurement ci.measurement_time >>= λ m.
    returned (busy ci.current_transaction m) in
    if has_transaction_in_progress ci then running else returned (free (start_action id c))

-- A transaction, what it is providing, and the form that stops it.
pub record TransactionEntry : Type 0 where
  pub shown : TransactionInfo
  pub measurement : Option Measurement
  pub stop_form : Option Bytes

unfoldable pub transaction_entry : Time → Bytes → ℤ × TransactionInfo → Outcome TransactionEntry
unfolding providing
transaction_entry now id (t, ti) = providing now ti.last_measurement ti.measurement_time >>= λ m.
    returned (record {
      shown = ti;
      measurement = m;
      stop_form = if has_transaction_ended ti then none else some (stop_action id ti.id);
    })

-- `*k.Value`
unfoldable pub config_entry : ConfigurationKey → Outcome (Bytes × Bytes)
config_entry k = elim k.value [ none ↦ panicked | some v ↦ returned (k.key, v) ]

unfoldable pub each_entry {ℓ κ} :
    {A : Type ℓ} {B : Type κ} → (A → Outcome B) → List A → Outcome (List B)
each_entry entry [] = returned []
each_entry entry (x ∷ xs) = do y ← entry x; ys ← each_entry entry xs; returned (y ∷ ys)

-- rv[i].StartTime.Time.Sub(rv[j].StartTime.Time) < 0
unfoldable pub starts_before : TransactionInfo → TransactionInfo → Outcome Bool
starts_before ti tj = elim ti.start_time [
  | none ↦ panicked
  | some t ↦ elim tj.start_time [ none ↦ panicked | some u ↦ returned (ltb_ℤ (sub t u) (pos 0)) ]
]

unfoldable pub insert_by_start :
    ℤ × TransactionInfo → List (ℤ × TransactionInfo) → Outcome (List (ℤ × TransactionInfo))
unfolding starts_before
insert_by_start x [] = returned (x ∷ [])
insert_by_start x (y ∷ ys) =
    let later = insert_by_start x ys >>= λ zs. returned (y ∷ zs) in
    starts_before x.1 y.1 >>= λ before. if before then returned (x ∷ y ∷ ys) else later

-- orderedTransactions: sort.Slice, whose order of equal elements is not fixed, as an insertion sort. It
-- compares nothing where there is one transaction, and each of them where there are more.
unfoldable pub ordered_transactions :
    List (ℤ × TransactionInfo) → Outcome (List (ℤ × TransactionInfo))
unfolding insert_by_start
ordered_transactions [] = returned []
ordered_transactions (x ∷ xs) = do sorted ← ordered_transactions xs; insert_by_start x sorted

-- What is shown of a charge point.
pub record PointEntry : Type 0 where
  pub info : ChargePointState
  pub reset_form : Bytes
  pub config : List (Bytes × Bytes)
  pub connectors : List ConnectorEntry
  pub transactions : List TransactionEntry

-- `show_config` is whether the query has showconfig.
unfoldable pub point_entry : Bool → Time → Bytes × ChargePointState → Outcome PointEntry
unfolding connector_entry transaction_entry config_entry each_entry ordered_transactions
point_entry show_config now (id, cp) = do
  config ← each_entry config_entry (if show_config then cp.config_keys else [])
  connectors ← each_entry (connector_entry now id) cp.connectors
  sorted ← ordered_transactions cp.transactions
  transactions ← each_entry (transaction_entry now id) sorted
  returned (record {
    info = cp;
    reset_form = reset_action id;
    config = config;
    connectors = connectors;
    transactions = transactions;
  })

unfoldable pub index : Bool → Time → CentralSystemHandler → Outcome (List PointEntry)
unfolding point_entry
index show_config now h = each_entry (point_entry show_config now) h.charge_points
