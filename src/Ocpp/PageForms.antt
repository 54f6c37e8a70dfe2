-- ===== src/Ocpp/PageForms.antt =====
-- ocpp/http.go: the forms of the index page, read from its text.
use smarthouse.Prelude.{
  ℤ, Option, none, some, List, [], ◌∷◌, ◌++◌, Bytes, bytes_Eq, Bool-cases, inl, inr, refl, All,
  Outcome, Alike, >>=-Alike, Allows, >>=-Allows, >>=-Allows_any,
}
use smarthouse.GoConv.{Plain}
use smarthouse.Ocpp.Types.{TransactionInfo, ChargePointState}
use smarthouse.Ocpp.Index.{
  each_entry, starts_before, insert_by_start, ordered_transactions, ConnectorEntry,
  TransactionEntry, PointEntry,
}
use smarthouse.Ocpp.PageText.{each_text}
use smarthouse.Ocpp.Markup.{Reads, beside, closed}

-- The forms of what is shown, in order.
abbrev pub flat {ℓ} : {A : Type ℓ} → (A → List Bytes) → List A → List Bytes
flat forms [] = []
flat forms (x ∷ xs) = forms x ++ flat forms xs

abbrev pub connector_forms : ConnectorEntry → List Bytes
connector_forms (ConnectorEntry.busy n m) = []
connector_forms (ConnectorEntry.free action) = action ∷ []

abbrev pub some_form : Option Bytes → List Bytes
some_form none = []
some_form (some action) = action ∷ []

abbrev pub transaction_forms : TransactionEntry → List Bytes
transaction_forms e = some_form e.stop_form

abbrev pub point_forms : PointEntry → List Bytes
point_forms e =
    e.reset_form ∷ flat connector_forms e.connectors ++ flat transaction_forms e.transactions

abbrev pub PlainValue : Option Bytes → Type 0
PlainValue none = Unit
PlainValue (some value) = Plain value

-- What a charge point has told of itself has neither `<` nor a double quote.
pub record PlainPoint (point : Bytes × ChargePointState) : Type 0 where
  pub name : Plain point.0
  pub vendor : Plain point.1.boot_data.charge_point_vendor
  pub model : Plain point.1.boot_data.charge_point_model
  pub serial : Plain point.1.boot_data.charge_point_serial_number
  pub firmware : Plain point.1.boot_data.firmware_version
  pub status : Plain point.1.status
  pub diagnostics : Plain point.1.diagnostics_status
  pub updates : Plain point.1.firmware_status
  pub config : All (λ k. Plain k.key × PlainValue k.value) point.1.config_keys
  pub connectors : All (λ e. Plain e.1.status) point.1.connectors
  pub tags : All (λ e. Plain e.1.id_tag) point.1.transactions

pub each_text-flat {ℓ κ} :
    {A : Type ℓ} {B : Type κ} (P : A → Type 0) (forms : B → List Bytes) (text : A → Outcome Bytes)
    (entry : A → Outcome B)
    → ((x : A) → P x → Alike (λ t e. Reads t (forms e)) (text x) (entry x))
    → (xs : List A) → All P xs
    → Alike (λ t es. Reads t (flat forms es)) (each_text text xs) (each_entry entry xs)
unfolding each_text each_entry
each_text-flat P forms text entry one [] all = closed [] (λ rest. refl)
each_text-flat P forms text entry one (x ∷ xs) (px, all) =
    >>=-Alike (λ t e. Reads t (forms e)) (λ t es. Reads t (flat forms es)) (text x) (entry x) _ _
      (one x px)
      (λ t e first.
        >>=-Alike (λ t' es. Reads t' (flat forms es)) (λ t' es. Reads t' (flat forms es))
          (each_text text xs) (each_entry entry xs) _ _
          (each_text-flat P forms text entry one xs all) (λ t' es rest. beside first rest))

insert_by_start-All :
    (P : ℤ × TransactionInfo → Type 0) (x : ℤ × TransactionInfo) (ys : List (ℤ × TransactionInfo))
    → P x
    → All P ys
    → Allows (All P) (insert_by_start x ys)
unfolding insert_by_start
insert_by_start-All P x [] px all = (px, tt)
insert_by_start-All P x (y ∷ ys) px (py, all) =
    >>=-Allows_any (All P) (starts_before x.1 y.1) _ (λ before. elim (Bool-cases before) [
      | inl earlier ↦ rw earlier (px, (py, all))
      | inr later ↦ rw later (
          >>=-Allows (All P) (All P) (insert_by_start x ys) _ (insert_by_start-All P x ys px all)
            (λ zs h. (py, h)))
    ])

pub ordered_transactions-All :
    (P : ℤ × TransactionInfo → Type 0) (xs : List (ℤ × TransactionInfo))
    → All P xs
    → Allows (All P) (ordered_transactions xs)
unfolding ordered_transactions
ordered_transactions-All P [] all = tt
ordered_transactions-All P (x ∷ xs) (px, all) =
    >>=-Allows (All P) (All P) (ordered_transactions xs) _ (ordered_transactions-All P xs all)
      (λ sorted h. insert_by_start-All P x sorted px h)
