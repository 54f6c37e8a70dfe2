-- ===== src/Ocpp/PageSpec.antt =====
-- The forms that the index page of ocpp/http.go is to have, by the state alone.
use mathlib.Core.List.{Perm}
use smarthouse.Prelude.{
  ℤ, pos, int_eq, ltb_ℤ, Option, none, some, List, [], ◌∷◌, ◌++◌, Bytes, codes, Bool, true, ◌≡◌,
  ◌⊎◌, inl, inr, refl, arith, Bool-cases, if◌then◌else◌, ◌==◌, ==_iff, int_Eq, subst, sym,
}
use smarthouse.GoMap.{Map, lookup}
use smarthouse.GoTime.{Time}
use smarthouse.GoConv.{itoa}
use smarthouse.Ocpp.Types.{ConnectorInfo, TransactionInfo, ChargePointState}

abbrev pub when : Bool → Bytes → List Bytes
when test action = if test then action ∷ [] else []

-- A connector is free that runs no transaction, by a number that is not negative.
abbrev pub start_forms : Bytes → Map ℤ ConnectorInfo → List Bytes
start_forms id [] = []
start_forms id ((c, ci) ∷ connectors) =
    when (ltb_ℤ ci.current_transaction (pos 0)) (codes "/start/" ++ (id ++ (codes "/" ++ itoa c)))
    ++ start_forms id connectors

-- A transaction has not ended that has no end, or the zero time for one.
abbrev pub is_open : Option Time → Bool
is_open none = true
is_open (some t) = int_eq t (pos 0)

abbrev pub stop_forms : Bytes → Map ℤ TransactionInfo → List Bytes
stop_forms id [] = []
stop_forms id ((t, ti) ∷ transactions) =
    when (is_open ti.end_time) (codes "/stop/" ++ (id ++ (codes "/" ++ itoa ti.id)))
    ++ stop_forms id transactions

-- The forms of a charge point, with its transactions in some order.
abbrev pub forms_of : Bytes → Map ℤ ConnectorInfo → Map ℤ TransactionInfo → List Bytes
forms_of id connectors transactions =
    (codes "/reset/" ++ id) ∷ start_forms id connectors ++ stop_forms id transactions

-- The forms of the whole page, one charge point after the other.
abbrev pub PageForms : Map Bytes ChargePointState → List Bytes → Type 0
PageForms [] forms = forms ≡ []
PageForms ((id, cp) ∷ points) forms =
    (sorted : Map ℤ TransactionInfo) × (rest : List Bytes) × Perm sorted cp.transactions
    × (forms ≡ forms_of id cp.connectors sorted ++ rest)
    × PageForms points rest

-- It is one of these.
abbrev pub On : {A : Type 0} → A → List A → Type 0
On a [] = ⊥
On a (x ∷ xs) = (x ≡ a) ⊎ On a xs

On-left : {A : Type 0} (a : A) (xs ys : List A) → On a xs → On a (xs ++ ys)
On-left a [] ys h = absurd h
On-left a (x ∷ xs) ys (inl same) = inl same
On-left a (x ∷ xs) ys (inr h) = inr (On-left a xs ys h)

On-right : {A : Type 0} (a : A) (xs ys : List A) → On a ys → On a (xs ++ ys)
On-right a [] ys h = h
On-right a (x ∷ xs) ys h = inr (On-right a xs ys h)

when-On : (test : Bool) (action : Bytes) → test ≡ true → On action (when test action)
when-On test action e = rw e (inl refl)

lookup-On : {V : Type 0} (z : ℤ) (v : V) (m : Map ℤ V) → lookup z m ≡ some v → On (z, v) m
unfolding lookup
lookup-On z v [] e = absurd (ground arith)
lookup-On z v ((c, u) ∷ m) e = elim (Bool-cases (c == z)) [
  | inl same ↦
      let value : u ≡ v = ground arith in
      let key = (==_iff c z).0 same in inl (λ i. (key i, value i))
  | inr differ ↦ inr (lookup-On z v m (ground arith))
]

start_forms-On :
    (id : Bytes) (entry : ℤ × ConnectorInfo) (connectors : Map ℤ ConnectorInfo)
    → On entry connectors
    → ltb_ℤ entry.1.current_transaction (pos 0) ≡ true
    → On (codes "/start/" ++ (id ++ (codes "/" ++ itoa entry.0))) (start_forms id connectors)
start_forms-On id entry [] h free = absurd h
start_forms-On id entry ((c, ci) ∷ connectors) (inr h) free =
    On-right _ (when (ltb_ℤ ci.current_transaction (pos 0)) _) _
      (start_forms-On id entry connectors h free)
start_forms-On id entry ((c, ci) ∷ connectors) (inl same) free =
    subst
      (λ e.
        On (codes "/start/" ++ (id ++ (codes "/" ++ itoa e.0)))
          (start_forms id ((c, ci) ∷ connectors)))
      same
      (On-left _ (when (ltb_ℤ ci.current_transaction (pos 0)) _) _
        (when-On _ _ (subst (λ e. ltb_ℤ e.1.current_transaction (pos 0) ≡ true) (sym same) free)))

stop_forms-On :
    (id : Bytes) (entry : ℤ × TransactionInfo) (transactions : Map ℤ TransactionInfo)
    → On entry transactions
    → is_open entry.1.end_time ≡ true
    → On (codes "/stop/" ++ (id ++ (codes "/" ++ itoa entry.1.id))) (stop_forms id transactions)
stop_forms-On id entry [] h runs = absurd h
stop_forms-On id entry ((t, ti) ∷ transactions) (inr h) runs =
    On-right _ (when (is_open ti.end_time) _) _ (stop_forms-On id entry transactions h runs)
stop_forms-On id entry ((t, ti) ∷ transactions) (inl same) runs =
    subst
      (λ e.
        On (codes "/stop/" ++ (id ++ (codes "/" ++ itoa e.1.id)))
          (stop_forms id ((t, ti) ∷ transactions)))
      same
      (On-left _ (when (is_open ti.end_time) _) _
        (when-On _ _ (subst (λ e. is_open e.1.end_time ≡ true) (sym same) runs)))

module _ (id : Bytes) (connectors : Map ℤ ConnectorInfo)
    (transactions : Map ℤ TransactionInfo) where
  pub start-On :
      (z : ℤ) (ci : ConnectorInfo)
      → lookup z connectors ≡ some ci
      → ltb_ℤ ci.current_transaction (pos 0) ≡ true
      → On (codes "/start/" ++ (id ++ (codes "/" ++ itoa z))) (forms_of id connectors transactions)
  start-On z ci there free = inr (
      On-left _ (start_forms id connectors) _
        (start_forms-On id (z, ci) connectors (lookup-On z ci connectors there) free))

  pub stop-On :
      (z : ℤ) (ti : TransactionInfo)
      → lookup z transactions ≡ some ti
      → is_open ti.end_time ≡ true
      → On
          (codes "/stop/" ++ (id ++ (codes "/" ++ itoa ti.id)))
          (forms_of id connectors transactions)
  stop-On z ti there runs = inr (
      On-right _ (start_forms id connectors) _
        (stop_forms-On id (z, ti) transactions (lookup-On z ti transactions there) runs))
