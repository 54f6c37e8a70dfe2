-- ===== src/Ocpp/PageActions.antt =====
-- ocpp/http.go: the forms that the text of the index page has are those that the state asks for.
use mathlib.Core.List.{Perm}
use mathlib.Core.List.Perm
use smarthouse.Prelude.{
  ℤ, pos, ltb_ℤ, List, [], ◌∷◌, ◌++◌, Bytes, codes, Bool, true, false, Bool-cases, inl, inr, ◌≡◌,
  refl, arith, ap, ◌∙◌, sym, subst, All, not, int_eq, Option, none, some, Allows-Allows, int_Eq,
  bytes_Eq, Outcome, Alike, Alike-Allows, Allows, >>=-Allows, >>=-Allows_any, if◌then◌else◌,
}
use smarthouse.GoMap.{Map}
use smarthouse.GoTime.{Time, is_zero}
use smarthouse.GoConv.{itoa}
use smarthouse.Ocpp.Types.{
  ConnectorInfo, TransactionInfo, has_transaction_in_progress, has_transaction_ended, is_end,
  ChargePointState, CentralSystemHandler,
}
use smarthouse.Ocpp.Http.{reset_action, stop_action}
use smarthouse.Ocpp.HttpLinks.{start_action-parts, stop_action-parts}
use smarthouse.Ocpp.Index.{
  providing, config_entry, each_entry, starts_before, insert_by_start, ordered_transactions,
  connector_entry, transaction_entry, point_entry, index,
}
use smarthouse.Ocpp.PageText.{PageFormats, index_text}
use smarthouse.Ocpp.Markup.{actions}
use smarthouse.Ocpp.PageForms.{
  flat, connector_forms, some_form, transaction_forms, point_forms, PlainPoint,
}
use smarthouse.Ocpp.PageRead.{AreQuiet}
use smarthouse.Ocpp.PageShows.{index_text-index}
use smarthouse.Ocpp.PageSpec.{when, start_forms, is_open, stop_forms, forms_of, PageForms}

each_entry-flat {ℓ κ} :
    {A : Type ℓ} {B : Type κ} (entry : A → Outcome B) (forms : B → List Bytes)
    (asked : A → List Bytes)
    → ((x : A) → Allows (λ e. forms e ≡ asked x) (entry x))
    → (xs : List A) → Allows (λ es. flat forms es ≡ flat asked xs) (each_entry entry xs)
unfolding each_entry
each_entry-flat entry forms asked one [] = refl
each_entry-flat entry forms asked one (x ∷ xs) =
    >>=-Allows (λ e. forms e ≡ asked x) _ (entry x) _ (one x)
      (λ e first.
        >>=-Allows (λ es. flat forms es ≡ flat asked xs) _ (each_entry entry xs) _
          (each_entry-flat entry forms asked one xs) (λ es rest. λ i. first i ++ rest i))

abbrev start_asked : Bytes → ℤ × ConnectorInfo → List Bytes
start_asked id (c, ci) =
    when (ltb_ℤ ci.current_transaction (pos 0)) (codes "/start/" ++ (id ++ (codes "/" ++ itoa c)))

abbrev stop_asked : Bytes → ℤ × TransactionInfo → List Bytes
stop_asked id (t, ti) =
    when (is_open ti.end_time) (codes "/stop/" ++ (id ++ (codes "/" ++ itoa ti.id)))

flat-start_forms :
    (id : Bytes) (connectors : Map ℤ ConnectorInfo)
    → flat (start_asked id) connectors ≡ start_forms id connectors
flat-start_forms id [] = refl
flat-start_forms id ((c, ci) ∷ connectors) =
    ap (λ forms. start_asked id (c, ci) ++ forms) (flat-start_forms id connectors)

flat-stop_forms :
    (id : Bytes) (transactions : Map ℤ TransactionInfo)
    → flat (stop_asked id) transactions ≡ stop_forms id transactions
flat-stop_forms id [] = refl
flat-stop_forms id ((t, ti) ∷ transactions) =
    ap (λ forms. stop_asked id (t, ti) ++ forms) (flat-stop_forms id transactions)

in_progress-negative :
    (ci : ConnectorInfo) (b : Bool)
    → has_transaction_in_progress ci ≡ b
    → ltb_ℤ ci.current_transaction (pos 0) ≡ not b
unfolding has_transaction_in_progress
in_progress-negative ci true e = ground arith
in_progress-negative ci false e = ground arith

ended-asked :
    (end : Option Time) (action : Bytes)
    → some_form (if is_end end then none else some action) ≡ when (is_open end) action
unfolding is_zero
ended-asked none action = refl
ended-asked (some t) action = elim (Bool-cases (int_eq t (pos 0))) [
  | inl zero ↦ rw zero
  | inr later ↦ rw later
]

module _ (now : Time) (id : Bytes) where
  connector_entry-asked :
      (x : ℤ × ConnectorInfo)
      → Allows (λ e. connector_forms e ≡ start_asked id x) (connector_entry now id x)
  unfolding connector_entry
  connector_entry-asked (c, ci) = elim (Bool-cases (has_transaction_in_progress ci)) [
    | inl busy ↦
        rw (busy, in_progress-negative ci true busy)
          (>>=-Allows_any _ (providing now ci.last_measurement ci.measurement_time) _ (λ m. refl))
    | inr free ↦
        rw (free, in_progress-negative ci false free)
          (ap (λ action. action ∷ []) (start_action-parts id c))
  ]

  transaction_entry-asked :
      (x : ℤ × TransactionInfo)
      → Allows (λ e. transaction_forms e ≡ stop_asked id x) (transaction_entry now id x)
  unfolding transaction_entry has_transaction_ended
  transaction_entry-asked (t, ti) =
      >>=-Allows_any _ (providing now ti.last_measurement ti.measurement_time) _ (λ m.
        ended-asked ti.end_time (stop_action id ti.id)
        ∙ ap (when (is_open ti.end_time)) (stop_action-parts id ti.id))

insert_by_start-Perm :
    (x : ℤ × TransactionInfo) (ys : List (ℤ × TransactionInfo))
    → Allows (λ zs. Perm zs (x ∷ ys)) (insert_by_start x ys)
unfolding insert_by_start
insert_by_start-Perm x [] = Perm.refl (x ∷ [])
insert_by_start-Perm x (y ∷ ys) =
    >>=-Allows_any (λ zs. Perm zs (x ∷ y ∷ ys)) (starts_before x.1 y.1) _
      (λ before. elim (Bool-cases before) [
        | inl earlier ↦ rw earlier (Perm.refl (x ∷ y ∷ ys))
        | inr later ↦ rw later (
            >>=-Allows (λ zs. Perm zs (x ∷ ys)) _ (insert_by_start x ys) _
              (insert_by_start-Perm x ys) (λ zs p. Perm.trans (Perm.cons y p) (Perm.swap x y ys)))
      ])

ordered_transactions-Perm :
    (xs : List (ℤ × TransactionInfo)) → Allows (λ sorted. Perm sorted xs) (ordered_transactions xs)
unfolding ordered_transactions
ordered_transactions-Perm [] = Perm.refl []
ordered_transactions-Perm (x ∷ xs) =
    >>=-Allows (λ sorted. Perm sorted xs) (λ zs. Perm zs (x ∷ xs)) (ordered_transactions xs) _
      (ordered_transactions-Perm xs)
      (λ sorted p.
        Allows-Allows (λ zs. Perm zs (x ∷ sorted)) (λ zs. Perm zs (x ∷ xs))
          (insert_by_start x sorted) (insert_by_start-Perm x sorted)
          (λ zs q. Perm.trans q (Perm.cons x p)))

-- The forms that are shown of a charge point, with its transactions in some order.
abbrev Asked : Bytes × ChargePointState → List Bytes → Type 0
Asked (id, cp) forms =
    (sorted : Map ℤ TransactionInfo) × Perm sorted cp.transactions
    × (forms ≡ forms_of id cp.connectors sorted)

point_entry-Asked :
    (show_config : Bool) (now : Time) (point : Bytes × ChargePointState)
    → Allows (λ e. Asked point (point_forms e)) (point_entry show_config now point)
unfolding point_entry reset_action
point_entry-Asked show_config now (id, cp) =
    >>=-Allows_any _ (each_entry config_entry (if show_config then cp.config_keys else [])) _
      (λ config.
        >>=-Allows (λ es. flat connector_forms es ≡ flat (start_asked id) cp.connectors) _
          (each_entry (connector_entry now id) cp.connectors) _
          (each_entry-flat (connector_entry now id) connector_forms (start_asked id)
            (connector_entry-asked now id) cp.connectors)
          (λ connectors starts.
            >>=-Allows (λ sorted. Perm sorted cp.transactions) _
              (ordered_transactions cp.transactions) _ (ordered_transactions-Perm cp.transactions)
              (λ sorted p.
                >>=-Allows (λ es. flat transaction_forms es ≡ flat (stop_asked id) sorted) _
                  (each_entry (transaction_entry now id) sorted) _
                  (each_entry-flat (transaction_entry now id) transaction_forms (stop_asked id)
                    (transaction_entry-asked now id) sorted)
                  (λ transactions stops. (
                    sorted,
                    p,
                    λ i.
                        (codes "/reset/" ++ id) ∷ (starts ∙ flat-start_forms id cp.connectors) i
                        ++ (stops ∙ flat-stop_forms id sorted) i,
                  )))))

points-PageForms :
    (show_config : Bool) (now : Time) (points : Map Bytes ChargePointState)
    → Allows
        (λ es. PageForms points (flat point_forms es))
        (each_entry (point_entry show_config now) points)
unfolding each_entry
points-PageForms show_config now [] = refl
points-PageForms show_config now ((id, cp) ∷ points) =
    >>=-Allows (λ e. Asked (id, cp) (point_forms e)) _ (point_entry show_config now (id, cp)) _
      (point_entry-Asked show_config now (id, cp))
      (λ e (sorted, p, own).
        >>=-Allows (λ es. PageForms points (flat point_forms es)) _
          (each_entry (point_entry show_config now) points) _
          (points-PageForms show_config now points)
          (λ es rest.
            (sorted, flat point_forms es, p, ap (λ forms. forms ++ flat point_forms es) own, rest)))

-- Where neither a charge point's name nor what it has told has a `<` or a double quote, and the formats of
-- floats and times bring no form, the text of the index page has exactly the forms that the state asks for,
-- charge point by charge point: its reset; the start of each connector that runs no transaction, in their
-- order; and the stop of each transaction that has no end or the zero time for one, in some order, under
-- the number that it holds. The text panics where the list of what is shown does.
pub actions-index_text :
    (f : PageFormats) (show_config : Bool) (now : Time) (h : CentralSystemHandler)
    → AreQuiet f
    → All PlainPoint h.charge_points
    → Alike
        (λ page entries. PageForms h.charge_points (actions page))
        (index_text f show_config now h)
        (index show_config now h)
actions-index_text f show_config now h quiet plain =
    Alike-Allows (λ page entries. actions page ≡ flat point_forms entries)
      (λ page entries. PageForms h.charge_points (actions page))
      (λ entries. PageForms h.charge_points (flat point_forms entries))
      (index_text f show_config now h) (index show_config now h)
      (index_text-index f quiet show_config now h plain)
      (unfold index in points-PageForms show_config now h.charge_points)
      (λ page entries same forms. subst (PageForms h.charge_points) (sym same) forms)
