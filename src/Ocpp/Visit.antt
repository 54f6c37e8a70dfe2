-- ===== src/Ocpp/Visit.antt =====
-- A charging session from the forms of the index page: ocpp/http.go and ocpp/handler.go together.
use smarthouse.Prelude.{
  ℕ, ℤ, pos, negsuc, ◌≤ℤ◌, ◌<ℤ◌, Option, none, some, [], ◌∷◌, Bytes, codes, true, false, ◌≡◌, refl,
  arith, bytes_Eq, int_Eq, ap, sym, ◌∙◌, subst,
}
use smarthouse.GoMap.{lookup, lookup-insert_self}
use smarthouse.GoTime.{Time}
use smarthouse.GoConv.{IsInt}
use smarthouse.Ocpp.Types.{
  ChargePointState, CentralSystemHandler, ConnectorInfo, has_transaction_in_progress,
  TransactionInfo, is_end, has_transaction_ended, confirmed, start_accepted, stop_transaction,
  StartTransactionRequest, StopTransactionRequest,
}
use smarthouse.Ocpp.Handler.{
  put_charge_point, get_connector, started, on_start_transaction, end_transaction, stop_in,
  on_stop_transaction,
}
use smarthouse.Ocpp.Transactions.{
  current_in, current_of, on_start_transaction_accepted, end_transaction-Stopped,
}
use smarthouse.Ocpp.Sessions.{stop_of}
use smarthouse.Ocpp.Http.{
  Check, responds, sends, remote_start_transaction, remote_stop_transaction, check_connector,
  check_transaction, start_action, stop_action,
}
use smarthouse.Ocpp.HttpLinks.{
  Form, start_form, stop_form, IsShown, action_of, check_start-target, check_stop-target,
  form_sends, to-start, to-stop, name-NoSlash, action_is_rooted,
}
use smarthouse.Ocpp.Routes.{is_name, IsBrowser, submitted, submitted_plain}
use smarthouse.Ocpp.PageSpec.{On, forms_of}

-- The transaction that a connector runs is that of a connector in use.
running :
    (o : Option ConnectorInfo) (n : ℤ)
    → current_in o ≡ n
    → pos 0 ≤ℤ n
    → (ci : ConnectorInfo) × (o ≡ some ci) × (has_transaction_in_progress ci ≡ true)
running none n e up = absurd (ground arith)
running (some ci) n e up = (ci, refl, unfold has_transaction_in_progress in ground arith)

idle_current :
    (info : ChargePointState) (z : ℤ) (ci : ConnectorInfo)
    → lookup z info.connectors ≡ some ci
    → has_transaction_in_progress ci ≡ false
    → current_of info z <ℤ pos 0
unfolding has_transaction_in_progress
idle_current info z ci there free = rw there (ground arith)

-- The connector of a transaction that ends is there, and free.
end_transaction-free :
    (info : ChargePointState) (ti : TransactionInfo) (request : StopTransactionRequest)
    → (ci : ConnectorInfo) × (lookup ti.connector_id (end_transaction info ti request).connectors
        ≡ some ci)
      × (has_transaction_in_progress ci ≡ false)
unfolding end_transaction has_transaction_in_progress
end_transaction-free info ti request =
    let (connector, info') = get_connector info ti.connector_id in
    (
      record connector { current_transaction = negsuc 0 },
      lookup-insert_self ti.connector_id (record connector { current_transaction = negsuc 0 })
          info'.connectors,
      refl,
    )

on_stop-end_transaction :
    (h : CentralSystemHandler) (cid : Bytes) (info : ChargePointState) (ti : TransactionInfo)
    (request : StopTransactionRequest)
    → lookup cid h.charge_points ≡ some info
    → lookup request.transaction_id info.transactions ≡ some ti
    → on_stop_transaction h cid request
      ≡ (confirmed stop_transaction, put_charge_point h cid (end_transaction info ti request))
unfolding on_stop_transaction stop_in
on_stop-end_transaction h cid info ti request e t =
    rw (e, on_stop_transaction) (rw (t, stop_in) refl)

-- A browser, as the path that its request for a form's action has.
module _ (requested : Bytes → Bytes) where
  -- What is done when the form is sent.
  abbrev pub pressed : CentralSystemHandler → Bytes → Form → Option Check
  pressed h cid form = submitted requested h (action_of cid form)

  -- The page is to have the form.
  abbrev pub IsOn : ChargePointState → Bytes → Form → Type 0
  IsOn info cid form = On (action_of cid form) (forms_of cid info.connectors info.transactions)

  -- The page is to have the form that stops transaction `n`, which sends the stop, and the form that
  -- starts its connector is refused.
  abbrev pub IsCharging : CentralSystemHandler → Bytes → ℤ → ℤ → Type 0
  IsCharging h cid z n =
      (info : ChargePointState) × (lookup cid h.charge_points ≡ some info)
      × IsOn info cid (stop_form n)
      × (pressed h cid (stop_form n) ≡ some (sends (remote_stop_transaction cid n)))
      × (pressed h cid (start_form z)
          ≡ some (responds (record { code = 400; body = codes "Connector in use!" ∷ [] })))

  -- The page is to have the form that starts the connector, which sends the start, and the form that stops
  -- the transaction is refused.
  abbrev pub IsIdle : CentralSystemHandler → Bytes → ℤ → ℤ → Type 0
  IsIdle h cid z n =
      (info : ChargePointState) × (lookup cid h.charge_points ≡ some info)
      × IsOn info cid (start_form z)
      × (pressed h cid (start_form z) ≡ some (sends (remote_start_transaction cid (codes "1") z)))
      × (pressed h cid (stop_form n)
          ≡ some (responds (record { code = 400; body = codes "Transaction already ended" ∷ [] })))

  module _ (browser : IsBrowser requested) (c : ℕ) (s : Bytes) (name : is_name (c ∷ s) ≡ true) where
    started-IsCharging :
        (h : CentralSystemHandler) (info : ChargePointState) (z n : ℤ)
        (request : StartTransactionRequest)
        → lookup (c ∷ s) h.charge_points ≡ some info
        → IsInt z
        → IsInt n
        → pos 0 ≤ℤ n
        → current_of info z ≡ n
        → lookup n info.transactions ≡ some (started request n)
        → IsCharging h (c ∷ s) z n
    started-IsCharging h info z n request known fits_z fits_n up current found =
        let (ci, there, busy) = running (lookup z info.connectors) n current up in
        let shown : IsShown info (stop_form n) =
          (fits_n, started request n, found, refl, unfold has_transaction_ended in refl) in
        let (on, sent) = form_sends requested h c s info (stop_form n) browser name known shown in
        (
          info,
          known,
          on,
          sent,
          submitted_plain requested h (start_action (c ∷ s) z) browser
                (action_is_rooted c s (start_form z) name)
              ∙ to-start h (c ∷ s) z
              ∙ ap some (
                  check_start-target h c s info z (name-NoSlash c s name) fits_z known
                  ∙ (rw there (unfold check_connector in rw busy))),
        )

    ended-IsIdle :
        (h : CentralSystemHandler) (info : ChargePointState) (z n : ℤ) (ci : ConnectorInfo)
        (ti : TransactionInfo)
        → lookup (c ∷ s) h.charge_points ≡ some info
        → IsInt z
        → IsInt n
        → lookup z info.connectors ≡ some ci
        → has_transaction_in_progress ci ≡ false
        → lookup n info.transactions ≡ some ti
        → has_transaction_ended ti ≡ true
        → IsIdle h (c ∷ s) z n
    ended-IsIdle h info z n ci ti known fits_z fits_n there free found ended =
        let shown : IsShown info (start_form z) = (fits_z, ci, there, free) in
        let (on, sent) = form_sends requested h c s info (start_form z) browser name known shown in
        (
          info,
          known,
          on,
          sent,
          submitted_plain requested h (stop_action (c ∷ s) n) browser
                (action_is_rooted c s (stop_form n) name)
              ∙ to-stop h (c ∷ s) n
              ∙ ap some (
                  check_stop-target h c s info n (name-NoSlash c s name) fits_n known
                  ∙ (rw found (unfold check_transaction in rw ended))),
        )

-- A browser asks, as it stands, for an action that is a path from the root of elements of unreserved
-- URL characters, none of them empty or with a dot in front. A charge point is connected, and its name
-- has such characters only, at least one, and no dot in front. A connector of it is there and free,
-- under an int, and the next number is an int and not negative. Then the form that starts the
-- connector sends the start, which the central system accepts when the charge point makes it. The page
-- is then to have the form that stops this transaction, which sends the stop, and the first form is
-- refused. When the charge point makes the stop, which has a time, the central system confirms it; the
-- page is then to have the first form again, which sends the start, and the second one is refused.
-- Each form goes through the table of paths.
pub form_session :
    (requested : Bytes → Bytes) (h : CentralSystemHandler) (c : ℕ) (s : Bytes)
    (info : ChargePointState) (start : StartTransactionRequest) (meter : ℤ) (at : Option Time)
    → IsBrowser requested
    → is_name (c ∷ s) ≡ true
    → lookup (c ∷ s) h.charge_points ≡ some info
    → IsShown info (start_form start.connector_id)
    → pos 0 ≤ℤ h.next_transaction_id
    → IsInt h.next_transaction_id
    → is_end at ≡ true
    → let cid = c ∷ s in
      let z = start.connector_id in
      let n = h.next_transaction_id in
      let (accepted, h1) = on_start_transaction h cid start in
      let (stopped, h2) = on_stop_transaction h1 cid (stop_of n meter at) in
      (pressed requested h cid (start_form z)
        ≡ some (sends (remote_start_transaction cid (codes "1") z)))
      × (accepted ≡ confirmed (start_accepted n))
      × IsCharging requested h1 cid z n
      × (stopped ≡ confirmed stop_transaction)
      × IsIdle requested h2 cid z n
form_session requested h c s info start meter at browser name known shown up fits ends =
    let cid = c ∷ s in
    let n = h.next_transaction_id in
    let (fits_z, ci, there, free) = shown in
    let (accepted, _, info1, known1, changed, _) =
      on_start_transaction_accepted h cid info start known
        (idle_current info start.connector_id ci there free) in
    let h1 = (on_start_transaction h cid start).1 in
    let e =
      on_stop-end_transaction h1 cid info1 (started start n) (stop_of n meter at) known1
        changed.0 in
    let ti = started start n in
    let info2 = end_transaction info1 ti (stop_of n meter at) in
    let (ci2, there2, free2) = end_transaction-free info1 (started start n) (stop_of n meter at) in
    (
      (form_sends requested h c s info (start_form start.connector_id) browser name known shown).1,
      accepted,
      started-IsCharging requested browser c s name h1 info1 start.connector_id n start known1
          fits_z fits up changed.1 changed.0,
      ap (λ r. r.0) e,
      subst (λ k. IsIdle requested k cid start.connector_id n) (sym (ap (λ r. r.1) e))
          (ended-IsIdle requested browser c s name (put_charge_point h1 cid info2) info2
            start.connector_id n ci2 (record ti { end_time = at; end_meter = meter })
            (lookup-insert_self cid info2 h1.charge_points) fits_z fits there2 free2
            (end_transaction-Stopped info1 ti (stop_of n meter at)).0
            (unfold has_transaction_ended in ends)),
    )
