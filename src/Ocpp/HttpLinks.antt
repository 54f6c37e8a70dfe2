-- ===== src/Ocpp/HttpLinks.antt =====
-- The forms of the index page of ocpp/http.go and the handlers that they post to.
use mathlib.Core.List.{append_assoc}
use smarthouse.Ocpp.PageSpec.{On, forms_of, start-On, stop-On, is_open}
use smarthouse.Ocpp.Routes.{
  is_name, is_rooted, named-is_path, rooted-is_path, is_name-NoSlash, routed, submitted,
  submitted_plain, IsBrowser, route,
}
use smarthouse.Prelude.{
  inl, true, sym, subst, ltb_ℤ, pos, arith, refl, ℕ, ℤ, some, ◌∷◌, ◌++◌, Bytes, codes, false, ◌≡◌,
  int_Eq, bytes_Eq, ap, ◌∙◌,
}
use smarthouse.GoMap.{lookup}
use smarthouse.GoTime.{is_zero}
use smarthouse.GoPath.{slash, base, NoSlash, split_path-append, base-append, base-element}
use smarthouse.GoConv.{itoa, IsInt, atoi-itoa, itoa-element}
use smarthouse.Ocpp.Types.{
  ConnectorInfo, has_transaction_in_progress, TransactionInfo, has_transaction_ended,
  ChargePointState, CentralSystemHandler,
}
use smarthouse.Ocpp.Http.{
  Command, sends, reset, reset_at, reset_action, check_reset, remote_start_transaction,
  remote_stop_transaction, post, target, check_start, check_stop, start_action, stop_action,
  start_at, stop_at, start_number, stop_number, check_connector, check_transaction,
}

-- A path made of a first element, a charge point's name and a number is read back.
target-action :
    (b : ℕ) (d : Bytes) (c : ℕ) (s : Bytes) (z : ℤ)
    → NoSlash (c ∷ s)
    → target (b ∷ d ++ slash ∷ c ∷ s ++ slash ∷ itoa z) ≡ (c ∷ s, itoa z)
unfolding target
target-action b d c s z n =
    let (_, _, _, clean) = itoa-element z in
    ap (λ (p : Bytes × Bytes). (base p.0, p.1))
      (split_path-append (b ∷ d ++ slash ∷ c ∷ s) (itoa z) clean)
    ∙ ap (λ k. (k, itoa z)) (base-append b d c s n)

-- The form that starts a connector reaches it, whether it is free or not.
pub check_start-target :
    (h : CentralSystemHandler) (c : ℕ) (s : Bytes) (info : ChargePointState) (z : ℤ)
    → NoSlash (c ∷ s)
    → IsInt z
    → lookup (c ∷ s) h.charge_points ≡ some info
    → check_start h (record { method = post; path = start_action (c ∷ s) z })
      ≡ check_connector (c ∷ s) z (lookup z info.connectors)
unfolding check_start start_action
check_start-target h c s info z n fits known =
    rw (target-action b'/' (codes "start") c s z n, known)
      (unfold start_at start_number in rw (atoi-itoa z fits))

check_start-action :
    (h : CentralSystemHandler) (c : ℕ) (s : Bytes) (info : ChargePointState) (z : ℤ)
    (ci : ConnectorInfo)
    → NoSlash (c ∷ s)
    → IsInt z
    → lookup (c ∷ s) h.charge_points ≡ some info
    → lookup z info.connectors ≡ some ci
    → has_transaction_in_progress ci ≡ false
    → check_start h (record { method = post; path = start_action (c ∷ s) z })
      ≡ sends (remote_start_transaction (c ∷ s) (codes "1") z)
check_start-action h c s info z ci n fits known at free =
    check_start-target h c s info z n fits known ∙ (rw at (unfold check_connector in rw free))

-- The form that stops a transaction reaches it, whether it has ended or not.
pub check_stop-target :
    (h : CentralSystemHandler) (c : ℕ) (s : Bytes) (info : ChargePointState) (z : ℤ)
    → NoSlash (c ∷ s)
    → IsInt z
    → lookup (c ∷ s) h.charge_points ≡ some info
    → check_stop h (record { method = post; path = stop_action (c ∷ s) z })
      ≡ check_transaction (c ∷ s) z (lookup z info.transactions)
unfolding check_stop stop_action
check_stop-target h c s info z n fits known =
    rw (target-action b'/' (codes "stop") c s z n, known)
      (unfold stop_at stop_number in rw (atoi-itoa z fits))

check_stop-action :
    (h : CentralSystemHandler) (c : ℕ) (s : Bytes) (info : ChargePointState) (z : ℤ)
    (ti : TransactionInfo)
    → NoSlash (c ∷ s)
    → IsInt z
    → lookup (c ∷ s) h.charge_points ≡ some info
    → lookup z info.transactions ≡ some ti
    → has_transaction_ended ti ≡ false
    → check_stop h (record { method = post; path = stop_action (c ∷ s) z })
      ≡ sends (remote_stop_transaction (c ∷ s) z)
check_stop-action h c s info z ti n fits known at runs =
    check_stop-target h c s info z n fits known ∙ (rw at (unfold check_transaction in rw runs))

check_reset-action :
    (h : CentralSystemHandler) (c : ℕ) (s : Bytes) (info : ChargePointState)
    → NoSlash (c ∷ s)
    → lookup (c ∷ s) h.charge_points ≡ some info
    → check_reset h (record { method = post; path = reset_action (c ∷ s) }) ≡ sends (reset (c ∷ s))
unfolding check_reset reset_action
check_reset-action h c s info n known =
    ap (λ b. reset_at b (lookup b h.charge_points)) (base-element b'/' (codes "reset") c s n)
    ∙ (rw known (unfold reset_at in refl))

-- The forms of the index page for a charge point.
pub data Form : Type 0 where
  reset_form : Form
  start_form : ℤ → Form
  stop_form : ℤ → Form

-- There is such a connector, and it is free, or such a transaction, under its own number, and it has not
-- ended. The number is an int.
abbrev pub IsShown : ChargePointState → Form → Type 0
IsShown info reset_form = Unit
IsShown info (start_form z) =
    IsInt z
    × (ci : ConnectorInfo) × (lookup z info.connectors ≡ some ci)
    × (has_transaction_in_progress ci ≡ false)
IsShown info (stop_form z) =
    IsInt z
    × (ti : TransactionInfo) × (lookup z info.transactions ≡ some ti)
    × (ti.id ≡ z)
    × (has_transaction_ended ti ≡ false)

-- Where the form posts to, and the command that it stands for.
abbrev pub action_of : Bytes → Form → Bytes
action_of cid reset_form = reset_action cid
action_of cid (start_form z) = start_action cid z
action_of cid (stop_form z) = stop_action cid z

abbrev pub command_of : Bytes → Form → Command
command_of cid reset_form = reset cid
command_of cid (start_form z) = remote_start_transaction cid (codes "1") z
command_of cid (stop_form z) = remote_stop_transaction cid z

pub start_action-parts :
    (id : Bytes) (z : ℤ) → start_action id z ≡ codes "/start/" ++ (id ++ (codes "/" ++ itoa z))
unfolding start_action
start_action-parts id z = append_assoc (codes "/start/") id (slash ∷ itoa z)

pub stop_action-parts :
    (id : Bytes) (z : ℤ) → stop_action id z ≡ codes "/stop/" ++ (id ++ (codes "/" ++ itoa z))
unfolding stop_action
stop_action-parts id z = append_assoc (codes "/stop/") id (slash ∷ itoa z)

still_open : (ti : TransactionInfo) → has_transaction_ended ti ≡ false → is_open ti.end_time ≡ true
unfolding has_transaction_ended is_zero
still_open ti runs = ground arith

free_negative :
    (ci : ConnectorInfo)
    → has_transaction_in_progress ci ≡ false
    → ltb_ℤ ci.current_transaction (pos 0) ≡ true
unfolding has_transaction_in_progress
free_negative ci free = ground arith

-- The page has a form that is shown: it is one of those that the state asks for.
IsShown-On :
    (id : Bytes) (info : ChargePointState) (form : Form)
    → IsShown info form
    → On (action_of id form) (forms_of id info.connectors info.transactions)
IsShown-On id info reset_form shown = inl (unfold reset_action in refl)
IsShown-On id info (start_form z) (_, ci, there, free) =
    subst (λ a. On a (forms_of id info.connectors info.transactions))
      (sym (start_action-parts id z))
      (start-On id info.connectors info.transactions z ci there (free_negative ci free))
IsShown-On id info (stop_form z) (_, ti, there, own, runs) =
    subst (λ a. On a (forms_of id info.connectors info.transactions))
      (ap (λ n. codes "/stop/" ++ (id ++ (codes "/" ++ itoa n))) own ∙ sym (stop_action-parts id z))
      (stop-On id info.connectors info.transactions z ti there (still_open ti runs))

-- The paths of the table reach their functions.
to-reset :
    (h : CentralSystemHandler) (id : Bytes)
    → routed h (record { method = post; path = reset_action id })
      ≡ some (check_reset h (record { method = post; path = reset_action id }))
unfolding routed route reset_action
to-reset h id = refl

pub to-start :
    (h : CentralSystemHandler) (id : Bytes) (z : ℤ)
    → routed h (record { method = post; path = start_action id z })
      ≡ some (check_start h (record { method = post; path = start_action id z }))
unfolding routed route start_action
to-start h id z = refl

pub to-stop :
    (h : CentralSystemHandler) (id : Bytes) (z : ℤ)
    → routed h (record { method = post; path = stop_action id z })
      ≡ some (check_stop h (record { method = post; path = stop_action id z }))
unfolding routed route stop_action
to-stop h id z = refl

pub name-NoSlash : (c : ℕ) (s : Bytes) → is_name (c ∷ s) ≡ true → NoSlash (c ∷ s)
name-NoSlash c s name = is_name-NoSlash (c ∷ s) (ground arith)

-- The action of a form is a path of unreserved elements, from the root on.
pub action_is_rooted :
    (c : ℕ) (s : Bytes) (form : Form)
    → is_name (c ∷ s) ≡ true
    → is_rooted (action_of (c ∷ s) form) ≡ true
unfolding reset_action start_action stop_action
action_is_rooted c s reset_form name = rooted-is_path c s name
action_is_rooted c s (start_form z) name = named-is_path c s z name
action_is_rooted c s (stop_form z) name = named-is_path c s z name

-- The table gives such a path to the function that stands for the form.
routed-command :
    (h : CentralSystemHandler) (c : ℕ) (s : Bytes) (info : ChargePointState) (form : Form)
    → NoSlash (c ∷ s)
    → lookup (c ∷ s) h.charge_points ≡ some info
    → IsShown info form
    → routed h (record { method = post; path = action_of (c ∷ s) form })
      ≡ some (sends (command_of (c ∷ s) form))
routed-command h c s info reset_form n known shown =
    to-reset h (c ∷ s) ∙ ap some (check_reset-action h c s info n known)
routed-command h c s info (start_form z) n known (fits, ci, at, free) =
    to-start h (c ∷ s) z ∙ ap some (check_start-action h c s info z ci n fits known at free)
routed-command h c s info (stop_form z) n known (fits, ti, at, own, runs) =
    to-stop h (c ∷ s) z ∙ ap some (check_stop-action h c s info z ti n fits known at runs)

-- A browser asks, as it stands, for an action that is a path from the root of elements of unreserved
-- URL characters, none of them empty or with a dot in front. The charge point is connected, and its
-- name has such characters only, at least one, and no dot in front. A form is its reset, the start of
-- a connector that is free, or the stop of a transaction that has not ended, under its own number,
-- each number an int. Then the form is one of those that the page is to have, and the table of paths
-- gives its request to a function that sends exactly its command.
pub form_sends :
    (requested : Bytes → Bytes) (h : CentralSystemHandler) (c : ℕ) (s : Bytes)
    (info : ChargePointState) (form : Form)
    → IsBrowser requested
    → is_name (c ∷ s) ≡ true
    → lookup (c ∷ s) h.charge_points ≡ some info
    → IsShown info form
    → On (action_of (c ∷ s) form) (forms_of (c ∷ s) info.connectors info.transactions)
      × (submitted requested h (action_of (c ∷ s) form) ≡ some (sends (command_of (c ∷ s) form)))
form_sends requested h c s info form browser name known shown = (
  IsShown-On (c ∷ s) info form shown,
  submitted_plain requested h (action_of (c ∷ s) form) browser (action_is_rooted c s form name)
      ∙ routed-command h c s info form (name-NoSlash c s name) known shown,
)
