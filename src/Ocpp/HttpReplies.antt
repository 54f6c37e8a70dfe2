-- ===== src/Ocpp/HttpReplies.antt =====
-- The statuses that the handlers of ocpp/http.go answer with.
use smarthouse.Prelude.{
  ℤ, Option, none, some, Bytes, true, false, ◌≡◌, ◌↔◌, refl, arith, int_Eq, bytes_Eq, ◌==◌,
  Bool-cases, inl, inr, ◌⊎◌,
}
use smarthouse.GoMap.{lookup}
use smarthouse.GoConv.{atoi}
use smarthouse.Ocpp.Types.{
  ConnectorInfo, has_transaction_in_progress, TransactionInfo, has_transaction_ended,
  ChargePointState, CentralSystemHandler,
}
use smarthouse.Ocpp.Http.{
  HttpRequest, Check, Command, sends, responds, Response, Answer, called_back, responded, crashed,
  blocked, no_answer, post, check_start, check_stop, check_reset, serve, reset_at, start_at,
  stop_at, start_number, stop_number, check_connector, check_transaction,
}

-- The checks answer with 400 or 404.
abbrev IsRefusal : Check → Type 0
IsRefusal (responds response) = (response.code ≡ 400) ⊎ (response.code ≡ 404)
IsRefusal (sends command) = Unit {0}

start_at-IsRefusal :
    (cid last : Bytes) (o : Option ChargePointState) → IsRefusal (start_at cid last o)
unfolding start_at start_number check_connector
start_at-IsRefusal cid last none = inr refl
start_at-IsRefusal cid last (some info) = number (atoi last)
  where
    found : (c : ℤ) (o : Option ConnectorInfo) → IsRefusal (check_connector cid c o)
    found c none = inr refl
    found c (some ci) = elim (Bool-cases (has_transaction_in_progress ci)) [
      | inl busy ↦ rw busy (inl refl)
      | inr free ↦ rw free tt
    ]

    number : (o : Option ℤ) → IsRefusal (start_number cid info o)
    number none = inl refl
    number (some c) = found c (lookup c info.connectors)

stop_at-IsRefusal :
    (cid last : Bytes) (o : Option ChargePointState) → IsRefusal (stop_at cid last o)
unfolding stop_at stop_number check_transaction
stop_at-IsRefusal cid last none = inr refl
stop_at-IsRefusal cid last (some info) = number (atoi last)
  where
    found : (t : ℤ) (o : Option TransactionInfo) → IsRefusal (check_transaction cid t o)
    found t none = inr refl
    found t (some ti) = elim (Bool-cases (has_transaction_ended ti)) [
      | inl over ↦ rw over (inl refl)
      | inr runs ↦ rw runs tt
    ]

    number : (o : Option ℤ) → IsRefusal (stop_number cid info o)
    number none = inl refl
    number (some t) = found t (lookup t info.transactions)

reset_at-IsRefusal : (cid : Bytes) (o : Option ChargePointState) → IsRefusal (reset_at cid o)
unfolding reset_at
reset_at-IsRefusal cid none = inr refl
reset_at-IsRefusal cid (some info) = tt

checks-IsRefusal :
    (h : CentralSystemHandler) (r : HttpRequest)
    → IsRefusal (check_reset h r) × IsRefusal (check_start h r) × IsRefusal (check_stop h r)
unfolding check_reset check_start check_stop
checks-IsRefusal h r = elim (Bool-cases (r.method == post)) [
  | inl is ↦ rw is (reset_at-IsRefusal _ _, start_at-IsRefusal _ _ _, stop_at-IsRefusal _ _ _)
  | inr differs ↦ rw differs (inl refl, inl refl, inl refl)
]

-- How a request ends: with status 200 exactly if a command was sent and the charge point accepted it;
-- with a crash exactly if a command was sent and its callback got no confirmation; and never, exactly
-- if a command was sent and its callback does not run.
abbrev pub Outcomes : Check → Answer → Type 0
Outcomes k a =
    (((response : Response) × (serve k a ≡ responded response) × (response.code ≡ 200))
      ↔ ((command : Command) × (k ≡ sends command) × (a ≡ called_back (some true))))
    × ((serve k a ≡ crashed) ↔ ((command : Command) × (k ≡ sends command) × (a ≡ called_back none)))
    × ((serve k a ≡ blocked) ↔ ((command : Command) × (k ≡ sends command) × (a ≡ no_answer)))

refusal-Outcomes : (k : Check) (a : Answer) → IsRefusal k → Outcomes k a
unfolding serve
refusal-Outcomes (responds response) a refuses = (
  (λ t. ground arith, λ t. ground arith),
  (λ t. ground arith, λ t. ground arith),
  (λ t. ground arith, λ t. ground arith),
)
refusal-Outcomes (sends command) (Answer.not_sent reason) _ = (
  (λ t. ground arith, λ t. ground arith),
  (λ t. ground arith, λ t. ground arith),
  (λ t. ground arith, λ t. ground arith),
)
refusal-Outcomes (sends command) (called_back none) _ = (
  (λ t. ground arith, λ t. ground arith),
  (λ _. (command, refl, refl), λ _. refl),
  (λ t. ground arith, λ t. ground arith),
)
refusal-Outcomes (sends command) (called_back (some true)) _ = (
  (λ _. (command, refl, refl), λ _. (_, refl, refl)),
  (λ t. ground arith, λ t. ground arith),
  (λ t. ground arith, λ t. ground arith),
)
refusal-Outcomes (sends command) (called_back (some false)) _ = (
  (λ t. ground arith, λ t. ground arith),
  (λ t. ground arith, λ t. ground arith),
  (λ t. ground arith, λ t. ground arith),
)
refusal-Outcomes (sends command) no_answer _ = (
  (λ t. ground arith, λ t. ground arith),
  (λ t. ground arith, λ t. ground arith),
  (λ _. (command, refl, refl), λ _. refl),
)

-- Each of the three handlers ends a request with status 200 exactly if it sent a command that the
-- charge point accepted, with a crash exactly if the command's callback got no confirmation, and never
-- exactly if that callback does not run.
pub serve-Outcomes :
    (h : CentralSystemHandler) (r : HttpRequest) (a : Answer)
    → Outcomes (check_reset h r) a × Outcomes (check_start h r) a × Outcomes (check_stop h r) a
serve-Outcomes h r a =
    let (k, l, m) = checks-IsRefusal h r in
    (refusal-Outcomes _ a k, refusal-Outcomes _ a l, refusal-Outcomes _ a m)
