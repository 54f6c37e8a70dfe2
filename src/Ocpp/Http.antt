-- ===== src/Ocpp/Http.antt =====
-- ocpp/http.go: the handlers of /reset/, /start/ and /stop/. What the handler checks, what it sends to
-- the charge point, and what it writes once the charge point has answered.
use smarthouse.Prelude.{
  ℕ, ℤ, Option, none, some, List, [], ◌∷◌, ◌++◌, Bytes, codes, Bool, not, if◌then◌else◌, int_Eq,
  bytes_Eq, ◌==◌,
}
use smarthouse.GoMap.{lookup}
use smarthouse.GoPath.{slash, split_path, base}
use smarthouse.GoConv.{atoi, itoa}
use smarthouse.Ocpp.Types.{
  ConnectorInfo, has_transaction_in_progress, TransactionInfo, has_transaction_ended,
  ChargePointState, CentralSystemHandler,
}

-- What of http.Request the handlers read: r.Method and r.URL.Path.
pub record HttpRequest : Type 0 where
  pub method : Bytes
  pub path : Bytes

-- The status code, and the texts that are written, in order.
pub record Response : Type 0 where
  pub code : ℕ
  pub body : List Bytes

-- A request of the central system to a charge point.
pub data Command : Type 0 where
  -- centralSystem.Reset, with ResetTypeSoft
  reset : Bytes → Command
  -- centralSystem.RemoteStartTransaction, with the tag and WithConnector
  remote_start_transaction : Bytes → Bytes → ℤ → Command
  -- centralSystem.RemoteStopTransaction
  remote_stop_transaction : Bytes → ℤ → Command

-- The handler returns with a response, or goes on to send.
pub data Check : Type 0 where
  responds : Response → Check
  sends : Command → Check

-- What becomes of a command: it is not sent, for the reason given; its callback runs, with a
-- confirmation that says whether the charge point accepts, or with none; or its callback never runs.
pub data Answer : Type 0 where
  not_sent : Bytes → Answer
  called_back : Option Bool → Answer
  no_answer : Answer

-- How the request ends. `crashed`: the callback dereferences a nil confirmation. `blocked`: the handler
-- waits for ever.
pub data Served : Type 0 where
  responded : Response → Served
  crashed : Served
  blocked : Served

abbrev text : ℕ → Bytes → Response
text code message = record { code = code; body = message ∷ [] }

abbrev page_head : Bytes
page_head =
    codes
      "<html><head><meta http-equiv=\"refresh\" content=\"2; url=/\"><title>MG Controller</title></head><body>"

abbrev page : ℕ → Bytes → Response
page code message = record { code = code; body = page_head ∷ message ∷ codes "</body></html>" ∷ [] }

abbrev post_required : Check
post_required = responds (text 400 (codes "POST required"))

abbrev unknown_point : Check
unknown_point = responds (text 404 (codes "Unknown charge point"))

abbrev pub post : Bytes
post = codes "POST"

unfoldable pub reset_at : Bytes → Option ChargePointState → Check
reset_at cid none = unknown_point
reset_at cid (some info) = sends (reset cid)

-- Reset, up to the call of the central system.
unfoldable pub check_reset : CentralSystemHandler → HttpRequest → Check
unfolding reset_at
check_reset h r =
    if not (r.method == post)
    then post_required
    else reset_at (base r.path) (lookup (base r.path) h.charge_points)

-- The last directory and the last element of the path.
unfoldable pub target : Bytes → Bytes × Bytes
target path = let (dir, last) = split_path path in (base dir, last)

unfoldable pub check_connector : Bytes → ℤ → Option ConnectorInfo → Check
check_connector cid c none = responds (text 404 (codes "Unknown connector"))
check_connector cid c (some connector) =
    if has_transaction_in_progress connector
    then responds (text 400 (codes "Connector in use!"))
    else sends (remote_start_transaction cid (codes "1") c)

unfoldable pub start_number : Bytes → ChargePointState → Option ℤ → Check
unfolding check_connector
start_number cid info none = responds (text 400 (codes "Invalid transaction ID"))
start_number cid info (some c) = check_connector cid c (lookup c info.connectors)

unfoldable pub start_at : Bytes → Bytes → Option ChargePointState → Check
unfolding start_number
start_at cid last none = unknown_point
start_at cid last (some info) = start_number cid info (atoi last)

-- StartTransaction, up to the call of the central system.
unfoldable pub check_start : CentralSystemHandler → HttpRequest → Check
unfolding start_at
check_start h r =
    let (cid, last) = target r.path in
    if not (r.method == post) then post_required else start_at cid last (lookup cid h.charge_points)

unfoldable pub check_transaction : Bytes → ℤ → Option TransactionInfo → Check
check_transaction cid t none = responds (text 404 (codes "Unknown transaction"))
check_transaction cid t (some transaction) =
    if has_transaction_ended transaction
    then responds (text 400 (codes "Transaction already ended"))
    else sends (remote_stop_transaction cid t)

unfoldable pub stop_number : Bytes → ChargePointState → Option ℤ → Check
unfolding check_transaction
stop_number cid info none = responds (text 400 (codes "Invalid transaction ID"))
stop_number cid info (some t) = check_transaction cid t (lookup t info.transactions)

unfoldable pub stop_at : Bytes → Bytes → Option ChargePointState → Check
unfolding stop_number
stop_at cid last none = unknown_point
stop_at cid last (some info) = stop_number cid info (atoi last)

-- StopTransaction, up to the call of the central system.
unfoldable pub check_stop : CentralSystemHandler → HttpRequest → Check
unfolding stop_at
check_stop h r =
    let (cid, last) = target r.path in
    if not (r.method == post) then post_required else stop_at cid last (lookup cid h.charge_points)

-- The word of the handler's messages.
abbrev verb : Command → Bytes
verb (reset cid) = codes "Reset"
verb (remote_start_transaction cid tag c) = codes "Start"
verb (remote_stop_transaction cid t) = codes "Stop"

-- The callback `cb`, and the handling of `err` from the call of the central system.
unfoldable pub finish : Command → Answer → Served
finish command (not_sent reason) =
    responded (text 500 (verb command ++ codes " request failed: " ++ reason))
finish command (called_back none) = crashed
finish command (called_back (some accepted)) =
    if accepted
    then responded (page 200 (verb command ++ codes " accepted. Redirecting back to main..."))
    else responded (page 500 (verb command ++ codes " rejected. Redirecting back to main..."))
finish command no_answer = blocked

-- A whole request: the check, then the answer to the command if one is sent.
unfoldable pub serve : Check → Answer → Served
unfolding finish
serve (responds response) a = responded response
serve (sends command) a = finish command a

-- The forms of the index page: the paths that they post to.
unfoldable pub start_action : Bytes → ℤ → Bytes
start_action cid c = codes "/start/" ++ cid ++ slash ∷ itoa c

unfoldable pub stop_action : Bytes → ℤ → Bytes
stop_action cid t = codes "/stop/" ++ cid ++ slash ∷ itoa t

unfoldable pub reset_action : Bytes → Bytes
reset_action cid = codes "/reset/" ++ cid
