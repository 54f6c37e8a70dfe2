-- ===== src/Nodes/Start.antt =====
-- common/smarthouse.go: main and the connection to the MQTT broker. What url.Parse gives is an argument,
-- and so are the host name and what the client's Connect comes to.
use smarthouse.Prelude.{
  ℕ, zero, suc, ℤ, Option, none, some, [], ◌∷◌, ◌++◌, Bytes, codes, bytes_eq, Bool, if◌then◌else◌,
}
use smarthouse.GoConv.{itoa}

-- The fields of a url.URL that are read, and the scheme, which is not. `user` is a *Userinfo, which may be nil, with the password if
-- one is set.
pub record Url : Type 0 where
  pub scheme : Bytes
  pub host : Bytes
  pub user : Option (Bytes × Option Bytes)

-- uri.User.Username()
abbrev pub username_of : Option (Bytes × Option Bytes) → Bytes
username_of none = []
username_of (some (name, password)) = name

-- uri.User.Password(), the empty string if there is none.
abbrev pub password_of : Option (Bytes × Option Bytes) → Bytes
password_of (some (name, some password)) = password
password_of _ = []

-- mqtt.ClientOptions, without its handlers: mqttConnected is the message `connected`, and the other
-- two log.
pub record ClientOptions : Type 0 where
  pub broker : Bytes
  pub username : Bytes
  pub password : Bytes
  pub client_id : Bytes

unfoldable pub create_client_options : Bytes → Url → ClientOptions
create_client_options client_id uri = record {
  broker = codes "tcp://" ++ uri.host;
  username = username_of uri.user;
  password = password_of uri.user;
  client_id = client_id;
}

-- mqtt.Token: whether the k-th call of WaitTimeout finds it done, and whether it then has an error.
pub record Token : Type 0 where
  pub done : ℕ → Bool
  pub errored : Bool

-- The loop of mqttConnect from the k-th call on; `none` where the fuel is too little.
unfoldable pub wait_from : ℕ → Token → ℕ → Option ℕ
wait_from zero token k = none
wait_from (suc fuel) token k =
    let rest = wait_from fuel token (suc k) in if token.done k then some k else rest

-- How main ends or goes on: log.Fatal, or it serves HTTP at an address, connected with these options.
pub data Started : Type 0 where
  fatal : Started
  serving : Bytes → ClientOptions → Started

-- What an MQTT client's Connect gives.
abbrev pub Connecting : Type 0
Connecting = ClientOptions → Token

-- mqttConnect: the options of the client that it returns, or none after log.Fatal.
unfoldable pub mqtt_connect : ℕ → Connecting → Bytes → Url → Option (Option ClientOptions)
unfolding wait_from create_client_options
mqtt_connect fuel connecting client_id uri =
    let options = create_client_options client_id uri in
    elim (wait_from fuel (connecting options) 0) [
      | none ↦ none
      | some k ↦ some (if (connecting options).errored then none else some options)
    ]

-- fmt.Sprintf(":%d", port)
abbrev pub address_of : ℤ → Bytes
address_of port = b':' ∷ itoa port

-- The last lines of main.
abbrev pub served : ℤ → Option ClientOptions → Started
served port none = fatal
served port (some options) = serving (address_of port) options

-- main, from the flags.
unfoldable pub start :
    ℕ → (Bytes → Option Url) → Option Bytes → Connecting → ℤ → Bytes → Option Started
unfolding mqtt_connect
start fuel parse_url hostname connecting port mqtt_url = elim (parse_url mqtt_url) [
  | none ↦ some fatal
  | some uri ↦ elim hostname [
    | none ↦ some fatal
    | some host ↦ elim (mqtt_connect fuel connecting (codes "smarthouse." ++ host) uri) [
      | none ↦ none
      | some client ↦ some (served port client)
    ]
  ]
]

-- The pages that the process serves by their exact paths.
pub data Page : Type 0 where
  metrics_page nodes_page : Page

unfoldable pub page_at : Bytes → Option Page
page_at path =
    if bytes_eq path (codes "/metrics")
    then some metrics_page
    else if bytes_eq path (codes "/nodes")
    then some nodes_page
    else none
