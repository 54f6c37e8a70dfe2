-- ===== src/Nodes/StartExamples.antt =====
-- The start of common/smarthouse.go with a broker that answers the second wait.
use smarthouse.Prelude.{
  ℕ, pos, Option, none, some, Bytes, codes, bytes_eq, true, false, nat_eq, if◌then◌else◌, ◌≡◌, ◌⊎◌,
  ◌↔◌, refl, bytes_Eq,
}
use smarthouse.GoConv.{itoa}
use smarthouse.Nodes.Start.{
  Url, ClientOptions, create_client_options, Started, serving, Connecting, wait_from, start,
  page_at, metrics_page,
}
use smarthouse.Nodes.StartUp.{asked, answered, start_waits}

abbrev broker : Url
broker = record {
  scheme = codes "mqtt";
  host = codes "10.0.0.2:1883";
  user = some (codes "house", none);
}

abbrev parse_broker : Bytes → Option Url
parse_broker url = if bytes_eq url (codes "mqtt://house@10.0.0.2:1883") then some broker else none

abbrev answer : Connecting
answer options = record { done = λ k. nat_eq k 1; errored = false }

abbrev house_options : ClientOptions
house_options = asked (codes "hub") broker

start_waits_example :
    let started : ℕ → Option Started = λ n.
      start n parse_broker
        (some (codes "hub"))
        answer
        (pos 1510)
        (codes "mqtt://house@10.0.0.2:1883") in
    let after = answered (pos 1510) house_options (answer house_options) in
    ((started 2 ≡ none) ⊎ (started 2 ≡ some after))
    × (((n : ℕ) × (started n ≡ some after)) ↔ ((k : ℕ) × ((answer house_options).done k ≡ true)))
start_waits_example =
    start_waits parse_broker answer (pos 1510) (codes "mqtt://house@10.0.0.2:1883") (codes "hub")
      broker refl 2

serves_at_once :
    start 2 parse_broker (some (codes "hub")) answer (pos 1510) (codes "mqtt://house@10.0.0.2:1883")
    ≡ some (
        serving (codes ":1510") (record {
          broker = codes "tcp://10.0.0.2:1883";
          username = codes "house";
          password = codes "";
          client_id = codes "smarthouse.hub";
        }))
unfolding start wait_from create_client_options itoa
serves_at_once = refl

metrics_found : page_at (codes "/metrics") ≡ some metrics_page
unfolding page_at
metrics_found = refl
