-- ===== src/Nodes/StartUp.antt =====
-- common/smarthouse.go: main comes up as soon as the broker's answer is there, and not before.
use smarthouse.Prelude.{
  ℕ, zero, suc, ◌+◌, ◌<◌, ℤ, Option, none, some, ◌++◌, Bytes, codes, bytes_Eq, true, Bool-cases,
  inl, inr, ◌≡◌, ◌⊎◌, ◌↔◌, Option-cases, refl, arith, if◌then◌else◌, subst,
}
use smarthouse.GoConv.{itoa}
use smarthouse.Nodes.Start.{
  Url, ClientOptions, create_client_options, Token, wait_from, Started, fatal, serving, Connecting,
  mqtt_connect, start,
}

wait_from-done :
    (token : Token) (d k fuel : ℕ)
    → token.done (k + d) ≡ true
    → d < fuel
    → (j : ℕ) × (wait_from fuel token k ≡ some j)
unfolding wait_from
wait_from-done token d k zero found enough = absurd (omega arith)
wait_from-done token zero k (suc fuel) found enough =
    let now : token.done k ≡ true = subst (λ j. token.done j ≡ true) (omega arith) found in
    (k, rw now refl)
wait_from-done token (suc d) k (suc fuel) found enough = elim (Bool-cases (token.done k)) [
  | inl now ↦ (k, rw now refl)
  | inr later ↦ rw later (
      wait_from-done token d (suc k) fuel (subst (λ j. token.done j ≡ true) (omega arith) found)
        (omega arith))
]

wait_from-found :
    (fuel : ℕ) (token : Token) (k j : ℕ) → wait_from fuel token k ≡ some j → token.done j ≡ true
unfolding wait_from
wait_from-found zero token k j e = absurd (ground arith)
wait_from-found (suc fuel) token k j e = elim (Bool-cases (token.done k)) [
  | inl now ↦ let same : k ≡ j = ground arith in subst (λ i. token.done i ≡ true) same now
  | inr later ↦ wait_from-found fuel token (suc k) j (ground arith)
]

abbrev user_in : Option (Bytes × Option Bytes) → Bytes × Bytes
user_in none = (codes "", codes "")
user_in (some (name, none)) = (name, codes "")
user_in (some (name, some password)) = (name, password)

-- What main asks of the broker: TCP to the URL's host, whatever its scheme, for its user with its
-- password, each empty if there is none, under the host's name.
abbrev pub asked : Bytes → Url → ClientOptions
asked host uri = record {
  broker = codes "tcp://" ++ uri.host;
  username = (user_in uri.user).0;
  password = (user_in uri.user).1;
  client_id = codes "smarthouse." ++ host;
}

create_client_options-asked :
    (host scheme at : Bytes) (user : Option (Bytes × Option Bytes))
    → create_client_options
        (codes "smarthouse." ++ host)
        (record { scheme = scheme; host = at; user = user })
      ≡ asked host (record { scheme = scheme; host = at; user = user })
unfolding create_client_options
create_client_options-asked host scheme at none = refl
create_client_options-asked host scheme at (some (name, none)) = refl
create_client_options-asked host scheme at (some (name, some password)) = refl

-- How main goes on once the broker has answered, or has refused the session.
abbrev pub answered : ℤ → ClientOptions → Token → Started
answered port options token =
    if token.errored then fatal else serving (codes ":" ++ itoa port) options

module _ (parse_url : Bytes → Option Url) (connecting : Connecting) (port : ℤ)
    (mqtt_url host : Bytes) (uri : Url) (parses : parse_url mqtt_url ≡ some uri) where
  start_waited :
      (fuel j : ℕ)
      → let options = create_client_options (codes "smarthouse." ++ host) uri in
        wait_from fuel (connecting options) 0 ≡ some j
        → start fuel parse_url (some host) connecting port mqtt_url
          ≡ some (answered port options (connecting options))
  unfolding start mqtt_connect
  start_waited fuel j e =
      let options = create_client_options (codes "smarthouse." ++ host) uri in
      rw (start, parses, e)
        (elim (Bool-cases (connecting options).errored) [
          | inl refused ↦ rw refused refl
          | inr accepted ↦ rw accepted refl
        ])

  start_waiting :
      (fuel : ℕ)
      → let options = create_client_options (codes "smarthouse." ++ host) uri in
        wait_from fuel (connecting options) 0 ≡ none
        → start fuel parse_url (some host) connecting port mqtt_url ≡ none
  unfolding start mqtt_connect
  start_waiting fuel e = rw (start, parses, e) refl

  start_came :
      (fuel : ℕ)
      → let options = create_client_options (codes "smarthouse." ++ host) uri in
        let token = connecting options in
        let after = answered port options token in
        let started : ℕ → Option Started =
          λ n. start n parse_url (some host) connecting port mqtt_url in
        ((started fuel ≡ none) ⊎ (started fuel ≡ some after))
        × (((n : ℕ) × (started n ≡ some after)) ↔ ((k : ℕ) × (token.done k ≡ true)))
  start_came fuel =
      let options = create_client_options (codes "smarthouse." ++ host) uri in
      let token = connecting options in
      (
        elim (Option-cases (wait_from fuel token 0)) [
          | inl e ↦ inl (start_waiting fuel e)
          | inr (j, e) ↦ inr (start_waited fuel j e)
        ],
        (
          λ (n, e). elim (Option-cases (wait_from n token 0)) [
            | inl w ↦ absurd (ground (arith, start_waiting n w, e))
            | inr (j, w) ↦ (j, wait_from-found n token 0 j w)
          ],
          λ (k, found).
              let (j, w) =
                wait_from-done token k 0 (suc k)
                  (subst (λ i. token.done i ≡ true) (omega arith) found) (omega arith) in
              (suc k, start_waited (suc k) j w),
        ),
      )

  -- Where the URL of the broker parses and the host has a name, main asks the broker of the URL's host,
  -- by TCP whatever the scheme, for a session with the URL's user and password under a name with the
  -- host's in it, and waits. It gets no further than that, or it ends with an error or serves at the
  -- port of the flag, as the answer says; and it gets further exactly if a wait finds the answer.
  pub start_waits :
      (fuel : ℕ)
      → let options = asked host uri in
        let token = connecting options in
        let after = answered port options token in
        let started : ℕ → Option Started =
          λ n. start n parse_url (some host) connecting port mqtt_url in
        ((started fuel ≡ none) ⊎ (started fuel ≡ some after))
        × (((n : ℕ) × (started n ≡ some after)) ↔ ((k : ℕ) × (token.done k ≡ true)))
  start_waits fuel =
      subst
        (λ options.
          let token = connecting options in
          let after = answered port options token in
          let started : ℕ → Option Started =
            λ n. start n parse_url (some host) connecting port mqtt_url in
          ((started fuel ≡ none) ⊎ (started fuel ≡ some after))
          × (((n : ℕ) × (started n ≡ some after)) ↔ ((k : ℕ) × (token.done k ≡ true))))
        (create_client_options-asked host uri.scheme uri.host uri.user) (start_came fuel)
