-- ===== src/Ocpp/PageText.antt =====
-- ocpp/http.go: the text of the index page. The formats of floats and times are arguments, as is the
-- encoded query of the request.
use smarthouse.Prelude.{
  ℤ, pos, ltb_ℤ, ◌-ℤ◌, wrap_int, Option, none, some, List, [], ◌∷◌, ◌++◌, Bytes, codes, Bool,
  if◌then◌else◌, Outcome, returned, ◌>>=◌,
}
use smarthouse.GoTime.{Time}
use smarthouse.GoConv.{itoa}
use smarthouse.Float64.{Float64}
use smarthouse.Ocpp.Types.{
  Measurement, TransactionInfo, has_transaction_ended, ConnectorInfo, has_transaction_in_progress,
  ConfigurationKey, ChargePointState, CentralSystemHandler,
}
use smarthouse.Ocpp.Http.{start_action, stop_action, reset_action}
use smarthouse.Ocpp.Index.{providing, config_entry, ordered_transactions}

-- "%.1f", "%s" of a *types.DateTime, and r.URL.Query().Encode().
pub record PageFormats : Type 0 where
  pub tenths : Float64 → Bytes
  pub moment : Option Time → Bytes
  pub query : Bytes

abbrev pub form_text : Bytes → Bytes → Bytes
form_text action value =
    codes "<form method=\"post\" action=\""
    ++ (action
        ++ (codes "\">"
            ++ (codes "<input type=\"submit\" value=\"" ++ (value ++ codes "\"></form>"))))

-- What is written for each element, one after the other.
unfoldable pub each_text {ℓ} : {A : Type ℓ} → (A → Outcome Bytes) → List A → Outcome Bytes
each_text text [] = returned []
each_text text (x ∷ xs) = do s ← text x; rest ← each_text text xs; returned (s ++ rest)

abbrev pub config_row : Bytes × Bytes → Bytes
config_row (key, value) =
    codes "<tr><td>" ++ (key ++ (codes "</td><td>" ++ (value ++ codes "</td></tr>")))

-- A line with a label.
abbrev pub labelled : Bytes → Bytes → Bytes
labelled label value = label ++ (value ++ codes "<br>")

module _ (f : PageFormats) where
  abbrev pub power_text : Measurement → Bytes
  power_text m =
      codes "providing "
      ++ (f.tenths m.active_power
          ++ (codes "W @ "
              ++ (f.tenths m.voltage ++ (codes "V / " ++ (f.tenths m.current ++ codes "A")))))

  abbrev pub providing_text : Option Measurement → Bytes
  providing_text none = []
  providing_text (some m) = codes " " ++ power_text m

  -- What stands behind the status of a connector.
  unfoldable pub connector_use : Time → Bytes → ℤ × ConnectorInfo → Outcome Bytes
  connector_use now id (c, ci) =
      let running = providing now ci.last_measurement ci.measurement_time >>= λ m.
      returned
        (codes " - Current Transaction: " ++ (itoa ci.current_transaction ++ providing_text m)) in
      if has_transaction_in_progress ci
      then running
      else returned (form_text (start_action id c) (codes "Start"))

  unfoldable pub connector_text : Time → Bytes → ℤ × ConnectorInfo → Outcome Bytes
  unfolding connector_use
  connector_text now id (c, ci) = connector_use now id (c, ci) >>= λ used.
      returned (codes "<li>" ++ (itoa c ++ (codes " - " ++ (ci.status ++ (used ++ codes "</li>")))))

  -- The energy of a transaction, from its measurement or from its end. `a - b` wraps around.
  abbrev pub energy_text : TransactionInfo → Option Measurement → Bytes
  energy_text ti (some m) =
      power_text m
      ++ (codes " (total "
          ++ (itoa (wrap_int (m.meter_reading -ℤ ti.start_meter)) ++ codes " W since start)"))
  energy_text ti none =
      if ltb_ℤ (pos 0) ti.end_meter
      then itoa ti.end_meter
        ++ (codes " ("
            ++ (itoa (wrap_int (ti.end_meter -ℤ ti.start_meter)) ++ codes " W supplied)"))
      else []

  unfoldable pub transaction_text : Time → Bytes → ℤ × TransactionInfo → Outcome Bytes
  transaction_text now id (t, ti) = providing now ti.last_measurement ti.measurement_time >>= λ m.
      returned (
        codes "<tr><td>"
        ++ (itoa ti.id
            ++ (codes "</td><td>"
                ++ (itoa ti.connector_id
                    ++ (codes "</td><td>"
                        ++ (ti.id_tag
                            ++ (codes "</td><td>"
                                ++ (f.moment ti.start_time
                                    ++ (codes "</td><td>"
                                        ++ (f.moment ti.end_time
                                            ++ (codes "</td><td>"
                                                ++ (itoa ti.start_meter
                                                    ++ (codes "</td><td>"
                                                        ++ (energy_text ti m
                                                            ++ (codes "</td><td>"
                                                            ++ ((if has_transaction_ended ti
                                                            then []
                                                            else form_text (stop_action id ti.id)
                                                            (codes "Stop"))
                                                            ++ codes "<td></tr>"))))))))))))))))

  -- The heading of a charge point, down to its configuration.
  abbrev pub point_head : Bytes → ChargePointState → Bytes
  point_head id cp =
      codes "<h1>"
      ++ (id
          ++ (codes "</h1>"
              ++ (labelled (codes "<b>Vendor:</b> ") cp.boot_data.charge_point_vendor
                  ++ (labelled (codes "<b>Model:</b> ") cp.boot_data.charge_point_model
                      ++ (labelled (codes "<b>Serial #:</b> ")
                            cp.boot_data.charge_point_serial_number
                          ++ (labelled (codes "<b>Firmware Ver:</b> ") cp.boot_data.firmware_version
                              ++ (labelled (codes "<b>Status:</b> ") cp.status
                                  ++ (labelled (codes "<b>Diag Status:</b> ") cp.diagnostics_status
                                      ++ (labelled (codes "<b>Firmware Status:</b> ")
                                            cp.firmware_status
                                          ++ (form_text (reset_action id) (codes "Reset")
                                              ++ codes "<h2>Configuration</h2>"))))))))))

  unfoldable pub config_text : Bool → List ConfigurationKey → Outcome Bytes
  unfolding each_text
  config_text show_config config_keys =
      let rows =
        each_text (λ k. config_entry k >>= λ entry. returned (config_row entry)) config_keys in
      let table = rows >>= λ s. returned (
        codes "<a href='/'>Hide Config</a><table><tr><th>Key</th><th>Value</th></tr>"
        ++ (s ++ codes "</table>")) in
      if show_config then table else returned (codes "<a href='/?showconfig=1'>Show Config</a>")

  unfoldable pub point_text : Bool → Time → Bytes × ChargePointState → Outcome Bytes
  unfolding config_text connector_text transaction_text
  point_text show_config now (id, cp) = do
    config ← config_text show_config cp.config_keys
    connectors ← each_text (connector_text now id) cp.connectors
    sorted ← ordered_transactions cp.transactions
    transactions ← each_text (transaction_text now id) sorted
    returned (
        point_head id cp
        ++ (config
            ++ (codes "<h2>Connectors</h2><ul>"
                ++ (connectors
                    ++ (codes
                          "</ul><h2>Transactions</h2><table><tr><th>ID</th><th>Connector</th><th>Tag</th><th>Start</th><th>End</th><th>Start Meter</th><th>End Meter</th><th></th></tr>"
                        ++ (transactions ++ codes "</table>"))))))

  unfoldable pub index_text : Bool → Time → CentralSystemHandler → Outcome Bytes
  unfolding point_text
  index_text show_config now h =
      each_text (point_text show_config now) h.charge_points >>= λ points. returned (
        codes "<html><head><meta http-equiv=\"refresh\" content=\"2; url=/?"
        ++ (f.query
            ++ (codes "\"><title>MG Controller</title></head><body>"
                ++ (points ++ codes "</body></html>"))))
