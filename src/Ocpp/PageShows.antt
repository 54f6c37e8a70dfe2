-- ===== src/Ocpp/PageShows.antt =====
-- ocpp/http.go: the text of the whole index page against the entries that it shows.
use mathlib.Core.List.{append-nil}
use smarthouse.Prelude.{
  Alike-Alike, ◌∙◌, ℤ, Option-cases, List, [], ◌∷◌, Bytes, codes, bytes_Eq, Bool, true, false, inl,
  inr, ◌≡◌, refl, ap, subst, sym, All, returned, ◌>>=◌, Alike, >>=-Alike, Allows-Alike,
  mapped-Alike, if◌then◌else◌,
}
use smarthouse.GoTime.{Time}
use smarthouse.GoConv.{Plain}
use smarthouse.Ocpp.Types.{
  TransactionInfo, ConfigurationKey, ChargePointState, CentralSystemHandler,
}
use smarthouse.Ocpp.Http.{reset_action}
use smarthouse.Ocpp.Index.{
  config_entry, each_entry, ordered_transactions, connector_entry, transaction_entry, PointEntry,
  point_entry, index,
}
use smarthouse.Ocpp.PageText.{
  PageFormats, each_text, config_row, labelled, connector_text, transaction_text, point_head,
  config_text, point_text, index_text,
}
use smarthouse.Ocpp.Markup.{
  actions, Reads, beside, closed, IsBare, tagged, written, ended, form_text-Reads, is_plain-Plain,
}
use smarthouse.Ocpp.PageForms.{
  flat, connector_forms, transaction_forms, point_forms, PlainPoint, PlainValue, each_text-flat,
  ordered_transactions-All,
}
use smarthouse.Ocpp.PageRead.{AreQuiet, Plain-append, connector_text-Reads, transaction_text-Reads}

config_row-Reads :
    (k : ConfigurationKey)
    → Plain k.key
    → PlainValue k.value
    → Alike
        (λ t e. Reads t [])
        (config_entry k >>= λ entry. returned (config_row entry))
        (config_entry k)
unfolding config_entry
config_row-Reads k key value = elim (Option-cases k.value) [
  | inl e ↦ rw (config_entry, e) tt
  | inr (v, e) ↦
      rw (config_entry, e)
        (tagged (codes "<tr><td>") (λ rest. refl)
          (written k.key key (
            tagged (codes "</td><td>") (λ rest. refl)
              (written v (subst PlainValue e value) (closed (codes "</td></tr>") (λ rest. refl))))))
]

flat_none : {A : Type 0} (xs : List A) → flat (λ x. []) xs ≡ []
flat_none [] = refl
flat_none (x ∷ xs) = flat_none xs

config_text-Reads :
    (f : PageFormats) (show_config : Bool) (config_keys : List ConfigurationKey)
    → All (λ k. Plain k.key × PlainValue k.value) config_keys
    → Alike
        (λ t es. Reads t [])
        (config_text f show_config config_keys)
        (each_entry config_entry (if show_config then config_keys else []))
unfolding config_text each_entry
config_text-Reads f false config_keys plain =
    closed (codes "<a href='/?showconfig=1'>Show Config</a>") (λ rest. refl)
config_text-Reads f true config_keys plain =
    mapped-Alike (λ t es. Reads t (flat (λ e. []) es)) (λ t es. Reads t [])
      (each_text (λ k. config_entry k >>= λ entry. returned (config_row entry)) config_keys)
      (each_entry config_entry config_keys) _
      (each_text-flat (λ k. Plain k.key × PlainValue k.value) (λ e. [])
        (λ k. config_entry k >>= λ entry. returned (config_row entry)) config_entry
        (λ k (key, value). config_row-Reads k key value) config_keys plain)
      (λ t es reads.
        tagged (codes "<a href='/'>Hide Config</a><table><tr><th>Key</th><th>Value</th></tr>")
          (λ rest. refl)
          (ended (subst (Reads t) (flat_none es) reads) (codes "</table>") (λ rest. refl)))

labelled-Reads :
    (label value : Bytes) → IsBare label → Plain value → Reads (labelled label value) []
labelled-Reads label value bare plain =
    tagged label bare (written value plain (closed (codes "<br>") (λ rest. refl)))

point_head-Reads :
    (f : PageFormats) (id : Bytes) (cp : ChargePointState)
    → PlainPoint (id, cp)
    → Reads (point_head f id cp) (reset_action id ∷ [])
point_head-Reads f id cp plain =
    let boot = cp.boot_data in
    tagged (codes "<h1>") (λ rest. refl)
      (written id plain.name (
        tagged (codes "</h1>") (λ rest. refl)
          (beside
            (labelled-Reads (codes "<b>Vendor:</b> ") boot.charge_point_vendor (λ rest. refl)
              plain.vendor)
            (beside
              (labelled-Reads (codes "<b>Model:</b> ") boot.charge_point_model (λ rest. refl)
                plain.model)
              (beside
                (labelled-Reads (codes "<b>Serial #:</b> ") boot.charge_point_serial_number
                  (λ rest. refl) plain.serial)
                (beside
                  (labelled-Reads (codes "<b>Firmware Ver:</b> ") boot.firmware_version
                    (λ rest. refl) plain.firmware)
                  (beside
                    (labelled-Reads (codes "<b>Status:</b> ") cp.status (λ rest. refl) plain.status)
                    (beside
                      (labelled-Reads (codes "<b>Diag Status:</b> ") cp.diagnostics_status
                        (λ rest. refl) plain.diagnostics)
                      (beside
                        (labelled-Reads (codes "<b>Firmware Status:</b> ") cp.firmware_status
                          (λ rest. refl) plain.updates)
                        (ended
                          (form_text-Reads (reset_action id) (codes "Reset")
                            (unfold reset_action in
                              Plain-append (codes "/reset/") id
                                (is_plain-Plain (codes "/reset/") refl) plain.name)
                            (is_plain-Plain (codes "Reset") refl))
                          (codes "<h2>Configuration</h2>") (λ rest. refl)))))))))))

module _ (f : PageFormats) (quiet : AreQuiet f) (show_config : Bool) (now : Time) where
  transactions_text-Reads :
      (id : Bytes) (xs ys : List (ℤ × TransactionInfo))
      → Plain id
      → All (λ x. Plain x.1.id_tag) xs
      → xs ≡ ys
      → Alike
          (λ t es. Reads t (flat transaction_forms es))
          (each_text (transaction_text f now id) xs)
          (each_entry (transaction_entry now id) ys)
  transactions_text-Reads id xs ys plain tags same =
      subst
        (λ zs.
          Alike (λ t es. Reads t (flat transaction_forms es))
            (each_text (transaction_text f now id) xs) (each_entry (transaction_entry now id) zs))
        same
        (each_text-flat (λ x. Plain x.1.id_tag) transaction_forms (transaction_text f now id)
          (transaction_entry now id) (λ x tag. transaction_text-Reads f quiet now id x plain tag) xs
          tags)

  point_text-Reads :
      (point : Bytes × ChargePointState)
      → PlainPoint point
      → Alike
          (λ t e. Reads t (point_forms e))
          (point_text f show_config now point)
          (point_entry show_config now point)
  unfolding point_text point_entry
  point_text-Reads (id, cp) plain =
      let shows : Bytes → PointEntry → Type 0 = λ t e. Reads t (point_forms e) in
      >>=-Alike (λ t es. Reads t []) shows (config_text f show_config cp.config_keys)
        (each_entry config_entry (if show_config then cp.config_keys else [])) _ _
        (config_text-Reads f show_config cp.config_keys plain.config)
        (λ config shown_config configured.
          >>=-Alike (λ t es. Reads t (flat connector_forms es)) shows
            (each_text (connector_text f now id) cp.connectors)
            (each_entry (connector_entry now id) cp.connectors) _ _
            (each_text-flat (λ x. Plain x.1.status) connector_forms (connector_text f now id)
              (connector_entry now id)
              (λ x status. connector_text-Reads f quiet now id x plain.name status) cp.connectors
              plain.connectors)
            (λ connectors shown_connectors connected.
              >>=-Alike (λ a b. (a ≡ b) × All (λ x. Plain x.1.id_tag) a) shows
                (ordered_transactions cp.transactions) (ordered_transactions cp.transactions) _ _
                (Allows-Alike (All (λ x. Plain x.1.id_tag)) _ (ordered_transactions cp.transactions)
                  (ordered_transactions-All (λ x. Plain x.1.id_tag) cp.transactions plain.tags)
                  (λ sorted tags. (refl, tags)))
                (λ sorted sorted' (same, tags).
                  >>=-Alike (λ t es. Reads t (flat transaction_forms es)) shows
                    (each_text (transaction_text f now id) sorted)
                    (each_entry (transaction_entry now id) sorted') _ _
                    (transactions_text-Reads id sorted sorted' plain.name tags same)
                    (λ transactions shown_transactions listed.
                      beside (point_head-Reads f id cp plain) (
                        beside configured (
                          tagged (codes "<h2>Connectors</h2><ul>") (λ rest. refl)
                            (beside connected (
                              tagged
                                (codes
                                  "</ul><h2>Transactions</h2><table><tr><th>ID</th><th>Connector</th><th>Tag</th><th>Start</th><th>End</th><th>Start Meter</th><th>End Meter</th><th></th></tr>")
                                (λ rest. refl)
                                (ended listed (codes "</table>") (λ rest. refl))))))))))

  index_text-Reads :
      (h : CentralSystemHandler)
      → All PlainPoint h.charge_points
      → Alike
          (λ page entries. Reads page (flat point_forms entries))
          (index_text f show_config now h)
          (index show_config now h)
  unfolding index_text index
  index_text-Reads h plain =
      mapped-Alike (λ t es. Reads t (flat point_forms es)) _
        (each_text (point_text f show_config now) h.charge_points)
        (each_entry (point_entry show_config now) h.charge_points) _
        (each_text-flat PlainPoint point_forms (point_text f show_config now)
          (point_entry show_config now) point_text-Reads h.charge_points plain)
        (λ points entries reads.
          tagged (codes "<html><head><meta http-equiv=\"refresh\" content=\"2; url=/?")
            (λ rest. refl)
            (beside quiet.query (
              tagged (codes "\"><title>MG Controller</title></head><body>") (λ rest. refl)
                (ended reads (codes "</body></html>") (λ rest. refl)))))

  -- The text has the forms of what is shown, in order, and panics where that does.
  pub index_text-index :
      (h : CentralSystemHandler)
      → All PlainPoint h.charge_points
      → Alike
          (λ page entries. actions page ≡ flat point_forms entries)
          (index_text f show_config now h)
          (index show_config now h)
  index_text-index h plain =
      Alike-Alike (λ page entries. Reads page (flat point_forms entries)) _
        (index_text f show_config now h) (index show_config now h) (index_text-Reads h plain)
        (λ page entries reads.
          ap actions (sym (append-nil page))
          ∙ reads.reads []
          ∙ append-nil (flat point_forms entries))
