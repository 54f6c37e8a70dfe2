-- ===== src/Ocpp/PageRead.antt =====
-- ocpp/http.go: the text of the index page has the forms of what it shows, and no others.
use smarthouse.Prelude.{
  ℤ, pos, ltb_ℤ, ◌-ℤ◌, wrap_int, Option, none, some, List, [], ◌∷◌, ◌++◌, Bytes, codes, bytes_Eq,
  true, Bool-cases, inl, inr, ◌≡◌, refl, arith, Alike, >>=-Alike, Alike-refl, mapped-Alike,
  if◌then◌else◌,
}
use smarthouse.GoTime.{Time}
use smarthouse.GoConv.{itoa, Plain, itoa-Plain}
use smarthouse.Float64.{Float64}
use smarthouse.Ocpp.Types.{
  Measurement, TransactionInfo, has_transaction_ended, ConnectorInfo, has_transaction_in_progress,
}
use smarthouse.Ocpp.Http.{start_action, stop_action}
use smarthouse.Ocpp.Index.{providing, connector_entry, transaction_entry}
use smarthouse.Ocpp.PageText.{
  PageFormats, form_text, power_text, providing_text, connector_use, connector_text, energy_text,
  transaction_text,
}
use smarthouse.Ocpp.Markup.{
  Reads, beside, closed, tagged, written, ended, form_text-Reads, is_plain, is_plain-Plain,
}
use smarthouse.Ocpp.PageForms.{connector_forms, some_form, transaction_forms}

pub Plain-append : (s t : Bytes) → Plain s → Plain t → Plain (s ++ t)
Plain-append [] t hs ht = ht
Plain-append (c ∷ s) t (hc, hs) ht = (hc, Plain-append s t hs ht)

-- What is formatted brings no form.
pub record AreQuiet (f : PageFormats) : Type 0 where
  pub tenths : (x : Float64) → Reads (f.tenths x) []
  pub moment : (t : Option Time) → Reads (f.moment t) []
  pub query : Reads f.query []

numbered : (z : ℤ) {t : Bytes} {gs : List Bytes} → Reads t gs → Reads (itoa z ++ t) gs
numbered z {t} {gs} right = written (itoa z) {t = t} {gs = gs} (itoa-Plain z) right

-- The path of a form for a number of a charge point.
action-Plain :
    (place id : Bytes) (z : ℤ)
    → is_plain place ≡ true
    → Plain id
    → Plain (place ++ id ++ b'/' ∷ itoa z)
action-Plain place id z e plain =
    Plain-append (place ++ id) (b'/' ∷ itoa z)
      (Plain-append place id (is_plain-Plain place e) plain)
      ((omega arith, omega arith), itoa-Plain z)

same_providing :
    (now : Time) (m : Option Measurement) (at : Time)
    → Alike (λ a b. a ≡ b) (providing now m at) (providing now m at)
same_providing now m at = Alike-refl (providing now m at)

module _ (f : PageFormats) (quiet : AreQuiet f) where
  power_text-Reads : (m : Measurement) → Reads (power_text f m) []
  power_text-Reads m =
      tagged (codes "providing ") (λ rest. refl)
        (beside (quiet.tenths m.active_power) (
          tagged (codes "W @ ") (λ rest. refl)
            (beside (quiet.tenths m.voltage) (
              tagged (codes "V / ") (λ rest. refl)
                (beside (quiet.tenths m.current) (closed (codes "A") (λ rest. refl)))))))

  providing_text-Reads : (m : Option Measurement) → Reads (providing_text f m) []
  providing_text-Reads none = closed [] (λ rest. refl)
  providing_text-Reads (some m) = tagged (codes " ") (λ rest. refl) (power_text-Reads m)

  connector_use-Reads :
      (now : Time) (id : Bytes) (x : ℤ × ConnectorInfo)
      → Plain id
      → Alike
          (λ t e. Reads t (connector_forms e))
          (connector_use f now id x)
          (connector_entry now id x)
  unfolding connector_use connector_entry
  connector_use-Reads now id (c, ci) plain = elim (Bool-cases (has_transaction_in_progress ci)) [
    | inl running ↦
        rw (connector_use, connector_entry, running)
          (>>=-Alike (λ a b. a ≡ b) (λ t e. Reads t (connector_forms e))
            (providing now ci.last_measurement ci.measurement_time)
            (providing now ci.last_measurement ci.measurement_time) _ _
            (same_providing now ci.last_measurement ci.measurement_time)
            (λ m m' same.
              tagged (codes " - Current Transaction: ") (λ rest. refl)
                (numbered ci.current_transaction (providing_text-Reads m))))
    | inr free ↦
        rw (connector_use, connector_entry, free)
          (form_text-Reads (start_action id c) (codes "Start")
            (unfold start_action in action-Plain (codes "/start/") id c refl plain)
            (is_plain-Plain (codes "Start") refl))
  ]

  pub connector_text-Reads :
      (now : Time) (id : Bytes) (x : ℤ × ConnectorInfo)
      → Plain id
      → Plain x.1.status
      → Alike
          (λ t e. Reads t (connector_forms e))
          (connector_text f now id x)
          (connector_entry now id x)
  unfolding connector_text
  connector_text-Reads now id (c, ci) plain status =
      mapped-Alike (λ t e. Reads t (connector_forms e)) (λ t e. Reads t (connector_forms e))
        (connector_use f now id (c, ci)) (connector_entry now id (c, ci)) _
        (connector_use-Reads now id (c, ci) plain)
        (λ used e reads.
          tagged (codes "<li>") (λ rest. refl)
            (numbered c (
              tagged (codes " - ") (λ rest. refl)
                (written ci.status status (ended reads (codes "</li>") (λ rest. refl))))))

  energy_text-Reads :
      (ti : TransactionInfo) (m : Option Measurement) → Reads (energy_text f ti m) []
  energy_text-Reads ti (some m) = beside (power_text-Reads m) (
      tagged (codes " (total ") (λ rest. refl)
        (numbered (wrap_int (m.meter_reading -ℤ ti.start_meter))
          (closed (codes " W since start)") (λ rest. refl))))
  energy_text-Reads ti none = elim (Bool-cases (ltb_ℤ (pos 0) ti.end_meter)) [
    | inl ended_up ↦ rw ended_up (
        numbered ti.end_meter (
          tagged (codes " (") (λ rest. refl)
            (numbered (wrap_int (ti.end_meter -ℤ ti.start_meter))
              (closed (codes " W supplied)") (λ rest. refl)))))
    | inr nothing ↦ rw nothing (closed [] (λ rest. refl))
  ]

  stop_text-Reads :
      (id : Bytes) (ti : TransactionInfo)
      → Plain id
      → Reads
          (if has_transaction_ended ti then [] else form_text (stop_action id ti.id) (codes "Stop"))
          (some_form (if has_transaction_ended ti then none else some (stop_action id ti.id)))
  stop_text-Reads id ti plain = elim (Bool-cases (has_transaction_ended ti)) [
    | inl over ↦ rw over (closed [] (λ rest. refl))
    | inr running ↦ rw running (
        form_text-Reads (stop_action id ti.id) (codes "Stop")
          (unfold stop_action in action-Plain (codes "/stop/") id ti.id refl plain)
          (is_plain-Plain (codes "Stop") refl))
  ]

  pub transaction_text-Reads :
      (now : Time) (id : Bytes) (x : ℤ × TransactionInfo)
      → Plain id
      → Plain x.1.id_tag
      → Alike
          (λ t e. Reads t (transaction_forms e))
          (transaction_text f now id x)
          (transaction_entry now id x)
  unfolding transaction_text transaction_entry
  transaction_text-Reads now id (t, ti) plain tag =
      let cell = codes "</td><td>" in
      >>=-Alike (λ a b. a ≡ b) (λ t' e. Reads t' (transaction_forms e))
        (providing now ti.last_measurement ti.measurement_time)
        (providing now ti.last_measurement ti.measurement_time) _ _
        (same_providing now ti.last_measurement ti.measurement_time)
        (λ m m' same.
          tagged (codes "<tr><td>") (λ rest. refl)
            (numbered ti.id (
              tagged cell (λ rest. refl)
                (numbered ti.connector_id (
                  tagged cell (λ rest. refl)
                    (written ti.id_tag tag (
                      tagged cell (λ rest. refl)
                        (beside (quiet.moment ti.start_time) (
                          tagged cell (λ rest. refl)
                            (beside (quiet.moment ti.end_time) (
                              tagged cell (λ rest. refl)
                                (numbered ti.start_meter (
                                  tagged cell (λ rest. refl)
                                    (beside (energy_text-Reads ti m) (
                                      tagged cell (λ rest. refl)
                                        (ended (stop_text-Reads id ti plain) (codes "<td></tr>")
                                          (λ rest. refl)))))))))))))))))
