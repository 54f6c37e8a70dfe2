-- ===== src/Nodes/Specs.antt =====
-- common/smarthouse.go: the sensor specifications that SetupSensors reads, NAME,TYPE,PIN[;…].
use smarthouse.Prelude.{
  some, ℕ, ◌≡◌, ◌≢◌, refl, ap, arith, List, [], ◌∷◌, ◌++◌, map, Bytes, All, nat_eq_iff,
}
use smarthouse.GoStrings.{split}
use smarthouse.Nodes.Hellos.{flow_of, flows_in, flows_of}

-- The byte is not in the string.
abbrev pub Lacks : ℕ → Bytes → Type 0
Lacks sep s = All (λ x. x ≢ sep) s

split-Lacks : (sep : ℕ) (s : Bytes) → Lacks sep s → split sep s ≡ s ∷ []
unfolding split
split-Lacks sep [] h = refl
split-Lacks sep (x ∷ s) h = ground (arith, nat_eq_iff x sep, split-Lacks sep s h.1)

split-append :
    (sep : ℕ) (s rest : Bytes) → Lacks sep s → split sep (s ++ sep ∷ rest) ≡ s ∷ split sep rest
unfolding split
split-append sep [] rest h = ground (arith, nat_eq_iff sep sep)
split-append sep (x ∷ s) rest h = ground (arith, nat_eq_iff x sep, split-append sep s rest h.1)

-- A sensor as its owner means it.
pub record Entry : Type 0 where
  pub name : Bytes
  pub kind : Bytes
  pub pin : Bytes

abbrev Plain : Bytes → Type 0
Plain s = Lacks b',' s × Lacks b';' s

abbrev pub IsPlain : Entry → Type 0
IsPlain e = Plain e.name × Plain e.kind × Plain e.pin

abbrev pub entry_text : Entry → Bytes
entry_text e = e.name ++ b',' ∷ (e.kind ++ b',' ∷ e.pin)

-- The entries in the form that the firmware sends them.
abbrev pub spec_text : List Entry → Bytes
spec_text [] = []
spec_text (e ∷ []) = entry_text e
spec_text (e ∷ more) = entry_text e ++ b';' ∷ spec_text more

Lacks-append : (sep : ℕ) (s t : Bytes) → Lacks sep s → Lacks sep t → Lacks sep (s ++ t)
Lacks-append sep [] t hs ht = ht
Lacks-append sep (x ∷ s) t hs ht = (hs.0, Lacks-append sep s t hs.1 ht)

flow_of-entry : (e : Entry) → IsPlain e → flow_of (split b',' (entry_text e)) ≡ some e.name
unfolding flow_of
flow_of-entry e ((n, _), (k, _), (p, _)) =
    rw
      (
        split-append b',' e.name (e.kind ++ b',' ∷ e.pin) n,
        split-append b',' e.kind e.pin k,
        split-Lacks b',' e.pin p,
        flow_of,
      )
      refl

Lacks-entry : (e : Entry) → IsPlain e → Lacks b';' (entry_text e)
Lacks-entry e ((_, n), (_, k), (_, p)) =
    Lacks-append b';' e.name (b',' ∷ (e.kind ++ b',' ∷ e.pin)) n
      ((omega arith), Lacks-append b';' e.kind (b',' ∷ e.pin) k ((omega arith), p))

-- A specification of any number of plain entries gives their names, in order.
pub flows_of-spec_text :
    (entries : List Entry)
    → All IsPlain entries
    → flows_of (spec_text entries) ≡ map (λ e. e.name) entries
unfolding flows_of flows_in split
flows_of-spec_text [] h = refl
flows_of-spec_text (e ∷ []) h =
    rw
      (split-Lacks b';' (entry_text e) (Lacks-entry e h.0), flow_of-entry e h.0, flows_of, flows_in)
      refl
flows_of-spec_text (e ∷ next ∷ more) h =
    rw
      (
        split-append b';' (entry_text e) (spec_text (next ∷ more)) (Lacks-entry e h.0),
        flow_of-entry e h.0,
        flows_of,
        flows_in,
      )
      (ap (λ rest. e.name ∷ rest) (flows_of-spec_text (next ∷ more) h.1))
