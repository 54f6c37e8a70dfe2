-- ===== src/Analysis/Columns.antt =====
-- The lines that analysis/provider-comparison.go prints, column by column.
use smarthouse.Prelude.{
  ◌+◌, ◌≤◌, length-append, ◌+ℤ◌, pos_part, Option, none, some, List, [], ◌∷◌, ◌++◌, Bytes, codes,
  Bool, true, false, not, ◌&&◌, All, length, map, if◌then◌else◌, ◌≡◌, ◌↔◌, ◌⊎◌, inl, inr, refl,
  arith, Bool-cases, Option-cases,
}
use smarthouse.GoTime.{Time}
use smarthouse.GoStrings.{join}
use smarthouse.GoFormat.{format_date}
use smarthouse.Float64.{Float64}
use smarthouse.Analysis.Periods.{Zone}
use smarthouse.Analysis.Bills.{
  Database, Amounts, is_zero, account, columns, selected, bill_texts, query_per_provider,
}

-- What the database answers for a provider: kWh and cost.
abbrev pub Answer : Type 0
Answer = Bytes × Float64 × Float64

abbrev pub name_of : Answer → Bytes
name_of (name, kwh, cost) = name

module _ (amounts : Amounts) where
  abbrev pub cost_text : Answer → Bytes
  cost_text (name, kwh, cost) = amounts.two_decimals cost

  -- No provider's kWh differs from the first one's by more than 0.001.
  abbrev pub agree : Float64 → List Answer → Bool
  agree k [] = true
  agree k ((name, kwh, cost) ∷ answers) = not (amounts.differ k kwh) && agree k answers

  module _ (ask : Bytes → Option (Float64 × Float64)) where
    abbrev pub Answers : Answer → Type 0
    Answers (name, kwh, cost) = ask name ≡ some (kwh, cost)

    columns_later :
        (k : Float64) (answers : List Answer)
        → is_zero k ≡ false
        → All Answers answers
        → columns amounts ask k (map name_of answers)
          ≡ (if agree k answers then some (map cost_text answers) else none)
    unfolding columns
    columns_later k [] z h = refl
    columns_later k ((name, kwh, cost) ∷ answers) z (h, hs) =
        ground (arith, h, columns_later k answers z hs)

    -- A provider of a line that is printed.
    columns_step :
        (k : Float64) (p : Bytes) (ps out : List Bytes)
        → columns amounts ask k (p ∷ ps) ≡ some out
        → (sums : Float64 × Float64) × (added : Float64 × List Bytes) × (rest : List Bytes) × (ask p
            ≡ some sums)
          × (account amounts k sums ≡ some added)
          × (columns amounts ask added.0 ps ≡ some rest)
          × (added.1 ++ rest ≡ out)
    unfolding columns
    columns_step k p ps out e = elim (Option-cases (ask p)) [
      | inl absent ↦ absurd (ground arith)
      | inr (sums, asked) ↦ elim (Option-cases (account amounts k sums)) [
        | inl absent ↦ absurd (ground arith)
        | inr (added, counts) ↦ elim (Option-cases (columns amounts ask added.0 ps)) [
          | inl absent ↦ absurd (ground arith)
          | inr (rest, more) ↦ (sums, added, rest, asked, counts, more, ground arith)
        ]
      ]
    ]

    -- Once there is a number of kWh each provider adds a column; until then each adds two.
    length-columns_later :
        (k : Float64) (providers out : List Bytes)
        → is_zero k ≡ false
        → columns amounts ask k providers ≡ some out
        → length out ≡ length providers
    unfolding columns account
    length-columns_later k [] out z e = ground arith
    length-columns_later k (p ∷ ps) out z e =
        let (sums, added, rest, asked, counts, more, whole) = columns_step k p ps out e in
        let ih = length-columns_later k ps rest z in ground (arith, length-append added.1 rest)

    length-columns_alone :
        (k : Float64) (out : List Bytes) → columns amounts ask k [] ≡ some out → length out ≡ 0
    unfolding columns
    length-columns_alone k out e = ground arith

    length-columns_zero :
        (k : Float64) (p : Bytes) (ps out : List Bytes)
        → is_zero k ≡ true
        → columns amounts ask k (p ∷ ps) ≡ some out
        → length ps + 2 ≤ length out
    unfolding columns account
    length-columns_zero k p [] out z e =
        let (sums, added, rest, asked, counts, more, whole) = columns_step k p [] out e in
        ground (arith, length-append added.1 rest)
    length-columns_zero k p (q ∷ qs) out z e =
        let (sums, added, rest, asked, counts, more, whole) = columns_step k p (q ∷ qs) out e in
        let ih = length-columns_zero added.0 q qs rest in
        let nonzero = length-columns_later added.0 (q ∷ qs) rest in
        elim (Bool-cases (is_zero added.0)) [
          | inl zeroes ↦ let short = ih zeroes more in ground (arith, length-append added.1 rest)
          | inr counted ↦
              let same = nonzero counted more in ground (arith, length-append added.1 rest)
        ]

-- A line has as many columns as the header exactly if the first provider's kWh is not zero, or there is
-- no other provider: each provider before the first one with kWh adds the column again.
pub columns_aligned :
    (amounts : Amounts) (ask : Bytes → Option (Float64 × Float64)) (p : Bytes) (ps out : List Bytes)
    (kwh cost : Float64)
    → ask p ≡ some (kwh, cost)
    → columns amounts ask 0 (p ∷ ps) ≡ some out
    → (length out ≡ length (p ∷ ps) + 1) ↔ ((is_zero kwh ≡ false) ⊎ (ps ≡ []))
unfolding account
columns_aligned amounts ask p [] out kwh cost asked e =
    let (sums, added, rest, asked', counts, more, whole) = columns_step amounts ask 0 p [] out e in
    let same = length-columns_alone amounts ask added.0 rest more in
    (λ n. inr refl, λ n. ground (arith, length-append added.1 rest))
columns_aligned amounts ask p (q ∷ qs) out kwh cost asked e =
    let (sums, added, rest, asked', counts, more, whole) =
      columns_step amounts ask 0 p (q ∷ qs) out e in
    let two : (added.0 ≡ kwh) × (length added.1 ≡ 2) = ground arith in
    let size : length out ≡ 2 + length rest = ground (arith, length-append added.1 rest) in
    elim (Bool-cases (is_zero added.0)) [
      | inl zeroes ↦
          let short = length-columns_zero amounts ask added.0 q qs rest zeroes more in
          (λ n. absurd (omega arith), λ n. absurd (ground arith))
      | inr counted ↦
          let same = length-columns_later amounts ask added.0 (q ∷ qs) rest counted more in
          (λ n. inl (ground arith), λ n. omega arith)
    ]

columns_first :
    (amounts : Amounts) (ask : Bytes → Option (Float64 × Float64)) (name : Bytes)
    (kwh cost : Float64) (rest : List Answer)
    → is_zero kwh ≡ false
    → ask name ≡ some (kwh, cost)
    → All (Answers amounts ask) rest
    → columns amounts ask 0 (name ∷ map name_of rest) ≡ (
        if agree amounts kwh rest
        then some
            (amounts.two_decimals kwh ∷ amounts.two_decimals cost ∷ map (cost_text amounts) rest)
        else none)
unfolding columns account
columns_first amounts ask name kwh cost rest z h hs =
    ground (arith, h, columns_later amounts ask kwh rest z hs)

-- With the kWh of the first provider not zero, the line is the date, that number, and each provider's
-- cost in order, if no other provider's kWh differs, and the program ends with an error otherwise.
pub query_exact :
    (zone : Zone) (amounts : Amounts) (db : Database) (start end : Time) (name : Bytes)
    (kwh cost : Float64) (rest : List Answer)
    → is_zero kwh ≡ false
    → All
        (Answers amounts (λ p. db.summary p (selected (bill_texts zone (start, end)) db.power)))
        ((name, kwh, cost) ∷ rest)
    → query_per_provider zone amounts db (start, end) (name ∷ map name_of rest) ≡ (
        if agree amounts kwh rest
        then some (
            join (codes ",") (
              format_date (pos_part (end +ℤ zone.offset end))
              ∷ amounts.two_decimals kwh
              ∷ amounts.two_decimals cost
              ∷ map (cost_text amounts) rest))
        else none)
unfolding query_per_provider
query_exact zone amounts db start end name kwh cost rest z (h, hs) =
    let e =
      columns_first amounts (λ p. db.summary p (selected (bill_texts zone (start, end)) db.power))
        name kwh cost rest z h hs in
    elim (Bool-cases (agree amounts kwh rest)) [
      | inl same ↦ rw (e, query_per_provider) (rw same)
      | inr apart ↦ rw (e, query_per_provider) (rw apart)
    ]
