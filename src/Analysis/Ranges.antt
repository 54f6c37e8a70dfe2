-- ===== src/Analysis/Ranges.antt =====
-- The order of texts by which the query of analysis/provider-comparison.go selects half-hours, and
-- ranges between ascending texts.
use smarthouse.Prelude.{
  ℕ, ◌+◌, ◌∷◌, [], List, Bytes, Bool, true, false, not, ◌&&◌, ◌||◌, bytes_eq, bytes_eq_iff,
  if◌then◌else◌, ◌≡◌, inl, inr, refl, arith,
}
use smarthouse.GoStrings.{precedes, precedes_irrefl, precedes_trans, precedes_asym, precedes_cases}
use smarthouse.Analysis.Bills.{in_bill}

-- The ranges between consecutive texts.
abbrev pub ranges : Bytes → List Bytes → List (Bytes × Bytes)
ranges b [] = []
ranges b (c ∷ cs) = (b, c) ∷ ranges c cs

abbrev pub Ascending : Bytes → List Bytes → Type 0
Ascending b [] = Unit
Ascending b (c ∷ cs) = (precedes b c ≡ true) × Ascending c cs

-- The last of the texts.
abbrev pub final : Bytes → List Bytes → Bytes
final b [] = b
final b (c ∷ cs) = final c cs

abbrev pub is_one_of : Bytes → List Bytes → Bool
is_one_of s [] = false
is_one_of s (c ∷ cs) = bytes_eq s c || is_one_of s cs

-- In how many bills a half-hour counts.
abbrev pub times_counted : Bytes → List (Bytes × Bytes) → ℕ
times_counted s [] = 0
times_counted s (bill ∷ bills) = (if in_bill bill s then 1 else 0) + times_counted s bills

-- Strictly between the first and the last text, and none of those between.
abbrev pub inside : Bytes → List Bytes → Bytes → Bool
inside b cs s = (precedes b s && precedes s (final b cs)) && not (is_one_of s cs)

-- A text before the first is before the last, and none of them.
before_all :
    (s b : Bytes) (cs : List Bytes)
    → precedes s b ≡ true
    → Ascending b cs
    → (precedes s (final b cs) ≡ true) × (is_one_of s cs ≡ false)
before_all s b [] h up = (h, refl)
before_all s b (c ∷ cs) h up =
    let k = precedes_trans s b c h up.0 in
    let (last, rest) = before_all s c cs k up.1 in
    (last, ground (arith, bytes_eq_iff s c, precedes_irrefl s, k, rest))

pub times_counted-ranges :
    (s b : Bytes) (cs : List Bytes)
    → Ascending b cs
    → times_counted s (ranges b cs) ≡ (if inside b cs s then 1 else 0)
unfolding in_bill
times_counted-ranges s b [] up = ground (arith, precedes_asym b s)
times_counted-ranges s b (c ∷ cs) up = elim (precedes_cases s c) [
  | inl lower ↦ ground (
    arith,
    times_counted-ranges s c cs up.1,
    precedes_asym s c lower,
    before_all s c cs lower up.1,
    bytes_eq_iff s c,
    precedes_irrefl s,
  )
  | inr (inl higher) ↦ ground (
    arith,
    times_counted-ranges s c cs up.1,
    precedes_asym c s higher,
    precedes_trans b c s up.0 higher,
    bytes_eq_iff s c,
    precedes_irrefl s,
  )
  | inr (inr same) ↦
      ground (arith, times_counted-ranges s c cs up.1, bytes_eq_iff s c, precedes_irrefl s, same)
]
