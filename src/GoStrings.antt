-- ===== src/GoStrings.antt =====
-- Go's package strings, as far as the programs use it: Split, Contains and Index with a separator of
-- one byte, and Join; and the order of strings, byte by byte.
use smarthouse.Prelude.{
  ◌≡◌, ◌⊎◌, inl, inr, refl, arith, ℕ, List, [], ◌∷◌, ◌++◌, Bytes, Bool, true, false, nat_eq, ltb,
  if◌then◌else◌,
}

-- A byte in front of the first piece; Split gives at least one.
abbrev extend_first : ℕ → List Bytes → List Bytes
extend_first x [] = (x ∷ []) ∷ []
extend_first x (piece ∷ pieces) = (x ∷ piece) ∷ pieces

-- strings.Split(s, sep)
unfoldable pub split : ℕ → Bytes → List Bytes
split sep [] = [] ∷ []
split sep (x ∷ s) =
    let rest = split sep s in if nat_eq x sep then [] ∷ rest else extend_first x rest

-- strings.Contains(s, sep)
unfoldable pub contains : Bytes → ℕ → Bool
contains [] sep = false
contains (x ∷ s) sep = if nat_eq x sep then true else contains s sep

-- s[0:strings.Index(s, sep)], where sep is in s.
unfoldable pub before : Bytes → ℕ → Bytes
before [] sep = []
before (x ∷ s) sep = if nat_eq x sep then [] else x ∷ before s sep

-- strings.Join(pieces, sep)
unfoldable pub join : Bytes → List Bytes → Bytes
join sep [] = []
join sep (piece ∷ []) = piece
join sep (piece ∷ next ∷ pieces) = piece ++ (sep ++ join sep (next ∷ pieces))

-- s < t
unfoldable pub precedes : Bytes → Bytes → Bool
precedes s [] = false
precedes [] (y ∷ t) = true
precedes (x ∷ s) (y ∷ t) =
    let rest = precedes s t in if ltb x y then true else if ltb y x then false else rest

pub precedes_irrefl : (s : Bytes) → precedes s s ≡ false
unfolding precedes
precedes_irrefl [] = refl
precedes_irrefl (x ∷ s) = ground (arith, precedes_irrefl s)

pub precedes_trans :
    (s t u : Bytes) → precedes s t ≡ true → precedes t u ≡ true → precedes s u ≡ true
unfolding precedes
precedes_trans s t [] h k = absurd (ground arith)
precedes_trans [] t (z ∷ u) h k = refl
precedes_trans (x ∷ s) [] (z ∷ u) h k = absurd (ground arith)
precedes_trans (x ∷ s) (y ∷ t) (z ∷ u) h k = ground (arith, precedes_trans s t u)

pub precedes_asym : (s t : Bytes) → precedes s t ≡ true → precedes t s ≡ false
unfolding precedes
precedes_asym s [] h = absurd (ground arith)
precedes_asym [] (y ∷ t) h = refl
precedes_asym (x ∷ s) (y ∷ t) h = ground (arith, precedes_asym s t)

-- Of two texts one comes first, or they are equal.
pub precedes_cases : (s t : Bytes) → (precedes s t ≡ true) ⊎ ((precedes t s ≡ true) ⊎ (s ≡ t))
unfolding precedes
precedes_cases [] [] = inr (inr refl)
precedes_cases [] (y ∷ t) = inl refl
precedes_cases (x ∷ s) [] = inr (inl refl)
precedes_cases (x ∷ s) (y ∷ t) = ground (arith, precedes_cases s t)
