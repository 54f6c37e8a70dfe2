-- ===== src/Analysis/Starts.antt =====
-- The start of the windows in analysis/heatloss-analysis.go.
use smarthouse.Prelude.{
  subst, sym, ap, ◌∙◌, suc, ℕ, ◌+◌, ◌*◌, ◌/◌, ◌<◌, ◌≤◌, ℤ, pos, negsuc, ◌+ℤ◌, int_eq, leb_ℤ,
  add_int, ◌≡◌, refl, arith, inl, inr, ◌⊎◌, true, false, Bool-cases, Option, some, none, leb,
  if◌then◌else◌,
}
use native.Mathlib.Nat.{
  le-div_iff_mul-le, div-lt_iff_lt-mul, div-mul-le_self, suc-mul, lt-div-mul-add,
}
use smarthouse.Analysis.Scans.{magnitude, round_to}

-- The start of the window after a line at this time.
abbrev pub next_start : ℤ → ℤ → ℤ → ℤ
next_start win_secs start ts =
    if int_eq start (negsuc 0)
    then round_to ts (magnitude win_secs)
    else if leb_ℤ (add_int start win_secs) ts
    then add_int start win_secs
    else start

-- A time that is at most the length of a window after the last one.
abbrev pub IsNext : ℕ → Option ℕ → ℕ → Type 0
IsNext l none t = Unit
IsNext l (some u) t = (u ≤ t) × (t ≤ u + l) × (t + l < 9223372036854775808)

div_unique : (l k t : ℕ) → 0 < l → k * l ≤ t → t < k * l + l → t / l ≡ k
div_unique l k t some_secs low high = omega (
  arith,
  (le-div_iff_mul-le {k = l} {x = k} {y = t} some_secs).1 low,
  (div-lt_iff_lt-mul {k = l} {x = t} {y = suc k} some_secs).1
      (subst (λ m. t < m) (sym (suc-mul k l)) high),
)

add_int_pos : (a l : ℕ) → a + l < 9223372036854775808 → add_int (pos a) (pos l) ≡ pos (a + l)
unfolding add_int ◌+ℤ◌
add_int_pos a l fits = ground arith

pub next_start_over :
    (l a t : ℕ)
    → a + l ≤ t
    → a + l < 9223372036854775808
    → next_start (pos l) (pos a) (pos t) ≡ pos (a + l)
next_start_over l a t over fits =
    let test : leb_ℤ (pos (a + l)) (pos t) ≡ true = ground arith in
    rw (add_int_pos a l fits, test) refl

pub next_start_inside :
    (l a t : ℕ)
    → t < a + l
    → a + l < 9223372036854775808
    → next_start (pos l) (pos a) (pos t) ≡ pos a
next_start_inside l a t inside fits =
    let test : leb_ℤ (pos (a + l)) (pos t) ≡ false = ground arith in
    rw (add_int_pos a l fits, test) refl

-- From a window that starts at `a` and contains the time before.
next_start_cases :
    (l a u t : ℕ)
    → a ≤ u
    → u < a + l
    → IsNext l (some u) t
    → ((next_start (pos l) (pos a) (pos t) ≡ pos a) × (a ≤ t) × (t < a + l))
      ⊎ ((next_start (pos l) (pos a) (pos t) ≡ pos (a + l)) × (a + l ≤ t) × (t < a + l + l))
next_start_cases l a u t low high (up, close, fits) = elim (Bool-cases (leb (a + l) t)) [
  | inl over ↦ inr (next_start_over l a t (ground arith) (omega arith), ground arith, omega arith)
  | inr inside ↦
      inl (next_start_inside l a t (ground arith) (omega arith), omega arith, ground arith)
]

pub next_start_steady :
    (l u t : ℕ)
    → 0 < l
    → IsNext l (some u) t
    → next_start (pos l) (pos (u / l * l)) (pos t) ≡ pos (t / l * l)
next_start_steady l u t some_secs next =
    elim (next_start_cases l (u / l * l) u t (div-mul-le_self u l)
      (lt-div-mul-add {a = u} {b = l} some_secs) next) [
        | inl (same, low, high) ↦
            same ∙ ap (λ k. pos (k * l)) (sym (div_unique l (u / l) t some_secs low high))
        | inr (moved, low, high) ↦
            let e = suc-mul (u / l) l in
            moved
            ∙ ap pos (sym e)
            ∙ ap (λ k. pos (k * l))
                (sym (div_unique l (suc (u / l)) t some_secs (omega (arith, e)) (omega (arith, e))))
      ]
