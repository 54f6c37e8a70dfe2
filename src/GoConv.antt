-- ===== src/GoConv.antt =====
-- Go's `strconv.Atoi` on a 64-bit platform, and the decimal form that `%d` prints.
use smarthouse.Prelude.{
  ℕ, zero, suc, ◌+◌, ◌-◌, ◌*◌, ◌/◌, ◌%◌, ◌≤◌, ◌<◌, ℤ, pos, negsuc, ◌≡◌, ◌≢◌, ◌⊎◌, refl, Bool, true,
  [], ◌∷◌, Bytes, nat_eq, leb, if◌then◌else◌, arith, All, ◌&&◌, Option, none, some, Bool-cases, inl,
  inr, ap, ◌∙◌,
}

is_digit : ℕ → Bool
is_digit c = leb b'0' c && leb c b'9'

-- The decimal digits of s, after those that gave `acc`.
unfoldable pub digits_value : ℕ → Bytes → Option ℕ
unfolding is_digit
digits_value acc [] = some acc
digits_value acc (c ∷ s) =
    let rest = digits_value (acc * 10 + (c - b'0')) s in if is_digit c then rest else none

-- At least one digit.
some_digits : Bytes → Option ℕ
unfolding digits_value
some_digits [] = none
some_digits (c ∷ s) = digits_value 0 (c ∷ s)

-- The range of int: 2^63 - 1 above, -2^63 below.
positive : Option ℕ → Option ℤ
positive none = none
positive (some n) = if leb n 9223372036854775807 then some (pos n) else none

negative : Option ℕ → Option ℤ
negative none = none
negative (some zero) = some (pos 0)
negative (some (suc n)) = if leb n 9223372036854775807 then some (negsuc n) else none

-- strconv.Atoi; `none` is an error, of syntax or of range.
unfoldable pub atoi : Bytes → Option ℤ
unfolding some_digits positive negative
atoi [] = none
atoi (c ∷ s) =
    if nat_eq c b'-'
    then negative (some_digits s)
    else if nat_eq c b'+'
    then positive (some_digits s)
    else positive (some_digits (c ∷ s))

-- The digits of n before those of `rest`; the fuel bounds their number.
digits_from : ℕ → ℕ → Bytes → Bytes
digits_from zero n rest = rest
digits_from (suc fuel) n rest =
    let more = digits_from fuel (n / 10) ((b'0' + n % 10) ∷ rest) in
    if nat_eq (n / 10) 0 then (b'0' + n % 10) ∷ rest else more

-- `%d` of an int; a number has at most as many digits as its successor counts.
unfoldable pub itoa : ℤ → Bytes
unfolding digits_from
itoa (pos n) = digits_from (suc n) n []
itoa (negsuc n) = b'-' ∷ digits_from (suc (suc n)) (suc n) []

is_digit-digit : (q : ℕ) → q < 10 → is_digit (b'0' + q) ≡ true
unfolding is_digit
is_digit-digit q h = ground arith

digits_value-digit :
    (acc q n : ℕ) (rest : Bytes)
    → q < 10
    → acc * 10 + q ≡ n
    → digits_value acc ((b'0' + q) ∷ rest) ≡ digits_value n rest
unfolding digits_value
digits_value-digit acc q n rest h e =
    rw (is_digit-digit q h) (ap (λ k. digits_value k rest) (omega arith))

digits_value-from :
    (fuel n : ℕ) (rest : Bytes)
    → n < fuel
    → digits_value 0 (digits_from fuel n rest) ≡ digits_value n rest
unfolding digits_from
digits_value-from zero n rest h = absurd (omega arith)
digits_value-from (suc fuel) n rest h = elim (Bool-cases (nat_eq (n / 10) 0)) [
  | inl last ↦ rw last (digits_value-digit 0 (n % 10) n rest (omega arith) (ground arith))
  | inr more ↦ rw more (
      digits_value-from fuel (n / 10) ((b'0' + n % 10) ∷ rest) (ground arith)
      ∙ digits_value-digit (n / 10) (n % 10) n rest (omega arith) (omega arith))
]

-- A digit is neither a sign nor a slash.
abbrev pub Digits : Bytes → Type 0
Digits = All (λ c. (b'0' ≤ c) × (c ≤ b'9'))

Digits-NoSlash : (s : Bytes) → Digits s → All (λ x. x ≢ b'/') s
Digits-NoSlash [] d = tt
Digits-NoSlash (c ∷ s) (d, ds) = (omega arith, Digits-NoSlash s ds)

digits_from-Digits : (fuel n : ℕ) (rest : Bytes) → Digits rest → Digits (digits_from fuel n rest)
unfolding digits_from
digits_from-Digits zero n rest d = d
digits_from-Digits (suc fuel) n rest d = elim (Bool-cases (nat_eq (n / 10) 0)) [
  | inl last ↦ rw last (omega arith, d)
  | inr more ↦ rw more (digits_from-Digits fuel (n / 10) _ (omega arith, d))
]

-- At least one digit is printed.
digits_from-cons :
    (fuel n c : ℕ) (rest : Bytes) → (d : ℕ) × (s : Bytes) × (digits_from fuel n (c ∷ rest) ≡ d ∷ s)
unfolding digits_from
digits_from-cons zero n c rest = (c, rest, refl)
digits_from-cons (suc fuel) n c rest = elim (Bool-cases (nat_eq (n / 10) 0)) [
  | inl last ↦ (b'0' + n % 10, c ∷ rest, rw last)
  | inr more ↦ rw more (digits_from-cons fuel (n / 10) (b'0' + n % 10) (c ∷ rest))
]

digits_from-some : (fuel n : ℕ) → (d : ℕ) × (s : Bytes) × (digits_from (suc fuel) n [] ≡ d ∷ s)
unfolding digits_from
digits_from-some fuel n = elim (Bool-cases (nat_eq (n / 10) 0)) [
  | inl last ↦ (b'0' + n % 10, [], rw last)
  | inr more ↦ rw more (digits_from-cons fuel (n / 10) (b'0' + n % 10) [])
]

some_digits-from : (n : ℕ) → some_digits (digits_from (suc n) n []) ≡ some n
unfolding some_digits
some_digits-from n =
    let (d, s, e) = digits_from-some n n in
    rw e (rw e at (digits_value-from (suc n) n [] (omega arith)))

-- The values of int.
abbrev pub IsInt : ℤ → Type 0
IsInt (pos n) = n ≤ 9223372036854775807
IsInt (negsuc n) = n ≤ 9223372036854775807

positive-fits :
    (o : Option ℕ) (n : ℕ) → o ≡ some n → n ≤ 9223372036854775807 → positive o ≡ some (pos n)
unfolding positive
positive-fits o n e h = rw e (ground arith)

negative-fits :
    (o : Option ℕ) (n : ℕ)
    → o ≡ some (suc n)
    → n ≤ 9223372036854775807
    → negative o ≡ some (negsuc n)
unfolding negative
negative-fits o n e h = rw e (ground arith)

-- Where a text starts with a digit, no sign is read.
atoi-digit : (c : ℕ) (s : Bytes) → b'0' ≤ c → atoi (c ∷ s) ≡ positive (some_digits (c ∷ s))
unfolding atoi
atoi-digit c s h = ground arith

-- What `%d` prints of an int, Atoi reads back.
pub atoi-itoa : (z : ℤ) → IsInt z → atoi (itoa z) ≡ some z
unfolding itoa
atoi-itoa (pos n) h =
    let (d, s, e) = digits_from-some n n in
    rw e (
      atoi-digit d s (rw e at (digits_from-Digits (suc n) n [] tt)).0.0
      ∙ positive-fits (some_digits (d ∷ s)) n (rw e at (some_digits-from n)) h)
atoi-itoa (negsuc n) h =
    unfold atoi in
    negative-fits (some_digits (digits_from (suc (suc n)) (suc n) [])) n (some_digits-from (suc n))
      h

-- A printed int has no slash and is not empty.
pub itoa-element : (z : ℤ) → (c : ℕ) × (s : Bytes) × (itoa z ≡ c ∷ s) × All (λ x. x ≢ b'/') (itoa z)
unfolding itoa
itoa-element (pos n) =
    let (d, s, e) = digits_from-some n n in
    (d, s, e, Digits-NoSlash _ (digits_from-Digits (suc n) n [] tt))
itoa-element (negsuc n) = (
  b'-',
  digits_from (suc (suc n)) (suc n) [],
  refl,
  (omega arith, Digits-NoSlash _ (digits_from-Digits (suc (suc n)) (suc n) [] tt)),
)

-- Neither `<` nor a double quote, which end a text or a value in HTML.
abbrev pub Plain : Bytes → Type 0
Plain = All (λ c. (c ≢ b'<') × (c ≢ b'"'))

Digits-Plain : (s : Bytes) → Digits s → Plain s
Digits-Plain [] d = tt
Digits-Plain (c ∷ s) (d, ds) = ((omega arith, omega arith), Digits-Plain s ds)

pub itoa-Plain : (z : ℤ) → Plain (itoa z)
unfolding itoa
itoa-Plain (pos n) = Digits-Plain _ (digits_from-Digits (suc n) n [] tt)
itoa-Plain (negsuc n) =
    ((omega arith, omega arith), Digits-Plain _ (digits_from-Digits (suc (suc n)) (suc n) [] tt))

-- The characters that `%d` prints.
abbrev pub Numeric : Bytes → Type 0
Numeric = All (λ c. ((b'0' ≤ c) × (c ≤ b'9')) ⊎ (c ≡ b'-'))

Digits-Numeric : (s : Bytes) → Digits s → Numeric s
Digits-Numeric [] d = tt
Digits-Numeric (c ∷ s) (d, ds) = (inl d, Digits-Numeric s ds)

pub itoa-Numeric : (z : ℤ) → Numeric (itoa z)
unfolding itoa
itoa-Numeric (pos n) = Digits-Numeric _ (digits_from-Digits (suc n) n [] tt)
itoa-Numeric (negsuc n) =
    (inr refl, Digits-Numeric _ (digits_from-Digits (suc (suc n)) (suc n) [] tt))
