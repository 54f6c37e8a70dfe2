-- ===== src/Prelude/Outcomes.antt =====
-- What a Go call comes to: it returns, or it panics (a nil dereference, an index out of range).
use mathlib.Core.Path.{◌≡◌, refl}
use mathlib.Core.Logic.{◌⊎◌, inl, inr}
use native.Mathlib.Omega.{arith}

pub data Outcome {ℓ} (A : Type ℓ) : Type ℓ where
  returned : A → Outcome A
  panicked : Outcome A

infixl 5 ◌>>=◌
abbrev pub ◌>>=◌ {ℓ κ} : {A : Type ℓ} {B : Type κ} → Outcome A → (A → Outcome B) → Outcome B
returned a >>= f = f a
panicked >>= f = panicked

-- A call that returns has returned at each step.
pub >>=-eq-returned {ℓ κ} :
    {A : Type ℓ} {B : Type κ} (m : Outcome A) (f : A → Outcome B) {b : B}
    → (m >>= f) ≡ returned b
    → (a : A) × (m ≡ returned a) × (f a ≡ returned b)
>>=-eq-returned (returned a) f h = (a, refl, h)
>>=-eq-returned panicked f h = ground arith

pub returned-injective {ℓ} : {A : Type ℓ} {a b : A} → returned a ≡ returned b → b ≡ a
returned-injective h = ground arith

-- A call panics or returns.
pub Outcome-cases {ℓ} : {A : Type ℓ} (m : Outcome A) → (m ≡ panicked) ⊎ ((a : A) × (m ≡ returned a))
Outcome-cases (returned a) = inr (a, refl)
Outcome-cases panicked = inl refl

-- The call returns, with a result that satisfies the predicate.
abbrev pub Returns {ℓ} : {A : Type ℓ} → (A → Type 0) → Outcome A → Type 0
Returns P (returned a) = P a
Returns P panicked = ⊥

pub >>=-Returns {ℓ κ} :
    {A : Type ℓ} {B : Type κ} (P : A → Type 0) (Q : B → Type 0) (m : Outcome A) (f : A → Outcome B)
    → Returns P m
    → ((a : A) → P a → Returns Q (f a))
    → Returns Q (m >>= f)
>>=-Returns P Q (returned a) f h next = next a h
>>=-Returns P Q panicked f h next = absurd h

-- The call returns.
abbrev pub Succeeds {ℓ} : {A : Type ℓ} → Outcome A → Type ℓ
Succeeds {A} m = (a : A) × (m ≡ returned a)

pub >>=-Succeeds {ℓ κ} :
    {A : Type ℓ} {B : Type κ} (m : Outcome A) (f : A → Outcome B)
    → Succeeds m
    → ((a : A) → Succeeds (f a))
    → Succeeds (m >>= f)
>>=-Succeeds (returned a) f h next = next a
>>=-Succeeds panicked f (a, h) next = absurd (ground arith)

-- If the call returns, its result satisfies the predicate.
abbrev pub Allows {ℓ} : {A : Type ℓ} → (A → Type 0) → Outcome A → Type 0
Allows P (returned a) = P a
Allows P panicked = Unit

pub >>=-Allows {ℓ κ} :
    {A : Type ℓ} {B : Type κ} (P : A → Type 0) (Q : B → Type 0) (m : Outcome A) (f : A → Outcome B)
    → Allows P m
    → ((a : A) → P a → Allows Q (f a))
    → Allows Q (m >>= f)
>>=-Allows P Q (returned a) f h next = next a h
>>=-Allows P Q panicked f h next = tt

pub >>=-Allows_any {ℓ κ} :
    {A : Type ℓ} {B : Type κ} (Q : B → Type 0) (m : Outcome A) (f : A → Outcome B)
    → ((a : A) → Allows Q (f a))
    → Allows Q (m >>= f)
>>=-Allows_any Q (returned a) f next = next a
>>=-Allows_any Q panicked f next = tt

pub Allows-Allows {ℓ} :
    {A : Type ℓ} (P Q : A → Type 0) (m : Outcome A)
    → Allows P m
    → ((a : A) → P a → Q a)
    → Allows Q m
Allows-Allows P Q (returned a) h weaker = weaker a h
Allows-Allows P Q panicked h weaker = tt

-- A call that returns something, and never but what the second predicate takes, does both.
pub Returns-Allows {ℓ} :
    {A : Type ℓ} (P Q : A → Type 0) (m : Outcome A)
    → Returns P m
    → Allows Q m
    → (a : A) × (m ≡ returned a) × Q a
Returns-Allows P Q (returned a) h k = (a, refl, k)
Returns-Allows P Q panicked h k = absurd h

-- Both panic, or both return, with results that are related.
abbrev pub Alike {ℓ κ} :
    {A : Type ℓ} {B : Type κ} → (A → B → Type 0) → Outcome A → Outcome B → Type 0
Alike R (returned a) (returned b) = R a b
Alike R panicked panicked = Unit
Alike R _ _ = ⊥

pub >>=-Alike {ℓ κ μ ν} :
    {A : Type ℓ} {B : Type κ} {C : Type μ} {D : Type ν} (R : A → B → Type 0) (S : C → D → Type 0)
    (m : Outcome A) (n : Outcome B) (f : A → Outcome C) (g : B → Outcome D)
    → Alike R m n
    → ((a : A) (b : B) → R a b → Alike S (f a) (g b))
    → Alike S (m >>= f) (n >>= g)
>>=-Alike R S (returned a) (returned b) f g h next = next a b h
>>=-Alike R S panicked panicked f g h next = tt
>>=-Alike R S (returned a) panicked f g h next = absurd h
>>=-Alike R S panicked (returned b) f g h next = absurd h

pub Allows-Alike {ℓ} :
    {A : Type ℓ} (P : A → Type 0) (R : A → A → Type 0) (m : Outcome A)
    → Allows P m
    → ((a : A) → P a → R a a)
    → Alike R m m
Allows-Alike P R (returned a) h same = same a h
Allows-Alike P R panicked h same = tt

pub Alike-refl : {A : Type 0} (m : Outcome A) → Alike (λ a b. a ≡ b) m m
Alike-refl (returned a) = refl
Alike-refl panicked = tt

pub mapped-Alike {ℓ κ μ} :
    {A : Type ℓ} {B : Type κ} {C : Type μ} (R : A → B → Type 0) (S : C → B → Type 0) (m : Outcome A)
    (n : Outcome B) (f : A → C)
    → Alike R m n
    → ((a : A) (b : B) → R a b → S (f a) b)
    → Alike S (m >>= λ a. returned (f a)) n
mapped-Alike R S (returned a) (returned b) f h next = next a b h
mapped-Alike R S panicked panicked f h next = tt
mapped-Alike R S (returned a) panicked f h next = absurd h
mapped-Alike R S panicked (returned b) f h next = absurd h

pub Alike-Alike {ℓ κ} :
    {A : Type ℓ} {B : Type κ} (R S : A → B → Type 0) (m : Outcome A) (n : Outcome B)
    → Alike R m n
    → ((a : A) (b : B) → R a b → S a b)
    → Alike S m n
Alike-Alike R S (returned a) (returned b) h weaken = weaken a b h
Alike-Alike R S panicked panicked h weaken = tt
Alike-Alike R S (returned a) panicked h weaken = absurd h
Alike-Alike R S panicked (returned b) h weaken = absurd h

-- What the second call's results are told to be holds of the first's too.
pub Alike-Allows {ℓ κ} :
    {A : Type ℓ} {B : Type κ} (R S : A → B → Type 0) (Q : B → Type 0) (m : Outcome A)
    (n : Outcome B)
    → Alike R m n
    → Allows Q n
    → ((a : A) (b : B) → R a b → Q b → S a b)
    → Alike S m n
Alike-Allows R S Q (returned a) (returned b) h k both = both a b h k
Alike-Allows R S Q panicked panicked h k both = tt
Alike-Allows R S Q (returned a) panicked h k both = absurd h
Alike-Allows R S Q panicked (returned b) h k both = absurd h

pub Returns-returned {ℓ} :
    {A : Type ℓ} (P : A → Type 0) (m : Outcome A) → Returns P m → (a : A) × (m ≡ returned a) × P a
Returns-returned P (returned a) h = (a, refl, h)
Returns-returned P panicked h = absurd h
