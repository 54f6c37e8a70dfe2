-- ===== src/GoMap.antt =====
-- Go's maps, as association lists: at most one entry for a key, in an order that no code relies on.
use smarthouse.Prelude.{
  inl, inr, subst, Bool-cases, ◌⊎◌, ◌≢◌, ◌≡◌, refl, Option, none, some, List, [], ◌∷◌, arith, Eq,
  ◌==◌, ==_iff, if◌then◌else◌,
}

abbrev pub Map {ℓ κ} : Type ℓ → Type κ → Type (ℓ ⊔ κ)
Map K V = List (K × V)

-- A predicate on every value of a map.
abbrev pub Values {ℓ κ μ} : {K : Type ℓ} {V : Type κ} → (V → Type μ) → Map K V → Type μ
Values P [] = Unit
Values P (entry ∷ m) = P entry.1 × Values P m

module _ {ℓ κ} {K : Type ℓ} {V : Type κ} ⦃e : Eq K⦄ where
  -- v, ok := m[k]
  unfoldable pub lookup : K → Map K V → Option V
  lookup key [] = none
  lookup key (entry ∷ m) = if entry.0 == key then some entry.1 else lookup key m

  -- m[k] = v
  unfoldable pub insert : K → V → Map K V → Map K V
  insert key new [] = (key, new) ∷ []
  insert key new (entry ∷ m) =
      if entry.0 == key then (entry.0, new) ∷ m else entry ∷ insert key new m

  -- delete(m, k)
  unfoldable pub delete : K → Map K V → Map K V
  delete key [] = []
  delete key (entry ∷ m) = let rest = delete key m in if entry.0 == key then rest else entry ∷ rest

  pub lookup-insert :
      (a b : K) (new : V) (m : Map K V)
      → lookup b (insert a new m) ≡ (if a == b then some new else lookup b m)
  unfolding lookup insert
  lookup-insert a b new [] = refl
  lookup-insert a b new (entry ∷ m) =
      ground (arith, lookup-insert a b new m, ==_iff entry.0 a, ==_iff a b, ==_iff entry.0 b)

  pub lookup-delete :
      (k j : K) (m : Map K V) → lookup j (delete k m) ≡ (if k == j then none else lookup j m)
  unfolding lookup delete
  lookup-delete k j [] = ground arith
  lookup-delete k j ((i, w) ∷ m) =
      ground (arith, ==_iff k j, ==_iff i k, ==_iff i j, lookup-delete k j m)

  -- Writing back what a key holds changes nothing.
  pub insert-lookup : (k : K) (v : V) (m : Map K V) → lookup k m ≡ some v → insert k v m ≡ m
  unfolding lookup insert
  insert-lookup k v [] h = ground arith
  insert-lookup k v ((i, w) ∷ m) h = ground (arith, ==_iff i k, insert-lookup k v m)

  pub delete-absent : (k : K) (m : Map K V) → lookup k m ≡ none → delete k m ≡ m
  unfolding lookup delete
  delete-absent k [] h = refl
  delete-absent k ((i, w) ∷ m) h = ground (arith, ==_iff i k, delete-absent k m)

  pub lookup-insert_self : (k : K) (v : V) (m : Map K V) → lookup k (insert k v m) ≡ some v
  lookup-insert_self k v m = ground (arith, lookup-insert k k v m, ==_iff k k)

  pub lookup-insert_other :
      (k j : K) (v : V) (m : Map K V) → k ≢ j → lookup j (insert k v m) ≡ lookup j m
  lookup-insert_other k j v m other = ground (arith, lookup-insert k j v m, ==_iff k j)

  -- An entry of a map after a write is what was written, or was there.
  pub lookup-insert_cases :
      (a b : K) (v w : V) (m : Map K V)
      → lookup b (insert a v m) ≡ some w
      → ((a ≡ b) × (v ≡ w)) ⊎ (lookup b m ≡ some w)
  lookup-insert_cases a b v w m h = ground (arith, lookup-insert a b v m, ==_iff a b)

  pub lookup-Values {μ} :
      (P : V → Type μ) (k : K) (v : V) (m : Map K V) → lookup k m ≡ some v → Values P m → P v
  unfolding lookup
  lookup-Values P k v [] e h = absurd (ground arith)
  lookup-Values P k v (entry ∷ m) e (hx, h) = elim (Bool-cases (entry.0 == k)) [
    | inl same ↦ subst P (ground arith) hx
    | inr other ↦ lookup-Values P k v m (ground arith) h
  ]

  pub insert-Values {μ} :
      (P : V → Type μ) (k : K) (v : V) (m : Map K V) → P v → Values P m → Values P (insert k v m)
  unfolding insert
  insert-Values P k v [] hv h = (hv, h)
  insert-Values P k v (entry ∷ m) hv (hx, h) = elim (Bool-cases (entry.0 == k)) [
    | inl same ↦ rw same (hv, h)
    | inr other ↦ rw other (hx, insert-Values P k v m hv h)
  ]

  pub delete-Values {μ} :
      (P : V → Type μ) (k : K) (m : Map K V) → Values P m → Values P (delete k m)
  unfolding delete
  delete-Values P k [] h = h
  delete-Values P k (entry ∷ m) (hx, h) = elim (Bool-cases (entry.0 == k)) [
    | inl same ↦ rw same (delete-Values P k m h)
    | inr other ↦ rw other (hx, delete-Values P k m h)
  ]
