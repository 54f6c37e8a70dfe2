-- ===== src/Nodes/Sorting.antt =====
-- The order in which the page of common/smarthouse.go shows the nodes.
use mathlib.Core.List.{Perm}
use mathlib.Core.List.Perm
use smarthouse.Prelude.{
  none, some, [], ◌∷◌, Bytes, true, false, if◌then◌else◌, ◌≡◌, refl, arith, bytes_Eq, ==_iff, inl,
  inr, Bool-cases, All,
}
use smarthouse.GoMap.{Map, lookup}
use smarthouse.GoStrings.{precedes, precedes_asym}
use smarthouse.Nodes.Page.{insert_name, sort_names, keys}

module _ {V : Type 0} where
  -- A map has one entry for a key.
  abbrev pub Distinct : Map Bytes V → Type 0
  Distinct [] = Unit
  Distinct (entry ∷ m) = (lookup entry.0 m ≡ none) × Distinct m

  -- The sorting of the names, with their values.
  insert_entry : Bytes × V → Map Bytes V → Map Bytes V
  insert_entry e [] = e ∷ []
  insert_entry e (o ∷ m) =
      let later = o ∷ insert_entry e m in if precedes o.0 e.0 then later else e ∷ o ∷ m

  pub sort_entries : Map Bytes V → Map Bytes V
  unfolding insert_entry
  sort_entries [] = []
  sort_entries (e ∷ m) = insert_entry e (sort_entries m)

  insert_entry-keys :
      (e : Bytes × V) (m : Map Bytes V) → keys (insert_entry e m) ≡ insert_name e.0 (keys m)
  unfolding insert_entry insert_name
  insert_entry-keys e [] = refl
  insert_entry-keys e (o ∷ m) = elim (Bool-cases (precedes o.0 e.0)) [
    | inl before ↦ rw (before, insert_entry-keys e m)
    | inr after ↦ rw after
  ]

  pub sort_entries-keys : (m : Map Bytes V) → sort_names (keys m) ≡ keys (sort_entries m)
  unfolding sort_entries sort_names
  sort_entries-keys [] = refl
  sort_entries-keys (e ∷ m) = rw (sort_entries-keys m, insert_entry-keys e (sort_entries m))

  insert_entry-perm : (e : Bytes × V) (m : Map Bytes V) → Perm (insert_entry e m) (e ∷ m)
  unfolding insert_entry
  insert_entry-perm e [] = Perm.refl (e ∷ [])
  insert_entry-perm e (o ∷ m) = elim (Bool-cases (precedes o.0 e.0)) [
    | inl before ↦ rw before (Perm.trans (Perm.cons o (insert_entry-perm e m)) (Perm.swap e o m))
    | inr after ↦ rw after (Perm.refl (e ∷ o ∷ m))
  ]

  pub sort_entries-perm : (m : Map Bytes V) → Perm (sort_entries m) m
  unfolding sort_entries
  sort_entries-perm [] = Perm.refl []
  sort_entries-perm (e ∷ m) =
      Perm.trans (insert_entry-perm e (sort_entries m)) (Perm.cons e (sort_entries-perm m))

  -- The first entry does not come before the name.
  abbrev pub Leads : Bytes → Map Bytes V → Type 0
  Leads name [] = Unit
  Leads name (e ∷ m) = precedes e.0 name ≡ false

  -- No entry comes before the one in front of it.
  abbrev pub Ordered : Map Bytes V → Type 0
  Ordered [] = Unit
  Ordered (e ∷ m) = Leads e.0 m × Ordered m

  insert_entry-Leads :
      (name : Bytes) (e : Bytes × V) (m : Map Bytes V)
      → precedes name e.0 ≡ true
      → Leads name m
      → Leads name (insert_entry e m)
  unfolding insert_entry
  insert_entry-Leads name e [] h l = precedes_asym name e.0 h
  insert_entry-Leads name e (o ∷ m) h l = elim (Bool-cases (precedes o.0 e.0)) [
    | inl before ↦ rw before l
    | inr after ↦ rw after (precedes_asym name e.0 h)
  ]

  insert_entry-Ordered : (e : Bytes × V) (m : Map Bytes V) → Ordered m → Ordered (insert_entry e m)
  unfolding insert_entry
  insert_entry-Ordered e [] h = (tt, tt)
  insert_entry-Ordered e (o ∷ m) (l, h) = elim (Bool-cases (precedes o.0 e.0)) [
    | inl before ↦ rw before (insert_entry-Leads o.0 e m before l, insert_entry-Ordered e m h)
    | inr after ↦ rw after (after, (l, h))
  ]

  pub sort_entries-Ordered : (m : Map Bytes V) → Ordered (sort_entries m)
  unfolding sort_entries
  sort_entries-Ordered [] = tt
  sort_entries-Ordered (e ∷ m) = insert_entry-Ordered e (sort_entries m) (sort_entries-Ordered m)

  insert_entry-All :
      (P : Bytes × V → Type 0) (e : Bytes × V) (m : Map Bytes V)
      → P e
      → All P m
      → All P (insert_entry e m)
  unfolding insert_entry
  insert_entry-All P e [] p h = (p, tt)
  insert_entry-All P e (o ∷ m) p (q, h) = elim (Bool-cases (precedes o.0 e.0)) [
    | inl before ↦ rw before (q, insert_entry-All P e m p h)
    | inr after ↦ rw after (p, (q, h))
  ]

  pub sort_entries-All :
      (P : Bytes × V → Type 0) (m : Map Bytes V) → All P m → All P (sort_entries m)
  unfolding sort_entries
  sort_entries-All P [] h = tt
  sort_entries-All P (e ∷ m) (p, h) =
      insert_entry-All P e (sort_entries m) p (sort_entries-All P m h)

  -- Every entry is what its key holds.
  abbrev pub Holds : Map Bytes V → Bytes × V → Type 0
  Holds m e = lookup e.0 m ≡ some e.1

  weaken :
      (k : Bytes) (v : V) (m rest : Map Bytes V)
      → lookup k m ≡ none
      → All (Holds m) rest
      → All (Holds ((k, v) ∷ m)) rest
  unfolding lookup
  weaken k v m [] absent h = tt
  weaken k v m ((j, w) ∷ rest) absent (p, h) = (other, weaken k v m rest absent h)
    where
      other : lookup j ((k, v) ∷ m) ≡ some w
      other = ground (arith, ==_iff k j)

  pub All-Holds : (m : Map Bytes V) → Distinct m → All (Holds m) m
  unfolding lookup
  All-Holds [] d = tt
  All-Holds ((k, v) ∷ m) (absent, d) =
      (ground (arith, ==_iff k k), weaken k v m m absent (All-Holds m d))
