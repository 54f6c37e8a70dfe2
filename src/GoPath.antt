-- ===== src/GoPath.antt =====
-- Go's `path.Split` and `path.Base`, on the bytes of a path.
use smarthouse.Prelude.{
  ℕ, ◌≡◌, ◌≢◌, refl, Bool, true, false, [], ◌∷◌, ◌++◌, Bytes, codes, nat_eq, if◌then◌else◌, arith,
  All, ◌&&◌, ap, ◌∙◌,
}

abbrev pub slash : ℕ
slash = b'/'

abbrev pub is_empty : Bytes → Bool
is_empty [] = true
is_empty (c ∷ s) = false

-- path.Split: everything up to the last slash, with it, and the rest.
unfoldable pub split_path : Bytes → Bytes × Bytes
split_path [] = ([], [])
split_path (c ∷ s) =
    let (dir, file) = split_path s in
    if is_empty dir
    then (if nat_eq c slash then (c ∷ [], file) else ([], c ∷ file))
    else (c ∷ dir, file)

-- The path without its trailing slashes.
unfoldable pub strip_slashes : Bytes → Bytes
strip_slashes [] = []
strip_slashes (c ∷ s) =
    let rest = strip_slashes s in if is_empty rest && nat_eq c slash then [] else c ∷ rest

or_slash : Bytes → Bytes
or_slash [] = codes "/"
or_slash (c ∷ s) = c ∷ s

-- path.Base
unfoldable pub base : Bytes → Bytes
unfolding split_path strip_slashes or_slash
base [] = codes "."
base (c ∷ s) = or_slash (split_path (strip_slashes (c ∷ s))).1

-- A path element: not empty, and without a slash.
abbrev pub NoSlash : Bytes → Type 0
NoSlash = All (λ c. c ≢ slash)

split_path-NoSlash : (s : Bytes) → NoSlash s → split_path s ≡ ([], s)
unfolding split_path
split_path-NoSlash [] n = refl
split_path-NoSlash (c ∷ s) (n, ns) = ground (arith, split_path-NoSlash s ns)

is_empty-append : (d : Bytes) (c : ℕ) (s : Bytes) → is_empty (d ++ c ∷ s) ≡ false
is_empty-append [] c s = refl
is_empty-append (b ∷ d) c s = refl

-- What stands behind a last slash is split off.
pub split_path-append :
    (d f : Bytes) → NoSlash f → split_path (d ++ slash ∷ f) ≡ (d ++ slash ∷ [], f)
unfolding split_path
split_path-append [] f n = ground (arith, split_path-NoSlash f n)
split_path-append (c ∷ d) f n = ground (arith, split_path-append d f n, is_empty-append d slash [])

strip_slashes-slash : (p : Bytes) → strip_slashes (p ++ slash ∷ []) ≡ strip_slashes p
unfolding strip_slashes
strip_slashes-slash [] = refl
strip_slashes-slash (c ∷ p) = ground (arith, strip_slashes-slash p)

strip_slashes-NoSlash : (s : Bytes) → NoSlash s → strip_slashes s ≡ s
unfolding strip_slashes
strip_slashes-NoSlash [] n = refl
strip_slashes-NoSlash (c ∷ s) (n, ns) = ground (arith, strip_slashes-NoSlash s ns)

strip_slashes-append :
    (d : Bytes) (c : ℕ) (s : Bytes)
    → NoSlash (c ∷ s)
    → strip_slashes (d ++ slash ∷ c ∷ s) ≡ d ++ slash ∷ c ∷ s
unfolding strip_slashes
strip_slashes-append [] c s n = let same = strip_slashes-NoSlash (c ∷ s) n in ground (arith, same)
strip_slashes-append (b ∷ d) c s n =
    ground (arith, strip_slashes-append d c s n, is_empty-append d slash (c ∷ s))

-- The last element of a directory that ends in a slash.
pub base-append :
    (b : ℕ) (d : Bytes) (c : ℕ) (s : Bytes)
    → NoSlash (c ∷ s)
    → base ((b ∷ d ++ slash ∷ c ∷ s) ++ slash ∷ []) ≡ c ∷ s
unfolding base
base-append b d c s n =
    ap (λ p. or_slash (split_path p).1)
      (strip_slashes-slash (b ∷ d ++ slash ∷ c ∷ s) ∙ strip_slashes-append (b ∷ d) c s n)
    ∙ ap (λ (q : Bytes × Bytes). or_slash q.1) (split_path-append (b ∷ d) (c ∷ s) n)

-- The last element of a path that does not end in a slash.
pub base-element :
    (b : ℕ) (d : Bytes) (c : ℕ) (s : Bytes)
    → NoSlash (c ∷ s)
    → base (b ∷ d ++ slash ∷ c ∷ s) ≡ c ∷ s
unfolding base
base-element b d c s n =
    ap (λ p. or_slash (split_path p).1) (strip_slashes-append (b ∷ d) c s n)
    ∙ ap (λ (q : Bytes × Bytes). or_slash q.1) (split_path-append (b ∷ d) (c ∷ s) n)
