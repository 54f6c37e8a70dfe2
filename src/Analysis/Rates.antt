-- ===== src/Analysis/Rates.antt =====
-- analysis/heatloss-analysis.go: float32 numbers, the statistics of a list of them, and the heat that a
-- room holds. float32 arithmetic is an argument.
use smarthouse.Prelude.{
  ◌/◌, ◌%◌, ◌-◌, ℕ, zero, suc, ℤ, pos, leb, List, [], ◌∷◌, Bytes, codes, bytes_eq, length, Bool,
  true, false, if◌then◌else◌, Outcome, returned, panicked, ◌>>=◌, nat_eq,
}

-- A float32, as its 32 bits.
abbrev pub Float32 : Type 0
Float32 = ℕ

pub record Float32Ops : Type 0 where
  pub add : Float32 → Float32 → Float32
  pub sub : Float32 → Float32 → Float32
  pub mul : Float32 → Float32 → Float32
  pub div : Float32 → Float32 → Float32
  -- float32(n)
  pub of_int : ℤ → Float32
  -- x < y and x == y
  pub less : Float32 → Float32 → Bool
  pub same : Float32 → Float32 → Bool
  -- total + math.Pow(float64(x), 2), on the 64 bits of `total`
  pub add_square : ℕ → Float32 → ℕ
  -- float32(x) of a float64, and float32(math.Sqrt(float64(x)))
  pub narrow : ℕ → Float32
  pub root : Float32 → Float32

-- -1, -127, 0.0625, 2 and 0 as float32.
abbrev pub minus_one32 : Float32
minus_one32 = 0xbf800000

abbrev pub no_reading : Float32
no_reading = 0xc2fe0000

abbrev pub sixteenth : Float32
sixteenth = 0x3d800000

abbrev two32 : Float32
two32 = 0x40000000

-- numbers[i]
abbrev pub at {ℓ} : {A : Type ℓ} → List A → ℕ → Outcome A
at [] i = panicked
at (x ∷ xs) zero = returned x
at (x ∷ xs) (suc i) = at xs i

module _ (f : Float32Ops) where
  -- The loops of sum, min and max.
  abbrev sum_from : Float32 → List Float32 → Float32
  sum_from total [] = total
  sum_from total (x ∷ xs) = sum_from (f.add total x) xs

  abbrev pub min_from : Float32 → List Float32 → Float32
  min_from low [] = low
  min_from low (x ∷ xs) = min_from (if f.less x low then x else low) xs

  abbrev pub max_from : Float32 → List Float32 → Float32
  max_from high [] = high
  max_from high (x ∷ xs) = max_from (if f.less high x then x else high) xs

  unfoldable pub sum : List Float32 → Float32
  sum numbers = sum_from 0 numbers

  -- `numbers[0]` panics on none.
  unfoldable pub min : List Float32 → Outcome Float32
  min [] = panicked
  min (x ∷ xs) = returned (min_from x (x ∷ xs))

  unfoldable pub max : List Float32 → Outcome Float32
  max [] = panicked
  max (x ∷ xs) = returned (max_from x (x ∷ xs))

  -- The element in the middle, of a list that is not sorted first.
  unfoldable pub median : List Float32 → Outcome Float32
  median numbers = do
    let middle = length numbers / 2
    result ← at numbers middle
    let even = at numbers (middle - 1) >>= λ before. returned (f.div (f.add result before) two32) in
        if nat_eq (length numbers % 2) 0 then even else returned result

  -- The loop of stdDev.
  abbrev squares_from : ℕ → List Float32 → Float32 → ℕ
  squares_from total [] mean = total
  squares_from total (x ∷ xs) mean = squares_from (f.add_square total (f.sub x mean)) xs mean

  -- stdDev
  unfoldable pub std_dev : List Float32 → Float32 → Float32
  std_dev numbers mean =
      if leb (length numbers) 1
      then 0
      else f.root
          (f.div (f.narrow (squares_from 0 numbers mean)) (f.of_int (pos (length numbers - 1))))

  -- checkTransferRates, as whether it gives "*".
  unfoldable pub check_transfer_rates : List Float32 → Bool
  check_transfer_rates [] = true
  check_transfer_rates (x ∷ xs) = if f.less 0 x then false else check_transfer_rates xs

-- specific_heat: 0 for a node that the table lacks.
unfoldable pub specific_heat : Float32Ops → Bytes → Float32
specific_heat f node =
    let of_room =
      λ (volume : Float32). f.mul (f.mul (f.mul volume 0x3f9ccccd) 0x3f80c49c) 0x447a0000 in
    if bytes_eq node (codes "8")
    then of_room 0x41bdba5e
    else if bytes_eq node (codes "2")
    then of_room 0x41df9ba6
    else if bytes_eq node (codes "7")
    then of_room 0x41a651ec
    else if bytes_eq node (codes "9")
    then of_room 0x424526e9
    else 0
