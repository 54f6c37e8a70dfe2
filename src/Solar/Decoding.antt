-- ===== src/Solar/Decoding.antt =====
-- What the fetchers of solar/solar.go make of the registers, and of answers of a wrong length.
use smarthouse.Prelude.{
  ℕ, zero, suc, ◌+◌, ◌-◌, ◌*◌, ◌/◌, ◌%◌, ◌<◌, ℤ, pos, negsuc, Option, none, some, [], ◌∷◌, ◌++◌,
  Bytes, returned, panicked, ◌≡◌, refl, arith, length,
}
use smarthouse.Float64.{Float64, FloatOps}
use smarthouse.Solar.Registers.{
  Client, int16, address, attempts, fetch, decode_u16, decode_s16, decode_u32, fetch_u16, fetch_s16,
  fetch_u32,
}

-- A register on the wire: high byte first.
abbrev pub word : ℕ → Bytes
word w = w / 256 ∷ w % 256 ∷ []

-- The 16-bit pattern of a signed number.
abbrev pub signed_word : ℤ → ℕ
signed_word (pos n) = n
signed_word (negsuc n) = 65535 - n

abbrev pub IsInt16 : ℤ → Type 0
IsInt16 (pos n) = n < 32768
IsInt16 (negsuc n) = n < 32768

module _ (f : FloatOps) where
  -- Each fetcher decodes what the inverter encodes: an unsigned register, a signed register, and a
  -- 32-bit number whose low register comes first.
  pub decode_registers :
      (v : ℕ) (z : ℤ) (lo hi : ℕ)
      → v < 65536
      → IsInt16 z
      → lo < 65536
      → hi < 65536
      → (decode_u16 f (some (word v)) ≡ returned (some (f.of_int (pos v))))
        × (decode_s16 f (some (word (signed_word z))) ≡ returned (some (f.of_int z)))
        × (decode_u32 f (some (word lo ++ word hi))
            ≡ returned (some (f.of_int (pos (hi * 65536 + lo)))))
  unfolding decode_u16 decode_s16 decode_u32
  decode_registers v z lo hi hv hz hlo hhi = (ground (arith, u), ground arith, ground (arith, d))
    where
      u : v / 256 * 256 + v % 256 ≡ v
      u = omega arith

      d : ((hi / 256 * 256 + hi % 256) * 256 + lo / 256) * 256 + lo % 256 ≡ hi * 65536 + lo
      d = omega arith

module _ (f : FloatOps) where
  short_u16 : (b : Bytes) → length b < 2 → decode_u16 f (some b) ≡ panicked
  unfolding decode_u16
  short_u16 [] h = refl
  short_u16 (a ∷ []) h = refl
  short_u16 (a ∷ b ∷ rest) h = absurd (omega arith)

  short_u32 : (b : Bytes) → length b < 4 → decode_u32 f (some b) ≡ panicked
  unfolding decode_u32
  short_u32 [] h = refl
  short_u32 (a ∷ []) h = refl
  short_u32 (a ∷ b ∷ []) h = refl
  short_u32 (a ∷ b ∷ c ∷ []) h = refl
  short_u32 (a ∷ b ∷ c ∷ d ∷ rest) h = absurd (omega arith)

short_int16 : (b : Bytes) → length b < 2 → int16 b ≡ none
unfolding int16
short_int16 [] h = refl
short_int16 (a ∷ []) h = refl
short_int16 (a ∷ b ∷ rest) h = absurd (omega arith)

-- An answer of the right length decodes.
module _ (f : FloatOps) where
  pub decode_u16_total :
      (o : Option Bytes)
      → ((b : Bytes) → o ≡ some b → length b ≡ 2)
      → (t : Option Float64) × (decode_u16 f o ≡ returned t)
  unfolding decode_u16
  decode_u16_total none h = (none, refl)
  decode_u16_total (some []) h = absurd (omega (arith, h [] refl))
  decode_u16_total (some (a ∷ [])) h = absurd (omega (arith, h (a ∷ []) refl))
  decode_u16_total (some (a ∷ b ∷ rest)) h = (_, refl)

  pub decode_s16_total : (o : Option Bytes) → (t : Option Float64) × (decode_s16 f o ≡ returned t)
  unfolding decode_s16
  decode_s16_total none = (none, refl)
  decode_s16_total (some b) = (_, refl)

  pub decode_u32_total :
      (o : Option Bytes)
      → ((b : Bytes) → o ≡ some b → length b ≡ 4)
      → (t : Option Float64) × (decode_u32 f o ≡ returned t)
  unfolding decode_u32
  decode_u32_total none h = (none, refl)
  decode_u32_total (some []) h = absurd (omega (arith, h [] refl))
  decode_u32_total (some (a ∷ [])) h = absurd (omega (arith, h (a ∷ []) refl))
  decode_u32_total (some (a ∷ b ∷ [])) h = absurd (omega (arith, h (a ∷ b ∷ []) refl))
  decode_u32_total (some (a ∷ b ∷ c ∷ [])) h = absurd (omega (arith, h (a ∷ b ∷ c ∷ []) refl))
  decode_u32_total (some (a ∷ b ∷ c ∷ d ∷ rest)) h = (_, refl)

module _ {S : Type 0} (read : Client S) where
  attempts_answered :
      (left start count : ℕ) (s s' : S) (b : Bytes)
      → read (address start) count s ≡ (some b, s')
      → attempts read (suc left) start count s ≡ (some b, s')
  unfolding attempts
  attempts_answered left start count s s' b e = ground arith

  attempts_failed :
      (left start count : ℕ) (s s' : S)
      → read (address start) count s ≡ (none, s')
      → attempts read (suc left) start count s ≡ attempts read left start count s'
  unfolding attempts
  attempts_failed left start count s s' e = ground arith

  -- An answer is one that the client gave.
  attempts_from_read :
      (left start count : ℕ) (s : S) (b : Bytes)
      → (attempts read left start count s).0 ≡ some b
      → (u : S) × ((read (address start) count u).0 ≡ some b)
  unfolding attempts
  attempts_from_read zero start count s b e = ground arith
  attempts_from_read (suc left) start count s b e =
      go (attempts_from_read left start count (read (address start) count s).1 b)
        (read (address start) count s).0 refl
    where
      go :
          ((attempts read left start count (read (address start) count s).1).0 ≡ some b
            → (u : S) × ((read (address start) count u).0 ≡ some b))
          → (o : Option Bytes) → (read (address start) count s).0 ≡ o
          → (u : S) × ((read (address start) count u).0 ≡ some b)
      go again none q = again (ground arith)
      go again (some c) q = (s, ground arith)

  -- Every answer has two bytes for each register.
  abbrev pub IsExact : Type 0
  IsExact =
      (start count : ℕ) (s : S) (b : Bytes) → (read start count s).0 ≡ some b → length b ≡ 2 * count

  pub fetch_exact :
      IsExact
      → (start count : ℕ) (s : S) (b : Bytes) → (fetch read start count s).0 ≡ some b
      → length b ≡ 2 * count
  unfolding fetch
  fetch_exact exact start count s b e =
      let (u, at) = attempts_from_read 2 start count s b e in exact (address start) count u b at

  -- fetch gives the client's first answer, whatever its length; a short one makes fetchU16 and fetchU32
  -- panic, and fetchS16 reports an error.
  pub short_answers :
      (f : FloatOps) (register : ℕ) (s s' : S) (b : Bytes)
      → ((count : ℕ)
          → read (address register) count s ≡ (some b, s')
          → fetch read register count s ≡ (some b, s'))
        × ((read (address register) 1 s ≡ (some b, s'))
            → length b < 2
            → (fetch_u16 read f register s ≡ panicked)
              × (fetch_s16 read f register s ≡ returned (none, s')))
        × ((read (address register) 2 s ≡ (some b, s'))
            → length b < 4
            → fetch_u32 read f register s ≡ panicked)
  unfolding fetch fetch_u16 fetch_s16 fetch_u32
  short_answers f register s s' b = (
    λ count e. attempts_answered 1 register count s s' b e,
    λ e short. (
      rw (attempts_answered 1 register 1 s s' b e) (rw (short_u16 f b short)),
      rw (attempts_answered 1 register 1 s s' b e) (rw (short_int16 b short)),
    ),
    λ e short. rw (attempts_answered 1 register 2 s s' b e) (rw (short_u32 f b short)),
  )
