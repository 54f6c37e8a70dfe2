-- ===== src/Solar/Registers.antt =====
-- solar/solar.go: reading and decoding registers (fetch, fetchU16, fetchS16, fetchU32 and
-- leRegistersToBeBytes). The Modbus client is an argument: a function on a state of its own, since the
-- line to the inverter may answer differently each time.
use smarthouse.Prelude.{
  ℕ, zero, suc, ◌+◌, ◌-◌, ◌*◌, ◌%◌, ℤ, pos, negsuc, Option, none, some, ◌∷◌, Bytes, ltb,
  if◌then◌else◌, Outcome, returned, panicked, ◌>>=◌,
}
use mathlib.Core.Option
use smarthouse.Float64.{Float64, FloatOps}

-- client.ReadInputRegisters(address, quantity): the bytes that came back, or an error.
abbrev pub Client : Type 0 → Type 0
Client S = ℕ → ℕ → S → Option Bytes × S

-- binary.BigEndian.Uint16, which indexes the second byte.
unfoldable pub uint16 : Bytes → Outcome ℕ
uint16 (a ∷ b ∷ rest) = returned (a * 256 + b)
uint16 _ = panicked

-- binary.Read of an int16; a short input is an error (`none`), not a panic.
unfoldable pub int16 : Bytes → Option ℤ
int16 (a ∷ b ∷ rest) =
    let v = a * 256 + b in some (if ltb v 32768 then pos v else negsuc (65535 - v))
int16 _ = none

-- binary.BigEndian.Uint32.
unfoldable pub uint32 : Bytes → Outcome ℕ
uint32 (a ∷ b ∷ c ∷ d ∷ rest) = returned (((a * 256 + b) * 256 + c) * 256 + d)
uint32 _ = panicked

-- leRegistersToBeBytes: the two registers change places, in the slice itself.
unfoldable pub le_registers_to_be_bytes : Bytes → Outcome Bytes
le_registers_to_be_bytes (a ∷ b ∷ c ∷ d ∷ rest) = returned (c ∷ d ∷ a ∷ b ∷ rest)
le_registers_to_be_bytes _ = panicked

-- start - 1 in uint16.
abbrev pub address : ℕ → ℕ
address start = (start + 65535) % 65536

module _ (f : FloatOps) where
  -- What the fetchers make of the bytes; `none` is an error.
  unfoldable pub decode_u16 : Option Bytes → Outcome (Option Float64)
  unfolding uint16
  decode_u16 none = returned none
  decode_u16 (some results) = do v ← uint16 results; returned (some (f.of_int (pos v)))

  unfoldable pub decode_s16 : Option Bytes → Outcome (Option Float64)
  unfolding int16
  decode_s16 none = returned none
  decode_s16 (some results) = returned (Option.map f.of_int (int16 results))

  unfoldable pub decode_u32 : Option Bytes → Outcome (Option Float64)
  unfolding uint32 le_registers_to_be_bytes
  decode_u32 none = returned none
  decode_u32 (some results) = do
    swapped ← le_registers_to_be_bytes results
    v ← uint32 swapped
    returned (some (f.of_int (pos v)))

module _ {S : Type 0} (read : Client S) where
  -- The loop of fetch, with so many attempts left. The test of the length sets `lasterr` only, which
  -- is not read on this path, so it has no effect.
  unfoldable pub attempts : ℕ → ℕ → ℕ → S → Option Bytes × S
  attempts zero start count s = (none, s)
  attempts (suc left) start count s =
      let (answer, s') = read (address start) count s in
      let again = attempts left start count s' in
      elim answer [ none ↦ again | some results ↦ (some results, s') ]

  -- fetch: one retry.
  unfoldable pub fetch : ℕ → ℕ → S → Option Bytes × S
  unfolding attempts
  fetch start count s = attempts 2 start count s

  module _ (f : FloatOps) where
    fetched :
        (Option Bytes → Outcome (Option Float64)) → Option Bytes × S → Outcome (Option Float64 × S)
    fetched decode (results, s) = do value ← decode results; returned (value, s)

    -- fetchU16, fetchS16 and fetchU32.
    unfoldable pub fetch_u16 : ℕ → S → Outcome (Option Float64 × S)
    unfolding decode_u16 fetched fetch
    fetch_u16 register s = fetched (decode_u16 f) (fetch register 1 s)

    unfoldable pub fetch_s16 : ℕ → S → Outcome (Option Float64 × S)
    unfolding decode_s16 fetched fetch
    fetch_s16 register s = fetched (decode_s16 f) (fetch register 1 s)

    unfoldable pub fetch_u32 : ℕ → S → Outcome (Option Float64 × S)
    unfolding decode_u32 fetched fetch
    fetch_u32 register s = fetched (decode_u32 f) (fetch register 2 s)
