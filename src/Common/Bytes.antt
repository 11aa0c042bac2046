-- ===== src/Common/Bytes.antt =====
-- Little-endian integers in byte sequences, as src/config/AtomicConfigStore.cpp writes and reads them.
use Prim.Native.Nat.{ℕ, ◌+◌, ◌*◌, ◌/◌, ◌^◌, ◌<◌}
use mathlib.Core.Path.{◌≡◌}
use mathlib.Core.List.{List, [], ◌∷◌}
use native.Mathlib.Omega.{arith}
use power_monitor_sensor.Common.Tests.{u8}
use power_monitor_sensor.Common.Lists.{get_or}

-- The bytes that appendU16, appendU32 and appendU64 push.
abbrev pub u16_bytes : ℕ → List ℕ
u16_bytes v = u8 v ∷ u8 (v / 2 ^ 8) ∷ []

abbrev pub u32_bytes : ℕ → List ℕ
u32_bytes v = u8 v ∷ u8 (v / 2 ^ 8) ∷ u8 (v / 2 ^ 16) ∷ u8 (v / 2 ^ 24) ∷ []

abbrev pub u64_bytes : ℕ → List ℕ
u64_bytes v =
    u8 v
    ∷ u8 (v / 2 ^ 8)
    ∷ u8 (v / 2 ^ 16)
    ∷ u8 (v / 2 ^ 24)
    ∷ u8 (v / 2 ^ 32)
    ∷ u8 (v / 2 ^ 40)
    ∷ u8 (v / 2 ^ 48)
    ∷ u8 (v / 2 ^ 56)
    ∷ []

-- An element of a sequence is a uint8; the readers test the length first.
abbrev pub byte_at : List ℕ → ℕ → ℕ
byte_at input i = u8 (get_or input i 0)

-- The shifted bytes have no bit in common, so `|` adds them.
abbrev pub u16_at : List ℕ → ℕ → ℕ
u16_at input i = byte_at input i + 2 ^ 8 * byte_at input (i + 1)

abbrev pub u32_at : List ℕ → ℕ → ℕ
u32_at input i =
    byte_at input i
    + 2 ^ 8 * byte_at input (i + 1)
    + 2 ^ 16 * byte_at input (i + 2)
    + 2 ^ 24 * byte_at input (i + 3)

abbrev pub u64_at : List ℕ → ℕ → ℕ
u64_at input i =
    byte_at input i
    + 2 ^ 8 * byte_at input (i + 1)
    + 2 ^ 16 * byte_at input (i + 2)
    + 2 ^ 24 * byte_at input (i + 3)
    + 2 ^ 32 * byte_at input (i + 4)
    + 2 ^ 40 * byte_at input (i + 5)
    + 2 ^ 48 * byte_at input (i + 6)
    + 2 ^ 56 * byte_at input (i + 7)

pub u16_at-bytes : (v : ℕ) → v < 2 ^ 16 → u16_at (u16_bytes v) 0 ≡ v
u16_at-bytes v h = omega arith

pub u32_at-bytes : (v : ℕ) → v < 2 ^ 32 → u32_at (u32_bytes v) 0 ≡ v
u32_at-bytes v h = omega arith

pub u64_at-bytes : (v : ℕ) → v < 2 ^ 64 → u64_at (u64_bytes v) 0 ≡ v
u64_at-bytes v h = omega arith

pub u64_at-lt : (input : List ℕ) (i : ℕ) → u64_at input i < 2 ^ 64
u64_at-lt input i = omega arith
