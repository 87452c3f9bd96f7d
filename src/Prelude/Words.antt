-- ===== src/Prelude/Words.antt =====
-- Bytes, and the little-endian words of the `byteorder` crate.
use Prim.Native.Nat.{ℕ, ◌+◌, ◌*◌, ◌/◌, ◌%◌, ◌<◌}
use mathlib.Core.Path.{◌≡◌}
use mathlib.Core.List.{List, ◌∷◌}
use native.Mathlib.Omega.{arith}
use hass_sma_rs.Prelude.Lists.{get_or}

abbrev pub IsByte : ℕ → Type 0
IsByte b = b < 256

abbrev pub IsU16 : ℕ → Type 0
IsU16 v = v < 65536

abbrev pub IsU32 : ℕ → Type 0
IsU32 v = v < 4294967296

abbrev pub IsU64 : ℕ → Type 0
IsU64 v = v < 18446744073709551616

-- `LittleEndian::read_u16`, on a slice of two bytes.
abbrev pub read_u16 : List ℕ → ℕ
read_u16 bs = get_or bs 0 0 + 256 * get_or bs 1 0

abbrev pub read_u32 : List ℕ → ℕ
read_u32 bs = get_or bs 0 0 + 256 * get_or bs 1 0 + 65536 * get_or bs 2 0 + 16777216 * get_or bs 3 0

-- `to_le_bytes` of a `u16` and of a `u32`, in front of `rest`.
abbrev pub u16_bytes : ℕ → List ℕ → List ℕ
u16_bytes v rest = (v % 256) ∷ (v / 256 % 256) ∷ rest

abbrev pub u32_bytes : ℕ → List ℕ → List ℕ
u32_bytes v rest = (v % 256) ∷ (v / 256 % 256) ∷ (v / 65536 % 256) ∷ (v / 16777216 % 256) ∷ rest

pub u16_of_bytes : (v : ℕ) → IsU16 v → v % 256 + 256 * (v / 256 % 256) ≡ v
u16_of_bytes v h = omega arith

pub u32_of_bytes :
    (v : ℕ)
    → IsU32 v
    → v % 256 + 256 * (v / 256 % 256) + 65536 * (v / 65536 % 256) + 16777216 * (v / 16777216 % 256)
      ≡ v
u32_of_bytes v h = omega arith
