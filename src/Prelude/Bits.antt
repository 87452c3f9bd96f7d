-- ===== src/Prelude/Bits.antt =====
-- Bit operations on bytes and on 16-bit words, each compared with its arithmetic at every value.
use Prim.Native.Nat.{ℕ, zero, suc, ◌+◌, ◌%◌, ◌<◌, bit_and, bit_or, bit_xor}
use mathlib.Core.Path.{◌≡◌, refl}
use mathlib.Core.Bool.{Bool, true, false}
use native.Mathlib.Omega.{arith}
use hass_sma_rs.Prelude.Tests.{◌==◌, if◌then◌else◌}

module _ (f g : ℕ → ℕ) where
  -- `f` and `g` give the same at the numbers below the bound.
  unfoldable pub agree : ℕ → Bool
  agree zero = true
  agree (suc bound) = let below = agree bound in if f bound == g bound then below else false

  pub agree_sound : (bound : ℕ) → agree bound ≡ true → (v : ℕ) → v < bound → f v ≡ g v
  unfolding agree
  agree_sound zero same v small = absurd (omega arith)
  agree_sound (suc bound) same v small =
      let earlier : agree bound ≡ true → v < bound → f v ≡ g v =
        λ (before : agree bound ≡ true) (lt : v < bound). agree_sound bound before v lt in
      ground arith

-- `(b ^ 0x20) ^ 0x20`, the stuffing mask applied twice.
pub toggle_twice : (b : ℕ) → b < 256 → bit_xor (bit_xor b 0x20) 0x20 ≡ b
unfolding agree
toggle_twice = agree_sound (λ b. bit_xor (bit_xor b 0x20) 0x20) (λ b. b) 256 refl

-- `(id | 0x8000) & !0x8000` keeps the low fifteen bits.
pub packet_bit : (v : ℕ) → v < 65536 → bit_and (bit_or v 0x8000) 0x7fff ≡ v % 32768
unfolding agree
packet_bit = agree_sound (λ v. bit_and (bit_or v 0x8000) 0x7fff) (λ v. v % 32768) 65536 refl

pub bit_or-packet_bit : (v : ℕ) → v < 65536 → bit_or v 0x8000 ≡ v % 32768 + 32768
unfolding agree
bit_or-packet_bit = agree_sound (λ v. bit_or v 0x8000) (λ v. v % 32768 + 32768) 65536 refl

-- `v & 0xff` is the low byte.
pub low_byte : (v : ℕ) → v < 65536 → bit_and v 0xff ≡ v % 256
unfolding agree
low_byte = agree_sound (λ v. bit_and v 0xff) (λ v. v % 256) 65536 refl
