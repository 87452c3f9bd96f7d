-- ===== src/Prelude/Masks.antt =====
-- A mask bounds what it lets through.
use Prim.Native.Nat.{ℕ, zero, suc, ◌/◌, ◌%◌, ◌≤◌, ◌<◌, bit_and, bit_and-bitwise, digits, min}
use mathlib.Core.Path.{◌≡◌, ◌∙◌, subst, sym}
use native.Mathlib.Omega.{arith}

min_le : (a b : ℕ) → min a b ≤ b
min_le a b = ground arith

digits_le : (n a b : ℕ) → digits (λ b. zero) min n a b ≤ b
digits_le zero a b = omega arith
digits_le (suc n) zero b = omega arith
digits_le (suc n) (suc a) b =
    omega (arith, digits_le n (suc a / 2) (b / 2), min_le (suc a % 2) (b % 2))

pub bit_and_le : (a b : ℕ) → bit_and a b ≤ b
bit_and_le a b = subst (λ n. n ≤ b) (sym (bit_and-bitwise a b)) (digits_le a a b)

-- `v & 1`
pub bit_and_one : (v : ℕ) → bit_and v 1 ≡ v % 2
bit_and_one zero = bit_and-bitwise 0 1
bit_and_one (suc a) =
    bit_and-bitwise (suc a) 1
    ∙ omega (arith, digits_le a (suc a / 2) 0, min_one (suc a % 2) (omega arith))
  where
    min_one : (x : ℕ) → x < 2 → min x 1 ≡ x
    min_one x h = ground (arith, h)
