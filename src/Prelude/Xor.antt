-- ===== src/Prelude/Xor.antt =====
-- Exclusive or, digit by digit.
use Prim.Native.Nat.{
  ℕ, zero, suc, ◌+◌, ◌*◌, ◌/◌, ◌%◌, ◌≤◌, ◌<◌, bit_xor, bit_xor-bitwise, digits, differ,
}
use mathlib.Core.Path.{◌≡◌, refl, sym, ap, ◌∙◌}
use native.Mathlib.Omega.{arith}

abbrev xor_digits : ℕ → ℕ → ℕ → ℕ
xor_digits n a b = digits (λ b. b) differ n a b

-- More digits to go than the first number has do not matter.
xor_digits-fuel : (n m a b : ℕ) → a ≤ n → a ≤ m → xor_digits n a b ≡ xor_digits m a b
xor_digits-fuel zero zero a b h h' = refl
xor_digits-fuel zero (suc m) zero b h h' = refl
xor_digits-fuel zero (suc m) (suc a) b h h' = absurd (omega (arith, h))
xor_digits-fuel (suc n) zero zero b h h' = refl
xor_digits-fuel (suc n) zero (suc a) b h h' = absurd (omega (arith, h'))
xor_digits-fuel (suc n) (suc m) zero b h h' = refl
xor_digits-fuel (suc n) (suc m) (suc a) b h h' =
    ap (λ (x : ℕ). x * 2 + differ (suc a % 2) (b % 2))
      (xor_digits-fuel n m (suc a / 2) (b / 2) (omega (arith, h)) (omega (arith, h')))

pub zero_xor : (b : ℕ) → bit_xor 0 b ≡ b
zero_xor b = bit_xor-bitwise 0 b

-- The lowest digit and the rest.
pub bit_xor_halves : (a b : ℕ) → bit_xor a b ≡ bit_xor (a / 2) (b / 2) * 2 + differ (a % 2) (b % 2)
bit_xor_halves zero b =
    zero_xor b ∙ omega arith ∙ ap (λ (x : ℕ). x * 2 + b % 2) (sym (zero_xor (b / 2)))
bit_xor_halves (suc a) b =
    bit_xor-bitwise (suc a) b
    ∙ ap (λ (x : ℕ). x * 2 + differ (suc a % 2) (b % 2))
        (xor_digits-fuel a (suc a / 2) (suc a / 2) (b / 2) (omega arith) (omega arith)
          ∙ sym (bit_xor-bitwise (suc a / 2) (b / 2)))

differ_bit : (x y : ℕ) → x < 2 → y < 2 → differ x y < 2
differ_bit zero y hx hy = hy
differ_bit (suc x) zero hx hy = hx
differ_bit (suc x) (suc y) hx hy = differ_bit x y (omega (arith, hx)) (omega (arith, hy))

-- What holds of both digits holds of a number below two.
on_digit : (P : ℕ → Type 0) → P 0 → P 1 → (x : ℕ) → x < 2 → P x
on_digit P at_zero at_one zero h = at_zero
on_digit P at_zero at_one (suc zero) h = at_one
on_digit P at_zero at_one (suc (suc x)) h = absurd (omega (arith, h))

differ_swap : (x y z : ℕ) → x < 2 → y < 2 → z < 2 → differ (differ x y) z ≡ differ (differ x z) y
differ_swap x y z hx hy hz =
    on_digit (λ (x : ℕ). differ (differ x y) z ≡ differ (differ x z) y)
      (on_digit (λ (y : ℕ). differ y z ≡ differ z y)
        (on_digit (λ (z : ℕ). z ≡ differ z 0) refl refl z hz)
        (on_digit (λ (z : ℕ). differ 1 z ≡ differ z 1) refl refl z hz) y hy)
      (on_digit (λ (y : ℕ). differ (differ 1 y) z ≡ differ (differ 1 z) y)
        (on_digit (λ (z : ℕ). differ 1 z ≡ differ (differ 1 z) 0) refl refl z hz)
        (on_digit (λ (z : ℕ). z ≡ differ (differ 1 z) 1) refl refl z hz) y hy)
      x hx

pub xor_half : (a b : ℕ) → bit_xor a b / 2 ≡ bit_xor (a / 2) (b / 2)
xor_half a b =
    omega (arith, bit_xor_halves a b, differ_bit (a % 2) (b % 2) (omega arith) (omega arith))

pub xor_low : (a b : ℕ) → bit_xor a b % 2 ≡ differ (a % 2) (b % 2)
xor_low a b =
    omega (arith, bit_xor_halves a b, differ_bit (a % 2) (b % 2) (omega arith) (omega arith))

xor_zero_fuel : (n a : ℕ) → a ≤ n → bit_xor a 0 ≡ a
xor_zero_fuel n zero h = zero_xor 0
xor_zero_fuel zero (suc a) h = absurd (omega (arith, h))
xor_zero_fuel (suc n) (suc a) h = omega (
  arith,
  bit_xor_halves (suc a) 0,
  xor_zero_fuel n (suc a / 2) (omega (arith, h)),
  differ_zero (suc a % 2),
)
  where
    differ_zero : (x : ℕ) → differ x 0 ≡ x
    differ_zero zero = refl
    differ_zero (suc x) = refl

pub xor_zero : (a : ℕ) → bit_xor a 0 ≡ a
xor_zero a = xor_zero_fuel a a (omega arith)

xor_swap_fuel :
    (n a b c : ℕ) → a ≤ n → b ≤ n → c ≤ n → bit_xor (bit_xor a b) c ≡ bit_xor (bit_xor a c) b
xor_swap_fuel zero zero zero zero ha hb hc = refl
xor_swap_fuel zero (suc a) b c ha hb hc = absurd (omega (arith, ha))
xor_swap_fuel zero zero (suc b) c ha hb hc = absurd (omega (arith, hb))
xor_swap_fuel zero zero zero (suc c) ha hb hc = absurd (omega (arith, hc))
xor_swap_fuel (suc n) a b c ha hb hc =
    let halves =
      xor_swap_fuel n (a / 2) (b / 2) (c / 2) (omega (arith, ha)) (omega (arith, hb))
        (omega (arith, hc)) in
    let digits = differ_swap (a % 2) (b % 2) (c % 2) (omega arith) (omega arith) (omega arith) in
    sides a b c
    ∙ ap (λ (x : ℕ). x * 2 + differ (differ (a % 2) (b % 2)) (c % 2)) halves
    ∙ ap (λ (x : ℕ). bit_xor (bit_xor (a / 2) (c / 2)) (b / 2) * 2 + x) digits
    ∙ sym (sides a c b)
  where
    sides :
        (a b c : ℕ)
        → bit_xor (bit_xor a b) c
          ≡ bit_xor (bit_xor (a / 2) (b / 2)) (c / 2) * 2 + differ (differ (a % 2) (b % 2)) (c % 2)
    sides a b c =
        bit_xor_halves (bit_xor a b) c
        ∙ ap (λ (x : ℕ). bit_xor x (c / 2) * 2 + differ (bit_xor a b % 2) (c % 2)) (xor_half a b)
        ∙ ap (λ (x : ℕ). bit_xor (bit_xor (a / 2) (b / 2)) (c / 2) * 2 + differ x (c % 2))
            (xor_low a b)

pub xor_swap : (a b c : ℕ) → bit_xor (bit_xor a b) c ≡ bit_xor (bit_xor a c) b
xor_swap a b c = xor_swap_fuel (a + b + c) a b c (omega arith) (omega arith) (omega arith)

-- A byte leaves the digits above it alone.
pub xor_high : (a b : ℕ) → b < 256 → bit_xor a b / 256 ≡ a / 256
xor_high a b h =
    let a₁ = a / 2 / 2 / 2 / 2 in
    let b₁ = b / 2 / 2 / 2 / 2 in
    let none_left : b₁ / 2 / 2 / 2 / 2 ≡ 0 = omega (arith, h) in
    omega (
      arith,
      xor_half a b,
      xor_half (a / 2) (b / 2),
      xor_half (a / 2 / 2) (b / 2 / 2),
      xor_half (a / 2 / 2 / 2) (b / 2 / 2 / 2),
      xor_half a₁ b₁,
      xor_half (a₁ / 2) (b₁ / 2),
      xor_half (a₁ / 2 / 2) (b₁ / 2 / 2),
      xor_half (a₁ / 2 / 2 / 2) (b₁ / 2 / 2 / 2),
      ap (bit_xor (a₁ / 2 / 2 / 2 / 2)) none_left ∙ xor_zero (a₁ / 2 / 2 / 2 / 2),
    )
