-- ===== src/Prelude/Texts.antt =====
-- Numbers printed in decimal, with leading zeros where a width asks for them.
use Prim.Native.String.{String}
use Prim.Native.String
use Prim.Native.Nat.{ℕ, zero, suc, ◌/◌, ◌%◌, ◌^◌}
use mathlib.Core.Bool.{◌&&◌}
use mathlib.Core.List.{[], ◌∷◌}
use hass_sma_rs.Prelude.Lists.{get_or}
use hass_sma_rs.Prelude.Tests.{ltb, if◌then◌else◌}

infixr 40 ◌<>◌
abbrev pub ◌<>◌ : String → String → String
s <> t = String.◌++◌ s t

abbrev pub digit : ℕ → String
digit d = get_or ("0" ∷ "1" ∷ "2" ∷ "3" ∷ "4" ∷ "5" ∷ "6" ∷ "7" ∷ "8" ∷ "9" ∷ []) d ""

-- The digits of `n` in front of a text. The numbers of the program have 64 bits, which is at most
-- twenty digits.
unfoldable pub digits : ℕ → ℕ → String → String
digits zero n rest = rest
digits (suc fuel) n rest =
    let longer = digits fuel (n / 10) (digit (n % 10) <> rest) in
    if ltb n 10 then digit n <> rest else longer

unfoldable pub decimal : ℕ → String
unfolding digits
decimal n = digits 20 n ""

-- `{:0w$}` of the number.
unfoldable pub padded : ℕ → ℕ → String
unfolding decimal
padded zero n = decimal n
padded (suc w) n =
    let narrower = padded w n in if ltb n (10 ^ w) && ltb 0 w then "0" <> narrower else decimal n
