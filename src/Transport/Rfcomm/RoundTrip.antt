-- ===== src/Transport/Rfcomm/RoundTrip.antt =====
-- An address that was printed is parsed back.
use hass_sma_rs.Prelude.{
  ℕ, ◌+◌, ◌*◌, ◌/◌, ◌%◌, ◌≤◌, ◌<◌, ◌≡◌, ◌∙◌, refl, List, [], ◌∷◌, ◌++◌, false, some, ◌==◌, le→leb,
  arith,
}
use hass_sma_rs.Prelude.Words.{IsByte}
use hass_sma_rs.Protocol.Mac.{Mac}
use hass_sma_rs.Transport.Rfcomm.Address.{
  colon, split, hex_digit, from_digits, from_str_radix, parse_parts, parse_bt_mac, upper_digit,
  upper_hex, format_bt_mac,
}

hex_digit-upper_digit : (d : ℕ) → d < 16 → hex_digit (upper_digit d) ≡ some d
unfolding hex_digit
hex_digit-upper_digit d h = ground arith

upper_digit_sign : (d : ℕ) → d < 16 → (upper_digit d == 43) ≡ false
upper_digit_sign d h = ground arith

upper_digit-colon : (d : ℕ) → d < 16 → (upper_digit d == colon) ≡ false
upper_digit-colon d h = ground arith

from_digits-step :
    (acc c d n : ℕ) (cs : List ℕ)
    → hex_digit c ≡ some d
    → acc * 16 + d ≡ n
    → n ≤ 255
    → from_digits (some acc) (c ∷ cs) ≡ from_digits (some n) cs
unfolding from_digits
from_digits-step acc c d n cs h e l = rw (h, from_digits, e, le→leb n 255 l)

from_digits-two :
    (d e : ℕ)
    → d < 16
    → e < 16
    → from_digits (some 0) (upper_digit d ∷ upper_digit e ∷ []) ≡ some (d * 16 + e)
from_digits-two d e hd he =
    from_digits-step 0 (upper_digit d) d d _ (hex_digit-upper_digit d hd) (omega arith)
      (omega arith)
    ∙ from_digits-step d (upper_digit e) e (d * 16 + e) [] (hex_digit-upper_digit e he) refl
        (omega arith)
    ∙ (unfold from_digits in refl)

from_str_radix-upper_hex : (b : ℕ) → IsByte b → from_str_radix (upper_hex b) ≡ some b
unfolding from_str_radix
from_str_radix-upper_hex b h =
    let high : b / 16 < 16 = omega arith in
    let low : b % 16 < 16 = omega arith in
    let whole : b / 16 * 16 + b % 16 ≡ b = omega arith in
    rw (upper_digit_sign (b / 16) high, from_digits-two (b / 16) (b % 16) high low, whole)

split-upper_hex :
    (b : ℕ) (rest : List ℕ)
    → IsByte b
    → split colon (upper_hex b ++ colon ∷ rest) ≡ upper_hex b ∷ split colon rest
unfolding split
split-upper_hex b rest h =
    rw (upper_digit-colon (b / 16) (omega arith), upper_digit-colon (b % 16) (omega arith))

split-last : (b : ℕ) → IsByte b → split colon (upper_hex b) ≡ upper_hex b ∷ []
unfolding split
split-last b h =
    rw (upper_digit-colon (b / 16) (omega arith), upper_digit-colon (b % 16) (omega arith))

-- The six bytes of an address that the kernel may be given.
pub record IsAddress (m : Mac) : Type 0 where
  pub byte0 : IsByte m.b0
  pub byte1 : IsByte m.b1
  pub byte2 : IsByte m.b2
  pub byte3 : IsByte m.b3
  pub byte4 : IsByte m.b4
  pub byte5 : IsByte m.b5

split-format_bt_mac :
    (m : Mac)
    → IsAddress m
    → split colon (format_bt_mac m)
      ≡ upper_hex m.b5
        ∷ upper_hex m.b4
        ∷ upper_hex m.b3
        ∷ upper_hex m.b2
        ∷ upper_hex m.b1
        ∷ upper_hex m.b0
        ∷ []
unfolding format_bt_mac
split-format_bt_mac m h = rw (
  split-upper_hex m.b5 _ h.byte5,
  split-upper_hex m.b4 _ h.byte4,
  split-upper_hex m.b3 _ h.byte3,
  split-upper_hex m.b2 _ h.byte2,
  split-upper_hex m.b1 _ h.byte1,
  split-last m.b0 h.byte0,
)

-- An address of six bytes is parsed back from its text.
pub parse_bt_mac-format_bt_mac : (m : Mac) → IsAddress m → parse_bt_mac (format_bt_mac m) ≡ some m
unfolding parse_bt_mac parse_parts
parse_bt_mac-format_bt_mac m h = rw (
  split-format_bt_mac m h,
  from_str_radix-upper_hex m.b5 h.byte5,
  from_str_radix-upper_hex m.b4 h.byte4,
  from_str_radix-upper_hex m.b3 h.byte3,
  from_str_radix-upper_hex m.b2 h.byte2,
  from_str_radix-upper_hex m.b1 h.byte1,
  from_str_radix-upper_hex m.b0 h.byte0,
)
