-- ===== src/Transport/Rfcomm/Address.antt =====
-- crates/bluez-transport/src/rfcomm.rs: Bluetooth addresses as text. A text is its bytes.
use hass_sma_rs.Prelude.{
  ℕ, ◌+◌, ◌-◌, ◌*◌, ◌/◌, ◌%◌, List, [], ◌∷◌, ◌++◌, ◌&&◌, Option, none, some, leb, ltb, ◌==◌, ◌!=◌,
  if◌then◌else◌, length, get_or,
}
use mathlib.Core.Option
use hass_sma_rs.Protocol.Mac.{Mac}

abbrev pub colon : ℕ
colon = 58

-- `str::split`: the parts between the separators, at least one.
abbrev pub prepend : ℕ → List (List ℕ) → List (List ℕ)
prepend c [] = (c ∷ []) ∷ []
prepend c (part ∷ parts) = (c ∷ part) ∷ parts

unfoldable pub split : ℕ → List ℕ → List (List ℕ)
split sep [] = [] ∷ []
split sep (c ∷ cs) = let rest = split sep cs in if c == sep then [] ∷ rest else prepend c rest

unfoldable pub hex_digit : ℕ → Option ℕ
hex_digit c =
    if leb 48 c && leb c 57
    then some (c - 48)
    else if leb 65 c && leb c 70
    then some (c - 55)
    else if leb 97 c && leb c 102
    then some (c - 87)
    else none

-- `u8::from_str_radix(p, 16)`: an optional sign, then at least one digit, and no overflow.
abbrev pub next_digit : ℕ → Option ℕ → Option ℕ
next_digit acc none = none
next_digit acc (some d) = if leb (acc * 16 + d) 255 then some (acc * 16 + d) else none

unfoldable pub from_digits : Option ℕ → List ℕ → Option ℕ
unfolding hex_digit
from_digits none cs = none
from_digits (some acc) [] = some acc
from_digits (some acc) (c ∷ cs) = from_digits (next_digit acc (hex_digit c)) cs

unfoldable pub from_str_radix : List ℕ → Option ℕ
unfolding from_digits
from_str_radix [] = none
from_str_radix (c ∷ []) = from_digits (some 0) (c ∷ [])
from_str_radix (c ∷ d ∷ cs) =
    if c == 43 then from_digits (some 0) (d ∷ cs) else from_digits (some 0) (c ∷ d ∷ cs)

-- The loop over the parts, up to the first that is no byte.
abbrev pub with_byte : Option ℕ → Option (List ℕ) → Option (List ℕ)
with_byte none bs = none
with_byte (some b) none = none
with_byte (some b) (some bs) = some (b ∷ bs)

unfoldable pub parse_parts : List (List ℕ) → Option (List ℕ)
unfolding from_str_radix
parse_parts [] = some []
parse_parts (p ∷ ps) = with_byte (from_str_radix p) (parse_parts ps)

-- `out[5 - i]` is the byte of part `i`.
abbrev pub in_wire_order : List ℕ → Mac
in_wire_order bs = record {
  b0 = get_or bs 5 0;
  b1 = get_or bs 4 0;
  b2 = get_or bs 3 0;
  b3 = get_or bs 2 0;
  b4 = get_or bs 1 0;
  b5 = get_or bs 0 0;
}

unfoldable pub parse_bt_mac : List ℕ → Option Mac
unfolding split parse_parts
parse_bt_mac s =
    let parts = split colon s in
    if length parts != 6 then none else Option.map in_wire_order (parse_parts parts)

-- `{:02X}`
abbrev pub upper_digit : ℕ → ℕ
upper_digit d = if ltb d 10 then d + 48 else d + 55

abbrev pub upper_hex : ℕ → List ℕ
upper_hex b = upper_digit (b / 16) ∷ upper_digit (b % 16) ∷ []

unfoldable pub format_bt_mac : Mac → List ℕ
format_bt_mac m =
    upper_hex m.b5
    ++ colon
      ∷ (upper_hex m.b4
          ++ colon
            ∷ (upper_hex m.b3
                ++ colon ∷ (upper_hex m.b2 ++ colon ∷ (upper_hex m.b1 ++ colon ∷ upper_hex m.b0))))
