-- ===== src/Transport/Framer.antt =====
-- crates/bluez-transport/src/framer.rs: the length-driven `FrameReader`.
pub mod Steps
pub mod Invariant
pub mod Delivery
pub mod Behind
use hass_sma_rs.Prelude.{
  ℕ, zero, suc, ◌+◌, ◌*◌, List, [], ◌∷◌, ◌++◌, Bool, true, false, ◌&&◌, Option, none, some, leb,
  ◌==◌, if◌then◌else◌, length, get_or, drop,
}
use hass_sma_rs.Prelude.Words.{read_u16}
use hass_sma_rs.Protocol.Constants.{frame_delimiter}
use hass_sma_rs.Protocol.Frame.{header_cks}

abbrev pub header_len : ℕ
header_len = 4

abbrev pub min_frame_len : ℕ
min_frame_len = 18

abbrev pub max_frame_len : ℕ
max_frame_len = 2048

pub record FrameReader : Type 0 where
  pub in_progress : List ℕ
  pub expected_len : Option ℕ
  pub completed : List (List ℕ)

unfoldable pub new : FrameReader
new = record { in_progress = []; expected_len = none; completed = [] }

-- The length that the four header bytes declare, if the header is valid.
unfoldable pub header_length : List ℕ → Option ℕ
header_length h =
    let len_lo = get_or h 1 0 in
    let len_hi = get_or h 2 0 in
    let declared = len_lo + 256 * len_hi in
    if get_or h 3 0 == header_cks len_lo len_hi
      && leb min_frame_len declared
      && leb declared max_frame_len
    then some declared
    else none

-- A run over bytes, with `none` for a recursion that ran out of fuel.
pub push_all : (FrameReader → ℕ → Option FrameReader) → FrameReader → List ℕ → Option FrameReader
push_all step r [] = some r
push_all step r (b ∷ bs) = elim (step r b) [ none ↦ none | some r' ↦ push_all step r' bs ]

-- The header is not parsed yet. An invalid one loses its first byte, and the other three are
-- replayed.
pub grow_header :
    (FrameReader → List ℕ → Option FrameReader) → FrameReader → List ℕ → Option FrameReader
grow_header replay r grown =
    if length grown == header_len
    then elim (header_length grown) [
      | none ↦ replay (record r { in_progress = []; expected_len = none }) (drop 1 grown)
      | some declared ↦ some (record r { in_progress = grown; expected_len = some declared })
    ]
    else some (record r { in_progress = grown })

pub grow_body : FrameReader → ℕ → List ℕ → FrameReader
grow_body r want grown =
    if leb want (length grown)
    then record { in_progress = []; expected_len = none; completed = r.completed ++ grown ∷ [] }
    else record r { in_progress = grown }

pub grow :
    (FrameReader → List ℕ → Option FrameReader)
    → FrameReader
    → Option ℕ
    → List ℕ
    → Option FrameReader
unfolding grow_header grow_body
grow replay r none grown = grow_header replay r grown
grow replay r (some want) grown = some (grow_body r want grown)

-- The body of `push_byte`, by the bytes in progress; `replay` is the loop over its recursive calls.
pub push_step :
    (FrameReader → List ℕ → Option FrameReader) → FrameReader → List ℕ → ℕ → Option FrameReader
unfolding grow
push_step replay r [] b =
    some (if b == frame_delimiter then record r { in_progress = b ∷ [] } else r)
push_step replay r (p ∷ ps) b = grow replay r r.expected_len ((p ∷ ps) ++ b ∷ [])

pub push_byte_fuel : ℕ → FrameReader → ℕ → Option FrameReader
unfolding push_all push_step
push_byte_fuel zero r b = none
push_byte_fuel (suc fuel) r b = push_step (push_all (push_byte_fuel fuel)) r r.in_progress b

-- A replay is of three bytes, too few for another header, so a recursion of depth two is enough.
unfoldable pub push_byte : FrameReader → ℕ → Option FrameReader
push_byte = push_byte_fuel 2

unfoldable pub push : FrameReader → List ℕ → Option FrameReader
unfolding push_byte push_byte_fuel header_length
push = push_all push_byte

pop : FrameReader → List (List ℕ) → Option (List ℕ) × FrameReader
pop r [] = (none, r)
pop r (f ∷ fs) = (some f, record r { completed = fs })

unfoldable pub pop_frame : FrameReader → Option (List ℕ) × FrameReader
unfolding pop
pop_frame r = pop r r.completed

has_any : List (List ℕ) → Bool
has_any [] = false
has_any (f ∷ fs) = true

unfoldable pub has_frame : FrameReader → Bool
unfolding has_any
has_frame r = has_any r.completed
