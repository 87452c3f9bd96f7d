-- ===== src/Protocol/Stuffing.antt =====
-- `stuff` and `unstuff` of crates/sma-bt-protocol/src/frame.rs.
pub mod RoundTrip
use hass_sma_rs.Prelude.{
  ℕ, List, [], ◌∷◌, Bool, true, false, ◌||◌, bit_xor, ◌==◌, if◌then◌else◌, Result, ok, err, ◌>>=◌,
}
use hass_sma_rs.Protocol.Constants.{stuff_bytes, stuff_escape, stuff_xor}

pub data ParseError : Type 0 where
  too_short : ℕ → ℕ → ParseError
  missing_start : ℕ → ParseError
  missing_end : ℕ → ParseError
  length_mismatch : ℕ → ℕ → ParseError
  header_checksum : ℕ → ℕ → ParseError
  truncated_escape : ParseError

-- `slice::contains`.
abbrev pub contains : List ℕ → ℕ → Bool
contains [] b = false
contains (x ∷ xs) b = x == b || contains xs b

unfoldable pub stuff : List ℕ → List ℕ
stuff [] = []
stuff (b ∷ bs) =
    let rest = stuff bs in
    if contains stuff_bytes b then stuff_escape ∷ bit_xor b stuff_xor ∷ rest else b ∷ rest

-- `out.push(b)` before the rest of the loop.
abbrev pub push_first : ℕ → Result ParseError (List ℕ) → Result ParseError (List ℕ)
push_first b r = r >>= λ out. ok (b ∷ out)

-- The iterator is the list of what is left; an escape takes a second byte from it.
unfoldable pub unstuff : List ℕ → Result ParseError (List ℕ)
unstuff [] = ok []
unstuff (b ∷ []) = if b == stuff_escape then err truncated_escape else ok (b ∷ [])
unstuff (b ∷ n ∷ rest) = elim (b == stuff_escape) [
  | true ↦ push_first (bit_xor n stuff_xor) (unstuff rest)
  | false ↦ push_first b (unstuff (n ∷ rest))
]
