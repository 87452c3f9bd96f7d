-- ===== src/Protocol/Fcs.antt =====
-- crates/sma-bt-protocol/src/fcs.rs: the table-driven FCS-16.
pub mod Reference
use hass_sma_rs.Prelude.{
  ℕ, zero, suc, ◌+◌, ◌/◌, List, [], ◌∷◌, bit_and, bit_xor, get_or, ◌!=◌, if◌then◌else◌,
}
use mathlib.Core.List.{foldl}

-- One round of the inner loop of `FCS_TAB`: `>> 1` is `/ 2`.
unfoldable pub fcs_step : ℕ → ℕ
fcs_step v = if bit_and v 1 != 0 then bit_xor (v / 2) 0x8408 else v / 2

-- `while i < 8`, on the rounds left.
unfoldable pub fcs_steps : ℕ → ℕ → ℕ
unfolding fcs_step
fcs_steps zero v = v
fcs_steps (suc n) v = fcs_steps n (fcs_step v)

-- `while b < 256`, on the entries left.
unfoldable pub table_from : ℕ → ℕ → List ℕ
unfolding fcs_steps
table_from zero b = []
table_from (suc n) b = fcs_steps 8 b ∷ table_from n (b + 1)

unfoldable pub fcs_tab : List ℕ
unfolding table_from
fcs_tab = table_from 256 0

pub record Fcs16 : Type 0 where
  pub state : ℕ

pub new : Fcs16
new = record { state = 0xffff }

-- `>> 8` is `/ 256`.
unfoldable pub update : Fcs16 → ℕ → Fcs16
unfolding fcs_tab
update f byte = record {
  state = bit_xor (f.state / 256) (get_or fcs_tab (bit_and (bit_xor f.state byte) 0xff) 0);
}

pub update_slice : Fcs16 → List ℕ → Fcs16
update_slice = foldl update

pub finalize : Fcs16 → ℕ
finalize f = bit_xor f.state 0xffff

-- The convenience function `fcs::compute`.
unfoldable pub compute : List ℕ → ℕ
unfolding new update_slice finalize
compute bytes = finalize (update_slice new bytes)
