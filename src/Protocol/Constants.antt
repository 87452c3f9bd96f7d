-- ===== src/Protocol/Constants.antt =====
-- crates/sma-bt-protocol/src/constants.rs, and the stuffing constants of lib.rs.
use hass_sma_rs.Prelude.{ℕ, List, [], ◌∷◌}

abbrev pub frame_delimiter : ℕ
frame_delimiter = 0x7e

abbrev pub bt_l2_signature : ℕ
bt_l2_signature = 0x656003ff

abbrev pub any_susy_id : ℕ
any_susy_id = 0xffff

abbrev pub any_serial : ℕ
any_serial = 0xffffffff

abbrev pub app_susy_id : ℕ
app_susy_id = 125

abbrev pub app_packet_bit : ℕ
app_packet_bit = 0x8000

abbrev pub stuff_bytes : List ℕ
stuff_bytes = 0x7d ∷ 0x7e ∷ 0x11 ∷ 0x12 ∷ 0x13 ∷ []

abbrev pub stuff_escape : ℕ
stuff_escape = 0x7d

abbrev pub stuff_xor : ℕ
stuff_xor = 0x20
