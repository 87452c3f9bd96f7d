-- ===== src/Protocol/Packet/Identifier.antt =====
-- The packet ids that `decode_l2` can give.
use hass_sma_rs.Prelude.{ℕ, ◌<◌, ◌≡◌, List, some, slice, arith}
use hass_sma_rs.Prelude.Masks.{bit_and_le}
use hass_sma_rs.Prelude.Words.{read_u16}
use hass_sma_rs.Protocol.Packet.{L2Header, not_packet_bit, header_of, decode_l2}

-- The packet id of a decoded header has fifteen bits, whatever the bytes.
pub decode_l2-pkt_id :
    (bytes : List ℕ) (h : L2Header) (body : List ℕ)
    → decode_l2 bytes ≡ some (h, body)
    → h.pkt_id < 32768
unfolding decode_l2 header_of
decode_l2-pkt_id bytes h body eq =
    ground (arith, bit_and_le (read_u16 (slice bytes 26 28)) not_packet_bit)
