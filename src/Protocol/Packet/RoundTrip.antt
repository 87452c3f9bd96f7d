-- ===== src/Protocol/Packet/RoundTrip.antt =====
-- `decode_l2` against `encode_l2`.
use hass_sma_rs.Prelude.{ℕ, ◌%◌, ◌≡◌, List, some, bit_or, length, arith, le→ltb_false}
use hass_sma_rs.Prelude.Words.{IsU16, IsU32, u16_of_bytes, u32_of_bytes}
use hass_sma_rs.Prelude.Bits.{packet_bit, bit_or-packet_bit}
use hass_sma_rs.Protocol.Constants.{app_packet_bit}
use hass_sma_rs.Protocol.Packet.{L2Header, encode_l2, decode_l2}

-- The fields of a header fit their widths.
pub record IsWire (h : L2Header) : Type 0 where
  pub dst_susy_id : IsU16 h.dst_susy_id
  pub dst_serial : IsU32 h.dst_serial
  pub ctrl2 : IsU16 h.ctrl2
  pub app_susy_id : IsU16 h.app_susy_id
  pub app_serial : IsU32 h.app_serial
  pub error_code : IsU16 h.error_code
  pub pkt_id : IsU16 h.pkt_id

-- A header and a body come back from their encoding, but for the top bit of the packet id, which
-- the encoder sets and the decoder clears.
pub decode_l2-encode_l2 :
    (h : L2Header) (body : List ℕ)
    → IsWire h
    → decode_l2 (encode_l2 h body) ≡ some (record h { pkt_id = h.pkt_id % 32768 }, body)
unfolding decode_l2 encode_l2
decode_l2-encode_l2 h body w = rw (
  le→ltb_false (length (encode_l2 h body)) 28 (omega arith),
  u16_of_bytes h.dst_susy_id w.dst_susy_id,
  u32_of_bytes h.dst_serial w.dst_serial,
  u16_of_bytes h.ctrl2 w.ctrl2,
  u16_of_bytes h.app_susy_id w.app_susy_id,
  u32_of_bytes h.app_serial w.app_serial,
  u16_of_bytes h.error_code w.error_code,
  u16_of_bytes (bit_or h.pkt_id app_packet_bit)
      (omega (arith, bit_or-packet_bit h.pkt_id w.pkt_id)),
  packet_bit h.pkt_id w.pkt_id,
)
