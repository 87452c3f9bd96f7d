-- ===== src/Protocol/Packet.antt =====
-- crates/sma-bt-protocol/src/packet.rs: the L2 header.
pub mod RoundTrip
pub mod Identifier
use hass_sma_rs.Prelude.{
  ℕ, List, [], ◌∷◌, Option, none, some, bit_and, bit_or, ltb, ◌==◌, if◌then◌else◌, length, get_or,
  drop, slice,
}
use hass_sma_rs.Prelude.Words.{read_u16, read_u32, u16_bytes, u32_bytes}
use hass_sma_rs.Protocol.Constants.{
  any_susy_id, any_serial, app_susy_id, app_packet_bit, bt_l2_signature,
}

pub record L2Header : Type 0 where
  pub longwords : ℕ
  pub ctrl : ℕ
  pub dst_susy_id : ℕ
  pub dst_serial : ℕ
  pub ctrl2 : ℕ
  pub app_susy_id : ℕ
  pub app_serial : ℕ
  pub error_code : ℕ
  pub pkt_id : ℕ

unfoldable pub encode_l2 : L2Header → List ℕ → List ℕ
encode_l2 header body = u32_bytes bt_l2_signature (
    header.longwords
    ∷ header.ctrl
    ∷ u16_bytes header.dst_susy_id (
        u32_bytes header.dst_serial (
          u16_bytes header.ctrl2 (
            u16_bytes header.app_susy_id (
              u32_bytes header.app_serial (
                u16_bytes header.ctrl2 (
                  u16_bytes header.error_code
                    (0 ∷ 0 ∷ u16_bytes (bit_or header.pkt_id app_packet_bit) body))))))))

-- `!APP_PACKET_BIT`, on sixteen bits.
abbrev pub not_packet_bit : ℕ
not_packet_bit = 0x7fff

header_of : List ℕ → L2Header
header_of bytes = record {
  longwords = get_or bytes 4 0;
  ctrl = get_or bytes 5 0;
  dst_susy_id = read_u16 (slice bytes 6 8);
  dst_serial = read_u32 (slice bytes 8 12);
  ctrl2 = read_u16 (slice bytes 12 14);
  app_susy_id = read_u16 (slice bytes 14 16);
  app_serial = read_u32 (slice bytes 16 20);
  error_code = read_u16 (slice bytes 22 24);
  pkt_id = bit_and (read_u16 (slice bytes 26 28)) not_packet_bit;
}

unfoldable pub decode_l2 : List ℕ → Option (L2Header × List ℕ)
unfolding header_of
decode_l2 bytes =
    if ltb (length bytes) 28
    then none
    else if read_u32 (slice bytes 0 4) == bt_l2_signature
    then some (header_of bytes, drop 28 bytes)
    else none

-- The constructors of `L2Header`.
unfoldable pub discovery : ℕ → ℕ → L2Header
discovery pkt_id app_serial = record {
  longwords = 0x00;
  ctrl = 0x00;
  dst_susy_id = any_susy_id;
  dst_serial = any_serial;
  ctrl2 = 0x0000;
  app_susy_id = app_susy_id;
  app_serial = app_serial;
  error_code = 0;
  pkt_id = pkt_id;
}

unfoldable pub logon : ℕ → ℕ → L2Header
logon pkt_id app_serial = record {
  longwords = 0x0e;
  ctrl = 0xa0;
  dst_susy_id = any_susy_id;
  dst_serial = any_serial;
  ctrl2 = 0x0100;
  app_susy_id = app_susy_id;
  app_serial = app_serial;
  error_code = 0;
  pkt_id = pkt_id;
}

unfoldable pub query : ℕ → ℕ → ℕ → ℕ → L2Header
query pkt_id app_serial dst_susy_id dst_serial = record {
  longwords = 0x09;
  ctrl = 0xa0;
  dst_susy_id = dst_susy_id;
  dst_serial = dst_serial;
  ctrl2 = 0x0000;
  app_susy_id = app_susy_id;
  app_serial = app_serial;
  error_code = 0;
  pkt_id = pkt_id;
}

unfoldable pub init : ℕ → ℕ → L2Header
init pkt_id app_serial = record {
  longwords = 0x09;
  ctrl = 0xa0;
  dst_susy_id = any_susy_id;
  dst_serial = any_serial;
  ctrl2 = 0x0000;
  app_susy_id = app_susy_id;
  app_serial = app_serial;
  error_code = 0;
  pkt_id = pkt_id;
}

unfoldable pub event_log_query : ℕ → ℕ → ℕ → ℕ → L2Header
event_log_query pkt_id app_serial dst_susy_id dst_serial = record {
  longwords = 0x09;
  ctrl = 0xe0;
  dst_susy_id = dst_susy_id;
  dst_serial = dst_serial;
  ctrl2 = 0x0100;
  app_susy_id = app_susy_id;
  app_serial = app_serial;
  error_code = 0;
  pkt_id = pkt_id;
}

unfoldable pub logoff : ℕ → ℕ → L2Header
logoff pkt_id app_serial = record {
  longwords = 0x08;
  ctrl = 0xa0;
  dst_susy_id = any_susy_id;
  dst_serial = any_serial;
  ctrl2 = 0x0300;
  app_susy_id = app_susy_id;
  app_serial = app_serial;
  error_code = 0;
  pkt_id = pkt_id;
}
