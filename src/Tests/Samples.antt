-- ===== src/Tests/Samples.antt =====
-- The data of the tests.
use hass_sma_rs.Prelude.{ℕ, refl, List, [], ◌∷◌, true, false, arith, All}
use hass_sma_rs.Prelude.Words.{IsByte}
use hass_sma_rs.Protocol.Mac.{Mac}
use hass_sma_rs.Protocol.Auth.{user}
use hass_sma_rs.Protocol.Packet.{L2Header}
use hass_sma_rs.Protocol.Packet.RoundTrip.{IsWire, decode_l2-encode_l2}
use hass_sma_rs.Transport.Mock.{MockTransport}
use hass_sma_rs.Client.Session.{L2Reply, SessionConfig, Session, logged_in}
use hass_sma_rs.Client.Session.Receive.{reply_of}
use hass_sma_rs.Client.Session.Replies.{IsReply}
use hass_sma_rs.Wire.{Packet, IsSendable, frame_of, parsed_packet, parse-frame_of}

abbrev pub our_bt : Mac
our_bt = record { b0 = 0x01; b1 = 0x02; b2 = 0x03; b3 = 0x04; b4 = 0x05; b5 = 0x06 }

abbrev pub inverter_bt : Mac
inverter_bt = record { b0 = 0x7e; b1 = 0x11; b2 = 0x80; b3 = 0x25; b4 = 0x04; b5 = 0x00 }

-- Every byte of the body but the first is reserved.
abbrev pub reply_body : List ℕ
reply_body = 0x2a ∷ 0x7e ∷ 0x7d ∷ 0x11 ∷ 0x12 ∷ 0x13 ∷ []

abbrev pub reply_header : L2Header
reply_header = record {
  longwords = 0x0e;
  ctrl = 0xd0;
  dst_susy_id = 0x007d;
  dst_serial = 2130000000;
  ctrl2 = 0x00a0;
  app_susy_id = 0x0078;
  app_serial = 900000001;
  error_code = 0;
  pkt_id = 1;
}

abbrev pub reply_packet : Packet
reply_packet = record {
  local_bt = inverter_bt;
  dest_bt = our_bt;
  control = 1;
  header = reply_header;
  body = reply_body;
}

pub reply_header-IsWire : IsWire reply_header
reply_header-IsWire = record {
  dst_susy_id = omega arith;
  dst_serial = omega arith;
  ctrl2 = omega arith;
  app_susy_id = omega arith;
  app_serial = omega arith;
  error_code = omega arith;
  pkt_id = omega arith;
}

pub reply_body-IsByte : All IsByte reply_body
reply_body-IsByte = ground arith

pub reply_packet-IsSendable : IsSendable reply_packet
reply_packet-IsSendable = record {
  control = omega arith;
  header = reply_header-IsWire;
  longwords = omega arith;
  ctrl = omega arith;
  body = reply_body-IsByte;
  short = omega arith;
}

abbrev pub reply : L2Reply
reply = reply_of reply_header reply_body

pub reply-IsReply : IsReply 1 (frame_of reply_packet) reply
reply-IsReply = record {
  frame = parsed_packet reply_packet;
  header = reply_header;
  parses = parse-frame_of reply_packet reply_packet-IsSendable;
  is_l2 = refl;
  decodes = decode_l2-encode_l2 reply_header reply_body reply_header-IsWire;
  is_wanted = refl;
  copies = refl;
}

abbrev pub config : SessionConfig
config = record {
  inverter_bt = inverter_bt;
  local_bt = our_bt;
  password = 0x30 ∷ 0x30 ∷ 0x30 ∷ 0x30 ∷ [];
  user_group = user;
  timeout_ms = 5000;
  mis_enabled = true;
}

-- A session behind its handshake that has sent nothing yet.
abbrev pub up_session : Session MockTransport
up_session = record {
  link = record { replies = []; sent = []; is_closed = false };
  cfg = config;
  state = logged_in;
  app_serial = 900000001;
  pcktid = 0;
  inverter_susy_id = 0x0078;
  inverter_serial = 2130000000;
}
