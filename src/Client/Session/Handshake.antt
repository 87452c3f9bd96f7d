-- ===== src/Client/Session/Handshake.antt =====
-- `handshake_and_logon` of crates/inverter-client/src/session.rs, step by step. Left out: the log
-- lines, the peer list that is computed from the topology frame for one of them, and the pause of
-- 300 ms in front of the logon.
pub mod Steps
pub mod Outcome
pub mod Logon
use hass_sma_rs.Prelude.{
  ℕ, zero, suc, List, [], ◌∷◌, Option, none, some, ltb, ◌==◌, ◌!=◌, if◌then◌else◌, length, get_or,
  Result, ok, err,
}
use hass_sma_rs.Prelude.Words.{u32_bytes}
use hass_sma_rs.Protocol.Mac.{Mac}
use hass_sma_rs.Protocol.Frame.{Frame, l1_only, new_with_kind, new, extend, build, parse}
use hass_sma_rs.Protocol.Packet.{decode_l2}
use hass_sma_rs.Protocol.Auth.{build_init_body, build_logoff_body, build_logon_body}
use hass_sma_rs.Protocol.Stuffing.{ParseError}
use hass_sma_rs.Transport.Interface.{Transport}
use hass_sma_rs.Client.Errors.{SessionError, protocol, firmware_too_old, logon_failed, silent}
use hass_sma_rs.Client.Errors
use hass_sma_rs.Client.Session.{
  L2Reply, Session, SessionState, handshaking, enumerating, logged_in, Method, ret, fail, ◌>>=◌,
  ask, attempt, next_pcktid, set_state, recv_frame, send_frame,
}
use hass_sma_rs.Client.Session.Receive.{reply_of, recv_until_l1_ctrl, recv_init_from_target}

-- `[0; 6]`, the version address `[1, 0, 0, 0, 0, 0]`, and `[0xFF; 6]`.
abbrev pub zero_bt : Mac
zero_bt = record { b0 = 0; b1 = 0; b2 = 0; b3 = 0; b4 = 0; b5 = 0 }

abbrev pub version_bt : Mac
version_bt = record { b0 = 1; b1 = 0; b2 = 0; b3 = 0; b4 = 0; b5 = 0 }

abbrev pub unknown_bt : Mac
unknown_bt = record { b0 = 0xff; b1 = 0xff; b2 = 0xff; b3 = 0xff; b4 = 0xff; b5 = 0xff }

-- `b"ver\r\n"`
abbrev pub ver_text : List ℕ
ver_text = 0x76 ∷ 0x65 ∷ 0x72 ∷ 0x0d ∷ 0x0a ∷ []

-- What the hello frame tells: the inverter's address and the net id.
pub record Hello : Type 0 where
  pub inverter_bt : Mac
  pub net_id : ℕ

pub check_hello : List ℕ → Frame → Result SessionError Hello
check_hello bytes frame =
    if frame.control != 0x0002
    then err (protocol Errors.hello_ctrl)
    else if ltb (length bytes) 23
    then err (protocol Errors.hello_short)
    else if ltb (get_or bytes 19 0) 4
    then err (firmware_too_old (get_or bytes 19 0))
    else ok (record { inverter_bt = frame.local_bt; net_id = get_or bytes 22 0 })

-- `Frame::parse(&hello_bytes)?` and the checks behind it.
pub read_hello : List ℕ → Result SessionError Hello
read_hello bytes = elim (parse bytes) [
  | err e ↦ err (Errors.parse e)
  | ok frame ↦ check_hello bytes frame
]

abbrev pub give : {T A : Type 0} → Result SessionError A → Method T A
give r s = (r, s)

-- An L2 frame from our adapter to every peer, with L1 control 0x0001.
abbrev pub broadcast : Mac → List ℕ → List ℕ
broadcast local_bt body = build (extend (new local_bt unknown_bt 0x0001) body)

pub echo_frame : Hello → List ℕ
echo_frame h = build (
    extend (new_with_kind l1_only zero_bt h.inverter_bt 0x0002)
      (u32_bytes 0x00700400 (h.net_id ∷ u32_bytes 0 (u32_bytes 1 []))))

pub set_identity : {T : Type 0} → L2Reply → Method T (Unit {0})
set_identity reply s =
    (ok tt, record s { inverter_susy_id = reply.app_susy_id; inverter_serial = reply.app_serial })

-- How the wait for a logon reply ended: accepted, or with the last rejection if there was one.
pub record LogonReplies : Type 0 where
  pub accepted : Option L2Reply
  pub last_reject : Option L2Reply

unfoldable pub logon_outcome : LogonReplies → Result SessionError L2Reply
logon_outcome replies = elim replies.accepted [
  | some reply ↦ ok reply
  | none ↦ elim replies.last_reject [
    | some reject ↦
        if reject.error_code == 0x0100
        then err (logon_failed 0x0100)
        else err (logon_failed reject.error_code)
    | none ↦ err (silent Errors.logon)
  ]
]

-- The reply in a frame, if it decodes and carries the packet id.
unfoldable pub reply_to : ℕ → List ℕ → Option L2Reply
reply_to pkt_id bytes = elim (parse bytes) [
  | err e ↦ none
  | ok frame ↦ elim (decode_l2 frame.payload) [
    | none ↦ none
    | some (hdr, body) ↦ if hdr.pkt_id != pkt_id then none else some (reply_of hdr body)
  ]
]

-- One round of the wait, `again` being the rounds after it: a reply that is accepted ends it, a
-- rejection is kept.
module _ {T : Type 0} (again : Option L2Reply → Method T LogonReplies) (last : Option L2Reply) where
  unfoldable pub logon_reply : Option L2Reply → Method T LogonReplies
  logon_reply none = again last
  logon_reply (some reply) =
      if reply.error_code == 0
      then ret (record { accepted = some reply; last_reject = last })
      else again (some reply)

-- Any failure to receive ends the wait.
unfoldable pub logon_received :
    {T : Type 0}
    → (Option L2Reply → Method T LogonReplies)
    → ℕ
    → Option L2Reply
    → Result SessionError (List ℕ)
    → Method T LogonReplies
logon_received again pkt_id last (err e) = ret (record { accepted = none; last_reject = last })
logon_received again pkt_id last (ok bytes) = logon_reply again last (reply_to pkt_id bytes)

module _ {T : Type 0} (net : Transport T) where
  -- Steps 0 and 1.
  unfoldable pub recv_hello : Method T Hello
  recv_hello =
      send_frame net (build (extend (new_with_kind l1_only zero_bt version_bt 0x0201) ver_text))
      >>= λ _. recv_frame net Errors.hello >>= λ bytes. give (read_hello bytes)

  -- Steps 2 and 3.
  pub echo_and_topology : Hello → Method T (List ℕ)
  echo_and_topology h =
      send_frame net (echo_frame h) >>= λ _. recv_until_l1_ctrl net 0x0005 Errors.topology

  -- Step 4.
  pub identify : Mac → Method T (Unit {0})
  identify inverter_bt = next_pcktid >>= λ pkt_id. ask >>= λ s.
      send_frame net (broadcast s.cfg.local_bt (build_init_body pkt_id s.app_serial)) >>= λ _.
      recv_init_from_target net pkt_id inverter_bt >>= set_identity

  -- Step 5.
  pub send_logoff : Method T ℕ
  send_logoff = next_pcktid >>= λ pkt_id.
      ask >>= λ s. send_frame net (broadcast s.cfg.local_bt (build_logoff_body pkt_id s.app_serial))

  -- Step 6, at the time `now_epoch`; the packet id is what the replies are matched with.
  pub send_logon : ℕ → Method T ℕ
  send_logon now_epoch = next_pcktid >>= λ pkt_id. ask >>= λ s.
      send_frame net (
        broadcast s.cfg.local_bt
          (build_logon_body s.cfg.password s.cfg.user_group pkt_id s.app_serial now_epoch))
      >>= λ _. ret pkt_id

  -- Step 7: `for _ in 0..16`, on the rounds left.
  unfoldable pub logon_loop : ℕ → ℕ → Option L2Reply → Method T LogonReplies
  logon_loop zero pkt_id last = ret (record { accepted = none; last_reject = last })
  logon_loop (suc n) pkt_id last =
      attempt (recv_until_l1_ctrl net 0x0001 Errors.logon)
      >>= logon_received (logon_loop n pkt_id) pkt_id last

  pub await_logon : ℕ → Method T L2Reply
  await_logon pkt_id = logon_loop 16 pkt_id none >>= λ replies. give (logon_outcome replies)

  unfoldable pub handshake_and_logon : ℕ → Method T (Unit {0})
  handshake_and_logon now_epoch = set_state handshaking >>= λ _. recv_hello >>= λ h.
      echo_and_topology h >>= λ _. set_state enumerating >>= λ _. identify h.inverter_bt >>= λ _.
      send_logoff >>= λ _.
      send_logon now_epoch >>= λ pkt_id. await_logon pkt_id >>= λ _. set_state logged_in
