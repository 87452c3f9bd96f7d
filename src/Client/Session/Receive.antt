-- ===== src/Client/Session/Receive.antt =====
-- The receive loops of the session: each skips what it cannot use, for a fixed number of frames.
use hass_sma_rs.Prelude.{ℕ, zero, suc, List, Option, none, some, ◌==◌, if◌then◌else◌, ok, err}
use hass_sma_rs.Protocol.Mac.{Mac, mac_eq}
use hass_sma_rs.Protocol.Frame.{FrameKind, l1_only, l2_wrapped, parse}
use hass_sma_rs.Protocol.Packet.{L2Header, decode_l2}
use hass_sma_rs.Transport.Interface.{Transport}
use hass_sma_rs.Client.Errors.{Phase, silent}
use hass_sma_rs.Client.Errors
use hass_sma_rs.Client.Session.{L2Reply, Method, ret, fail, ◌>>=◌, recv_frame}

abbrev pub reply_of : L2Header → List ℕ → L2Reply
reply_of hdr body = record {
  pkt_id = hdr.pkt_id;
  error_code = hdr.error_code;
  app_susy_id = hdr.app_susy_id;
  app_serial = hdr.app_serial;
  body = body;
}

-- The reply that a frame holds, if it is L2-wrapped and decodes.
unfoldable pub reply_in_kind : FrameKind → List ℕ → Option (L2Header × List ℕ)
reply_in_kind l1_only payload = none
reply_in_kind l2_wrapped payload = decode_l2 payload

-- The body of the loop of `recv_l2_with_pkt_id`: anything but the reply with the packet id is
-- skipped.
unfoldable pub take_reply :
    {T : Type 0} → Method T (List ℕ × L2Reply) → ℕ → List ℕ → Method T (List ℕ × L2Reply)
unfolding reply_in_kind
take_reply rest want_pkt_id bytes = elim (parse bytes) [
  | err e ↦ rest
  | ok frame ↦ elim (reply_in_kind frame.kind frame.payload) [
    | none ↦ rest
    | some (hdr, body) ↦ if hdr.pkt_id == want_pkt_id then ret (bytes, reply_of hdr body) else rest
  ]
]

module _ {T : Type 0} (net : Transport T) where
  -- `for attempt in 0..12`, on the attempts left.
  unfoldable pub recv_l1_loop : ℕ → ℕ → Phase → Method T (List ℕ)
  recv_l1_loop zero want_ctrl phase = fail (silent phase)
  recv_l1_loop (suc n) want_ctrl phase = recv_frame net phase >>= λ bytes.
      (let rest = recv_l1_loop n want_ctrl phase in
        elim (parse bytes) [
          | err e ↦ rest
          | ok frame ↦ if frame.control == want_ctrl then ret bytes else rest
        ])

  unfoldable pub recv_until_l1_ctrl : ℕ → Phase → Method T (List ℕ)
  recv_until_l1_ctrl = recv_l1_loop 12

  -- `for attempt in 0..16`, on the attempts left.
  unfoldable pub recv_l2_loop : ℕ → ℕ → Phase → Method T (List ℕ × L2Reply)
  recv_l2_loop zero want_pkt_id phase = fail (silent phase)
  recv_l2_loop (suc n) want_pkt_id phase =
      recv_frame net phase >>= take_reply (recv_l2_loop n want_pkt_id phase) want_pkt_id

  unfoldable pub recv_l2_with_pkt_id : ℕ → Phase → Method T (List ℕ × L2Reply)
  recv_l2_with_pkt_id = recv_l2_loop 16

  -- `for attempt in 0..16`, on the attempts left.
  unfoldable pub recv_init_loop : ℕ → ℕ → Mac → Method T L2Reply
  recv_init_loop zero want_pkt_id target_bt = fail (silent Errors.init)
  recv_init_loop (suc n) want_pkt_id target_bt = recv_until_l1_ctrl 0x0001 Errors.init >>= λ bytes.
      (let rest = recv_init_loop n want_pkt_id target_bt in
        elim (parse bytes) [
          | err e ↦ rest
          | ok frame ↦ elim (decode_l2 frame.payload) [
            | none ↦ rest
            | some (hdr, body) ↦
                if hdr.pkt_id == want_pkt_id
                then if mac_eq frame.local_bt target_bt then ret (reply_of hdr body) else rest
                else rest
          ]
        ])

  unfoldable pub recv_init_from_target : ℕ → Mac → Method T L2Reply
  recv_init_from_target = recv_init_loop 16
