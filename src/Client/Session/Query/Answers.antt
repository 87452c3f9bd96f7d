-- ===== src/Client/Session/Query/Answers.antt =====
-- Queries against the scripted transport: which frames are skipped, and when the answer is found.
use hass_sma_rs.Prelude.{
  ℕ, zero, suc, ◌<◌, ◌≡◌, refl, sym, ◌∙◌, ap, List, [], ◌∷◌, ◌++◌, Option, none, some, Bool, true,
  false, ◌==◌, ==_iff, if◌then◌else◌, Result, ok, err, length, All, arith,
}
use hass_sma_rs.Protocol.Frame.{Frame, parse}
use hass_sma_rs.Protocol.Stuffing.{ParseError}
use hass_sma_rs.Protocol.Packet.{L2Header}
use hass_sma_rs.Protocol.Commands.{QueryKind, build_query_body}
use hass_sma_rs.Transport.Mock.{MockTransport, mock_transport}
use hass_sma_rs.Client.Errors.{Phase, SessionError, silent, protocol}
use hass_sma_rs.Client.Session.{
  L2Reply, Session, logged_in, Method, ret, ◌>>=◌, proceed, ask, after_pcktid, next_pcktid,
  recv_frame, send_frame,
}
use hass_sma_rs.Client.Session.Receive.{
  reply_of, reply_in_kind, take_reply, recv_l2_loop, recv_l2_with_pkt_id,
}
use hass_sma_rs.Client.Session.Replies.{IsReply, reply_in_kind-decodes}
use hass_sma_rs.Client.Session.Handshake.{broadcast}
use hass_sma_rs.Client.Session.Query.{is_logged_in, request, query_for_device}

-- A session on an open scripted transport that has sent the first frames and will deliver the others.
unfoldable pub on_mock :
    {T : Type 0} → Session T → List (List ℕ) → List (List ℕ) → Session MockTransport
on_mock s sent replies = record {
  link = record { replies = replies; sent = sent; is_closed = false };
  cfg = s.cfg;
  state = s.state;
  app_serial = s.app_serial;
  pcktid = s.pcktid;
  inverter_susy_id = s.inverter_susy_id;
  inverter_serial = s.inverter_serial;
}

-- A frame that is no reply with the packet id.
unfoldable pub IsUnrelated : ℕ → List ℕ → Type 0
IsUnrelated want bytes = (reply : L2Reply) → IsReply want bytes reply → ⊥

module _ {T : Type 0} (rest : Method T (List ℕ × L2Reply)) (want : ℕ) (bytes : List ℕ) where
  given : Session T → L2Reply → Result SessionError (List ℕ × L2Reply) × Session T
  given s reply = (ok (bytes, reply), s)

  take_reply-IsReply :
      (reply : L2Reply) (s : Session T)
      → IsReply want bytes reply
      → take_reply rest want bytes s ≡ given s reply
  unfolding take_reply reply_in_kind given
  take_reply-IsReply reply s r =
      let same : (r.header.pkt_id == want) ≡ true = (==_iff r.header.pkt_id want).1 r.is_wanted in
      rw (take_reply, r.parses, r.is_l2, r.decodes, same) (ap (given s) (sym r.copies))

  unparsed :
      (r : Result ParseError Frame) (f : Frame → Method T (List ℕ × L2Reply))
      → ((frame : Frame) → r ≡ ok frame → f frame ≡ rest)
      → elim r [ err e ↦ rest | ok frame ↦ f frame ] ≡ rest
  unparsed (err e) f h = refl
  unparsed (ok frame) f h = h frame refl

  undecoded :
      (o : Option (L2Header × List ℕ)) (f : L2Header → List ℕ → Method T (List ℕ × L2Reply))
      → ((hdr : L2Header) (body : List ℕ) → o ≡ some (hdr, body) → f hdr body ≡ rest)
      → elim o [ none ↦ rest | some (hdr, body) ↦ f hdr body ] ≡ rest
  undecoded none f h = refl
  undecoded (some (hdr, body)) f h = h hdr body refl

  unmatched :
      (b : Bool) (m : Method T (List ℕ × L2Reply)) → (b ≡ true → ⊥) → (if b then m else rest) ≡ rest
  unmatched true m h = absurd (h refl)
  unmatched false m h = refl

  take_reply-IsUnrelated : IsUnrelated want bytes → take_reply rest want bytes ≡ rest
  unfolding take_reply IsUnrelated
  take_reply-IsUnrelated noise = unparsed (parse bytes) _ (λ frame parses.
      undecoded (reply_in_kind frame.kind frame.payload) _ (λ hdr body got.
        unmatched (hdr.pkt_id == want) _ (λ same.
          let (l2, decodes) = reply_in_kind-decodes frame.kind frame.payload (hdr, body) got in
          noise (reply_of hdr body) (record {
            frame = frame;
            header = hdr;
            parses = parses;
            is_l2 = l2;
            decodes = decodes;
            is_wanted = (==_iff hdr.pkt_id want).0 same;
            copies = refl;
          }))))

module _ {T : Type 0} (s : Session T) (sent : List (List ℕ)) (want : ℕ) (phase : Phase) where
  module _ (good : List ℕ) (reply : L2Reply) (found : IsReply want good reply)
      (rest : List (List ℕ)) where
    loop-finds :
        (n : ℕ) (noise : List (List ℕ))
        → All (IsUnrelated want) noise
        → length noise < n
        → recv_l2_loop mock_transport n want phase (on_mock s sent (noise ++ good ∷ rest))
          ≡ (ok (good, reply), on_mock s sent rest)
    unfolding recv_l2_loop recv_frame ◌>>=◌ on_mock given
    loop-finds zero noise h lt = absurd (omega arith)
    loop-finds (suc n) [] h lt =
        take_reply-IsReply (recv_l2_loop mock_transport n want phase) want good reply _ found
    loop-finds (suc n) (f ∷ noise) h lt =
        ap (λ m. m (on_mock s sent (noise ++ good ∷ rest)))
          (take_reply-IsUnrelated (recv_l2_loop mock_transport n want phase) want f h.0)
        ∙ loop-finds n noise h.1 (omega arith)

    -- Up to fifteen unrelated frames are skipped, and the reply behind them is returned; the frames
    -- behind the reply are left for the next call.
    recv_l2_with_pkt_id-finds :
        (noise : List (List ℕ))
        → All (IsUnrelated want) noise
        → length noise < 16
        → recv_l2_with_pkt_id mock_transport want phase (on_mock s sent (noise ++ good ∷ rest))
          ≡ (ok (good, reply), on_mock s sent rest)
    unfolding recv_l2_with_pkt_id
    recv_l2_with_pkt_id-finds noise h lt = loop-finds 16 noise h lt

  loop-silent :
      (noise rest : List (List ℕ))
      → All (IsUnrelated want) noise
      → recv_l2_loop mock_transport (length noise) want phase (on_mock s sent (noise ++ rest))
        ≡ (err (silent phase), on_mock s sent rest)
  unfolding recv_l2_loop recv_frame ◌>>=◌ on_mock
  loop-silent [] rest h = refl
  loop-silent (f ∷ noise) rest h =
      ap (λ m. m (on_mock s sent (noise ++ rest)))
        (take_reply-IsUnrelated (recv_l2_loop mock_transport (length noise) want phase) want f h.0)
      ∙ loop-silent noise rest h.1

  -- Sixteen unrelated frames are the limit: the call is then `Silent`, and what stands behind them
  -- is not read.
  recv_l2_with_pkt_id-silent :
      (noise rest : List (List ℕ))
      → All (IsUnrelated want) noise
      → length noise ≡ 16
      → recv_l2_with_pkt_id mock_transport want phase (on_mock s sent (noise ++ rest))
        ≡ (err (silent phase), on_mock s sent rest)
  unfolding recv_l2_with_pkt_id
  recv_l2_with_pkt_id-silent noise rest h sixteen =
      ap (λ n. recv_l2_loop mock_transport n want phase (on_mock s sent (noise ++ rest)))
        (sym sixteen)
      ∙ loop-silent noise rest h

module _ {T : Type 0} (s : Session T) (susy_id serial : ℕ) (kind : QueryKind) where
  -- The frame that asks the device.
  pub query_frame : List ℕ
  query_frame =
      broadcast s.cfg.local_bt
        (build_query_body kind (after_pcktid s.pcktid) s.app_serial susy_id serial)

  -- The session after a query that was answered.
  pub answered : List (List ℕ) → List (List ℕ) → Session MockTransport
  answered sent rest = record (on_mock s (sent ++ query_frame ∷ []) rest) {
    pcktid = after_pcktid s.pcktid;
  }

  module _ (sent : List (List ℕ)) (good : List ℕ) (reply : L2Reply) (rest noise : List (List ℕ))
      (found : IsReply (after_pcktid s.pcktid) good reply)
      (unrelated : All (IsUnrelated (after_pcktid s.pcktid)) noise) (few : length noise < 16) where
    request-answered :
        request mock_transport susy_id serial kind (on_mock s sent (noise ++ good ∷ rest))
        ≡ (ok reply.body, answered sent rest)
    unfolding request next_pcktid ask send_frame ◌>>=◌ on_mock answered query_frame
    request-answered =
        let numbered = record s { pcktid = after_pcktid s.pcktid } in
        ap (λ q. proceed (λ received. ret (received.1).body) q.0 q.1)
          (recv_l2_with_pkt_id-finds numbered (sent ++ query_frame ∷ []) (after_pcktid s.pcktid)
            Phase.query good reply found rest noise unrelated few)

    -- A query of a session that is logged in sends its one frame, skips up to fifteen unrelated
    -- frames, and returns the body of the reply with its packet id.
    pub query_for_device-answered :
        s.state ≡ logged_in
        → query_for_device mock_transport susy_id serial kind
            (on_mock s sent (noise ++ good ∷ rest))
          ≡ (ok reply.body, answered sent rest)
    unfolding query_for_device is_logged_in on_mock
    query_for_device-answered up =
        ap
          (λ state.
            if is_logged_in state
            then request mock_transport susy_id serial kind (on_mock s sent (noise ++ good ∷ rest))
            else (err (protocol Phase.query_not_logged_in), on_mock s sent (noise ++ good ∷ rest)))
          up
        ∙ request-answered
