-- ===== src/Client/Session/Reads.antt =====
-- The frames that the receive loop of `recv_l2_with_pkt_id` takes from its transport, up to the reply.
use hass_sma_rs.Prelude.{
  ℕ, zero, suc, ◌<◌, ◌≡◌, refl, List, [], ◌∷◌, ◌++◌, Option, none, some, Bool-cases, inl, inr, ◌==◌,
  ==_iff, if◌then◌else◌, length, Result, ok, err, arith,
}
use hass_sma_rs.Protocol.Frame.{Frame, parse}
use hass_sma_rs.Protocol.Stuffing.{ParseError}
use hass_sma_rs.Protocol.Packet.{L2Header}
use hass_sma_rs.Transport.Interface.{Transport, TransportError}
use hass_sma_rs.Client.Errors.{Phase, SessionError}
use hass_sma_rs.Client.Session.{
  L2Reply, Session, Method, ret, ◌>>=◌, proceed, map_err, recv_error, recv_frame,
}
use hass_sma_rs.Client.Session.Receive.{
  reply_of, reply_in_kind, take_reply, recv_l2_loop, recv_l2_with_pkt_id,
}
use hass_sma_rs.Client.Session.Replies.{IsReply, reply_in_kind-decodes}

-- Receives that follow each other, and the frames that they give.
pub data Reads {T : Type 0} (net : Transport T) (ms : ℕ) : T → List (List ℕ) → T → Type 0 where
  none_more : {t : T} → Reads net ms t [] t
  one_more :
      {t t' t'' : T} {bytes : List ℕ} {frames : List (List ℕ)}
      → net.recv_frame t ms ≡ (ok bytes, t')
      → Reads net ms t' frames t''
      → Reads net ms t (bytes ∷ frames) t''

module _ {T : Type 0} (net : Transport T) (want : ℕ) where
  -- The reply is in the last frame that was read, behind fewer than `n` that were skipped.
  pub record IsFound (n ms : ℕ) (from to : T) (bytes : List ℕ) (reply : L2Reply) : Type 0 where
    pub skipped : List (List ℕ)
    pub few : length skipped < n
    pub reads : Reads net ms from (skipped ++ bytes ∷ []) to
    pub replies : IsReply want bytes reply

  abbrev pub Finds : ℕ → Session T → Result SessionError (List ℕ × L2Reply) × Session T → Type 0
  Finds n s (ok (bytes, reply), s') = IsFound n s.cfg.timeout_ms s.link s'.link bytes reply
  Finds n s (err e, s') = Unit {0}

  module _ (n : ℕ) (s : Session T) (bytes : List ℕ) (link : T)
      (read : net.recv_frame s.link s.cfg.timeout_ms ≡ (ok bytes, link)) where
    abbrev behind : Session T
    behind = record s { link = link }

    abbrev Ends : Method T (List ℕ × L2Reply) → Type 0
    Ends m = Finds (suc n) s (m behind)

    skips :
        (o : Result SessionError (List ℕ × L2Reply) × Session T)
        → Finds n behind o
        → Finds (suc n) s o
    skips (ok (last, reply), s') f = record {
      skipped = bytes ∷ f.skipped;
      few = omega (arith, f.few);
      reads = one_more read f.reads;
      replies = f.replies;
    }
    skips (err e, s') f = tt

    module _ (rest : Method T (List ℕ × L2Reply)) (later : Finds n behind (rest behind)) where
      take_reply-Finds : Finds (suc n) s (take_reply rest want bytes behind)
      unfolding take_reply
      take_reply-Finds = by_parsed (parse bytes) refl
        where
          by_decoded :
              (frame : Frame) (o : Option (L2Header × List ℕ))
              → parse bytes ≡ ok frame
              → reply_in_kind frame.kind frame.payload ≡ o
              → Ends (elim o [
                | none ↦ rest
                | some (hdr, body) ↦
                    if hdr.pkt_id == want then ret (bytes, reply_of hdr body) else rest
              ])
          by_decoded frame none p d = skips (rest behind) later
          by_decoded frame (some (hdr, body)) p d = elim (Bool-cases (hdr.pkt_id == want)) [
            | inl same ↦ rw same (record {
              skipped = [];
              few = omega arith;
              reads = one_more read none_more;
              replies = record {
                frame = frame;
                header = hdr;
                parses = p;
                is_l2 = (reply_in_kind-decodes frame.kind frame.payload _ d).0;
                decodes = (reply_in_kind-decodes frame.kind frame.payload _ d).1;
                is_wanted = (==_iff hdr.pkt_id want).0 same;
                copies = refl;
              };
            })
            | inr other ↦ rw other (skips (rest behind) later)
          ]

          by_parsed :
              (r : Result ParseError Frame)
              → parse bytes ≡ r
              → Ends (elim r [
                | err e ↦ rest
                | ok frame ↦ elim (reply_in_kind frame.kind frame.payload) [
                  | none ↦ rest
                  | some (hdr, body) ↦
                      if hdr.pkt_id == want then ret (bytes, reply_of hdr body) else rest
                ]
              ])
          by_parsed (err e) p = skips (rest behind) later
          by_parsed (ok frame) p = by_decoded frame (reply_in_kind frame.kind frame.payload) p refl

  recv_l2_loop-Finds :
      (n : ℕ) (phase : Phase) (s : Session T) → Finds n s (recv_l2_loop net n want phase s)
  unfolding recv_l2_loop ◌>>=◌ recv_frame
  recv_l2_loop-Finds zero phase s = tt
  recv_l2_loop-Finds (suc n) phase s =
      by_answer (net.recv_frame s.link s.cfg.timeout_ms) refl (λ s'. recv_l2_loop-Finds n phase s')
    where
      by_answer :
          (a : Result TransportError (List ℕ) × T)
          → net.recv_frame s.link s.cfg.timeout_ms ≡ a
          → ((s' : Session T) → Finds n s' (recv_l2_loop net n want phase s'))
          → Finds (suc n) s (
              proceed
                (take_reply (recv_l2_loop net n want phase) want)
                (map_err (recv_error phase) a.0)
                (record s { link = a.1 }))
      by_answer (err e, link) r later = tt
      by_answer (ok bytes, link) r later =
          take_reply-Finds n s bytes link r (recv_l2_loop net n want phase)
            (later (record s { link = link }))

  -- Over any transport: the reply that `recv_l2_with_pkt_id` returns stands in the last frame that
  -- the transport gave, behind at most fifteen others, and no receive follows it.
  pub recv_l2_with_pkt_id-Finds :
      (phase : Phase) (s : Session T) → Finds 16 s (recv_l2_with_pkt_id net want phase s)
  unfolding recv_l2_with_pkt_id
  recv_l2_with_pkt_id-Finds phase s = recv_l2_loop-Finds 16 phase s
