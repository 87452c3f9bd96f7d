-- ===== src/Client/Session/Query/Identifiers.antt =====
-- The packet ids of queries and of their answers, over any transport.
use hass_sma_rs.Prelude.{
  ℕ, ◌≤◌, ◌≡◌, ◌≢◌, refl, List, Bool, true, false, if◌then◌else◌, Result, ok, err, arith,
}
use hass_sma_rs.Protocol.Packet.Identifier.{decode_l2-pkt_id}
use hass_sma_rs.Protocol.Commands.{QueryKind, build_query_body}
use hass_sma_rs.Transport.Interface.{Transport, TransportError}
use hass_sma_rs.Client.Errors.{Phase, SessionError}
use hass_sma_rs.Client.Errors
use hass_sma_rs.Client.Session.{
  L2Reply, Session, ret, ◌>>=◌, ask, proceed, map_err, after_pcktid, next_pcktid, send_frame,
}
use hass_sma_rs.Client.Session.Handshake.{broadcast}
use hass_sma_rs.Client.Session.Receive.{recv_l2_with_pkt_id}
use hass_sma_rs.Client.Session.Reads.{IsFound, Finds, recv_l2_with_pkt_id-Finds}
use hass_sma_rs.Client.Session.Query.{is_logged_in, request, query_for_device}

module _ {T : Type 0} (net : Transport T) (susy_id serial : ℕ) (kind : QueryKind)
    (s : Session T) where
  -- The transport behind the sending of the query.
  abbrev pub asked : T
  asked =
      (net.send_frame s.link (
        broadcast s.cfg.local_bt
          (build_query_body kind (after_pcktid s.pcktid) s.app_serial susy_id serial))).1

  -- The body is that of a reply with the next packet id, in the last of the frames that were read
  -- behind the query.
  pub record IsAnswer (body : List ℕ) (s' : Session T) : Type 0 where
    pub bytes : List ℕ
    pub reply : L2Reply
    pub found : IsFound net (after_pcktid s.pcktid) 16 s.cfg.timeout_ms asked s'.link bytes reply
    pub is_body : body ≡ reply.body

  unfoldable pub Answers : Result SessionError (List ℕ) × Session T → Type 0
  Answers (ok body, s') = IsAnswer body s'
  Answers (err e, s') = Unit {0}

  abbrev numbered : Session T
  numbered = record s { pcktid = after_pcktid s.pcktid }

  received-Answers :
      (o : Result SessionError (List ℕ × L2Reply) × Session T)
      → Finds net (after_pcktid s.pcktid) 16 (record numbered { link = asked }) o
      → Answers (proceed (λ (got : List ℕ × L2Reply). ret (got.1).body) o.0 o.1)
  unfolding Answers
  received-Answers (ok (bytes, reply), s') f = record {
    bytes = bytes;
    reply = reply;
    found = f;
    is_body = refl;
  }
  received-Answers (err e, s') f = tt

  request-Answers : Answers (request net susy_id serial kind s)
  unfolding request next_pcktid ask send_frame ◌>>=◌ Answers
  request-Answers =
      by_sent
        (net.send_frame s.link (
          broadcast s.cfg.local_bt
            (build_query_body kind (after_pcktid s.pcktid) s.app_serial susy_id serial))).0
    where
      by_sent :
          (r : Result TransportError ℕ)
          → Answers (
              proceed
                (λ (n : ℕ).
                  recv_l2_with_pkt_id net (after_pcktid s.pcktid) Phase.query
                  >>= λ (got : List ℕ × L2Reply). ret (got.1).body)
                (map_err Errors.transport r)
                (record numbered { link = asked }))
      by_sent (err e) = tt
      by_sent (ok n) =
          received-Answers
            (recv_l2_with_pkt_id net (after_pcktid s.pcktid) Phase.query
              (record numbered { link = asked }))
            (recv_l2_with_pkt_id-Finds net (after_pcktid s.pcktid) Phase.query
              (record numbered { link = asked }))

  if-Answers :
      (b : Bool) (p q : Result SessionError (List ℕ) × Session T)
      → Answers p
      → Answers q
      → Answers (if b then p else q)
  if-Answers true p q hp hq = hp
  if-Answers false p q hp hq = hq

  -- Over any transport, what a query returns is the body of a reply with the packet id that follows
  -- the session's last one, in the last frame that the transport gave: the query was sent first, at
  -- most fifteen frames were read before that one, and none is read after it.
  pub query_for_device-Answers : Answers (query_for_device net susy_id serial kind s)
  unfolding query_for_device Answers
  query_for_device-Answers = if-Answers (is_logged_in s.state) _ (err _, s) request-Answers tt

  no_answer :
      (o : Result SessionError (List ℕ) × Session T) (body : List ℕ)
      → 32768 ≤ after_pcktid s.pcktid
      → Answers o
      → o.0 ≢ ok body
  unfolding Answers
  no_answer (ok body', s') body high a e =
      let r = a.found.replies in
      omega (arith, decode_l2-pkt_id r.frame.payload r.header a.reply.body r.decodes, r.is_wanted)
  no_answer (err x, s') body high a e = absurd (cc e)

  -- Once the next packet id has its top bit set, no query succeeds, over any transport.
  pub query_for_device-dead :
      32768 ≤ after_pcktid s.pcktid
      → (body : List ℕ) → (query_for_device net susy_id serial kind s).0 ≢ ok body
  query_for_device-dead high body =
      no_answer (query_for_device net susy_id serial kind s) body high query_for_device-Answers
