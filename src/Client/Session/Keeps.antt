-- ===== src/Client/Session/Keeps.antt =====
-- What the methods of the session keep, up to a relation between a session and what becomes of it:
-- they use the transport by sending and receiving, number packets and set the identity.
use hass_sma_rs.Prelude.{
  ℕ, zero, suc, ◌≡◌, refl, ◌∙◌, List, Option, none, some, Bool, true, false, ◌==◌, if◌then◌else◌,
  Result, ok, err,
}
use hass_sma_rs.Protocol.Mac.{Mac, mac_eq}
use hass_sma_rs.Protocol.Frame.{Frame, parse}
use hass_sma_rs.Protocol.Stuffing.{ParseError}
use hass_sma_rs.Protocol.Packet.{L2Header, decode_l2}
use hass_sma_rs.Transport.Interface.{Transport}
use hass_sma_rs.Client.Errors.{Phase, SessionError}
use hass_sma_rs.Client.Session.{
  Session, Method, ret, fail, ◌>>=◌, ask, proceed, after_pcktid, next_pcktid, recv_frame,
  send_frame,
}
use hass_sma_rs.Client.Session.Receive.{
  reply_in_kind, recv_l1_loop, recv_until_l1_ctrl, take_reply, recv_l2_loop, recv_l2_with_pkt_id,
  recv_init_loop, recv_init_from_target,
}

-- A relation that a session has with what its transport and its counters make of it. `set_state` and
-- `close` are not among the moves.
pub record Kept {T : Type 0} (net : Transport T) : Type 1 where
  pub rel : Session T → Session T → Type 0
  pub reflexive : (s : Session T) → rel s s
  pub transitive : {a b c : Session T} → rel a b → rel b c → rel a c
  pub on_send :
      (s : Session T) (bytes : List ℕ) → rel s (record s { link = (net.send_frame s.link bytes).1 })
  pub on_recv :
      (s : Session T) → rel s (record s { link = (net.recv_frame s.link s.cfg.timeout_ms).1 })
  pub on_pcktid : (s : Session T) (id : ℕ) → rel s (record s { pcktid = id })
  pub on_identity :
      (s : Session T) (susy serial : ℕ)
      → rel s (record s { inverter_susy_id = susy; inverter_serial = serial })

pub record Keeps {T A : Type 0} {net : Transport T} (k : Kept net) (m : Method T A) : Type 0 where
  pub at : (s : Session T) → k.rel s (m s).1

-- The state, the configuration and the session id are those of before.
pub record Unchanged {T : Type 0} (s s' : Session T) : Type 0 where
  pub state : s'.state ≡ s.state
  pub cfg : s'.cfg ≡ s.cfg
  pub app_serial : s'.app_serial ≡ s.app_serial

abbrev pub unchanged : {T : Type 0} (net : Transport T) → Kept net
unchanged net = record {
  rel = Unchanged;
  reflexive = λ s. record { state = refl; cfg = refl; app_serial = refl };
  transitive = λ p q. record {
    state = q.state ∙ p.state;
    cfg = q.cfg ∙ p.cfg;
    app_serial = q.app_serial ∙ p.app_serial;
  };
  on_send = λ s bytes. record { state = refl; cfg = refl; app_serial = refl };
  on_recv = λ s. record { state = refl; cfg = refl; app_serial = refl };
  on_pcktid = λ s id. record { state = refl; cfg = refl; app_serial = refl };
  on_identity = λ s susy serial. record { state = refl; cfg = refl; app_serial = refl };
}

module _ {T : Type 0} {net : Transport T} {k : Kept net} where
  pub ret-Keeps : {A : Type 0} (a : A) → Keeps k (ret {T = T} a)
  ret-Keeps a = record { at = k.reflexive }

  pub fail-Keeps : {A : Type 0} (e : SessionError) → Keeps k (fail {T = T} {A = A} e)
  fail-Keeps e = record { at = k.reflexive }

  pub ask-Keeps : Keeps k (ask {T = T})
  unfolding ask
  ask-Keeps = record { at = k.reflexive }

  proceed-Keeps :
      {A B : Type 0} (f : A → Method T B)
      → ((a : A) → Keeps k (f a))
      → (r : Result SessionError A) (s : Session T) → k.rel s (proceed f r s).1
  proceed-Keeps f keeps (ok a) s = (keeps a).at s
  proceed-Keeps f keeps (err e) s = k.reflexive s

  pub bind-Keeps :
      {A B : Type 0} (m : Method T A) (f : A → Method T B)
      → Keeps k m
      → ((a : A) → Keeps k (f a))
      → Keeps k (m >>= f)
  unfolding ◌>>=◌
  bind-Keeps m f km kf = record {
    at = λ s. let (r, s') = m s in k.transitive (km.at s) (proceed-Keeps f kf r s');
  }

  pub next_pcktid-Keeps : Keeps k (next_pcktid {T = T})
  unfolding next_pcktid
  next_pcktid-Keeps = record { at = λ s. k.on_pcktid s (after_pcktid s.pcktid) }

  pub if-Keeps :
      {A : Type 0} (b : Bool) (m n : Method T A)
      → Keeps k m
      → Keeps k n
      → Keeps k (if b then m else n)
  if-Keeps true m n km kn = km
  if-Keeps false m n km kn = kn

  on_parsed-Keeps :
      {A : Type 0} (r : Result ParseError Frame) (rest : Method T A) (f : Frame → Method T A)
      → Keeps k rest
      → ((frame : Frame) → Keeps k (f frame))
      → Keeps k (elim r [ err e ↦ rest | ok frame ↦ f frame ])
  on_parsed-Keeps (err e) rest f kr kf = kr
  on_parsed-Keeps (ok frame) rest f kr kf = kf frame

  on_decoded-Keeps :
      {A : Type 0} (o : Option (L2Header × List ℕ)) (rest : Method T A)
      (f : L2Header → List ℕ → Method T A)
      → Keeps k rest
      → ((hdr : L2Header) (body : List ℕ) → Keeps k (f hdr body))
      → Keeps k (elim o [ none ↦ rest | some (hdr, body) ↦ f hdr body ])
  on_decoded-Keeps none rest f kr kf = kr
  on_decoded-Keeps (some (hdr, body)) rest f kr kf = kf hdr body

module _ {T : Type 0} (net : Transport T) {k : Kept net} where
  pub recv_frame-Keeps : (phase : Phase) → Keeps k (recv_frame net phase)
  unfolding recv_frame
  recv_frame-Keeps phase = record { at = k.on_recv }

  pub send_frame-Keeps : (bytes : List ℕ) → Keeps k (send_frame net bytes)
  unfolding send_frame
  send_frame-Keeps bytes = record { at = λ s. k.on_send s bytes }

  recv_l1_loop-Keeps : (n want : ℕ) (phase : Phase) → Keeps k (recv_l1_loop net n want phase)
  unfolding recv_l1_loop
  recv_l1_loop-Keeps zero want phase = fail-Keeps _
  recv_l1_loop-Keeps (suc n) want phase = bind-Keeps _ _ (recv_frame-Keeps phase) (λ bytes.
      on_parsed-Keeps (parse bytes) _ _ (recv_l1_loop-Keeps n want phase) (λ frame.
        if-Keeps (frame.control == want) _ _ (ret-Keeps bytes) (recv_l1_loop-Keeps n want phase)))

  pub recv_until_l1_ctrl-Keeps :
      (want : ℕ) (phase : Phase) → Keeps k (recv_until_l1_ctrl net want phase)
  unfolding recv_until_l1_ctrl
  recv_until_l1_ctrl-Keeps want phase = recv_l1_loop-Keeps 12 want phase

  recv_l2_loop-Keeps : (n want : ℕ) (phase : Phase) → Keeps k (recv_l2_loop net n want phase)
  unfolding recv_l2_loop take_reply
  recv_l2_loop-Keeps zero want phase = fail-Keeps _
  recv_l2_loop-Keeps (suc n) want phase =
      let again = recv_l2_loop-Keeps n want phase in
      bind-Keeps _ _ (recv_frame-Keeps phase) (λ bytes.
        on_parsed-Keeps (parse bytes) _ _ again (λ frame.
          on_decoded-Keeps (reply_in_kind frame.kind frame.payload) _ _ again
            (λ hdr body. if-Keeps (hdr.pkt_id == want) _ _ (ret-Keeps _) again)))

  pub recv_l2_with_pkt_id-Keeps :
      (want : ℕ) (phase : Phase) → Keeps k (recv_l2_with_pkt_id net want phase)
  unfolding recv_l2_with_pkt_id
  recv_l2_with_pkt_id-Keeps want phase = recv_l2_loop-Keeps 16 want phase

  recv_init_loop-Keeps : (n want : ℕ) (target : Mac) → Keeps k (recv_init_loop net n want target)
  unfolding recv_init_loop
  recv_init_loop-Keeps zero want target = fail-Keeps _
  recv_init_loop-Keeps (suc n) want target =
      let again = recv_init_loop-Keeps n want target in
      bind-Keeps _ _ (recv_until_l1_ctrl-Keeps 0x0001 Phase.init) (λ bytes.
        on_parsed-Keeps (parse bytes) _ _ again (λ frame.
          on_decoded-Keeps (decode_l2 frame.payload) _ _ again (λ hdr body.
            if-Keeps (hdr.pkt_id == want) _ _
              (if-Keeps (mac_eq frame.local_bt target) _ _ (ret-Keeps _) again) again)))

  pub recv_init_from_target-Keeps :
      (want : ℕ) (target : Mac) → Keeps k (recv_init_from_target net want target)
  unfolding recv_init_from_target
  recv_init_from_target-Keeps want target = recv_init_loop-Keeps 16 want target
