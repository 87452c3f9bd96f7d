-- ===== src/Client/Session/Handshake/Steps.antt =====
-- What the steps of the handshake keep.
use hass_sma_rs.Prelude.{ℕ, zero, suc, List, Option, none, some, ◌==◌, Result, ok, err}
use hass_sma_rs.Protocol.Mac.{Mac}
use hass_sma_rs.Transport.Interface.{Transport}
use hass_sma_rs.Client.Errors.{Phase, SessionError}
use hass_sma_rs.Client.Session.{
  L2Reply, Session, SessionState, handshaking, enumerating, logged_in, Method, ◌>>=◌, ask, attempt,
  next_pcktid, set_state,
}
use hass_sma_rs.Client.Session.Keeps.{
  Kept, Keeps, if-Keeps, ret-Keeps, ask-Keeps, bind-Keeps, next_pcktid-Keeps, recv_frame-Keeps,
  send_frame-Keeps, recv_until_l1_ctrl-Keeps, recv_init_from_target-Keeps,
}
use hass_sma_rs.Client.Session.Handshake.{
  Hello, give, recv_hello, echo_and_topology, set_identity, identify, send_logoff, send_logon,
  LogonReplies, reply_to, logon_reply, logon_received, logon_loop, await_logon, handshake_and_logon,
}

module _ {T : Type 0} {net : Transport T} {k : Kept net} where
  pub give-Keeps : {A : Type 0} (r : Result SessionError A) → Keeps k (give {T = T} r)
  give-Keeps r = record { at = k.reflexive }

  pub set_identity-Keeps : (reply : L2Reply) → Keeps k (set_identity {T = T} reply)
  unfolding set_identity
  set_identity-Keeps reply = record { at = λ s. k.on_identity s reply.app_susy_id reply.app_serial }

  -- A step that first takes a packet id, and reads the session with it.
  pub numbered-Keeps :
      {A : Type 0} (f : ℕ → Session T → Method T A)
      → ((id : ℕ) (s : Session T) → Keeps k (f id s))
      → Keeps k (next_pcktid >>= λ id. ask >>= f id)
  numbered-Keeps f kf = bind-Keeps _ _ next_pcktid-Keeps (λ id. bind-Keeps _ _ ask-Keeps (kf id))

  pub attempt-Keeps : {A : Type 0} (m : Method T A) → Keeps k m → Keeps k (attempt m)
  unfolding attempt
  attempt-Keeps m km = record { at = km.at }

  module _ (again : Option L2Reply → Method T LogonReplies)
      (kept : (last : Option L2Reply) → Keeps k (again last)) where
    logon_reply-Keeps : (last o : Option L2Reply) → Keeps k (logon_reply again last o)
    unfolding logon_reply
    logon_reply-Keeps last none = kept last
    logon_reply-Keeps last (some reply) =
        if-Keeps (reply.error_code == 0) _ _ (ret-Keeps _) (kept (some reply))

    logon_received-Keeps :
        (id : ℕ) (last : Option L2Reply) (r : Result SessionError (List ℕ))
        → Keeps k (logon_received again id last r)
    unfolding logon_received
    logon_received-Keeps id last (err e) = ret-Keeps _
    logon_received-Keeps id last (ok bytes) = logon_reply-Keeps last (reply_to id bytes)

module _ {T : Type 0} (net : Transport T) {k : Kept net} where
  pub recv_hello-Keeps : Keeps k (recv_hello net)
  unfolding recv_hello
  recv_hello-Keeps =
      bind-Keeps _ _ (send_frame-Keeps net _)
        (λ _. bind-Keeps _ _ (recv_frame-Keeps net _) (λ bytes. give-Keeps _))

  pub echo_and_topology-Keeps : (h : Hello) → Keeps k (echo_and_topology net h)
  unfolding echo_and_topology
  echo_and_topology-Keeps h =
      bind-Keeps _ _ (send_frame-Keeps net _) (λ _. recv_until_l1_ctrl-Keeps net _ _)

  pub identify-Keeps : (target : Mac) → Keeps k (identify net target)
  unfolding identify
  identify-Keeps target = numbered-Keeps _ (λ id s.
      bind-Keeps _ _ (send_frame-Keeps net _)
        (λ _. bind-Keeps _ _ (recv_init_from_target-Keeps net id target) set_identity-Keeps))

  pub send_logoff-Keeps : Keeps k (send_logoff net)
  unfolding send_logoff
  send_logoff-Keeps = numbered-Keeps _ (λ id s. send_frame-Keeps net _)

  pub send_logon-Keeps : (now_epoch : ℕ) → Keeps k (send_logon net now_epoch)
  unfolding send_logon
  send_logon-Keeps now_epoch =
      numbered-Keeps _ (λ id s. bind-Keeps _ _ (send_frame-Keeps net _) (λ _. ret-Keeps id))

  logon_loop-Keeps : (n id : ℕ) (last : Option L2Reply) → Keeps k (logon_loop net n id last)
  unfolding logon_loop
  logon_loop-Keeps zero id last = ret-Keeps _
  logon_loop-Keeps (suc n) id last =
      bind-Keeps _ _ (attempt-Keeps _ (recv_until_l1_ctrl-Keeps net 0x0001 Phase.logon))
        (logon_received-Keeps _ (logon_loop-Keeps n id) id last)

  pub await_logon-Keeps : (id : ℕ) → Keeps k (await_logon net id)
  unfolding await_logon
  await_logon-Keeps id = bind-Keeps _ _ (logon_loop-Keeps 16 id none) (λ replies. give-Keeps _)

  -- The whole handshake, for a relation that does not look at the state.
  pub handshake_and_logon-Keeps :
      ((state : SessionState) → Keeps k (set_state {T = T} state))
      → (now_epoch : ℕ) → Keeps k (handshake_and_logon net now_epoch)
  unfolding handshake_and_logon
  handshake_and_logon-Keeps kept now_epoch = bind-Keeps _ _ (kept handshaking) (λ _.
      bind-Keeps _ _ recv_hello-Keeps (λ h. bind-Keeps _ _ (echo_and_topology-Keeps h) (λ _.
        bind-Keeps _ _ (kept enumerating) (λ _. bind-Keeps _ _ (identify-Keeps h.inverter_bt) (λ _.
          bind-Keeps _ _ send_logoff-Keeps (λ _.
            bind-Keeps _ _ (send_logon-Keeps now_epoch)
              (λ pkt_id. bind-Keeps _ _ (await_logon-Keeps pkt_id) (λ _. kept logged_in))))))))
