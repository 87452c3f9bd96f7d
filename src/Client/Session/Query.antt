-- ===== src/Client/Session/Query.antt =====
-- Queries, event-log queries and the two ways to close a session.
pub mod Identifiers
pub mod Answers
pub mod States
use hass_sma_rs.Prelude.{
  ℕ, zero, suc, List, [], ◌∷◌, ◌++◌, Bool, true, false, ltb, ◌==◌, ◌!=◌, if◌then◌else◌, length,
  Result, ok, err,
}
use hass_sma_rs.Protocol.Commands.{QueryKind, build_query_body, build_event_log_body}
use hass_sma_rs.Protocol.Auth.{build_logoff_body}
use hass_sma_rs.Transport.Interface.{Transport}
use hass_sma_rs.Client.Errors.{protocol, transport}
use hass_sma_rs.Client.Errors
use hass_sma_rs.Client.Session.{
  L2Reply, Session, SessionState, disconnected, handshaking, enumerating, logged_in, degraded,
  Method, ret, fail, ◌>>=◌, ask, next_pcktid, recv_frame, send_frame, map_err,
}
use hass_sma_rs.Client.Session.Receive.{recv_l2_with_pkt_id}
use hass_sma_rs.Client.Session.Handshake.{broadcast, send_logoff}

pub is_logged_in : SessionState → Bool
is_logged_in logged_in = true
is_logged_in _ = false

module _ {T : Type 0} (net : Transport T) where
  pub request : ℕ → ℕ → QueryKind → Method T (List ℕ)
  request susy_id serial kind = next_pcktid >>= λ pkt_id. ask >>= λ s.
      send_frame net
        (broadcast s.cfg.local_bt (build_query_body kind pkt_id s.app_serial susy_id serial))
      >>= λ _. recv_l2_with_pkt_id net pkt_id Errors.query >>= λ received. ret (received.1).body

  unfoldable pub query_for_device : ℕ → ℕ → QueryKind → Method T (List ℕ)
  unfolding is_logged_in
  query_for_device susy_id serial kind s =
      if is_logged_in s.state
      then request susy_id serial kind s
      else (err (protocol Errors.query_not_logged_in), s)

  unfoldable pub query : QueryKind → Method T (List ℕ)
  query kind s = query_for_device s.inverter_susy_id s.inverter_serial kind s

  -- `for fragment in 0..32u32`, on the rounds left.
  pub event_log_loop : ℕ → ℕ → List ℕ → Method T (List ℕ)
  event_log_loop zero pkt_id aggregated = ret aggregated
  event_log_loop (suc n) pkt_id aggregated =
      recv_l2_with_pkt_id net pkt_id Errors.event_log >>= λ received.
      (let reply = received.1 in
        let all = aggregated ++ reply.body in
        let rest = event_log_loop n pkt_id all in
        if reply.error_code != 0
        then fail (protocol Errors.event_log_retcode)
        else if ltb (length reply.body) 12
        then ret all
        else if length reply.body == 12
        then ret all
        else rest)

  pub event_log_request : ℕ → ℕ → ℕ → ℕ → Method T (List ℕ)
  event_log_request susy_id serial start_unix end_unix = next_pcktid >>= λ pkt_id. ask >>= λ s.
      send_frame net (
        broadcast s.cfg.local_bt
          (build_event_log_body pkt_id s.app_serial susy_id serial start_unix end_unix))
      >>= λ _. event_log_loop 32 pkt_id []

  unfoldable pub query_event_log_for_device : ℕ → ℕ → ℕ → ℕ → Method T (List ℕ)
  unfolding is_logged_in
  query_event_log_for_device susy_id serial start_unix end_unix s =
      if is_logged_in s.state
      then event_log_request susy_id serial start_unix end_unix s
      else (err (protocol Errors.event_log_not_logged_in), s)

  unfoldable pub close : Method T (Unit {0})
  close s =
      let (r, link) = net.close s.link in
      (map_err transport r, record s { state = disconnected; link = link })

  -- The logoff before a graceful close; its failure is swallowed.
  unfoldable pub farewell : Method T (Unit {0})
  farewell s = (ok tt, (send_logoff net s).1)

  unfoldable pub graceful_close : Method T (Unit {0})
  unfolding is_logged_in
  graceful_close s = close (if is_logged_in s.state then (farewell s).1 else s)
