-- ===== src/Client/Session/Query/States.antt =====
-- The state of the session behind queries and closing, over any transport.
use hass_sma_rs.Prelude.{
  ℕ, zero, suc, ◌≡◌, refl, List, [], ◌++◌, Bool, true, false, ltb, ◌==◌, ◌!=◌, if◌then◌else◌,
  length, Result, err,
}
use hass_sma_rs.Protocol.Commands.{QueryKind}
use hass_sma_rs.Transport.Interface.{Transport}
use hass_sma_rs.Client.Errors.{Phase, SessionError}
use hass_sma_rs.Client.Session.{Session, disconnected}
use hass_sma_rs.Client.Session.Keeps.{
  Kept, Keeps, Unchanged, unchanged, if-Keeps, ret-Keeps, fail-Keeps, bind-Keeps, send_frame-Keeps,
  recv_l2_with_pkt_id-Keeps,
}
use hass_sma_rs.Client.Session.Handshake.Steps.{numbered-Keeps, send_logoff-Keeps}
use hass_sma_rs.Client.Session.Query.{
  is_logged_in, request, query_for_device, event_log_loop, event_log_request,
  query_event_log_for_device, close, farewell, graceful_close,
}

if_logged_in :
    {T A : Type 0} {net : Transport T} (k : Kept net) (s : Session T) (b : Bool)
    (p q : Result SessionError A × Session T)
    → k.rel s p.1
    → k.rel s q.1
    → k.rel s (if b then p else q).1
if_logged_in k s true p q hp hq = hp
if_logged_in k s false p q hp hq = hq

module _ {T : Type 0} (net : Transport T) {k : Kept net} where
  request-Keeps :
      (susy_id serial : ℕ) (kind : QueryKind) → Keeps k (request net susy_id serial kind)
  unfolding request
  request-Keeps susy_id serial kind = numbered-Keeps _ (λ id s.
      bind-Keeps _ _ (send_frame-Keeps net _)
        (λ _. bind-Keeps _ _ (recv_l2_with_pkt_id-Keeps net id Phase.query) (λ got. ret-Keeps _)))

  -- A query, whatever comes of it.
  pub query_for_device-Keeps :
      (susy_id serial : ℕ) (kind : QueryKind) → Keeps k (query_for_device net susy_id serial kind)
  unfolding query_for_device
  query_for_device-Keeps susy_id serial kind = record {
    at = λ s.
        if_logged_in k s (is_logged_in s.state) _ (err _, s)
          ((request-Keeps susy_id serial kind).at s) (k.reflexive s);
  }

  event_log_loop-Keeps : (n id : ℕ) (all : List ℕ) → Keeps k (event_log_loop net n id all)
  unfolding event_log_loop
  event_log_loop-Keeps zero id all = ret-Keeps all
  event_log_loop-Keeps (suc n) id all =
      bind-Keeps _ _ (recv_l2_with_pkt_id-Keeps net id Phase.event_log) (λ got.
        let reply = got.1 in
        if-Keeps (reply.error_code != 0) _ _ (fail-Keeps _) (
          if-Keeps (ltb (length reply.body) 12) _ _ (ret-Keeps _) (
            if-Keeps (length reply.body == 12) _ _ (ret-Keeps _)
              (event_log_loop-Keeps n id (all ++ reply.body)))))

  event_log_request-Keeps :
      (susy_id serial start_unix end_unix : ℕ)
      → Keeps k (event_log_request net susy_id serial start_unix end_unix)
  unfolding event_log_request
  event_log_request-Keeps susy_id serial start_unix end_unix =
      numbered-Keeps _
        (λ id s. bind-Keeps _ _ (send_frame-Keeps net _) (λ _. event_log_loop-Keeps 32 id []))

  -- An event-log query, whatever comes of it.
  pub query_event_log_for_device-Keeps :
      (susy_id serial start_unix end_unix : ℕ)
      → Keeps k (query_event_log_for_device net susy_id serial start_unix end_unix)
  unfolding query_event_log_for_device
  query_event_log_for_device-Keeps susy_id serial start_unix end_unix = record {
    at = λ s.
        if_logged_in k s (is_logged_in s.state) _ (err _, s)
          ((event_log_request-Keeps susy_id serial start_unix end_unix).at s) (k.reflexive s);
  }

module _ {T : Type 0} (net : Transport T) (s : Session T) where
  -- A query, whatever comes of it, leaves the session's state, configuration and id as they were.
  query_for_device-Unchanged :
      (susy_id serial : ℕ) (kind : QueryKind)
      → Unchanged s (query_for_device net susy_id serial kind s).1
  query_for_device-Unchanged susy_id serial kind =
      (query_for_device-Keeps net {k = unchanged net} susy_id serial kind).at s

  -- An event-log query, whatever comes of it, leaves the session's state, configuration and id as
  -- they were.
  query_event_log_for_device-Unchanged :
      (susy_id serial start_unix end_unix : ℕ)
      → Unchanged s (query_event_log_for_device net susy_id serial start_unix end_unix s).1
  query_event_log_for_device-Unchanged susy_id serial start_unix end_unix =
      (query_event_log_for_device-Keeps net {k = unchanged net} susy_id serial start_unix
          end_unix).at
        s

module _ {T : Type 0} {net : Transport T} (k : Kept net) where
  farewell-kept : (b : Bool) (s : Session T) → k.rel s (if b then (farewell net s).1 else s)
  unfolding farewell
  farewell-kept true s = (send_logoff-Keeps net {k = k}).at s
  farewell-kept false s = k.reflexive s

  -- A session that is closed gracefully keeps what it had up to the call of `close`.
  pub graceful_close-kept :
      (s : Session T) → (s' : Session T) × k.rel s s' × (graceful_close net s ≡ close net s')
  unfolding graceful_close
  graceful_close-kept s = (_, farewell-kept (is_logged_in s.state) s, refl)

module _ {T : Type 0} (net : Transport T) where
  -- A graceful close leaves the session disconnected with its configuration, whether the logoff
  -- could be sent or not, and whether the transport closes cleanly or not.
  graceful_close-disconnected :
      (s : Session T)
      → ((graceful_close net s).1.state ≡ disconnected) × ((graceful_close net s).1.cfg ≡ s.cfg)
  unfolding graceful_close close
  graceful_close-disconnected s =
      (refl, (farewell-kept (unchanged net) (is_logged_in s.state) s).cfg)
