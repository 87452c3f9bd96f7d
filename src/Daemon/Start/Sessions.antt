-- ===== src/Daemon/Start/Sessions.antt =====
-- What the start of a session in crates/daemon/src/main.rs keeps of the session that it uses.
use Prim.Native.String.{String}
use hass_sma_rs.Prelude.{ℕ, List, [], ◌∷◌, Result, ok, err}
use hass_sma_rs.Protocol.Commands.{QueryKind}
use hass_sma_rs.Transport.Interface.{Transport}
use hass_sma_rs.Client.Errors.{SessionError}
use hass_sma_rs.Client.Session.{Session}
use hass_sma_rs.Client.Session.Keeps.{Kept}
use hass_sma_rs.Client.Session.Query.{query_for_device, query_event_log_for_device}
use hass_sma_rs.Client.Session.Query.States.{
  query_for_device-Keeps, query_event_log_for_device-Keeps,
}
use hass_sma_rs.Client.Values.EventLog.{parse_event_log_records}
use hass_sma_rs.Mqtt.Publisher.{Outcome, returned}
use hass_sma_rs.Daemon.Readings.{Outputs, ◌>>=◌}
use hass_sma_rs.Daemon.Poll.{Target}
use hass_sma_rs.Daemon.Poll.Sessions.{OnReturn, bind-OnReturn, skip-OnReturn}
use hass_sma_rs.Daemon.Start
use hass_sma_rs.Daemon.Start.{
  day_before, on_event_log, fetch_event_logs, Started, Use, on_body, ask_once, use_version,
  tell_model, use_label, use_nominal, use_max_feed_in, identify_target, identify_each, tell_latest,
  latest, with_session, tell,
}

module _ {T F W : Type 0} (net : Transport T) (k : Kept net) (outputs : Outputs F W)
    (rfc3339 : ℕ → String) where
  abbrev pub FromLogs : Session T → Session T × W → Type 0
  FromLogs s (s', w) = k.rel s s'

  abbrev FromStarted : Session T → Started net outputs rfc3339 → Type 0
  FromStarted s (t, s', w) = k.rel s s'

  abbrev pub FromIdentified : Session T → List Target × Session T × W → Type 0
  FromIdentified s (ts, s', w) = k.rel s s'

  -- The event logs of a start.
  pub fetch_event_logs-kept :
      (end : ℕ) (ts : List Target) (s₀ s : Session T) (w : W)
      → k.rel s₀ s
      → OnReturn (FromLogs s₀) (fetch_event_logs net outputs rfc3339 end ts (s, w))
  unfolding fetch_event_logs
  fetch_event_logs-kept end [] s₀ s w h = h
  fetch_event_logs-kept end (t ∷ ts) s₀ s w h =
      bind-OnReturn (FromLogs s₀) (FromLogs s₀)
        (on_event_log net outputs rfc3339 t w
          (query_event_log_for_device net t.susy t.serial (day_before end) end s))
        (fetch_event_logs net outputs rfc3339 end ts)
        (by_reply (query_event_log_for_device net t.susy t.serial (day_before end) end s) (
          k.transitive h (
            (query_event_log_for_device-Keeps net {k = k} t.susy t.serial (day_before end) end).at
              s)))
        (λ o h'. fetch_event_logs-kept end ts s₀ o.0 o.1 h')
    where
      by_reply :
          (o : Result SessionError (List ℕ) × Session T)
          → k.rel s₀ o.1
          → OnReturn (FromLogs s₀) (on_event_log net outputs rfc3339 t w o)
      by_reply (ok body, s') h' =
          let records = parse_event_log_records body in
          skip-OnReturn (FromLogs s₀) (tell_latest net outputs rfc3339 t records w (latest records))
            (λ (w' : W). returned (s', w')) (λ w'. h')
      by_reply (err e, s') h' = h'

  ask_once-kept :
      (kind : QueryKind) (use_body : Use net outputs rfc3339) (s₀ : Session T)
      (o : Started net outputs rfc3339)
      → FromStarted s₀ o
      → OnReturn (FromStarted s₀) (ask_once net outputs rfc3339 kind use_body o)
  unfolding ask_once
  ask_once-kept kind use_body s₀ (t, s, w) h =
      by_reply (query_for_device net t.susy t.serial kind s)
        (k.transitive h ((query_for_device-Keeps net {k = k} t.susy t.serial kind).at s))
    where
      by_reply :
          (o : Result SessionError (List ℕ) × Session T)
          → k.rel s₀ o.1
          → OnReturn (FromStarted s₀) (on_body net outputs rfc3339 use_body t w o)
      by_reply (ok body, s') h' =
          skip-OnReturn (FromStarted s₀) (use_body body t w) (with_session net outputs rfc3339 s')
            (λ o. h')
      by_reply (err e, s') h' = h'

  -- The steps of the identity, one behind the other.
  then_kept :
      (s₀ : Session T) (m : Outcome (Started net outputs rfc3339))
      (f : Started net outputs rfc3339 → Outcome (Started net outputs rfc3339))
      → OnReturn (FromStarted s₀) m
      → ((o : Started net outputs rfc3339) → FromStarted s₀ o → OnReturn (FromStarted s₀) (f o))
      → OnReturn (FromStarted s₀) (m >>= f)
  then_kept s₀ m f = bind-OnReturn (FromStarted s₀) (FromStarted s₀) m f

  tell_model-kept :
      (s₀ : Session T) (o : Started net outputs rfc3339)
      → FromStarted s₀ o
      → OnReturn (FromStarted s₀) (tell_model net outputs rfc3339 o)
  tell_model-kept s₀ (t, s, w) h =
      skip-OnReturn (FromStarted s₀)
        (tell net outputs rfc3339 t "inverter_model" t.identity.model w)
        (λ (w' : W). returned (t, s, w')) (λ w'. h)

  identify_target-kept :
      (s₀ : Session T) (o : Started net outputs rfc3339)
      → FromStarted s₀ o
      → OnReturn (FromStarted s₀) (identify_target net outputs rfc3339 o)
  unfolding identify_target
  identify_target-kept s₀ o h =
      let version =
        ask_once net outputs rfc3339 QueryKind.software_version (use_version net outputs rfc3339)
          o in
      let labelled =
        ask_once net outputs rfc3339 QueryKind.type_label (use_label net outputs rfc3339) in
      let nominal =
        ask_once net outputs rfc3339 QueryKind.nominal_ac_power (use_nominal net outputs rfc3339) in
      let max_feed_in =
        ask_once net outputs rfc3339 QueryKind.max_feed_in_power
          (use_max_feed_in net outputs rfc3339) in
      let model = version >>= tell_model net outputs rfc3339 in
      then_kept s₀ (model >>= labelled >>= nominal) max_feed_in
        (then_kept s₀ (model >>= labelled) nominal
          (then_kept s₀ model labelled
            (then_kept s₀ version (tell_model net outputs rfc3339)
              (ask_once-kept QueryKind.software_version (use_version net outputs rfc3339) s₀ o h)
              (tell_model-kept s₀))
            (ask_once-kept QueryKind.type_label (use_label net outputs rfc3339) s₀))
          (ask_once-kept QueryKind.nominal_ac_power (use_nominal net outputs rfc3339) s₀))
        (ask_once-kept QueryKind.max_feed_in_power (use_max_feed_in net outputs rfc3339) s₀)

  -- The identity queries of a start.
  pub identify_each-kept :
      (ts : List Target) (s₀ s : Session T) (w : W)
      → k.rel s₀ s
      → OnReturn (FromIdentified s₀) (identify_each net outputs rfc3339 ts (s, w))
  unfolding identify_each
  identify_each-kept [] s₀ s w h = h
  identify_each-kept (t ∷ ts) s₀ s w h =
      bind-OnReturn (FromStarted s₀) (FromIdentified s₀)
        (identify_target net outputs rfc3339 (t, s, w))
        (λ o. identify_each net outputs rfc3339 ts (o.1, o.2) >>= λ rest.
          returned (Start.kept net outputs rfc3339 rest o.0))
        (identify_target-kept s₀ (t, s, w) h)
        (λ o h'.
          bind-OnReturn (FromIdentified s₀) (FromIdentified s₀)
            (identify_each net outputs rfc3339 ts (o.1, o.2))
            (λ rest. returned (Start.kept net outputs rfc3339 rest o.0))
            (identify_each-kept ts s₀ o.1 o.2 h') (λ rest h''. h''))
