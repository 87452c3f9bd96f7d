-- ===== src/Daemon/Task/Keeps.antt =====
-- What the start of a session keeps of it, event log and identity queries together.
use Prim.Native.String.{String}
use hass_sma_rs.Prelude.{ℕ, List, Bool, true, false, if◌then◌else◌}
use hass_sma_rs.Transport.Rfcomm.Socket.{Kernel}
use hass_sma_rs.Transport.Rfcomm.Link.{Link, rfcomm}
use hass_sma_rs.Client.Session.{Session}
use hass_sma_rs.Client.Session.Keeps.{Kept}
use hass_sma_rs.Mqtt.Publisher.{returned}
use hass_sma_rs.Daemon.Readings.{Floats, Outputs, ◌>>=◌}
use hass_sma_rs.Daemon.Poll.{Target}
use hass_sma_rs.Daemon.Poll.Sessions.{OnReturn, bind-OnReturn}
use hass_sma_rs.Daemon.Start.Sessions.{
  FromIdentified, FromLogs, fetch_event_logs-kept, identify_each-kept,
}
use hass_sma_rs.Daemon.Start.{fetch_event_logs, identify_each}
use hass_sma_rs.Daemon.Task.{Settings, Broker, fetch}

module _ {K F W : Type 0} (sys : Kernel K) (fuel : ℕ) (floats : Floats F) (outputs : Outputs F W)
    (rfc3339 : ℕ → String) (broker : Broker W) (cfg : Settings) (k : Kept (rfcomm sys fuel)) where
  fetch-kept :
      (enabled : Bool) (end : ℕ) (targets : List Target) (s : Session (Link K)) (w : W)
      → OnReturn (FromLogs (rfcomm sys fuel) k outputs rfc3339 s) (
          if enabled
          then fetch_event_logs (rfcomm sys fuel) outputs rfc3339 end targets (s, w)
          else returned (s, w))
  fetch-kept true end targets s w =
      fetch_event_logs-kept (rfcomm sys fuel) k outputs rfc3339 end targets s s w (k.reflexive s)
  fetch-kept false end targets s w = k.reflexive s

  pub start-kept :
      (end : ℕ) (targets : List Target) (s : Session (Link K)) (w : W)
      → OnReturn (FromIdentified (rfcomm sys fuel) k outputs rfc3339 s) (
          fetch sys fuel floats outputs rfc3339 broker cfg end targets (s, w)
          >>= identify_each (rfcomm sys fuel) outputs rfc3339 targets)
  start-kept end targets s w =
      bind-OnReturn (FromLogs (rfcomm sys fuel) k outputs rfc3339 s)
        (FromIdentified (rfcomm sys fuel) k outputs rfc3339 s)
        (fetch sys fuel floats outputs rfc3339 broker cfg end targets (s, w))
        (identify_each (rfcomm sys fuel) outputs rfc3339 targets)
        (fetch-kept cfg.inv.event_log_enabled end targets s w)
        (λ o r. identify_each-kept (rfcomm sys fuel) k outputs rfc3339 targets s o.0 o.1 r)
