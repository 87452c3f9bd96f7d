-- ===== src/Daemon/Task.antt =====
-- `run_inverter` of crates/daemon/src/main.rs as a whole: the task of one inverter, from connecting
-- over the logon and the polls back to connecting. Times are in seconds.
pub mod Keeps
pub mod Refines
pub mod Holds
pub mod Serves
pub mod Yields
use Prim.Native.String.{String}
use hass_sma_rs.Prelude.{
  ℕ, suc, ◌+◌, ◌%◌, ◌^◌, List, [], ◌∷◌, ◌++◌, Bool, true, false, not, ◌&&◌, Option, none, some,
  if◌then◌else◌, Result, ok, err, ◌≡◌,
}
use hass_sma_rs.Protocol.Mac.{Mac}
use hass_sma_rs.Protocol.Auth.{user}
use hass_sma_rs.Transport.Interface.{Transport, TransportError}
use hass_sma_rs.Transport.Rfcomm.Socket.{Kernel, RfcommTransport, connect_blocking}
use hass_sma_rs.Transport.Rfcomm.Link.{Link, rfcomm}
use hass_sma_rs.Client.Errors.{SessionError}
use hass_sma_rs.Client.Session.{Session, SessionConfig, new_with_app_serial}
use hass_sma_rs.Client.Session.Handshake.{zero_bt, handshake_and_logon}
use hass_sma_rs.Client.Session.Query.{close, graceful_close}
use hass_sma_rs.Mqtt.Publisher.{InverterIdentity, Outcome, panicked, returned}
use hass_sma_rs.Daemon.Config.{InverterCfg}
use hass_sma_rs.Daemon.Readings.{Floats, Outputs, ◌>>=◌}
use hass_sma_rs.Daemon.Backoff.{
  Reconnect, Effect, publish_online, in_grace, host_down, goes_offline, on_connect_failed,
  on_connected, on_handshake_failed, grace_after,
}
use hass_sma_rs.Daemon.Targets.{session_targets, announced_after, told_offline, yields_at}
use hass_sma_rs.Daemon.Poll.{Target, Visit, Tracker, fresh, Swept, sweep}
use hass_sma_rs.Daemon.Start.{fetch_event_logs, identify_each}

-- What the task was started with; the application serial, and the password as bytes.
pub record Settings : Type 0 where
  pub inv : InverterCfg
  pub inverter_bt : Mac
  pub local_bt : Option Mac
  pub password : List ℕ
  pub app_serial : ℕ
  pub timeout_ms : ℕ

-- `announce`, `publish_online` and `publish_offline` of a publisher whose errors are logged only.
pub record Broker (W : Type 0) : Type 0 where
  pub announce : W → InverterIdentity → W
  pub online : W → InverterIdentity → W
  pub offline : W → InverterIdentity → W

-- The variables that outlive a session.
pub record Task (W : Type 0) : Type 0 where
  pub reconnect : Reconnect
  pub identity : InverterIdentity
  pub announced : List InverterIdentity
  pub out : W

-- The variables of the poll loop.
pub record Serving (K : Type 0) : Type 0 where
  pub session : Session (Link K)
  pub targets : List Target
  pub tracker : Tracker
  pub poll_count : ℕ

-- Where the task is: in front of a connect, of a logon, or of a tick; or dead, after a panic.
pub data Stage (K W : Type 0) : Type 0 where
  connecting : K → Task W → Stage K W
  linked : Task W → Session (Link K) → Stage K W
  serving : Task W → Serving K → Stage K W
  dead : Stage K W

-- The readings of the clocks for one target of a sweep.
pub record Reading : Type 0 where
  pub gate_now : ℕ
  pub end_now : ℕ
  pub poll_time : String
  pub uptime : String

unfoldable pub visits : (ℕ → Reading) → ℕ → List Target → List Visit
visits readings n [] = []
visits readings n (t ∷ ts) =
    record {
      target = t;
      gate_now = (readings n).gate_now;
      end_now = (readings n).end_now;
      poll_time = (readings n).poll_time;
      uptime = (readings n).uptime;
    }
    ∷ visits readings (suc n) ts

-- `local_bt.unwrap_or([0; 6])`
abbrev pub or_any : Option Mac → Mac
or_any none = zero_bt
or_any (some mac) = mac

unfoldable pub session_config : Settings → SessionConfig
session_config cfg = record {
  inverter_bt = cfg.inverter_bt;
  local_bt = or_any cfg.local_bt;
  password = cfg.password;
  user_group = user;
  timeout_ms = cfg.timeout_ms;
  mis_enabled = cfg.inv.mis_enabled;
}

module _ {W : Type 0} (broker : Broker W) where
  unfoldable pub all_offline : List InverterIdentity → W → W
  all_offline [] w = w
  all_offline (id ∷ ids) w = all_offline ids (broker.offline w id)

  -- A failed announcement does not keep the target from being online.
  unfoldable pub announce_targets : List Target → W → W
  announce_targets [] w = w
  announce_targets (t ∷ ts) w =
      announce_targets ts (broker.online (broker.announce w t.identity) t.identity)

  abbrev pub tells_offline : Bool → ℕ → Reconnect → Bool
  tells_offline is_down now r =
      is_down && not (in_grace r.post_yield_deadline now) && goes_offline (host_down r)

  -- A connect that fails, at two readings of the clock.
  unfoldable pub on_refused : Bool → ℕ → ℕ → Task W → Task W
  unfolding all_offline
  on_refused is_down now now' t = record t {
    reconnect = (on_connect_failed is_down now now' t.reconnect).0;
    out =
        if tells_offline is_down now t.reconnect
        then all_offline (told_offline t.identity t.announced) t.out
        else t.out;
  }

  unfoldable pub on_accepted : Task W → Task W
  on_accepted t = record t { reconnect = on_connected t.reconnect }

  unfoldable pub on_rejected : Task W → Task W
  on_rejected t = record t { reconnect = (on_handshake_failed t.reconnect).0 }

  -- Behind a logon that gave a serial: the identity, the announcements, and online again.
  unfoldable pub on_logon : InverterCfg → ℕ → ℕ → Task W → Task W
  unfolding announce_targets
  on_logon inv susy serial t =
      let targets = session_targets inv t.identity susy serial in
      record t {
        reconnect = record t.reconnect { published_offline = false };
        identity = record t.identity { serial = serial };
        announced = announced_after t.announced targets;
        out = announce_targets targets t.out;
      }

abbrev pub with_out : {W : Type 0} → Task W → W → Task W
with_out t w = record t { out = w }

-- The end of a session by a yield, at the time behind its pause.
unfoldable pub on_yield : {W : Type 0} → ℕ → Task W → Task W
on_yield now t = record t {
  reconnect = record t.reconnect { post_yield_deadline = grace_after (some now) };
}

abbrev pub counted_poll : {K : Type 0} → Serving K → Serving K
counted_poll v = record v { poll_count = (v.poll_count + 1) % 2 ^ 32 }

module _ {K F W : Type 0} (sys : Kernel K) (fuel : ℕ) (floats : Floats F) (outputs : Outputs F W)
    (rfc3339 : ℕ → String) (broker : Broker W) (cfg : Settings) where
  unfoldable pub new_session : Link K → Session (Link K)
  new_session link = new_with_app_serial link (session_config cfg) cfg.app_serial

  -- `session.close()` behind a failed logon.
  unfoldable pub reject : Task W → Session (Link K) → Stage K W
  reject t s = connecting (close (rfcomm sys fuel) s).1.link.1 (on_rejected broker t)

  -- `session.graceful_close()` at the end of the outer loop.
  unfoldable pub leave : Task W → Session (Link K) → Stage K W
  leave t s = connecting (graceful_close (rfcomm sys fuel) s).1.link.1 t

  abbrev pub fetch : ℕ → List Target → Session (Link K) × W → Outcome (Session (Link K) × W)
  fetch end targets world =
      if cfg.inv.event_log_enabled
      then fetch_event_logs (rfcomm sys fuel) outputs rfc3339 end targets world
      else returned world

  abbrev pub served : Task W → Outcome (List Target × Session (Link K) × W) → Stage K W
  served t panicked = dead
  served t (returned (targets, s, w)) =
      serving (with_out t w)
        (record { session = s; targets = targets; tracker = fresh; poll_count = 0 })

  -- From a logon to the first tick.
  unfoldable pub welcome : ℕ → Task W → Session (Link K) → Stage K W
  welcome end t s =
      let targets = session_targets cfg.inv t.identity s.inverter_susy_id s.inverter_serial in
      let t' = on_logon broker cfg.inv s.inverter_susy_id s.inverter_serial t in
      served t'
        (fetch end targets (s, t'.out) >>= identify_each (rfcomm sys fuel) outputs rfc3339 targets)

  abbrev pub swept :
      Task W → Serving K → Outcome (Swept (rfcomm sys fuel) floats outputs) → Stage K W
  swept t v panicked = dead
  swept t v (returned o) =
      if o.cycle_ok
      then serving (with_out t o.world.1) (record v { session = o.world.0; tracker = o.tracker })
      else leave (with_out t o.world.1) o.world.0

  -- The session is closed in front of the pause, and once more behind the loop.
  unfoldable pub yield_session : ℕ → Task W → Serving K → Stage K W
  unfolding leave
  yield_session now t v = leave (on_yield now t) (graceful_close (rfcomm sys fuel) v.session).1

  -- One tick: a yield, or a sweep over the targets. `now` is the time behind the pause of a yield.
  unfoldable pub tick : (ℕ → Reading) → ℕ → Task W → Serving K → Stage K W
  unfolding leave yield_session visits
  tick readings now t v =
      let v' = counted_poll v in
      if yields_at cfg.inv v'.poll_count
      then yield_session now t v'
      else swept t v' (
          sweep (rfcomm sys fuel) floats outputs (visits readings 0 v'.targets) 0 v'.tracker
            (v'.session, t.out))

  -- The steps of the task, with what its back-off makes it do; the pause of a yield, whose length is
  -- in the configuration, is not among that. Whether a failed connect finds the host down, and what
  -- the clocks say, is open.
  pub data Step : Stage K W → List Effect → Stage K W → Type 0 where
    refused :
        {k k' : K} {t : Task W} {e : TransportError} (is_down : Bool) (now now' : ℕ)
        → connect_blocking sys cfg.inverter_bt cfg.local_bt k ≡ (err e, k')
        → Step
            (connecting k t)
            (on_connect_failed is_down now now' t.reconnect).1
            (connecting k' (on_refused broker is_down now now' t))
    accepted :
        {k k' : K} {t : Task W} {socket : RfcommTransport}
        → connect_blocking sys cfg.inverter_bt cfg.local_bt k ≡ (ok socket, k')
        → Step (connecting k t) [] (linked (on_accepted broker t) (new_session (socket, k')))
    rejected :
        {t : Task W} {s s' : Session (Link K)} {e : SessionError} (now_epoch : ℕ)
        → handshake_and_logon (rfcomm sys fuel) now_epoch s ≡ (err e, s')
        → Step (linked t s) (on_handshake_failed t.reconnect).1 (reject t s')
    welcomed :
        {t : Task W} {s s' : Session (Link K)} (now_epoch end : ℕ)
        → handshake_and_logon (rfcomm sys fuel) now_epoch s ≡ (ok tt, s')
        → Step (linked t s) (publish_online ∷ []) (welcome end t s')
    ticked :
        {t : Task W} {v : Serving K} (readings : ℕ → Reading) (now : ℕ)
        → Step (serving t v) [] (tick readings now t v)

  -- Any number of steps.
  pub data Run (a : Stage K W) : List Effect → Stage K W → Type 0 where
    here : Run a [] a
    further :
        {b c : Stage K W} {es fs : List Effect} → Run a es b → Step b fs c → Run a (es ++ fs) c
