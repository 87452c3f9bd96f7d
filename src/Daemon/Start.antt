-- ===== src/Daemon/Start.antt =====
-- What `run_inverter` of crates/daemon/src/main.rs asks each target once, behind a logon: the event log
-- of the last day, if it is enabled, and the identity.
pub mod Ends
pub mod Sessions
use Prim.Native.String.{String}
use hass_sma_rs.Prelude.{
  ℕ, ◌+◌, ◌-◌, List, [], ◌∷◌, Bool, Option, none, some, leb, if◌then◌else◌, length, Result, ok, err,
}
use hass_sma_rs.Prelude.Texts.{◌<>◌, decimal}
use hass_sma_rs.Protocol.Commands.{QueryKind}
use hass_sma_rs.Transport.Interface.{Transport}
use hass_sma_rs.Client.Errors.{SessionError}
use hass_sma_rs.Client.Session.{Session}
use hass_sma_rs.Client.Session.Query.{query_for_device, query_event_log_for_device}
use hass_sma_rs.Client.Values.Readings.{parse_single_watts_record}
use hass_sma_rs.Client.Values.Electrical.{parse_type_label_raw}
use hass_sma_rs.Client.Values.EventLog.{EventRecord, tag, parse_event_log_records}
use hass_sma_rs.Client.Values.Names.{type_label_text, event_text, parse_software_version, or_else}
use hass_sma_rs.Mqtt.Publisher.{InverterIdentity, Outcome, panicked, returned}
use hass_sma_rs.Daemon.Readings.{Outputs, ◌>>=◌}
use hass_sma_rs.Daemon.Poll.{Target}

-- `iter().max_by_key(|r| r.timestamp)`, the last of several.
abbrev pub later_of : EventRecord → Option EventRecord → EventRecord
later_of r none = r
later_of r (some s) = if leb r.timestamp s.timestamp then s else r

unfoldable pub latest : List EventRecord → Option EventRecord
latest [] = none
latest (r ∷ rest) = some (later_of r (latest rest))

abbrev pub bind_option : {A B : Type 0} → Option A → (A → Option B) → Option B
bind_option none f = none
bind_option (some a) f = f a

-- The day up to a reading of the clock: `saturating_sub(86_400)`.
abbrev pub day_before : ℕ → ℕ
day_before end = end - 86400

module _ {T F W : Type 0} (net : Transport T) (outputs : Outputs F W) (rfc3339 : ℕ → String) where
  abbrev pub Started : Type 0
  Started = Target × Session T × W

  abbrev pub tell : Target → String → String → W → Outcome W
  tell t key text w = outputs.put_value w t.identity key text

  abbrev pub tell_latest : Target → List EventRecord → W → Option EventRecord → Outcome W
  tell_latest t records w none = returned w
  tell_latest t records w (some r) =
      tell t "last_event" (or_else (event_text r) ("TagID " <> decimal (tag r))) w
      >>= tell t "last_event_at" (rfc3339 r.timestamp)
      >>= tell t "last_event_count_24h" (decimal (length records))

  abbrev pub on_event_log :
      Target → W → Result SessionError (List ℕ) × Session T → Outcome (Session T × W)
  on_event_log t w (ok body, s) =
      tell_latest t (parse_event_log_records body) w (latest (parse_event_log_records body))
      >>= λ w'. returned (s, w')
  on_event_log t w (err e, s) = returned (s, w)

  -- The event log of each target. A query that fails is logged only.
  unfoldable pub fetch_event_logs : ℕ → List Target → Session T × W → Outcome (Session T × W)
  fetch_event_logs end [] world = returned world
  fetch_event_logs end (t ∷ ts) (s, w) =
      on_event_log t w (query_event_log_for_device net t.susy t.serial (day_before end) end s)
      >>= fetch_event_logs end ts

  abbrev pub Use : Type 0
  Use = List ℕ → Target → W → Outcome (Target × W)

  abbrev pub with_session : Session T → Target × W → Outcome Started
  with_session s (t, w) = returned (t, s, w)

  abbrev pub on_body : Use → Target → W → Result SessionError (List ℕ) × Session T → Outcome Started
  on_body use_body t w (ok body, s) = use_body body t w >>= with_session s
  on_body use_body t w (err e, s) = returned (t, s, w)

  -- A query whose failure is passed over.
  unfoldable pub ask_once : QueryKind → Use → Started → Outcome Started
  ask_once kind use_body (t, s, w) =
      on_body use_body t w (query_for_device net t.susy t.serial kind s)

  abbrev pub set_firmware : Target → W → Option String → Outcome (Target × W)
  set_firmware t w none = returned (t, w)
  set_firmware t w (some version) = tell t "firmware_version" version w >>= λ w'.
      returned (record t { identity = record t.identity { firmware = version } }, w')

  abbrev pub set_model : Target → W → Option String → Outcome (Target × W)
  set_model t w none = returned (t, w)
  set_model t w (some model) = tell t "inverter_model" model w >>= λ w'.
      returned (record t { identity = record t.identity { model = model } }, w')

  abbrev pub tell_watts : String → Target → W → Option ℕ → Outcome (Target × W)
  tell_watts key t w none = returned (t, w)
  tell_watts key t w (some watts) = tell t key (decimal watts) w >>= λ w'. returned (t, w')

  abbrev pub use_version : Use
  use_version body t w = set_firmware t w (parse_software_version body)

  abbrev pub use_label : Use
  use_label body t w = set_model t w (bind_option (parse_type_label_raw body) type_label_text)

  abbrev pub use_nominal : Use
  use_nominal body t w =
      tell_watts "nominal_ac_power_w" t w (parse_single_watts_record body 0x00411e00 0x00411e19)

  abbrev pub use_max_feed_in : Use
  use_max_feed_in body t w =
      tell_watts "max_feedin_w" t w (parse_single_watts_record body 0x00411f00 0x00411f19)

  -- The configured model goes out first, and stays if the label is unknown.
  abbrev pub tell_model : Started → Outcome Started
  tell_model (t, s, w) = tell t "inverter_model" t.identity.model w >>= λ w'. returned (t, s, w')

  unfoldable pub identify_target : Started → Outcome Started
  unfolding ask_once
  identify_target start =
      ask_once QueryKind.software_version use_version start
      >>= tell_model
      >>= ask_once QueryKind.type_label use_label
      >>= ask_once QueryKind.nominal_ac_power use_nominal
      >>= ask_once QueryKind.max_feed_in_power use_max_feed_in

  abbrev pub kept : List Target × Session T × W → Target → List Target × Session T × W
  kept (ts, s, w) t = (t ∷ ts, s, w)

  -- Every target in turn, with what was learnt of it.
  unfoldable pub identify_each : List Target → Session T × W → Outcome (List Target × Session T × W)
  unfolding identify_target
  identify_each [] (s, w) = returned ([], s, w)
  identify_each (t ∷ ts) (s, w) = identify_target (t, s, w) >>= λ o.
      identify_each ts (o.1, o.2) >>= λ rest. returned (kept rest o.0)
