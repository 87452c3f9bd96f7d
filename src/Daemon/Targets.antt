-- ===== src/Daemon/Targets.antt =====
-- Which devices the task of an inverter serves, in crates/daemon/src/main.rs: the identities that are
-- announced, the targets of a session, and the topic of the last will.
use Prim.Native.String.{String}
use text.Mathlib.TextLemmas.{append_cancel_left, append_cancel_right}
use mathlib.Core.List.{map}
use hass_sma_rs.Prelude.{ℕ, ◌%◌, ◌≡◌, ◌≢◌, refl, ap, List, [], ◌∷◌, Bool, ◌&&◌, ltb, ◌==◌, All}
use hass_sma_rs.Prelude.Texts.{◌<>◌}
use hass_sma_rs.Mqtt.Publisher.{
  InverterIdentity, MqttClientConfig, solar_inverter, availability_topic,
}
use hass_sma_rs.Daemon.Config.{InverterCfg, DeviceCfg, MqttCfg}
use hass_sma_rs.Daemon.Poll.{Target}

-- The identity of the task before the first session.
unfoldable pub initial_identity : InverterCfg → InverterIdentity
initial_identity inv = record {
  slot = inv.slot;
  serial = 0;
  model = inv.model;
  firmware = inv.firmware;
  kind = solar_inverter;
}

abbrev pub device_identity : InverterCfg → DeviceCfg → InverterIdentity
device_identity inv d = record {
  slot = d.slot;
  serial = d.app_serial;
  model = d.model;
  firmware = inv.firmware;
  kind = solar_inverter;
}

-- The identities known up front, none for a single device.
unfoldable pub configured_identities : InverterCfg → List InverterIdentity
configured_identities inv = map (device_identity inv) inv.devices

abbrev pub device_target : InverterIdentity → ℕ → DeviceCfg → Target
device_target identity susy d = record {
  identity = record identity { slot = d.slot; serial = d.app_serial; model = d.model };
  susy = susy;
  serial = d.app_serial;
}

abbrev pub targets_for : List DeviceCfg → InverterIdentity → ℕ → ℕ → List Target
targets_for [] identity susy serial =
    record { identity = identity; susy = susy; serial = serial } ∷ []
targets_for (d ∷ ds) identity susy serial = map (device_target identity susy) (d ∷ ds)

-- The targets of a session, by what its init reply said.
unfoldable pub session_targets : InverterCfg → InverterIdentity → ℕ → ℕ → List Target
session_targets inv identity susy serial =
    targets_for inv.devices (record identity { serial = serial }) susy serial

-- What is announced at the end of a session's start, from what was before.
abbrev pub announced_after : List InverterIdentity → List Target → List InverterIdentity
announced_after [] targets = map (λ (t : Target). t.identity) targets
announced_after (id ∷ ids) targets = id ∷ ids

-- The identities told to be offline: the announced ones, or that of the task.
abbrev pub told_offline : InverterIdentity → List InverterIdentity → List InverterIdentity
told_offline identity [] = identity ∷ []
told_offline identity (id ∷ ids) = id ∷ ids

-- `poll_count.is_multiple_of(yield_every)`, if yields are on.
abbrev pub yields_at : InverterCfg → ℕ → Bool
yields_at inv poll_count = ltb 0 inv.yield_every && poll_count % inv.yield_every == 0

unfoldable pub mqtt_base : MqttCfg → MqttClientConfig
mqtt_base cfg = record {
  host = cfg.host;
  port = cfg.port;
  user = cfg.user;
  password = cfg.password;
  client_id = cfg.client_id;
  keep_alive = 30;
  discovery_prefix = cfg.discovery_prefix;
  state_prefix = cfg.state_prefix;
}

-- The publisher of one inverter: its own client id, and the topic of its last will.
unfoldable pub publisher_cfg : MqttClientConfig → InverterCfg → MqttClientConfig
publisher_cfg base inv = record base { client_id = base.client_id <> "-" <> inv.slot }

unfoldable pub lwt_topic : MqttClientConfig → InverterCfg → String
lwt_topic cfg inv = cfg.state_prefix <> "/" <> inv.slot <> "/availability"

abbrev slots_of : List InverterIdentity → List String
slots_of ids = map (λ (id : InverterIdentity). id.slot) ids

abbrev target_slots : List Target → List String
target_slots targets = map (λ (t : Target). t.identity.slot) targets

module _ (inv : InverterCfg) (identity : InverterIdentity) (susy serial : ℕ) where
  device_slots :
      (ds : List DeviceCfg)
      → slots_of (map (device_identity inv) ds)
        ≡ target_slots (map (device_target (record identity { serial = serial }) susy) ds)
  device_slots [] = refl
  device_slots (d ∷ ds) = ap (λ (slots : List String). d.slot ∷ slots) (device_slots ds)

  told_slots :
      (ds : List DeviceCfg)
      → (task : InverterIdentity)
      → slots_of (
          told_offline task (
            announced_after
              (map (device_identity inv) ds)
              (targets_for ds (record identity { serial = serial }) susy serial)))
        ≡ target_slots (targets_for ds (record identity { serial = serial }) susy serial)
  told_slots [] task = refl
  told_slots (d ∷ ds) task = ap (λ (slots : List String). d.slot ∷ slots) (device_slots ds)

  -- After a first session, with devices in the configuration or without, the change to offline goes
  -- to the slots of the targets that were told to be online, in order, and to no other.
  told_offline-targets :
      (task : InverterIdentity)
      → slots_of (
          told_offline task (
            announced_after (configured_identities inv) (session_targets inv identity susy serial)))
        ≡ target_slots (session_targets inv identity susy serial)
  unfolding configured_identities session_targets
  told_offline-targets task = told_slots inv.devices task

  abbrev IsElsewhere : DeviceCfg → Type 0
  IsElsewhere d = d.slot ≢ inv.slot

  -- The last will is heard by no sensor of the target.
  abbrev pub Unheard : MqttClientConfig → Target → Type 0
  Unheard cfg t = availability_topic cfg t.identity ≢ lwt_topic cfg inv

  devices-Unheard :
      (cfg : MqttClientConfig) (id : InverterIdentity) (ds : List DeviceCfg)
      → All IsElsewhere ds
      → All (Unheard cfg) (map (device_target id susy) ds)
  unfolding availability_topic lwt_topic
  devices-Unheard cfg id [] h = tt
  devices-Unheard cfg id (d ∷ ds) (other, h) = (
    λ e. other (
        append_cancel_right d.slot inv.slot "/availability"
          (append_cancel_left "/" _ _ (append_cancel_left cfg.state_prefix _ _ e))),
    devices-Unheard cfg id ds h,
  )

  -- Behind a repeater with a slot of its own, the last will goes to a topic that none of the
  -- targets has for its availability: a daemon that dies leaves them online.
  pub lwt_topic-Unheard :
      (cfg : MqttClientConfig) (d : DeviceCfg) (ds : List DeviceCfg)
      → inv.devices ≡ d ∷ ds
      → All IsElsewhere (d ∷ ds)
      → All (Unheard cfg) (session_targets inv identity susy serial)
  unfolding session_targets lwt_topic
  lwt_topic-Unheard cfg d ds e h =
      rw e (devices-Unheard cfg (record identity { serial = serial }) (d ∷ ds) h)
