-- ===== src/Daemon/Startup.antt =====
-- `main` of crates/daemon/src/main.rs without a subcommand: from the configuration to the tasks. Reading
-- the file and its YAML, the archive and the server are parameters or left out.
use Prim.Native.String.{String}
use mathlib.Core.List.{map, Memᴰ}
use mathlib.Core.List.Memᴰ
use hass_sma_rs.Prelude.{
  ℕ, ◌*◌, ◌≡◌, ap, ◌∙◌, List, [], ◌∷◌, Bool, Option, none, some, if◌then◌else◌,
}
use hass_sma_rs.Protocol.Mac.{Mac}
use hass_sma_rs.Transport.Rfcomm.Address.{parse_bt_mac}
use hass_sma_rs.Mqtt.Publisher.{
  InverterIdentity, MqttClientConfig, availability_topic, availability_message,
}
use hass_sma_rs.Mqtt.Options.{MqttOptions, connect_with_lwt}
use hass_sma_rs.Daemon.Config.{MqttCfg, DeviceCfg, InverterCfg, ArchiveCfg}
use hass_sma_rs.Daemon.Archive.{Archiver, choose_archiver}
use hass_sma_rs.Daemon.Targets.{mqtt_base, publisher_cfg, lwt_topic, targets_for, session_targets}
use hass_sma_rs.Daemon.Poll.{Target}
use hass_sma_rs.Daemon.Pvoutput.{PvoutputCfg}
use hass_sma_rs.Daemon.Uploader.{UploaderTask, uploader_tasks}
use hass_sma_rs.Daemon.Task.{Settings}

pub record DaemonConfig : Type 0 where
  pub mqtt : MqttCfg
  pub inverters : List InverterCfg
  pub local_bt_address : Option String
  pub rfcomm_timeout : ℕ
  pub metrics_addr : String
  pub archive : Option ArchiveCfg
  pub pvoutput : Option PvoutputCfg

-- The arguments of one `run_inverter`, and the connection of its publisher.
pub record InverterTask : Type 0 where
  pub inv : InverterCfg
  pub local_bt : Option Mac
  pub publisher : MqttClientConfig
  pub connection : MqttOptions
  pub rfcomm_timeout : ℕ
  pub archiver : Archiver

pub record Startup : Type 0 where
  pub inverters : List InverterTask
  pub uploaders : List UploaderTask

-- A text as its bytes, and whether a socket address parses.
pub record Texts : Type 0 where
  pub as_bytes : String → List ℕ
  pub is_address : String → Bool

module _ (texts : Texts) where
  -- `and_then(parse_bt_mac)`: an address that does not parse is left to the kernel to choose.
  abbrev pub local_mac : Option String → Option Mac
  local_mac none = none
  local_mac (some text) = parse_bt_mac (texts.as_bytes text)

  unfoldable pub inverter_task : DaemonConfig → Archiver → InverterCfg → InverterTask
  inverter_task cfg archiver inv =
      let publisher = publisher_cfg (mqtt_base cfg.mqtt) inv in
      record {
        inv = inv;
        local_bt = local_mac cfg.local_bt_address;
        publisher = publisher;
        connection = connect_with_lwt publisher (some (lwt_topic publisher inv));
        rfcomm_timeout = cfg.rfcomm_timeout;
        archiver = archiver;
      }

  -- An address of the metrics endpoint that does not parse ends `main`; `pvoutput` tells whether the
  -- build has the feature.
  unfoldable pub start_up : Bool → (String → Bool) → (String → Bool) → DaemonConfig → Option Startup
  start_up pvoutput connects makes_schema cfg =
      let archiver = choose_archiver connects makes_schema cfg.archive in
      if texts.is_address cfg.metrics_addr
      then some (record {
        inverters = map (inverter_task cfg archiver) cfg.inverters;
        uploaders = uploader_tasks pvoutput cfg.inverters cfg.pvoutput;
      })
      else none

  -- The first lines of `run_inverter`: an address that does not parse ends the task with an error.
  -- The timeout goes over in milliseconds.
  abbrev pub with_mac : InverterTask → ℕ → Option Mac → Option Settings
  with_mac task app_serial none = none
  with_mac task app_serial (some mac) = some (record {
    inv = task.inv;
    inverter_bt = mac;
    local_bt = task.local_bt;
    password = texts.as_bytes task.inv.password;
    app_serial = app_serial;
    timeout_ms = task.rfcomm_timeout * 1000;
  })

  unfoldable pub settings_of : InverterTask → ℕ → Option Settings
  settings_of task app_serial =
      with_mac task app_serial (parse_bt_mac (texts.as_bytes task.inv.bt_address))

  single_will :
      (cfg : MqttClientConfig) (inv : InverterCfg) (identity : InverterIdentity) (susy serial : ℕ)
      (ds : List DeviceCfg) (t : Target)
      → ds ≡ []
      → identity.slot ≡ inv.slot
      → Memᴰ t (targets_for ds identity susy serial)
      → t.identity.slot ≡ inv.slot
  single_will cfg inv identity susy serial [] t none_listed e (Memᴰ.head same) =
      ap (λ (x : Target). x.identity.slot) same ∙ e
  single_will cfg inv identity susy serial [] t none_listed e (Memᴰ.tail m) =
      absurd (Memᴰ.not-nil m)
  single_will cfg inv identity susy serial (d ∷ ds) t none_listed e m = absurd (cc none_listed)

  -- For an inverter with no devices behind it, the last will of its connection is the very message
  -- that tells its target to be offline.
  inverter_task-last_will :
      (cfg : DaemonConfig) (archiver : Archiver) (inv : InverterCfg) (identity : InverterIdentity)
      (susy serial : ℕ) (t : Target)
      → inv.devices ≡ []
      → identity.slot ≡ inv.slot
      → Memᴰ t (session_targets inv identity susy serial)
      → (inverter_task cfg archiver inv).connection.last_will
        ≡ some
            (availability_message (inverter_task cfg archiver inv).publisher t.identity "offline")
  unfolding inverter_task connect_with_lwt lwt_topic availability_topic session_targets
  inverter_task-last_will cfg archiver inv identity susy serial t single e m = rw (
      single_will (mqtt_base cfg.mqtt) inv (record identity { serial = serial }) susy serial
        inv.devices t single e m)
