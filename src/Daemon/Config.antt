-- ===== src/Daemon/Config.antt =====
-- crates/daemon/src/config.rs: the configuration, with the values of the fields that may be left out.
-- Durations are in seconds. The YAML reader is not modelled.
use Prim.Native.String.{String}
use hass_sma_rs.Prelude.{ℕ, Bool, false, Option, none, List, []}

pub record MqttCfg : Type 0 where
  pub host : String
  pub port : ℕ
  pub user : Option String
  pub password : Option String
  pub client_id : String
  pub discovery_prefix : String
  pub state_prefix : String

pub record DeviceCfg : Type 0 where
  pub slot : String
  pub app_serial : ℕ
  pub password : Option String
  pub model : String

pub record InverterCfg : Type 0 where
  pub slot : String
  pub bt_address : String
  pub password : String
  pub poll_interval : ℕ
  pub model : String
  pub firmware : String
  pub mis_enabled : Bool
  pub yield_every : ℕ
  pub yield_duration : ℕ
  pub devices : List DeviceCfg
  pub event_log_enabled : Bool

pub record ArchiveCfg : Type 0 where
  pub csv_dir : Option String
  pub timescale_url : Option String

abbrev pub default_metrics_addr : String
default_metrics_addr = "0.0.0.0:9090"

abbrev pub default_mqtt_port : ℕ
default_mqtt_port = 1883

abbrev pub default_client_id : String
default_client_id = "hass-sma-rs"

abbrev pub default_discovery_prefix : String
default_discovery_prefix = "homeassistant"

abbrev pub default_state_prefix : String
default_state_prefix = "hass-sma"

abbrev pub default_rfcomm_timeout : ℕ
default_rfcomm_timeout = 15

abbrev pub default_poll : ℕ
default_poll = 5

abbrev pub default_model : String
default_model = "unknown"

abbrev pub default_firmware : String
default_firmware = "unknown"

abbrev pub default_yield_duration : ℕ
default_yield_duration = 60

-- An entry that gives what it must only.
unfoldable pub minimal_mqtt : String → MqttCfg
minimal_mqtt host = record {
  host = host;
  port = default_mqtt_port;
  user = none;
  password = none;
  client_id = default_client_id;
  discovery_prefix = default_discovery_prefix;
  state_prefix = default_state_prefix;
}

unfoldable pub minimal_inverter : String → String → String → InverterCfg
minimal_inverter slot bt_address password = record {
  slot = slot;
  bt_address = bt_address;
  password = password;
  poll_interval = default_poll;
  model = default_model;
  firmware = default_firmware;
  mis_enabled = false;
  yield_every = 0;
  yield_duration = default_yield_duration;
  devices = [];
  event_log_enabled = false;
}
