-- ===== src/Mqtt/Publisher.antt =====
-- crates/mqtt-discovery/src/client.rs and config.rs: topics, discovery payloads and state updates.
-- The MQTT client is a parameter.
use Prim.Native.String.{String}
use text.Mathlib.Text.{◌==◌}
use hass_sma_rs.Prelude.{
  ℕ, Bool, true, false, Option, none, some, List, [], ◌∷◌, if◌then◌else◌, Result, ok, err,
}
use hass_sma_rs.Prelude.Texts.{◌<>◌, decimal}
use hass_sma_rs.Mqtt.Catalog.{SensorConfig, sensor_catalog}

pub data DeviceKind : Type 0 where
  solar_inverter bluetooth_repeater battery_inverter : DeviceKind

pub record InverterIdentity : Type 0 where
  pub slot : String
  pub serial : ℕ
  pub model : String
  pub firmware : String
  pub kind : DeviceKind

-- `keep_alive` in seconds.
pub record MqttClientConfig : Type 0 where
  pub host : String
  pub port : ℕ
  pub user : Option String
  pub password : Option String
  pub client_id : String
  pub keep_alive : ℕ
  pub discovery_prefix : String
  pub state_prefix : String

unfoldable pub default_config : MqttClientConfig
default_config = record {
  host = "core-mosquitto";
  port = 1883;
  user = none;
  password = none;
  client_id = "hass-sma-rs";
  keep_alive = 30;
  discovery_prefix = "homeassistant";
  state_prefix = "hass-sma";
}

-- The values of a payload, with the fields of an object in the order in which they were set.
mutual
  pub data Json : Type 0 where
    string : String → Json
    bool : Bool → Json
    array : List String → Json
    object : Fields → Json

  pub data Fields : Type 0 where
    empty : Fields
    field : String → Json → Fields → Fields

pub data QoS : Type 0 where
  at_most_once at_least_once : QoS

pub data Payload : Type 0 where
  bytes : String → Payload
  json : Json → Payload

pub record Message : Type 0 where
  pub topic : String
  pub qos : QoS
  pub retain : Bool
  pub payload : Payload

-- `AsyncClient::publish`: `false` when the request is refused.
pub record MqttClient (C : Type 0) : Type 0 where
  pub publish : C → Message → Bool × C

pub data PublisherError : Type 0 where
  client : PublisherError

-- `expect` on a missing value panics; nothing behind it runs.
pub data Outcome (A : Type 0) : Type 0 where
  panicked : Outcome A
  returned : A → Outcome A

unfoldable pub availability_topic : MqttClientConfig → InverterIdentity → String
availability_topic cfg inv = cfg.state_prefix <> "/" <> inv.slot <> "/availability"

unfoldable pub discovery_topic : MqttClientConfig → InverterIdentity → SensorConfig → String
discovery_topic cfg inv s =
    cfg.discovery_prefix <> "/sensor/sbfspot_" <> inv.slot <> "_" <> s.key <> "/config"

unfoldable pub state_topic : MqttClientConfig → InverterIdentity → SensorConfig → String
state_topic cfg inv s = cfg.state_prefix <> "/" <> inv.slot <> "/" <> s.key

abbrev pub set_field : String → Json → Fields → Fields
set_field name v empty = field name v empty
set_field name v (field other w rest) =
    if other == name then field name v rest else field other w (set_field name v rest)

unfoldable pub add_optional : Fields → String → Option String → Fields
add_optional obj name none = obj
add_optional obj name (some v) = set_field name (string v) obj

abbrev pub device_block : InverterIdentity → Json
device_block inv = object (
    field "identifiers" (array (("sbfspot_" <> decimal inv.serial) ∷ [])) (
      field "name" (string ("SBFspot " <> inv.slot)) (
        field "manufacturer" (string "SMA (hass-sma-rs)")
          (field "model" (string inv.model) (field "sw_version" (string inv.firmware) empty)))))

abbrev pub base_fields : MqttClientConfig → InverterIdentity → SensorConfig → Fields
base_fields cfg inv s = field "name" (string s.name) (
    field "unique_id" (string ("sbfspot_" <> inv.slot <> "_" <> decimal inv.serial <> "_" <> s.key))
      (field "object_id" (string ("sbfspot_" <> inv.slot <> "_" <> s.key)) (
        field "has_entity_name" (bool true) (
          field "state_topic" (string (state_topic cfg inv s)) (
            field "availability_topic" (string (availability_topic cfg inv)) (
              field "payload_available" (string "online") (
                field "payload_not_available" (string "offline")
                  (field "icon" (string s.icon) (field "device" (device_block inv) empty)))))))))

abbrev pub with_category : Bool → Fields → Fields
with_category false obj = obj
with_category true obj = set_field "entity_category" (string "diagnostic") obj

unfoldable pub config_fields : MqttClientConfig → InverterIdentity → SensorConfig → Fields
unfolding add_optional
config_fields cfg inv s = with_category s.diagnostic (
    add_optional
      (add_optional (add_optional (base_fields cfg inv s) "device_class" s.device_class)
        "state_class" s.state_class)
      "unit_of_measurement" s.unit)

unfoldable pub config_message : MqttClientConfig → InverterIdentity → SensorConfig → Message
config_message cfg inv s = record {
  topic = discovery_topic cfg inv s;
  qos = at_least_once;
  retain = true;
  payload = json (object (config_fields cfg inv s));
}

abbrev pub availability_message : MqttClientConfig → InverterIdentity → String → Message
availability_message cfg inv status = record {
  topic = availability_topic cfg inv;
  qos = at_least_once;
  retain = true;
  payload = bytes status;
}

abbrev pub value_message : MqttClientConfig → InverterIdentity → SensorConfig → String → Message
value_message cfg inv s value = record {
  topic = state_topic cfg inv s;
  qos = at_most_once;
  retain = false;
  payload = bytes value;
}

abbrev pub find_sensor : List SensorConfig → String → Option SensorConfig
find_sensor [] key = none
find_sensor (s ∷ rest) key = if s.key == key then some s else find_sensor rest key

module _ {C : Type 0} (mqtt : MqttClient C) where
  abbrev pub publish_result : Bool × C → Result PublisherError (Unit {0}) × C
  publish_result (true, c) = (ok tt, c)
  publish_result (false, c) = (err client, c)

  unfoldable pub publish_online :
      MqttClientConfig → InverterIdentity → C → Result PublisherError (Unit {0}) × C
  publish_online cfg inv c = publish_result (mqtt.publish c (availability_message cfg inv "online"))

  unfoldable pub publish_offline :
      MqttClientConfig → InverterIdentity → C → Result PublisherError (Unit {0}) × C
  publish_offline cfg inv c =
      publish_result (mqtt.publish c (availability_message cfg inv "offline"))

  -- The loop of `announce`, up to the first refused request.
  unfoldable pub announce_each :
      MqttClientConfig
      → InverterIdentity
      → List SensorConfig
      → Bool × C
      → Result PublisherError (Unit {0}) × C
  announce_each cfg inv rest (false, c) = (err client, c)
  announce_each cfg inv [] (true, c) = (ok tt, c)
  announce_each cfg inv (s ∷ rest) (true, c) =
      announce_each cfg inv rest (mqtt.publish c (config_message cfg inv s))

  unfoldable pub announce :
      MqttClientConfig → InverterIdentity → C → Result PublisherError (Unit {0}) × C
  unfolding announce_each
  announce cfg inv c = announce_each cfg inv sensor_catalog (true, c)

  abbrev pub publish_found :
      MqttClientConfig
      → InverterIdentity
      → String
      → C
      → Option SensorConfig
      → Outcome (Result PublisherError (Unit {0}) × C)
  publish_found cfg inv value c none = panicked
  publish_found cfg inv value c (some s) =
      returned (publish_result (mqtt.publish c (value_message cfg inv s value)))

  unfoldable pub publish_value :
      MqttClientConfig
      → InverterIdentity
      → String
      → String
      → C
      → Outcome (Result PublisherError (Unit {0}) × C)
  unfolding sensor_catalog
  publish_value cfg inv key value c = publish_found cfg inv value c (find_sensor sensor_catalog key)
