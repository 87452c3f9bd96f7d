-- ===== src/Mqtt/Options.antt =====
-- `connect_with_lwt` of crates/mqtt-discovery/src/client.rs: the options of a connection. The client and
-- its event loop are a package's.
use Prim.Native.String.{String}
use hass_sma_rs.Prelude.{ℕ, true, Option, none, some}
use hass_sma_rs.Mqtt.Publisher.{MqttClientConfig, Message, at_least_once, bytes}

pub record MqttOptions : Type 0 where
  pub client_id : String
  pub host : String
  pub port : ℕ
  pub keep_alive : ℕ
  pub credentials : Option (String × String)
  pub last_will : Option Message
  pub capacity : ℕ

-- Both of user and password, or none.
abbrev pub credentials_of : Option String → Option String → Option (String × String)
credentials_of none password = none
credentials_of (some user) none = none
credentials_of (some user) (some password) = some (user, password)

abbrev pub will_on : Option String → Option Message
will_on none = none
will_on (some topic) =
    some (record { topic = topic; qos = at_least_once; retain = true; payload = bytes "offline" })

unfoldable pub connect_with_lwt : MqttClientConfig → Option String → MqttOptions
connect_with_lwt cfg lwt_topic = record {
  client_id = cfg.client_id;
  host = cfg.host;
  port = cfg.port;
  keep_alive = cfg.keep_alive;
  credentials = credentials_of cfg.user cfg.password;
  last_will = will_on lwt_topic;
  capacity = 64;
}

-- `DiscoveryPublisher::connect`
abbrev pub connect : MqttClientConfig → MqttOptions
connect cfg = connect_with_lwt cfg none
