-- ===== src/Mqtt/Catalog.antt =====
-- crates/mqtt-discovery/src/catalog.rs: the sensors of one inverter, in the order of their
-- announcement.
use Prim.Native.String.{String}
use hass_sma_rs.Prelude.{Bool, true, false, Option, none, some, List, [], ◌∷◌, ◌++◌}

pub record SensorConfig : Type 0 where
  pub name : String
  pub key : String
  pub device_class : Option String
  pub state_class : Option String
  pub unit : Option String
  pub icon : String
  pub diagnostic : Bool

abbrev sensor :
    String → String → Option String → Option String → Option String → String → Bool → SensorConfig
sensor name key device_class state_class unit icon diagnostic = record {
  name = name;
  key = key;
  device_class = device_class;
  state_class = state_class;
  unit = unit;
  icon = icon;
  diagnostic = diagnostic;
}

abbrev pub ac_sensors : List SensorConfig
ac_sensors =
    sensor "AC Power" "ac_power" (some "power") (some "measurement") (some "W") "mdi:flash" false
    ∷ sensor "AC Power L1" "ac_power_l1" (some "power") (some "measurement") (some "W") "mdi:flash"
        false
    ∷ sensor "AC Power L2" "ac_power_l2" (some "power") (some "measurement") (some "W") "mdi:flash"
        false
    ∷ sensor "AC Power L3" "ac_power_l3" (some "power") (some "measurement") (some "W") "mdi:flash"
        false
    ∷ sensor "AC Voltage L1" "ac_voltage_l1" (some "voltage") (some "measurement") (some "V")
        "mdi:flash-triangle-outline" false
    ∷ sensor "AC Voltage L2" "ac_voltage_l2" (some "voltage") (some "measurement") (some "V")
        "mdi:flash-triangle-outline" false
    ∷ sensor "AC Voltage L3" "ac_voltage_l3" (some "voltage") (some "measurement") (some "V")
        "mdi:flash-triangle-outline" false
    ∷ sensor "AC Current L1" "ac_current_l1" (some "current") (some "measurement") (some "A")
        "mdi:current-ac" false
    ∷ sensor "AC Current L2" "ac_current_l2" (some "current") (some "measurement") (some "A")
        "mdi:current-ac" false
    ∷ sensor "AC Current L3" "ac_current_l3" (some "current") (some "measurement") (some "A")
        "mdi:current-ac" false
    ∷ sensor "Grid Frequency" "grid_frequency" (some "frequency") (some "measurement") (some "Hz")
        "mdi:sine-wave" false
    ∷ []

abbrev pub dc_sensors : List SensorConfig
dc_sensors =
    sensor "DC Power String 1" "dc_power_s1" (some "power") (some "measurement") (some "W")
      "mdi:solar-panel" false
    ∷ sensor "DC Power String 2" "dc_power_s2" (some "power") (some "measurement") (some "W")
        "mdi:solar-panel" false
    ∷ sensor "DC Voltage String 1" "dc_voltage_s1" (some "voltage") (some "measurement") (some "V")
        "mdi:flash-triangle-outline" false
    ∷ sensor "DC Voltage String 2" "dc_voltage_s2" (some "voltage") (some "measurement") (some "V")
        "mdi:flash-triangle-outline" false
    ∷ sensor "DC Current String 1" "dc_current_s1" (some "current") (some "measurement") (some "A")
        "mdi:current-dc" false
    ∷ sensor "DC Current String 2" "dc_current_s2" (some "current") (some "measurement") (some "A")
        "mdi:current-dc" false
    ∷ []

abbrev pub energy_sensors : List SensorConfig
energy_sensors =
    sensor "Energy Today" "energy_today" (some "energy") (some "total_increasing") (some "kWh")
      "mdi:solar-power-variant" false
    ∷ sensor "Energy Lifetime" "energy_lifetime" (some "energy") (some "total_increasing")
        (some "kWh") "mdi:counter" false
    ∷ sensor "Operation Time" "operation_time" (some "duration") (some "total_increasing")
        (some "h") "mdi:timer-sand" true
    ∷ sensor "Feed-in Time" "feed_in_time" (some "duration") (some "total_increasing") (some "h")
        "mdi:transmission-tower" true
    ∷ sensor "Inverter Temperature" "temperature" (some "temperature") (some "measurement")
        (some "°C") "mdi:thermometer" false
    ∷ []

abbrev pub health_sensors : List SensorConfig
health_sensors =
    sensor "Inverter Status" "inverter_state" none none none "mdi:heart-pulse" true
    ∷ sensor "Poll Status" "poll_status" none none none "mdi:check-network-outline" true
    ∷ sensor "Grid Relay" "grid_relay" none none none "mdi:electric-switch" true
    ∷ sensor "Inverter Model" "inverter_model" none none none "mdi:solar-panel-large" true
    ∷ sensor "Firmware Version" "firmware_version" none none none "mdi:chip" true
    ∷ sensor "Session Uptime" "session_uptime" (some "duration") (some "measurement") (some "s")
        "mdi:timer-outline" true
    ∷ sensor "Last Poll" "last_poll" (some "timestamp") none none "mdi:clock-check" true
    ∷ sensor "Last Event" "last_event" none none none "mdi:alert-circle-outline" true
    ∷ sensor "Last Event At" "last_event_at" (some "timestamp") none none "mdi:clock-alert-outline"
        true
    ∷ sensor "Event Count 24h" "last_event_count_24h" none (some "measurement") none "mdi:counter"
        true
    ∷ []

abbrev pub grid_sensors : List SensorConfig
grid_sensors =
    sensor "Power Factor" "cos_phi" (some "power_factor") (some "measurement") none
      "mdi:angle-acute" false
    ∷ sensor "Max Feed-In Power" "max_feedin_w" (some "power") (some "measurement") (some "W")
        "mdi:transmission-tower-export" true
    ∷ sensor "Nominal AC Power" "nominal_ac_power_w" (some "power") (some "measurement") (some "W")
        "mdi:tag" true
    ∷ []

unfoldable pub sensor_catalog : List SensorConfig
sensor_catalog = ac_sensors ++ dc_sensors ++ energy_sensors ++ health_sensors ++ grid_sensors
