-- ===== src/Telemetry/Registry.antt =====
-- crates/telemetry/src/metrics.rs: the families of the registry, and what is registered for each. A
-- `Family` of the metrics crate is a map from labels, with zero for labels that are new.
use Prim.Native.String.{String}
use hass_sma_rs.Prelude.{List, [], ◌∷◌, ◌++◌}

-- The fields that have one series for each session.
pub data SessionFamily : Type 0 where
  polls_total poll_errors_total bt_reconnects_total : SessionFamily
  handshake_errors_total inverter_awake last_successful_poll_unix : SessionFamily

-- The fields that have one series for each device.
pub data DeviceFamily : Type 0 where
  ac_power_watts ac_voltage_l1 ac_current_l1 grid_frequency_hz dc_power_s1_watts : DeviceFamily
  dc_power_s2_watts inverter_temperature_c energy_today_wh energy_lifetime_wh : DeviceFamily

pub data Family : Type 0 where
  of_session : SessionFamily → Family
  of_device : DeviceFamily → Family

pub record Registration : Type 0 where
  pub name : String
  pub help : String
  pub family : Family

abbrev register : String → String → Family → Registration
register name help family = record { name = name; help = help; family = family }

abbrev pub session_registrations : List Registration
session_registrations =
    register "sma_polls_total" "Total number of poll cycles completed" (of_session polls_total)
    ∷ register "sma_poll_errors_total" "Total number of polls that returned an error"
        (of_session poll_errors_total)
    ∷ register "sma_bt_reconnects_total" "Total number of BT reconnection attempts"
        (of_session bt_reconnects_total)
    ∷ register "sma_handshake_errors_total" "Total number of BT handshake/logon failures"
        (of_session handshake_errors_total)
    ∷ register "sma_inverter_awake"
        "1 when the inverter is responsive, 0 when it's asleep (BT offline)"
        (of_session inverter_awake)
    ∷ register "sma_last_successful_poll_unix"
        "Unix timestamp of the most recent fully successful poll cycle"
        (of_session last_successful_poll_unix)
    ∷ []

abbrev pub device_registrations : List Registration
device_registrations =
    register "sma_ac_power_watts" "Last observed total AC output power in watts"
      (of_device ac_power_watts)
    ∷ register "sma_ac_voltage_l1" "Last observed L1 AC grid voltage" (of_device ac_voltage_l1)
    ∷ register "sma_ac_current_l1" "Last observed L1 AC current" (of_device ac_current_l1)
    ∷ register "sma_grid_frequency_hz" "Last observed grid frequency" (of_device grid_frequency_hz)
    ∷ register "sma_dc_power_s1_watts" "Last observed DC string 1 power"
        (of_device dc_power_s1_watts)
    ∷ register "sma_dc_power_s2_watts" "Last observed DC string 2 power"
        (of_device dc_power_s2_watts)
    ∷ register "sma_inverter_temperature_c" "Last observed internal inverter temperature"
        (of_device inverter_temperature_c)
    ∷ register "sma_energy_today_wh" "Energy produced since midnight (Wh, monotonic per day)"
        (of_device energy_today_wh)
    ∷ register "sma_energy_lifetime_wh" "Lifetime energy produced (Wh, monotonic)"
        (of_device energy_lifetime_wh)
    ∷ []

-- `MetricsRegistry::new`, in the order of its calls.
unfoldable pub registrations : List Registration
registrations = session_registrations ++ device_registrations
