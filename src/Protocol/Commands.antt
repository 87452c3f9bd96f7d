-- ===== src/Protocol/Commands.antt =====
-- crates/sma-bt-protocol/src/commands.rs: the query opcodes and bodies.
use hass_sma_rs.Prelude.{ℕ, List, []}
use hass_sma_rs.Prelude.Words.{u32_bytes}
use hass_sma_rs.Protocol.Packet.{encode_l2, query, event_log_query}

pub data QueryKind : Type 0 where
  spot_ac_total_power spot_ac_power spot_ac_voltage spot_grid_frequency : QueryKind
  spot_dc_power spot_dc_voltage energy_production operation_time : QueryKind
  inverter_temperature device_status grid_relay_status type_label : QueryKind
  software_version battery_charge_status battery_info metering_grid_total_w : QueryKind
  spot_cos_phi max_feed_in_power nominal_ac_power : QueryKind

-- The command with the first and the last LRI of its range.
pub record Opcode : Type 0 where
  pub command : ℕ
  pub first : ℕ
  pub last : ℕ

abbrev op : ℕ → ℕ → ℕ → Opcode
op command first last = record { command = command; first = first; last = last }

unfoldable pub opcode : QueryKind → Opcode
opcode spot_ac_total_power = op 0x51000200 0x00263f00 0x00263fff
opcode spot_ac_power = op 0x51000200 0x00464000 0x004642ff
opcode spot_ac_voltage = op 0x51000200 0x00464800 0x004655ff
opcode spot_grid_frequency = op 0x51000200 0x00465700 0x004657ff
opcode spot_dc_power = op 0x53800200 0x00251e00 0x00251eff
opcode spot_dc_voltage = op 0x53800200 0x00451f00 0x004521ff
opcode energy_production = op 0x54000200 0x00260100 0x002622ff
opcode operation_time = op 0x54000200 0x00462e00 0x00462fff
opcode inverter_temperature = op 0x52000200 0x00237700 0x002377ff
opcode device_status = op 0x51800200 0x00214800 0x002148ff
opcode grid_relay_status = op 0x51800200 0x00416400 0x004164ff
opcode type_label = op 0x58000200 0x00821e00 0x008220ff
opcode software_version = op 0x58000200 0x00823400 0x008234ff
opcode battery_charge_status = op 0x51000200 0x00295a00 0x00295aff
opcode battery_info = op 0x51000200 0x00491e00 0x00495dff
opcode metering_grid_total_w = op 0x51000200 0x00463600 0x00463669
opcode spot_cos_phi = op 0x51000200 0x00237400 0x004748ff
opcode max_feed_in_power = op 0x51000200 0x00411f00 0x00411f19
opcode nominal_ac_power = op 0x51000200 0x00411e00 0x00411e19

unfoldable pub build_query_body : QueryKind → ℕ → ℕ → ℕ → ℕ → List ℕ
build_query_body kind pkt_id app_serial dst_susy_id dst_serial =
    let o = opcode kind in
    encode_l2 (query pkt_id app_serial dst_susy_id dst_serial)
      (u32_bytes o.command (u32_bytes o.first (u32_bytes o.last [])))

unfoldable pub build_event_log_body : ℕ → ℕ → ℕ → ℕ → ℕ → ℕ → List ℕ
build_event_log_body pkt_id app_serial dst_susy_id dst_serial start_unix end_unix =
    encode_l2 (event_log_query pkt_id app_serial dst_susy_id dst_serial)
      (u32_bytes 0x70100200 (u32_bytes start_unix (u32_bytes end_unix [])))
