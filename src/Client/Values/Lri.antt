-- ===== src/Client/Values/Lri.antt =====
-- The LRI constants of crates/inverter-client/src/values.rs.
use hass_sma_rs.Prelude.{ℕ}

abbrev pub inv_status : ℕ
inv_status = 0x00214800

abbrev pub inv_grid_relay : ℕ
inv_grid_relay = 0x00416400

abbrev pub inv_type : ℕ
inv_type = 0x00821e00

abbrev pub inv_class : ℕ
inv_class = 0x00822a00

abbrev pub sw_version : ℕ
sw_version = 0x00823400

abbrev pub inv_temperature : ℕ
inv_temperature = 0x00237700

abbrev pub dc_ms_watt : ℕ
dc_ms_watt = 0x00251e00

abbrev pub dc_ms_vol : ℕ
dc_ms_vol = 0x00451f00

abbrev pub dc_ms_amp : ℕ
dc_ms_amp = 0x00452100

abbrev pub spot_e_total : ℕ
spot_e_total = 0x00260100

abbrev pub spot_e_today : ℕ
spot_e_today = 0x00262200

abbrev pub spot_oper_tm : ℕ
spot_oper_tm = 0x00462e00

abbrev pub spot_feed_tm : ℕ
spot_feed_tm = 0x00462f00

abbrev pub spot_pac_total : ℕ
spot_pac_total = 0x00263f00

abbrev pub grid_ms_w_phs_a : ℕ
grid_ms_w_phs_a = 0x00464000

abbrev pub grid_ms_w_phs_b : ℕ
grid_ms_w_phs_b = 0x00464100

abbrev pub grid_ms_w_phs_c : ℕ
grid_ms_w_phs_c = 0x00464200

abbrev pub grid_ms_vphs_a : ℕ
grid_ms_vphs_a = 0x00464800

abbrev pub grid_ms_vphs_b : ℕ
grid_ms_vphs_b = 0x00464900

abbrev pub grid_ms_vphs_c : ℕ
grid_ms_vphs_c = 0x00464a00

abbrev pub grid_ms_aphs_a : ℕ
grid_ms_aphs_a = 0x00465000

abbrev pub grid_ms_aphs_b : ℕ
grid_ms_aphs_b = 0x00465100

abbrev pub grid_ms_aphs_c : ℕ
grid_ms_aphs_c = 0x00465200

abbrev pub grid_frequency : ℕ
grid_frequency = 0x00465700
