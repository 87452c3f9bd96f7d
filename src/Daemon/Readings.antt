-- ===== src/Daemon/Readings.antt =====
-- `publish_query_result` and `Archiver` of crates/daemon/src/main.rs: from a reply to the gauges, the
-- state topics and the archive.
pub mod Keys
pub mod Publishing
use Prim.Native.String.{String}
use hass_sma_rs.Prelude.{
  ℕ, zero, suc, ◌+◌, List, [], ◌∷◌, ◌++◌, Bool, true, false, Option, none, some, if◌then◌else◌,
  Result,
}
use hass_sma_rs.Prelude.Texts.{◌<>◌, decimal}
use hass_sma_rs.Protocol.Commands.{QueryKind}
use hass_sma_rs.Client.Values.{ℤ, pos, negsuc}
use hass_sma_rs.Client.Values.Readings.{
  AcPerPhase, OperationTime, InverterReadings, parse_spot_ac_total_power, parse_spot_ac_power,
  parse_energy_production, parse_operation_time, parse_inverter_temperature, parse_grid_frequency,
  parse_device_status, parse_grid_relay,
}
use hass_sma_rs.Client.Values.Electrical.{
  AcVoltageCurrent, DcPerString, parse_spot_ac_voltage, parse_spot_dc_power, parse_spot_dc_voltage,
  parse_cosphi,
}
use hass_sma_rs.Client.Values.Names.{status_text}
use hass_sma_rs.Mqtt.Publisher.{InverterIdentity, Outcome, panicked, returned}

-- A number on its way to a float of 64 bits.
pub data Number (F : Type 0) : Type 0 where
  of_int : ℤ → Number F
  of_nat : ℕ → Number F
  of_f32 : F → Number F

-- The arithmetic and the printing of floats: `v as f32 / d` of both kinds of integer, `{:.n}`, and
-- `{:.n}` of `v as f64 / d`.
pub record Floats (F : Type 0) : Type 0 where
  pub as_f32 : ℤ → ℕ → F
  pub u32_as_f32 : ℕ → ℕ → F
  pub fixed : ℕ → F → String
  pub fixed_quotient : ℕ → ℕ → ℕ → String

-- Where readings go. A gauge is named by the field of the registry; the publisher's error is
-- dropped by its callers, its panic is not; `write` tells whether the archive took the reading.
pub record Outputs (F W : Type 0) : Type 0 where
  pub set_gauge : W → String → InverterIdentity → Number F → W
  pub put_value : W → InverterIdentity → String → String → Outcome W
  pub archive : Option (W → String → ℕ → String → Number F → Bool × W)

infixl 5 ◌>>=◌
abbrev pub ◌>>=◌ : {A B : Type 0} → Outcome A → (A → Outcome B) → Outcome B
panicked >>= f = panicked
returned a >>= f = f a

abbrev pub show_int : ℤ → String
show_int (pos n) = decimal n
show_int (negsuc n) = "-" <> decimal (suc n)

-- What one reading is used for, in the order of the calls.
pub data Update (F : Type 0) : Type 0 where
  gauge : String → Number F → Update F
  value : String → String → Update F
  record_as : String → Number F → Update F

abbrev pub if_some : {A B : Type 0} → Option A → (A → List B) → List B
if_some none f = []
if_some (some a) f = f a

abbrev pub in_turn : {A : Type 0} → List (List A) → List A
in_turn [] = []
in_turn (xs ∷ rest) = xs ++ in_turn rest

module _ {F : Type 0} (floats : Floats F) where
  abbrev pub fixed_value : String → ℕ → Option F → List (Update F)
  fixed_value key places v = if_some v (λ x. value key (floats.fixed places x) ∷ [])

  abbrev pub int_value : String → Option ℤ → List (Update F)
  int_value key v = if_some v (λ w. value key (show_int w) ∷ [])

  abbrev pub on_ac_total : InverterReadings → List (Update F)
  on_ac_total r = if_some r.pac_total_w (λ w.
      gauge "ac_power_watts" (of_int w)
      ∷ value "ac_power" (show_int w)
      ∷ record_as "ac_power" (of_int w)
      ∷ [])

  abbrev pub gauged_int : String → String → Option ℤ → List (Update F)
  gauged_int metric key v = if_some v (λ w. gauge metric (of_int w) ∷ value key (show_int w) ∷ [])

  abbrev pub gauged_fixed : String → String → ℕ → Option F → List (Update F)
  gauged_fixed metric key places v =
      if_some v (λ x. gauge metric (of_f32 x) ∷ value key (floats.fixed places x) ∷ [])

  abbrev pub energy_value : String → String → String → Option ℕ → List (Update F)
  energy_value metric key archived wh = if_some wh (λ n.
      gauge metric (of_nat n)
      ∷ value key (floats.fixed_quotient 3 n 1000)
      ∷ record_as archived (of_nat n)
      ∷ [])

  abbrev pub hours_value : String → Option ℕ → List (Update F)
  hours_value key s = if_some s (λ n. value key (floats.fixed_quotient 2 n 3600) ∷ [])

  abbrev pub ac_power_parts : AcPerPhase → List (List (Update F))
  ac_power_parts r =
      int_value "ac_power_l1" r.pac1_w
      ∷ int_value "ac_power_l2" r.pac2_w
      ∷ int_value "ac_power_l3" r.pac3_w
      ∷ []

  abbrev pub on_ac_power : AcPerPhase → List (Update F)
  on_ac_power r = in_turn (ac_power_parts r)

  abbrev pub ac_voltage_parts : AcVoltageCurrent F → List (List (Update F))
  ac_voltage_parts r =
      gauged_fixed "ac_voltage_l1" "ac_voltage_l1" 2 r.uac1_v
      ∷ fixed_value "ac_voltage_l2" 2 r.uac2_v
      ∷ fixed_value "ac_voltage_l3" 2 r.uac3_v
      ∷ gauged_fixed "ac_current_l1" "ac_current_l1" 3 r.iac1_a
      ∷ fixed_value "ac_current_l2" 3 r.iac2_a
      ∷ fixed_value "ac_current_l3" 3 r.iac3_a
      ∷ []

  abbrev pub on_ac_voltage : AcVoltageCurrent F → List (Update F)
  on_ac_voltage r = in_turn (ac_voltage_parts r)

  abbrev pub dc_power_parts : DcPerString F → List (List (Update F))
  dc_power_parts r =
      gauged_int "dc_power_s1_watts" "dc_power_s1" r.pdc1_w
      ∷ gauged_int "dc_power_s2_watts" "dc_power_s2" r.pdc2_w
      ∷ []

  abbrev pub on_dc_power : DcPerString F → List (Update F)
  on_dc_power r = in_turn (dc_power_parts r)

  abbrev pub dc_voltage_parts : DcPerString F → List (List (Update F))
  dc_voltage_parts r =
      fixed_value "dc_voltage_s1" 2 r.udc1_v
      ∷ fixed_value "dc_voltage_s2" 2 r.udc2_v
      ∷ fixed_value "dc_current_s1" 3 r.idc1_a
      ∷ fixed_value "dc_current_s2" 3 r.idc2_a
      ∷ []

  abbrev pub on_dc_voltage : DcPerString F → List (Update F)
  on_dc_voltage r = in_turn (dc_voltage_parts r)

  abbrev pub energy_parts : Option ℕ × Option ℕ → List (List (Update F))
  energy_parts (day, total) =
      energy_value "energy_today_wh" "energy_today" "energy_today_wh" day
      ∷ energy_value "energy_lifetime_wh" "energy_lifetime" "energy_lifetime_wh" total
      ∷ []

  abbrev pub on_energy : Option ℕ × Option ℕ → List (Update F)
  on_energy e = in_turn (energy_parts e)

  abbrev pub operation_parts : OperationTime → List (List (Update F))
  operation_parts r =
      hours_value "operation_time" r.total_op_time_s
      ∷ hours_value "feed_in_time" r.feed_in_time_s
      ∷ []

  abbrev pub on_operation : OperationTime → List (Update F)
  on_operation r = in_turn (operation_parts r)

  abbrev pub on_temperature : Option F → List (Update F)
  on_temperature c = if_some c (λ t.
      gauge "inverter_temperature_c" (of_f32 t)
      ∷ value "temperature" (floats.fixed 2 t)
      ∷ record_as "temperature_c" (of_f32 t)
      ∷ [])

  abbrev pub on_frequency : Option F → List (Update F)
  on_frequency hz = if_some hz (λ h.
      gauge "grid_frequency_hz" (of_f32 h)
      ∷ value "grid_frequency" (floats.fixed 2 h)
      ∷ record_as "grid_frequency_hz" (of_f32 h)
      ∷ [])

  abbrev pub on_status : Option ℕ → List (Update F)
  on_status tag = if_some tag (λ n. value "inverter_state" (status_text n) ∷ [])

  abbrev pub on_relay : Option Bool → List (Update F)
  on_relay closed = if_some closed (λ b. value "grid_relay" (if b then "closed" else "open") ∷ [])

  abbrev pub on_cos_phi : Option F → List (Update F)
  on_cos_phi cp =
      if_some cp (λ v. value "cos_phi" (floats.fixed 3 v) ∷ record_as "cos_phi" (of_f32 v) ∷ [])

  -- The kinds that publish nothing fall through.
  unfoldable pub updates : QueryKind → List ℕ → List (Update F)
  updates QueryKind.spot_ac_total_power body = on_ac_total (parse_spot_ac_total_power body)
  updates QueryKind.spot_ac_power body = on_ac_power (parse_spot_ac_power body)
  updates QueryKind.spot_ac_voltage body = on_ac_voltage (parse_spot_ac_voltage floats.as_f32 body)
  updates QueryKind.spot_dc_power body = on_dc_power (parse_spot_dc_power floats.as_f32 body)
  updates QueryKind.spot_dc_voltage body = on_dc_voltage (parse_spot_dc_voltage floats.as_f32 body)
  updates QueryKind.energy_production body = on_energy (parse_energy_production body)
  updates QueryKind.operation_time body = on_operation (parse_operation_time body)
  updates QueryKind.inverter_temperature body =
      on_temperature (parse_inverter_temperature floats.as_f32 floats.u32_as_f32 body)
  updates QueryKind.spot_grid_frequency body =
      on_frequency (parse_grid_frequency floats.as_f32 floats.u32_as_f32 body)
  updates QueryKind.device_status body = on_status (parse_device_status body)
  updates QueryKind.grid_relay_status body = on_relay (parse_grid_relay body)
  updates QueryKind.spot_cos_phi body = on_cos_phi (parse_cosphi floats.u32_as_f32 body)
  updates _ body = []

module _ {F W : Type 0} (outputs : Outputs F W) where
  -- `Archiver::record`: nothing without a sink, and errors are dropped.
  abbrev pub record_with :
      Option (W → String → ℕ → String → Number F → Bool × W)
      → W
      → InverterIdentity
      → String
      → Number F
      → W
  record_with none w id metric n = w
  record_with (some write) w id metric n = (write w id.slot id.serial metric n).1

  abbrev pub apply_update : InverterIdentity → W → Update F → Outcome W
  apply_update id w (gauge metric n) = returned (outputs.set_gauge w metric id n)
  apply_update id w (value key text) = outputs.put_value w id key text
  apply_update id w (record_as metric n) = returned (record_with outputs.archive w id metric n)

  unfoldable pub apply_updates : InverterIdentity → List (Update F) → W → Outcome W
  apply_updates id [] w = returned w
  apply_updates id (u ∷ rest) w = apply_update id w u >>= apply_updates id rest

  unfoldable pub publish_query_result :
      Floats F → QueryKind → List ℕ → InverterIdentity → W → Outcome W
  unfolding updates apply_updates
  publish_query_result floats kind body id w = apply_updates id (updates floats kind body) w
