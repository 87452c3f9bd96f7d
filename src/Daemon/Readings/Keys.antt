-- ===== src/Daemon/Readings/Keys.antt =====
-- The keys under which readings are published are keys of the catalogue.
use Prim.Native.String.{String}
use hass_sma_rs.Prelude.{
  ℕ, ◌≡◌, refl, List, [], ◌∷◌, Bool, true, Option, none, some, All, All-append,
}
use hass_sma_rs.Protocol.Commands.{QueryKind}
use hass_sma_rs.Client.Values.{ℤ}
use hass_sma_rs.Client.Values.Readings.{
  InverterReadings, AcPerPhase, OperationTime, parse_spot_ac_total_power, parse_spot_ac_power,
  parse_energy_production, parse_operation_time, parse_inverter_temperature, parse_grid_frequency,
  parse_device_status, parse_grid_relay,
}
use hass_sma_rs.Client.Values.Electrical.{
  AcVoltageCurrent, DcPerString, parse_spot_ac_voltage, parse_spot_dc_power, parse_spot_dc_voltage,
  parse_cosphi,
}
use hass_sma_rs.Mqtt.Catalog.{sensor_catalog}
use hass_sma_rs.Mqtt.Keys.{has_key}
use hass_sma_rs.Daemon.Readings.{
  Floats, in_turn, ac_power_parts, ac_voltage_parts, dc_power_parts, dc_voltage_parts, energy_parts,
  operation_parts, int_value, fixed_value, gauged_int, gauged_fixed, energy_value, hours_value,
  on_ac_total, on_ac_power, on_ac_voltage, on_dc_power, on_dc_voltage, on_energy, on_operation,
  on_temperature, on_frequency, on_status, on_relay, on_cos_phi, Update, gauge, value, record_as,
  updates,
}

abbrev pub IsListed : {F : Type 0} → Update F → Type 0
IsListed (gauge metric n) = Unit {0}
IsListed (value key text) = has_key sensor_catalog key ≡ true
IsListed (record_as metric n) = Unit {0}

in_turn-All :
    {F : Type 0} (parts : List (List (Update F)))
    → All (All IsListed) parts
    → All IsListed (in_turn parts)
in_turn-All [] h = tt
in_turn-All (xs ∷ rest) (h, k) = All-append IsListed xs (in_turn rest) h (in_turn-All rest k)

module _ {F : Type 0} (floats : Floats F) where
  abbrev Known : String → Type 0
  Known key = has_key sensor_catalog key ≡ true

  int_value-All : (key : String) (v : Option ℤ) → Known key → All IsListed (int_value floats key v)
  int_value-All key none k = tt
  int_value-All key (some w) k = (k, tt)

  fixed_value-All :
      (key : String) (places : ℕ) (v : Option F)
      → Known key
      → All IsListed (fixed_value floats key places v)
  fixed_value-All key places none k = tt
  fixed_value-All key places (some x) k = (k, tt)

  gauged_int-All :
      (metric key : String) (v : Option ℤ)
      → Known key
      → All IsListed (gauged_int floats metric key v)
  gauged_int-All metric key none k = tt
  gauged_int-All metric key (some w) k = (tt, (k, tt))

  gauged_fixed-All :
      (metric key : String) (places : ℕ) (v : Option F)
      → Known key
      → All IsListed (gauged_fixed floats metric key places v)
  gauged_fixed-All metric key places none k = tt
  gauged_fixed-All metric key places (some x) k = (tt, (k, tt))

  energy_value-All :
      (metric key archived : String) (wh : Option ℕ)
      → Known key
      → All IsListed (energy_value floats metric key archived wh)
  energy_value-All metric key archived none k = tt
  energy_value-All metric key archived (some n) k = (tt, (k, (tt, tt)))

  hours_value-All :
      (key : String) (s : Option ℕ) → Known key → All IsListed (hours_value floats key s)
  hours_value-All key none k = tt
  hours_value-All key (some n) k = (k, tt)

  ac_total-All : (r : InverterReadings) → All IsListed (on_ac_total floats r)
  unfolding sensor_catalog
  ac_total-All r = by_power r.pac_total_w
    where
      by_power : (o : Option ℤ) → All IsListed (on_ac_total floats (record r { pac_total_w = o }))
      by_power none = tt
      by_power (some w) = (tt, (refl, (tt, tt)))

  ac_power-All : (r : AcPerPhase) → All IsListed (on_ac_power floats r)
  unfolding sensor_catalog
  ac_power-All r = in_turn-All (ac_power_parts floats r) (
    int_value-All _ r.pac1_w refl,
    (int_value-All _ r.pac2_w refl, (int_value-All _ r.pac3_w refl, tt)),
  )

  ac_voltage-All : (r : AcVoltageCurrent F) → All IsListed (on_ac_voltage floats r)
  unfolding sensor_catalog
  ac_voltage-All r = in_turn-All (ac_voltage_parts floats r) (
    gauged_fixed-All _ _ 2 r.uac1_v refl,
    (
      fixed_value-All _ 2 r.uac2_v refl,
      (
        fixed_value-All _ 2 r.uac3_v refl,
        (
          gauged_fixed-All _ _ 3 r.iac1_a refl,
          (fixed_value-All _ 3 r.iac2_a refl, (fixed_value-All _ 3 r.iac3_a refl, tt)),
        ),
      ),
    ),
  )

  dc_power-All : (r : DcPerString F) → All IsListed (on_dc_power floats r)
  unfolding sensor_catalog
  dc_power-All r =
      in_turn-All (dc_power_parts floats r)
        (gauged_int-All _ _ r.pdc1_w refl, (gauged_int-All _ _ r.pdc2_w refl, tt))

  dc_voltage-All : (r : DcPerString F) → All IsListed (on_dc_voltage floats r)
  unfolding sensor_catalog
  dc_voltage-All r = in_turn-All (dc_voltage_parts floats r) (
    fixed_value-All _ 2 r.udc1_v refl,
    (
      fixed_value-All _ 2 r.udc2_v refl,
      (fixed_value-All _ 3 r.idc1_a refl, (fixed_value-All _ 3 r.idc2_a refl, tt)),
    ),
  )

  energy-All : (e : Option ℕ × Option ℕ) → All IsListed (on_energy floats e)
  unfolding sensor_catalog
  energy-All (day, total) =
      in_turn-All (energy_parts floats (day, total))
        (energy_value-All _ _ _ day refl, (energy_value-All _ _ _ total refl, tt))

  operation-All : (r : OperationTime) → All IsListed (on_operation floats r)
  unfolding sensor_catalog
  operation-All r =
      in_turn-All (operation_parts floats r)
        (hours_value-All _ r.total_op_time_s refl, (hours_value-All _ r.feed_in_time_s refl, tt))

  temperature-All : (c : Option F) → All IsListed (on_temperature floats c)
  unfolding sensor_catalog
  temperature-All none = tt
  temperature-All (some t) = (tt, (refl, (tt, tt)))

  frequency-All : (hz : Option F) → All IsListed (on_frequency floats hz)
  unfolding sensor_catalog
  frequency-All none = tt
  frequency-All (some h) = (tt, (refl, (tt, tt)))

  status-All : (tag : Option ℕ) → All IsListed (on_status floats tag)
  unfolding sensor_catalog
  status-All none = tt
  status-All (some n) = (refl, tt)

  relay-All : (closed : Option Bool) → All IsListed (on_relay floats closed)
  unfolding sensor_catalog
  relay-All none = tt
  relay-All (some b) = (refl, tt)

  cos_phi-All : (cp : Option F) → All IsListed (on_cos_phi floats cp)
  unfolding sensor_catalog
  cos_phi-All none = tt
  cos_phi-All (some v) = (refl, (tt, tt))

  -- What a reply of any kind publishes has a key of the catalogue.
  pub updates-IsListed :
      (kind : QueryKind) (body : List ℕ) → All IsListed (updates floats kind body)
  unfolding updates
  updates-IsListed QueryKind.spot_ac_total_power body =
      ac_total-All (parse_spot_ac_total_power body)
  updates-IsListed QueryKind.spot_ac_power body = ac_power-All (parse_spot_ac_power body)
  updates-IsListed QueryKind.spot_ac_voltage body =
      ac_voltage-All (parse_spot_ac_voltage floats.as_f32 body)
  updates-IsListed QueryKind.spot_dc_power body =
      dc_power-All (parse_spot_dc_power floats.as_f32 body)
  updates-IsListed QueryKind.spot_dc_voltage body =
      dc_voltage-All (parse_spot_dc_voltage floats.as_f32 body)
  updates-IsListed QueryKind.energy_production body = energy-All (parse_energy_production body)
  updates-IsListed QueryKind.operation_time body = operation-All (parse_operation_time body)
  updates-IsListed QueryKind.inverter_temperature body =
      temperature-All (parse_inverter_temperature floats.as_f32 floats.u32_as_f32 body)
  updates-IsListed QueryKind.spot_grid_frequency body =
      frequency-All (parse_grid_frequency floats.as_f32 floats.u32_as_f32 body)
  updates-IsListed QueryKind.device_status body = status-All (parse_device_status body)
  updates-IsListed QueryKind.grid_relay_status body = relay-All (parse_grid_relay body)
  updates-IsListed QueryKind.spot_cos_phi body = cos_phi-All (parse_cosphi floats.u32_as_f32 body)
  updates-IsListed QueryKind.type_label body = tt
  updates-IsListed QueryKind.software_version body = tt
  updates-IsListed QueryKind.battery_charge_status body = tt
  updates-IsListed QueryKind.battery_info body = tt
  updates-IsListed QueryKind.metering_grid_total_w body = tt
  updates-IsListed QueryKind.max_feed_in_power body = tt
  updates-IsListed QueryKind.nominal_ac_power body = tt
