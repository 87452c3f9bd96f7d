-- ===== src/Client/Values/Readings.antt =====
-- The readings of crates/inverter-client/src/values.rs, each a closure for the walk over records.
-- A conversion `v as f32 / d` is a parameter, applied to the value and the divisor.
use hass_sma_rs.Prelude.{
  ℕ, ◌+◌, List, [], ◌∷◌, Option, none, some, Bool, true, false, ◌&&◌, ◌||◌, ltb, leb, ◌==◌, ◌!=◌,
  if◌then◌else◌, bit_and, length, slice,
}
use mathlib.Core.Option.{map}
use hass_sma_rs.Prelude.Words.{read_u32}
use hass_sma_rs.Client.Values.Lri
use hass_sma_rs.Client.Values.{
  ℤ, u32_nan, for_each_28_record, for_each_16_record, i32_value_28, u32_value_28, u64_value_16,
}

pub record InverterReadings : Type 0 where
  pub pac_total_w : Option ℤ
  pub day_energy_wh : Option ℕ
  pub total_energy_wh : Option ℕ
  pub timestamp : Option ℕ

unfoldable pub on_spot_ac_total_power : InverterReadings → ℕ → ℕ → List ℕ → InverterReadings
on_spot_ac_total_power out lri dt rec =
    if lri == Lri.spot_pac_total
    then record out { pac_total_w = i32_value_28 rec; timestamp = some dt }
    else out

abbrev pub no_readings : InverterReadings
no_readings = record {
  pac_total_w = none;
  day_energy_wh = none;
  total_energy_wh = none;
  timestamp = none;
}

unfoldable pub parse_spot_ac_total_power : List ℕ → InverterReadings
unfolding on_spot_ac_total_power
parse_spot_ac_total_power body = for_each_28_record on_spot_ac_total_power body no_readings

-- The energies of today and of the lifetime.
unfoldable pub on_energy_production : Option ℕ × Option ℕ → ℕ → ℕ → List ℕ → Option ℕ × Option ℕ
on_energy_production (today, lifetime) lri dt rec =
    if lri == Lri.spot_e_today
    then (u64_value_16 rec, lifetime)
    else if lri == Lri.spot_e_total
    then (today, u64_value_16 rec)
    else (today, lifetime)

unfoldable pub parse_energy_production : List ℕ → Option ℕ × Option ℕ
unfolding on_energy_production
parse_energy_production body = for_each_16_record on_energy_production body (none, none)

pub record OperationTime : Type 0 where
  pub total_op_time_s : Option ℕ
  pub feed_in_time_s : Option ℕ

unfoldable pub on_operation_time : OperationTime → ℕ → ℕ → List ℕ → OperationTime
on_operation_time out lri dt rec =
    if lri == Lri.spot_oper_tm
    then record out { total_op_time_s = u64_value_16 rec }
    else if lri == Lri.spot_feed_tm
    then record out { feed_in_time_s = u64_value_16 rec }
    else out

unfoldable pub parse_operation_time : List ℕ → OperationTime
unfolding on_operation_time
parse_operation_time body =
    for_each_16_record on_operation_time body
      (record { total_op_time_s = none; feed_in_time_s = none })

pub record AcPerPhase : Type 0 where
  pub pac1_w : Option ℤ
  pub pac2_w : Option ℤ
  pub pac3_w : Option ℤ
  pub timestamp : Option ℕ

unfoldable pub on_spot_ac_power : AcPerPhase → ℕ → ℕ → List ℕ → AcPerPhase
on_spot_ac_power out lri dt rec =
    if lri == Lri.grid_ms_w_phs_a
    then record out { pac1_w = i32_value_28 rec; timestamp = some dt }
    else if lri == Lri.grid_ms_w_phs_b
    then record out { pac2_w = i32_value_28 rec }
    else if lri == Lri.grid_ms_w_phs_c
    then record out { pac3_w = i32_value_28 rec }
    else out

unfoldable pub parse_spot_ac_power : List ℕ → AcPerPhase
unfolding on_spot_ac_power
parse_spot_ac_power body =
    for_each_28_record on_spot_ac_power body
      (record { pac1_w = none; pac2_w = none; pac3_w = none; timestamp = none })

-- `v != 0 && v != 0x8000_0000 && v != 0xFFFF_FFFF`
abbrev is_watts : ℕ → Bool
is_watts v = v != 0 && v != 0x80000000 && v != 0xffffffff

-- `for off in [16, 8, 12, 20, 24]`, on the offsets left.
unfoldable pub scan_watts : List ℕ → List ℕ → Option ℕ
scan_watts rec [] = none
scan_watts rec (off ∷ offs) =
    let rest = scan_watts rec offs in
    if ltb (length rec) (off + 4)
    then rest
    else (let v = read_u32 (slice rec off (off + 4)) in if is_watts v then some v else rest)

-- The first record in the range that has a value counts.
unfoldable pub on_single_watts : ℕ → ℕ → Option ℕ → ℕ → ℕ → List ℕ → Option ℕ
unfolding scan_watts
on_single_watts lri_first lri_last (some v) lri dt rec = some v
on_single_watts lri_first lri_last none lri dt rec =
    if leb lri_first lri && leb lri lri_last
    then scan_watts rec (16 ∷ 8 ∷ 12 ∷ 20 ∷ 24 ∷ [])
    else none

unfoldable pub parse_single_watts_record : List ℕ → ℕ → ℕ → Option ℕ
unfolding on_single_watts
parse_single_watts_record body lri_first lri_last =
    for_each_28_record (on_single_watts lri_first lri_last) body none

-- The first loop over the four slots: the slot whose selected bit is set.
unfoldable pub selected_slot : List ℕ → List ℕ → Option ℕ
selected_slot rec [] = none
selected_slot rec (off ∷ offs) =
    let v = read_u32 (slice rec off (off + 4)) in
    let rest = selected_slot rec offs in
    if v == 0 || v == u32_nan
    then rest
    else if bit_and v 0x01000000 != 0
    then some (bit_and v 0x00ffffff)
    else rest

-- The second loop: the first slot with a value.
unfoldable pub first_slot : List ℕ → List ℕ → Option ℕ
first_slot rec [] = none
first_slot rec (off ∷ offs) =
    let v = read_u32 (slice rec off (off + 4)) in
    let rest = first_slot rec offs in
    if v != 0 && v != u32_nan then some (bit_and v 0x00ffffff) else rest

abbrev slots : List ℕ
slots = 8 ∷ 12 ∷ 16 ∷ 20 ∷ []

unfoldable pub status_slot : List ℕ → Option ℕ → Option ℕ
unfolding selected_slot first_slot
status_slot rec out = elim (selected_slot rec slots) [
  | some found ↦ some found
  | none ↦ elim (first_slot rec slots) [ some found ↦ some found | none ↦ out ]
]

unfoldable pub on_device_status : Option ℕ → ℕ → ℕ → List ℕ → Option ℕ
unfolding status_slot
on_device_status out lri dt rec =
    if lri == Lri.inv_status && leb 24 (length rec) then status_slot rec out else out

unfoldable pub parse_device_status : List ℕ → Option ℕ
unfolding on_device_status
parse_device_status body = for_each_28_record on_device_status body none

unfoldable pub on_grid_relay : Option Bool → ℕ → ℕ → List ℕ → Option Bool
on_grid_relay out lri dt rec =
    if lri == Lri.inv_grid_relay && leb 12 (length rec)
    then (let code = bit_and (read_u32 (slice rec 8 12)) 0x00ffffff in
        if code == 51 then some true else if code == 311 then some false else none)
    else out

unfoldable pub parse_grid_relay : List ℕ → Option Bool
unfolding on_grid_relay
parse_grid_relay body = for_each_28_record on_grid_relay body none

module _ {F : Type 0} (as_f32 : ℤ → ℕ → F) (u32_as_f32 : ℕ → ℕ → F) where
  unfoldable pub on_inverter_temperature : Option F → ℕ → ℕ → List ℕ → Option F
  on_inverter_temperature temp lri dt rec =
      if lri == Lri.inv_temperature then map (λ v. as_f32 v 100) (i32_value_28 rec) else temp

  unfoldable pub parse_inverter_temperature : List ℕ → Option F
  unfolding on_inverter_temperature
  parse_inverter_temperature body = for_each_28_record on_inverter_temperature body none

  unfoldable pub on_grid_frequency : Option F → ℕ → ℕ → List ℕ → Option F
  on_grid_frequency hz lri dt rec =
      if lri == Lri.grid_frequency then map (λ v. u32_as_f32 v 100) (u32_value_28 rec) else hz

  unfoldable pub parse_grid_frequency : List ℕ → Option F
  unfolding on_grid_frequency
  parse_grid_frequency body = for_each_28_record on_grid_frequency body none
