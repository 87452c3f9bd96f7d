-- ===== src/Client/Values/Electrical.antt =====
-- The voltages, currents and the power factor of crates/inverter-client/src/values.rs, and the type
-- label. A conversion `v as f32 / d` is a parameter, applied to the value and the divisor.
use hass_sma_rs.Prelude.{
  ℕ, zero, suc, ◌+◌, ◌/◌, List, [], ◌∷◌, Option, none, some, Bool, true, false, ◌&&◌, ◌||◌, leb,
  ◌==◌, if◌then◌else◌, bit_and, length, take, drop, slice,
}
use mathlib.Core.Option.{map}
use hass_sma_rs.Prelude.Words.{read_u32}
use hass_sma_rs.Client.Values.Lri
use hass_sma_rs.Client.Values.{
  ℤ, pos, negsuc, records_region, record_lri, for_each_28_record, i32_value_28,
}

pub record AcVoltageCurrent (F : Type 0) : Type 0 where
  pub uac1_v : Option F
  pub uac2_v : Option F
  pub uac3_v : Option F
  pub iac1_a : Option F
  pub iac2_a : Option F
  pub iac3_a : Option F

pub record DcPerString (F : Type 0) : Type 0 where
  pub pdc1_w : Option ℤ
  pub pdc2_w : Option ℤ
  pub udc1_v : Option F
  pub udc2_v : Option F
  pub idc1_a : Option F
  pub idc2_a : Option F

-- `i32::unsigned_abs`
unfoldable pub unsigned_abs : ℤ → ℕ
unsigned_abs (pos n) = n
unsigned_abs (negsuc n) = n + 1

module _ {F : Type 0} (as_f32 : ℤ → ℕ → F) where
  -- The value of a record, scaled.
  abbrev pub scaled : ℕ → List ℕ → Option F
  scaled divisor rec = map (λ v. as_f32 v divisor) (i32_value_28 rec)

  unfoldable pub on_spot_ac_voltage : AcVoltageCurrent F → ℕ → ℕ → List ℕ → AcVoltageCurrent F
  on_spot_ac_voltage out lri dt rec =
      if lri == Lri.grid_ms_vphs_a
      then record out { uac1_v = scaled 100 rec }
      else if lri == Lri.grid_ms_vphs_b
      then record out { uac2_v = scaled 100 rec }
      else if lri == Lri.grid_ms_vphs_c
      then record out { uac3_v = scaled 100 rec }
      else if lri == Lri.grid_ms_aphs_a
      then record out { iac1_a = scaled 1000 rec }
      else if lri == Lri.grid_ms_aphs_b
      then record out { iac2_a = scaled 1000 rec }
      else if lri == Lri.grid_ms_aphs_c
      then record out { iac3_a = scaled 1000 rec }
      else out

  unfoldable pub parse_spot_ac_voltage : List ℕ → AcVoltageCurrent F
  unfolding on_spot_ac_voltage
  parse_spot_ac_voltage body = for_each_28_record on_spot_ac_voltage body (record {
    uac1_v = none;
    uac2_v = none;
    uac3_v = none;
    iac1_a = none;
    iac2_a = none;
    iac3_a = none;
  })

  -- The string is the low byte of the record's code word.
  unfoldable pub on_dc_string : DcPerString F → ℕ → ℕ → List ℕ → DcPerString F
  on_dc_string out lri cls rec =
      if lri == Lri.dc_ms_watt && cls == 1
      then record out { pdc1_w = i32_value_28 rec }
      else if lri == Lri.dc_ms_watt && cls == 2
      then record out { pdc2_w = i32_value_28 rec }
      else if lri == Lri.dc_ms_vol && cls == 1
      then record out { udc1_v = scaled 100 rec }
      else if lri == Lri.dc_ms_vol && cls == 2
      then record out { udc2_v = scaled 100 rec }
      else if lri == Lri.dc_ms_amp && cls == 1
      then record out { idc1_a = scaled 1000 rec }
      else if lri == Lri.dc_ms_amp && cls == 2
      then record out { idc2_a = scaled 1000 rec }
      else out

  unfoldable pub on_dc_block : DcPerString F → ℕ → ℕ → List ℕ → DcPerString F
  unfolding on_dc_string
  on_dc_block out lri dt rec = on_dc_string out lri (bit_and (read_u32 (slice rec 0 4)) 0xff) rec

  -- The source writes the walk out again, with the same bounds and strides, for the code word.
  unfoldable pub parse_dc_block : List ℕ → DcPerString F
  unfolding on_dc_block
  parse_dc_block body = for_each_28_record on_dc_block body (record {
    pdc1_w = none;
    pdc2_w = none;
    udc1_v = none;
    udc2_v = none;
    idc1_a = none;
    idc2_a = none;
  })

  abbrev pub parse_spot_dc_power : List ℕ → DcPerString F
  parse_spot_dc_power body = parse_dc_block body

  abbrev pub parse_spot_dc_voltage : List ℕ → DcPerString F
  parse_spot_dc_voltage body = parse_dc_block body

-- The two ranges of the power factor, as the source tests them on the LRI.
abbrev in_cosphi_range : ℕ → Bool
in_cosphi_range lri =
    (leb 0x00237400 lri && leb lri 0x002374ff) || (leb 0x00474800 lri && leb lri 0x004748ff)

module _ {F : Type 0} (u32_as_f32 : ℕ → ℕ → F) where
  -- The first record in a range that has a value counts.
  unfoldable pub on_cosphi : Option F → ℕ → ℕ → List ℕ → Option F
  on_cosphi (some v) lri dt rec = some v
  on_cosphi none lri dt rec =
      if in_cosphi_range lri
      then map (λ v. u32_as_f32 (unsigned_abs v) 1000) (i32_value_28 rec)
      else none

  unfoldable pub parse_cosphi : List ℕ → Option F
  unfolding on_cosphi
  parse_cosphi body = for_each_28_record on_cosphi body none

-- `for off in (8..RECORDSIZE).step_by(4)`, on the offsets left.
unfoldable pub selected_tag : List ℕ → List ℕ → Option ℕ
selected_tag rec [] = none
selected_tag rec (off ∷ offs) =
    let attr = read_u32 (slice rec off (off + 4)) in
    let rest = selected_tag rec offs in
    if bit_and attr 0x00ffffff == 0x00fffffe
    then none
    else if attr / 16777216 == 1
    then some (bit_and attr 0x00ffffff)
    else rest

abbrev is_type_lri : ℕ → Bool
is_type_lri lri = lri == 0x00821e00 || lri == 0x00821f00 || lri == 0x00822000

unfoldable pub label_in : List ℕ → Option ℕ
unfolding selected_tag
label_in rec =
    if is_type_lri (record_lri (read_u32 (slice rec 0 4)))
    then selected_tag rec (8 ∷ 12 ∷ 16 ∷ 20 ∷ 24 ∷ 28 ∷ 32 ∷ 36 ∷ [])
    else none

-- `while i + RECORDSIZE <= region.len()`, on fuel, over the region from `i` on.
unfoldable pub label_loop : ℕ → List ℕ → Option ℕ
label_loop zero region = none
label_loop (suc n) region = elim (leb 40 (length region)) [
  | false ↦ none
  | true ↦ elim (label_in (take 40 region)) [
    | some found ↦ some found
    | none ↦ label_loop n (drop 40 region)
  ]
]

-- A record has a byte, so a region has no more records than bytes.
unfoldable pub parse_type_label_raw : List ℕ → Option ℕ
parse_type_label_raw body = let region = records_region body in label_loop (length region) region
