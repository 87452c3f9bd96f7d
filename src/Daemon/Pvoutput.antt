-- ===== src/Daemon/Pvoutput.antt =====
-- crates/daemon/src/pvoutput.rs and pvoutput_uploader.rs: the status of a system and its upload form;
-- and the choice of its inverter in main.rs. Gauges, dates and the printing of floats are parameters.
use Prim.Native.String.{String, [], ◌∷◌}
use Prim.Native.Char.{Char, code}
use text.Mathlib.Text.{◌==◌}
use hass_sma_rs.Prelude.{
  ℕ, zero, suc, ◌-◌, ◌%◌, ◌/◌, ◌^◌, ◌≡◌, ◌<◌, refl, ap, ◌∙◌, List, [], ◌∷◌, ◌++◌, Bool, true, false,
  not, ◌&&◌, ◌||◌, Bool-cases, Option, none, some, inl, inr, leb, ltb, get_or, if◌then◌else◌, arith,
  lt→ltb, ◌+◌,
}
use hass_sma_rs.Prelude
use hass_sma_rs.Prelude.Texts.{◌<>◌, decimal, digit}
use hass_sma_rs.Daemon.Config.{InverterCfg, DeviceCfg}

pub record PvoutputSystem : Type 0 where
  pub slot : String
  pub system_id : ℕ

-- The upload interval in seconds.
pub record PvoutputCfg : Type 0 where
  pub api_key : String
  pub systems : List PvoutputSystem
  pub upload_interval : ℕ

abbrev pub default_interval : ℕ
default_interval = 300

pub record Status (D F : Type 0) : Type 0 where
  pub timestamp : D
  pub energy_today_wh : Option ℕ
  pub power_w : Option ℕ
  pub temperature_c : Option F
  pub voltage_v : Option F

-- A time of the day, its day, and `{:.1}` of a float.
pub record Texts (D F : Type 0) : Type 0 where
  pub day_of : D → String
  pub time_of : D → String
  pub one_place : F → String

-- `{:02X}`: at least two digits, for code points of up to six.
abbrev pub hex_text : ℕ → String
hex_text d =
    if ltb d 10 then digit d else get_or ("A" ∷ "B" ∷ "C" ∷ "D" ∷ "E" ∷ "F" ∷ []) (d - 10) ""

unfoldable pub hex_digits : ℕ → ℕ → String
hex_digits zero n = hex_text n
hex_digits (suc fuel) n =
    let longer = hex_digits fuel (n / 16) in
    if ltb n 256 then hex_text (n / 16) <> hex_text (n % 16) else longer <> hex_text (n % 16)

-- Letters, digits, and the four marks.
abbrev pub is_plain : ℕ → Bool
is_plain c =
    (leb 97 c && leb c 122)
    || (leb 65 c && leb c 90)
    || (leb 48 c && leb c 57)
    || Prelude.◌==◌ c 45
    || Prelude.◌==◌ c 95
    || Prelude.◌==◌ c 46
    || Prelude.◌==◌ c 126

abbrev pub encoded : Char → String
encoded c = if is_plain (code c) then c ∷ [] else "%" <> hex_digits 5 (code c)

unfoldable pub urlencode : String → String
unfolding hex_digits
urlencode [] = ""
urlencode (c ∷ s) = encoded c <> urlencode s

abbrev pub part : {A : Type 0} → String → (A → String) → Option A → List String
part name show none = []
part name show (some a) = (name <> show a) ∷ []

-- `parts.join("&")`
abbrev pub join : List String → String
join [] = ""
join (p ∷ []) = p
join (p ∷ q ∷ ps) = p <> "&" <> join (q ∷ ps)

module _ {D F : Type 0} (texts : Texts D F) where
  unfoldable pub build_status_body : Status D F → String
  unfolding urlencode
  build_status_body s = join (
      ("d=" <> texts.day_of s.timestamp)
      ∷ ("t=" <> urlencode (texts.time_of s.timestamp))
      ∷ (part "v1=" decimal s.energy_today_wh
          ++ part "v2=" decimal s.power_w
          ++ part "v5=" texts.one_place s.temperature_c
          ++ part "v6=" texts.one_place s.voltage_v))

-- `u32::try_from`
abbrev pub to_u32 : Option ℕ → Option ℕ
to_u32 none = none
to_u32 (some n) = if ltb n (2 ^ 32) then some n else none

unfoldable pub status_at :
    {D F : Type 0} → D → Option ℕ → Option ℕ → Option F → Option F → Status D F
status_at timestamp energy power temperature voltage = record {
  timestamp = timestamp;
  energy_today_wh = to_u32 energy;
  power_w = power;
  temperature_c = temperature;
  voltage_v = voltage;
}

-- The gauges of one device, after the casts from 64-bit floats: `as u32`, `as u64`, `as f32`.
pub record Observed (F : Type 0) : Type 0 where
  pub power : ℕ
  pub energy : ℕ
  pub voltage : F
  pub temp : F

abbrev pub if_positive : {F : Type 0} → (F → Bool) → F → Option F
if_positive is_positive x = if is_positive x then some x else none

module _ {D F : Type 0} (is_positive : F → Bool) where
  -- `energy as u32` keeps the low half.
  abbrev pub observed_status : D → Observed F → Status D F
  observed_status now o = record {
    timestamp = now;
    energy_today_wh = some (o.energy % 2 ^ 32);
    power_w = some o.power;
    temperature_c = if_positive is_positive o.temp;
    voltage_v = if_positive is_positive o.voltage;
  }

  -- No values have been seen while power and energy are zero.
  unfoldable pub collect_status : D → Observed F → Option (Status D F)
  collect_status now o =
      if Prelude.◌==◌ o.power 0 && Prelude.◌==◌ o.energy 0
      then none
      else some (observed_status now o)

  -- A status that is uploaded is the one that `status_at` makes of the same readings, as long as the
  -- energy of the day fits 32 bits; there is none while power and energy are zero.
  collect_status-status_at :
      (now : D) (o : Observed F)
      → o.energy < 2 ^ 32
      → collect_status now o ≡ (
          if Prelude.◌==◌ (o.power + o.energy) 0
          then none
          else some (
              status_at now
                (some o.energy)
                (some o.power)
                (if_positive is_positive o.temp)
                (if_positive is_positive o.voltage)))
  unfolding collect_status status_at
  collect_status-status_at now o h =
      let same : o.energy % 2 ^ 32 ≡ o.energy = omega arith in ground (arith, same)

-- The entry of the configuration that has the slot of a system: through its devices, or its own if
-- it has none.
abbrev pub has_device : List DeviceCfg → String → Bool
has_device [] slot = false
has_device (d ∷ ds) slot = d.slot == slot || has_device ds slot

abbrev pub is_single : List DeviceCfg → Bool
is_single [] = true
is_single (d ∷ ds) = false

unfoldable pub owner_slot : List InverterCfg → String → String
owner_slot [] slot = slot
owner_slot (inv ∷ rest) slot =
    let later = owner_slot rest slot in
    if has_device inv.devices slot || (inv.slot == slot && is_single inv.devices)
    then inv.slot
    else later

-- What the test of the source expects of a time.
encoded_time : urlencode "13:30" ≡ "13%3A30"
unfolding urlencode
encoded_time = refl
