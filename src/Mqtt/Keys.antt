-- ===== src/Mqtt/Keys.antt =====
-- The keys of the catalogue: no two sensors share one, so a key finds its sensor.
use Prim.Native.String.{String}
use text.Mathlib.Text.{◌==◌}
use text.Mathlib.TextEquality.{eq_iff}
use text.Mathlib.TextPositions.{eq_refl}
use mathlib.Core.List.Memᴰ
use mathlib.Core.List.{Memᴰ}
use hass_sma_rs.Prelude.{
  ◌≡◌, refl, ap, Bool, true, false, not, ◌&&◌, ◌||◌, Bool-cases, inl, inr, none, some, List, [],
  ◌∷◌, arith,
}
use hass_sma_rs.Mqtt.Catalog.{SensorConfig, sensor_catalog}
use hass_sma_rs.Mqtt.Publisher.{find_sensor}

abbrev pub has_key : List SensorConfig → String → Bool
has_key [] key = false
has_key (s ∷ rest) key = s.key == key || has_key rest key

abbrev pub distinct_keys : List SensorConfig → Bool
distinct_keys [] = true
distinct_keys (s ∷ rest) = not (has_key rest s.key) && distinct_keys rest

sensor_catalog_distinct : distinct_keys sensor_catalog ≡ true
unfolding sensor_catalog
sensor_catalog_distinct = refl

-- A sensor of the list, which its key finds if the keys are distinct.
has_key-Mem : (l : List SensorConfig) (s : SensorConfig) → Memᴰ s l → has_key l s.key ≡ true
has_key-Mem [] s m = absurd (Memᴰ.not-nil m)
has_key-Mem (x ∷ l) s (Memᴰ.head e) = rw (e, eq_refl x.key)
has_key-Mem (x ∷ l) s (Memᴰ.tail m) = ground (arith, has_key-Mem l s m)

find_sensor-Mem :
    (l : List SensorConfig) (s : SensorConfig)
    → distinct_keys l ≡ true
    → Memᴰ s l
    → find_sensor l s.key ≡ some s
find_sensor-Mem [] s d m = absurd (Memᴰ.not-nil m)
find_sensor-Mem (x ∷ l) s d (Memᴰ.head e) = rw (e, eq_refl x.key)
find_sensor-Mem (x ∷ l) s d (Memᴰ.tail m) = elim (Bool-cases (x.key == s.key)) [
  | inl same ↦
      absurd (ground (arith, has_key-Mem l s m, ap (has_key l) ((eq_iff x.key s.key).0 same), d))
  | inr other ↦ rw other (find_sensor-Mem l s (ground (arith, d)) m)
]

pub find_sensor-catalog :
    (s : SensorConfig) → Memᴰ s sensor_catalog → find_sensor sensor_catalog s.key ≡ some s
find_sensor-catalog s m = find_sensor-Mem sensor_catalog s sensor_catalog_distinct m

pub find_sensor-none :
    (l : List SensorConfig) (key : String) → has_key l key ≡ false → find_sensor l key ≡ none
find_sensor-none [] key h = refl
find_sensor-none (s ∷ l) key h = ground (arith, find_sensor-none l key)

pub find_sensor-has_key :
    (l : List SensorConfig) (key : String)
    → has_key l key ≡ true
    → (s : SensorConfig) × (find_sensor l key ≡ some s)
find_sensor-has_key [] key h = absurd (cc h)
find_sensor-has_key (s ∷ l) key h = elim (Bool-cases (s.key == key)) [
  | inl here ↦ (s, rw here)
  | inr later ↦ let (t, e) = find_sensor-has_key l key (rw later at h) in (t, rw later e)
]
