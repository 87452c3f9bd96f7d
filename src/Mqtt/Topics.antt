-- ===== src/Mqtt/Topics.antt =====
-- Topics: what tells them apart, and that announcements and updates agree on them.
use Prim.Native.String.{String}
use text.Mathlib.Text.{◌==◌}
use text.Mathlib.TextEquality.{eq_iff}
use text.Mathlib.TextLemmas.{append_cancel_left, append_cancel_right}
use mathlib.Core.List.{Memᴰ}
use mathlib.Core.Option.{some-injective}
use hass_sma_rs.Prelude.{
  ◌≡◌, refl, sym, ap, ◌∙◌, ◌↔◌, ◌≢◌, Bool, true, false, Bool-cases, inl, inr, Option, none, some,
  if◌then◌else◌, arith,
}
use hass_sma_rs.Mqtt.Catalog.{SensorConfig, sensor_catalog}
use hass_sma_rs.Mqtt.Publisher.{
  InverterIdentity, MqttClientConfig, Json, Fields, string, empty, field, MqttClient, panicked,
  returned, availability_topic, discovery_topic, state_topic, set_field, add_optional,
  with_category, base_fields, config_fields, value_message, find_sensor, publish_result,
  publish_found, publish_value,
}
use hass_sma_rs.Mqtt.Keys.{has_key, find_sensor-catalog, find_sensor-none, find_sensor-has_key}

same_key :
    (s t : SensorConfig) → Memᴰ s sensor_catalog → Memᴰ t sensor_catalog → s.key ≡ t.key → s ≡ t
same_key s t m n e =
    some-injective s t
      (sym (find_sensor-catalog s m) ∙ ap (find_sensor sensor_catalog) e ∙ find_sensor-catalog t n)

-- Of one inverter, two sensors of the catalogue with the same discovery topic, or with the same
-- state topic, are the same sensor.
topics_apart :
    (cfg : MqttClientConfig) (inv : InverterIdentity) (s t : SensorConfig)
    → Memᴰ s sensor_catalog
    → Memᴰ t sensor_catalog
    → ((discovery_topic cfg inv s ≡ discovery_topic cfg inv t) → s ≡ t)
      × ((state_topic cfg inv s ≡ state_topic cfg inv t) → s ≡ t)
unfolding discovery_topic state_topic
topics_apart cfg inv s t m n = (
  λ e. same_key s t m n (
      append_cancel_right s.key t.key "/config" (
        append_cancel_left "_" _ _ (
          append_cancel_left inv.slot _ _ (
            append_cancel_left "/sensor/sbfspot_" _ _
              (append_cancel_left cfg.discovery_prefix _ _ e))))),
  λ e. same_key s t m n (
      append_cancel_left "/" _ _ (
        append_cancel_left inv.slot _ _
          (append_cancel_left "/" _ _ (append_cancel_left cfg.state_prefix _ _ e)))),
)

availability_unused : has_key sensor_catalog "availability" ≡ false
unfolding sensor_catalog
availability_unused = refl

-- No value of a sensor goes to the availability topic.
state_topic-availability :
    (cfg : MqttClientConfig) (inv : InverterIdentity) (s : SensorConfig)
    → Memᴰ s sensor_catalog
    → state_topic cfg inv s ≢ availability_topic cfg inv
unfolding state_topic availability_topic
state_topic-availability cfg inv s m e =
    let key : s.key ≡ "availability" = append_cancel_left "/" _ _ (
      append_cancel_left inv.slot _ _
        (append_cancel_left "/" _ _ (append_cancel_left cfg.state_prefix _ _ e))) in
    absurd (
      cc (
        find_sensor-catalog s m,
        ap (find_sensor sensor_catalog) key,
        find_sensor-none sensor_catalog "availability" availability_unused,
      ))

abbrev pub get_field : String → Fields → Option Json
get_field name empty = none
get_field name (field other v rest) = if other == name then some v else get_field name rest

get_field-set_field :
    (name other : String) (v : Json) (fs : Fields)
    → (name == other) ≡ false
    → get_field other (set_field name v fs) ≡ get_field other fs
get_field-set_field name other v empty h = rw h
get_field-set_field name other v (field key w rest) h = ground (
  arith,
  eq_iff key name,
  eq_iff key other,
  eq_iff name other,
  get_field-set_field name other v rest h,
)

get_field-add_optional :
    (name other : String) (v : Option String) (fs : Fields)
    → (name == other) ≡ false
    → get_field other (add_optional fs name v) ≡ get_field other fs
unfolding add_optional
get_field-add_optional name other none fs h = refl
get_field-add_optional name other (some v) fs h = get_field-set_field name other (string v) fs h

get_field-with_category :
    (b : Bool) (other : String) (fs : Fields)
    → ("entity_category" == other) ≡ false
    → get_field other (with_category b fs) ≡ get_field other fs
get_field-with_category false other fs h = refl
get_field-with_category true other fs h =
    get_field-set_field "entity_category" other (string "diagnostic") fs h

-- Where the announcement of a sensor sends Home Assistant for its values, and for its availability.
get_field-config_fields :
    (cfg : MqttClientConfig) (inv : InverterIdentity) (s : SensorConfig) (name : String)
    → ("entity_category" == name) ≡ false
    → ("device_class" == name) ≡ false
    → ("state_class" == name) ≡ false
    → ("unit_of_measurement" == name) ≡ false
    → get_field name (config_fields cfg inv s) ≡ get_field name (base_fields cfg inv s)
unfolding config_fields
get_field-config_fields cfg inv s name a b c d =
    get_field-with_category s.diagnostic name _ a
    ∙ get_field-add_optional "unit_of_measurement" name s.unit _ d
    ∙ get_field-add_optional "state_class" name s.state_class _ c
    ∙ get_field-add_optional "device_class" name s.device_class _ b

module _ {C : Type 0} (mqtt : MqttClient C) (cfg : MqttClientConfig) (inv : InverterIdentity) where
  -- A value of a sensor of the catalogue goes out as one message, to the topic that the sensor was
  -- announced with, and its availability topic is that of the inverter.
  pub publish_value-announced :
      (s : SensorConfig) (value : String) (c : C)
      → Memᴰ s sensor_catalog
      → (publish_value mqtt cfg inv s.key value c
          ≡ returned (publish_result mqtt (mqtt.publish c (value_message cfg inv s value))))
        × (get_field "state_topic" (config_fields cfg inv s)
            ≡ some (string (value_message cfg inv s value).topic))
        × (get_field "availability_topic" (config_fields cfg inv s)
            ≡ some (string (availability_topic cfg inv)))
  unfolding publish_value
  publish_value-announced s value c m = (
    ap (publish_found mqtt cfg inv value c) (find_sensor-catalog s m),
    get_field-config_fields cfg inv s "state_topic" refl refl refl refl,
    get_field-config_fields cfg inv s "availability_topic" refl refl refl refl,
  )

  -- A value of a key panics if and only if the catalogue does not have the key.
  pub publish_value-panics_iff :
      (key value : String) (c : C)
      → (publish_value mqtt cfg inv key value c ≡ panicked) ↔ (has_key sensor_catalog key ≡ false)
  unfolding publish_value
  publish_value-panics_iff key value c = (
    λ p. elim (Bool-cases (has_key sensor_catalog key)) [
      | inl known ↦
          let (s, e) = find_sensor-has_key sensor_catalog key known in
          absurd (cc (ap (publish_found mqtt cfg inv value c) e, p))
      | inr unknown ↦ unknown
    ],
    λ h. ap (publish_found mqtt cfg inv value c) (find_sensor-none sensor_catalog key h),
  )
