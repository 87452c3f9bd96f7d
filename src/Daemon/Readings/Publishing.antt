-- ===== src/Daemon/Readings/Publishing.antt =====
-- Readings published through the MQTT crate.
use Prim.Native.String.{String}
use hass_sma_rs.Prelude.{ℕ, ◌≡◌, refl, ap, List, [], ◌∷◌, Bool, true, Option, All, Result}
use hass_sma_rs.Protocol.Commands.{QueryKind}
use hass_sma_rs.Mqtt.Catalog.{SensorConfig, sensor_catalog}
use hass_sma_rs.Mqtt.Publisher.{
  InverterIdentity, MqttClientConfig, MqttClient, Outcome, PublisherError, panicked, returned,
  publish_value, publish_found, publish_result, value_message,
}
use hass_sma_rs.Mqtt.Keys.{has_key, find_sensor-has_key}
use hass_sma_rs.Daemon.Readings.{
  Number, Floats, Outputs, Update, gauge, value, record_as, updates, apply_update, apply_updates,
  publish_query_result, record_with,
}
use hass_sma_rs.Daemon.Readings.Keys.{IsListed, updates-IsListed}

-- The daemon's publisher: an error is dropped, a panic is not.
abbrev pub dropped : {C : Type 0} → Outcome (Result PublisherError (Unit {0}) × C) → Outcome C
dropped panicked = panicked
dropped (returned (r, c)) = returned c

-- Outputs whose publisher is that of the MQTT crate.
abbrev pub mqtt_outputs :
    {F C : Type 0}
    → MqttClient C
    → MqttClientConfig
    → (C → String → InverterIdentity → Number F → C)
    → Option (C → String → ℕ → String → Number F → Bool × C)
    → Outputs F C
mqtt_outputs mqtt cfg set_gauge archive = record {
  set_gauge = set_gauge;
  put_value = λ c id key text. dropped (publish_value mqtt cfg id key text c);
  archive = archive;
}

module _ {F C : Type 0} (mqtt : MqttClient C) (cfg : MqttClientConfig)
    (set_gauge : C → String → InverterIdentity → Number F → C)
    (archive : Option (C → String → ℕ → String → Number F → Bool × C)) where
  abbrev out : Outputs F C
  out = mqtt_outputs mqtt cfg set_gauge archive

  published_value :
      (c : C) (id : InverterIdentity) (key text : String)
      → has_key sensor_catalog key ≡ true
      → (c' : C) × (dropped (publish_value mqtt cfg id key text c) ≡ returned c')
  unfolding publish_value
  published_value c id key text h =
      let (s, e) = find_sensor-has_key sensor_catalog key h in
      (
        (publish_result mqtt (mqtt.publish c (value_message cfg id s text))).1,
        ap (λ (o : Option SensorConfig). dropped (publish_found mqtt cfg id text c o)) e,
      )

  apply_update-returns :
      (id : InverterIdentity) (c : C) (u : Update F)
      → IsListed u
      → (c' : C) × (apply_update out id c u ≡ returned c')
  apply_update-returns id c (gauge metric n) h = (set_gauge c metric id n, refl)
  apply_update-returns id c (value key text) h = published_value c id key text h
  apply_update-returns id c (record_as metric n) h = (record_with out archive c id metric n, refl)

  apply_updates-returns :
      (id : InverterIdentity) (us : List (Update F)) (c : C)
      → All IsListed us
      → (c' : C) × (apply_updates out id us c ≡ returned c')
  unfolding apply_updates
  apply_updates-returns id [] c h = (c, refl)
  apply_updates-returns id (u ∷ us) c (h, k) =
      let (c₁, e₁) = apply_update-returns id c u h in
      let (c₂, e₂) = apply_updates-returns id us c₁ k in (c₂, rw e₁ e₂)

  -- With the publisher of the MQTT crate, the reply to a query, of any kind and content, is
  -- published without a panic.
  pub publish_query_result-returns :
      (floats : Floats F) (kind : QueryKind) (body : List ℕ) (id : InverterIdentity) (c : C)
      → (c' : C) × (publish_query_result out floats kind body id c ≡ returned c')
  unfolding publish_query_result
  publish_query_result-returns floats kind body id c =
      apply_updates-returns id (updates floats kind body) c (updates-IsListed floats kind body)
