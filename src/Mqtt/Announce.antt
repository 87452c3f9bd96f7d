-- ===== src/Mqtt/Announce.antt =====
-- What an announcement sends.
use mathlib.Core.List.{map}
use hass_sma_rs.Prelude.{
  ℕ, suc, ◌<◌, ◌≡◌, refl, sym, ◌∙◌, ap, List, [], ◌∷◌, ◌++◌, append_assoc, append-nil, Bool, true,
  false, Result, ok, err, length, take, arith,
}
use hass_sma_rs.Mqtt.Catalog.{SensorConfig, sensor_catalog}
use hass_sma_rs.Mqtt.Publisher.{
  InverterIdentity, MqttClientConfig, Message, MqttClient, PublisherError, config_message,
  announce_each, announce,
}

-- `log` has the messages that the client took, in order; a refused one is not among them.
pub record Logs {C : Type 0} (mqtt : MqttClient C) (log : C → List Message) : Type 0 where
  pub on_accepted :
      (c c' : C) (m : Message) → mqtt.publish c m ≡ (true, c') → log c' ≡ log c ++ m ∷ []
  pub on_refused : (c c' : C) (m : Message) → mqtt.publish c m ≡ (false, c') → log c' ≡ log c

module _ {C : Type 0} (mqtt : MqttClient C) (log : C → List Message) (logs : Logs mqtt log)
    (cfg : MqttClientConfig) (inv : InverterIdentity) where
  -- All the messages were sent in order, or a proper prefix of them and then came the error.
  unfoldable pub SentInOrder :
      List Message → List Message → Result PublisherError (Unit {0}) × C → Type 0
  SentInOrder before messages (ok _, c) = log c ≡ before ++ messages
  SentInOrder before messages (err _, c) =
      (n : ℕ) × (n < length messages) × (log c ≡ before ++ take n messages)

  one_more :
      (before messages : List Message) (m : Message) (o : Result PublisherError (Unit {0}) × C)
      → SentInOrder (before ++ m ∷ []) messages o
      → SentInOrder before (m ∷ messages) o
  unfolding SentInOrder
  one_more before messages m (ok _, c) h = h ∙ append_assoc before (m ∷ []) messages
  one_more before messages m (err _, c) (n, less, h) =
      (suc n, omega arith, h ∙ append_assoc before (m ∷ []) (take n messages))

  announce_each-SentInOrder :
      (sensors : List SensorConfig) (c : C) (before : List Message)
      → log c ≡ before
      → SentInOrder before
          (map (config_message cfg inv) sensors)
          (announce_each mqtt cfg inv sensors (true, c))
  unfolding announce_each SentInOrder
  announce_each-SentInOrder [] c before h = h ∙ sym (append-nil before)
  announce_each-SentInOrder (s ∷ rest) c before h = by_answer (mqtt.publish c m) refl (λ e.
      announce_each-SentInOrder rest (mqtt.publish c (config_message cfg inv s)).1
        (before ++ config_message cfg inv s ∷ []) e)
    where
      m : Message
      m = config_message cfg inv s

      Rest : Bool × C → Type 0
      Rest a =
          log a.1 ≡ before ++ m ∷ []
          → SentInOrder (before ++ m ∷ []) (map (config_message cfg inv) rest)
              (announce_each mqtt cfg inv rest (true, a.1))

      by_answer :
          (a : Bool × C)
          → mqtt.publish c m ≡ a
          → Rest a
          → SentInOrder before
              (m ∷ map (config_message cfg inv) rest)
              (announce_each mqtt cfg inv rest a)
      by_answer (true, c') e sent_rest' =
          one_more before (map (config_message cfg inv) rest) m _
            (sent_rest' (logs.on_accepted c c' m e ∙ ap (λ (l : List Message). l ++ m ∷ []) h))
      by_answer (false, c') e _ =
          (0, omega arith, logs.on_refused c c' m e ∙ h ∙ sym (append-nil before))

  -- An announcement sends the retained configuration of each sensor of the catalogue, in order, or
  -- fails and has sent a proper prefix of them.
  pub announce-SentInOrder :
      (c : C)
      → SentInOrder (log c) (map (config_message cfg inv) sensor_catalog) (announce mqtt cfg inv c)
  unfolding announce
  announce-SentInOrder c = announce_each-SentInOrder sensor_catalog c (log c) refl
