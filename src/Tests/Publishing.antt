-- ===== src/Tests/Publishing.antt =====
-- Runs of the MQTT publisher, the archive and the choices of the daemon.
use Prim.Native.String.{String}
use mathlib.Core.List.{map, Memᴰ}
use text.Mathlib.TextEquality.{eq_iff}
use text.Mathlib.Text.{◌==◌}
use hass_sma_rs.Prelude.{
  ℕ, ◌≡◌, ◌≢◌, refl, sym, ap, List, [], ◌∷◌, ◌++◌, Bool, true, false, Option, none, some, ltb,
  length, All,
}
use hass_sma_rs.Prelude.Texts.{◌<>◌, padded}
use hass_sma_rs.Mqtt.Catalog.{SensorConfig, sensor_catalog}
use hass_sma_rs.Mqtt.Publisher.{
  InverterIdentity, solar_inverter, default_config, Message, MqttClient, string, returned,
  availability_topic, discovery_topic, state_topic, config_fields, config_message, value_message,
  publish_result, publish_value, announce,
}
use hass_sma_rs.Mqtt.Topics.{get_field, publish_value-announced}
use hass_sma_rs.Mqtt.Announce.{Logs, SentInOrder, announce-SentInOrder}
use hass_sma_rs.Storage.Csv.{
  Row, CsvSink, Files, Works, filename_for, append_all, lines_of, csv_header, text_in, is_some,
  append_all-content,
}
use hass_sma_rs.Daemon.Config.{InverterCfg, DeviceCfg, minimal_inverter}
use hass_sma_rs.Daemon.Targets.{session_targets, Unheard, lwt_topic-Unheard}

abbrev zolder : InverterIdentity
zolder = record {
  slot = "zolder";
  serial = 2120121246;
  model = "SB 3000HF-30";
  firmware = "02.30.06.R";
  kind = solar_inverter;
}

abbrev ac_power : SensorConfig
ac_power = record {
  name = "AC Power";
  key = "ac_power";
  device_class = some "power";
  state_class = some "measurement";
  unit = some "W";
  icon = "mdi:flash";
  diagnostic = false;
}

-- The topics of the test in the source.
topic_shape :
    (discovery_topic default_config zolder ac_power
      ≡ "homeassistant/sensor/sbfspot_zolder_ac_power/config")
    × (state_topic default_config zolder ac_power ≡ "hass-sma/zolder/ac_power")
unfolding discovery_topic state_topic default_config
topic_shape = (refl, refl)

ac_power-Mem : Memᴰ ac_power sensor_catalog
unfolding sensor_catalog
ac_power-Mem = Memᴰ.head refl

-- A client that takes two messages.
abbrev push_if : Bool → List Message → Message → Bool × List Message
push_if true c m = (true, c ++ m ∷ [])
push_if false c m = (false, c)

abbrev small_client : MqttClient (List Message)
small_client = record { publish = λ c m. push_if (ltb (length c) 2) c m }

push_if-accepted :
    (b : Bool) (c c' : List Message) (m : Message) → push_if b c m ≡ (true, c') → c' ≡ c ++ m ∷ []
push_if-accepted true c c' m e = ap (λ (o : Bool × List Message). o.1) (sym e)
push_if-accepted false c c' m e = absurd (cc (ap (λ (o : Bool × List Message). o.0) e))

push_if-refused :
    (b : Bool) (c c' : List Message) (m : Message) → push_if b c m ≡ (false, c') → c' ≡ c
push_if-refused true c c' m e = absurd (cc (ap (λ (o : Bool × List Message). o.0) e))
push_if-refused false c c' m e = ap (λ (o : Bool × List Message). o.1) (sym e)

small_client-Logs : Logs small_client (λ (c : List Message). c)
small_client-Logs = record {
  on_accepted = λ c c' m e. push_if-accepted (ltb (length c) 2) c c' m e;
  on_refused = λ c c' m e. push_if-refused (ltb (length c) 2) c c' m e;
}

announce-SentInOrder_example :
    SentInOrder small_client
      (λ (c : List Message). c)
      small_client-Logs
      default_config
      zolder
      []
      (map (config_message default_config zolder) sensor_catalog)
      (announce small_client default_config zolder [])
announce-SentInOrder_example =
    announce-SentInOrder small_client (λ (c : List Message). c) small_client-Logs default_config
      zolder []

publish_value-announced_example :
    (publish_value small_client default_config zolder "ac_power" "641" []
      ≡ returned (
          publish_result small_client
            (small_client.publish [] (value_message default_config zolder ac_power "641"))))
    × (get_field "state_topic" (config_fields default_config zolder ac_power)
        ≡ some (string (value_message default_config zolder ac_power "641").topic))
    × (get_field "availability_topic" (config_fields default_config zolder ac_power)
        ≡ some (string (availability_topic default_config zolder)))
publish_value-announced_example =
    publish_value-announced small_client default_config zolder ac_power "641" [] ac_power-Mem

-- A file system with one file.
abbrev Disk : Type 0
Disk = Option String

abbrev one_file : Files Disk
one_file = record {
  create_dir_all = λ (s : Disk) (d : String). (true, s);
  try_exists = λ (s : Disk) (p : String). some (elim s [ none ↦ false | some _ ↦ true ]);
  open_append = λ (s : Disk) (p : String). (true, some (text_in s));
  write_all = λ (s : Disk) (p x : String). (true, some (text_in s <> x));
  flush = λ (s : Disk) (p : String). (true, s);
}

told : (s : Disk) → some (elim s [ none ↦ false | some _ ↦ true ]) ≡ some (is_some s)
told none = refl
told (some t) = refl

one_file-Works : Works one_file (λ (s : Disk) (p : String). s)
one_file-Works = record {
  creates = λ s d. (s, refl, λ p. refl);
  tells = λ s p. told s;
  opens = λ s p. (some (text_in s), refl, refl);
  writes = λ s p t x h. (some (text_in s <> x), refl, ap (λ (o : Disk). some (text_in o <> x)) h);
  flushes = λ s p. (s, refl, refl);
}

abbrev sink : CsvSink
sink = record { root = "/share/hass-sma-rs" }

abbrev row : String → Row
row value = record {
  date = record { year = 2026; month = 4; day = 19 };
  time = "2026-04-19T06:43:12+00:00";
  slot = "zolder";
  serial = 2120121246;
  metric = "ac_power";
  value = value;
}

filename : filename_for sink "zolder" (row "641").date ≡ "/share/hass-sma-rs/zolder-2026-04-19.csv"
unfolding filename_for padded
filename = refl

append_all-content_example :
    append_all one_file sink (row "641" ∷ row "655" ∷ []) none
    ≡ some (csv_header <> lines_of (row "641" ∷ row "655" ∷ []))
append_all-content_example =
    append_all-content one_file (λ (s : Disk) (p : String). s) one_file-Works sink
      "/share/hass-sma-rs/zolder-2026-04-19.csv" (row "641") (row "655" ∷ []) none
      (filename, (filename, tt))

abbrev slot_bytes : List ℕ
slot_bytes = 122 ∷ 111 ∷ 108 ∷ 100 ∷ 101 ∷ 114 ∷ []

abbrev garage : DeviceCfg
garage = record {
  slot = "garage";
  app_serial = 2120121383;
  password = none;
  model = "SB 2000HF-30";
}

abbrev repeater : InverterCfg
repeater = record (minimal_inverter "repeater" "00:80:25:21:32:35" "0000") { devices = garage ∷ [] }

garage_elsewhere : garage.slot ≢ repeater.slot
unfolding minimal_inverter
garage_elsewhere e =
    let same : ("garage" == "repeater") ≡ true = (eq_iff "garage" "repeater").1 e in
    absurd (cc same)

lwt_topic-Unheard_example :
    All (Unheard repeater zolder 0x78 0 default_config) (session_targets repeater zolder 0x78 0)
lwt_topic-Unheard_example =
    lwt_topic-Unheard repeater zolder 0x78 0 default_config garage [] refl (garage_elsewhere, tt)
