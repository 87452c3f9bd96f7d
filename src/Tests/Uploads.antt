-- ===== src/Tests/Uploads.antt =====
-- Runs of the uploader, of the schema, and of what the daemon starts with.
use mathlib.Core.List.{Memᴰ}
use hass_sma_rs.Prelude.{ℕ, ◌≡◌, refl, List, [], ◌∷◌, ◌++◌, true, none, some, length, ltb}
use hass_sma_rs.Storage.Writer.{
  create_schema, statements, split_text, trim_start, trim_end, trimmed,
}
use hass_sma_rs.Daemon.Config.{InverterCfg, DeviceCfg, minimal_inverter, minimal_mqtt}
use hass_sma_rs.Daemon.Poll.{Target}
use hass_sma_rs.Daemon.Targets.{initial_identity, device_target, session_targets}
use hass_sma_rs.Daemon.Pvoutput.{PvoutputSystem, PvoutputCfg, Texts, Observed}
use hass_sma_rs.Daemon.Uploader.{
  uploader_task, read_labels, poll_labels, Request, Http, upload_loop, read_labels-poll_labels,
}
use hass_sma_rs.Daemon.Uploader.Requests.{Posts, requests_of, upload_loop-requests}
use hass_sma_rs.Daemon.Startup.{DaemonConfig, inverter_task}
use hass_sma_rs.Daemon.Startup

-- Nine statements.
schema_length : length (statements create_schema) ≡ 9
unfolding statements split_text trim_start trim_end trimmed
schema_length = refl

abbrev texts : Texts ℕ ℕ
texts = record { day_of = λ d. "20260419"; time_of = λ d. "06:43"; one_place = λ x. "1.0" }

-- A server that keeps what it gets and refuses all of it.
abbrev refusing : Http (List Request)
refusing = record { post = λ (h : List Request) (r : Request). (some 400, h ++ r ∷ []) }

refusing-Posts : Posts texts (ltb 0) refusing (λ (h : List Request). h)
refusing-Posts = record { on_post = λ h r. refl }

-- Of the later ticks, the first has no values.
abbrev first_tick : ℕ × Observed ℕ
first_tick = (0, record { power = 641; energy = 4200; voltage = 230; temp = 30 })

abbrev ticks : List (ℕ × Observed ℕ)
ticks =
    (300, record { power = 0; energy = 0; voltage = 0; temp = 0 })
    ∷ (600, record { power = 655; energy = 4250; voltage = 231; temp = 31 })
    ∷ []

abbrev garage : DeviceCfg
garage = record {
  slot = "garage";
  app_serial = 2120121383;
  password = none;
  model = "SB 2000HF-30";
}

abbrev repeater : InverterCfg
repeater = record (minimal_inverter "repeater" "00:80:25:21:32:35" "0000") { devices = garage ∷ [] }

abbrev zolder : InverterCfg
zolder = minimal_inverter "zolder" "00:80:25:21:32:36" "0000"

abbrev pv : PvoutputCfg
pv = record { api_key = "key"; systems = []; upload_interval = 300 }

abbrev system : PvoutputSystem
system = record { slot = "garage"; system_id = 12345 }

upload_loop-requests_example :
    upload_loop texts
      (ltb 0)
      refusing
      true
      (uploader_task (zolder ∷ repeater ∷ []) pv system)
      (first_tick ∷ ticks)
      []
    ≡ requests_of texts (ltb 0) refusing pv system ticks
upload_loop-requests_example =
    upload_loop-requests texts (ltb 0) refusing (λ (h : List Request). h) refusing-Posts
      (zolder ∷ repeater ∷ []) pv system first_tick ticks []

abbrev garage_target : Target
garage_target = device_target (record (initial_identity repeater) { serial = 7 }) 0x78 garage

read_labels-poll_labels_example :
    read_labels
      (uploader_task (zolder ∷ repeater ∷ []) pv (record { slot = "garage"; system_id = 12345 }))
    ≡ poll_labels repeater garage_target
unfolding session_targets minimal_inverter initial_identity
read_labels-poll_labels_example =
    read_labels-poll_labels (zolder ∷ []) [] repeater pv
      (record { slot = "garage"; system_id = 12345 }) (initial_identity repeater) 0x78 7
      garage_target refl (Memᴰ.head refl) refl (refl, tt)

abbrev config : DaemonConfig
config = record {
  mqtt = minimal_mqtt "core-mosquitto";
  inverters = zolder ∷ [];
  local_bt_address = none;
  rfcomm_timeout = 15;
  metrics_addr = "0.0.0.0:9090";
  archive = none;
  pvoutput = none;
}

abbrev bytes_of : Startup.Texts
bytes_of = record { as_bytes = λ s. []; is_address = λ s. true }

abbrev zolder_target : Target
zolder_target = record {
  identity = record (initial_identity zolder) { serial = 2120121246 };
  susy = 0x78;
  serial = 2120121246;
}
