-- ===== src/Tests/Polling.antt =====
-- Runs of the daemon's loops.
use Prim.Native.String.{String}
use hass_sma_rs.Prelude.{
  ℕ, ◌≡◌, ◌⊎◌, refl, List, [], ◌∷◌, ◌++◌, true, false, none, some, replicate, arith,
}
use hass_sma_rs.Protocol.Commands.{QueryKind}
use hass_sma_rs.Transport.Mock.{MockTransport, mock_transport}
use hass_sma_rs.Client.Session.{Session}
use hass_sma_rs.Mqtt.Publisher.{
  InverterIdentity, solar_inverter, Message, MqttClient, panicked, returned, default_config,
}
use hass_sma_rs.Daemon.Backoff.{
  at_start, connect_failed, handshake_failed, session_ended, sleep, publish_online, attempts,
}
use hass_sma_rs.Daemon.Backoff.Sleep.{away, downs, attempts-downs, attempts-grace}
use hass_sma_rs.Daemon.Readings.{Number, Floats, Outputs, publish_query_result}
use hass_sma_rs.Daemon.Readings.Publishing.{mqtt_outputs, publish_query_result-returns}
use hass_sma_rs.Daemon.Poll.{Visit, Tracker, fresh, Swept, sweep}
use hass_sma_rs.Daemon.Poll.Panics.{sweep-panics}
use hass_sma_rs.Tests.Samples.{up_session}

-- The host is down for two rounds, then another error, then the host is down for good.
down_and_up :
    (attempts at_start (
      connect_failed true 0 0
      ∷ connect_failed false 2 2
      ∷ handshake_failed
      ∷ connect_failed true 10 10
      ∷ [])).1
    ≡ sleep 2 ∷ sleep 4 ∷ sleep 5 ∷ sleep 4 ∷ []
unfolding attempts at_start
down_and_up = refl

attempts-downs_example :
    (attempts
      (away 4 0 true (some 180))
      (downs ((200, 201) ∷ (205, 205) ∷ (213, 213) ∷ (813, 813) ∷ []))).1
    ≡ sleep 4 ∷ sleep 8 ∷ sleep 600 ∷ sleep 600 ∷ []
attempts-downs_example =
    attempts-downs 4 200 201 205 205 213 213 true (some 180) ((813, 813) ∷ []) (omega arith)
      (omega arith) (omega arith)

attempts-grace_example :
    (attempts
      (away 2 0 false none)
      (session_ended (some 1000) ∷ downs ((1060, 1060) ∷ (1075, 1076) ∷ []))).1
    ≡ publish_online ∷ sleep 15 ∷ sleep 15 ∷ []
attempts-grace_example =
    attempts-grace (away 2 0 false none) 1000 ((1060, 1060) ∷ (1075, 1076) ∷ [])
      ((omega arith, omega arith), ((omega arith, omega arith), tt))

-- Floats as their printed text.
abbrev plain : Floats String
plain = record {
  as_f32 = λ n d. "1";
  u32_as_f32 = λ n d. "1";
  fixed = λ (places : ℕ) (x : String). x;
  fixed_quotient = λ places n d. "1";
}

abbrev zolder : InverterIdentity
zolder = record {
  slot = "zolder";
  serial = 2120121246;
  model = "SB 3000HF-30";
  firmware = "02.30.06.R";
  kind = solar_inverter;
}

abbrev logging : MqttClient (List Message)
logging = record { publish = λ (c : List Message) (m : Message). (true, c ++ m ∷ []) }

abbrev set_nothing : List Message → String → InverterIdentity → Number String → List Message
set_nothing c metric id n = c

publish_query_result-returns_example :
    (c : List Message) × (publish_query_result
        (mqtt_outputs logging default_config set_nothing none)
        plain
        QueryKind.spot_grid_frequency
        []
        zolder
        []
      ≡ returned c)
publish_query_result-returns_example =
    publish_query_result-returns logging default_config set_nothing none plain
      QueryKind.spot_grid_frequency [] zolder []

abbrev first_visit : Visit
first_visit = record {
  target = record { identity = zolder; susy = 0x78; serial = 2120121246 };
  gate_now = 0;
  end_now = 15;
  poll_time = "2026-04-19T06:43:12+00:00";
  uptime = "5";
}

-- A session whose inverter answers a query with frames that have nothing to do with it.
abbrev silent_session : Session MockTransport
silent_session = record up_session {
  link = record { replies = replicate 16 (0x7e ∷ 0x00 ∷ []); sent = []; is_closed = false };
}

sweep-panics_example :
    (sweep mock_transport plain
        (mqtt_outputs logging default_config set_nothing none)
        (first_visit ∷ [])
        0
        fresh
        (silent_session, [])
      ≡ panicked)
    ⊎ ((o : Swept mock_transport plain (mqtt_outputs logging default_config set_nothing none))
        × (sweep mock_transport plain
              (mqtt_outputs logging default_config set_nothing none)
              (first_visit ∷ [])
              0
              fresh
              (silent_session, [])
            ≡ returned o)
        × (o.cycle_ok ≡ false))
sweep-panics_example =
    sweep-panics mock_transport plain logging default_config set_nothing none first_visit []
      (silent_session, [])

-- A publisher that takes every key, so that the visit of a failing device returns.
abbrev quiet_outputs : Outputs String (List (String × String))
quiet_outputs = record {
  set_gauge = λ (w : List (String × String)) metric id n. w;
  put_value = λ (w : List (String × String)) id (key text : String). returned ((key, text) ∷ w);
  archive = none;
}

abbrev twice_failed : Tracker
twice_failed = record { failures = (2120121246, 2) ∷ (7, 1) ∷ []; skip_until = [] }
