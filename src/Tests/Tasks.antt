-- ===== src/Tests/Tasks.antt =====
-- Runs of the task of one inverter, of a probe and of an uploader.
use Prim.Native.String.{String}
use mathlib.Core.Option.{some-injective}
use hass_sma_rs.Prelude.{
  ℕ, suc, ◌≡◌, refl, sym, ap, ◌∙◌, List, [], ◌∷◌, Bool, true, false, Option, none, some, length,
  All, arith,
}
use hass_sma_rs.Transport.Framer.{new, pop_frame}
use hass_sma_rs.Transport.Rfcomm.Socket.{
  Kernel, RfcommTransport, connect_blocking, close as close_socket, send_frame, recv_frame,
  read_chunk, recv_loop, buffered_or, after_read,
}
use hass_sma_rs.Transport.Rfcomm.Handles.{Counts, without}
use hass_sma_rs.Transport.Rfcomm.Link.{Link, rfcomm}
use hass_sma_rs.Client.Sockets.{Conserves}
use hass_sma_rs.Client.Session.{
  Session, logged_in, set_state, ◌>>=◌, new_with_app_serial, send_frame as session_send,
  recv_frame as session_recv,
}
use hass_sma_rs.Client.Session.Handshake.{handshake_and_logon, recv_hello}
use hass_sma_rs.Client.Session.Query.{close}
use hass_sma_rs.Mqtt.Publisher.{returned}
use hass_sma_rs.Daemon.Config.{InverterCfg, minimal_inverter}
use hass_sma_rs.Daemon.Backoff.{on_connect_failed, on_handshake_failed, Effect, sleep, at_start}
use hass_sma_rs.Daemon.Backoff.Bounds.{IsBounded, IsPause}
use hass_sma_rs.Daemon.Readings.{Floats, Outputs}
use hass_sma_rs.Daemon.Poll.{Target, fresh}
use hass_sma_rs.Daemon.Targets.{initial_identity}
use hass_sma_rs.Daemon.Task.{
  Settings, Broker, Task, Serving, Stage, connecting, linked, serving, on_accepted, on_rejected,
  on_refused, new_session, refused, accepted, rejected, Run, here, further, reject,
}
use hass_sma_rs.Daemon.Task.Refines.{Run-IsPause}
use hass_sma_rs.Daemon.Task.Holds.{Holds, Run-Holds}
use hass_sma_rs.Daemon.Task.Serves.{Serves, Run-Serves}
use hass_sma_rs.Daemon.Task.Yields.{Clocks, serve, IsOver, serve-IsOver}
use hass_sma_rs.Daemon.Probe.{ProbeArgs, IsClean, run_probe, run_probe-IsClean}
use hass_sma_rs.Tests.Samples.{our_bt, inverter_bt}

-- A kernel whose connects go as a script says, and whose peers are silent.
record Script : Type 0 where
  open_fds : List ℕ
  accepts : List Bool

abbrev next_accept : Script → List Bool → Bool × Script
next_accept s [] = (false, s)
next_accept s (b ∷ rest) = (b, record s { accepts = rest })

abbrev scripted : Kernel Script
scripted = record {
  socket = λ (s : Script) (a b : ℕ).
      (some (length s.open_fds), record s { open_fds = length s.open_fds ∷ s.open_fds });
  bind = λ s fd a. (true, s);
  connect = λ (s : Script) fd a. next_accept s s.accepts;
  set_recv_timeout = λ s fd seconds. (true, s);
  send = λ (s : Script) (fd : ℕ) (bytes : List ℕ). (some (length bytes), s);
  recv = λ (s : Script) (fd : ℕ). (none, s);
  close = λ (s : Script) (fd : ℕ). record s { open_fds = without fd s.open_fds };
  now = λ (s : Script). 0;
}

next_accept-fds : (s : Script) (bs : List Bool) → (next_accept s bs).1.open_fds ≡ s.open_fds
next_accept-fds s [] = refl
next_accept-fds s (b ∷ rest) = refl

scripted-Counts : Counts scripted (λ (s : Script). s.open_fds)
scripted-Counts = record {
  on_socket = λ s s' a b fd e.
      ap (λ (p : Option ℕ × Script). p.1.open_fds) (sym e)
      ∙ ap (λ (x : ℕ). x ∷ s.open_fds)
          (some-injective (length s.open_fds) fd (ap (λ (p : Option ℕ × Script). p.0) e));
  on_socket_error = λ s s' a b e. absurd (cc (ap (λ (p : Option ℕ × Script). p.0) e));
  on_bind = λ s fd a. refl;
  on_connect = λ s fd a. next_accept-fds s s.accepts;
  on_option = λ s fd seconds. refl;
  on_close = λ s fd. refl;
}

scripted-Conserves : Conserves scripted (λ (s : Script). s.open_fds)
scripted-Conserves = record { on_send = λ s fd bytes. refl; on_recv = λ s fd. refl }

abbrev plain : Floats String
plain = record {
  as_f32 = λ n d. "1";
  u32_as_f32 = λ n d. "1";
  fixed = λ (places : ℕ) (x : String). x;
  fixed_quotient = λ places n d. "1";
}

-- Outputs and a broker that count what they are told.
abbrev tallying : Outputs String ℕ
tallying = record {
  set_gauge = λ (w : ℕ) metric id n. w;
  put_value = λ (w : ℕ) id key text. returned (suc w);
  archive = none;
}

abbrev broker : Broker ℕ
broker = record {
  announce = λ (w : ℕ) id. suc w;
  online = λ (w : ℕ) id. suc w;
  offline = λ (w : ℕ) id. suc w;
}

-- A yield at every second poll.
abbrev zolder : InverterCfg
zolder = record (minimal_inverter "zolder" "00:80:25:21:32:35" "0000") { yield_every = 2 }

abbrev settings : Settings
settings = record {
  inv = zolder;
  inverter_bt = inverter_bt;
  local_bt = some our_bt;
  password = 48 ∷ 48 ∷ 48 ∷ 48 ∷ [];
  app_serial = 900000001;
  timeout_ms = 15000;
}

abbrev before : Script
before = record { open_fds = 2 ∷ 1 ∷ 0 ∷ []; accepts = false ∷ true ∷ [] }

abbrev spent : Script
spent = record { open_fds = 2 ∷ 1 ∷ 0 ∷ []; accepts = [] }

abbrev first : Task ℕ
first = record { reconnect = at_start; identity = initial_identity zolder; announced = []; out = 0 }

abbrev tried : Task ℕ
tried = on_refused broker true 0 0 first

abbrev up : Task ℕ
up = on_accepted broker tried

abbrev socket : RfcommTransport
socket = record { fd = some 3; reader = new }

abbrev link : Link Script
link = (socket, record spent { open_fds = 3 ∷ 2 ∷ 1 ∷ 0 ∷ [] })

abbrev StageOf : Type 0
StageOf = Stage Script ℕ

abbrev RunOf : List Effect → StageOf → Type 0
RunOf es b = Run scripted 9 plain tallying (λ n. "") broker settings (connecting before first) es b

-- The first connect fails, the second one succeeds.
connects :
    RunOf
      (sleep 2 ∷ [])
      (linked up (new_session scripted 9 plain tallying (λ n. "") broker settings link))
unfolding connect_blocking on_connect_failed at_start without
connects = further (further here (refused true 0 0 refl)) (accepted refl)

-- The inverter is silent: the logon fails, and the task is back at connecting.
gives_up : RunOf (sleep 2 ∷ sleep 5 ∷ []) (connecting spent (on_rejected broker up))
unfolding handshake_and_logon reject on_handshake_failed close rfcomm close_socket send_frame
    recv_frame recv_hello set_state ◌>>=◌ session_send session_recv new pop_frame read_chunk
    recv_loop buffered_or after_read new_session new_with_app_serial without
gives_up = further connects (rejected 1776000000 refl)

Run-IsPause_example :
    IsBounded (on_rejected broker up).reconnect × All IsPause (sleep 2 ∷ sleep 5 ∷ [])
Run-IsPause_example =
    Run-IsPause scripted 9 plain tallying (λ n. "") broker settings (sleep 2 ∷ sleep 5 ∷ []) before
      spent first (on_rejected broker up) refl gives_up

Run-Holds_example :
    Holds scripted
      (λ (s : Script). s.open_fds)
      scripted-Conserves
      scripted-Counts
      9
      plain
      tallying
      (λ n. "")
      broker
      settings
      (2 ∷ 1 ∷ 0 ∷ [])
      (connecting spent (on_rejected broker up))
Run-Holds_example =
    Run-Holds scripted (λ (s : Script). s.open_fds) scripted-Conserves scripted-Counts 9 plain
      tallying (λ n. "") broker settings before first (sleep 2 ∷ sleep 5 ∷ [])
      (connecting spent (on_rejected broker up)) gives_up

abbrev session : Session (Link Script)
session = new_session scripted 9 plain tallying (λ n. "") broker settings link

Run-Serves_example : Serves scripted 9 plain tallying (λ n. "") broker settings (linked up session)
Run-Serves_example =
    Run-Serves scripted 9 plain tallying (λ n. "") broker settings before first (sleep 2 ∷ [])
      (linked up session) (omega arith) connects

abbrev target : Target
target = record { identity = initial_identity zolder; susy = 0x78; serial = 2120121246 }

abbrev polled : Serving Script
polled = record {
  session = record session { state = logged_in };
  targets = target ∷ [];
  tracker = fresh;
  poll_count = 0;
}

abbrev clocks : Clocks
clocks = record {
  readings = λ n. record { gate_now = 0; end_now = 15; poll_time = "06:43"; uptime = "5" };
  now = 60;
}

serve-IsOver_example :
    IsOver scripted 9 plain tallying
      (λ n. "")
      broker
      settings
      (serve scripted 9 plain tallying
        (λ n. "")
        broker
        settings
        (clocks ∷ clocks ∷ [])
        (serving up polled))
serve-IsOver_example =
    serve-IsOver scripted 9 plain tallying (λ n. "") broker settings (clocks ∷ clocks ∷ []) up
      polled (omega arith) (omega arith) (omega arith)

abbrev probe_args : ProbeArgs
probe_args = record {
  mac = 48 ∷ 48 ∷ 58 ∷ 56 ∷ 48 ∷ 58 ∷ 50 ∷ 53 ∷ 58 ∷ 50 ∷ 49 ∷ 58 ∷ 51 ∷ 50 ∷ 58 ∷ 51 ∷ 53 ∷ [];
  shown_mac = "00:80:25:21:32:35";
  password = 48 ∷ 48 ∷ 48 ∷ 48 ∷ [];
  local = none;
  timeout_ms = 15000;
}

run_probe-IsClean_example :
    IsClean scripted 9
      (λ (s : Script). s.open_fds)
      scripted-Conserves
      scripted-Counts
      (2 ∷ 1 ∷ 0 ∷ [])
      (run_probe scripted 9 probe_args 900000001 1776000000 (record before { accepts = true ∷ [] }))
run_probe-IsClean_example =
    run_probe-IsClean scripted 9 (λ (s : Script). s.open_fds) scripted-Conserves scripted-Counts
      probe_args 900000001 1776000000 (record before { accepts = true ∷ [] })
