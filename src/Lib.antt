-- ===== src/Lib.antt =====
-- hass-sma-rs reads SMA solar inverters over Bluetooth: a protocol crate frames and parses packets,
-- a transport crate turns a byte stream into frames, a client crate runs the session with the
-- inverter on any transport, and a daemon keeps such sessions and hands the readings to MQTT, to an
-- archive and to a metrics endpoint.
--
-- Parts and files:
--
-- * Protocol, for crates/sma-bt-protocol/src. Constants and Mac hold the constants and the Bluetooth
--   addresses; Fcs the checksum (fcs.rs), which Fcs/Reference and
--   Frame/Residue set against a shift register; Stuffing the escapes of frame.rs; Frame the rest of that
--   file (`Frame::parse` is `parse`, `FrameBuilder` a record with `new`, `extend` and `build`);
--   Packet is packet.rs, Auth auth.rs, Commands commands.rs.
-- * Transport, for crates/bluez-transport/src. Interface is the `Transport` trait of lib.rs: a record
--   of functions on the transport's state, whose `Result` and new state are a pair. Framer is the
--   `FrameReader` of framer.rs, Mock the scripted transport of mock.rs. Rfcomm is rfcomm.rs:
--   Rfcomm/Address has the addresses as text, Rfcomm/Socket `connect_blocking` and the transport of a
--   socket, over the calls of the kernel as a record of functions on its state, and Rfcomm/Link that
--   transport as an instance of the trait, the socket and its kernel together.
-- * Client, for crates/inverter-client/src. Errors and Session are session.rs: a method of `Session`
--   is a function from the session to a result and the session afterwards, the `?` operator its bind.
--   Session/Receive has the receive loops, Session/Reads the frames they take, Session/Handshake `handshake_and_logon` step by step,
--   Session/Query the queries, the event-log queries, `close` and `graceful_close`. Values is values.rs:
--   the walks over the records of a reply, the readings and the event log; Values/Names has the
--   tables of texts and the software version. Sockets follows the open descriptors
--   through the session.
-- * Mqtt, for crates/mqtt-discovery/src. Catalog is the list of sensors of catalog.rs, Publisher the
--   topics, the discovery payloads and the messages of client.rs, over a client that takes or refuses a
--   message. The `expect` of `publish_value` is an outcome of its own, a panic. Options has what
--   `connect_with_lwt` hands to the client.
-- * Storage, for crates/storage/src. Csv is csv_sink.rs, over the calls of a file system; Writer is
--   schema.rs and writer.rs, over the calls of a pool, and the two sinks of lib.rs.
-- * Telemetry, for crates/telemetry/src: the labels, and the answers of the endpoint; Registry has the
--   families of metrics.rs and what is registered for each.
-- * Daemon, for crates/daemon/src. Config is config.rs with its defaults, Pvoutput is pvoutput.rs and
--   the collecting half of pvoutput_uploader.rs, Uploader its loop, with the requests written out in Uploader/Requests, and the rest is main.rs: Startup
--   goes from a configuration to the tasks, Probe is the subcommand, Readings publishes a
--   reply (`publish_query_result`), Serial keeps the application serial, Archive chooses the archive,
--   Targets has the identities, targets and topics of a task, Start what is asked once behind a logon,
--   Poll one tick of the poll loop over the targets, with `query_for_device` of Client on any
--   transport, and Backoff the reconnect loop, one `Attempt` a round, with the pauses and the change
--   to offline as a list of effects. Task joins these into `run_inverter`: its stages (in front of a
--   connect, of a logon, of a tick) and the steps between them, with the sockets of Rfcomm and the
--   sessions of Client; Task/Refines bounds their pauses through Backoff, Task/Holds against the open
--   descriptors, Task/Serves against the state of the session, Task/Yields follows one session.
-- * Wire joins the crates: what the builder writes, pushed through the reader, parsed and decoded.
-- * Tests has runs at concrete values. Prelude has what the modules share.
--
-- Numbers are natural numbers. A field of w bits is bounded where a theorem needs it, arithmetic that
-- wraps is written with a remainder, and a shift is a division or a product. The bytes of a frame
-- are a list; `&raw[a..b]` is `slice`, and an index is `get_or` with a default that the length checks
-- before it make unreachable.
--
-- Bounds and fuel: `push_byte` of the reader replays the three bytes behind a refused start, one level
-- deep, and runs on fuel for it; running out of fuel is `none`, and the theorems on the reader give
-- `some`. The walks over records have the bytes of the region for fuel, more than its records. The
-- receive loops of the session recurse on the attempts that the code's `for` ranges allow.
-- The receive loop of a socket has no bound of its own and runs on fuel; its clock counts nanoseconds,
-- and with a timeout of `ms` milliseconds, 1000000 * ms + 1 rounds are enough when each read that gives
-- bytes takes some time. As a `Transport` (Rfcomm/Link) such a receive that is out of fuel gives
-- an error. A session's ticks are followed for as many readings of the clocks as are given.
--
-- Not modelled: log lines and hex dumps, pauses (but for those of the back-off), the random session id
-- (`new_with_app_serial` takes it), the clock (an argument), what the operating system says about a
-- failed call (whether a failed connect found the host down is open in a step of Task), concurrent
-- use of one session, which the borrow checker excludes, and float arithmetic (the conversion
-- `v as f32 / d` and the printing of floats are parameters of the readings that use them). The kernel,
-- the MQTT client, the file system, the database, the HTTP client and the float operations are
-- parameters. Left out of the daemon are the spawning and aborting of tasks, the ticker and the
-- counters of sessions; the YAML reader, the event loop of the MQTT client, the encoder of the metrics,
-- the server loop and the set-up of logging do little but call third-party packages.
pub mod Prelude
pub mod Protocol
pub mod Transport
pub mod Client
pub mod Mqtt
pub mod Storage
pub mod Telemetry
pub mod Daemon
pub mod Wire
pub mod Tests
