-- ===== src/Client.antt =====
-- crates/inverter-client: the session with an inverter, and the readings in its replies.
pub mod Errors
pub mod Session
pub mod Values
pub mod Sockets
