-- ===== src/Tests.antt =====
-- Runs of the definitions at concrete values, and the theorems applied at some.
pub mod Samples
mod Codec
mod Sessions
mod Readings
mod Sockets
mod Publishing
mod Polling
mod Tasks
mod Uploads
