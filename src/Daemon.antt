-- ===== src/Daemon.antt =====
-- crates/daemon: the tasks that poll the inverters, and their configuration.
pub mod Backoff
pub mod Readings
pub mod Config
pub mod Poll
pub mod Targets
pub mod Serial
pub mod Start
pub mod Pvoutput
pub mod Archive
pub mod Task
pub mod Uploader
pub mod Startup
pub mod Probe
