-- ===== src/Transport/Rfcomm.antt =====
-- crates/bluez-transport/src/rfcomm.rs
pub mod Address
pub mod RoundTrip
pub mod Socket
pub mod Order
pub mod Returns
pub mod Handles
pub mod Late
pub mod Link
