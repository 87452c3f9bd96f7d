-- ===== src/Transport.antt =====
-- crates/bluez-transport: frame reassembly and the transport interface.
pub mod Interface
pub mod Framer
pub mod Mock
pub mod Rfcomm
