-- ===== src/Protocol.antt =====
-- crates/sma-bt-protocol: the wire protocol.
pub mod Constants
pub mod Mac
pub mod Fcs
pub mod Stuffing
pub mod Frame
pub mod Packet
pub mod Auth
pub mod Commands
