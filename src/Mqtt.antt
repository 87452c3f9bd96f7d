-- ===== src/Mqtt.antt =====
-- crates/mqtt-discovery: the sensors announced to Home Assistant and the publisher of their values.
pub mod Catalog
pub mod Publisher
pub mod Keys
pub mod Topics
pub mod Announce
pub mod Options
