-- ===== src/Protocol.antt =====
-- crates/xiaozhi-protocol: the device's wire formats.
pub mod BinaryAudio
pub mod Mqtt
