-- ===== src/Broker.antt =====
-- crates/xiaozhi-mqtt-server: the embedded MQTT broker.
pub mod Device
