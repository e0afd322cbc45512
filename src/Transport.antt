-- ===== src/Transport.antt =====
-- crates/xiaozhi-transport: the transports under a session.
pub mod Udp
