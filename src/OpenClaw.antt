-- ===== src/OpenClaw.antt =====
-- crates/xiaozhi-openclaw: the agents that answer in place of the language model.
pub mod Session
pub mod Manager
pub mod Offline
