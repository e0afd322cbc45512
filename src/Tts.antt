-- ===== src/Tts.antt =====
-- crates/xiaozhi-tts: the text-to-speech engines.
pub mod Volcengine
