-- ===== src/Chat.antt =====
-- crates/xiaozhi-chat: the dialogue with one device.
pub mod SpeakPath
pub mod LlmManager
pub mod AudioIdle
pub mod Sentence
pub mod Detect
pub mod MediaGate
pub mod Endpoints
pub mod Playlists
pub mod MediaPlayer
pub mod State
pub mod Asr
pub mod Session
pub mod Manager
pub mod TtsManager
