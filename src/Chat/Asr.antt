-- ===== src/Chat/Asr.antt =====
-- crates/xiaozhi-chat/src/voice_status.rs and asr_manager.rs: what a session keeps of the speech it
-- hears, and what each frame of audio does to it. A sample is a parameter, and so is what the
-- detector says of a frame. Durations are never negative: they start at 0 and only grow.
pub mod Pipeline
pub mod Frame
pub mod Silence
pub mod Preroll
pub mod Aborting
mod Tests
pub mod Outcome
pub mod Recognition
pub mod Watchdog
