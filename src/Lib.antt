-- ===== src/Lib.antt =====
-- Verification of xiaozhi-esp32-server-rust, the voice backend for ESP32 devices.
--
-- A device reaches the server over a WebSocket or over MQTT with UDP audio. Its speech passes
-- through voice detection, recognition, a language model and synthesis, and comes back as frames.
-- The modules of this library stand for these parts; paths are from the repository's root.
--
-- - Common: helpers. Common/Text has texts as lists of Unicode scalar values and the methods of
--   `str` and `char` that the code uses, Common/Assoc a hash map with text keys as an association
--   list, Common/Words bytes and big-endian words.
-- - Protocol/BinaryAudio: crates/xiaozhi-protocol/src/binary_audio.rs (`pack_device_audio`,
--   `unpack_device_audio` and the two framings under them).
-- - Protocol/Mqtt: crates/xiaozhi-protocol/src/mqtt.rs (topics, client ids, lifecycle events).
-- - Broker/Device: crates/xiaozhi-mqtt-server/src/device.rs (access rules, topic rewriting).
-- - Transport/Udp: crates/xiaozhi-transport/src/udp.rs (`UdpCrypto`). AES in counter mode is the
--   parameter `StreamCipher`, with two documented laws; random numbers and the clock are arguments.
-- - Pool: crates/xiaozhi-pool (pool.rs, and in Pool/Stats the counters of stats.rs and registry.rs).
--   A call of `acquire` or `drop` is one step; what the factory answers and the time are arguments.
-- - Tts/Volcengine: crates/xiaozhi-tts/src/volcengine_protocol.rs. An `i32` is its bit pattern, and
--   gzip is a parameter.
-- - Chat/AudioIdle, Chat/Sentence, Chat/Detect, Chat/MediaGate, Chat/Endpoints, Chat/Playlists:
--   audio_idle.rs, sentence.rs, detect.rs with the policies beside it, realtime_media_gate.rs,
--   endpoint_hub.rs and media_coordinator.rs of crates/xiaozhi-chat/src.
-- - Chat/MediaPlayer: crates/xiaozhi-chat/src/media_player.rs. Each method is one step on the runtime
--   of a device; Chat/MediaPlayer/Agent has those that also use Chat/Playlists, and
--   Chat/MediaPlayer/Task the task that plays, in the parts between which it waits.
-- - Chat/State: crates/xiaozhi-chat/src/state.rs. Chat/Asr: voice_status.rs and asr_manager.rs beside
--   it. Chat/Asr/Pipeline has the state and its methods, Chat/Asr/Frame `process_pcm_frame` in its
--   parts, Chat/Asr/Outcome the task that reads the recogniser's results, Chat/Asr/Recognition
--   `run_asr_recognition_loop` round by round, and Chat/Asr/Watchdog the watchdog tick by tick. What
--   the detector, the recogniser and the other parts answer is an argument of the step.
-- - Chat/Session and Chat/Manager: session.rs, the listening part of manager.rs, and
--   session_lifecycle.rs. Chat/Manager/ListenStart is `handle_listen_start`: at each of its waits
--   other tasks may invalidate the start, as often as its argument says. Chat/Manager/Listen has the
--   messages that reach it, Chat/Manager/Close `close_session_with_reason` in the two parts between
--   which other calls may come, with the task that runs it as an argument, since it may hold the lock
--   of the session or be one that the close aborts, Chat/Manager/Retain a device's goodbye, Chat/Manager/Idle the idle
--   timeout, and Chat/Manager/Detected the wake words. A call of another part, such as an interruption
--   of the speech, is an effect in a list; a wait for a lock that the caller holds is a result.
-- - Chat/TtsManager: crates/xiaozhi-chat/src/tts_manager.rs. Chat/TtsManager/Synthesis is `handle_tts`,
--   Chat/TtsManager/Sender the sender loop by the element, whose clock and waits are arguments, and
--   Chat/TtsManager/Delayed the sentences that wait for their audio.
-- - Chat/LlmManager: crates/xiaozhi-chat/src/llm_manager.rs, with completion.rs and message.rs of
--   crates/xiaozhi-llm and mcp_tools.rs. Chat/LlmManager/Request is `handle_llm_request_sync`, whose five
--   rounds are counted down, and Chat/LlmManager/Stream the streamed answer, over Chat/Sentence. The
--   model, the tools and the aborts of other tasks are functions of the round.
-- - Chat/SpeakPath: crates/xiaozhi-chat/src/speak_path.rs and `inject_message_inner` of manager.rs, on the
--   manager of Chat/Manager and a record of the fields that only this file writes. Waiting for the
--   answer of a device is a step of its own, so that other tasks may come before it.
-- - Mcp/ToolName: crates/xiaozhi-mcp/src/tool_name.rs (`sanitize_llm_tool_name`,
--   `unique_llm_tool_name`, `prepare_tools_for_llm`) and `resolve_tool_invoke_name` of
--   crates/xiaozhi-chat/src/manager.rs. The hash of std, which leaves its algorithm open, is a
--   parameter.
-- - Mcp/Imported: the merge of crates/xiaozhi-manager/src/mcp_imported_merge.rs, on the values that the
--   JSON of a row holds. The url crate and lower case are parameters.
-- - OpenClaw: crates/xiaozhi-openclaw/src. OpenClaw/Session is agent_session.rs; OpenClaw/Manager and
--   OpenClaw/Offline are the connections and the queues of manager.rs. A shared session is a number
--   that a store maps to its state, so that both connections of an agent can be spoken of.
-- - Llm/Common: crates/xiaozhi-llm/src/llm_common.rs and message.rs. SHA-256 is a parameter, and a
--   panic on a slice inside a character is a result without a value.
--
-- Numbers are unbounded, except where the code's type is written out: the words of the wire formats
-- wrap at their width, and the counters of the pool at 2 ^ 64. Sizes and times of `usize`, `Instant`
-- and `i64` stay far below their limits and are plain numbers.
--
-- Each loop is a recursion on a list, but for three that run on fuel: `drain` of Chat/Sentence takes
-- one round for each character, `search_name` of Mcp/ToolName two rounds more than there are used
-- names, and `decimal_from` there one more than the number. The modules Chat.Sentence.Loop and
-- Mcp.ToolName.Unique show that this is enough.
--
-- Not modelled: network and file input and output, the tasks of the asynchronous runtime, JSON, the
-- database behind the console, and the engines and services that the crates call.
pub mod Common
pub mod Protocol
pub mod Broker
pub mod Transport
pub mod Pool
pub mod Tts
pub mod Chat
pub mod Mcp
pub mod OpenClaw
pub mod Llm
