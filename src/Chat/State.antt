-- ===== src/Chat/State.antt =====
-- crates/xiaozhi-chat/src/state.rs: what a session knows of its device. The shared flag `abort` is
-- a field, an instant is a number, and the device's configuration is a parameter.
use xiaozhi_esp32_server_rus.Common.{ℕ, Bool, true, false, ◌||◌, ◌==◌, List, [], if◌then◌else◌}
use xiaozhi_esp32_server_rus.Common.Text.{Text, codes, text_eq}
use xiaozhi_esp32_server_rus.Llm.Common.{ChatMessage}
use xiaozhi_esp32_server_rus.Chat.Detect.{ListenPhase, idle, listening}
use xiaozhi_esp32_server_rus.Chat.AudioIdle
use xiaozhi_esp32_server_rus.Chat.AudioIdle.{AudioIdleClock}

pub data RealtimeMode : Type 0 where
  vad_interrupt asr_interrupt speaker_interrupt asr_final_interrupt : RealtimeMode

-- `From<u8>`
from_u8 : ℕ → RealtimeMode
from_u8 v =
    if v == 1
    then vad_interrupt
    else if v == 2
    then asr_interrupt
    else if v == 3
    then speaker_interrupt
    else asr_final_interrupt

abbrev pub is_listening : ListenPhase → Bool
is_listening listening = true
is_listening _ = false

pub record ClientState (C : Type 0) : Type 0 where
  pub device_id : Text
  pub agent_id : Text
  pub session_id : Text
  pub device_config : C
  pub dialogue : List ChatMessage
  pub abort : Bool
  pub listen_mode : Text
  pub listen_phase : ListenPhase
  pub transport_type : Text
  pub welcome_speaking : Bool
  pub welcome_playing : Bool
  pub audio_idle : AudioIdleClock

module _ {C : Type 0} where
  -- `agent_of` reads the field of the configuration.
  unfoldable pub new : (C → Text) → Text → Text → C → ClientState C
  unfolding AudioIdle.default
  new agent_of device session config = record {
    device_id = device;
    agent_id = agent_of config;
    session_id = session;
    device_config = config;
    dialogue = [];
    abort = false;
    listen_mode = codes "auto";
    listen_phase = idle;
    transport_type = codes "websocket";
    welcome_speaking = false;
    welcome_playing = false;
    audio_idle = AudioIdle.default;
  }

  unfoldable pub is_realtime : ClientState C → Bool
  is_realtime s = text_eq s.listen_mode (codes "realtime")

  unfoldable pub uses_audio_idle_clock : ClientState C → Bool
  unfolding is_realtime
  uses_audio_idle_clock s = text_eq s.listen_mode (codes "auto") || is_realtime s

  unfoldable pub start_audio_idle_window : ClientState C → ℕ → ClientState C
  start_audio_idle_window s now =
      if uses_audio_idle_clock s
      then record s { audio_idle = AudioIdle.start s.audio_idle now }
      else s

  pause_audio_idle_window : ClientState C → ℕ → ClientState C
  pause_audio_idle_window s now =
      if uses_audio_idle_clock s
      then record s { audio_idle = AudioIdle.pause s.audio_idle now }
      else s

  unfoldable pub resume_audio_idle_window : ClientState C → ℕ → ClientState C
  resume_audio_idle_window s now =
      if uses_audio_idle_clock s
      then record s { audio_idle = AudioIdle.resume s.audio_idle now }
      else s

  unfoldable pub reset_audio_idle_window : ClientState C → ClientState C
  reset_audio_idle_window s = record s { audio_idle = AudioIdle.reset s.audio_idle }

  unfoldable pub audio_idle_elapsed : ClientState C → ℕ → ℕ
  audio_idle_elapsed s now = AudioIdle.elapsed s.audio_idle now

  unfoldable pub mark_audio_idle_timeout_pending : ClientState C → ClientState C × Bool
  mark_audio_idle_timeout_pending s =
      let (clock, marked) = AudioIdle.mark_timeout_pending s.audio_idle in
      (record s { audio_idle = clock }, marked)

  unfoldable pub clear_audio_idle_timeout_pending : ClientState C → ClientState C
  clear_audio_idle_timeout_pending s = record s {
    audio_idle = AudioIdle.clear_timeout_pending s.audio_idle;
  }

  unfoldable pub trigger_abort : ClientState C → ClientState C
  trigger_abort s = record s { abort = true }

  unfoldable pub clear_abort : ClientState C → ClientState C
  clear_abort s = record s { abort = false }
