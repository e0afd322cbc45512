-- ===== src/Chat/Session.antt =====
-- crates/xiaozhi-chat/src/session.rs: what a session keeps of a dialogue, and the operations that
-- need nothing of its manager. Those that do are in Chat/Manager. Providers, which the session only
-- calls, are no fields: what they answer is an argument of the operation. An instant is in
-- milliseconds. The uplink audio is in Chat/Session/Audio.
pub mod Audio
use Prim.Native.Nat.{max}
use xiaozhi_esp32_server_rus.Common.{
  ℕ, ◌+◌, Bool, true, false, not, ◌&&◌, Option, none, some, List, [], ◌∷◌, ◌++◌, ltb, if◌then◌else◌,
  length,
}
use xiaozhi_esp32_server_rus.Common.Text.{Text, codes}
use xiaozhi_esp32_server_rus.Chat.Detect.{ListenPhase, idle}
use xiaozhi_esp32_server_rus.Chat.State.{ClientState, uses_audio_idle_clock}
use xiaozhi_esp32_server_rus.Chat.State
use xiaozhi_esp32_server_rus.Chat.Asr.Pipeline.{
  AsrPipeline, AsrTurn, on_voice_silence, on_manual_stop, abort_loop,
}
use xiaozhi_esp32_server_rus.Chat.Asr.Pipeline
use xiaozhi_esp32_server_rus.Chat.Asr.Frame.{Frame, process_pcm_frame}

abbrev listen_warmup : ℕ
listen_warmup = 1500

-- `speaker` is whether there is a speaker service, `opus_decoder` whether the decoder is made, and
-- `welcome_playback_done` a sender by its number.
pub record ChatSession (C A : Type 0) : Type 0 where
  pub state : ClientState C
  pub speaker : Bool
  pub speaker_streaming : Bool
  pub opus_decoder : Bool
  pub asr_pipeline : AsrPipeline A
  pub welcome_playback_done : Option ℕ
  pub pending_listen_start_mode : Option Text
  pub listen_warmup_until : Option ℕ

abbrev later : Option ℕ → ℕ → ℕ
later none until = until
later (some current) until = if ltb until current then current else until

abbrev is_before : ℕ → Option ℕ → Bool
is_before now none = false
is_before now (some until) = ltb now until

module _ {C A : Type 0} where
  -- `silence_ms` and `asr_auto_end` are read from the configurations.
  unfoldable pub new : ClientState C → ℕ → Bool → Bool → ChatSession C A
  unfolding Pipeline.new
  new state silence_ms asr_auto_end speaker = record {
    state = state;
    speaker = speaker;
    speaker_streaming = false;
    opus_decoder = false;
    asr_pipeline = Pipeline.new silence_ms asr_auto_end;
    welcome_playback_done = none;
    pending_listen_start_mode = none;
    listen_warmup_until = none;
  }

  unfoldable pub defer_listen_start : ChatSession C A → Text → ChatSession C A
  defer_listen_start s mode = record s { pending_listen_start_mode = some mode }

  unfoldable pub take_pending_listen_start_mode : ChatSession C A → ChatSession C A × Option Text
  take_pending_listen_start_mode s =
      (record s { pending_listen_start_mode = none }, s.pending_listen_start_mode)

  unfoldable pub begin_listen_warmup : ChatSession C A → ℕ → ChatSession C A
  begin_listen_warmup s now = record s { listen_warmup_until = some (now + listen_warmup) }

  unfoldable pub extend_listen_warmup : ChatSession C A → ℕ → ℕ → ChatSession C A
  extend_listen_warmup s extra now = record s {
    listen_warmup_until = some (later s.listen_warmup_until (now + extra));
  }

  unfoldable pub is_in_listen_warmup : ChatSession C A → ℕ → Bool
  is_in_listen_warmup s now = is_before now s.listen_warmup_until

  -- The frame's duration of the audio parameters.
  set_audio_params : ChatSession C A → ℕ → ChatSession C A
  set_audio_params s frame_duration = record s {
    asr_pipeline = record s.asr_pipeline { frame_duration_ms = max frame_duration 1 };
  }

  unfoldable pub start_audio_idle_window : ChatSession C A → ℕ → ChatSession C A
  unfolding uses_audio_idle_clock State.start_audio_idle_window
  start_audio_idle_window s now =
      if uses_audio_idle_clock s.state
      then record s {
        state = State.start_audio_idle_window s.state now;
        asr_pipeline = record s.asr_pipeline {
          voice = record s.asr_pipeline.voice { client_voice_stop = false };
        };
      }
      else s

  -- Beside the session: the sender that gets `false`. `sender` is the new one.
  unfoldable pub begin_welcome_playback_wait : ChatSession C A → ℕ → ChatSession C A × Option ℕ
  begin_welcome_playback_wait s sender =
      (record s { welcome_playback_done = some sender }, s.welcome_playback_done)

  -- Beside the session: the sender that gets the answer.
  unfoldable pub complete_welcome_playback_wait : ChatSession C A → ChatSession C A × Option ℕ
  complete_welcome_playback_wait s =
      (record s { welcome_playback_done = none }, s.welcome_playback_done)

  unfoldable pub handle_listen_stop : ChatSession C A → ChatSession C A
  unfolding on_manual_stop
  handle_listen_stop s = record s { asr_pipeline = (on_manual_stop s.asr_pipeline).0 }

  -- Beside the session: the task that is aborted. The hint is spoken then.
  empty_listen_recovery_session : ChatSession C A → ChatSession C A × Option ℕ
  unfolding abort_loop
  empty_listen_recovery_session s =
      let (p, sent, task) = abort_loop s.asr_pipeline in
      (record s { state = record s.state { listen_phase = idle }; asr_pipeline = p }, task)
