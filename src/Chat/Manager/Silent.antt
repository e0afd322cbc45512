-- ===== src/Chat/Manager/Silent.antt =====
-- `reset_to_silent_state`: what it leaves, and what it ends.
use xiaozhi_esp32_server_rus.Common.{◌^◌, ◌<◌, ◌≡◌, false, none, [], arith}
use xiaozhi_esp32_server_rus.Chat.Detect.{idle}
use xiaozhi_esp32_server_rus.Chat.Session.{ChatSession}
use xiaozhi_esp32_server_rus.Chat.AudioIdle
use xiaozhi_esp32_server_rus.Chat.Manager.{ChatManager, is_current_listen_start}
use xiaozhi_esp32_server_rus.Chat.Manager.Close.{reset_to_silent_state}

module _ {C A : Type 0} where
  -- Nothing is heard, spoken, counted or to be resumed.
  pub record IsSilent (s : ChatSession C A) : Type 0 where
    pub is_idle : s.state.listen_phase ≡ idle
    pub no_abort : s.state.abort ≡ false
    pub no_welcome : s.state.welcome_playing ≡ false
    pub not_greeted : s.state.welcome_speaking ≡ false
    pub no_clock : AudioIdle.started s.state.audio_idle ≡ false
    pub no_timeout : s.state.audio_idle.timeout_pending ≡ false
    pub no_turn : s.asr_pipeline.turn ≡ none
    pub no_loop : s.asr_pipeline.loop_handle ≡ none
    pub no_text : s.asr_pipeline.received_text_in_turn ≡ false
    pub no_voice : s.asr_pipeline.voice.have_voice ≡ false
    pub no_idle : s.asr_pipeline.vad.idle_duration_ms ≡ 0
    pub no_spoken : s.asr_pipeline.vad.voice_duration_in_session_ms ≡ 0
    pub no_samples : s.asr_pipeline.asr_audio_buffer ≡ []
    pub no_pending : s.pending_listen_start_mode ≡ none
    pub no_warmup : s.listen_warmup_until ≡ none
    pub no_waiting : s.welcome_playback_done ≡ none

  -- The reset leaves a silent session, whatever it was before, ends every listen start that was
  -- current, and the realtime mode with it, and cancels what a detect had scheduled.
  pub reset-IsSilent :
      (m : ChatManager C A) (s : ChatSession C A)
      → m.listen_start_seq < 2 ^ 64
      → let r = reset_to_silent_state m s in
        IsSilent r.1
        × (is_current_listen_start r.0 m.listen_start_seq ≡ false)
        × (r.0.realtime_listen_active ≡ false)
        × (r.0.detect_llm_handle ≡ none)
  unfolding reset_to_silent_state is_current_listen_start AudioIdle.started AudioIdle.reset
      AudioIdle.clear_timeout_pending
  reset-IsSilent m s h = ground arith
