-- ===== src/Chat/Manager/Entered.antt =====
-- What a session is behind a listen start.
use xiaozhi_esp32_server_rus.Common.{
  ℕ, ◌≡◌, Bool, true, false, ◌||◌, ◌&&◌, Option, some, List, arith,
}
use xiaozhi_esp32_server_rus.Common.Text.{Text}
use xiaozhi_esp32_server_rus.Chat.Detect.{listening}
use xiaozhi_esp32_server_rus.Chat.State.{is_listening}
use xiaozhi_esp32_server_rus.Chat.Session.{ChatSession}
use xiaozhi_esp32_server_rus.Chat.Asr.Pipeline.{
  has_open_audio_input, restart_asr_recognition, start_recognition_loop,
}
use xiaozhi_esp32_server_rus.Chat.Manager.{
  ChatManager, Effect, invalidate_times, begin_listen_start, stop_speaking_with_reason,
}
use xiaozhi_esp32_server_rus.Chat.Manager.ListenStart.{
  StartEnv, started, handle_listen_start, take_over, stop_output, assign, prepare, connect,
  enter_listening, or_auto, is_speaking,
}
use xiaozhi_esp32_server_rus.Chat.Manager.Stale.{is_started}

module _ {C A : Type 0} where
  -- The session listens in this mode, without an abort, and the loop of this task reads its turn.
  pub record Listens (s : ChatSession C A) (mode : Text) (task : ℕ) : Type 0 where
    pub phase : s.state.listen_phase ≡ listening
    pub in_mode : s.state.listen_mode ≡ mode
    pub no_abort : s.state.abort ≡ false
    pub has_turn : has_open_audio_input s.asr_pipeline ≡ true
    pub hears : s.asr_pipeline.voice.client_voice_stop ≡ false
    pub has_loop : s.asr_pipeline.loop_handle ≡ some task

  connect-Listens :
      (m : ChatManager C A) (s : ChatSession C A) (seq : ℕ) (effects : List Effect) (env : StartEnv)
      → s.state.abort ≡ false
      → (connect m s seq effects env).result ≡ started
      → Listens (connect m s seq effects env).session s.state.listen_mode env.task
  unfolding connect enter_listening has_open_audio_input restart_asr_recognition
      start_recognition_loop
  connect-Listens m s seq effects env a h = ground arith

  prepare-Listens :
      (m : ChatManager C A) (s : ChatSession C A) (seq : ℕ) (mode : Text) (effects : List Effect)
      (env : StartEnv)
      → (prepare m s seq mode effects env).result ≡ started
      → Listens (prepare m s seq mode effects env).session mode env.task
  unfolding prepare connect enter_listening has_open_audio_input restart_asr_recognition
      start_recognition_loop
  prepare-Listens m s seq mode effects env h = ground arith

  assign-Listens :
      (m : ChatManager C A) (s : ChatSession C A) (mode : Text) (effects : List Effect)
      (env : StartEnv)
      → (assign m s mode effects env).result ≡ started
      → Listens (assign m s mode effects env).session mode env.task
  unfolding assign
  assign-Listens m s mode effects env h =
      let (m', seq) = begin_listen_start m mode in
      ground (arith, prepare-Listens (invalidate_times env.invalidated_1 m') s seq mode effects env)

  take_over-Listens :
      (m : ChatManager C A) (s : ChatSession C A) (mode : Text) (need_stop : Bool) (env : StartEnv)
      → (take_over m s mode need_stop env).result ≡ started
      → Listens (take_over m s mode need_stop env).session mode env.task
  unfolding take_over
  take_over-Listens m s mode need_stop env h =
      let (m', s', effects) = stop_output m s mode need_stop in
      assign-Listens m' s' mode effects env h

  -- A listen start that takes effect leaves a session that listens in the mode that was asked for,
  -- with an open turn, without an abort and under the loop of this start.
  pub start-Listens :
      (m : ChatManager C A) (s : ChatSession C A) (mode : Option Text) (pre : Bool) (env : StartEnv)
      → (handle_listen_start m s mode pre env).result ≡ started
      → Listens (handle_listen_start m s mode pre env).session (or_auto mode) env.task
  unfolding handle_listen_start
  start-Listens m s mode pre env h =
      let need = (m.tts_manager && env.tts_active) || is_speaking s.state.listen_phase in
      ground (arith, take_over-Listens m s (or_auto mode) need env)

  connect-quiet :
      (m : ChatManager C A) (s : ChatSession C A) (seq : ℕ) (effects : List Effect) (env : StartEnv)
      → is_started (connect m s seq effects env).result ≡ false
      → is_listening (connect m s seq effects env).session.state.listen_phase ≡ true
      → is_listening s.state.listen_phase ≡ true
  unfolding connect enter_listening
  connect-quiet m s seq effects env h l = ground arith

  prepare-quiet :
      (m : ChatManager C A) (s : ChatSession C A) (seq : ℕ) (mode : Text) (effects : List Effect)
      (env : StartEnv)
      → is_started (prepare m s seq mode effects env).result ≡ false
      → is_listening (prepare m s seq mode effects env).session.state.listen_phase ≡ true
      → is_listening s.state.listen_phase ≡ true
  unfolding prepare connect enter_listening
  prepare-quiet m s seq mode effects env h l = ground arith

  assign-quiet :
      (m : ChatManager C A) (s : ChatSession C A) (mode : Text) (effects : List Effect)
      (env : StartEnv)
      → is_started (assign m s mode effects env).result ≡ false
      → is_listening (assign m s mode effects env).session.state.listen_phase ≡ true
      → is_listening s.state.listen_phase ≡ true
  unfolding assign
  assign-quiet m s mode effects env h l =
      let (m', seq) = begin_listen_start m mode in
      ground (arith, prepare-quiet (invalidate_times env.invalidated_1 m') s seq mode effects env)

  stop_output-quiet :
      (m : ChatManager C A) (s : ChatSession C A) (mode : Text) (need_stop : Bool)
      → is_listening (stop_output m s mode need_stop).1.state.listen_phase ≡ true
      → is_listening s.state.listen_phase ≡ true
  unfolding stop_output stop_speaking_with_reason
  stop_output-quiet m s mode need_stop h = ground arith

  -- A listen start that does not take effect leaves no session listening that did not listen before.
  start-quiet :
      (m : ChatManager C A) (s : ChatSession C A) (mode : Option Text) (pre : Bool) (env : StartEnv)
      → is_started (handle_listen_start m s mode pre env).result ≡ false
      → is_listening (handle_listen_start m s mode pre env).session.state.listen_phase ≡ true
      → is_listening s.state.listen_phase ≡ true
  unfolding handle_listen_start take_over
  start-quiet m s mode pre env h l =
      let need = (m.tts_manager && env.tts_active) || is_speaking s.state.listen_phase in
      let (m', s', effects) = stop_output m s (or_auto mode) need in
      ground (
        arith,
        assign-quiet m' s' (or_auto mode) effects env,
        stop_output-quiet m s (or_auto mode) need,
      )
