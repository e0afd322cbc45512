-- ===== src/Chat/Manager/Pending.antt =====
-- A listen start that is not put off leaves the mode that is kept for a resumption as it is.
use xiaozhi_esp32_server_rus.Common.{
  ℕ, ◌≡◌, refl, ◌∙◌, Bool, true, false, ◌&&◌, ◌||◌, Option, List, [], ◌∷◌, arith,
}
use xiaozhi_esp32_server_rus.Common.Text.{Text}
use xiaozhi_esp32_server_rus.Chat.Session.{ChatSession}
use xiaozhi_esp32_server_rus.Chat.Session.Audio.{flush_prelisten_pcm}
use xiaozhi_esp32_server_rus.Chat.Manager.{
  ChatManager, Effect, invalidate_times, begin_listen_start, stop_speaking_with_reason,
}
use xiaozhi_esp32_server_rus.Chat.Manager.ListenStart.{
  StartEnv, StartResult, deferred, handle_listen_start, take_over, stop_output, assign, prepare,
  connect, enter_listening, or_auto, is_speaking,
}

abbrev pub is_deferred : StartResult → Bool
is_deferred deferred = true
is_deferred _ = false

module _ {C A : Type 0} where
  prepare-pending :
      (m : ChatManager C A) (s : ChatSession C A) (seq : ℕ) (mode : Text) (effects : List Effect)
      (env : StartEnv)
      → (prepare m s seq mode effects env).session.pending_listen_start_mode
        ≡ s.pending_listen_start_mode
  unfolding prepare connect enter_listening
  prepare-pending m s seq mode effects env = ground arith

  assign-pending :
      (m : ChatManager C A) (s : ChatSession C A) (mode : Text) (effects : List Effect)
      (env : StartEnv)
      → (assign m s mode effects env).session.pending_listen_start_mode
        ≡ s.pending_listen_start_mode
  unfolding assign
  assign-pending m s mode effects env =
      let (m', seq) = begin_listen_start m mode in
      ground (arith, prepare-pending (invalidate_times env.invalidated_1 m') s seq mode effects env)

  stop_output-pending :
      (m : ChatManager C A) (s : ChatSession C A) (mode : Text) (need_stop : Bool)
      → (stop_output m s mode need_stop).1.pending_listen_start_mode ≡ s.pending_listen_start_mode
  unfolding stop_output stop_speaking_with_reason
  stop_output-pending m s mode need_stop = ground arith

  take_over-pending :
      (m : ChatManager C A) (s : ChatSession C A) (mode : Text) (need_stop : Bool) (env : StartEnv)
      → (take_over m s mode need_stop env).session.pending_listen_start_mode
        ≡ s.pending_listen_start_mode
  unfolding take_over
  take_over-pending m s mode need_stop env =
      let (m', s', effects) = stop_output m s mode need_stop in
      assign-pending m' s' mode effects env ∙ stop_output-pending m s mode need_stop

  pub handle-pending :
      (m : ChatManager C A) (s : ChatSession C A) (mode : Option Text) (pre : Bool) (env : StartEnv)
      → is_deferred (handle_listen_start m s mode pre env).result ≡ false
      → (handle_listen_start m s mode pre env).session.pending_listen_start_mode
        ≡ s.pending_listen_start_mode
  unfolding handle_listen_start
  handle-pending m s mode pre env h =
      let need = (m.tts_manager && env.tts_active) || is_speaking s.state.listen_phase in
      ground (arith, take_over-pending m s (or_auto mode) need env)

  pub flush-pending :
      (frames : List (List A × Option Bool)) (s : ChatSession C A) (now_ms now : ℕ)
      → (flush_prelisten_pcm s frames now_ms now).pending_listen_start_mode
        ≡ s.pending_listen_start_mode
  unfolding flush_prelisten_pcm
  flush-pending [] s now_ms now = refl
  flush-pending ((pcm, heard) ∷ frames) s now_ms now =
      flush-pending frames _ now_ms now ∙ ground arith
