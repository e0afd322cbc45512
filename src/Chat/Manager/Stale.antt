-- ===== src/Chat/Manager/Stale.antt =====
-- What becomes of a listen start that another call overtakes, or that comes while something is
-- spoken.
use xiaozhi_esp32_server_rus.Common.{
  ℕ, zero, suc, ◌+◌, ◌%◌, ◌^◌, ◌<◌, ◌≡◌, refl, Bool, true, false, not, ◌&&◌, ◌||◌, ◌==◌, Option,
  List, arith,
}
use xiaozhi_esp32_server_rus.Common.Text.{Text}
use xiaozhi_esp32_server_rus.Chat.Detect.{
  is_realtime_mode, should_ignore_listen_start_during_welcome,
  should_ignore_listen_start_during_injected_speech, should_ignore_listen_start_during_speak,
}
use xiaozhi_esp32_server_rus.Chat.Session.{ChatSession}
use xiaozhi_esp32_server_rus.Chat.Manager.{
  ChatManager, Effect, invalidate_times, invalidate_listen_start, is_current_listen_start,
  begin_listen_start,
}
use xiaozhi_esp32_server_rus.Chat.Manager.ListenStart.{
  StartEnv, StartResult, started, handle_listen_start, take_over, stop_output, assign, prepare,
  connect, enter_listening, or_auto, is_speaking,
}

abbrev pub is_started : StartResult → Bool
is_started started = true
is_started _ = false

-- Other tasks invalidate the start fewer than 2 ^ 64 times at each wait.
pub record IsBounded (env : StartEnv) : Type 0 where
  pub first : env.invalidated_1 < 2 ^ 64
  pub second : env.invalidated_2 < 2 ^ 64
  pub third : env.invalidated_3 < 2 ^ 64

module _ {C A : Type 0} where
  invalidate_times-seq :
      (n : ℕ) (m : ChatManager C A)
      → m.listen_start_seq < 2 ^ 64
      → (invalidate_times n m).listen_start_seq ≡ (m.listen_start_seq + n) % 2 ^ 64
  unfolding invalidate_times invalidate_listen_start
  invalidate_times-seq zero m h = omega arith
  invalidate_times-seq (suc n) m h =
      ground (arith, invalidate_times-seq n (invalidate_listen_start m))

  current_after :
      (n : ℕ) (m : ChatManager C A) (seq : ℕ)
      → m.listen_start_seq ≡ seq
      → seq < 2 ^ 64
      → n < 2 ^ 64
      → (is_current_listen_start (invalidate_times n m) seq ≡ (n == 0))
        × (n ≡ 0 → (invalidate_times n m).listen_start_seq ≡ seq)
  unfolding is_current_listen_start
  current_after n m seq e l k =
      (ground (arith, invalidate_times-seq n m), λ z. ground (arith, invalidate_times-seq n m))

  connect_started :
      (m : ChatManager C A) (s : ChatSession C A) (seq : ℕ) (effects : List Effect) (env : StartEnv)
      → m.listen_start_seq ≡ seq
      → seq < 2 ^ 64
      → env.invalidated_3 < 2 ^ 64
      → is_started (connect m s seq effects env).result
        ≡ (env.connected && (env.invalidated_3 == 0))
  unfolding connect enter_listening
  connect_started m s seq effects env e l n =
      ground (arith, (current_after env.invalidated_3 m seq e l n).0)

  prepare_started :
      (m : ChatManager C A) (s : ChatSession C A) (seq : ℕ) (mode : Text) (effects : List Effect)
      (env : StartEnv)
      → m.listen_start_seq ≡ seq
      → seq < 2 ^ 64
      → IsBounded env
      → is_started (prepare m s seq mode effects env).result
        ≡ ((env.invalidated_2 == 0) && env.connected && (env.invalidated_3 == 0))
  unfolding prepare connect enter_listening
  prepare_started m s seq mode effects env e l b =
      let (c, z) = current_after env.invalidated_2 m seq e l b.second in
      ground (arith, current_after env.invalidated_3 (invalidate_times env.invalidated_2 m) seq)

  assign_started :
      (m : ChatManager C A) (s : ChatSession C A) (mode : Text) (effects : List Effect)
      (env : StartEnv)
      → IsBounded env
      → is_started (assign m s mode effects env).result ≡ (
          (env.invalidated_1 == 0)
          && (env.invalidated_2 == 0)
          && env.connected
          && (env.invalidated_3 == 0))
  unfolding assign begin_listen_start
  assign_started m s mode effects env b =
      let (m', seq) = begin_listen_start m mode in
      let (c, z) = current_after env.invalidated_1 m' seq refl (omega arith) b.first in
      ground (arith, prepare_started (invalidate_times env.invalidated_1 m') s seq mode effects env)

  take_over_started :
      (m : ChatManager C A) (s : ChatSession C A) (mode : Text) (need_stop : Bool) (env : StartEnv)
      → IsBounded env
      → is_started (take_over m s mode need_stop env).result ≡ (
          (env.invalidated_1 == 0)
          && (env.invalidated_2 == 0)
          && env.connected
          && (env.invalidated_3 == 0))
  unfolding take_over
  take_over_started m s mode need_stop env b =
      let (m', s', effects) = stop_output m s mode need_stop in
      assign_started m' s' mode effects env b

  -- What turns a listen start away before it gets its number.
  abbrev pub is_turned_away : ChatManager C A → ChatSession C A → Text → Bool → Bool → Bool
  is_turned_away m s mode has_prelisten_audio tts_active =
      should_ignore_listen_start_during_welcome mode s.state.welcome_playing
      || should_ignore_listen_start_during_injected_speech mode m.injected_speech_guard
      || should_ignore_listen_start_during_speak mode (m.tts_manager && tts_active)
          (is_speaking s.state.listen_phase) has_prelisten_audio
      || (is_realtime_mode mode && m.realtime_listen_active)

  -- A listen start takes effect exactly when it is not turned away, no other call invalidates it
  -- before one of its three checks, and the recogniser can be reached.
  pub start_started :
      (m : ChatManager C A) (s : ChatSession C A) (mode : Option Text) (pre : Bool) (env : StartEnv)
      → IsBounded env
      → is_started (handle_listen_start m s mode pre env).result ≡ (
          not (is_turned_away m s (or_auto mode) pre env.tts_active)
          && (env.invalidated_1 == 0)
          && (env.invalidated_2 == 0)
          && env.connected
          && (env.invalidated_3 == 0))
  unfolding handle_listen_start
  start_started m s mode pre env b =
      let need = (m.tts_manager && env.tts_active) || is_speaking s.state.listen_phase in
      ground (arith, take_over_started m s (or_auto mode) need env b)
