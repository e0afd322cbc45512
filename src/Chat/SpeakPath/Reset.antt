-- ===== src/Chat/SpeakPath/Reset.antt =====
-- The resets of speak_path.rs, and the end of a speech that the server started.
use xiaozhi_esp32_server_rus.Common.{
  ℕ, Bool, true, not, ◌&&◌, Option, none, some, List, [], ◌++◌, if◌then◌else◌,
}
use xiaozhi_esp32_server_rus.Common.Text.{Text, codes}
use xiaozhi_esp32_server_rus.Chat.Detect.{TtsTurnEndPolicy, no_action, goodbye_and_idle}
use xiaozhi_esp32_server_rus.Chat.Session.{ChatSession}
use xiaozhi_esp32_server_rus.Chat.Manager.{ChatManager, mark_need_fresh_hello}
use xiaozhi_esp32_server_rus.Chat.Manager
use xiaozhi_esp32_server_rus.Chat.Manager.Close.{reset_to_silent_state}
use xiaozhi_esp32_server_rus.Chat.Manager.Retain.{schedule_retained_session_cleanup}
use xiaozhi_esp32_server_rus.Chat.SpeakPath.{
  SpeakPath, Effect, is_set, should_protect_active_speak_flow, clear_injected_speech_guard,
}
use xiaozhi_esp32_server_rus.Chat.SpeakPath.Requests.{finish_pending_speak_request}

unfoldable pub take_pending : SpeakPath → Option ℕ → Text → SpeakPath × List Effect
unfolding finish_pending_speak_request
take_pending p none reason = (p, [])
take_pending p (some k) reason =
    finish_pending_speak_request (record p { pending_speak_request = none }) k (some reason)

unfoldable pub reset_speak_path_after_session_reset : SpeakPath → Text → SpeakPath × List Effect
unfolding take_pending
reset_speak_path_after_session_reset p reason =
    take_pending (record p { last_speak_path_warm_at_ms = 0 }) p.pending_speak_request reason

unfoldable pub reset_speak_path_after_goodbye : SpeakPath → SpeakPath × List Effect
unfolding reset_speak_path_after_session_reset
reset_speak_path_after_goodbye p = reset_speak_path_after_session_reset p (codes "设备端 goodbye")

unfoldable reset_speak_path_after_server_session_close : SpeakPath → Text → SpeakPath × List Effect
unfolding reset_speak_path_after_session_reset
reset_speak_path_after_server_session_close p reason =
    reset_speak_path_after_session_reset p (codes "服务端关闭会话导致主动播报链路已重置: " ++ reason)

-- What the end of a speech comes to; a session that closes clears the guard when it is closed.
pub data PolicyEnd : Type 0 where
  resumes_listen_start closes_session says_goodbye : PolicyEnd

module _ {C A : Type 0} where
  abbrev silenced :
      ChatManager C A → Option (ChatSession C A) → ChatManager C A × List Manager.Effect
  silenced m none = (m, [])
  silenced m (some s) =
      let (m', s', es) = reset_to_silent_state m s in (record m' { session = some s' }, es)

  -- `cleanup` is the task that is spawned for the retained session.
  unfoldable mark_mqtt_conversation_state_stale :
      ChatManager C A
      → SpeakPath
      → Bool
      → Text
      → ℕ
      → ChatManager C A × SpeakPath × List Manager.Effect × List Effect
  unfolding should_protect_active_speak_flow reset_to_silent_state
      reset_speak_path_after_session_reset
  mark_mqtt_conversation_state_stale m p tts_active reason cleanup =
      if not m.is_mqtt_transport
      then (m, p, [], [])
      else if should_protect_active_speak_flow m p tts_active
      then (m, p, [], [])
      else if p.mqtt_rebootstrap_pending
      then (m, p, [], [])
      else (let (m1, es) = silenced m m.session in
          let (p', woken) =
            reset_speak_path_after_session_reset (record p { mqtt_rebootstrap_pending = true })
              (codes "MQTT 链路重建: " ++ reason) in
          let (m2, cancelled) = schedule_retained_session_cleanup m1 cleanup in
          (m2, p', es ++ cancelled, woken))

  unfoldable handle_tts_turn_end_policy :
      ChatManager C A → TtsTurnEndPolicy → Bool → ChatManager C A × PolicyEnd
  unfolding clear_injected_speech_guard mark_need_fresh_hello
  handle_tts_turn_end_policy m no_action hardware =
      (clear_injected_speech_guard m, resumes_listen_start)
  handle_tts_turn_end_policy m goodbye_and_idle hardware =
      if not m.is_mqtt_transport && not hardware
      then (clear_injected_speech_guard m, resumes_listen_start)
      else if is_set m.session
      then (m, closes_session)
      else (clear_injected_speech_guard (mark_need_fresh_hello m), says_goodbye)
