-- ===== src/Chat/Manager/Retain.antt =====
-- session_lifecycle.rs: a device's own goodbye, after which the session is kept for a time, and the
-- recovery from a close that does not end.
use xiaozhi_esp32_server_rus.Common.{
  ℕ, Bool, true, false, not, Option, none, some, List, [], ◌∷◌, ◌++◌, if◌then◌else◌,
}
use xiaozhi_esp32_server_rus.Common.Text.{Text, text_eq}
use xiaozhi_esp32_server_rus.Chat.Session.{ChatSession}
use xiaozhi_esp32_server_rus.Chat.Manager.{
  ChatManager, Effect, interrupted, aborted, reset_speak_path, mark_need_fresh_hello,
  invalidate_listen_start, cancel_retained_session_cleanup,
}
use xiaozhi_esp32_server_rus.Chat.Manager.Close.{
  CloseCaller, CloseEnd, ended, filled, session_id_of, reset_to_silent_state,
  close_session_with_reason, retained_idle_timeout,
}

abbrev is_target : Option Text → Text → Bool
is_target none target = text_eq [] target
is_target (some id) target = text_eq id target

module _ {C A : Type 0} where
  -- `none`: it waits for ever, since another task holds the session's lock for ever.
  unfoldable pub force_recover_stuck_session_close :
      ChatManager C A → Bool → Option (ChatManager C A × List Effect)
  unfolding cancel_retained_session_cleanup mark_need_fresh_hello
  force_recover_stuck_session_close m held =
      if not m.session_closing
      then some (m, [])
      else if held
      then none
      else (let (m', cancelled) =
            cancel_retained_session_cleanup (record m { idle_watchdog = none }) in
          some (
            mark_need_fresh_hello (record m' {
              session = none;
              tts_manager = false;
              llm_manager = false;
              session_media = false;
              session_abort = false;
              injected_speech_guard = false;
              session_closing = false;
            }),
            aborted m.idle_watchdog ++ cancelled ++ interrupted m.tts_manager true,
          ))

  abbrev silenced : Option (ChatSession C A) → ChatManager C A → ChatManager C A × List Effect
  silenced none m = (m, [])
  silenced (some s) m =
      let (m', s', effects) = reset_to_silent_state m s in
      (record m' { session = some s' }, effects)

  -- `task` is the number of the new timer.
  unfoldable pub schedule_retained_session_cleanup :
      ChatManager C A → ℕ → ChatManager C A × List Effect
  unfolding cancel_retained_session_cleanup
  schedule_retained_session_cleanup m task = elim (filled (session_id_of m.session)) [
    | none ↦ (m, [])
    | some id ↦
        (let (m', cancelled) = cancel_retained_session_cleanup m in
          (record m' { retained_cleanup = some (record { task = task; target = id }) }, cancelled))
  ]

  unfoldable pub handle_device_goodbye : ChatManager C A → ℕ → ChatManager C A × List Effect
  unfolding invalidate_listen_start reset_to_silent_state schedule_retained_session_cleanup
  handle_device_goodbye m task =
      let (m1, effects) = silenced m.session (invalidate_listen_start m) in
      let (m2, cancelled) = schedule_retained_session_cleanup m1 task in
      (m2, interrupted m.tts_manager true ++ effects ++ reset_speak_path ∷ cancelled)

  -- The timer of a cleanup has run down, in the task `caller`.
  retained_timeout : ChatManager C A → Text → CloseCaller → CloseEnd C A
  unfolding close_session_with_reason
  retained_timeout m target caller =
      if is_target (session_id_of m.session) target
      then close_session_with_reason m retained_idle_timeout caller
      else ended m []

  on_device_activity : ChatManager C A → ChatManager C A × List Effect
  unfolding cancel_retained_session_cleanup
  on_device_activity m = cancel_retained_session_cleanup m
