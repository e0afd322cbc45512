-- ===== src/Chat/Manager/Close.antt =====
-- session_lifecycle.rs: the end of a session. `close_session_with_reason` is in two parts, up to the
-- opening of the gate `session_closing`, and what a task of its own does then; other calls may come
-- between them.
use xiaozhi_esp32_server_rus.Common.{
  ℕ, Bool, true, false, not, ◌&&◌, ◌||◌, ◌==◌, Option, none, some, List, [], ◌∷◌, ◌++◌,
  if◌then◌else◌,
}
use xiaozhi_esp32_server_rus.Common.Text.{Text, is_empty}
use xiaozhi_esp32_server_rus.Chat.Detect.{idle}
use xiaozhi_esp32_server_rus.Chat.State.{
  clear_abort, reset_audio_idle_window, clear_audio_idle_timeout_pending,
}
use xiaozhi_esp32_server_rus.Chat.Session.{ChatSession}
use xiaozhi_esp32_server_rus.Chat.Asr.Pipeline.{
  abort_loop, on_voice_silence, resume_audio_idle, reset_received_text,
}
use xiaozhi_esp32_server_rus.Chat.Manager.{
  ChatManager, Cleanup, Effect, interrupted, aborted, end_exclusive_media_playback, stop_media,
  detach_media, reset_vad, goodbye, reset_speak_path, mark_need_fresh_hello,
  invalidate_listen_start, cancel_pending_detect_llm, cancel_retained_session_cleanup,
  stop_speaking_with_reason,
}

pub data SessionCloseReason : Type 0 where
  audio_idle_timeout retained_idle_timeout explicit_exit fatal_error manager_shutdown :
      SessionCloseReason

unfoldable pub should_send_mqtt_goodbye : SessionCloseReason → Bool
should_send_mqtt_goodbye audio_idle_timeout = true
should_send_mqtt_goodbye explicit_exit = true
should_send_mqtt_goodbye fatal_error = true
should_send_mqtt_goodbye _ = false

abbrev pub is_shutdown : SessionCloseReason → Bool
is_shutdown manager_shutdown = true
is_shutdown _ = false

abbrev is_retained : SessionCloseReason → Bool
is_retained retained_idle_timeout = true
is_retained _ = false

-- `filter(|s| !s.is_empty())`
abbrev pub filled : Option Text → Option Text
filled none = none
filled (some id) = if is_empty id then none else some id

abbrev pub or_else : Option Text → Option Text → Option Text
or_else none other = other
or_else (some id) other = some id

-- What is played: the player outlives a session that may come back.
abbrev media_effects : SessionCloseReason → Bool → List Effect
media_effects reason tts =
    if is_shutdown reason || is_retained reason
    then (if tts then end_exclusive_media_playback ∷ [] else []) ++ stop_media ∷ []
    else detach_media ∷ []

-- What runs a close: a task that itself holds the lock of the session, or one that does not, with its
-- number and whether the interruption of the speech has to wait for the sender loop.
pub data CloseCaller : Type 0 where
  holds_lock : CloseCaller
  runs_in : ℕ → Bool → CloseCaller

abbrev pub task_of : Option Cleanup → Option ℕ
task_of none = none
task_of (some c) = some c.task

abbrev is_task : Option ℕ → ℕ → Bool
is_task none task = false
is_task (some other) task = other == task

-- What is left for the task behind the gate: the session that was taken, and its id.
pub record Closed (C A : Type 0) : Type 0 where
  pub manager : ChatManager C A
  pub effects : List Effect
  pub taken : ChatSession C A
  pub closing_id : Option Text

-- `blocked`: the close never goes on, since it waits for a lock that its caller holds or is dropped.
pub data CloseStep (C A : Type 0) : Type 0 where
  skipped : ChatManager C A → CloseStep C A
  blocked : ChatManager C A → List Effect → CloseStep C A
  no_session : ChatManager C A → List Effect → CloseStep C A
  closed : Closed C A → CloseStep C A

-- A call ends, or stalls: what comes behind the close in its caller does not run either.
pub data CloseEnd (C A : Type 0) : Type 0 where
  ended : ChatManager C A → List Effect → CloseEnd C A
  stalled : ChatManager C A → List Effect → CloseEnd C A

module _ {C A : Type 0} where
  unfoldable pub reset_to_silent_state :
      ChatManager C A → ChatSession C A → ChatManager C A × ChatSession C A × List Effect
  unfolding cancel_pending_detect_llm clear_abort stop_speaking_with_reason abort_loop
      on_voice_silence resume_audio_idle reset_received_text reset_audio_idle_window
      clear_audio_idle_timeout_pending invalidate_listen_start
  reset_to_silent_state m s =
      let (m1, cancelled) = cancel_pending_detect_llm m in
      let s1 = record s { state = record (clear_abort s.state) { welcome_speaking = false } } in
      let (m2, s2, stops) = stop_speaking_with_reason m1 s1 true true true in
      let (p, sent, task) = abort_loop s2.asr_pipeline in
      let p' = reset_received_text (resume_audio_idle (on_voice_silence p).0) in
      let state = clear_audio_idle_timeout_pending (reset_audio_idle_window s2.state) in
      let s3 = record s2 {
        asr_pipeline = p';
        state = clear_abort (record state { listen_phase = idle; welcome_playing = false });
        pending_listen_start_mode = none;
        listen_warmup_until = none;
      } in
      (invalidate_listen_start m2, s3, cancelled ++ stops ++ aborted task ++ reset_vad ∷ [])

  abbrev pub session_id_of : Option (ChatSession C A) → Option Text
  session_id_of none = none
  session_id_of (some s) = some s.state.session_id

  -- The id that the goodbye will carry: the session's, or else that of the last hello.
  unfoldable pub session_id : ChatManager C A → Option Text
  session_id m = or_else (filled (session_id_of m.session)) (filled m.hello_session_id)

  -- The watchdog and the timer are given up, under the gate.
  abbrev begin_close : ChatManager C A → ChatManager C A × List Effect
  begin_close m =
      let (m', cancelled) =
        cancel_retained_session_cleanup
          (record m { session_closing = true; idle_watchdog = none }) in
      (m', aborted m.idle_watchdog ++ cancelled)

  abbrev take_session :
      ChatManager C A → List Effect → SessionCloseReason → Option (ChatSession C A) → CloseStep C A
  take_session m effects reason none =
      no_session (record m { session_closing = false }) (effects ++ interrupted m.tts_manager true)
  take_session m effects reason (some s) = closed (record {
    manager = record m {
      session = none;
      injected_speech_guard = false;
      tts_manager = false;
      llm_manager = false;
      session_media = false;
      session_abort = false;
      session_closing = false;
    };
    effects = (effects ++ interrupted m.tts_manager true) ++ media_effects reason m.tts_manager;
    taken = s;
    closing_id = session_id m;
  })

  -- Whether the close aborts the task that runs it: the watchdog or the timer of a retained session.
  abbrev pub aborts_task : ChatManager C A → ℕ → Bool
  aborts_task m task = is_task m.idle_watchdog task || is_task (task_of m.retained_cleanup) task

  -- An aborted task goes on up to where it has to wait, and is dropped there: the interruption has
  -- begun then. Other locks are free.
  abbrev under_gate :
      ChatManager C A
      → ChatManager C A
      → List Effect
      → SessionCloseReason
      → CloseCaller
      → CloseStep C A
  under_gate m m' effects reason holds_lock = blocked m' effects
  under_gate m m' effects reason (runs_in task waits) =
      if aborts_task m task && (m.tts_manager && waits)
      then blocked m' (effects ++ interrupted m.tts_manager true)
      else take_session m' effects reason m'.session

  -- Up to the opening of the gate.
  unfoldable pub close_front : ChatManager C A → SessionCloseReason → CloseCaller → CloseStep C A
  unfolding cancel_retained_session_cleanup session_id
  close_front m reason caller =
      if m.session_closing
      then skipped m
      else (let (m', effects) = begin_close m in under_gate m m' effects reason caller)

  unfoldable pub send_mqtt_goodbye_for_close :
      ChatManager C A → SessionCloseReason → Option Text → List Effect
  unfolding should_send_mqtt_goodbye session_id
  send_mqtt_goodbye_for_close m reason closing_id =
      if is_shutdown reason || is_retained reason || not (should_send_mqtt_goodbye reason)
      then []
      else if not m.outbound
      then []
      else goodbye (or_else closing_id (session_id m)) ∷ []

  unfoldable pub apply_session_closed_side_effects :
      ChatManager C A → SessionCloseReason → ChatManager C A × List Effect
  unfolding should_send_mqtt_goodbye mark_need_fresh_hello
  apply_session_closed_side_effects m reason =
      if is_shutdown reason
      then (m, [])
      else if is_retained reason
      then (mark_need_fresh_hello m, reset_speak_path ∷ [])
      else if not (should_send_mqtt_goodbye reason)
      then (m, [])
      else (mark_need_fresh_hello m, reset_speak_path ∷ [])

  -- The task behind the gate, on the manager as it is then.
  unfoldable pub close_back :
      ChatManager C A
      → SessionCloseReason
      → ChatSession C A
      → Option Text
      → ChatManager C A × List Effect
  unfolding send_mqtt_goodbye_for_close reset_to_silent_state apply_session_closed_side_effects
  close_back m reason s closing_id =
      let said = send_mqtt_goodbye_for_close m reason closing_id in
      let (m1, s1, silenced) = reset_to_silent_state m s in
      let (m2, done) = apply_session_closed_side_effects m1 reason in (m2, said ++ silenced ++ done)

  abbrev close_rest : SessionCloseReason → CloseStep C A → CloseEnd C A
  close_rest reason (skipped m) = ended m []
  close_rest reason (blocked m effects) = stalled m effects
  close_rest reason (no_session m effects) = ended m effects
  close_rest reason (closed c) =
      let (m, effects) = close_back c.manager reason c.taken c.closing_id in
      ended m (c.effects ++ effects)

  -- Both parts, with nothing between them.
  unfoldable pub close_session_with_reason :
      ChatManager C A → SessionCloseReason → CloseCaller → CloseEnd C A
  unfolding close_front close_back
  close_session_with_reason m reason caller = close_rest reason (close_front m reason caller)
