-- ===== src/Chat/Manager.antt =====
-- crates/xiaozhi-chat/src/manager.rs and session_lifecycle.rs: the fields of the manager that decide
-- whether a device is listened to, and their operations. What a call asks of other parts is an
-- effect, in the order of the calls. The values of the atomic fields are read and written at once.
pub mod ListenStart
pub mod Detected
pub mod Close
pub mod Retain
pub mod Listen
pub mod Idle
pub mod Silent
pub mod Stale
pub mod Entered
pub mod Closing
pub mod Overlap
pub mod Deferral
pub mod Pending
pub mod Resumed
mod Tests
use xiaozhi_esp32_server_rus.Common.{
  ℕ, zero, suc, ◌+◌, ◌%◌, ◌^◌, Bool, true, false, not, ◌&&◌, ◌||◌, ◌==◌, Option, none, some, List,
  [], ◌∷◌, ◌++◌, if◌then◌else◌,
}
use xiaozhi_esp32_server_rus.Common.Text.{Text, codes, text_eq}
use xiaozhi_esp32_server_rus.Chat.Detect.{ListenPhase, idle, listening, processing, speaking}
use xiaozhi_esp32_server_rus.Chat.State.{is_realtime, is_listening}
use xiaozhi_esp32_server_rus.Chat.Session.{ChatSession, complete_welcome_playback_wait}
use xiaozhi_esp32_server_rus.Chat.Asr.Pipeline.{abort_loop, on_voice_silence}

-- The task that closes a retained session, with the session that it was started for.
pub record Cleanup : Type 0 where
  pub task : ℕ
  pub target : Text

-- The managers, the media of the session and its abort flag are here by whether they are set, the
-- outbound channel by whether there is one, and tasks by their numbers.
pub record ChatManager (C A : Type 0) : Type 0 where
  pub session : Option (ChatSession C A)
  pub pre_listen_pcm : List (List A)
  pub need_fresh_hello : Bool
  pub hello_inited : Bool
  pub listen_start_seq : ℕ
  pub realtime_listen_active : Bool
  pub detect_llm_handle : Option ℕ
  pub tts_manager : Bool
  pub llm_manager : Bool
  pub session_media : Bool
  pub session_abort : Bool
  pub idle_watchdog : Option ℕ
  pub retained_cleanup : Option Cleanup
  pub is_mqtt_transport : Bool
  pub hello_session_id : Option Text
  pub injected_speech_guard : Bool
  pub session_closing : Bool
  pub outbound : Bool

pub data Effect : Type 0 where
  nudge_tts_speaking_signal : Effect
  interrupt_and_stop : Bool → Effect
  end_exclusive_media_playback : Effect
  suspend_media stop_media detach_media : Effect
  abort_task : ℕ → Effect
  welcome_done : ℕ → Bool → Effect
  reset_vad reset_speaker : Effect
  goodbye : Option Text → Effect
  reset_speak_path : Effect
  schedule_detect_llm : Text → Effect
  speak_welcome : Text → Effect

abbrev pub aborted : Option ℕ → List Effect
aborted none = []
aborted (some task) = abort_task task ∷ []

abbrev pub told : Option ℕ → Bool → List Effect
told none natural = []
told (some sender) natural = welcome_done sender natural ∷ []

abbrev pub interrupted : Bool → Bool → List Effect
interrupted true send_stop = interrupt_and_stop send_stop ∷ []
interrupted false send_stop = []

abbrev allows_realtime : ListenPhase → Bool
allows_realtime idle = false
allows_realtime _ = true

module _ {C A : Type 0} where
  unfoldable mark_hello_ready : ChatManager C A → ChatManager C A
  mark_hello_ready m = record m { hello_inited = true; need_fresh_hello = false }

  unfoldable pub mark_need_fresh_hello : ChatManager C A → ChatManager C A
  mark_need_fresh_hello m = record m { need_fresh_hello = true }

  -- Beside the manager: the number of the listen start. `fetch_add` wraps.
  unfoldable pub begin_listen_start : ChatManager C A → Text → ChatManager C A × ℕ
  begin_listen_start m mode =
      let seq = (m.listen_start_seq + 1) % 2 ^ 64 in
      let active = if text_eq mode (codes "realtime") then true else m.realtime_listen_active in
      (record m { listen_start_seq = seq; realtime_listen_active = active }, seq)

  unfoldable pub invalidate_listen_start : ChatManager C A → ChatManager C A
  invalidate_listen_start m = record m {
    listen_start_seq = (m.listen_start_seq + 1) % 2 ^ 64;
    realtime_listen_active = false;
  }

  -- Invalidations by other tasks, while this one waits.
  unfoldable pub invalidate_times : ℕ → ChatManager C A → ChatManager C A
  unfolding invalidate_listen_start
  invalidate_times zero m = m
  invalidate_times (suc n) m = invalidate_times n (invalidate_listen_start m)

  unfoldable pub is_current_listen_start : ChatManager C A → ℕ → Bool
  is_current_listen_start m seq = m.listen_start_seq == seq

  abbrev allows : Option (ChatSession C A) → Bool
  allows none = false
  allows (some s) =
      if is_realtime s.state
      then allows_realtime s.state.listen_phase
      else is_listening s.state.listen_phase

  is_allowed_asr_restart : ChatManager C A → ℕ → Bool
  unfolding is_current_listen_start is_realtime
  is_allowed_asr_restart m start_seq =
      if not (is_current_listen_start m start_seq) then false else allows m.session

  unfoldable pub cancel_pending_detect_llm : ChatManager C A → ChatManager C A × List Effect
  cancel_pending_detect_llm m = (record m { detect_llm_handle = none }, aborted m.detect_llm_handle)

  unfoldable pub cancel_retained_session_cleanup : ChatManager C A → ChatManager C A × List Effect
  cancel_retained_session_cleanup m = elim m.retained_cleanup [
    | none ↦ (m, [])
    | some c ↦ (record m { retained_cleanup = none }, abort_task c.task ∷ [])
  ]

  -- Of the session: the caller holds its lock, so it is an argument and a result.
  unfoldable pub stop_speaking_with_reason :
      ChatManager C A
      → ChatSession C A
      → Bool
      → Bool
      → Bool
      → ChatManager C A × ChatSession C A × List Effect
  unfolding complete_welcome_playback_wait invalidate_listen_start abort_loop on_voice_silence
  stop_speaking_with_reason m s cancel_session send_tts_stop preserve_welcome_playing =
      let (s1, waiting) = complete_welcome_playback_wait s in
      let s2 =
        if not preserve_welcome_playing
        then record s1 { state = record s1.state { welcome_playing = false } }
        else s1 in
      let (p, sent, task) = abort_loop s2.asr_pipeline in
      let stopped = record s2 {
        asr_pipeline = (on_voice_silence p).0;
        state = record s2.state { listen_phase = idle };
      } in
      let said = interrupted m.tts_manager send_tts_stop ++ suspend_media ∷ [] in
      if cancel_session
      then (invalidate_listen_start m, stopped, told waiting false ++ aborted task ++ said)
      else (m, s2, told waiting false ++ said)
