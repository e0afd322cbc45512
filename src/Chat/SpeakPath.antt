-- ===== src/Chat/SpeakPath.antt =====
-- crates/xiaozhi-chat/src/speak_path.rs: how a device on MQTT is made ready for speech that the server
-- starts, by `speak_request` and `speak_ready`. What the file reads of the manager is that of
-- Chat/Manager; a clock is in milliseconds of Unix time, and the atomics are read and written at once.
-- A task that waits for the answer is a number.
pub mod Ready
pub mod Requests
pub mod Reset
pub mod Injected
pub mod Early
pub mod Failed
pub mod Lost
pub mod Woken
pub mod Warm
pub mod Guard
mod Tests
use xiaozhi_esp32_server_rus.Common.{
  ℕ, ◌+◌, ◌-◌, ◌^◌, Bool, true, false, not, ◌&&◌, ◌||◌, Option, none, some, List, [], ◌∷◌, ◌++◌,
  ltb, leb, ◌==◌, if◌then◌else◌,
}
use xiaozhi_esp32_server_rus.Common.Text.{Text}
use xiaozhi_esp32_server_rus.Chat.Detect.{ListenPhase, idle, listening, processing, speaking}
use xiaozhi_esp32_server_rus.Chat.Session.{ChatSession}
use xiaozhi_esp32_server_rus.Chat.Manager.{ChatManager}

-- `waiters` are the tasks that wait for the notification now.
pub record PendingSpeakRequest : Type 0 where
  pub session_id : Text
  pub waiters : List ℕ
  pub error : Option Text

-- The fields of the manager that only this file writes. `requests` are all requests that were made, so
-- that a task can still read the error of one that is no longer pending; `pending_speak_request` is a
-- place in it.
pub record SpeakPath : Type 0 where
  pub has_udp_binding : Bool
  pub udp_last_active_ms : ℕ
  pub mqtt_rebootstrap_pending : Bool
  pub last_speak_path_warm_at_ms : ℕ
  pub pending_speak_request : Option ℕ
  pub requests : List PendingSpeakRequest

pub data Effect : Type 0 where
  wake : ℕ → Effect
  push_speak_request : Text → Text → Bool → Effect

abbrev pub is_set : {X : Type 0} → Option X → Bool
is_set none = false
is_set (some x) = true

-- `i64` to `u64` of a difference.
abbrev elapsed_u64 : ℕ → ℕ → ℕ
elapsed_u64 now since = if leb since now then now - since else 2 ^ 64 - (since - now)

unfoldable set_udp_binding_active : SpeakPath → Bool → SpeakPath
set_udp_binding_active p active =
    if active
    then record p { has_udp_binding = true }
    else record p { has_udp_binding = false; udp_last_active_ms = 0 }

unfoldable pub has_pending_speak_request : SpeakPath → Bool
has_pending_speak_request p = is_set p.pending_speak_request

unfoldable pub mark_speak_path_warm : SpeakPath → ℕ → SpeakPath
mark_speak_path_warm p now = record p { last_speak_path_warm_at_ms = now }

unfoldable pub clear_mqtt_rebootstrap_pending : SpeakPath → SpeakPath
clear_mqtt_rebootstrap_pending p = record p { mqtt_rebootstrap_pending = false }

unfoldable pub on_hardware_hello_received : SpeakPath → SpeakPath
unfolding clear_mqtt_rebootstrap_pending
on_hardware_hello_received p = clear_mqtt_rebootstrap_pending p

unfoldable pub current_speak_path_warm_at_ms : SpeakPath → ℕ
current_speak_path_warm_at_ms p =
    if ltb p.last_speak_path_warm_at_ms p.udp_last_active_ms
    then p.udp_last_active_ms
    else p.last_speak_path_warm_at_ms

abbrev pub is_idle : ListenPhase → Bool
is_idle idle = true
is_idle listening = false
is_idle processing = false
is_idle speaking = false

module _ {C A : Type 0} where
  unfoldable set_mqtt_transport : ChatManager C A → Bool → ChatManager C A
  set_mqtt_transport m is_mqtt = record m { is_mqtt_transport = is_mqtt }

  unfoldable pub begin_injected_speech_guard : ChatManager C A → ChatManager C A
  begin_injected_speech_guard m = record m { injected_speech_guard = true }

  unfoldable pub clear_injected_speech_guard : ChatManager C A → ChatManager C A
  clear_injected_speech_guard m = record m { injected_speech_guard = false }

  unfoldable pub touch_udp_transport_active : ChatManager C A → SpeakPath → ℕ → SpeakPath
  touch_udp_transport_active m p now =
      if not m.is_mqtt_transport
      then p
      else record p { has_udp_binding = true; udp_last_active_ms = now }

  unfoldable pub refresh_speak_path_warm_from_transport :
      ChatManager C A → SpeakPath → ℕ → SpeakPath
  unfolding has_pending_speak_request mark_speak_path_warm
  refresh_speak_path_warm_from_transport m p now =
      if not m.is_mqtt_transport || not p.has_udp_binding
      then p
      else if has_pending_speak_request p
      then p
      else if p.mqtt_rebootstrap_pending
      then p
      else if ltb 0 p.udp_last_active_ms
      then record p { last_speak_path_warm_at_ms = p.udp_last_active_ms }
      else mark_speak_path_warm p now

  -- `tts_active` is whether the speech manager, if there is one, says so.
  abbrev is_active : Option (ChatSession C A) → Bool → Bool
  is_active none tts_active = false
  is_active (some s) tts_active =
      (s.state.welcome_playing || s.state.welcome_speaking)
      || (not (is_idle s.state.listen_phase) || tts_active)

  unfoldable pub is_conversation_active : ChatManager C A → Bool → Bool
  is_conversation_active m tts_active = is_active m.session tts_active

  unfoldable pub should_protect_active_speak_flow : ChatManager C A → SpeakPath → Bool → Bool
  unfolding has_pending_speak_request is_conversation_active
  should_protect_active_speak_flow m p tts_active =
      if not m.is_mqtt_transport
      then false
      else if m.injected_speech_guard
      then true
      else if has_pending_speak_request p
      then true
      else is_conversation_active m tts_active

  unfoldable should_preserve_udp_session_on_hello : ChatManager C A → SpeakPath → Bool → Bool
  unfolding is_conversation_active
  should_preserve_udp_session_on_hello m p tts_active =
      if not m.is_mqtt_transport || not p.has_udp_binding
      then false
      else is_conversation_active m tts_active

  unfoldable pub requires_hello_bootstrap_for_session : ChatManager C A → Bool
  requires_hello_bootstrap_for_session m =
      if is_set m.session then false else if not m.hello_inited then true else m.need_fresh_hello

  -- `hardware` is whether there is a hardware endpoint, and `reuse_ms` is configured.
  unfoldable pub should_send_speak_request :
      ChatManager C A → SpeakPath → Bool → Bool → ℕ → ℕ → Bool
  unfolding requires_hello_bootstrap_for_session is_conversation_active
      current_speak_path_warm_at_ms
  should_send_speak_request m p hardware tts_active reuse_ms now =
      if not m.is_mqtt_transport
      then false
      else if not hardware
      then false
      else if requires_hello_bootstrap_for_session m
      then true
      else if p.mqtt_rebootstrap_pending
      then true
      else if is_conversation_active m tts_active
      then false
      else if current_speak_path_warm_at_ms p == 0
      then true
      else ltb reuse_ms (elapsed_u64 now (current_speak_path_warm_at_ms p))
