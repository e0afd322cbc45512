-- ===== src/Chat/SpeakPath/Ready.antt =====
-- `handle_speak_ready_message` of speak_path.rs.
use xiaozhi_esp32_server_rus.Common.{
  ℕ, Bool, true, not, ◌&&◌, Option, none, some, List, [], if◌then◌else◌, get_elem?,
}
use xiaozhi_esp32_server_rus.Common.Text.{Text, codes, text_eq, trim, is_empty}
use xiaozhi_esp32_server_rus.Chat.Manager.{ChatManager}
use xiaozhi_esp32_server_rus.Chat.SpeakPath.{
  PendingSpeakRequest, SpeakPath, Effect, mark_speak_path_warm, clear_mqtt_rebootstrap_pending,
}
use xiaozhi_esp32_server_rus.Chat.SpeakPath.Requests.{finish_pending_speak_request}

pub record SpeakReadyUdpConfig : Type 0 where
  pub ready : Bool
  pub reuse_existing : Bool

pub record SpeakReady : Type 0 where
  pub session_id : Option Text
  pub state : Option Text
  pub udp_config : Option SpeakReadyUdpConfig

abbrev pub is_config_ready : Option SpeakReadyUdpConfig → Bool
is_config_ready none = true
is_config_ready (some c) = c.ready

abbrev pub is_state_ready : Option Text → Bool
is_state_ready none = true
is_state_ready (some s) = text_eq s (codes "ready")

abbrev or_none : Option Text → Text
or_none none = []
or_none (some t) = t

-- Whether the session of the answer is another one than that of the request.
abbrev pub is_other_session : Option Text → Text → Bool
is_other_session got want =
    not (is_empty want)
    && (not (is_empty (trim (or_none got))) && not (text_eq (trim (or_none got)) want))

abbrev pub wanted : Option PendingSpeakRequest → Text
wanted none = []
wanted (some r) = r.session_id

-- With the request that was pending when the message came.
unfoldable pub accept_answer : SpeakPath → Option ℕ → ℕ → SpeakPath × List Effect
unfolding finish_pending_speak_request mark_speak_path_warm clear_mqtt_rebootstrap_pending
accept_answer p none now = (p, [])
accept_answer p (some k) now =
    finish_pending_speak_request (clear_mqtt_rebootstrap_pending (mark_speak_path_warm p now)) k
      none

unfoldable pub take_answer : SpeakPath → ℕ → SpeakPath × List Effect
unfolding accept_answer
take_answer p now = accept_answer p p.pending_speak_request now

abbrev pub pending_session : SpeakPath → Option ℕ → Text
pending_session p none = []
pending_session p (some k) = wanted (get_elem? p.requests k)

module _ {C A : Type 0} where
  unfoldable pub handle_speak_ready_message :
      ChatManager C A → SpeakPath → SpeakReady → ℕ → SpeakPath × List Effect
  unfolding take_answer
  handle_speak_ready_message m p msg now =
      if not m.is_mqtt_transport
      then (p, [])
      else if not (is_config_ready msg.udp_config)
      then (p, [])
      else if not (is_state_ready msg.state)
      then (p, [])
      else if is_other_session msg.session_id (pending_session p p.pending_speak_request)
      then (p, [])
      else take_answer p now
