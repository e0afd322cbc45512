-- ===== src/OpenClaw/Manager.antt =====
-- crates/xiaozhi-openclaw/src/manager.rs: the connections of the agents and the modes of the devices.
-- An `Arc<AgentSession>` is a number, under which `sessions` holds what it points to.
pub mod Reconnect
pub mod Modes
mod Tests
use xiaozhi_esp32_server_rus.Common.{
  ℕ, suc, Bool, true, false, List, [], ◌∷◌, Option, none, some, ◌||◌, not, ◌==◌, if◌then◌else◌, any,
}
use xiaozhi_esp32_server_rus.Common.Text.{Text, codes, trim, is_empty, contains}
use xiaozhi_esp32_server_rus.Common.Assoc.{Assoc, lookup, insert, remove}
use xiaozhi_esp32_server_rus.OpenClaw.Session
use xiaozhi_esp32_server_rus.OpenClaw.Session.{
  AgentSession, SendResult, SendError, copy_modes_from, close, track_pending, send, or_false,
}

pub record OpenClawConfig : Type 0 where
  pub allowed : Bool
  enter_keywords : List Text
  pub exit_keywords : List Text

pub record OpenClawManager (Stream : Type 0) : Type 0 where
  pub agent_sessions : Assoc ℕ
  pub legacy_active_devices : Assoc Bool
  pub default_enter : List Text
  pub default_exit : List Text
  pub sessions : ℕ → AgentSession Stream
  pub next_session : ℕ

pub data SendMessageError : Type 0 where
  incomplete empty_prompt not_connected : SendMessageError
  not_sent : SendError → SendMessageError

pub data SendMessageResult (Message : Type 0) : Type 0 where
  sent : Text → ℕ → Message → SendMessageResult Message
  err : SendMessageError → SendMessageResult Message

abbrev or_default : List Text → List Text → List Text
or_default [] fallback = fallback
or_default (k ∷ ks) fallback = k ∷ ks

abbrev is_handle : ℕ → Option ℕ → Bool
is_handle handle none = false
is_handle handle (some current) = current == handle

module _ {Stream : Type 0} where
  unfoldable pub new : OpenClawManager Stream
  new = record {
    agent_sessions = [];
    legacy_active_devices = [];
    default_enter = codes "打开龙虾" ∷ codes "进入龙虾" ∷ codes "open claw" ∷ [];
    default_exit = codes "关闭龙虾" ∷ codes "退出龙虾" ∷ codes "close claw" ∷ [];
    sessions = λ k. Session.new [] 0;
    next_session = 0;
  }

  -- The store with another session under a number.
  abbrev pub written : ℕ → AgentSession Stream → (ℕ → AgentSession Stream) → ℕ → AgentSession Stream
  written handle s sessions k = if k == handle then s else sessions k

  abbrev pub added :
      OpenClawManager Stream
      → Text
      → AgentSession Stream
      → (ℕ → AgentSession Stream)
      → OpenClawManager Stream × ℕ
  added m id s sessions = (
    record m {
      agent_sessions = insert id m.next_session m.agent_sessions;
      sessions = written m.next_session s sessions;
      next_session = suc m.next_session;
    },
    m.next_session,
  )

  -- The channel of the new connection is the last argument.
  unfoldable pub register_agent_connection :
      OpenClawManager Stream → Text → ℕ → OpenClawManager Stream × ℕ
  register_agent_connection m agent_id tx =
      let id = trim agent_id in
      let session : AgentSession Stream = Session.new id tx in
      elim (lookup id m.agent_sessions) [
        | none ↦ added m id session m.sessions
        | some old ↦
            added m id (copy_modes_from session (m.sessions old))
              (written old (close (m.sessions old)) m.sessions)
      ]

  unfoldable pub unregister_agent_connection :
      OpenClawManager Stream → Text → ℕ → OpenClawManager Stream
  unregister_agent_connection m agent_id handle =
      let id = trim agent_id in
      let closed = written handle (close (m.sessions handle)) m.sessions in
      let is_current = is_handle handle (lookup id m.agent_sessions) in
      if is_empty id then m else record m {
        agent_sessions = if is_current then remove id m.agent_sessions else m.agent_sessions;
        sessions = closed;
      }

  unfoldable pub get_agent_session : OpenClawManager Stream → Text → Option ℕ
  get_agent_session m agent_id = lookup (trim agent_id) m.agent_sessions

  -- `message_id` is the random id, `prompt` is `build_prompted_content`, and `make` builds the frame.
  send_message :
      {Message : Type 0}
      → (ℕ → Bool)
      → (Text → Text)
      → (Text → Text → Text → Text → Text → Message)
      → OpenClawManager Stream
      → Text
      → Text
      → Text
      → Text
      → Text
      → OpenClawManager Stream × SendMessageResult Message
  send_message {Message} is_open prompt make m agent_id device_id content session_id message_id =
      let agent = trim agent_id in
      let device = trim device_id in
      let prompted = prompt (trim content) in
      let msg = make message_id prompted (trim session_id) device agent in
      if is_empty agent || is_empty device || is_empty (trim content)
      then (m, err incomplete)
      else if is_empty prompted
      then (m, err empty_prompt)
      else elim (get_agent_session m agent) [
        | none ↦ (m, err not_connected)
        | some handle ↦
            (let tracked = track_pending (m.sessions handle) message_id device in
              let result : SendMessageResult Message = elim (send is_open tracked msg) [
                | Session.sent tx frame ↦ sent message_id tx frame
                | Session.refused e ↦ err (not_sent e)
              ] in
              (record m { sessions = written handle tracked m.sessions }, result))
      ]

  unfoldable pub enter_mode : OpenClawManager Stream → Text → Text → OpenClawManager Stream × Bool
  enter_mode m agent_id device_id = elim (get_agent_session m (trim agent_id)) [
    | none ↦ (m, false)
    | some handle ↦
        (let (s, entered) = Session.enter_mode (m.sessions handle) (trim device_id) in
          (record m { sessions = written handle s m.sessions }, entered))
  ]

  unfoldable pub exit_mode : OpenClawManager Stream → Text → Text → OpenClawManager Stream × Bool
  exit_mode m agent_id device_id =
      let legacy = remove (trim device_id) m.legacy_active_devices in
      elim (get_agent_session m (trim agent_id)) [
        | none ↦ (record m { legacy_active_devices = legacy }, false)
        | some handle ↦
            (let (s, left) = Session.exit_mode (m.sessions handle) (trim device_id) in
              (
                record m { legacy_active_devices = legacy; sessions = written handle s m.sessions },
                left,
              ))
      ]

  unfoldable pub is_mode_enabled : OpenClawManager Stream → Text → Text → Bool
  is_mode_enabled m agent_id device_id = elim (get_agent_session m agent_id) [
    | none ↦ or_false (lookup (trim device_id) m.legacy_active_devices)
    | some handle ↦ Session.is_mode_enabled (m.sessions handle) device_id
  ]

  should_enter : OpenClawManager Stream → Text → OpenClawConfig → Bool
  should_enter m text config =
      if not config.allowed
      then false
      else any (λ k. contains k text) (or_default config.enter_keywords m.default_enter)

  should_exit : OpenClawManager Stream → Text → OpenClawConfig → Bool
  should_exit m text config =
      any (λ k. contains k text) (or_default config.exit_keywords m.default_exit)
