-- ===== src/OpenClaw/Manager/Tests.antt =====
-- A manager with one connected agent.
use xiaozhi_esp32_server_rus.Common.{ℕ, ◌≡◌, refl, arith, true, false, [], ◌∷◌, none, some}
use xiaozhi_esp32_server_rus.Common.Text.{
  Text, codes, text_eq, trim, trim_start_by, trim_end_by, is_whitespace, is_empty,
}
use xiaozhi_esp32_server_rus.Common.Assoc.{lookup, insert}
use xiaozhi_esp32_server_rus.OpenClaw.Session
use xiaozhi_esp32_server_rus.OpenClaw.Session.{AgentSession, track_pending, resolve_pending}
use xiaozhi_esp32_server_rus.OpenClaw.Manager.{
  OpenClawManager, register_agent_connection, unregister_agent_connection, get_agent_session,
  enter_mode, is_mode_enabled,
}
use xiaozhi_esp32_server_rus.OpenClaw.Manager.Reconnect.{register_again}

-- No stream is used here.
abbrev NoStream : Type 0
NoStream = ℕ

abbrev agent : Text
agent = codes "a1"

abbrev device : Text
device = codes "d1"

abbrev empty : OpenClawManager NoStream
empty = record {
  agent_sessions = [];
  legacy_active_devices = [];
  default_enter = [];
  default_exit = [];
  sessions = λ k. Session.new [] 0;
  next_session = 0;
}

abbrev connected : OpenClawManager NoStream
connected = record empty { agent_sessions = (agent, 0) ∷ []; next_session = 1 }

registers : (register_agent_connection empty agent 7).0.agent_sessions ≡ (agent, 0) ∷ []
unfolding register_agent_connection lookup insert trim_start_by trim_end_by is_whitespace
registers = refl

enters : is_mode_enabled (enter_mode connected agent device).0 agent device ≡ true
unfolding enter_mode is_mode_enabled get_agent_session Session.enter_mode Session.is_mode_enabled
    Session.new lookup insert text_eq trim_start_by trim_end_by is_whitespace
enters = refl

is_connected : get_agent_session connected agent ≡ some 0
unfolding get_agent_session lookup text_eq trim_start_by trim_end_by is_whitespace
is_connected = refl

agent_named : is_empty (trim agent) ≡ false
unfolding trim_start_by trim_end_by is_whitespace
agent_named = refl

device_named : is_empty (trim device) ≡ false
unfolding trim_start_by trim_end_by is_whitespace
device_named = refl

register_again_example :
    (is_mode_enabled (register_agent_connection connected agent 8).0 agent device
      ≡ is_mode_enabled connected agent device)
    × (((register_agent_connection connected agent 8).0.sessions 0).closed ≡ true)
    × (((register_agent_connection connected agent 8).0.sessions 1).closed ≡ false)
    × (get_agent_session
          (unregister_agent_connection (register_agent_connection connected agent 8).0 agent 0)
          agent
        ≡ some 1)
    × (get_agent_session
          (unregister_agent_connection (register_agent_connection connected agent 8).0 agent 1)
          agent
        ≡ none)
register_again_example =
    register_again connected agent device 8 0 is_connected (omega arith) agent_named

message_named : is_empty (trim (codes "m1")) ≡ false
unfolding trim_start_by trim_end_by is_whitespace
message_named = refl
