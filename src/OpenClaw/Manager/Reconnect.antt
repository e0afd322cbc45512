-- ===== src/OpenClaw/Manager/Reconnect.antt =====
-- An agent that connects again while its old connection is still registered.
use xiaozhi_esp32_server_rus.Common.{
  ℕ, ◌<◌, ◌≡◌, refl, sym, ap, ◌∙◌, Bool, true, false, [], ◌∷◌, none, some, arith,
}
use xiaozhi_esp32_server_rus.Common.Text.{Text, text_eq_refl, trim, is_empty}
use xiaozhi_esp32_server_rus.Common.Assoc.{Assoc, lookup, lookup-insert, lookup-remove}
use xiaozhi_esp32_server_rus.OpenClaw.Session
use xiaozhi_esp32_server_rus.OpenClaw.Session.{
  AgentSession, copy_modes_from, insert_all, close, or_false,
}
use xiaozhi_esp32_server_rus.OpenClaw.Manager.{
  OpenClawManager, written, added, register_agent_connection, unregister_agent_connection,
  get_agent_session, is_mode_enabled,
}

lookup-insert_all : (k : Text) (m : Assoc Bool) → lookup k (insert_all m []) ≡ lookup k m
unfolding insert_all lookup
lookup-insert_all k [] = refl
lookup-insert_all k ((j, b) ∷ m) =
    ground (arith, lookup-insert j k b (insert_all m []), lookup-insert_all k m)

module _ {Stream : Type 0} where
  abbrev again : OpenClawManager Stream → Text → ℕ → OpenClawManager Stream
  again m agent tx = (register_agent_connection m agent tx).0

  abbrev reconnected : OpenClawManager Stream → Text → ℕ → ℕ → OpenClawManager Stream
  reconnected m agent tx old =
      (added m (trim agent) (copy_modes_from (Session.new (trim agent) tx) (m.sessions old))
        (written old (close (m.sessions old)) m.sessions)).0

  again-reconnected :
      (m : OpenClawManager Stream) (agent : Text) (tx old : ℕ)
      → lookup (trim agent) m.agent_sessions ≡ some old
      → again m agent tx ≡ reconnected m agent tx old
  unfolding register_agent_connection
  again-reconnected m agent tx old e = ap (λ r. r.0) (registered e)
    where
      registered :
          lookup (trim agent) m.agent_sessions ≡ some old
          → register_agent_connection m agent tx ≡ (reconnected m agent tx old, m.next_session)
      registered e = rw (e, register_agent_connection) refl

  lookup-again :
      (m : OpenClawManager Stream) (agent : Text) (tx old : ℕ)
      → lookup (trim agent) (reconnected m agent tx old).agent_sessions ≡ some m.next_session
  lookup-again m agent tx old = ground (
    arith,
    lookup-insert (trim agent) (trim agent) m.next_session m.agent_sessions,
    text_eq_refl (trim agent),
  )

  mode_at :
      (m : OpenClawManager Stream) (agent device : Text) (handle : ℕ)
      → lookup (trim agent) m.agent_sessions ≡ some handle
      → is_mode_enabled m agent device ≡ Session.is_mode_enabled (m.sessions handle) device
  unfolding is_mode_enabled get_agent_session
  mode_at m agent device handle e = rw (e, is_mode_enabled) refl

  reconnected-modes :
      (m : OpenClawManager Stream) (agent device : Text) (tx old : ℕ)
      → lookup (trim agent) m.agent_sessions ≡ some old
      → is_mode_enabled (reconnected m agent tx old) agent device ≡ is_mode_enabled m agent device
  unfolding copy_modes_from Session.new Session.is_mode_enabled
  reconnected-modes m agent device tx old e =
      mode_at (reconnected m agent tx old) agent device m.next_session (lookup-again m agent tx old)
      ∙ (copied ∙ sym (mode_at m agent device old e))
    where
      copied :
          Session.is_mode_enabled ((reconnected m agent tx old).sessions m.next_session) device
          ≡ Session.is_mode_enabled (m.sessions old) device
      copied = ground (arith, lookup-insert_all (trim device) (m.sessions old).modes)

  reconnected-closed :
      (m : OpenClawManager Stream) (agent : Text) (tx old : ℕ)
      → old < m.next_session
      → (((reconnected m agent tx old).sessions old).closed ≡ true)
        × (((reconnected m agent tx old).sessions m.next_session).closed ≡ false)
  unfolding close copy_modes_from Session.new
  reconnected-closed m agent tx old lt = ground arith

  reconnected-unregister :
      (m : OpenClawManager Stream) (agent : Text) (tx old : ℕ)
      → old < m.next_session
      → is_empty (trim agent) ≡ false
      → (get_agent_session
            (unregister_agent_connection (reconnected m agent tx old) agent old)
            agent
          ≡ some m.next_session)
        × (get_agent_session
              (unregister_agent_connection (reconnected m agent tx old) agent m.next_session)
              agent
            ≡ none)
  unfolding get_agent_session unregister_agent_connection
  reconnected-unregister m agent tx old lt h =
      rw (h, lookup-again m agent tx old)
        (
          ground (arith, lookup-again m agent tx old),
          ground (
            arith,
            lookup-remove (trim agent) (trim agent) (reconnected m agent tx old).agent_sessions,
            text_eq_refl (trim agent),
          ),
        )

  -- When an agent whose id is not blank connects again while a connection of it is registered, the
  -- modes of all devices stay as they were, the old session is closed and the new one is open. The end
  -- of the old connection, which comes later, does not unregister the new one, whose own end does.
  pub register_again :
      (m : OpenClawManager Stream) (agent device : Text) (tx old : ℕ)
      → get_agent_session m agent ≡ some old
      → old < m.next_session
      → is_empty (trim agent) ≡ false
      → (is_mode_enabled (again m agent tx) agent device ≡ is_mode_enabled m agent device)
        × (((again m agent tx).sessions old).closed ≡ true)
        × (((again m agent tx).sessions m.next_session).closed ≡ false)
        × (get_agent_session (unregister_agent_connection (again m agent tx) agent old) agent
            ≡ some m.next_session)
        × (get_agent_session
              (unregister_agent_connection (again m agent tx) agent m.next_session)
              agent
            ≡ none)
  unfolding get_agent_session
  register_again m agent device tx old e lt h =
      let (closed, opened) = reconnected-closed m agent tx old lt in
      let (kept, gone) = reconnected-unregister m agent tx old lt h in
      rw (again-reconnected m agent tx old e)
        (reconnected-modes m agent device tx old e, closed, opened, kept, gone)
