-- ===== src/OpenClaw/Manager/Modes.antt =====
-- Entering and leaving the mode of a device.
use xiaozhi_esp32_server_rus.Common.{◌≡◌, true, false, none, some, arith, if◌then◌else◌}
use xiaozhi_esp32_server_rus.Common.Text.{Text, text_eq, text_eq_iff, trim, is_empty}
use xiaozhi_esp32_server_rus.Common.Assoc.{insert, lookup-insert, lookup-remove}
use xiaozhi_esp32_server_rus.OpenClaw.Session.{
  AgentSession, enter_mode, exit_mode, is_mode_enabled, track_pending, resolve_pending,
}

module _ {Stream : Type 0} where
  -- On one connection, entering the mode of a device whose id is not blank turns it on, leaving it
  -- turns it off, and neither changes the modes of the other devices.
  is_mode_enabled-step :
      (s : AgentSession Stream) (device other : Text)
      → is_empty (trim device) ≡ false
      → (is_mode_enabled (enter_mode s device).0 other
          ≡ (if text_eq (trim device) (trim other) then true else is_mode_enabled s other))
        × (is_mode_enabled (exit_mode s device).0 other
            ≡ (if text_eq (trim device) (trim other) then false else is_mode_enabled s other))
  unfolding enter_mode exit_mode is_mode_enabled
  is_mode_enabled-step s device other h = (
    ground (arith, h, lookup-insert (trim device) (trim other) true s.modes),
    ground (arith, h, lookup-remove (trim device) (trim other) s.modes),
  )

  -- A request that is tracked for a device is resolved to it exactly once, when neither id is blank.
  resolve-track :
      (s : AgentSession Stream) (correlation_id device : Text)
      → is_empty (trim correlation_id) ≡ false
      → is_empty (trim device) ≡ false
      → ((resolve_pending (track_pending s correlation_id device) correlation_id).1
          ≡ some (trim device))
        × ((resolve_pending
              (resolve_pending (track_pending s correlation_id device) correlation_id).0
              correlation_id).1
            ≡ none)
  unfolding track_pending resolve_pending
  resolve-track s correlation_id device h k = ground (
    arith,
    h,
    k,
    text_eq_iff (trim correlation_id) (trim correlation_id),
    lookup-insert (trim correlation_id) (trim correlation_id) (trim device) s.pending,
    lookup-remove (trim correlation_id) (trim correlation_id)
        (insert (trim correlation_id) (trim device) s.pending),
  )
