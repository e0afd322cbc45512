-- ===== src/Chat/SpeakPath/Warm.antt =====
-- What a reset leaves of the warm path in speak_path.rs.
use xiaozhi_esp32_server_rus.Common.{
  ℕ, ◌+◌, ◌≤◌, ◌<◌, ◌≡◌, refl, ap, ◌∙◌, Bool, true, false, Option, none, some, if_true, arith,
}
use xiaozhi_esp32_server_rus.Common.Text.{Text}
use xiaozhi_esp32_server_rus.Chat.Session.{ChatSession}
use xiaozhi_esp32_server_rus.Chat.Manager.{ChatManager, cancel_retained_session_cleanup}
use xiaozhi_esp32_server_rus.Chat.Manager.Retain.{
  schedule_retained_session_cleanup, handle_device_goodbye,
}
use xiaozhi_esp32_server_rus.Chat.SpeakPath.{
  SpeakPath, is_set, current_speak_path_warm_at_ms, requires_hello_bootstrap_for_session,
  should_send_speak_request,
}
use xiaozhi_esp32_server_rus.Chat.SpeakPath.Requests.{finish_pending_speak_request}
use xiaozhi_esp32_server_rus.Chat.SpeakPath.Reset.{
  take_pending, reset_speak_path_after_session_reset, reset_speak_path_after_goodbye,
}
use xiaozhi_esp32_server_rus.Chat.SpeakPath.Woken.{warm-reused}

taken_fields :
    (p : SpeakPath) (q : Option ℕ) (reason : Text)
    → ((take_pending p q reason).0.udp_last_active_ms ≡ p.udp_last_active_ms)
      × ((take_pending p q reason).0.mqtt_rebootstrap_pending ≡ p.mqtt_rebootstrap_pending)
      × ((take_pending p q reason).0.last_speak_path_warm_at_ms ≡ p.last_speak_path_warm_at_ms)
unfolding take_pending finish_pending_speak_request
taken_fields p none reason = (refl, refl, refl)
taken_fields p (some k) reason = (refl, refl, refl)

reset_fields :
    (p : SpeakPath)
    → 0 < p.udp_last_active_ms
    → ((reset_speak_path_after_goodbye p).0.mqtt_rebootstrap_pending ≡ p.mqtt_rebootstrap_pending)
      × (current_speak_path_warm_at_ms (reset_speak_path_after_goodbye p).0 ≡ p.udp_last_active_ms)
unfolding reset_speak_path_after_goodbye reset_speak_path_after_session_reset
    current_speak_path_warm_at_ms
reset_fields p u =
    let f = taken_fields (record p { last_speak_path_warm_at_ms = 0 }) p.pending_speak_request _ in
    (f.1, ground (arith, f.0, f.2))

module _ {C A : Type 0} where
  retained-ready :
      (m : ChatManager C A)
      → is_set m.session ≡ true
      → requires_hello_bootstrap_for_session m ≡ false
  unfolding requires_hello_bootstrap_for_session
  retained-ready m h = if_true _ _ h

  schedule-session :
      (m : ChatManager C A) (task : ℕ)
      → (schedule_retained_session_cleanup m task).0.session ≡ m.session
  unfolding schedule_retained_session_cleanup cancel_retained_session_cleanup
  schedule-session m task = ground arith

  goodbye-session :
      (m : ChatManager C A) (s : ChatSession C A) (task : ℕ)
      → m.session ≡ some s
      → is_set (handle_device_goodbye m task).0.session ≡ true
  unfolding handle_device_goodbye
  goodbye-session m s task h = ap is_set (schedule-session _ task) ∙ rw h refl

  -- A goodbye of the device does not make the path cold while UDP was lately active: the reset forgets
  -- when the path was warm, but not when UDP was last active, which counts as well. The session stays
  -- retained, so within the window for reuse a speech that the server starts asks for no request,
  -- although the device has left, unless a rebootstrap is pending.
  pub goodbye-reused :
      (m : ChatManager C A) (s : ChatSession C A) (p : SpeakPath) (task : ℕ) (tts_active : Bool)
      (reuse_ms later : ℕ)
      → (m.session ≡ some s)
      → (p.mqtt_rebootstrap_pending ≡ false)
      → 0 < p.udp_last_active_ms
      → p.udp_last_active_ms ≤ later
      → later ≤ p.udp_last_active_ms + reuse_ms
      → should_send_speak_request
          (handle_device_goodbye m task).0
          (reset_speak_path_after_goodbye p).0
          true
          tts_active
          reuse_ms
          later
        ≡ false
  goodbye-reused m s p task tts_active reuse_ms later h b u l w =
      let f = reset_fields p u in
      warm-reused (handle_device_goodbye m task).0 (reset_speak_path_after_goodbye p).0 tts_active
        reuse_ms p.udp_last_active_ms later
        (retained-ready (handle_device_goodbye m task).0 (goodbye-session m s task h)) (f.0 ∙ b) f.1
        u l w
