-- ===== src/Chat/SpeakPath/Woken.antt =====
-- What an answer to a pending request does in speak_path.rs.
use xiaozhi_esp32_server_rus.Common.{
  ℕ, zero, suc, ◌≤◌, ◌+◌, ◌<◌, ◌≡◌, refl, ap, ◌∙◌, Bool, true, false, not, Option, none, some, List,
  [], ◌∷◌, get_elem?, arith, if_false,
}
use xiaozhi_esp32_server_rus.Chat.Manager.{ChatManager}
use xiaozhi_esp32_server_rus.Chat.SpeakPath.{
  PendingSpeakRequest, SpeakPath, Effect, mark_speak_path_warm, clear_mqtt_rebootstrap_pending,
  should_send_speak_request, requires_hello_bootstrap_for_session, current_speak_path_warm_at_ms,
}
use xiaozhi_esp32_server_rus.Chat.SpeakPath.Requests.{
  waking, finish_at, finish_pending_speak_request, notified, error_at,
}
use xiaozhi_esp32_server_rus.Chat.SpeakPath.Ready.{
  SpeakReady, is_config_ready, is_state_ready, is_other_session, wanted, pending_session,
  accept_answer, take_answer, handle_speak_ready_message,
}

abbrev waiters_of : Option PendingSpeakRequest → List Effect
waiters_of none = []
waiters_of (some r) = waking r.waiters

finish-at :
    (k : ℕ) (rs : List PendingSpeakRequest) (r : PendingSpeakRequest)
    → get_elem? rs k ≡ some r
    → ((finish_at k none rs).1 ≡ waking r.waiters)
      × (error_at (get_elem? (finish_at k none rs).0 k) ≡ r.error)
finish-at k [] r h = ground arith
finish-at zero (x ∷ rs) r h = (ap waiters_of h, ap error_at h)
finish-at (suc k) (x ∷ rs) r h = finish-at k rs r h

accepted_path :
    (p : SpeakPath) (k now : ℕ)
    → p.pending_speak_request ≡ some k
    → (accept_answer p (some k) now).0.pending_speak_request ≡ none
unfolding accept_answer finish_pending_speak_request mark_speak_path_warm
    clear_mqtt_rebootstrap_pending
accepted_path p k now e = rw e (ground arith)

accepted_requests :
    (p : SpeakPath) (k now : ℕ) (r : PendingSpeakRequest)
    → get_elem? p.requests k ≡ some r
    → ((accept_answer p (some k) now).1 ≡ waking r.waiters)
      × (notified (accept_answer p (some k) now).0 k ≡ r.error)
unfolding accept_answer finish_pending_speak_request mark_speak_path_warm
    clear_mqtt_rebootstrap_pending notified
accepted_requests p k now r g = finish-at k p.requests r g

accepted_warm :
    (p : SpeakPath) (k now : ℕ)
    → p.udp_last_active_ms ≤ now
    → current_speak_path_warm_at_ms (accept_answer p (some k) now).0 ≡ now
unfolding accept_answer finish_pending_speak_request mark_speak_path_warm
    clear_mqtt_rebootstrap_pending current_speak_path_warm_at_ms
accepted_warm p k now u = ground arith

accepted_bootstrap :
    (p : SpeakPath) (k now : ℕ) → (accept_answer p (some k) now).0.mqtt_rebootstrap_pending ≡ false
unfolding accept_answer finish_pending_speak_request mark_speak_path_warm
    clear_mqtt_rebootstrap_pending
accepted_bootstrap p k now = refl

module _ {C A : Type 0} where
  pub warm-reused :
      (m : ChatManager C A) (p : SpeakPath) (tts_active : Bool) (reuse_ms warm later : ℕ)
      → requires_hello_bootstrap_for_session m ≡ false
      → p.mqtt_rebootstrap_pending ≡ false
      → current_speak_path_warm_at_ms p ≡ warm
      → 0 < warm
      → warm ≤ later
      → later ≤ warm + reuse_ms
      → should_send_speak_request m p true tts_active reuse_ms later ≡ false
  unfolding should_send_speak_request
  warm-reused m p tts_active reuse_ms warm later b d c z l w = ground arith

  handle-accept :
      (m : ChatManager C A) (p : SpeakPath) (msg : SpeakReady) (k : ℕ) (r : PendingSpeakRequest)
      (now : ℕ)
      → m.is_mqtt_transport ≡ true
      → p.pending_speak_request ≡ some k
      → get_elem? p.requests k ≡ some r
      → is_config_ready msg.udp_config ≡ true
      → is_state_ready msg.state ≡ true
      → is_other_session msg.session_id r.session_id ≡ false
      → handle_speak_ready_message m p msg now ≡ accept_answer p (some k) now
  unfolding handle_speak_ready_message take_answer
  handle-accept m p msg k r now q e g c s o =
      if_false _ _ (ap not q)
      ∙ if_false _ _ (ap not c)
      ∙ if_false _ _ (ap not s)
      ∙ if_false _ _ (
          ap (λ x. is_other_session msg.session_id (pending_session p x)) e
          ∙ ap (λ x. is_other_session msg.session_id (wanted x)) g
          ∙ o)
      ∙ ap (λ x. accept_answer p x now) e

  -- A message that is ready, for the pending request and its session, wakes every task that waits for
  -- it, in the order in which they came, and no other. They find no error, no request is pending any
  -- more, and as long as the clock has not gone on by more than the window for reuse, a speech asks for
  -- no further request, unless a hello is needed first.
  pub ready-wakes :
      (m : ChatManager C A) (p : SpeakPath) (msg : SpeakReady) (k : ℕ) (r : PendingSpeakRequest)
      (now later reuse_ms : ℕ) (tts_active : Bool)
      → (m.is_mqtt_transport ≡ true)
      → (p.pending_speak_request ≡ some k)
      → (get_elem? p.requests k ≡ some r)
      → (r.error ≡ none)
      → (is_config_ready msg.udp_config ≡ true)
      → (is_state_ready msg.state ≡ true)
      → (is_other_session msg.session_id r.session_id ≡ false)
      → (requires_hello_bootstrap_for_session m ≡ false)
      → p.udp_last_active_ms ≤ now
      → 0 < now
      → now ≤ later
      → later ≤ now + reuse_ms
      → ((handle_speak_ready_message m p msg now).1 ≡ waking r.waiters)
        × (notified (handle_speak_ready_message m p msg now).0 k ≡ none)
        × ((handle_speak_ready_message m p msg now).0.pending_speak_request ≡ none)
        × (should_send_speak_request m
              (handle_speak_ready_message m p msg now).0
              true
              tts_active
              reuse_ms
              later
            ≡ false)
  ready-wakes m p msg k r now later reuse_ms tts_active q e g x c s o b u z l w =
      rw (handle-accept m p msg k r now q e g c s o) (
        (accepted_requests p k now r g).0,
        (accepted_requests p k now r g).1 ∙ x,
        accepted_path p k now e,
        warm-reused m (accept_answer p (some k) now).0 tts_active reuse_ms now later b
            (accepted_bootstrap p k now) (accepted_warm p k now u) z l w,
      )
