-- ===== src/Chat/SpeakPath/Guard.antt =====
-- The guard of speech that the server starts, behind `inject_message_inner`.
use xiaozhi_esp32_server_rus.Common.{
  ◌≡◌, Bool, true, false, not, ◌&&◌, ◌||◌, Option, none, some, arith,
}
use xiaozhi_esp32_server_rus.Common.Text.{Text}
use xiaozhi_esp32_server_rus.Chat.Manager.{ChatManager, cancel_retained_session_cleanup}
use xiaozhi_esp32_server_rus.Chat.SpeakPath.{
  is_set, begin_injected_speech_guard, clear_injected_speech_guard,
}
use xiaozhi_esp32_server_rus.Chat.SpeakPath.Injected.{
  Injected, failed, done, is_guarded, inject_prepared, inject_message_inner,
}

abbrev pub is_failed : Injected → Bool
is_failed (failed e) = true
is_failed (done n) = false

module _ {C A : Type 0} where
  prepared-guard :
      (m : ChatManager C A) (text : Text) (skip_llm auto_listen : Bool) (speech : Option Text)
      → (m.injected_speech_guard ≡ false)
      → ((inject_prepared m text skip_llm auto_listen speech).0.injected_speech_guard ≡ (
          is_guarded m auto_listen
          && (not (is_failed (inject_prepared m text skip_llm auto_listen speech).2)
              || not m.llm_manager)))
        × ((inject_prepared m text skip_llm auto_listen speech).0.retained_cleanup
            ≡ m.retained_cleanup)
  unfolding inject_prepared begin_injected_speech_guard clear_injected_speech_guard
  prepared-guard m text skip_llm auto_listen none g = ground arith
  prepared-guard m text skip_llm auto_listen (some e) g = ground arith

  cancelled_fields :
      (m : ChatManager C A)
      → ((cancel_retained_session_cleanup m).0.injected_speech_guard ≡ m.injected_speech_guard)
        × ((cancel_retained_session_cleanup m).0.is_mqtt_transport ≡ m.is_mqtt_transport)
        × ((cancel_retained_session_cleanup m).0.llm_manager ≡ m.llm_manager)
        × ((cancel_retained_session_cleanup m).0.retained_cleanup ≡ none)
  unfolding cancel_retained_session_cleanup
  cancelled_fields m = ground arith

  -- When the guard was down before, a message that fails leaves it up exactly when the path was prepared,
  -- the device is on MQTT and is not to listen, and what fails is that there is no manager for the
  -- model: then nothing will be spoken whose end takes it down again. A message that does not fail
  -- leaves the guard up exactly when the device is on MQTT and is not to listen. Whether it fails or
  -- not, no cleanup of a retained session is pending afterwards.
  pub inject-guard :
      (m : ChatManager C A) (text : Text) (skip_llm auto_listen : Bool)
      (prepared speech : Option Text)
      → (m.injected_speech_guard ≡ false)
      → ((inject_message_inner m text skip_llm auto_listen prepared speech).0.injected_speech_guard
          ≡ (is_guarded m auto_listen
              && (not
                    (is_failed (inject_message_inner m text skip_llm auto_listen prepared speech).2)
                  || (not (is_set prepared) && not m.llm_manager))))
        × ((inject_message_inner m text skip_llm auto_listen prepared speech).0.retained_cleanup
            ≡ none)
  unfolding inject_message_inner
  inject-guard m text skip_llm auto_listen prepared speech g = ground (
    arith,
    cancelled_fields m,
    prepared-guard (cancel_retained_session_cleanup m).0 text skip_llm auto_listen speech,
  )
