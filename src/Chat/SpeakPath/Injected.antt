-- ===== src/Chat/SpeakPath/Injected.antt =====
-- `inject_message_inner` of manager.rs behind the preparation of the speak path.
use xiaozhi_esp32_server_rus.Common.{
  ℕ, Bool, not, ◌&&◌, Option, none, some, List, [], ◌∷◌, ◌++◌, if◌then◌else◌, map,
}
use xiaozhi_esp32_server_rus.Common.Text.{Text, codes}
use xiaozhi_esp32_server_rus.Chat.Detect.{TtsTurnEndPolicy, injected_speech_tts_turn_end_policy}
use xiaozhi_esp32_server_rus.Chat.Manager.{ChatManager, cancel_retained_session_cleanup}
use xiaozhi_esp32_server_rus.Chat.Manager
use xiaozhi_esp32_server_rus.Chat.SpeakPath.{
  begin_injected_speech_guard, clear_injected_speech_guard,
}

pub data InjectEffect : Type 0 where
  set_turn_end_policy : TtsTurnEndPolicy → InjectEffect
  add_text_to_tts_queue_with_on_start : Text → Bool → InjectEffect
  enqueue_chat_text : Text → InjectEffect
  on_listen_start : InjectEffect
  try_resume_pending_listen_start : InjectEffect
  cancels : Manager.Effect → InjectEffect

pub data Injected : Type 0 where
  failed : Text → Injected
  done : ℕ → Injected

abbrev no_llm_manager : Text
no_llm_manager = codes "LLM 管理器未初始化"

module _ {C A : Type 0} where
  abbrev pub is_guarded : ChatManager C A → Bool → Bool
  is_guarded m auto_listen = m.is_mqtt_transport && not auto_listen

  abbrev listens : ChatManager C A → Bool → List InjectEffect
  listens m auto_listen =
      if auto_listen && not m.is_mqtt_transport then on_listen_start ∷ [] else []

  abbrev guarded : ChatManager C A → Bool → ChatManager C A
  guarded m auto_listen = if is_guarded m auto_listen then begin_injected_speech_guard m else m

  abbrev policy_set : ChatManager C A → Bool → List InjectEffect
  policy_set m auto_listen =
      if m.tts_manager
      then set_turn_end_policy (injected_speech_tts_turn_end_policy auto_listen) ∷ []
      else []

  abbrev speech_failed :
      ChatManager C A → Bool → Text → ChatManager C A × List InjectEffect × Injected
  speech_failed m auto_listen error =
      if is_guarded m auto_listen
      then (
        clear_injected_speech_guard (guarded m auto_listen),
        policy_set m auto_listen ++ try_resume_pending_listen_start ∷ [],
        failed error,
      )
      else (guarded m auto_listen, policy_set m auto_listen, failed error)

  abbrev after_speech :
      ChatManager C A → Bool → Text → Option Text → ChatManager C A × List InjectEffect × Injected
  after_speech m auto_listen text (some error) = speech_failed m auto_listen error
  after_speech m auto_listen text none = (
    guarded m auto_listen,
    policy_set m auto_listen
        ++ add_text_to_tts_queue_with_on_start text m.is_mqtt_transport ∷ listens m auto_listen,
    done 1,
  )

  -- Once the path is prepared. `speech` is the error of the speech.
  unfoldable pub inject_prepared :
      ChatManager C A
      → Text
      → Bool
      → Bool
      → Option Text
      → ChatManager C A × List InjectEffect × Injected
  unfolding begin_injected_speech_guard clear_injected_speech_guard
  inject_prepared m text skip_llm auto_listen speech =
      if not skip_llm
      then (
        guarded m auto_listen,
        policy_set m auto_listen ++ enqueue_chat_text text ∷ listens m auto_listen,
        done 0,
      )
      else if not m.llm_manager
      then (guarded m auto_listen, policy_set m auto_listen, failed no_llm_manager)
      else after_speech m auto_listen text speech

  abbrev or_prepared :
      ChatManager C A
      → Text
      → Bool
      → Bool
      → Option Text
      → Option Text
      → ChatManager C A × List InjectEffect × Injected
  or_prepared m text skip_llm auto_listen (some error) speech = (m, [], failed error)
  or_prepared m text skip_llm auto_listen none speech =
      inject_prepared m text skip_llm auto_listen speech

  -- The errors are that of the preparation and that of the speech; the hook of the start of the speech
  -- is given on MQTT.
  unfoldable pub inject_message_inner :
      ChatManager C A
      → Text
      → Bool
      → Bool
      → Option Text
      → Option Text
      → ChatManager C A × List InjectEffect × Injected
  unfolding cancel_retained_session_cleanup inject_prepared
  inject_message_inner m text skip_llm auto_listen prepared speech =
      let (m1, cancelled) = cancel_retained_session_cleanup m in
      let (m2, es, r) = or_prepared m1 text skip_llm auto_listen prepared speech in
      (m2, map cancels cancelled ++ es, r)
