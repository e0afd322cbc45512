-- ===== src/Chat/Manager/Detected.antt =====
-- `handle_listen_detect` and `handle_welcome` of session.rs: a wake word, or a text of the device.
use xiaozhi_esp32_server_rus.Common.{
  ℕ, ◌≡◌, Bool, true, false, ◌&&◌, ◌||◌, Option, none, some, List, [], ◌∷◌, ◌++◌, if◌then◌else◌,
  arith,
}
use xiaozhi_esp32_server_rus.Common.Text.{Text, trim, is_empty}
use xiaozhi_esp32_server_rus.Chat.Detect.{
  DetectAction, silent, welcome, llm, GreetingConfig, remove_punctuation, is_auto_listen_active,
  resolve_detect_action, random_greeting, should_ignore_detect_during_injected_speech,
}
use xiaozhi_esp32_server_rus.Chat.State.{clear_abort}
use xiaozhi_esp32_server_rus.Chat.Session.{ChatSession, begin_welcome_playback_wait}
use xiaozhi_esp32_server_rus.Chat.Manager.{
  ChatManager, Effect, told, cancel_pending_detect_llm, stop_speaking_with_reason,
  schedule_detect_llm, speak_welcome,
}
use xiaozhi_esp32_server_rus.Chat.Manager.ListenStart.{is_speaking}

pub record Detected (C A : Type 0) : Type 0 where
  pub manager : ChatManager C A
  pub session : ChatSession C A
  pub effects : List Effect
  pub is_ok : Bool

abbrev or_blank : Option Text → Text
or_blank none = []
or_blank (some t) = t

abbrev is_silent : DetectAction → Bool
is_silent silent = true
is_silent _ = false

module _ {C A : Type 0} where
  -- `nanos` is the clock that picks the greeting, `sender` the number of the new sender. Without a
  -- manager of the language model it is an error.
  handle_welcome : ChatManager C A → ChatSession C A → GreetingConfig → ℕ → ℕ → Detected C A
  unfolding clear_abort begin_welcome_playback_wait
  handle_welcome m s config nanos sender =
      let greeted = record s {
        state = record (clear_abort s.state) { welcome_speaking = true; welcome_playing = true };
      } in
      let (s', stale) = begin_welcome_playback_wait greeted sender in
      if m.llm_manager
      then record {
        manager = m;
        session = s';
        effects = told stale false ++ speak_welcome (random_greeting config nanos) ∷ [];
        is_ok = true;
      }
      else record { manager = m; session = s'; effects = told stale false; is_ok = false }

  act :
      DetectAction
      → ChatManager C A
      → ChatSession C A
      → Text
      → GreetingConfig
      → ℕ
      → ℕ
      → Detected C A
  unfolding handle_welcome
  act silent m s text config nanos sender = record {
    manager = m;
    session = s;
    effects = [];
    is_ok = true;
  }
  act welcome m s text config nanos sender = handle_welcome m s config nanos sender
  act llm m s text config nanos sender = record {
    manager = m;
    session = s;
    effects = schedule_detect_llm text ∷ [];
    is_ok = true;
  }

  abbrev preceded : List Effect → Detected C A → Detected C A
  preceded before r = record r { effects = before ++ r.effects }

  -- Output that is still going is stopped before the action.
  stop_and_act :
      DetectAction
      → ChatManager C A
      → ChatSession C A
      → Text
      → Bool
      → GreetingConfig
      → ℕ
      → ℕ
      → Detected C A
  stop_and_act action m s text tts_active config nanos sender =
      let (m', s', stops) =
        if (m.tts_manager && tts_active) || is_speaking s.state.listen_phase
        then stop_speaking_with_reason m s true true false
        else (m, s, []) in
      preceded stops (act action m' s' text config nanos sender)

  handle_listen_detect :
      ChatManager C A → ChatSession C A → Option Text → Bool → GreetingConfig → ℕ → ℕ → Detected C A
  unfolding cancel_pending_detect_llm should_ignore_detect_during_injected_speech
  handle_listen_detect m s text tts_active config nanos sender =
      let (m', cancelled) = cancel_pending_detect_llm m in
      let raw = trim (or_blank text) in
      let normalized = remove_punctuation raw in
      let active = is_auto_listen_active s.state.listen_mode s.state.listen_phase in
      let action =
        resolve_detect_action normalized config s.state.welcome_speaking active
          s.state.welcome_playing in
      let nothing : Detected C A = record {
        manager = m';
        session = s;
        effects = cancelled;
        is_ok = true;
      } in
      if is_empty raw
      then nothing
      else if is_silent action
      then nothing
      else if should_ignore_detect_during_injected_speech m'.injected_speech_guard
      then nothing
      else preceded cancelled (stop_and_act action m' s normalized tts_active config nanos sender)

  -- While a welcome plays, a detect does nothing but cancel what an earlier one had scheduled.
  detect-welcome :
      (m : ChatManager C A) (s : ChatSession C A) (text : Option Text) (tts_active : Bool)
      (config : GreetingConfig) (nanos sender : ℕ)
      → s.state.welcome_playing ≡ true
      → handle_listen_detect m s text tts_active config nanos sender ≡ record {
        manager = (cancel_pending_detect_llm m).0;
        session = s;
        effects = (cancel_pending_detect_llm m).1;
        is_ok = true;
      }
  unfolding handle_listen_detect resolve_detect_action
  detect-welcome m s text tts_active config nanos sender h = ground arith
