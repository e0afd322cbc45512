-- ===== src/Chat/Detect/Tests.antt =====
-- The decisions of detect.rs at the inputs of its tests.
use xiaozhi_esp32_server_rus.Common.{◌≡◌, refl, true, false, [], ◌∷◌}
use xiaozhi_esp32_server_rus.Common.Text.{codes, text_eq, is_whitespace, is_ascii_punctuation}
use xiaozhi_esp32_server_rus.Chat.Detect.{
  silent, welcome, GreetingConfig, processing, goodbye_and_idle, remove_punctuation, is_wakeup_word,
  is_realtime_mode, is_auto_listen_active, resolve_detect_action,
  injected_speech_tts_turn_end_policy,
}

abbrev config : GreetingConfig
config = record {
  enable_greeting = true;
  wakeup_words = codes "小智" ∷ [];
  greeting_list = codes "Hi" ∷ codes "Hello" ∷ [];
}

silent_during_welcome : resolve_detect_action (codes "小智") config true false true ≡ silent
unfolding resolve_detect_action
silent_during_welcome = refl

greets_first : resolve_detect_action (codes "小智") config false false false ≡ welcome
unfolding resolve_detect_action is_wakeup_word text_eq
greets_first = refl

stripped : remove_punctuation (codes "a, b!") ≡ codes "ab"
unfolding remove_punctuation is_whitespace is_ascii_punctuation
stripped = refl

auto_listens : is_auto_listen_active (codes "auto") processing ≡ true
unfolding is_auto_listen_active text_eq
auto_listens = refl

injected_ends : injected_speech_tts_turn_end_policy false ≡ goodbye_and_idle
unfolding injected_speech_tts_turn_end_policy
injected_ends = refl

realtime : is_realtime_mode (codes "realtime") ≡ true
unfolding text_eq
realtime = refl
