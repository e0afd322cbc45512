-- ===== src/Chat/Detect.antt =====
-- crates/xiaozhi-chat/src/detect.rs and tts_turn_policy.rs: what a wake word or a listen signal does.
pub mod Policies
mod Tests
use xiaozhi_esp32_server_rus.Common.{
  ℕ, ◌%◌, Bool, true, false, not, ◌&&◌, ◌||◌, List, [], ◌∷◌, if◌then◌else◌, keep, any, length,
  get_or,
}
use xiaozhi_esp32_server_rus.Common.Text.{
  Text, codes, text_eq, is_empty, is_ascii_punctuation, is_whitespace,
}

pub data ListenPhase : Type 0 where
  idle listening processing speaking : ListenPhase

pub data DetectAction : Type 0 where
  silent welcome llm : DetectAction

pub data TtsTurnEndPolicy : Type 0 where
  no_action goodbye_and_idle : TtsTurnEndPolicy

-- The fields of `AppConfig` that detect.rs reads.
pub record GreetingConfig : Type 0 where
  pub enable_greeting : Bool
  pub wakeup_words : List Text
  pub greeting_list : List Text

abbrev pub is_kept : ℕ → Bool
is_kept c = not (is_ascii_punctuation c) && not (is_whitespace c)

unfoldable pub remove_punctuation : Text → Text
remove_punctuation text = keep is_kept text

unfoldable pub is_wakeup_word : Text → List Text → Bool
is_wakeup_word text wakeup_words = any (λ w. text_eq w text) wakeup_words

abbrev pub is_realtime_mode : Text → Bool
is_realtime_mode mode = text_eq mode (codes "realtime")

abbrev is_listening_or_processing : ListenPhase → Bool
is_listening_or_processing listening = true
is_listening_or_processing processing = true
is_listening_or_processing _ = false

unfoldable pub is_auto_listen_active : Text → ListenPhase → Bool
is_auto_listen_active listen_mode listen_phase =
    text_eq listen_mode (codes "auto") && is_listening_or_processing listen_phase

unfoldable pub should_ignore_listen_start_during_welcome : Text → Bool → Bool
should_ignore_listen_start_during_welcome mode welcome_playing =
    not (is_realtime_mode mode) && welcome_playing

unfoldable pub should_ignore_listen_start_during_injected_speech : Text → Bool → Bool
should_ignore_listen_start_during_injected_speech mode injected_speech_guard =
    not (is_realtime_mode mode) && injected_speech_guard

unfoldable pub should_ignore_listen_start_during_speak : Text → Bool → Bool → Bool → Bool
should_ignore_listen_start_during_speak mode tts_active is_speaking has_prelisten_audio =
    not (is_realtime_mode mode) && (tts_active || is_speaking) && not has_prelisten_audio

unfoldable pub should_ignore_detect_during_injected_speech : Bool → Bool
should_ignore_detect_during_injected_speech injected_speech_guard = injected_speech_guard

unfoldable pub should_interrupt_output_on_listen_start : Text → Bool → Bool
should_interrupt_output_on_listen_start mode welcome_playing =
    not (is_realtime_mode mode && welcome_playing)

unfoldable pub resolve_detect_action : Text → GreetingConfig → Bool → Bool → Bool → DetectAction
resolve_detect_action text config welcome_already_spoken auto_listen_active welcome_playing =
    if is_empty text
    then silent
    else if welcome_playing
    then silent
    else if config.enable_greeting && is_wakeup_word text config.wakeup_words
    then (if not welcome_already_spoken
        then welcome
        else if auto_listen_active
        then silent
        else llm)
    else llm

abbrev default_greeting : Text
default_greeting = codes "你好，有啥好玩的."

greeting_of : List Text → ℕ → Text
greeting_of [] nanos = default_greeting
greeting_of (g ∷ gs) nanos = get_or (g ∷ gs) (nanos % length (g ∷ gs)) []

-- The clock in nanoseconds is an argument.
pub random_greeting : GreetingConfig → ℕ → Text
random_greeting config nanos = greeting_of config.greeting_list nanos

unfoldable pub injected_speech_tts_turn_end_policy : Bool → TtsTurnEndPolicy
injected_speech_tts_turn_end_policy auto_listen =
    if auto_listen then no_action else goodbye_and_idle
