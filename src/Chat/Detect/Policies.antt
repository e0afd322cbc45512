-- ===== src/Chat/Detect/Policies.antt =====
-- What the decisions of detect.rs come to.
use native.Mathlib.Nat.{mod-lt}
use xiaozhi_esp32_server_rus.Common.{
  ℕ, zero, suc, ◌%◌, ◌<◌, ◌≡◌, ◌≢◌, ◌↔◌, ◌⊎◌, refl, Bool, true, false, List, [], ◌∷◌, arith,
  if◌then◌else◌, length, get_or, all,
}
use xiaozhi_esp32_server_rus.Common.Text.{Text, is_empty}
use xiaozhi_esp32_server_rus.Chat.Detect.{
  silent, welcome, GreetingConfig, is_wakeup_word, resolve_detect_action, random_greeting,
  greeting_of, should_ignore_listen_start_during_welcome,
  should_ignore_listen_start_during_injected_speech, should_ignore_listen_start_during_speak,
  should_interrupt_output_on_listen_start, is_realtime_mode,
}

-- A detect greets exactly on a wake word with greetings enabled, while none is playing and none has
-- been spoken; it is silent exactly on an empty text, while a greeting plays, or on a repeated wake
-- word with greetings enabled while the device listens in auto mode.
resolve_detect_action_lem :
    (text : Text) (config : GreetingConfig) (spoken listening playing : Bool)
    → ((resolve_detect_action text config spoken listening playing ≡ welcome) ↔ (
        (is_empty text ≡ false)
        × (playing ≡ false)
        × (config.enable_greeting ≡ true)
        × (is_wakeup_word text config.wakeup_words ≡ true)
        × (spoken ≡ false)))
      × ((resolve_detect_action text config spoken listening playing ≡ silent) ↔ (
          (is_empty text ≡ true)
          ⊎ (playing ≡ true)
          ⊎ ((config.enable_greeting ≡ true)
              × (is_wakeup_word text config.wakeup_words ≡ true)
              × (spoken ≡ true)
              × (listening ≡ true))))
unfolding resolve_detect_action
resolve_detect_action_lem [] config spoken listening playing = ground arith
resolve_detect_action_lem (c ∷ text) config spoken listening playing = ground arith

-- In realtime mode no listen start is ignored, whatever the server plays at that time.
realtime_listen_start_heard :
    (mode : Text) (playing injected tts_active speaking audio : Bool)
    → is_realtime_mode mode ≡ true
    → (should_ignore_listen_start_during_welcome mode playing ≡ false)
      × (should_ignore_listen_start_during_injected_speech mode injected ≡ false)
      × (should_ignore_listen_start_during_speak mode tts_active speaking audio ≡ false)
unfolding should_ignore_listen_start_during_welcome
    should_ignore_listen_start_during_injected_speech should_ignore_listen_start_during_speak
realtime_listen_start_heard mode playing injected tts_active speaking audio h = ground arith

-- While the greeting plays, a listen start would interrupt the output exactly in the modes in which
-- it is ignored; when no greeting plays it is not ignored for that and interrupts.
interrupt-ignore :
    (mode : Text) (playing : Bool)
    → should_interrupt_output_on_listen_start mode playing
      ≡ (if playing then should_ignore_listen_start_during_welcome mode true else true)
unfolding should_interrupt_output_on_listen_start should_ignore_listen_start_during_welcome
interrupt-ignore mode playing = ground arith

get_or-all :
    (p : Text → Bool) (xs : List Text) (i : ℕ) (d : Text)
    → all p xs ≡ true
    → i < length xs
    → p (get_or xs i d) ≡ true
get_or-all p [] i d h lt = absurd (omega arith)
get_or-all p (x ∷ xs) zero d h lt = ground arith
get_or-all p (x ∷ xs) (suc i) d h lt = get_or-all p xs i d (ground arith) (omega arith)

greeting_of-all :
    (p : Text → Bool) (gs : List Text) (nanos : ℕ)
    → all p gs ≡ true
    → gs ≢ []
    → p (greeting_of gs nanos) ≡ true
unfolding greeting_of
greeting_of-all p [] nanos h n = absurd (n refl)
greeting_of-all p (g ∷ gs) nanos h n =
    get_or-all p (g ∷ gs) (nanos % length (g ∷ gs)) [] h (mod-lt nanos (omega arith))

-- Whatever holds of each configured greeting holds of the one that is spoken, when there is one.
random_greeting-all :
    (p : Text → Bool) (config : GreetingConfig) (nanos : ℕ)
    → all p config.greeting_list ≡ true
    → config.greeting_list ≢ []
    → p (random_greeting config nanos) ≡ true
unfolding random_greeting
random_greeting-all p config nanos h n = greeting_of-all p config.greeting_list nanos h n
