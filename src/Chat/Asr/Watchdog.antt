-- ===== src/Chat/Asr/Watchdog.antt =====
-- `run_audio_idle_timeout_watchdog` of asr_manager.rs: a tick each second. What the session shows is
-- read at the tick; the clock's own fields are those of its state.
use xiaozhi_esp32_server_rus.Common.{
  ℕ, ◌+◌, ◌-◌, ◌/◌, ◌^◌, ◌<◌, ◌≡◌, Bool, true, false, not, ◌&&◌, ◌||◌, List, [], ◌∷◌, length, leb,
  ◌==◌, if◌then◌else◌, arith,
}
use xiaozhi_esp32_server_rus.Chat.AudioIdle
use xiaozhi_esp32_server_rus.Chat.State.{
  ClientState, uses_audio_idle_clock, audio_idle_elapsed, mark_audio_idle_timeout_pending,
}
use xiaozhi_esp32_server_rus.Chat.Detect.{ListenPhase, speaking, processing}
use xiaozhi_esp32_server_rus.Chat.Asr.Pipeline.{AsrPipeline}

abbrev pending_force_close_ticks : ℕ
pending_force_close_ticks = 5

abbrev u64_max : ℕ
u64_max = 2 ^ 64 - 1

abbrev pub is_output_phase : ListenPhase → Bool
is_output_phase speaking = true
is_output_phase processing = true
is_output_phase _ = false

module _ {C : Type 0} where
  unfoldable pub should_count_audio_idle_timeout_for : ClientState C → Bool → Bool
  should_count_audio_idle_timeout_for s tts_active =
      if tts_active
      then false
      else if s.welcome_playing || s.welcome_speaking
      then false
      else not (is_output_phase s.listen_phase)

-- `max_idle_duration_ms`
max_idle_duration_ms : ℕ → ℕ
max_idle_duration_ms configured = if configured == 0 then u64_max else configured

pub data Action : Type 0 where
  nothing : Action
  close_if_pending : Action
  trigger : Action

abbrev is_trigger : Action → Bool
is_trigger trigger = true
is_trigger _ = false

abbrev is_close : Action → Bool
is_close close_if_pending = true
is_close _ = false

module _ {C A : Type 0} where
  -- Whether a tick marks the timeout: the state behind it, and the answer.
  examine : ClientState C → AsrPipeline A → ℕ → Bool → ℕ → ClientState C × Bool
  unfolding should_count_audio_idle_timeout_for uses_audio_idle_clock audio_idle_elapsed
      mark_audio_idle_timeout_pending AudioIdle.mark_timeout_pending
  examine s p threshold tts_active now =
      if not (uses_audio_idle_clock s)
        || not (AudioIdle.started s.audio_idle)
        || s.audio_idle.paused
      then (s, false)
      else if not (should_count_audio_idle_timeout_for s tts_active)
      then (s, false)
      else if p.received_text_in_turn
      then (s, false)
      else if p.voice.client_voice_stop
      then (s, false)
      else if not (threshold == u64_max) && leb threshold (audio_idle_elapsed s now)
      then mark_audio_idle_timeout_pending s
      else (s, false)

  -- One tick: the state, the ticks for which the timeout has been pending, and the action.
  unfoldable pub tick :
      ClientState C → AsrPipeline A → ℕ → ℕ → Bool → ℕ → ClientState C × ℕ × Action
  unfolding examine
  tick s p stuck threshold tts_active now =
      if s.audio_idle.timeout_pending
      then if leb pending_force_close_ticks (stuck + 1)
        then (s, 0, close_if_pending)
        else (s, stuck + 1, nothing)
      else (let (s', should_trigger) = examine s p threshold tts_active now in
          (s', 0, if should_trigger then trigger else nothing))

  -- A tick triggers the timeout exactly when it is not pending, the mode uses the clock, the clock runs, nothing is
  -- played or processed, the turn has no text and its voice was not stopped, and the clock has
  -- reached a threshold that is set. It is pending behind such a tick, and otherwise as before.
  tick-triggers :
      (s : ClientState C) (p : AsrPipeline A) (stuck threshold : ℕ) (tts_active : Bool) (now : ℕ)
      → let r = tick s p stuck threshold tts_active now in
        let triggers =
          not s.audio_idle.timeout_pending
          && uses_audio_idle_clock s
          && AudioIdle.started s.audio_idle
          && not s.audio_idle.paused
          && should_count_audio_idle_timeout_for s tts_active
          && not p.received_text_in_turn
          && not p.voice.client_voice_stop
          && not (threshold == u64_max)
          && leb threshold (audio_idle_elapsed s now) in
        (is_trigger r.2 ≡ triggers)
        × (r.0.audio_idle.timeout_pending ≡ (s.audio_idle.timeout_pending || triggers))
  unfolding tick
  tick-triggers s p stuck threshold tts_active now = ground arith

  -- Ticks in a row, each with what it reads: how many of them close the session.
  unfoldable closings : ClientState C → AsrPipeline A → ℕ → ℕ → List (Bool × ℕ) → ℕ
  closings s p stuck threshold [] = 0
  closings s p stuck threshold ((tts_active, now) ∷ xs) =
      let (s', stuck', action) = tick s p stuck threshold tts_active now in
      (if is_close action then 1 else 0) + closings s' p stuck' threshold xs

  closings_from :
      (s : ClientState C) (p : AsrPipeline A) (stuck threshold : ℕ) (xs : List (Bool × ℕ))
      → s.audio_idle.timeout_pending ≡ true
      → stuck < 5
      → closings s p stuck threshold xs ≡ (stuck + length xs) / 5
  unfolding closings tick
  closings_from s p stuck threshold [] h l = omega arith
  closings_from s p stuck threshold ((tts_active, now) ∷ xs) h l =
      ground (arith, closings_from s p 0 threshold xs, closings_from s p (stuck + 1) threshold xs)

  -- While a timeout stays pending, every fifth tick asks for the session to be closed, whatever the
  -- other ticks read.
  closings-pending :
      (s : ClientState C) (p : AsrPipeline A) (threshold : ℕ) (xs : List (Bool × ℕ))
      → s.audio_idle.timeout_pending ≡ true
      → closings s p 0 threshold xs ≡ length xs / 5
  closings-pending s p threshold xs h =
      omega (arith, closings_from s p 0 threshold xs h (omega arith))
