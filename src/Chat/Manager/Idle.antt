-- ===== src/Chat/Manager/Idle.antt =====
-- session_lifecycle.rs: what an idle timeout does to the session, and the watchdog of asr_manager.rs
-- that sets it off.
use xiaozhi_esp32_server_rus.Common.{
  ℕ, ◌≡◌, refl, Bool, true, false, ◌||◌, Option, none, some, List, [], ◌∷◌, ◌++◌, if◌then◌else◌,
  if_true, if_false, arith, ap, ◌∙◌,
}
use xiaozhi_esp32_server_rus.Chat.State.{clear_audio_idle_timeout_pending}
use xiaozhi_esp32_server_rus.Chat.Session.{ChatSession}
use xiaozhi_esp32_server_rus.Chat.Asr.Pipeline.{has_open_audio_input, on_voice_silence}
use xiaozhi_esp32_server_rus.Chat.Asr.Watchdog.{
  Action, nothing, close_if_pending, trigger, tick, is_output_phase,
  should_count_audio_idle_timeout_for,
}
use xiaozhi_esp32_server_rus.Chat.Manager.{
  ChatManager, Effect, abort_task, aborted, interrupt_and_stop,
}
use xiaozhi_esp32_server_rus.Chat.Manager.Closing.{goodbyes}
use xiaozhi_esp32_server_rus.Chat.Manager.Overlap.{skips}
use xiaozhi_esp32_server_rus.Chat.Manager.Close.{
  SessionCloseReason, audio_idle_timeout, CloseCaller, runs_in, CloseEnd, ended, stalled, task_of,
  skipped, close_front, close_session_with_reason,
}

module _ {C A : Type 0} where
  abbrev pub without_timeout : ChatSession C A → ChatSession C A
  without_timeout s = record s { state = clear_audio_idle_timeout_pending s.state }

  abbrev close_pending : ChatManager C A → Option (ChatSession C A) → CloseCaller → CloseEnd C A
  close_pending m none caller = ended m []
  close_pending m (some s) caller =
      if s.state.audio_idle.timeout_pending
      then close_session_with_reason (record m { session = some (without_timeout s) })
          audio_idle_timeout caller
      else ended m []

  unfoldable pub close_audio_idle_timeout_if_pending : ChatManager C A → CloseCaller → CloseEnd C A
  unfolding clear_audio_idle_timeout_pending
  close_audio_idle_timeout_if_pending m caller = close_pending m m.session caller

  abbrev trigger_in : ChatManager C A → Option (ChatSession C A) → Bool → CloseCaller → CloseEnd C A
  trigger_in m none tts_active caller = close_session_with_reason m audio_idle_timeout caller
  trigger_in m (some s) tts_active caller =
      if tts_active
        || s.state.welcome_playing
        || s.state.welcome_speaking
        || is_output_phase s.state.listen_phase
      then ended (record m { session = some (without_timeout s) }) []
      else if s.state.audio_idle.timeout_pending
      then close_audio_idle_timeout_if_pending m caller
      else if has_open_audio_input s.asr_pipeline
      then ended
          (record m {
            session = some (record s { asr_pipeline = (on_voice_silence s.asr_pipeline).0 });
          })
          []
      else close_session_with_reason m audio_idle_timeout caller

  unfoldable pub trigger_audio_idle_timeout : ChatManager C A → Bool → CloseCaller → CloseEnd C A
  unfolding has_open_audio_input on_voice_silence
  trigger_audio_idle_timeout m tts_active caller = trigger_in m m.session tts_active caller

  abbrev acted : ChatManager C A → Action → Bool → CloseCaller → CloseEnd C A
  acted m nothing tts_active caller = ended m []
  acted m close_if_pending tts_active caller = close_audio_idle_timeout_if_pending m caller
  acted m trigger tts_active caller = trigger_audio_idle_timeout m tts_active caller

  abbrev tick_in :
      ChatManager C A
      → Option (ChatSession C A)
      → ℕ
      → ℕ
      → Bool
      → ℕ
      → CloseCaller
      → Option (CloseEnd C A × ℕ)
  tick_in m none stuck threshold tts_active now caller = none
  tick_in m (some s) stuck threshold tts_active now caller =
      let (state, stuck', action) = tick s.state s.asr_pipeline stuck threshold tts_active now in
      some (
        acted (record m { session = some (record s { state = state }) }) action tts_active caller,
        stuck',
      )

  -- A tick of the watchdog, in the task `caller`, with what it asks for; `none` when the session is
  -- gone and it returns. When the tick stalls, the loop does not go on.
  unfoldable pub watchdog_tick :
      ChatManager C A → ℕ → ℕ → Bool → ℕ → CloseCaller → Option (CloseEnd C A × ℕ)
  watchdog_tick m stuck threshold tts_active now caller =
      tick_in m m.session stuck threshold tts_active now caller

  tick_state :
      (s : ChatSession C A) (stuck threshold : ℕ) (tts_active : Bool) (now : ℕ)
      → let t = tick s.state s.asr_pipeline stuck threshold tts_active now in
        t.2 ≡ trigger
        → (t.0.audio_idle.timeout_pending ≡ true)
          × ((tts_active
                || t.0.welcome_playing
                || t.0.welcome_speaking
                || is_output_phase t.0.listen_phase)
              ≡ false)
  unfolding tick should_count_audio_idle_timeout_for
  tick_state s stuck threshold tts_active now h = ground arith

  trigger-pending :
      (m : ChatManager C A) (s : ChatSession C A) (tts_active : Bool) (caller : CloseCaller)
      → s.state.audio_idle.timeout_pending ≡ true
      → (tts_active
          || s.state.welcome_playing
          || s.state.welcome_speaking
          || is_output_phase s.state.listen_phase)
        ≡ false
      → trigger_audio_idle_timeout (record m { session = some s }) tts_active caller
        ≡ close_session_with_reason
            (record m { session = some (without_timeout s) })
            audio_idle_timeout
            caller
  unfolding trigger_audio_idle_timeout close_audio_idle_timeout_if_pending
  trigger-pending m s tts_active caller p o = if_false _ _ o ∙ if_true _ _ p ∙ if_true _ _ p

  -- When a tick finds that the idle time is over, it goes on to close the session, also when a turn
  -- is open: the tick has marked the timeout as pending itself.
  tick-close :
      (m : ChatManager C A) (s : ChatSession C A) (stuck threshold : ℕ) (tts_active : Bool)
      (now : ℕ) (caller : CloseCaller)
      → m.session ≡ some s
      → (tick s.state s.asr_pipeline stuck threshold tts_active now).2 ≡ trigger
      → let t = tick s.state s.asr_pipeline stuck threshold tts_active now in
        watchdog_tick m stuck threshold tts_active now caller
        ≡ some (
          close_session_with_reason
              (record m { session = some (without_timeout (record s { state = t.0 })) })
              audio_idle_timeout
              caller,
          t.1,
        )
  unfolding watchdog_tick
  tick-close m s stuck threshold tts_active now caller e h =
      let (s', stuck', action) = tick s.state s.asr_pipeline stuck threshold tts_active now in
      let (p, o) = tick_state s stuck threshold tts_active now h in
      let marked = record s { state = s' } in
      let m' = record m { session = some marked } in
      ap (λ (x : Option (ChatSession C A)). tick_in m x stuck threshold tts_active now caller) e
      ∙ ap (λ (x : Action). some (acted m' x tts_active caller, stuck')) h
      ∙ ap (λ (x : CloseEnd C A). some (x, stuck')) (trigger-pending m marked tts_active caller p o)

  -- What the close of the watchdog itself leaves.
  abbrev pub left : ChatManager C A → ChatSession C A → ChatManager C A
  left m s = record m {
    session = some s;
    session_closing = true;
    idle_watchdog = none;
    retained_cleanup = none;
  }

  own-close :
      (m : ChatManager C A) (s : ChatSession C A) (reason : SessionCloseReason) (w : ℕ)
      → m.idle_watchdog ≡ some w
      → m.tts_manager ≡ true
      → m.session_closing ≡ false
      → (effects : List Effect) × (goodbyes effects ≡ [])
        × (close_session_with_reason (record m { session = some s }) reason (runs_in w true)
            ≡ stalled (left m s) effects)
  unfolding close_session_with_reason close_front
  own-close m s reason w i t g = (
    (abort_task w ∷ aborted (task_of m.retained_cleanup)) ++ interrupt_and_stop true ∷ [],
    ground arith,
    ground arith,
  )

  -- When a tick of the watchdog finds that the idle time is over, no other close is under way, and the
  -- manager of the speech has to wait for its sender loop to interrupt it, the tick never ends: it goes
  -- on to close the session, also when a turn is open, since it has marked the timeout as pending
  -- itself; and the close aborts the watchdog that runs it. The device is told no goodbye, the session
  -- stays in its place, no watchdog is left, and every later close is skipped.
  pub watchdog_tick-stalls :
      (m : ChatManager C A) (s : ChatSession C A) (stuck threshold : ℕ) (tts_active : Bool)
      (now w : ℕ)
      → m.session ≡ some s
      → (tick s.state s.asr_pipeline stuck threshold tts_active now).2 ≡ trigger
      → m.idle_watchdog ≡ some w
      → m.tts_manager ≡ true
      → m.session_closing ≡ false
      → let t = tick s.state s.asr_pipeline stuck threshold tts_active now in
        let m' = left m (without_timeout (record s { state = t.0 })) in
        (effects : List Effect) × (goodbyes effects ≡ [])
        × (watchdog_tick m stuck threshold tts_active now (runs_in w true)
            ≡ some (stalled m' effects, t.1))
        × ((reason : SessionCloseReason) (caller : CloseCaller)
            → close_front m' reason caller ≡ skipped m')
  watchdog_tick-stalls m s stuck threshold tts_active now w e h i t g =
      let (s', stuck', action) = tick s.state s.asr_pipeline stuck threshold tts_active now in
      let s1 = without_timeout (record s { state = s' }) in
      let (effects, quiet, c) = own-close m s1 audio_idle_timeout w i t g in
      (
        effects,
        quiet,
        tick-close m s stuck threshold tts_active now (runs_in w true) e h
            ∙ ap (λ (x : CloseEnd C A). some (x, stuck')) c,
        λ reason caller. skips (left m s1) reason caller refl,
      )
