-- ===== src/Chat/Manager/Overlap.antt =====
-- Closing a session against what goes on beside it: the lock that a listen start holds, the task
-- that runs the close, and a session that is made before the close has ended.
use xiaozhi_esp32_server_rus.Common.{
  ℕ, zero, suc, ◌^◌, ◌<◌, ◌≡◌, refl, ap, ◌∙◌, Bool, true, false, ◌&&◌, ◌||◌, Option, none, some,
  List, [], ◌++◌, if_false, arith,
}
use xiaozhi_esp32_server_rus.Common.Text.{Text}
use xiaozhi_esp32_server_rus.Chat.Session.{ChatSession}
use xiaozhi_esp32_server_rus.Chat.Manager.{
  ChatManager, Effect, aborted, invalidate_times, invalidate_listen_start, begin_listen_start,
  stop_speaking_with_reason, is_current_listen_start,
}
use xiaozhi_esp32_server_rus.Chat.Manager.ListenStart.{
  StartEnv, Start, StartResult, handle_listen_start, take_over, stop_output, assign, prepare,
  connect, enter_listening, or_auto, is_speaking,
}
use xiaozhi_esp32_server_rus.Chat.Manager.ListenStart
use xiaozhi_esp32_server_rus.Chat.Manager.Listen.{
  returns, waits, on_listen_start, has_any, with_ensured, with_effects, start_session, finish_start,
  close_held, with_answers,
}
use xiaozhi_esp32_server_rus.Chat.Manager.Close.{
  SessionCloseReason, CloseCaller, holds_lock, task_of, is_shutdown, skipped, blocked, close_front,
  close_back, fatal_error, should_send_mqtt_goodbye,
}
use xiaozhi_esp32_server_rus.Chat.Manager.Retain.{force_recover_stuck_session_close}

module _ {C A : Type 0} where
  -- When a close first needs the lock of the session and finds it taken, it has shut the gate and
  -- aborted the watchdog and the timer of a retained session: so it never goes on if one of these two
  -- is the task that runs it.
  close_front-aborts :
      (m : ChatManager C A) (reason : SessionCloseReason)
      → m.session_closing ≡ false
      → (m' : ChatManager C A) × (close_front m reason holds_lock
          ≡ blocked m' (aborted m.idle_watchdog ++ aborted (task_of m.retained_cleanup)))
        × (m'.session_closing ≡ true)
  unfolding close_front
  close_front-aborts m reason h = (
    record m { session_closing = true; idle_watchdog = none; retained_cleanup = none },
    ground arith,
    refl,
  )

  -- The task of a close that comes after other calls have made a session: the new session stays,
  -- but its listen start is no longer current, and every listen start is turned away until the next
  -- hello, unless the reason was a shutdown.
  pub close_back-late :
      (ensure : ChatManager C A → Option (ChatManager C A)) (m : ChatManager C A)
      (reason : SessionCloseReason) (s : ChatSession C A) (id : Option Text) (mode : Option Text)
      (activated : Bool) (env : StartEnv) (answers : List (Option Bool)) (now_ms : ℕ)
      → is_shutdown reason ≡ false
      → m.listen_start_seq < 2 ^ 64
      → let m' = (close_back m reason s id).0 in
        (m'.session ≡ m.session)
        × (is_current_listen_start m' m.listen_start_seq ≡ false)
        × (on_listen_start ensure m' mode activated env answers now_ms ≡ returns m' [])
  unfolding close_back is_current_listen_start on_listen_start should_send_mqtt_goodbye
  close_back-late ensure m reason s id mode activated env answers now_ms h l =
      (ground arith, ground arith, ground arith)

  times-closing :
      (n : ℕ) (m : ChatManager C A) → (invalidate_times n m).session_closing ≡ m.session_closing
  unfolding invalidate_times
  times-closing zero m = refl
  times-closing (suc n) m = times-closing n (invalidate_listen_start m)

  prepare-closing :
      (m : ChatManager C A) (s : ChatSession C A) (seq : ℕ) (mode : Text) (effects : List Effect)
      (env : StartEnv)
      → (prepare m s seq mode effects env).manager.session_closing ≡ m.session_closing
  unfolding prepare connect enter_listening
  prepare-closing m s seq mode effects env = ground (
    arith,
    times-closing env.invalidated_3 (invalidate_times env.invalidated_2 m),
    times-closing env.invalidated_2 m,
  )

  assign-closing :
      (m : ChatManager C A) (s : ChatSession C A) (mode : Text) (effects : List Effect)
      (env : StartEnv)
      → (assign m s mode effects env).manager.session_closing ≡ m.session_closing
  unfolding assign begin_listen_start
  assign-closing m s mode effects env =
      let (m', seq) = begin_listen_start m mode in
      ground (
        arith,
        prepare-closing (invalidate_times env.invalidated_1 m') s seq mode effects env,
        times-closing env.invalidated_1 m',
      )

  stop_output-closing :
      (m : ChatManager C A) (s : ChatSession C A) (mode : Text) (need_stop : Bool)
      → (stop_output m s mode need_stop).0.session_closing ≡ m.session_closing
  unfolding stop_output stop_speaking_with_reason
  stop_output-closing m s mode need_stop = ground arith

  handle-closing :
      (m : ChatManager C A) (s : ChatSession C A) (mode : Option Text) (pre : Bool) (env : StartEnv)
      → (handle_listen_start m s mode pre env).manager.session_closing ≡ m.session_closing
  unfolding handle_listen_start take_over
  handle-closing m s mode pre env =
      let need = (m.tts_manager && env.tts_active) || is_speaking s.state.listen_phase in
      let (m', s', effects) = stop_output m s (or_auto mode) need in
      ground (
        arith,
        assign-closing m' s' (or_auto mode) effects env,
        stop_output-closing m s (or_auto mode) need,
      )

  pub skips :
      (m : ChatManager C A) (reason : SessionCloseReason) (caller : CloseCaller)
      → m.session_closing ≡ true
      → close_front m reason caller ≡ skipped m
  unfolding close_front
  skips m reason caller k = rw k refl

  recovers :
      (m : ChatManager C A)
      → m.session_closing ≡ true
      → force_recover_stuck_session_close m true ≡ none
  unfolding force_recover_stuck_session_close
  recovers m k = rw k refl

  start_waits :
      (ensure : ChatManager C A → Option (ChatManager C A)) (m : ChatManager C A)
      (s : ChatSession C A) (mode : Option Text) (env : StartEnv) (answers : List (Option Bool))
      (now_ms : ℕ)
      → m.need_fresh_hello ≡ false
      → ensure (record m { detect_llm_handle = none })
        ≡ some (record m { detect_llm_handle = none })
      → m.session ≡ some s
      → {m' : ChatManager C A} {effects : List Effect}
      → start_session (record m { detect_llm_handle = none }) (some s) mode env answers now_ms
        ≡ waits m' effects
      → on_listen_start ensure m mode true env answers now_ms
        ≡ waits m' (aborted m.detect_llm_handle ++ effects)
  unfolding on_listen_start
  start_waits ensure m s mode env answers now_ms h e p w =
      let m1 : ChatManager C A = record m { detect_llm_handle = none } in
      if_false _ _ h
      ∙ ap
          (λ (o : Option (ChatManager C A)).
            with_ensured o m1 (aborted m.detect_llm_handle) mode env answers now_ms)
          e
      ∙ ap
          (λ (o : Option (ChatSession C A)).
            with_effects (aborted m.detect_llm_handle) (start_session m1 o mode env answers now_ms))
          p
      ∙ ap (with_effects (aborted m.detect_llm_handle)) w

  fails :
      (m : ChatManager C A) (s : ChatSession C A) (mode : Option Text) (env : StartEnv)
      (answers : List (Option Bool)) (now_ms : ℕ) (m' : ChatManager C A) (effects : List Effect)
      → let r =
          handle_listen_start
            (record m { detect_llm_handle = none; pre_listen_pcm = [] })
            s
            mode
            (has_any m.pre_listen_pcm)
            env in
        r.result ≡ ListenStart.failed
        → close_front (record r.manager { session = some r.session }) fatal_error holds_lock
          ≡ blocked m' effects
        → start_session (record m { detect_llm_handle = none }) (some s) mode env answers now_ms
          ≡ waits m' (r.effects ++ effects)
  fails m s mode env answers now_ms m' effects f b =
      let taken = record m { detect_llm_handle = none; pre_listen_pcm = [] } in
      let r = handle_listen_start taken s mode (has_any m.pre_listen_pcm) env in
      let kept = with_answers m.pre_listen_pcm answers in
      ap (finish_start taken r kept now_ms env.now) f
      ∙ ap (close_held (record r.manager { session = some r.session }) r.effects) b

  -- A listen start that does not reach the recogniser never returns: it closes the session while it
  -- holds the session's lock. The gate stays shut then, so every other close is skipped, and the
  -- recovery from a close that is stuck waits for the same lock.
  pub listen_start_waits :
      (ensure : ChatManager C A → Option (ChatManager C A)) (m : ChatManager C A)
      (s : ChatSession C A) (mode : Option Text) (env : StartEnv) (answers : List (Option Bool))
      (now_ms : ℕ)
      → m.need_fresh_hello ≡ false
      → m.session_closing ≡ false
      → ensure (record m { detect_llm_handle = none })
        ≡ some (record m { detect_llm_handle = none })
      → m.session ≡ some s
      → (handle_listen_start
          (record m { detect_llm_handle = none; pre_listen_pcm = [] })
          s
          mode
          (has_any m.pre_listen_pcm)
          env).result
        ≡ ListenStart.failed
      → (m' : ChatManager C A) × (effects : List Effect) × (on_listen_start ensure m mode true env
            answers now_ms
          ≡ waits m' effects)
        × ((reason : SessionCloseReason) (caller : CloseCaller)
            → close_front m' reason caller ≡ skipped m')
        × (force_recover_stuck_session_close m' true ≡ none)
  unfolding on_listen_start
  listen_start_waits ensure m s mode env answers now_ms h g e p f =
      let taken = record m { detect_llm_handle = none; pre_listen_pcm = [] } in
      let r = handle_listen_start taken s mode (has_any m.pre_listen_pcm) env in
      let m1 = record r.manager { session = some r.session } in
      let (m', b, k) =
        close_front-aborts m1 fatal_error
          (handle-closing taken s mode (has_any m.pre_listen_pcm) env ∙ g) in
      (
        m',
        aborted m.detect_llm_handle
            ++ (r.effects ++ (aborted m1.idle_watchdog ++ aborted (task_of m1.retained_cleanup))),
        start_waits ensure m s mode env answers now_ms h e p (
            fails m s mode env answers now_ms m'
              (aborted m1.idle_watchdog ++ aborted (task_of m1.retained_cleanup)) f b),
        λ reason caller. skips m' reason caller k,
        recovers m' k,
      )
