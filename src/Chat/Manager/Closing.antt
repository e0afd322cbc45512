-- ===== src/Chat/Manager/Closing.antt =====
-- What closing a session says and leaves, and where it can be stopped or come too late.
use xiaozhi_esp32_server_rus.Common.{
  ◌≡◌, refl, Bool, true, false, not, ◌&&◌, Option, none, some, List, [], ◌∷◌, ◌++◌, if◌then◌else◌,
  arith,
}
use xiaozhi_esp32_server_rus.Common.Text.{Text}
use xiaozhi_esp32_server_rus.Chat.Session.{ChatSession}
use xiaozhi_esp32_server_rus.Chat.Manager.{ChatManager, Effect, goodbye}
use xiaozhi_esp32_server_rus.Chat.Manager.Close.{
  SessionCloseReason, audio_idle_timeout, retained_idle_timeout, explicit_exit, fatal_error,
  manager_shutdown, send_mqtt_goodbye_for_close, apply_session_closed_side_effects,
  should_send_mqtt_goodbye, CloseCaller, holds_lock, runs_in, aborts_task, CloseEnd, ended, stalled,
  session_id, session_id_of, filled, or_else, Closed, CloseStep, skipped, blocked, no_session,
  closed, close_front, close_back, close_session_with_reason, reset_to_silent_state,
}

abbrev pub goodbyes : List Effect → List (Option Text)
goodbyes [] = []
goodbyes (goodbye id ∷ es) = id ∷ goodbyes es
goodbyes (e ∷ es) = goodbyes es

goodbyes-append : (xs ys : List Effect) → goodbyes (xs ++ ys) ≡ goodbyes xs ++ goodbyes ys
goodbyes-append [] ys = refl
goodbyes-append (goodbye id ∷ xs) ys = ground (arith, goodbyes-append xs ys)
goodbyes-append (x ∷ xs) ys = ground (arith, goodbyes-append xs ys)

abbrev pub is_some : {X : Type 0} → Option X → Bool
is_some none = false
is_some (some x) = true

or_else_twice : (x y : Option Text) → or_else (or_else x y) y ≡ or_else x y
or_else_twice none none = refl
or_else_twice none (some y) = refl
or_else_twice (some x) y = refl

module _ {C A : Type 0} where
  abbrev pub stalls : ChatManager C A → CloseCaller → Bool
  stalls m holds_lock = true
  stalls m (runs_in task waits) = aborts_task m task && m.tts_manager && waits

  abbrev pub said_by : CloseEnd C A → List Effect
  said_by (ended m effects) = effects
  said_by (stalled m effects) = effects

  reset-goodbyes :
      (m : ChatManager C A) (s : ChatSession C A) → goodbyes (reset_to_silent_state m s).2 ≡ []
  unfolding reset_to_silent_state
  reset-goodbyes m s = ground arith

  front-goodbyes :
      (m : ChatManager C A) (reason : SessionCloseReason) (caller : CloseCaller) (c : Closed C A)
      → close_front m reason caller ≡ closed c
      → (goodbyes c.effects ≡ [])
        × (c.manager.outbound ≡ m.outbound)
        × (c.closing_id ≡ session_id m)
        × (session_id c.manager ≡ filled m.hello_session_id)
  unfolding close_front should_send_mqtt_goodbye
  front-goodbyes m reason holds_lock c h = ground arith
  front-goodbyes m reason (runs_in task waits) c h = ground arith

  said-goodbyes :
      (m : ChatManager C A) (reason : SessionCloseReason) (id : Option Text)
      → goodbyes (send_mqtt_goodbye_for_close m reason id) ≡ (
          if should_send_mqtt_goodbye reason && m.outbound
          then (or_else id (session_id m)) ∷ []
          else [])
  unfolding send_mqtt_goodbye_for_close
  said-goodbyes m audio_idle_timeout id = ground arith
  said-goodbyes m retained_idle_timeout id = ground arith
  said-goodbyes m explicit_exit id = ground arith
  said-goodbyes m fatal_error id = ground arith
  said-goodbyes m manager_shutdown id = ground arith

  done-goodbyes :
      (m : ChatManager C A) (reason : SessionCloseReason)
      → goodbyes (apply_session_closed_side_effects m reason).1 ≡ []
  unfolding apply_session_closed_side_effects
  done-goodbyes m reason = ground arith

  back-goodbyes :
      (m : ChatManager C A) (reason : SessionCloseReason) (s : ChatSession C A) (id : Option Text)
      → goodbyes (close_back m reason s id).1 ≡ (
          if should_send_mqtt_goodbye reason && m.outbound
          then (or_else id (session_id m)) ∷ []
          else [])
  unfolding close_back apply_session_closed_side_effects
  back-goodbyes m reason s id =
      let said = send_mqtt_goodbye_for_close m reason id in
      let (m1, s1, silenced) = reset_to_silent_state m s in
      let done = (apply_session_closed_side_effects m1 reason).1 in
      ground (
        arith,
        goodbyes-append said (silenced ++ done),
        goodbyes-append silenced done,
        reset-goodbyes m s,
        said-goodbyes m reason id,
        done-goodbyes m1 reason,
      )

  front-open :
      (m : ChatManager C A) (reason : SessionCloseReason) (caller : CloseCaller) (c : Closed C A)
      → close_front m reason caller ≡ closed c
      → (m.session_closing ≡ false) × (is_some m.session ≡ true) × (stalls m caller ≡ false)
  unfolding close_front
  front-open m reason holds_lock c h = ground arith
  front-open m reason (runs_in task waits) c h = ground arith

  front-no_session :
      (m m' : ChatManager C A) (reason : SessionCloseReason) (caller : CloseCaller)
      (effects : List Effect)
      → close_front m reason caller ≡ no_session m' effects
      → (goodbyes effects ≡ []) × (is_some m.session ≡ false)
  unfolding close_front
  front-no_session m m' reason holds_lock effects h = ground arith
  front-no_session m m' reason (runs_in task waits) effects h = ground arith

  front-skipped :
      (m m' : ChatManager C A) (reason : SessionCloseReason) (caller : CloseCaller)
      → close_front m reason caller ≡ skipped m'
      → m.session_closing ≡ true
  unfolding close_front
  front-skipped m m' reason holds_lock h = ground arith
  front-skipped m m' reason (runs_in task waits) h = ground arith

  front-blocked :
      (m m' : ChatManager C A) (reason : SessionCloseReason) (caller : CloseCaller)
      (effects : List Effect)
      → close_front m reason caller ≡ blocked m' effects
      → (goodbyes effects ≡ []) × (stalls m caller ≡ true)
  unfolding close_front
  front-blocked m m' reason holds_lock effects h = ground arith
  front-blocked m m' reason (runs_in task waits) effects h = ground arith

  session_id_twice :
      (m : ChatManager C A) → or_else (session_id m) (filled m.hello_session_id) ≡ session_id m
  unfolding session_id
  session_id_twice m = or_else_twice (filled (session_id_of m.session)) (filled m.hello_session_id)

  says :
      (m : ChatManager C A) (reason : SessionCloseReason) (caller : CloseCaller)
      (step : CloseStep C A)
      → close_front m reason caller ≡ step
      → goodbyes (said_by (close_session_with_reason m reason caller)) ≡ (
          if not m.session_closing
            && not (stalls m caller)
            && is_some m.session
            && should_send_mqtt_goodbye reason
            && m.outbound
          then session_id m ∷ []
          else [])
  unfolding close_session_with_reason
  says m reason caller (skipped m') e = ground (arith, front-skipped m m' reason caller e)
  says m reason caller (blocked m' effects) e =
      ground (arith, front-blocked m m' reason caller effects e)
  says m reason caller (no_session m' effects) e =
      ground (arith, front-no_session m m' reason caller effects e)
  says m reason caller (closed c) e = ground (
    arith,
    front-open m reason caller c e,
    front-goodbyes m reason caller c e,
    goodbyes-append c.effects (close_back c.manager reason c.taken c.closing_id).1,
    back-goodbyes c.manager reason c.taken c.closing_id,
    session_id_twice m,
  )

  -- Closing a session says goodbye exactly once, under the session's id or else that of the last
  -- hello, when no other close is under way, the caller does not stall, there is a session and a
  -- channel to the device, and the reason is one of those that the device is told; otherwise it says
  -- nothing. A caller stalls when it holds the lock of the session itself, or when it is the watchdog
  -- or the timer of a retained session, which the close aborts, and the interruption of the speech
  -- has to wait.
  pub close-goodbyes :
      (m : ChatManager C A) (reason : SessionCloseReason) (caller : CloseCaller)
      → goodbyes (said_by (close_session_with_reason m reason caller)) ≡ (
          if not m.session_closing
            && not (stalls m caller)
            && is_some m.session
            && should_send_mqtt_goodbye reason
            && m.outbound
          then session_id m ∷ []
          else [])
  close-goodbyes m reason caller = says m reason caller (close_front m reason caller) refl
