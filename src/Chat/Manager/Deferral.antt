-- ===== src/Chat/Manager/Deferral.antt =====
-- A listen start that comes while something is spoken, and its resumption.
use xiaozhi_esp32_server_rus.Common.{
  ℕ, ◌≡◌, refl, ◌⊎◌, inl, inr, Bool-cases, Bool, true, false, ◌&&◌, ◌||◌, Option, none, some, List,
  [], if_false, arith, ◌∙◌, ap,
}
use xiaozhi_esp32_server_rus.Common.Text.{Text}
use xiaozhi_esp32_server_rus.Chat.Session.{
  ChatSession, defer_listen_start, take_pending_listen_start_mode,
}
use xiaozhi_esp32_server_rus.Chat.Manager.{
  ChatManager, Effect, invalidate_times, begin_listen_start,
}
use xiaozhi_esp32_server_rus.Chat.Manager.ListenStart.{
  StartEnv, Start, handle_listen_start, take_over, stop_output, assign, prepare, connect,
  enter_listening, or_auto, is_speaking,
}
use xiaozhi_esp32_server_rus.Chat.Manager.Listen.{
  on_listen_start, try_resume_pending_listen_start, resume_in,
}
use xiaozhi_esp32_server_rus.Chat.Manager.Pending.{is_deferred}
use xiaozhi_esp32_server_rus.Chat.Manager.Resumed.{
  resumed_start, then_resume, listen-LeavesNone, resume-LeavesNone,
}

module _ {C A : Type 0} where
  prepare-deferred :
      (m : ChatManager C A) (s : ChatSession C A) (seq : ℕ) (mode : Text) (effects : List Effect)
      (env : StartEnv)
      → is_deferred (prepare m s seq mode effects env).result ≡ false
  unfolding prepare connect enter_listening
  prepare-deferred m s seq mode effects env = ground arith

  assign-deferred :
      (m : ChatManager C A) (s : ChatSession C A) (mode : Text) (effects : List Effect)
      (env : StartEnv)
      → is_deferred (assign m s mode effects env).result ≡ false
  unfolding assign
  assign-deferred m s mode effects env =
      let (m', seq) = begin_listen_start m mode in
      ground
        (arith, prepare-deferred (invalidate_times env.invalidated_1 m') s seq mode effects env)

  take_over-deferred :
      (m : ChatManager C A) (s : ChatSession C A) (mode : Text) (need_stop : Bool) (env : StartEnv)
      → is_deferred (take_over m s mode need_stop env).result ≡ false
  unfolding take_over
  take_over-deferred m s mode need_stop env =
      let (m', s', effects) = stop_output m s mode need_stop in
      assign-deferred m' s' mode effects env

  start-deferred :
      (m : ChatManager C A) (s : ChatSession C A) (mode : Option Text) (pre : Bool) (env : StartEnv)
      → is_deferred (handle_listen_start m s mode pre env).result ≡ true
      → let r = handle_listen_start m s mode pre env in
        (r.manager ≡ m) × (r.effects ≡ []) × (r.session ≡ defer_listen_start s (or_auto mode))
  unfolding handle_listen_start
  start-deferred m s mode pre env h =
      let need = (m.tts_manager && env.tts_active) || is_speaking s.state.listen_phase in
      ground (arith, take_over-deferred m s (or_auto mode) need env)

  -- The manager with a session that has no mode to resume.
  abbrev pub with_session : ChatManager C A → ChatSession C A → ChatManager C A
  with_session m s = record m { session = some (record s { pending_listen_start_mode = none }) }

  resume_pending :
      (ensure : ChatManager C A → Option (ChatManager C A)) (m : ChatManager C A)
      (s : ChatSession C A) (mode : Text) (activated : Bool) (env : StartEnv)
      (answers : List (Option Bool)) (now_ms : ℕ)
      → m.session ≡ some (defer_listen_start s mode)
      → (m.injected_speech_guard || s.state.welcome_playing) ≡ false
      → m.need_fresh_hello ≡ false
      → try_resume_pending_listen_start ensure m activated env answers now_ms
        ≡ on_listen_start ensure (with_session m s) (some mode) activated env answers now_ms
  unfolding try_resume_pending_listen_start defer_listen_start take_pending_listen_start_mode
  resume_pending ensure m s mode activated env answers now_ms e g h =
      ap (λ (o : Option (ChatSession C A)). resume_in ensure m o activated env answers now_ms) e
      ∙ if_false _ _ g
      ∙ if_false _ _ h

  -- The listen start of the resumption.
  abbrev pub resumption : ChatManager C A → ChatSession C A → Text → StartEnv → Start C A
  resumption m s mode env =
      resumed_start (with_session m s) (record s { pending_listen_start_mode = none }) mode env

  listen-again :
      (ensure : ChatManager C A → Option (ChatManager C A)) (m : ChatManager C A)
      (s : ChatSession C A) (mode : Text) (activated again : Bool) (env later : StartEnv)
      (answers answers' : List (Option Bool)) (now_ms later_ms : ℕ)
      → ensure (record (with_session m s) { detect_llm_handle = none })
        ≡ some (record (with_session m s) { detect_llm_handle = none })
      → let p =
          on_listen_start ensure (with_session m s) (some mode) activated env answers now_ms in
        (is_deferred (resumption m s mode env).result ≡ true)
        ⊎ (then_resume ensure p again later answers' later_ms ≡ p)
  listen-again ensure m s mode activated again env later answers answers' now_ms later_ms k =
      elim (Bool-cases (is_deferred (resumption m s mode env).result)) [
        | inl d ↦ inl d
        | inr d ↦ inr (
            resume-LeavesNone ensure _ again later answers' later_ms (
              listen-LeavesNone ensure (with_session m s)
                (record s { pending_listen_start_mode = none }) mode activated env answers now_ms
                refl refl k d))
      ]

  -- A listen start that is put off changes nothing and has no effect but that its mode is kept. When
  -- the guard of a speech is down, no welcome plays and no hello is wanted, the next resumption is a
  -- listen start in that mode; and a further one, on what that start leaves, changes nothing and has
  -- no effect, unless the start is put off again. `ensure_session` leaves the session as it is.
  pub deferred-resumed :
      (ensure : ChatManager C A → Option (ChatManager C A)) (m m' : ChatManager C A)
      (s : ChatSession C A) (mode : Option Text) (pre activated again : Bool)
      (env env' later : StartEnv) (answers answers' : List (Option Bool)) (now_ms later_ms : ℕ)
      → is_deferred (handle_listen_start m s mode pre env).result ≡ true
      → m'.session ≡ some (handle_listen_start m s mode pre env).session
      → (m'.injected_speech_guard || s.state.welcome_playing) ≡ false
      → m'.need_fresh_hello ≡ false
      → ensure (record (with_session m' s) { detect_llm_handle = none })
        ≡ some (record (with_session m' s) { detect_llm_handle = none })
      → let r = handle_listen_start m s mode pre env in
        let p =
          on_listen_start ensure
            (with_session m' s)
            (some (or_auto mode))
            activated
            env'
            answers
            now_ms in
        (r.manager ≡ m)
        × (r.effects ≡ [])
        × (r.session ≡ defer_listen_start s (or_auto mode))
        × (try_resume_pending_listen_start ensure m' activated env' answers now_ms ≡ p)
        × ((is_deferred (resumption m' s (or_auto mode) env').result ≡ true)
            ⊎ (then_resume ensure p again later answers' later_ms ≡ p))
  deferred-resumed ensure m m' s mode pre activated again env env' later answers answers' now_ms
        later_ms d e g h k =
      let (a, b, c) = start-deferred m s mode pre env d in
      (
        a,
        b,
        c,
        resume_pending ensure m' s (or_auto mode) activated env' answers now_ms
            (e ∙ ap (λ (x : ChatSession C A). some x) c) g h,
        listen-again ensure m' s (or_auto mode) activated again env' later answers answers' now_ms
            later_ms k,
      )
