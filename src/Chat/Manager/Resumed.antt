-- ===== src/Chat/Manager/Resumed.antt =====
-- What a listen start leaves of the mode that is kept, and the resumption behind it.
use xiaozhi_esp32_server_rus.Common.{
  ℕ, ◌≡◌, refl, ap, ◌∙◌, Bool, true, false, not, ◌||◌, Option, none, some, List, [], arith, sym,
  if_true, if_false, Bool-cases, inl, inr, append-nil, if◌then◌else◌,
}
use xiaozhi_esp32_server_rus.Common.Text.{Text}
use xiaozhi_esp32_server_rus.Chat.Session.{ChatSession, take_pending_listen_start_mode}
use xiaozhi_esp32_server_rus.Chat.Manager.{
  ChatManager, Effect, invalidate_times, begin_listen_start, stop_speaking_with_reason,
}
use xiaozhi_esp32_server_rus.Chat.Manager
use xiaozhi_esp32_server_rus.Chat.Manager.Close.{close_front, fatal_error, holds_lock}
use xiaozhi_esp32_server_rus.Chat.Manager.ListenStart.{
  StartEnv, Start, StartResult, deferred, handle_listen_start, take_over, stop_output, assign,
  prepare, connect, enter_listening, or_auto, is_speaking,
}
use xiaozhi_esp32_server_rus.Chat.Manager.ListenStart
use xiaozhi_esp32_server_rus.Chat.Manager.Listen.{
  Progress, returns, waits, try_resume_pending_listen_start, on_listen_start, resume_in, has_any,
  with_answers, with_ensured, resume_mode, with_effects, start_session, finish_start, close_held,
}
use xiaozhi_esp32_server_rus.Chat.Manager.Pending.{is_deferred, handle-pending, flush-pending}

module _ {C A : Type 0} where
  abbrev pending_of : Option (ChatSession C A) → Option Text
  pending_of none = none
  pending_of (some s) = s.pending_listen_start_mode

  -- A call that returns leaves no mode to resume.
  abbrev LeavesNone : Progress C A → Type 0
  LeavesNone (returns m effects) = pending_of m.session ≡ none
  LeavesNone (waits m effects) = Unit {0}

  with_effects-LeavesNone :
      (es : List Effect) (p : Progress C A) → LeavesNone p → LeavesNone (with_effects es p)
  with_effects-LeavesNone es (returns m effects) h = h
  with_effects-LeavesNone es (waits m effects) h = h

  held-LeavesNone :
      (m : ChatManager C A) (effects : List Effect)
      → pending_of m.session ≡ none
      → LeavesNone (close_held m effects (close_front m fatal_error holds_lock))
  unfolding close_front
  held-LeavesNone m effects h = ground arith

  finish-LeavesNone :
      (m : ChatManager C A) (r : Start C A) (frames : List (List A × Option Bool)) (now_ms now : ℕ)
      (result : StartResult)
      → r.session.pending_listen_start_mode ≡ none
      → LeavesNone (finish_start m r frames now_ms now result)
  finish-LeavesNone m r frames now_ms now ListenStart.failed h =
      held-LeavesNone (record r.manager { session = some r.session }) r.effects h
  finish-LeavesNone m r frames now_ms now ListenStart.started h =
      flush-pending frames r.session now_ms now ∙ h
  finish-LeavesNone m r frames now_ms now ListenStart.stale h =
      flush-pending frames r.session now_ms now ∙ h
  finish-LeavesNone m r frames now_ms now ListenStart.ignored h =
      flush-pending frames r.session now_ms now ∙ h
  finish-LeavesNone m r frames now_ms now deferred h = flush-pending frames r.session now_ms now ∙ h

  -- What the listen start of a resumption comes to, when the session need not be made first.
  abbrev pub resumed_start : ChatManager C A → ChatSession C A → Text → StartEnv → Start C A
  resumed_start m s mode env =
      handle_listen_start (record m { detect_llm_handle = none; pre_listen_pcm = [] }) s (some mode)
        (has_any m.pre_listen_pcm) env

  start-LeavesNone :
      (m : ChatManager C A) (s : ChatSession C A) (mode : Text) (env : StartEnv)
      (answers : List (Option Bool)) (now_ms : ℕ)
      → s.pending_listen_start_mode ≡ none
      → is_deferred (resumed_start m s mode env).result ≡ false
      → LeavesNone (
          start_session
            (record m { detect_llm_handle = none })
            (some s)
            (some mode)
            env
            answers
            now_ms)
  start-LeavesNone m s mode env answers now_ms n d =
      let taken = record m { detect_llm_handle = none; pre_listen_pcm = [] } in
      let r = resumed_start m s mode env in
      finish-LeavesNone taken r (with_answers m.pre_listen_pcm answers) now_ms env.now r.result
        (handle-pending taken s (some mode) (has_any m.pre_listen_pcm) env d ∙ n)

  pub listen-LeavesNone :
      (ensure : ChatManager C A → Option (ChatManager C A)) (m : ChatManager C A)
      (s : ChatSession C A) (mode : Text) (activated : Bool) (env : StartEnv)
      (answers : List (Option Bool)) (now_ms : ℕ)
      → m.session ≡ some s
      → s.pending_listen_start_mode ≡ none
      → ensure (record m { detect_llm_handle = none })
        ≡ some (record m { detect_llm_handle = none })
      → is_deferred (resumed_start m s mode env).result ≡ false
      → LeavesNone (on_listen_start ensure m (some mode) activated env answers now_ms)
  unfolding on_listen_start
  listen-LeavesNone ensure m s mode activated env answers now_ms p n e d =
      branches m.need_fresh_hello activated
    where
      idle_now : pending_of m.session ≡ none
      idle_now = ap pending_of p ∙ n

      m1 : ChatManager C A
      m1 = record m { detect_llm_handle = none }

      started : LeavesNone (
          with_effects
            (Manager.aborted m.detect_llm_handle)
            (start_session m1 (some s) (some mode) env answers now_ms))
      started =
          with_effects-LeavesNone (Manager.aborted m.detect_llm_handle)
            (start_session m1 (some s) (some mode) env answers now_ms)
            (start-LeavesNone m s mode env answers now_ms n d)

      branches :
          (fresh active : Bool)
          → LeavesNone (
              if fresh
              then returns m []
              else if not active
              then returns m []
              else with_ensured
                  (ensure m1)
                  m1
                  (Manager.aborted m.detect_llm_handle)
                  (some mode)
                  env
                  answers
                  now_ms)
      branches true active = idle_now
      branches false false = idle_now
      branches false true =
          rw
            (ap
                (λ (o : Option (ChatManager C A)).
                  with_ensured o m1 (Manager.aborted m.detect_llm_handle) (some mode) env answers
                    now_ms)
                e
              ∙ ap
                  (λ (o : Option (ChatSession C A)).
                    with_effects (Manager.aborted m.detect_llm_handle)
                      (start_session m1 o (some mode) env answers now_ms))
                  p)
            started

  nothing_in :
      (ensure : ChatManager C A → Option (ChatManager C A)) (m : ChatManager C A)
      (o : Option (ChatSession C A)) (activated : Bool) (env : StartEnv)
      (answers : List (Option Bool)) (now_ms : ℕ)
      → m.session ≡ o
      → pending_of o ≡ none
      → resume_in ensure m o activated env answers now_ms ≡ returns m []
  unfolding take_pending_listen_start_mode
  nothing_in ensure m none activated env answers now_ms e h = refl
  nothing_in ensure m (some s) activated env answers now_ms e h =
      elim (Bool-cases (m.injected_speech_guard || s.state.welcome_playing)) [
        | inl b ↦ if_true _ _ b
        | inr b ↦
            if_false _ _ b
            ∙ ap
                (λ (x : Option Text).
                  resume_mode ensure
                    (record m { session = some (record s { pending_listen_start_mode = none }) }) x
                    activated env answers now_ms)
                h
            ∙ ap
                (λ (x : Option Text).
                  returns (record m { session = some (record s { pending_listen_start_mode = x }) })
                    [])
                (sym h)
            ∙ ap (λ (x : Option (ChatSession C A)). returns (record m { session = x }) []) (sym e)
      ]

  -- Where no mode is kept, a resumption does nothing.
  resume_nothing :
      (ensure : ChatManager C A → Option (ChatManager C A)) (m : ChatManager C A) (activated : Bool)
      (env : StartEnv) (answers : List (Option Bool)) (now_ms : ℕ)
      → pending_of m.session ≡ none
      → try_resume_pending_listen_start ensure m activated env answers now_ms ≡ returns m []
  unfolding try_resume_pending_listen_start
  resume_nothing ensure m activated env answers now_ms h =
      nothing_in ensure m m.session activated env answers now_ms refl h

  -- A call, and a resumption behind it if it returns.
  abbrev pub then_resume :
      (ChatManager C A → Option (ChatManager C A))
      → Progress C A
      → Bool
      → StartEnv
      → List (Option Bool)
      → ℕ
      → Progress C A
  then_resume ensure (returns m effects) activated env answers now_ms =
      with_effects effects (try_resume_pending_listen_start ensure m activated env answers now_ms)
  then_resume ensure (waits m effects) activated env answers now_ms = waits m effects

  pub resume-LeavesNone :
      (ensure : ChatManager C A → Option (ChatManager C A)) (p : Progress C A) (activated : Bool)
      (env : StartEnv) (answers : List (Option Bool)) (now_ms : ℕ)
      → LeavesNone p
      → then_resume ensure p activated env answers now_ms ≡ p
  resume-LeavesNone ensure (returns m effects) activated env answers now_ms h =
      ap (with_effects effects) (resume_nothing ensure m activated env answers now_ms h)
      ∙ ap (λ (es : List Effect). returns m es) (append-nil effects)
  resume-LeavesNone ensure (waits m effects) activated env answers now_ms h = refl
