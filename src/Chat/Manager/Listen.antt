-- ===== src/Chat/Manager/Listen.antt =====
-- The listen messages in manager.rs: `on_listen_start`, `on_listen_stop` and
-- `try_resume_pending_listen_start`, and `handle_audio` behind the decoding.
use xiaozhi_esp32_server_rus.Common.{
  ℕ, ◌-◌, Bool, true, false, not, ◌||◌, Option, none, some, List, [], ◌∷◌, ◌++◌, ltb, if◌then◌else◌,
  length, drop, length-append, length-drop, ◌≤◌, arith,
}
use xiaozhi_esp32_server_rus.Common.Text.{Text}
use xiaozhi_esp32_server_rus.Chat.State.{RealtimeMode, is_realtime}
use xiaozhi_esp32_server_rus.Chat.Session.{
  ChatSession, take_pending_listen_start_mode, handle_listen_stop,
}
use xiaozhi_esp32_server_rus.Chat.Session.Audio.{
  Uplink, pre_listen, no_pcm, failed, flush_prelisten_pcm, process_audio,
}
use xiaozhi_esp32_server_rus.Chat.Manager.{
  ChatManager, Effect, cancel_pending_detect_llm, invalidate_listen_start,
}
use xiaozhi_esp32_server_rus.Chat.Manager.ListenStart.{
  StartEnv, Start, StartResult, ignored, deferred, stale, started, handle_listen_start,
}
use xiaozhi_esp32_server_rus.Chat.Manager.ListenStart
use xiaozhi_esp32_server_rus.Chat.Manager.Close.{
  CloseStep, skipped, blocked, no_session, closed, close_front, fatal_error, holds_lock,
}

-- A call returns, or waits for ever for a lock that it holds.
pub data Progress (C A : Type 0) : Type 0 where
  returns : ChatManager C A → List Effect → Progress C A
  waits : ChatManager C A → List Effect → Progress C A

-- The frames that are kept for the next listen start.
abbrev max_pre_listen_frames : ℕ
max_pre_listen_frames = 12

abbrev pub has_any {ℓ} : {X : Type ℓ} → List X → Bool
has_any [] = false
has_any (x ∷ xs) = true

-- What the detector answers on each kept frame; a frame without an answer counts as an error.
abbrev pub with_answers {ℓ} : {X : Type ℓ} → List X → List (Option Bool) → List (X × Option Bool)
with_answers [] answers = []
with_answers (x ∷ xs) [] = (x, none) ∷ with_answers xs []
with_answers (x ∷ xs) (a ∷ answers) = (x, a) ∷ with_answers xs answers

module _ {A : Type 0} where
  -- The oldest frames are dropped.
  keep_frame : List (List A) → List A → List (List A)
  keep_frame pre pcm =
      let all = pre ++ pcm ∷ [] in
      if ltb max_pre_listen_frames (length all)
      then drop (length all - max_pre_listen_frames) all
      else all

  keep_frame_bound : (pre : List (List A)) (pcm : List A) → length (keep_frame pre pcm) ≤ 12
  unfolding keep_frame
  keep_frame_bound pre pcm = ground (
    arith,
    length-append pre (pcm ∷ []),
    length-drop (length (pre ++ pcm ∷ []) - 12) (pre ++ pcm ∷ []),
  )

module _ {C A : Type 0} where
  abbrev pub with_effects : List Effect → Progress C A → Progress C A
  with_effects before (returns m effects) = returns m (before ++ effects)
  with_effects before (waits m effects) = waits m (before ++ effects)

  -- An error of the start closes the session under the lock that the caller still holds.
  abbrev pub close_held : ChatManager C A → List Effect → CloseStep C A → Progress C A
  close_held m effects (skipped m') = returns m' effects
  close_held m effects (blocked m' closing) = waits m' (effects ++ closing)
  close_held m effects (no_session m' closing) = returns m' (effects ++ closing)
  close_held m effects (closed c) = returns m effects

  abbrev pub finish_start :
      ChatManager C A → Start C A → List (List A × Option Bool) → ℕ → ℕ → StartResult → Progress C A
  finish_start m r frames now_ms now ListenStart.failed =
      let m' = record r.manager { session = some r.session } in
      close_held m' r.effects (close_front m' fatal_error holds_lock)
  finish_start m r frames now_ms now result =
      returns
        (record r.manager { session = some (flush_prelisten_pcm r.session frames now_ms now) })
        r.effects

  abbrev pub start_session :
      ChatManager C A
      → Option (ChatSession C A)
      → Option Text
      → StartEnv
      → List (Option Bool)
      → ℕ
      → Progress C A
  start_session m none mode env answers now_ms = returns (record m { pre_listen_pcm = [] }) []
  start_session m (some s) mode env answers now_ms =
      let r =
        handle_listen_start (record m { pre_listen_pcm = [] }) s mode (has_any m.pre_listen_pcm)
          env in
      finish_start m r (with_answers m.pre_listen_pcm answers) now_ms env.now r.result

  abbrev pub with_ensured :
      Option (ChatManager C A)
      → ChatManager C A
      → List Effect
      → Option Text
      → StartEnv
      → List (Option Bool)
      → ℕ
      → Progress C A
  with_ensured none m cancelled mode env answers now_ms = returns m cancelled
  with_ensured (some m') m cancelled mode env answers now_ms =
      with_effects cancelled (start_session m' m'.session mode env answers now_ms)

  -- `activated` is the answer of `check_device_activated`, and `ensure` stands for `ensure_session`,
  -- `none` its error. The session stays in its place while its lock is held.
  unfoldable pub on_listen_start :
      (ChatManager C A → Option (ChatManager C A))
      → ChatManager C A
      → Option Text
      → Bool
      → StartEnv
      → List (Option Bool)
      → ℕ
      → Progress C A
  unfolding cancel_pending_detect_llm
  on_listen_start ensure m mode activated env answers now_ms =
      if m.need_fresh_hello
      then returns m []
      else if not activated
      then returns m []
      else (let (m', cancelled) = cancel_pending_detect_llm m in
          with_ensured (ensure m') m' cancelled mode env answers now_ms)

  abbrev pub resume_mode :
      (ChatManager C A → Option (ChatManager C A))
      → ChatManager C A
      → Option Text
      → Bool
      → StartEnv
      → List (Option Bool)
      → ℕ
      → Progress C A
  resume_mode ensure m none activated env answers now_ms = returns m []
  resume_mode ensure m (some mode) activated env answers now_ms =
      if m.need_fresh_hello
      then returns m []
      else on_listen_start ensure m (some mode) activated env answers now_ms

  abbrev pub resume_in :
      (ChatManager C A → Option (ChatManager C A))
      → ChatManager C A
      → Option (ChatSession C A)
      → Bool
      → StartEnv
      → List (Option Bool)
      → ℕ
      → Progress C A
  resume_in ensure m none activated env answers now_ms = returns m []
  resume_in ensure m (some s) activated env answers now_ms =
      if m.injected_speech_guard || s.state.welcome_playing
      then returns m []
      else (let (s', pending) = take_pending_listen_start_mode s in
          resume_mode ensure (record m { session = some s' }) pending activated env answers now_ms)

  unfoldable pub try_resume_pending_listen_start :
      (ChatManager C A → Option (ChatManager C A))
      → ChatManager C A
      → Bool
      → StartEnv
      → List (Option Bool)
      → ℕ
      → Progress C A
  unfolding take_pending_listen_start_mode
  try_resume_pending_listen_start ensure m activated env answers now_ms =
      resume_in ensure m m.session activated env answers now_ms

  abbrev stopped : Option (ChatSession C A) → ChatManager C A → ChatManager C A
  stopped none m = m
  stopped (some s) m = record (if is_realtime s.state then invalidate_listen_start m else m) {
    session = some (handle_listen_stop s);
  }

  -- `none` is an error of `ensure_session`.
  on_listen_stop :
      (ChatManager C A → Option (ChatManager C A)) → ChatManager C A → Option (ChatManager C A)
  unfolding is_realtime invalidate_listen_start handle_listen_stop
  on_listen_stop ensure m = if m.need_fresh_hello then some m else elim m.session [
    | some s ↦ some (stopped (some s) m)
    | none ↦ elim (ensure m) [ none ↦ none | some m' ↦ some (stopped m'.session m') ]
  ]

  abbrev after_audio : ChatManager C A → ChatSession C A × Uplink A → ChatManager C A
  after_audio m (s, pre_listen pcm) = record m {
    session = some s;
    pre_listen_pcm = keep_frame m.pre_listen_pcm pcm;
  }
  after_audio m (s, no_pcm) = record m { session = some s }
  after_audio m (s, failed) = record m { session = some s }

  abbrev to_session :
      ChatManager C A
      → Option (ChatSession C A)
      → (ChatSession C A → ChatSession C A × Uplink A)
      → ChatManager C A
  to_session m none call = m
  to_session m (some s) call = after_audio m (call s)

  -- `waiting` is whether a request to speak is pending; `decodable` to `now` are as in `process_audio`.
  -- `none` is an error of `ensure_session`.
  handle_audio :
      (ChatManager C A → Option (ChatManager C A))
      → ChatManager C A
      → Bool
      → RealtimeMode
      → Bool
      → Option (List A)
      → Option Bool
      → Bool
      → ℕ
      → ℕ
      → Option (ChatManager C A)
  unfolding process_audio keep_frame
  handle_audio ensure m waiting mode decodable decoded heard accepted now_ms now =
      if m.need_fresh_hello || waiting
      then some m
      else (let call = λ (s : ChatSession C A).
            process_audio s mode decodable decoded heard accepted now_ms now in
          elim m.session [
            | some s ↦ some (to_session m (some s) call)
            | none ↦ elim (ensure m) [
              | none ↦ none
              | some m' ↦ some (to_session m' m'.session call)
            ]
          ])
