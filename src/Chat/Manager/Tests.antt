-- ===== src/Chat/Manager/Tests.antt =====
-- Runs of the manager: listen starts, and the end of a session.
use xiaozhi_esp32_server_rus.Common.{
  ℕ, ◌≡◌, refl, ◌⊎◌, true, false, not, ◌&&◌, ◌==◌, Option, none, some, List, [], ◌∷◌, if◌then◌else◌,
  arith,
}
use xiaozhi_esp32_server_rus.Common.Text.{codes, text_eq}
use xiaozhi_esp32_server_rus.Chat.AudioIdle
use xiaozhi_esp32_server_rus.Chat.Detect.{speaking}
use xiaozhi_esp32_server_rus.Chat.State
use xiaozhi_esp32_server_rus.Chat.State.{
  ClientState, start_audio_idle_window, uses_audio_idle_clock,
}
use xiaozhi_esp32_server_rus.Chat.Session
use xiaozhi_esp32_server_rus.Chat.Session.{ChatSession, defer_listen_start}
use xiaozhi_esp32_server_rus.Chat.Asr.Pipeline
use xiaozhi_esp32_server_rus.Chat.Asr.Watchdog.{tick, trigger, should_count_audio_idle_timeout_for}
use xiaozhi_esp32_server_rus.Chat.Manager.ListenStart
use xiaozhi_esp32_server_rus.Chat.Manager.{
  ChatManager, Effect, is_current_listen_start, invalidate_times, begin_listen_start,
}
use xiaozhi_esp32_server_rus.Chat.Manager.ListenStart.{
  StartEnv, handle_listen_start, take_over, stop_output, assign, prepare, connect, enter_listening,
  or_auto, started,
}
use xiaozhi_esp32_server_rus.Chat.Manager.Stale.{
  is_started, is_turned_away, IsBounded, start_started,
}
use xiaozhi_esp32_server_rus.Chat.Manager.Entered.{Listens, start-Listens}
use xiaozhi_esp32_server_rus.Chat.Manager.Listen.{
  returns, waits, on_listen_start, try_resume_pending_listen_start,
}
use xiaozhi_esp32_server_rus.Chat.Manager.Deferral.{with_session, resumption, deferred-resumed}
use xiaozhi_esp32_server_rus.Chat.Manager.Pending.{is_deferred}
use xiaozhi_esp32_server_rus.Chat.Manager.Resumed.{then_resume}
use xiaozhi_esp32_server_rus.Chat.Manager.Silent.{IsSilent, reset-IsSilent}
use xiaozhi_esp32_server_rus.Chat.Manager.Close.{
  SessionCloseReason, explicit_exit, audio_idle_timeout, reset_to_silent_state, CloseCaller,
  runs_in, stalled, close_session_with_reason, close_front, close_back, skipped,
  should_send_mqtt_goodbye, session_id,
}
use xiaozhi_esp32_server_rus.Chat.Manager.Closing.{
  goodbyes, is_some, stalls, said_by, close-goodbyes,
}
use xiaozhi_esp32_server_rus.Chat.Manager.Retain.{force_recover_stuck_session_close}
use xiaozhi_esp32_server_rus.Chat.Manager.Overlap.{close_back-late, listen_start_waits}
use xiaozhi_esp32_server_rus.Chat.Manager.Idle.{
  watchdog_tick, without_timeout, left, watchdog_tick-stalls,
}

abbrev state : ClientState ℕ
state = State.new (λ c. codes "1") (codes "d") (codes "s") 0

abbrev session : ChatSession ℕ ℕ
session = Session.new state 200 false false

abbrev manager : ChatManager ℕ ℕ
manager = record {
  session = some session;
  pre_listen_pcm = [];
  need_fresh_hello = false;
  hello_inited = true;
  listen_start_seq = 0;
  realtime_listen_active = false;
  detect_llm_handle = none;
  tts_manager = true;
  llm_manager = true;
  session_media = true;
  session_abort = true;
  idle_watchdog = some 4;
  retained_cleanup = none;
  is_mqtt_transport = false;
  hello_session_id = none;
  injected_speech_guard = false;
  session_closing = false;
  outbound = true;
}

abbrev env : StartEnv
env = record {
  tts_active = false;
  invalidated_1 = 0;
  invalidated_2 = 0;
  invalidated_3 = 0;
  decodable = true;
  connected = true;
  task = 9;
  now = 50;
}

env-IsBounded : IsBounded env
env-IsBounded = record { first = omega arith; second = omega arith; third = omega arith }

start_started_example : is_started (handle_listen_start manager session none false env).result ≡ (
    not (is_turned_away manager session (or_auto none) false env.tts_active)
    && (env.invalidated_1 == 0)
    && (env.invalidated_2 == 0)
    && env.connected
    && (env.invalidated_3 == 0))
start_started_example = start_started manager session none false env env-IsBounded

is_started_now : (handle_listen_start manager session none false env).result ≡ started
unfolding handle_listen_start take_over stop_output assign begin_listen_start invalidate_times
    is_current_listen_start prepare connect enter_listening State.new Session.new text_eq
is_started_now = refl

start-Listens_example :
    Listens (handle_listen_start manager session none false env).session (or_auto none) 9
start-Listens_example = start-Listens manager session none false env is_started_now

abbrev talking : ChatSession ℕ ℕ
talking = record session { state = record state { listen_phase = speaking } }

abbrev ensure : ChatManager ℕ ℕ → Option (ChatManager ℕ ℕ)
ensure m = some m

abbrev deferred_manager : ChatManager ℕ ℕ
deferred_manager = record manager { session = some (defer_listen_start talking (codes "auto")) }

is_deferred_now : is_deferred (handle_listen_start manager talking none false env).result ≡ true
unfolding handle_listen_start Session.new State.new text_eq
is_deferred_now = refl

deferred_session :
    deferred_manager.session ≡ some (handle_listen_start manager talking none false env).session
unfolding handle_listen_start Session.new State.new text_eq
deferred_session = refl

deferred-resumed_example :
    let r = handle_listen_start manager talking none false env in
    let p =
      on_listen_start ensure
        (with_session deferred_manager talking)
        (some (or_auto none))
        true
        env
        []
        5 in
    (r.manager ≡ manager)
    × (r.effects ≡ [])
    × (r.session ≡ defer_listen_start talking (or_auto none))
    × (try_resume_pending_listen_start ensure deferred_manager true env [] 5 ≡ p)
    × ((is_deferred (resumption deferred_manager talking (or_auto none) env).result ≡ true)
        ⊎ (then_resume ensure p true env [] 6 ≡ p))
unfolding State.new Session.new
deferred-resumed_example =
    deferred-resumed ensure manager deferred_manager talking none false true true env env env [] []
      5 6 is_deferred_now deferred_session refl refl refl

reset-IsSilent_example :
    let r = reset_to_silent_state manager talking in
    IsSilent r.1
    × (is_current_listen_start r.0 manager.listen_start_seq ≡ false)
    × (r.0.realtime_listen_active ≡ false)
    × (r.0.detect_llm_handle ≡ none)
reset-IsSilent_example = reset-IsSilent manager talking (omega arith)

close-goodbyes_example :
    goodbyes (said_by (close_session_with_reason manager explicit_exit (runs_in 8 true))) ≡ (
      if not manager.session_closing
        && not (stalls manager (runs_in 8 true))
        && is_some manager.session
        && should_send_mqtt_goodbye explicit_exit
        && manager.outbound
      then session_id manager ∷ []
      else [])
close-goodbyes_example = close-goodbyes manager explicit_exit (runs_in 8 true)

-- The task 8 closes the session; the watchdog, which is the task 4, does not.
says_goodbye :
    (goodbyes (said_by (close_session_with_reason manager explicit_exit (runs_in 8 true)))
      ≡ some (codes "s") ∷ [])
    × (goodbyes (said_by (close_session_with_reason manager audio_idle_timeout (runs_in 4 true)))
        ≡ [])
unfolding close_session_with_reason Session.new State.new
says_goodbye = (refl, refl)

close_back-late_example :
    let m' = (close_back manager explicit_exit talking none).0 in
    (m'.session ≡ manager.session)
    × (is_current_listen_start m' manager.listen_start_seq ≡ false)
    × (on_listen_start ensure m' none true env [] 5 ≡ returns m' [])
close_back-late_example =
    close_back-late ensure manager explicit_exit talking none none true env [] 5 refl (omega arith)

abbrev cut_off : StartEnv
cut_off = record env { connected = false }

fails_now : (handle_listen_start manager session none false cut_off).result ≡ ListenStart.failed
unfolding handle_listen_start take_over stop_output assign begin_listen_start invalidate_times
    is_current_listen_start prepare connect Session.new State.new text_eq
fails_now = refl

listen_start_waits_example :
    (m' : ChatManager ℕ ℕ) × (effects : List Effect) × (on_listen_start ensure manager none true
        cut_off [] 5
      ≡ waits m' effects)
    × ((reason : SessionCloseReason) (caller : CloseCaller)
        → close_front m' reason caller ≡ skipped m')
    × (force_recover_stuck_session_close m' true ≡ none)
listen_start_waits_example =
    listen_start_waits ensure manager session none cut_off [] 5 refl refl refl refl fails_now

-- A session whose clock has run for a minute.
abbrev quiet : ChatSession ℕ ℕ
quiet = record session { state = start_audio_idle_window state 0 }

abbrev quiet_manager : ChatManager ℕ ℕ
quiet_manager = record manager { session = some quiet }

tick_triggers : (tick quiet.state quiet.asr_pipeline 0 60000 false 60000).2 ≡ trigger
unfolding tick should_count_audio_idle_timeout_for uses_audio_idle_clock start_audio_idle_window
    State.new Session.new Pipeline.new AudioIdle.start AudioIdle.started AudioIdle.elapsed
    AudioIdle.default AudioIdle.mark_timeout_pending text_eq
tick_triggers = refl

watchdog_tick-stalls_example :
    let t = tick quiet.state quiet.asr_pipeline 0 60000 false 60000 in
    let m' = left quiet_manager (without_timeout (record quiet { state = t.0 })) in
    (effects : List Effect) × (goodbyes effects ≡ [])
    × (watchdog_tick quiet_manager 0 60000 false 60000 (runs_in 4 true)
        ≡ some (stalled m' effects, t.1))
    × ((reason : SessionCloseReason) (caller : CloseCaller)
        → close_front m' reason caller ≡ skipped m')
watchdog_tick-stalls_example =
    watchdog_tick-stalls quiet_manager quiet 0 60000 false 60000 4 refl tick_triggers refl refl refl
