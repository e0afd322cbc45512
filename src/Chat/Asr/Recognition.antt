-- ===== src/Chat/Asr/Recognition.antt =====
-- `run_asr_recognition_loop` of asr_manager.rs, one round at a time. A round is given what it meets:
-- the clock, in nanoseconds and read once in a round, the outcome of the turn, and what it asks of
-- the manager and the session. Its effects are listed in their order.
pub mod Ends
use xiaozhi_esp32_server_rus.Common.{
  ℕ, suc, ◌+◌, ◌-◌, ◌*◌, Bool, true, false, not, ◌||◌, Option, none, some, List, [], ◌∷◌, ◌++◌, ltb,
  leb, if◌then◌else◌,
}
use xiaozhi_esp32_server_rus.Common.Text.{Text, codes, contains, to_ascii_lowercase}
use xiaozhi_esp32_server_rus.Chat.Asr.Pipeline.{AsrTurnOutcome, text, empty, error, cancelled}

abbrev pub seconds : ℕ → ℕ
seconds n = n * 1000000000

abbrev empty_result_protect_window : ℕ
empty_result_protect_window = seconds 3

abbrev max_empty_result_in_window : ℕ
max_empty_result_in_window = 3

abbrev max_asr_idle_restart : ℕ
max_asr_idle_restart = seconds 60

abbrev invalid_status_wait_rounds : ℕ
invalid_status_wait_rounds = 10

abbrev invalid_status_wait_ms : ℕ
invalid_status_wait_ms = 200

abbrev recoverable_asr_error_protect_window : ℕ
recoverable_asr_error_protect_window = seconds 10

abbrev max_recoverable_asr_error_in_window : ℕ
max_recoverable_asr_error_in_window = 3

-- The variables of the loop. `pending_outcome` is whether an outcome is awaited already.
pub record LoopState : Type 0 where
  pub empty_window_start : ℕ
  pub empty_result_count : ℕ
  pub start_idle : ℕ
  pub invalid_status_waits : ℕ
  pub recoverable_window_start : ℕ
  pub recoverable_error_count : ℕ
  pub pending_outcome : Bool

unfoldable pub start_loop : ℕ → LoopState
start_loop now = record {
  empty_window_start = now;
  empty_result_count = 0;
  start_idle = now;
  invalid_status_waits = 0;
  recoverable_window_start = now;
  recoverable_error_count = 0;
  pending_outcome = true;
}

pub record Round : Type 0 where
  pub now : ℕ
  pub current_before : Bool
  pub restarted : Bool
  pub outcome : AsrTurnOutcome
  pub current_after : Bool
  pub timeout_pending : Bool
  pub welcome_playing : Bool
  pub restart_allowed : Bool
  pub realtime : Bool

pub data Effect : Type 0 where
  restart_asr : Effect
  enqueue_chat_text : Text → Effect
  close_audio_idle_timeout : Effect
  dispatch_asr_empty_result : Effect
  sleep : ℕ → Effect
  extend_listen_warmup : ℕ → Effect
  resume_audio_idle_window : Effect
  close_session_fatal : Effect

unfoldable pub is_recoverable_asr_error : Text → Bool
is_recoverable_asr_error err =
    let e = to_ascii_lowercase err in
    contains (codes "timeout") e
    || contains (codes "task-failed") e
    || contains (codes "request timeout") e
    || contains (codes "wait task-started") e

-- The waits when a restart is not allowed, and the restart itself behind `extra`.
restart_or_wait : LoopState → Round → List Effect → List Effect × Option LoopState
restart_or_wait s r extra =
    if not r.restart_allowed
    then if leb invalid_status_wait_rounds (s.invalid_status_waits + 1)
      then (dispatch_asr_empty_result ∷ [], none)
      else (
        sleep invalid_status_wait_ms ∷ [],
        some (record s { invalid_status_waits = s.invalid_status_waits + 1 }),
      )
    else (extra ++ resume_audio_idle_window ∷ [], some (record s { invalid_status_waits = 0 }))

on_text : LoopState → Round → Text → List Effect × Option LoopState
on_text s r t =
    if r.timeout_pending
    then (close_audio_idle_timeout ∷ [], none)
    else if not r.realtime
    then (enqueue_chat_text t ∷ [], none)
    else (
      enqueue_chat_text t ∷ [],
      some (record s {
        empty_result_count = 0;
        empty_window_start = r.now;
        invalid_status_waits = 0;
        start_idle = r.now;
      }),
    )

abbrev is_in_empty_window : LoopState → ℕ → Bool
is_in_empty_window s now = leb (now - s.empty_window_start) empty_result_protect_window

abbrev count_empty : LoopState → ℕ → LoopState
count_empty s now =
    if is_in_empty_window s now
    then record s { empty_result_count = s.empty_result_count + 1 }
    else record s { empty_window_start = now; empty_result_count = 1 }

unfoldable pub on_empty : LoopState → Round → List Effect × Option LoopState
unfolding restart_or_wait
on_empty s r =
    if r.timeout_pending
    then (close_audio_idle_timeout ∷ [], none)
    else if r.welcome_playing
    then (sleep invalid_status_wait_ms ∷ [], some (record s { invalid_status_waits = 0 }))
    else (let s' = count_empty s r.now in
        if leb max_empty_result_in_window s'.empty_result_count
        then (dispatch_asr_empty_result ∷ [], none)
        else if ltb max_asr_idle_restart (r.now - s'.start_idle)
        then (dispatch_asr_empty_result ∷ [], none)
        else restart_or_wait s' r [])

abbrev count_error : LoopState → ℕ → LoopState
count_error s now =
    if ltb recoverable_asr_error_protect_window (now - s.recoverable_window_start)
    then record s { recoverable_window_start = now; recoverable_error_count = 1 }
    else record s { recoverable_error_count = s.recoverable_error_count + 1 }

abbrev warmup_of : Text → List Effect
warmup_of err =
    if contains (codes "no_valid_audio") (to_ascii_lowercase err)
    then extend_listen_warmup 800 ∷ []
    else []

on_error : LoopState → Round → Text → List Effect × Option LoopState
unfolding restart_or_wait
on_error s r err =
    if r.timeout_pending
    then (close_audio_idle_timeout ∷ [], none)
    else if r.welcome_playing
    then (sleep invalid_status_wait_ms ∷ [], some (record s { invalid_status_waits = 0 }))
    else if is_recoverable_asr_error err
    then (let s' = count_error s r.now in
        if leb max_recoverable_asr_error_in_window s'.recoverable_error_count
        then (dispatch_asr_empty_result ∷ [], none)
        else restart_or_wait s' r (warmup_of err))
    else (close_session_fatal ∷ [], none)

on_outcome : LoopState → Round → AsrTurnOutcome → List Effect × Option LoopState
unfolding on_text on_empty on_error
on_outcome s r (text t) = on_text s r t
on_outcome s r empty = on_empty s r
on_outcome s r (error err) = on_error s r err
on_outcome s r cancelled = ((if r.timeout_pending then close_audio_idle_timeout ∷ [] else []), none)

-- Behind the wait for the outcome.
after_outcome : LoopState → Round → List Effect × Option LoopState
unfolding on_outcome
after_outcome s r =
    if not r.current_after
    then ([], none)
    else on_outcome (record s { pending_outcome = false }) r r.outcome

-- A round: its effects, and the variables behind it, `none` when the loop returns.
unfoldable pub round : LoopState → Round → List Effect × Option LoopState
unfolding after_outcome
round s r =
    if not r.current_before
    then ([], none)
    else if s.pending_outcome
    then after_outcome s r
    else if not r.restarted
    then (restart_asr ∷ [], none)
    else (restart_asr ∷ (after_outcome s r).0, (after_outcome s r).1)

-- The rounds in turn, up to the one that returns.
unfoldable pub run_asr_recognition_loop : LoopState → List Round → List Effect × Option LoopState
run_asr_recognition_loop s [] = ([], some s)
run_asr_recognition_loop s (r ∷ rs) =
    let (effects, next) = round s r in
    elim next [
      | none ↦ (effects, none)
      | some s' ↦ (let rest = run_asr_recognition_loop s' rs in (effects ++ rest.0, rest.1))
    ]
