-- ===== src/Chat/Asr/Tests.antt =====
-- Runs of asr_manager.rs.
use Prim.Native.Nat.{min, max}
use xiaozhi_esp32_server_rus.Common.{
  ℕ, zero, suc, ◌*◌, ◌≡◌, refl, Bool, true, false, none, some, List, [], ◌∷◌, ◌++◌, All, ltb,
  length, arith,
}
use xiaozhi_esp32_server_rus.Common.Text.{
  Text, codes, text_eq, is_whitespace, trim_start_by, trim_end_by,
}
use xiaozhi_esp32_server_rus.Chat.Detect.{listening}
use xiaozhi_esp32_server_rus.Chat.State.{ClientState, new, mark_audio_idle_timeout_pending}
use xiaozhi_esp32_server_rus.Chat.Asr.Pipeline.{
  AsrPipeline, restart_asr_recognition, i64_max, add_to_turn, text, empty, abort_turn, abort_loop,
  has_open_audio_input,
}
use xiaozhi_esp32_server_rus.Chat.Asr.Pipeline
use xiaozhi_esp32_server_rus.Chat.Asr.Frame.{Frame, process_pcm_frame, last_samples, keep_samples}
use xiaozhi_esp32_server_rus.Chat.Asr.Silence.{
  IsJudged, IsSilent, run_frames, run_frames_ended, restart-process_ended,
}
use xiaozhi_esp32_server_rus.Chat.Asr.Preroll.{IsQuiet, IsVoiced, joined, preroll}
use xiaozhi_esp32_server_rus.Chat.Asr.Aborting.{apply_all, frames, restarts, abort_turn_silent}
use xiaozhi_esp32_server_rus.Chat.Asr.Outcome.{StreamingResult, read_results}
use xiaozhi_esp32_server_rus.Chat.Asr.Recognition.{Round, run_asr_recognition_loop, start_loop}
use xiaozhi_esp32_server_rus.Chat.Asr.Recognition.Ends.{run_loop_ends, IsEmptyRound}

abbrev repeated : {X : Type 0} → ℕ → X → List X
repeated zero x = []
repeated (suc n) x = x ∷ repeated n x

abbrev frame : Bool → Frame ℕ
frame heard = record {
  pcm_f32 = 7 ∷ 8 ∷ [];
  listen_mode = codes "auto";
  listen_phase = listening;
  heard = some heard;
  suppress_end_detection = false;
  now_ms = 5;
}

-- A new turn, of which the first 80 ms of voice were counted, with a threshold of 200 ms.
abbrev fresh_turn : AsrPipeline ℕ
fresh_turn = (restart_asr_recognition (Pipeline.new 200 false) true).0

abbrev in_speech : AsrPipeline ℕ
in_speech = record fresh_turn {
  vad = record { idle_duration_ms = 0; voice_duration_in_session_ms = 80 };
}

frame-IsJudged : (heard : Bool) → IsJudged (frame heard)
unfolding text_eq
frame-IsJudged heard = record { listens = refl; by_detector = refl; not_suppressed = refl }

repeated-IsSilent : (n : ℕ) → All IsSilent (repeated n (frame false))
repeated-IsSilent zero = tt
repeated-IsSilent (suc n) = ((frame-IsJudged false, refl), repeated-IsSilent n)

run_frames_ended_example :
    (run_frames (process_pcm_frame in_speech (frame true)).0 (repeated 11 (frame false))).1
    ≡ ltb 200 (min (length (repeated 11 (frame false)) * max 20 1) i64_max)
unfolding process_pcm_frame restart_asr_recognition Pipeline.new text_eq
run_frames_ended_example =
    run_frames_ended in_speech (frame true) (repeated 11 (frame false)) 200 refl refl refl
      (frame-IsJudged true) refl (omega arith) (omega arith) (repeated-IsSilent 11)

ends_at_the_eleventh :
    (run_frames (process_pcm_frame in_speech (frame true)).0 (repeated 10 (frame false))).1 ≡ false
unfolding run_frames process_pcm_frame restart_asr_recognition Pipeline.new text_eq
ends_at_the_eleventh = refl

-- A turn at whose next silent frame the silence is long enough.
abbrev ending : AsrPipeline ℕ
ending = record fresh_turn {
  voice = record fresh_turn.voice { have_voice = true; have_voice_last_time_ms = 5 };
  vad = record { idle_duration_ms = 200; voice_duration_in_session_ms = 100 };
}

restart-process_ended_example :
    (process_pcm_frame
      (restart_asr_recognition (process_pcm_frame ending (frame false)).0 true).0
      (frame false)).1
    ≡ true
unfolding process_pcm_frame restart_asr_recognition Pipeline.new text_eq
restart-process_ended_example =
    restart-process_ended ending (frame false) (frame false) refl (frame-IsJudged false, refl)

fresh-IsQuiet : IsQuiet fresh_turn
unfolding restart_asr_recognition Pipeline.new
fresh-IsQuiet = record { is_open = refl; detects = refl; no_voice = refl }

frame-IsVoiced : IsVoiced (frame true)
frame-IsVoiced = record { judged = frame-IsJudged true; is_heard = refl; not_empty = omega arith }

preroll_example :
    ((process_pcm_frame (run_frames fresh_turn (repeated 3 (frame false))).0 (frame true)).0.turn
      ≡ add_to_turn fresh_turn.turn (
          last_samples keep_samples (
            (fresh_turn.asr_audio_buffer ++ joined (repeated 3 (frame false)))
            ++ (frame true).pcm_f32)))
    × ((process_pcm_frame
          (run_frames fresh_turn (repeated 3 (frame false))).0
          (frame true)).0.asr_audio_buffer
        ≡ [])
preroll_example =
    preroll fresh_turn (repeated 3 (frame false)) (frame true) fresh-IsQuiet (repeated-IsSilent 3)
      frame-IsVoiced

abort_turn_silent_example :
    let p = apply_all (Pipeline.new 200 false) (restarts true ∷ frames (frame true) ∷ []) in
    ((abort_turn p).1 ≡ none)
    × ((abort_loop p).1 ≡ none)
    × ((restart_asr_recognition p true).1 ≡ none)
    × (has_open_audio_input (abort_turn p).0 ≡ false)
abort_turn_silent_example =
    abort_turn_silent 200 false true (restarts true ∷ frames (frame true) ∷ [])

abbrev result : Text → Bool → StreamingResult
result t is_final = record { text = t; is_final = is_final; failure = none }

reads_the_last :
    read_results [] false (
      result (codes "a") false
      ∷ result [] false
      ∷ result (codes "ab") true
      ∷ result (codes "c") false
      ∷ [])
    ≡ (text (codes "ab"), true)
unfolding read_results is_whitespace trim_start_by trim_end_by
reads_the_last = refl

abbrev empty_round : Round
empty_round = record {
  now = 5;
  current_before = true;
  restarted = true;
  outcome = empty;
  current_after = true;
  timeout_pending = false;
  welcome_playing = false;
  restart_allowed = true;
  realtime = false;
}

repeated-IsEmptyRound : (n : ℕ) → All IsEmptyRound (repeated n empty_round)
repeated-IsEmptyRound zero = tt
repeated-IsEmptyRound (suc n) =
    (record { hears_nothing = refl; no_welcome = refl }, repeated-IsEmptyRound n)

run_loop_ends_example : (run_asr_recognition_loop (start_loop 0) (repeated 42 empty_round)).1 ≡ none
run_loop_ends_example =
    run_loop_ends 0 (repeated 42 empty_round) (repeated-IsEmptyRound 42) (omega arith)

abbrev pending_state : ClientState ℕ
pending_state = (mark_audio_idle_timeout_pending (new (λ c. []) (codes "d") (codes "s") 0)).0

abbrev ticks : List (Bool × ℕ)
ticks = repeated 11 (false, 5)
