-- ===== src/Chat/TtsManager/Tests.antt =====
-- Runs of tts_manager.rs.
use xiaozhi_esp32_server_rus.Common.{
  ℕ, ◌+◌, ◌≤◌, ◌≡◌, refl, Bool, true, false, none, some, List, [], ◌∷◌, ◌++◌, map, arith,
}
use xiaozhi_esp32_server_rus.Common.Text.{
  codes, is_whitespace, contains, starts_with, trim_start_by, trim_end_by,
}
use xiaozhi_esp32_server_rus.Chat.TtsManager.{
  AudioQueueElem, AudioQueueKind, frame, sentence_end, TtsManager, TtsQueueItem, send_audio, new,
  send_tts_start, send_tts_stop, phase_speaking, start_audio_idle_window, welcome_playback_complete,
  dispatch_turn_end_policy, handle_text_response, set_turn_end_policy,
  begin_exclusive_media_playback, call_on_end, finish_tts_stop, sentence_control_delay,
  set_frame_duration_ms, should_dispatch_turn_end_policy, take_turn_end_policy, enqueue_elem,
  begin_interrupt, finish_pending_interrupt_stop,
}
use xiaozhi_esp32_server_rus.Chat.Detect.{goodbye_and_idle}
use xiaozhi_esp32_server_rus.Chat.TtsManager.Delayed.{
  DelayedSentenceTask, insert_delayed_task, fire_delayed,
}
use xiaozhi_esp32_server_rus.Chat.TtsManager.Sender.{
  Sender, Turn, slept, start_sender, take_elem, dispatch_all, taken, on_elem, on_kind, drain_queue,
  after_grace, after_tail, on_tts_stop, with_grace, run_sender_loop, wait_until_deadline,
  frame_wait, on_frame, after_frame_wait, send_frame,
}
use xiaozhi_esp32_server_rus.Chat.TtsManager.Stale.{seen, interrupt-silences}
use xiaozhi_esp32_server_rus.Chat.TtsManager.Synthesis
use xiaozhi_esp32_server_rus.Chat.TtsManager.Synthesis.{
  enqueue_tts_stop, process_item, streamed, handle_tts, frame_elem, end_elem,
}
use xiaozhi_esp32_server_rus.Chat.TtsManager.Sentence.{heard, stamped, opening, handle_tts-queue}
use xiaozhi_esp32_server_rus.Chat.TtsManager.Pacing.{stream, sent_ms, stream-pace}
use xiaozhi_esp32_server_rus.Chat.TtsManager.Stopping.{stops, begin_interrupts, interrupts-one_stop}

abbrev elem : AudioQueueKind → ℕ → AudioQueueElem
elem kind generation = record {
  kind = kind;
  payload = 7 ∷ 8 ∷ [];
  text = codes "hi";
  generation = generation;
  debug_reason = [];
  on_start = none;
  on_end = some 3;
}

abbrev task : ℕ → DelayedSentenceTask
task t = record { elem = elem sentence_end 1; execute_at = t }

-- A turn at a time, whose waits end on time.
abbrev turn : ℕ → Turn
turn now = record {
  now = now;
  goes_out = true;
  wait = record { came = []; ending = slept 0 };
  after_wait = now;
  grace = record { came = []; ending = slept 0 };
}

abbrev queued : TtsManager
queued = record new {
  tts_active = true;
  session_audio = elem frame 1 ∷ elem sentence_end 1 ∷ elem frame 1 ∷ [];
}

abbrev sender : Sender
sender = record {
  frame_duration = 60;
  allowed_ahead = 120;
  playback_tail = none;
  delayed = [];
  ready = [];
}

started : start_sender new ≡ sender
unfolding start_sender new
started = refl

-- Without an interruption the frame is sent; after it, two turns cancel two elements.
frame_sent : (run_sender_loop queued sender (turn 500 ∷ [])).2 ≡ send_audio (7 ∷ 8 ∷ []) ∷ []
unfolding run_sender_loop new take_elem dispatch_all taken on_elem on_kind on_frame frame_wait
    wait_until_deadline after_frame_wait send_frame
frame_sent = refl

interrupt-silences_example :
    (run_sender_loop
        (begin_interrupt queued true (codes "Abort"))
        sender
        (turn 500 ∷ turn 501 ∷ [])).1
      ≡ sender
    × ((run_sender_loop
          (begin_interrupt queued true (codes "Abort"))
          sender
          (turn 500 ∷ turn 501 ∷ [])).2
        ≡ drain_queue (seen queued.session_audio (turn 500 ∷ turn 501 ∷ [])))
unfolding new
interrupt-silences_example =
    interrupt-silences queued sender (turn 500 ∷ turn 501 ∷ []) true (codes "Abort")
      (omega arith, (omega arith, (omega arith, tt))) (omega arith)

abbrev item : TtsQueueItem
item = record { text = codes " hi "; generation = 1; on_start = some 4; on_end = some 5 }

abbrev given : List (Bool × List ℕ)
given = (false, []) ∷ (false, 1 ∷ []) ∷ (false, 2 ∷ []) ∷ (true, 3 ∷ []) ∷ []

handle_tts-queue_example :
    (handle_tts new item (streamed 60 given)).0.session_audio
    ≡ []
      ++ map
          (stamped 1)
          (opening false item ++ (map (frame_elem item) (heard given) ++ end_elem item ∷ []))
unfolding new trim_end_by trim_start_by is_whitespace
handle_tts-queue_example = handle_tts-queue new item 60 given refl

-- A frame that the service gives after an interruption is queued under the new generation, although its
-- sentence belongs to the old one, and is sent.
late_frame_sent :
    (run_sender_loop
      (Synthesis.on_frame (begin_interrupt new true []) item true (1 ∷ [])).0
      sender
      (turn 500 ∷ [])).2
    ≡ send_audio (1 ∷ []) ∷ []
unfolding run_sender_loop new Synthesis.on_frame begin_interrupt enqueue_elem take_elem dispatch_all
    taken on_elem on_kind on_frame frame_wait wait_until_deadline after_frame_wait send_frame
late_frame_sent = refl

-- Three frames at once are 60 ms each; the next waits until 560.
abbrev more : List (AudioQueueElem × Turn)
more = (elem frame 1, turn 501) ∷ (elem frame 1, turn 502) ∷ []

stream-pace_example : 500 + sent_ms 60 ((elem frame 1, turn 500) ∷ more) ≤ 560 + 120
unfolding new stream on_frame frame_wait wait_until_deadline after_frame_wait send_frame
stream-pace_example =
    stream-pace queued sender (elem frame 1) (turn 500) more (turn 503) 560
      (refl, (refl, (refl, tt))) refl

interrupts-one_stop_example :
    (stops
        (finish_pending_interrupt_stop
          (begin_interrupts queued ((false, codes "media") ∷ (true, codes "Abort") ∷ []))).1
      ≡ 1)
    × ((finish_pending_interrupt_stop (
          begin_interrupts queued
            ((false, codes "media") ∷ (true, codes "Abort") ∷ []))).0.tts_active
        ≡ false)
    × (finish_pending_interrupt_stop
          (finish_pending_interrupt_stop
            (begin_interrupts queued ((false, codes "media") ∷ (true, codes "Abort") ∷ []))).0
        ≡ (
          (finish_pending_interrupt_stop
              (begin_interrupts queued ((false, codes "media") ∷ (true, codes "Abort") ∷ []))).0,
          [],
        ))
unfolding new
interrupts-one_stop_example =
    interrupts-one_stop queued false (codes "media") ((true, codes "Abort") ∷ []) refl

-- A text that is queued, synthesized and played to its end.
abbrev spoken : TtsManager
spoken =
    (handle_text_response (set_turn_end_policy new goodbye_and_idle) (codes "hi") true true none
      (some 5)).0

abbrev to_play : TtsManager
to_play =
    enqueue_tts_stop
      (process_item spoken (record item { on_start = none; text = codes "hi" })
        (streamed 60 ((false, 1 ∷ []) ∷ []))).0
      (codes "done")

queued_once :
    (map (λ (i : TtsQueueItem). i.text) spoken.tts_queue ≡ codes "hi" ∷ [])
    × (spoken.pending_tts_jobs ≡ 1)
unfolding handle_text_response set_turn_end_policy new trim_end_by trim_start_by is_whitespace
queued_once = (refl, refl)

played :
    (run_sender_loop to_play sender (turn 500 ∷ turn 500 ∷ turn 500 ∷ turn 500 ∷ turn 560 ∷ [])).2
    ≡ phase_speaking
      ∷ send_tts_start
      ∷ send_audio (1 ∷ [])
      ∷ send_tts_stop
      ∷ start_audio_idle_window
      ∷ welcome_playback_complete true
      ∷ dispatch_turn_end_policy goodbye_and_idle
      ∷ []
unfolding run_sender_loop take_elem dispatch_all taken enqueue_tts_stop enqueue_elem process_item
    handle_text_response trim_end_by trim_start_by is_whitespace set_turn_end_policy new handle_tts
    Synthesis.close_sentence Synthesis.on_frames Synthesis.on_frame Synthesis.open_sentence
    Synthesis.enqueue_tts_start insert_delayed_task after_frame_wait after_grace after_tail
    drain_queue frame_wait on_elem on_frame on_kind on_tts_stop send_frame wait_until_deadline
    with_grace finish_tts_stop sentence_control_delay set_frame_duration_ms
    should_dispatch_turn_end_policy take_turn_end_policy contains starts_with
played = refl

-- A sentence that is due after an interruption is not told.
due_late :
    fire_delayed (begin_exclusive_media_playback queued).0 (task 1 ∷ []) []
    ≡ ([], [], call_on_end 3 true ∷ [])
unfolding fire_delayed begin_exclusive_media_playback begin_interrupt new
due_late = refl
