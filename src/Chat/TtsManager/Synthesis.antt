-- ===== src/Chat/TtsManager/Synthesis.antt =====
-- Synthesis of the queued sentences in tts_manager.rs: `process_tts_queue`, `handle_tts` and the
-- elements that they queue. The speech service is outside: it gives the frames, each with whether the
-- session is aborted when it comes, or fails.
use Prim.Native.Nat.{max}
use xiaozhi_esp32_server_rus.Common.{
  ℕ, ◌+◌, ◌-◌, ◌%◌, ◌^◌, Bool, true, false, Option, none, List, [], ◌∷◌, ◌==◌, if◌then◌else◌,
}
use xiaozhi_esp32_server_rus.Common.Text.{Text, codes, trim}
use xiaozhi_esp32_server_rus.Chat.TtsManager.{
  AudioQueueElem, AudioQueueKind, frame, sentence_start, sentence_end, tts_start, tts_stop,
  TtsManager, TtsQueueItem, Effect, ended, is_blank, enqueue_elem, set_frame_duration_ms,
}

-- The shape of an element that carries a text and no audio, and no callback.
abbrev pub plain : AudioQueueKind → Text → AudioQueueElem
plain kind text = record {
  kind = kind;
  payload = [];
  text = text;
  generation = 0;
  debug_reason = [];
  on_start = none;
  on_end = none;
}

unfoldable pub enqueue_tts_start : TtsManager → Text → TtsManager
enqueue_tts_start m reason = enqueue_elem m (record (plain tts_start []) { debug_reason = reason })

unfoldable pub enqueue_tts_stop : TtsManager → Text → TtsManager
enqueue_tts_stop m reason = enqueue_elem m (record (plain tts_stop []) { debug_reason = reason })

unfoldable enqueue_sentence_start : TtsManager → Text → TtsManager
enqueue_sentence_start m text = enqueue_elem m (plain sentence_start text)

unfoldable enqueue_sentence_end : TtsManager → Text → TtsManager
enqueue_sentence_end m text = enqueue_elem m (plain sentence_end text)

unfoldable enqueue_frame : TtsManager → List ℕ → TtsManager
enqueue_frame m audio = enqueue_elem m (record (plain frame []) { payload = audio })

abbrev pub start_elem : TtsQueueItem → Option ℕ → AudioQueueElem
start_elem item on_start = record (plain sentence_start (trim item.text)) {
  generation = item.generation;
  on_start = on_start;
}

abbrev pub frame_elem : TtsQueueItem → List ℕ → AudioQueueElem
frame_elem item audio = record (plain frame []) { payload = audio; generation = item.generation }

abbrev pub end_elem : TtsQueueItem → AudioQueueElem
end_elem item = record (plain sentence_end (trim item.text)) {
  generation = item.generation;
  on_end = item.on_end;
}

-- Before the first frame, or at the end when there was none.
unfoldable pub open_sentence : TtsManager → TtsQueueItem → TtsManager
open_sentence m item =
    enqueue_elem (if m.tts_active then m else enqueue_tts_start m (codes "handleTts"))
      (start_elem item item.on_start)

-- A frame from the service, with whether the sentence is started; an empty one is passed over.
unfoldable pub on_frame : TtsManager → TtsQueueItem → Bool → List ℕ → TtsManager × Bool
on_frame m item started [] = (m, started)
on_frame m item started (b ∷ bs) =
    (enqueue_elem (if started then m else open_sentence m item) (frame_elem item (b ∷ bs)), true)

-- The frames up to the first that finds the session aborted.
unfoldable pub on_frames :
    TtsManager → TtsQueueItem → Bool → List (Bool × List ℕ) → TtsManager × Bool
on_frames m item started [] = (m, started)
on_frames m item started ((true, audio) ∷ fs) = (m, started)
on_frames m item started ((false, audio) ∷ fs) =
    let (m', started') = on_frame m item started audio in on_frames m' item started' fs

unfoldable pub close_sentence : TtsManager → TtsQueueItem → Bool → TtsManager
close_sentence m item started =
    enqueue_elem (if started then m else open_sentence m item) (end_elem item)

-- What the session and its speech service answer: the frame duration of the session, once it has one,
-- and the frames.
pub data Speech : Type 0 where
  no_media : Speech
  no_stream : ℕ → Speech
  streamed : ℕ → List (Bool × List ℕ) → Speech

abbrev synthesized : TtsManager → TtsQueueItem → Speech → TtsManager
synthesized m item no_media = m
synthesized m item (no_stream frame_duration) = set_frame_duration_ms m (max frame_duration 1)
synthesized m item (streamed frame_duration frames) =
    let (m', started) =
      on_frames (set_frame_duration_ms m (max frame_duration 1)) item false frames in
    close_sentence m' item started

-- With no other call in between. Without frames nothing is queued, and the end of the sentence is not
-- told.
unfoldable pub handle_tts : TtsManager → TtsQueueItem → Speech → TtsManager × List Effect
handle_tts m item speech =
    if is_blank item.text then (m, ended item.on_end false) else (synthesized m item speech, [])

-- `fetch_sub(1)`
abbrev job_done : TtsManager → TtsManager
job_done m = record m { pending_tts_jobs = (m.pending_tts_jobs + (2 ^ 64 - 1)) % 2 ^ 64 }

-- One item of the queue of texts.
unfoldable pub process_item : TtsManager → TtsQueueItem → Speech → TtsManager × List Effect
process_item m item speech =
    if item.generation == m.audio_generation
    then (let (m', es) = handle_tts m item speech in (job_done m', es))
    else (job_done m, ended item.on_end true)
