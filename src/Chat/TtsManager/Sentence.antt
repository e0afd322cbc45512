-- ===== src/Chat/TtsManager/Sentence.antt =====
-- What the synthesis of a sentence in tts_manager.rs puts into the queue.
use Prim.Native.Nat.{max}
use xiaozhi_esp32_server_rus.Common.{
  ℕ, ◌≡◌, refl, sym, ap, ◌∙◌, Bool, true, false, List, [], ◌∷◌, ◌++◌, map, append_assoc, append-nil,
  if◌then◌else◌,
}
use xiaozhi_esp32_server_rus.Common.Text.{codes}
use xiaozhi_esp32_server_rus.Chat.TtsManager.{
  AudioQueueElem, tts_start, TtsManager, TtsQueueItem, is_blank, enqueue_elem,
  set_frame_duration_ms,
}
use xiaozhi_esp32_server_rus.Chat.TtsManager.Synthesis.{
  plain, start_elem, frame_elem, end_elem, enqueue_tts_start, open_sentence, on_frame, on_frames,
  close_sentence, streamed, handle_tts,
}

-- The frames that are played: those with audio, up to the first that finds the session aborted.
abbrev pub heard : List (Bool × List ℕ) → List (List ℕ)
heard [] = []
heard ((true, audio) ∷ fs) = []
heard ((false, []) ∷ fs) = heard fs
heard ((false, b ∷ bs) ∷ fs) = (b ∷ bs) ∷ heard fs

abbrev pub stamped : ℕ → AudioQueueElem → AudioQueueElem
stamped g e = record e { generation = g }

-- A start of the speech, unless it is active, and the start of the sentence.
abbrev pub opening : Bool → TtsQueueItem → List AudioQueueElem
opening true item = start_elem item item.on_start ∷ []
opening false item =
    record (plain tts_start []) { debug_reason = codes "handleTts" }
    ∷ start_elem item item.on_start
    ∷ []

enqueue_all : TtsManager → List AudioQueueElem → TtsManager
enqueue_all m [] = m
enqueue_all m (e ∷ es) = enqueue_all (enqueue_elem m e) es

enqueue_all-queue :
    (m : TtsManager) (es : List AudioQueueElem)
    → (enqueue_all m es).session_audio ≡ m.session_audio ++ map (stamped m.audio_generation) es
unfolding enqueue_all enqueue_elem
enqueue_all-queue m [] = sym (append-nil m.session_audio)
enqueue_all-queue m (e ∷ es) =
    enqueue_all-queue (enqueue_elem m e) es
    ∙ append_assoc m.session_audio (stamped m.audio_generation e ∷ [])
        (map (stamped m.audio_generation) es)

open-all :
    (m : TtsManager) (item : TtsQueueItem) (es : List AudioQueueElem)
    → enqueue_all (open_sentence m item) es ≡ enqueue_all m (opening m.tts_active item ++ es)
unfolding enqueue_all enqueue_elem open_sentence enqueue_tts_start
open-all m item es =
    elim m.tts_active
      as (λ b.
        enqueue_all
          (enqueue_elem (if b then m else enqueue_tts_start m (codes "handleTts"))
            (start_elem item item.on_start))
          es
        ≡ enqueue_all m (opening b item ++ es)) [ true ↦ refl | false ↦ refl ]

started-all :
    (m : TtsManager) (item : TtsQueueItem) (fs : List (Bool × List ℕ))
    → close_sentence (on_frames m item true fs).0 item (on_frames m item true fs).1
      ≡ enqueue_all m (map (frame_elem item) (heard fs) ++ end_elem item ∷ [])
unfolding enqueue_all on_frames on_frame close_sentence
started-all m item [] = refl
started-all m item ((true, audio) ∷ fs) = refl
started-all m item ((false, []) ∷ fs) = started-all m item fs
started-all m item ((false, b ∷ bs) ∷ fs) =
    started-all (enqueue_elem m (frame_elem item (b ∷ bs))) item fs

frames-all :
    (m : TtsManager) (item : TtsQueueItem) (fs : List (Bool × List ℕ))
    → close_sentence (on_frames m item false fs).0 item (on_frames m item false fs).1
      ≡ enqueue_all m
          (opening m.tts_active item ++ (map (frame_elem item) (heard fs) ++ end_elem item ∷ []))
unfolding enqueue_all on_frames on_frame close_sentence
frames-all m item [] = open-all m item (end_elem item ∷ [])
frames-all m item ((true, audio) ∷ fs) = open-all m item (end_elem item ∷ [])
frames-all m item ((false, []) ∷ fs) = frames-all m item fs
frames-all m item ((false, b ∷ bs) ∷ fs) =
    started-all (enqueue_elem (open_sentence m item) (frame_elem item (b ∷ bs))) item fs
    ∙ open-all m item (map (frame_elem item) (heard ((false, b ∷ bs) ∷ fs)) ++ end_elem item ∷ [])

-- The sentence of an item with text, whatever frames the service gives: a start of the speech unless it
-- is active, the start of the sentence, the frames with audio up to the first that finds the session
-- aborted, and the end of the sentence with the item's callback, all under the generation of the moment.
pub handle_tts-queue :
    (m : TtsManager) (item : TtsQueueItem) (frame_duration : ℕ) (frames : List (Bool × List ℕ))
    → (is_blank item.text ≡ false)
    → (handle_tts m item (streamed frame_duration frames)).0.session_audio
      ≡ m.session_audio
        ++ map (stamped m.audio_generation) (
            opening m.tts_active item
            ++ (map (frame_elem item) (heard frames) ++ end_elem item ∷ []))
unfolding handle_tts set_frame_duration_ms
handle_tts-queue m item frame_duration frames h = rw h (
    ap (λ (x : TtsManager). x.session_audio)
      (frames-all (set_frame_duration_ms m (max frame_duration 1)) item frames)
    ∙ enqueue_all-queue (set_frame_duration_ms m (max frame_duration 1))
        (opening m.tts_active item ++ (map (frame_elem item) (heard frames) ++ end_elem item ∷ [])))
