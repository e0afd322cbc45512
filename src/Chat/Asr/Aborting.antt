-- ===== src/Chat/Asr/Aborting.antt =====
-- The calls that a pipeline gets, in any order, and who learns that a turn is given up.
use xiaozhi_esp32_server_rus.Common.{
  ℕ, ◌≡◌, refl, Bool, true, false, Option, none, some, List, [], ◌∷◌, arith,
}
use xiaozhi_esp32_server_rus.Chat.Asr.Pipeline.{
  AsrPipeline, AsrTurn, new, has_open_audio_input, on_voice_silence, on_manual_stop, abort_turn,
  abort_loop, resume_audio_idle, start_recognition_loop, restart_asr_recognition, add_audio_data,
  mark_text_received, reset_received_text, cancelled_handle, add_to_turn,
}
use xiaozhi_esp32_server_rus.Chat.Asr.Frame.{Frame, process_pcm_frame}
use xiaozhi_esp32_server_rus.Chat.Asr.Silence.{buffer_le}

-- `restarts` has whether the recogniser took the new channel, `starts_loop` the new task.
pub data Call (A : Type 0) : Type 0 where
  frames : Frame A → Call A
  adds : List A → Call A
  silences stops aborts_turn aborts_loop resumes marks resets : Call A
  starts_loop : ℕ → Call A
  restarts : Bool → Call A

module _ {A : Type 0} where
  unfoldable pub apply : AsrPipeline A → Call A → AsrPipeline A
  apply p (frames f) = (process_pcm_frame p f).0
  apply p (adds pcm) = add_audio_data p pcm
  apply p silences = (on_voice_silence p).0
  apply p stops = (on_manual_stop p).0
  apply p aborts_turn = (abort_turn p).0
  apply p aborts_loop = (abort_loop p).0
  apply p resumes = resume_audio_idle p
  apply p marks = mark_text_received p
  apply p resets = reset_received_text p
  apply p (starts_loop task) = (start_recognition_loop p task).0
  apply p (restarts connected) = (restart_asr_recognition p connected).0

  unfoldable pub apply_all : AsrPipeline A → List (Call A) → AsrPipeline A
  apply_all p [] = p
  apply_all p (c ∷ cs) = apply_all (apply p c) cs

  add_to_turn-cancelled :
      (t : Option (AsrTurn A)) (pcm : List A)
      → cancelled_handle (add_to_turn t pcm) ≡ cancelled_handle t
  add_to_turn-cancelled none pcm = refl
  add_to_turn-cancelled (some t) pcm = refl

  frame-cancelled :
      (p : AsrPipeline A) (f : Frame A)
      → cancelled_handle p.turn ≡ none
      → cancelled_handle (process_pcm_frame p f).0.turn ≡ none
  unfolding process_pcm_frame
  frame-cancelled p f h = ground (arith, buffer_le p.asr_audio_buffer f.pcm_f32)

  apply-cancelled :
      (p : AsrPipeline A) (c : Call A)
      → cancelled_handle p.turn ≡ none
      → cancelled_handle (apply p c).turn ≡ none
  unfolding apply add_audio_data on_voice_silence on_manual_stop abort_turn abort_loop
      resume_audio_idle mark_text_received reset_received_text start_recognition_loop
      restart_asr_recognition
  apply-cancelled p (frames f) h = frame-cancelled p f h
  apply-cancelled p (adds pcm) h = ground (arith, add_to_turn-cancelled p.turn pcm)
  apply-cancelled p (restarts true) h = refl
  apply-cancelled p (restarts false) h = refl
  apply-cancelled p c h = ground arith

  all-cancelled :
      (p : AsrPipeline A) (cs : List (Call A))
      → cancelled_handle p.turn ≡ none
      → cancelled_handle (apply_all p cs).turn ≡ none
  unfolding apply_all
  all-cancelled p [] h = h
  all-cancelled p (c ∷ cs) h = all-cancelled (apply p c) cs (apply-cancelled p c h)

  -- However a pipeline was used since it was made, giving up its turn sends `Cancelled` to nobody:
  -- the turn that a restart makes does not keep the sender of its outcome.
  pub abort_turn_silent :
      (threshold : ℕ) (auto_end connected : Bool) (cs : List (Call A))
      → let p = apply_all (new threshold auto_end) cs in
        ((abort_turn p).1 ≡ none)
        × ((abort_loop p).1 ≡ none)
        × ((restart_asr_recognition p connected).1 ≡ none)
        × (has_open_audio_input (abort_turn p).0 ≡ false)
  unfolding abort_turn abort_loop restart_asr_recognition has_open_audio_input new
  abort_turn_silent threshold auto_end connected cs =
      let h = all-cancelled (new threshold auto_end) cs refl in ground arith
