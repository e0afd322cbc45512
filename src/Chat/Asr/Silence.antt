-- ===== src/Chat/Asr/Silence.antt =====
-- When a frame ends the turn: the silence behind speech, as `process_pcm_frame` counts it.
use Prim.Native.Nat.{min, max}
use xiaozhi_esp32_server_rus.Common.{
  ℕ, suc, ◌+◌, ◌*◌, ◌≤◌, ◌<◌, ◌≡◌, refl, Bool, true, false, not, ◌&&◌, none, some, List, [], ◌∷◌,
  ◌++◌, ltb, leb, if◌then◌else◌, length, length-append, All, arith, Bool-cases, inl, inr, ◌∙◌,
}
use xiaozhi_esp32_server_rus.Common.Int.{ℤ, pos, negsuc, exceeds}
use xiaozhi_esp32_server_rus.Chat.State.{is_listening}
use xiaozhi_esp32_server_rus.Chat.Asr.Pipeline.{
  AsrPipeline, saturating_add, i64_max, restart_asr_recognition,
}
use xiaozhi_esp32_server_rus.Chat.Asr.Frame.{Frame, or_false, is_manual, process_pcm_frame}

suc_mul : (n m : ℕ) → suc n * m ≡ n * m + m
suc_mul n m = grind arith

exceeds_mono :
    (n k : ℕ) (z : ℤ) → exceeds n z ≡ true → n ≤ i64_max → exceeds (saturating_add n k) z ≡ true
exceeds_mono n k (pos z) h l = ground arith
exceeds_mono n k (negsuc z) h l = refl

module _ {A : Type 0} where
  -- The buffer with the frame is never shorter than the frame.
  pub buffer_le : (xs ys : List A) → leb (length ys) (length (xs ++ ys)) ≡ true
  buffer_le xs ys = ground (arith, length-append xs ys)

  -- A frame ends the turn exactly when the turn is open, the device listens, neither the manual mode
  -- nor the recogniser's own detection is on, the detector hears no voice (or fails) where there was
  -- voice before, at a time that is not 0, the end is not suppressed, at least 100 ms of voice were
  -- counted, and the silence with this frame exceeds the threshold.
  pub process-ended :
      (p : AsrPipeline A) (f : Frame A)
      → (process_pcm_frame p f).1 ≡ (
          not p.voice.client_voice_stop
          && is_listening f.listen_phase
          && not (is_manual f.listen_mode)
          && not p.asr_auto_end
          && not (or_false f.heard)
          && p.voice.have_voice
          && ltb 0 p.voice.have_voice_last_time_ms
          && not f.suppress_end_detection
          && leb 100 p.vad.voice_duration_in_session_ms
          && exceeds
              (saturating_add p.vad.idle_duration_ms (max p.frame_duration_ms 1))
              p.voice.silence_threshold_ms)
  unfolding process_pcm_frame
  process-ended p f = ground (arith, buffer_le p.asr_audio_buffer f.pcm_f32)

  -- Once a frame has ended the turn, no further frame changes the pipeline, sends anything or ends
  -- it again.
  process-process_ended :
      (p : AsrPipeline A) (f g : Frame A)
      → (process_pcm_frame p f).1 ≡ true
      → process_pcm_frame (process_pcm_frame p f).0 g ≡ ((process_pcm_frame p f).0, false, none)
  unfolding process_pcm_frame
  process-process_ended p f g h = ground (arith, buffer_le p.asr_audio_buffer f.pcm_f32)

  -- The frames of a turn, up to the one that ends it, and whether one did.
  unfoldable pub run_frames : AsrPipeline A → List (Frame A) → AsrPipeline A × Bool
  run_frames p [] = (p, false)
  run_frames p (f ∷ fs) =
      let (q, ended, closed) = process_pcm_frame p f in
      let rest = run_frames q fs in if ended then (q, true) else rest

  -- A frame that the detector judges, while the device listens.
  pub record IsJudged (f : Frame A) : Type 0 where
    pub listens : is_listening f.listen_phase ≡ true
    pub by_detector : is_manual f.listen_mode ≡ false
    pub not_suppressed : f.suppress_end_detection ≡ false

  abbrev pub IsSilent : Frame A → Type 0
  IsSilent f = IsJudged f × (or_false f.heard ≡ false)

  -- A turn in which at least 100 ms of voice were heard, of which the last was heard lately.
  pub record IsInSpeech (p : AsrPipeline A) (t : ℕ) : Type 0 where
    pub is_open : p.voice.client_voice_stop ≡ false
    pub detects : p.asr_auto_end ≡ false
    pub heard_voice : p.voice.have_voice ≡ true
    pub at_a_time : 0 < p.voice.have_voice_last_time_ms
    pub long_enough : 100 ≤ p.vad.voice_duration_in_session_ms
    pub threshold : p.voice.silence_threshold_ms ≡ pos t

  process-IsInSpeech :
      (p : AsrPipeline A) (f : Frame A) (t : ℕ)
      → IsInSpeech p t
      → IsSilent f
      → (process_pcm_frame p f).1 ≡ false
      → IsInSpeech (process_pcm_frame p f).0 t
        × ((process_pcm_frame p f).0.vad.idle_duration_ms
            ≡ saturating_add p.vad.idle_duration_ms (max p.frame_duration_ms 1))
        × ((process_pcm_frame p f).0.frame_duration_ms ≡ p.frame_duration_ms)
  unfolding process_pcm_frame
  process-IsInSpeech p f t s v h = ground (arith, buffer_le p.asr_audio_buffer f.pcm_f32)

  silent-ended :
      (p : AsrPipeline A) (f : Frame A) (t : ℕ)
      → IsInSpeech p t
      → IsSilent f
      → (process_pcm_frame p f).1
        ≡ ltb t (saturating_add p.vad.idle_duration_ms (max p.frame_duration_ms 1))
  silent-ended p f t s v = ground (arith, process-ended p f)

  run_frames-silent :
      (p : AsrPipeline A) (fs : List (Frame A)) (t : ℕ)
      → IsInSpeech p t
      → All IsSilent fs
      → p.vad.idle_duration_ms ≤ t
      → (run_frames p fs).1
        ≡ ltb t (min (p.vad.idle_duration_ms + length fs * max p.frame_duration_ms 1) i64_max)
  unfolding run_frames
  run_frames-silent p [] t s v l = ground arith
  run_frames-silent p (f ∷ fs) t s v l = elim (Bool-cases (process_pcm_frame p f).1) [
    | inl e ↦
        rw e (
          ground (arith, silent-ended p f t s v.0, suc_mul (length fs) (max p.frame_duration_ms 1)))
    | inr e ↦ rw e (
        let (s', i, d) = process-IsInSpeech p f t s v.0 e in
        run_frames-silent (process_pcm_frame p f).0 fs t s' v.1
          (ground (arith, silent-ended p f t s v.0))
        ∙ ground (arith, suc_mul (length fs) (max p.frame_duration_ms 1)))
  ]

  voiced-IsInSpeech :
      (p : AsrPipeline A) (g : Frame A) (t : ℕ)
      → p.voice.client_voice_stop ≡ false
      → p.asr_auto_end ≡ false
      → p.voice.silence_threshold_ms ≡ pos t
      → IsJudged g
      → g.heard ≡ some true
      → 0 < g.now_ms
      → 100 ≤ (process_pcm_frame p g).0.vad.voice_duration_in_session_ms
      → IsInSpeech (process_pcm_frame p g).0 t
  unfolding process_pcm_frame
  voiced-IsInSpeech p g t o a e j v n w = ground (arith, buffer_le p.asr_audio_buffer g.pcm_f32)

  voiced_idle :
      (p : AsrPipeline A) (g : Frame A)
      → p.voice.client_voice_stop ≡ false
      → p.asr_auto_end ≡ false
      → IsJudged g
      → g.heard ≡ some true
      → ((process_pcm_frame p g).0.vad.idle_duration_ms ≡ 0)
        × ((process_pcm_frame p g).0.frame_duration_ms ≡ p.frame_duration_ms)
  unfolding process_pcm_frame
  voiced_idle p g o a j v = ground (arith, buffer_le p.asr_audio_buffer g.pcm_f32)

  -- After a voiced frame that brings the voice of the turn to 100 ms or more, silent frames end the
  -- turn exactly when together they are longer than the threshold, which is not negative.
  pub run_frames_ended :
      (p : AsrPipeline A) (g : Frame A) (fs : List (Frame A)) (t : ℕ)
      → p.voice.client_voice_stop ≡ false
      → p.asr_auto_end ≡ false
      → p.voice.silence_threshold_ms ≡ pos t
      → IsJudged g
      → g.heard ≡ some true
      → 0 < g.now_ms
      → 100 ≤ (process_pcm_frame p g).0.vad.voice_duration_in_session_ms
      → All IsSilent fs
      → (run_frames (process_pcm_frame p g).0 fs).1
        ≡ ltb t (min (length fs * max p.frame_duration_ms 1) i64_max)
  run_frames_ended p g fs t o a e j v n w s =
      run_frames-silent (process_pcm_frame p g).0 fs t (voiced-IsInSpeech p g t o a e j v n w) s
        (ground (arith, voiced_idle p g o a j v))
      ∙ ground (arith, voiced_idle p g o a j v)

  -- Less than 100 ms of voice are forgotten at the first silent frame behind them: the turn goes on,
  -- and the next frames are taken as before any voice.
  process-forgets :
      (p : AsrPipeline A) (f : Frame A)
      → p.asr_auto_end ≡ false
      → p.voice.client_voice_stop ≡ false
      → IsSilent f
      → 0 < p.voice.have_voice_last_time_ms
      → p.vad.voice_duration_in_session_ms < 100
      → ((process_pcm_frame p f).1 ≡ false)
        × ((process_pcm_frame p f).0.voice.have_voice ≡ false)
        × (p.voice.have_voice ≡ true
            → (process_pcm_frame p f).0.vad.voice_duration_in_session_ms ≡ 0)
  unfolding process_pcm_frame
  process-forgets p f a o v n l = ground (arith, buffer_le p.asr_audio_buffer f.pcm_f32)

  record Ended (p : AsrPipeline A) : Type 0 where
    pub spoke : p.voice.have_voice ≡ true
    pub before : 0 < p.voice.have_voice_last_time_ms
    pub counted : 100 ≤ p.vad.voice_duration_in_session_ms
    pub judges : p.asr_auto_end ≡ false
    pub over : exceeds p.vad.idle_duration_ms p.voice.silence_threshold_ms ≡ true
    pub bounded : p.vad.idle_duration_ms ≤ i64_max

  process-Ended :
      (p : AsrPipeline A) (f : Frame A)
      → (process_pcm_frame p f).1 ≡ true
      → Ended (process_pcm_frame p f).0
  unfolding process_pcm_frame
  process-Ended p f h = ground (arith, buffer_le p.asr_audio_buffer f.pcm_f32)

  restart-Ended : (p : AsrPipeline A) → Ended p → Ended (restart_asr_recognition p true).0
  unfolding restart_asr_recognition
  restart-Ended p e = ground arith

  restart_open :
      (p : AsrPipeline A) → (restart_asr_recognition p true).0.voice.client_voice_stop ≡ false
  unfolding restart_asr_recognition
  restart_open p = refl

  -- After silence has ended a turn, a silent frame that comes first in the next turn of the same
  -- pipeline ends that turn at once, before any voice in it: `restart_asr_recognition` leaves the
  -- voice, its duration and the silence of the turn before in place.
  pub restart-process_ended :
      (p : AsrPipeline A) (f g : Frame A)
      → (process_pcm_frame p f).1 ≡ true
      → IsSilent g
      → (process_pcm_frame (restart_asr_recognition (process_pcm_frame p f).0 true).0 g).1 ≡ true
  restart-process_ended p f g h s =
      let q = (restart_asr_recognition (process_pcm_frame p f).0 true).0 in
      let e = restart-Ended (process_pcm_frame p f).0 (process-Ended p f h) in
      ground (
        arith,
        restart_open (process_pcm_frame p f).0,
        process-ended q g,
        exceeds_mono q.vad.idle_duration_ms (max q.frame_duration_ms 1)
            q.voice.silence_threshold_ms,
      )
