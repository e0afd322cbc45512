-- ===== src/Chat/Asr/Preroll.antt =====
-- What the recogniser is sent: the samples before the first voice, and the buffer that holds them.
use xiaozhi_esp32_server_rus.Common.{
  ◌<◌, ◌≡◌, refl, sym, ap, ◌∙◌, true, false, some, List, [], ◌∷◌, ◌++◌, append-nil, append_assoc,
  length, length-append, length-drop, ◌-◌, All, arith,
}
use xiaozhi_esp32_server_rus.Chat.Asr.Pipeline.{AsrPipeline, add_to_turn}
use xiaozhi_esp32_server_rus.Chat.Asr.Frame.{Frame, last_samples, keep_samples, process_pcm_frame}
use xiaozhi_esp32_server_rus.Chat.Asr.Silence.{
  IsJudged, IsSilent, run_frames, buffer_le, process-ended,
}

module _ {A : Type 0} where
  -- The detector judges the frames, and has heard no voice.
  pub record IsQuiet (p : AsrPipeline A) : Type 0 where
    pub is_open : p.voice.client_voice_stop ≡ false
    pub detects : p.asr_auto_end ≡ false
    pub no_voice : p.voice.have_voice ≡ false

  pub record IsVoiced (f : Frame A) : Type 0 where
    pub judged : IsJudged f
    pub is_heard : f.heard ≡ some true
    pub not_empty : 0 < length f.pcm_f32

  abbrev pub joined : List (Frame A) → List A
  joined [] = []
  joined (f ∷ fs) = f.pcm_f32 ++ joined fs

  process-IsQuiet :
      (p : AsrPipeline A) (f : Frame A)
      → IsQuiet p
      → IsSilent f
      → ((process_pcm_frame p f).1 ≡ false)
        × IsQuiet (process_pcm_frame p f).0
        × ((process_pcm_frame p f).0.turn ≡ p.turn)
        × ((process_pcm_frame p f).0.asr_audio_buffer ≡ p.asr_audio_buffer ++ f.pcm_f32)
  unfolding process_pcm_frame
  process-IsQuiet p f q s = ground (arith, buffer_le p.asr_audio_buffer f.pcm_f32)

  run_frames-IsQuiet :
      (p : AsrPipeline A) (fs : List (Frame A))
      → IsQuiet p
      → All IsSilent fs
      → IsQuiet (run_frames p fs).0
        × ((run_frames p fs).0.turn ≡ p.turn)
        × ((run_frames p fs).0.asr_audio_buffer ≡ p.asr_audio_buffer ++ joined fs)
  unfolding run_frames
  run_frames-IsQuiet p [] q s = (q, refl, sym (append-nil p.asr_audio_buffer))
  run_frames-IsQuiet p (f ∷ fs) q (s, ss) =
      let (e, q', t, b) = process-IsQuiet p f q s in
      let (q'', t', b') = run_frames-IsQuiet (process_pcm_frame p f).0 fs q' ss in
      rw e (
        q'',
        t' ∙ t,
        b'
            ∙ ap (λ (x : List A). x ++ joined fs) b
            ∙ append_assoc p.asr_audio_buffer f.pcm_f32 (joined fs),
      )

  last_not_empty :
      (xs ys : List A) → 0 < length ys → 0 < length (last_samples keep_samples (xs ++ ys))
  last_not_empty xs ys h =
      ground (arith, length-append xs ys, length-drop (length (xs ++ ys) - keep_samples) (xs ++ ys))

  first_voice :
      (p : AsrPipeline A) (g : Frame A)
      → IsQuiet p
      → IsVoiced g
      → ((process_pcm_frame p g).0.turn
          ≡ add_to_turn p.turn (last_samples keep_samples (p.asr_audio_buffer ++ g.pcm_f32)))
        × ((process_pcm_frame p g).0.asr_audio_buffer ≡ [])
        × ((process_pcm_frame p g).0.voice.have_voice ≡ true)
  unfolding process_pcm_frame
  first_voice p g q v =
      ground
        (arith, buffer_le p.asr_audio_buffer g.pcm_f32, last_not_empty p.asr_audio_buffer g.pcm_f32)

  -- Silent frames before any voice are only kept. The first voiced frame, which is not empty, sends
  -- one chunk: the last 3200 samples of the buffer, of those frames and of its own; and the buffer
  -- is empty then.
  pub preroll :
      (p : AsrPipeline A) (fs : List (Frame A)) (g : Frame A)
      → IsQuiet p
      → All IsSilent fs
      → IsVoiced g
      → ((process_pcm_frame (run_frames p fs).0 g).0.turn
          ≡ add_to_turn p.turn
              (last_samples keep_samples ((p.asr_audio_buffer ++ joined fs) ++ g.pcm_f32)))
        × ((process_pcm_frame (run_frames p fs).0 g).0.asr_audio_buffer ≡ [])
  preroll p fs g q s v =
      let (q', t, b) = run_frames-IsQuiet p fs q s in
      let (t', b', h) = first_voice (run_frames p fs).0 g q' v in ground arith

  voice_state :
      (p : AsrPipeline A) (g : Frame A)
      → IsQuiet p
      → IsVoiced g
      → 0 < g.now_ms
      → p.vad.voice_duration_in_session_ms ≡ 0
      → p.frame_duration_ms < 100
      → ((process_pcm_frame p g).0.voice.client_voice_stop ≡ false)
        × ((process_pcm_frame p g).0.asr_auto_end ≡ false)
        × (0 < (process_pcm_frame p g).0.voice.have_voice_last_time_ms)
        × ((process_pcm_frame p g).0.vad.voice_duration_in_session_ms < 100)
  unfolding process_pcm_frame
  voice_state p g q v n z d = ground (arith, buffer_le p.asr_audio_buffer g.pcm_f32)

  forgotten :
      (p : AsrPipeline A) (f : Frame A)
      → p.voice.client_voice_stop ≡ false
      → p.asr_auto_end ≡ false
      → p.voice.have_voice ≡ true
      → 0 < p.voice.have_voice_last_time_ms
      → p.vad.voice_duration_in_session_ms < 100
      → IsSilent f
      → 0 < length f.pcm_f32
      → IsQuiet (process_pcm_frame p f).0
        × ((process_pcm_frame p f).0.turn ≡ add_to_turn p.turn f.pcm_f32)
        × ((process_pcm_frame p f).0.asr_audio_buffer ≡ p.asr_audio_buffer ++ f.pcm_f32)
  unfolding process_pcm_frame
  forgotten p f o a h n l s e = ground (arith, buffer_le p.asr_audio_buffer f.pcm_f32)

  -- A silent frame behind a first voiced frame of less than 100 ms is sent twice: by itself, and at
  -- the head of the chunk that the next voiced frame sends, unless it is cut off there.
  sent_twice :
      (p : AsrPipeline A) (g f h : Frame A)
      → IsQuiet p
      → p.vad.voice_duration_in_session_ms ≡ 0
      → p.frame_duration_ms < 100
      → IsVoiced g
      → 0 < g.now_ms
      → IsSilent f
      → 0 < length f.pcm_f32
      → IsVoiced h
      → (run_frames p (g ∷ f ∷ h ∷ [])).0.turn
        ≡ add_to_turn
            (add_to_turn
              (add_to_turn p.turn (last_samples keep_samples (p.asr_audio_buffer ++ g.pcm_f32)))
              f.pcm_f32)
            (last_samples keep_samples (f.pcm_f32 ++ h.pcm_f32))
  unfolding run_frames
  sent_twice p g f h q z d v n s e w =
      let a = process_pcm_frame p g in
      let b = process_pcm_frame a.0 f in
      let (ta, ba, va) = first_voice p g q v in
      let (o, u, l, c) = voice_state p g q v n z d in
      let (qb, tb, bb) = forgotten a.0 f o u va l c s e in
      let (th, bh, vh) = first_voice b.0 h qb w in
      let ea : a.1 ≡ false = ground (arith, process-ended p g) in
      let eb : (process_pcm_frame a.0 f).1 ≡ false = ground (arith, process-ended a.0 f) in
      let eh : (process_pcm_frame (process_pcm_frame a.0 f).0 h).1 ≡ false =
        ground (arith, process-ended b.0 h) in
      rw (ea, eb, eh, th, bb, ba, tb, ta) refl
