-- ===== src/Chat/Session/Audio.antt =====
-- The uplink audio of session.rs: `process_audio`, and the frames kept before a listen start.
use xiaozhi_esp32_server_rus.Common.{
  ℕ, Bool, true, false, not, ◌&&◌, Option, none, some, List, [], ◌∷◌, ltb, if◌then◌else◌, length,
}
use xiaozhi_esp32_server_rus.Chat.Detect.{ListenPhase, idle, listening, processing, speaking}
use xiaozhi_esp32_server_rus.Chat.State.{
  RealtimeMode, vad_interrupt, asr_interrupt, speaker_interrupt, asr_final_interrupt, trigger_abort,
}
use xiaozhi_esp32_server_rus.Chat.Asr.Frame.{Frame, process_pcm_frame}
use xiaozhi_esp32_server_rus.Chat.Session.{ChatSession, is_in_listen_warmup}

module _ {C A : Type 0} where
  -- The frames kept before the listen start, each with the detector's answer, all at one time.
  unfoldable pub flush_prelisten_pcm :
      ChatSession C A → List (List A × Option Bool) → ℕ → ℕ → ChatSession C A
  unfolding is_in_listen_warmup
  flush_prelisten_pcm s [] now_ms now = s
  flush_prelisten_pcm s ((pcm, heard) ∷ frames) now_ms now =
      let frame : Frame A = record {
        pcm_f32 = pcm;
        listen_mode = s.state.listen_mode;
        listen_phase = s.state.listen_phase;
        heard = heard;
        suppress_end_detection = is_in_listen_warmup s now;
        now_ms = now_ms;
      } in
      let s' =
        if ltb 0 (length pcm)
        then record s { asr_pipeline = (process_pcm_frame s.asr_pipeline frame).0 }
        else s in
      flush_prelisten_pcm s' frames now_ms now

  -- `started` is whether the speaker service accepts a stream.
  process_listening_frame : ChatSession C A → List A → Option Bool → Bool → ℕ → ℕ → ChatSession C A
  unfolding is_in_listen_warmup
  process_listening_frame s pcm heard started now_ms now =
      if s.asr_pipeline.voice.client_voice_stop
      then s
      else (let frame : Frame A = record {
        pcm_f32 = pcm;
        listen_mode = s.state.listen_mode;
        listen_phase = s.state.listen_phase;
        heard = heard;
        suppress_end_detection = is_in_listen_warmup s now;
        now_ms = now_ms;
      } in
          let s' = record s { asr_pipeline = (process_pcm_frame s.asr_pipeline frame).0 } in
          if s'.asr_pipeline.voice.have_voice && s.speaker && not s.speaker_streaming && started
          then record s' { speaker_streaming = true }
          else s')

-- What a call hands back: the samples kept for the next listen start, nothing, or an error.
pub data Uplink (A : Type 0) : Type 0 where
  pre_listen : List A → Uplink A
  no_pcm : Uplink A
  failed : Uplink A

abbrev interrupts : RealtimeMode → Bool → Bool
interrupts vad_interrupt speaker = true
interrupts asr_interrupt speaker = true
interrupts speaker_interrupt speaker = speaker
interrupts asr_final_interrupt speaker = false

module _ {C A : Type 0} where
  -- While the device speaks, voice may abort the answer; an error of the detector is handed on.
  on_speaking_frame : ChatSession C A → RealtimeMode → Option Bool → ChatSession C A × Uplink A
  unfolding trigger_abort
  on_speaking_frame s mode none = (s, failed)
  on_speaking_frame s mode (some voice) =
      if voice && interrupts mode s.speaker
      then (record s { state = trigger_abort s.state }, no_pcm)
      else (s, no_pcm)

  by_phase :
      ChatSession C A
      → ListenPhase
      → RealtimeMode
      → List A
      → Option Bool
      → Bool
      → ℕ
      → ℕ
      → ChatSession C A × Uplink A
  unfolding on_speaking_frame process_listening_frame
  by_phase s idle mode pcm heard started now_ms now = (s, pre_listen pcm)
  by_phase s listening mode pcm heard started now_ms now =
      (process_listening_frame s pcm heard started now_ms now, no_pcm)
  by_phase s processing mode pcm heard started now_ms now = (s, no_pcm)
  by_phase s speaking mode pcm heard started now_ms now = on_speaking_frame s mode heard

  -- `decodable` is whether a decoder can be made, `decoded` the samples of the packet, `none` an
  -- error of the decoder.
  unfoldable pub process_audio :
      ChatSession C A
      → RealtimeMode
      → Bool
      → Option (List A)
      → Option Bool
      → Bool
      → ℕ
      → ℕ
      → ChatSession C A × Uplink A
  unfolding by_phase
  process_audio s mode decodable decoded heard started now_ms now =
      if not s.opus_decoder && not decodable then (s, failed) else elim decoded [
        | none ↦ (record s { opus_decoder = true }, failed)
        | some pcm ↦
            if ltb 0 (length pcm)
            then by_phase (record s { opus_decoder = true }) s.state.listen_phase mode pcm heard
                started now_ms now
            else (record s { opus_decoder = true }, no_pcm)
      ]
