-- ===== src/Chat/Asr/Frame.antt =====
-- `process_pcm_frame` of asr_manager.rs: one frame of audio, which may end the turn. The parts are
-- those of the function, in their order.
use Prim.Native.Nat.{max}
use xiaozhi_esp32_server_rus.Common.{
  ℕ, ◌-◌, ◌*◌, Bool, true, false, not, ◌&&◌, ◌||◌, Option, none, some, List, [], ◌++◌, ltb, leb,
  if◌then◌else◌, length, drop,
}
use xiaozhi_esp32_server_rus.Common.Text.{Text, codes, text_eq}
use xiaozhi_esp32_server_rus.Chat.Detect.{ListenPhase}
use xiaozhi_esp32_server_rus.Chat.State.{is_listening}
use xiaozhi_esp32_server_rus.Chat.Asr.Pipeline.{
  AsrPipeline, AsrTurn, is_silence, reset_idle, add_idle, add_voice, reset_voice_in_session,
  on_voice_silence, add_audio_data,
}

-- The arguments of a call. `heard` is the detector's answer, `none` its error; `now_ms` the clock.
pub record Frame (A : Type 0) : Type 0 where
  pub pcm_f32 : List A
  pub listen_mode : Text
  pub listen_phase : ListenPhase
  pub heard : Option Bool
  pub suppress_end_detection : Bool
  pub now_ms : ℕ

pub record Detection (A : Type 0) : Type 0 where
  pub buffer : List A
  pub skip_vad : Bool
  pub have_voice : Bool
  pub client_have_voice : Bool

abbrev pub keep_samples : ℕ
keep_samples = 200 * 16

-- `unwrap_or(false)`
abbrev pub or_false : Option Bool → Bool
or_false none = false
or_false (some b) = b

abbrev pub is_manual : Text → Bool
is_manual mode = text_eq mode (codes "manual")

abbrev frame_ms : ℕ → ℕ
frame_ms duration = max duration 1

module _ {A : Type 0} where
  -- The last `n` of the samples.
  abbrev pub last_samples : ℕ → List A → List A
  last_samples n all = if ltb n (length all) then drop (length all - n) all else all

  detect : AsrPipeline A → Frame A → Detection A
  detect p f =
      if is_manual f.listen_mode
      then record {
        buffer = p.asr_audio_buffer;
        skip_vad = true;
        have_voice = true;
        client_have_voice = true;
      }
      else if p.asr_auto_end
      then record {
        buffer = p.asr_audio_buffer;
        skip_vad = true;
        have_voice = true;
        client_have_voice = p.voice.have_voice;
      }
      else (let all = p.asr_audio_buffer ++ f.pcm_f32 in
          let voice = leb (length f.pcm_f32) (length all) && or_false f.heard in
          record {
            buffer = if voice && not p.voice.have_voice then last_samples keep_samples all else all;
            skip_vad = false;
            have_voice = voice;
            client_have_voice = p.voice.have_voice;
          })

  note_voice : AsrPipeline A → ℕ → AsrPipeline A
  unfolding reset_idle add_voice
  note_voice p now = record p {
    voice = record p.voice { have_voice = true; have_voice_last_time_ms = now };
    vad = add_voice (reset_idle p.vad) (frame_ms p.frame_duration_ms);
  }

  note_silence : AsrPipeline A → AsrPipeline A
  unfolding add_idle
  note_silence p = record p { vad = add_idle p.vad (frame_ms p.frame_duration_ms) }

  abbrev send_some : AsrPipeline A → List A → AsrPipeline A
  send_some p chunk = if leb (length chunk) 0 then p else add_audio_data p chunk

  send_frame : AsrPipeline A → Frame A → Detection A → AsrPipeline A
  unfolding add_audio_data
  send_frame p f d =
      if d.client_have_voice || d.have_voice
      then if not d.skip_vad && d.have_voice && not d.client_have_voice
        then send_some (record p { asr_audio_buffer = [] }) p.asr_audio_buffer
        else send_some p f.pcm_f32
      else p

  -- Beside the pipeline: the result of the call, and the turn whose channel is closed.
  end_turn : AsrPipeline A → Frame A → Detection A → AsrPipeline A × Bool × Option (AsrTurn A)
  unfolding on_voice_silence reset_voice_in_session is_silence
  end_turn p f d =
      if d.client_have_voice
        && ltb 0 p.voice.have_voice_last_time_ms
        && not d.have_voice
        && not f.suppress_end_detection
      then if ltb p.vad.voice_duration_in_session_ms 100
        then (
          record p {
            voice = record p.voice { have_voice = false };
            vad = reset_voice_in_session p.vad;
          },
          false,
          none,
        )
        else if is_silence p.voice p.vad.idle_duration_ms
        then (let (q, closed) = on_voice_silence p in (q, true, closed))
        else (p, false, none)
      else (p, false, none)

  unfoldable pub process_pcm_frame :
      AsrPipeline A → Frame A → AsrPipeline A × Bool × Option (AsrTurn A)
  unfolding detect note_voice note_silence send_frame end_turn
  process_pcm_frame p f =
      if p.voice.client_voice_stop
      then (p, false, none)
      else if not (is_listening f.listen_phase)
      then (p, false, none)
      else (let d = detect p f in
          let q = record p { asr_audio_buffer = d.buffer } in
          if d.have_voice
          then end_turn (send_frame (note_voice q f.now_ms) f d) f d
          else if not d.client_have_voice
          then (note_silence q, false, none)
          else end_turn (send_frame (note_silence q) f d) f d)
