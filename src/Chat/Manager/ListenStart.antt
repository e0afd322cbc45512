-- ===== src/Chat/Manager/ListenStart.antt =====
-- `handle_listen_start` of session.rs, and `on_listen_start`, `on_listen_stop` and
-- `try_resume_pending_listen_start` of manager.rs. At each wait other tasks may invalidate the start.
use xiaozhi_esp32_server_rus.Common.{
  ℕ, Bool, true, false, not, ◌&&◌, ◌||◌, Option, none, some, List, [], ◌∷◌, ◌++◌, if◌then◌else◌,
}
use xiaozhi_esp32_server_rus.Common.Text.{Text, codes}
use xiaozhi_esp32_server_rus.Chat.Detect.{
  ListenPhase, idle, listening, speaking, is_realtime_mode,
  should_ignore_listen_start_during_welcome, should_ignore_listen_start_during_injected_speech,
  should_ignore_listen_start_during_speak, should_interrupt_output_on_listen_start,
}
use xiaozhi_esp32_server_rus.Chat.State.{is_listening, clear_abort}
use xiaozhi_esp32_server_rus.Chat.Session.{
  ChatSession, defer_listen_start, begin_listen_warmup, start_audio_idle_window,
}
use xiaozhi_esp32_server_rus.Chat.Asr.Frame.{is_manual}
use xiaozhi_esp32_server_rus.Chat.Asr.Pipeline.{
  restart_asr_recognition, abort_turn, start_recognition_loop,
}
use xiaozhi_esp32_server_rus.Chat.Manager.{
  ChatManager, Effect, nudge_tts_speaking_signal, reset_vad, reset_speaker, aborted,
  begin_listen_start, invalidate_times, is_current_listen_start, stop_speaking_with_reason,
}

-- What a call meets: whether speech is played, how often other tasks invalidate the start before
-- each of the three checks, whether a decoder can be made and the recogniser reached, the number
-- of the new task, and the clock.
pub record StartEnv : Type 0 where
  pub tts_active : Bool
  pub invalidated_1 : ℕ
  pub invalidated_2 : ℕ
  pub invalidated_3 : ℕ
  pub decodable : Bool
  pub connected : Bool
  pub task : ℕ
  pub now : ℕ

pub data StartResult : Type 0 where
  ignored deferred stale failed started : StartResult

pub record Start (C A : Type 0) : Type 0 where
  pub manager : ChatManager C A
  pub session : ChatSession C A
  pub effects : List Effect
  pub result : StartResult

-- `unwrap_or("auto")`
abbrev pub or_auto : Option Text → Text
or_auto none = codes "auto"
or_auto (some mode) = mode

abbrev pub is_speaking : ListenPhase → Bool
is_speaking speaking = true
is_speaking _ = false

module _ {C A : Type 0} where
  -- Behind the last check: the session listens, and the loop of the start runs.
  unfoldable pub enter_listening :
      ChatManager C A → ChatSession C A → List Effect → StartEnv → Start C A
  unfolding start_recognition_loop start_audio_idle_window
  enter_listening m s effects env =
      let phased = record s { state = record s.state { listen_phase = listening } } in
      let clocked =
        if is_listening s.state.listen_phase
        then phased
        else start_audio_idle_window phased env.now in
      let (p, old) = start_recognition_loop clocked.asr_pipeline env.task in
      record {
        manager = m;
        session = record clocked { asr_pipeline = p };
        effects = effects ++ aborted old;
        result = started;
      }

  -- The recognition is started. On an error the session is still to be closed, see Chat/Manager/Close.
  unfoldable pub connect :
      ChatManager C A → ChatSession C A → ℕ → List Effect → StartEnv → Start C A
  unfolding restart_asr_recognition abort_turn
  connect m s seq effects env =
      let (p, told, ok) = restart_asr_recognition s.asr_pipeline env.connected in
      let s' = record s { asr_pipeline = p } in
      let m' = invalidate_times env.invalidated_3 m in
      if not ok
      then record {
        manager = m';
        session =
            if is_current_listen_start m' seq
            then record s' { state = record s'.state { listen_phase = idle } }
            else s';
        effects = effects;
        result = failed;
      }
      else if not (is_current_listen_start m' seq)
      then record {
        manager = m';
        session = record s' { asr_pipeline = (abort_turn s'.asr_pipeline).0 };
        effects = effects;
        result = stale;
      }
      else enter_listening m' s' effects env

  unfoldable pub prepare :
      ChatManager C A → ChatSession C A → ℕ → Text → List Effect → StartEnv → Start C A
  unfolding clear_abort begin_listen_warmup
  prepare m s seq mode effects env =
      let s1 = record s {
        state = clear_abort (record s.state { listen_mode = mode });
        opus_decoder = env.decodable;
        speaker_streaming = false;
      } in
      let s2 =
        if is_manual mode
        then record s1 {
          asr_pipeline = record s1.asr_pipeline {
            voice = record s1.asr_pipeline.voice { have_voice = true };
          };
        }
        else s1 in
      let effects' = effects ++ reset_vad ∷ (if s.speaker then reset_speaker ∷ [] else []) in
      let m' = invalidate_times env.invalidated_2 m in
      if not (is_current_listen_start m' seq)
      then record { manager = m'; session = s2; effects = effects'; result = stale }
      else connect m' (if m'.is_mqtt_transport then begin_listen_warmup s2 env.now else s2) seq
          effects' env

  -- The start gets its number.
  unfoldable pub assign :
      ChatManager C A → ChatSession C A → Text → List Effect → StartEnv → Start C A
  assign m s mode effects env =
      let (m', seq) = begin_listen_start m mode in
      let m'' = invalidate_times env.invalidated_1 m' in
      if not (is_current_listen_start m'' seq)
      then record { manager = m''; session = s; effects = effects; result = stale }
      else prepare m'' s seq mode effects env

  abbrev stops : ChatSession C A → Text → Bool → Bool
  stops s mode need_stop =
      if not (is_realtime_mode mode)
      then need_stop
      else should_interrupt_output_on_listen_start mode s.state.welcome_playing && need_stop

  -- Behind the early returns: what is played is stopped.
  unfoldable pub stop_output :
      ChatManager C A
      → ChatSession C A
      → Text
      → Bool
      → ChatManager C A × ChatSession C A × List Effect
  stop_output m s mode need_stop =
      if stops s mode need_stop then stop_speaking_with_reason m s true true false else (m, s, [])

  unfoldable pub take_over : ChatManager C A → ChatSession C A → Text → Bool → StartEnv → Start C A
  take_over m s mode need_stop env =
      let (m', s', effects) = stop_output m s mode need_stop in assign m' s' mode effects env

  unfoldable pub handle_listen_start :
      ChatManager C A → ChatSession C A → Option Text → Bool → StartEnv → Start C A
  unfolding defer_listen_start should_ignore_listen_start_during_welcome
      should_ignore_listen_start_during_injected_speech should_ignore_listen_start_during_speak
  handle_listen_start m s mode has_prelisten_audio env =
      let mode_str = or_auto mode in
      let tts_active = m.tts_manager && env.tts_active in
      let speaks = is_speaking s.state.listen_phase in
      if should_ignore_listen_start_during_welcome mode_str s.state.welcome_playing
      then record {
        manager = m;
        session = s;
        effects = if m.tts_manager then nudge_tts_speaking_signal ∷ [] else [];
        result = ignored;
      }
      else if should_ignore_listen_start_during_injected_speech mode_str m.injected_speech_guard
      then record {
        manager = m;
        session = defer_listen_start s mode_str;
        effects = [];
        result = deferred;
      }
      else if should_ignore_listen_start_during_speak mode_str tts_active speaks has_prelisten_audio
      then record {
        manager = m;
        session = defer_listen_start s mode_str;
        effects = [];
        result = deferred;
      }
      else if is_realtime_mode mode_str && m.realtime_listen_active
      then record { manager = m; session = s; effects = []; result = ignored }
      else take_over m s mode_str (tts_active || speaks) env
