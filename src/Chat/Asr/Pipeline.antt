-- ===== src/Chat/Asr/Pipeline.antt =====
-- voice_status.rs, and `AsrPipeline` of asr_manager.rs with the turn that it feeds.
use Prim.Native.Nat.{min}
use xiaozhi_esp32_server_rus.Common.{
  ℕ, ◌+◌, ◌-◌, ◌^◌, Bool, true, false, ◌&&◌, Option, none, some, List, [], ◌∷◌, ◌++◌, ltb,
  if◌then◌else◌, length,
}
use xiaozhi_esp32_server_rus.Common.Int.{ℤ, exceeds, as_i64}
use xiaozhi_esp32_server_rus.Common.Text.{Text}

abbrev pub i64_max : ℕ
i64_max = 2 ^ 63 - 1

pub record VoiceStatus : Type 0 where
  pub have_voice : Bool
  pub have_voice_last_time_ms : ℕ
  pub client_voice_stop : Bool
  pub silence_threshold_ms : ℤ

unfoldable pub reset : VoiceStatus → VoiceStatus
reset v = record v { have_voice = false; have_voice_last_time_ms = 0; client_voice_stop = false }

unfoldable pub is_silence : VoiceStatus → ℕ → Bool
is_silence v idle_ms = exceeds idle_ms v.silence_threshold_ms

pub record VadTracker : Type 0 where
  pub idle_duration_ms : ℕ
  pub voice_duration_in_session_ms : ℕ

-- `saturating_add`
abbrev pub saturating_add : ℕ → ℕ → ℕ
saturating_add a b = min (a + b) i64_max

unfoldable pub add_idle : VadTracker → ℕ → VadTracker
add_idle t ms = record t { idle_duration_ms = saturating_add t.idle_duration_ms ms }

unfoldable pub reset_idle : VadTracker → VadTracker
reset_idle t = record t { idle_duration_ms = 0 }

unfoldable pub add_voice : VadTracker → ℕ → VadTracker
add_voice t ms = record t {
  voice_duration_in_session_ms = saturating_add t.voice_duration_in_session_ms ms;
}

unfoldable pub reset_voice_in_session : VadTracker → VadTracker
reset_voice_in_session t = record t { voice_duration_in_session_ms = 0 }

reset_all : VadTracker → VadTracker
unfolding reset_idle reset_voice_in_session
reset_all t = reset_voice_in_session (reset_idle t)

pub data AsrTurnOutcome : Type 0 where
  text : Text → AsrTurnOutcome
  empty : AsrTurnOutcome
  error : Text → AsrTurnOutcome
  cancelled : AsrTurnOutcome

-- The channel of a turn: the chunks that it has taken, and how many of them the recogniser has
-- read. `open` is whether the recogniser still holds its end.
pub record Channel (A : Type 0) : Type 0 where
  pub accepted : List (List A)
  pub read : ℕ
  pub receiver_alive : Bool

abbrev asr_audio_channel_cap : ℕ
asr_audio_channel_cap = 100

module _ {A : Type 0} where
  unfoldable pub fresh : Channel A
  fresh = record { accepted = []; read = 0; receiver_alive = true }

  -- `try_send`, which fails on a full channel and on one without a receiver; the caller then drops
  -- the chunk.
  unfoldable pub try_send : Channel A → List A → Channel A × Bool
  try_send c chunk =
      if c.receiver_alive && ltb (length c.accepted - c.read) asr_audio_channel_cap
      then (record c { accepted = c.accepted ++ chunk ∷ [] }, true)
      else (c, false)

-- `outcome_tx` is a handle by its number.
pub record AsrTurn (A : Type 0) : Type 0 where
  pub audio_tx : Channel A
  pub outcome_tx : Option ℕ

-- `loop_handle` is a task by its number.
pub record AsrPipeline (A : Type 0) : Type 0 where
  pub voice : VoiceStatus
  pub vad : VadTracker
  pub asr_audio_buffer : List A
  pub asr_auto_end : Bool
  pub frame_duration_ms : ℕ
  pub turn : Option (AsrTurn A)
  pub loop_handle : Option ℕ
  pub received_text_in_turn : Bool

module _ {A : Type 0} where
  unfoldable pub new : ℕ → Bool → AsrPipeline A
  new silence_threshold_ms asr_auto_end = record {
    voice = record {
      have_voice = false;
      have_voice_last_time_ms = 0;
      client_voice_stop = false;
      silence_threshold_ms = as_i64 silence_threshold_ms;
    };
    vad = record { idle_duration_ms = 0; voice_duration_in_session_ms = 0 };
    asr_audio_buffer = [];
    asr_auto_end = asr_auto_end;
    turn = none;
    frame_duration_ms = 20;
    loop_handle = none;
    received_text_in_turn = false;
  }

  unfoldable pub has_open_audio_input : AsrPipeline A → Bool
  has_open_audio_input p = elim p.turn [ none ↦ false | some t ↦ true ]

  unfoldable pub mark_text_received : AsrPipeline A → AsrPipeline A
  mark_text_received p = record p { received_text_in_turn = true }

  unfoldable pub reset_received_text : AsrPipeline A → AsrPipeline A
  reset_received_text p = record p { received_text_in_turn = false }

  -- Beside the pipeline: the turn whose channel is closed.
  unfoldable pub on_voice_silence : AsrPipeline A → AsrPipeline A × Option (AsrTurn A)
  on_voice_silence p =
      (record p { voice = record p.voice { client_voice_stop = true }; turn = none }, p.turn)

  unfoldable pub on_manual_stop : AsrPipeline A → AsrPipeline A × Option (AsrTurn A)
  unfolding on_voice_silence
  on_manual_stop p = on_voice_silence p

  -- The handle to which `Cancelled` is sent when a turn is taken.
  abbrev pub cancelled_handle : Option (AsrTurn A) → Option ℕ
  cancelled_handle none = none
  cancelled_handle (some t) = t.outcome_tx

  -- Beside the pipeline: the handle that gets `Cancelled`.
  unfoldable pub abort_turn : AsrPipeline A → AsrPipeline A × Option ℕ
  abort_turn p = (record p { turn = none }, cancelled_handle p.turn)

  -- Beside the pipeline: the handle that gets `Cancelled`, and the task that is aborted.
  unfoldable pub abort_loop : AsrPipeline A → AsrPipeline A × Option ℕ × Option ℕ
  unfolding abort_turn
  abort_loop p =
      let (p', sent) = abort_turn (record p { loop_handle = none }) in (p', sent, p.loop_handle)

  unfoldable pub resume_audio_idle : AsrPipeline A → AsrPipeline A
  unfolding reset reset_all
  resume_audio_idle p = record p {
    voice = reset p.voice;
    vad = reset_all p.vad;
    asr_audio_buffer = [];
  }

  -- Beside the pipeline: the task that is aborted. `task` is the one that is spawned.
  unfoldable pub start_recognition_loop : AsrPipeline A → ℕ → AsrPipeline A × Option ℕ
  start_recognition_loop p task = (record p { loop_handle = some task }, p.loop_handle)

  -- Beside the pipeline: the handle that gets `Cancelled`, and whether the recogniser took the new
  -- channel, which is `connected`. The sender of the new outcome goes to the task that reads the
  -- results, and is not kept in the turn.
  unfoldable pub restart_asr_recognition : AsrPipeline A → Bool → AsrPipeline A × Option ℕ × Bool
  unfolding reset_received_text fresh
  restart_asr_recognition p connected =
      let q = reset_received_text (record p { turn = none }) in
      let r = record q { voice = record q.voice { client_voice_stop = false } } in
      if connected
      then (
        record r { turn = some (record { audio_tx = fresh; outcome_tx = none }) },
        cancelled_handle p.turn,
        true,
      )
      else (r, cancelled_handle p.turn, false)

  abbrev pub add_to_turn : Option (AsrTurn A) → List A → Option (AsrTurn A)
  add_to_turn none pcm = none
  add_to_turn (some t) pcm = some (record t { audio_tx = (try_send t.audio_tx pcm).0 })

  unfoldable pub add_audio_data : AsrPipeline A → List A → AsrPipeline A
  unfolding try_send
  add_audio_data p pcm = record p { turn = add_to_turn p.turn pcm }
